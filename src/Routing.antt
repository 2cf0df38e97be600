-- ===== src/Routing.antt =====
-- packages/core/src/routing/router.ts: which rule serves a request. Providers are a parameter.
pub mod Choice
pub mod Explain
pub mod Unreachable
pub mod Warnings
use omni_model.Prelude.{
  ℕ, ◌+◌, zero, suc, String, Bool, true, false, ◌&&◌, not, Option, none, some, List, [], ◌∷◌, ◌==◌,
  map, if◌then◌else◌, or_else, or_option, any,
}
use omni_model.Prelude.Text.{◌<>◌, show}
use omni_model.Prelude.Result.{Result, ok, err}
use omni_model.Errors.{OmniError, omni_error}
use omni_model.Facts.{RequestFacts, Evaluation, boolean, other, threw, CompiledExpression}
use omni_model.Util.Duration.{trim}

pub record CompiledRoutingRule (P : Type 0) : Type 0 where
  pub when : CompiledExpression
  pub route_name : String
  pub provider : P
  pub provider_id : String
  pub provider_type : String
  pub fallback_provider : Option P
  pub fallback_provider_id : Option String
  pub fallback_provider_type : Option String
  pub model : Option String
  pub warned_non_boolean : Bool

pub record RouteDecision (P : Type 0) : Type 0 where
  pub provider : P
  pub provider_id : String
  pub provider_type : String
  pub fallback_provider : Option P
  pub fallback_provider_id : Option String
  pub fallback_provider_type : Option String
  pub model : String
  pub route_name : String

pub data Outcome : Type 0 where
  matched no_match : Outcome
  -- the error's message
  failed : String → Outcome
  -- the result's type
  non_boolean : String → Outcome

pub record RuleEvaluation : Type 0 where
  pub rule : String
  pub provider_id : String
  pub provider_type : String
  pub outcome : Outcome

-- `facts.request.model` is not in a list that is not empty.
unfoldable pub model_refused : List String → String → Bool
model_refused [] model = false
model_refused (m ∷ ms) model = not (any (λ allowed. allowed == model) (m ∷ ms))

model_not_found : String → OmniError
model_not_found message =
    omni_error 404 message
      (record { type = none; code = some "model_not_found"; param = some "model"; headers = [] })

-- What the loop of `resolve` leaves: the decision, the rules with their flags, and the names of the
-- rules that it warned about.
pub record Resolution (P : Type 0) : Type 0 where
  pub decision : Option (RouteDecision P)
  pub rules : List (CompiledRoutingRule P)
  pub warnings : List String

refusal : RequestFacts → OmniError
unfolding model_not_found omni_error
refusal facts =
    model_not_found ("The model `" <> facts.model <> "` is not available for this deployment.")

module _ {P : Type 0} where
  -- What the router returns for a rule; a fallback's id and type go along only with a fallback.
  unfoldable pub decision_of : RequestFacts → CompiledRoutingRule P → RouteDecision P
  decision_of facts rule = record {
    provider = rule.provider;
    provider_id = rule.provider_id;
    provider_type = rule.provider_type;
    fallback_provider = rule.fallback_provider;
    fallback_provider_id = elim rule.fallback_provider [
      | none ↦ none
      | some p ↦ rule.fallback_provider_id
    ];
    fallback_provider_type = elim rule.fallback_provider [
      | none ↦ none
      | some p ↦ rule.fallback_provider_type
    ];
    model = or_else rule.model facts.model;
    route_name = rule.route_name;
  }

  pass_over : CompiledRoutingRule P → Resolution P → Resolution P
  pass_over rule rest = record rest { rules = rule ∷ rest.rules }

  -- The warning about a result that is no Boolean, once for each rule.
  warn_once : CompiledRoutingRule P → Resolution P → Resolution P
  warn_once rule rest = if rule.warned_non_boolean then pass_over rule rest else record {
    decision = rest.decision;
    rules = record rule { warned_non_boolean = true } ∷ rest.rules;
    warnings = rule.route_name ∷ rest.warnings;
  }

  -- One round of the loop, by what the rule's condition did.
  unfoldable pub try_rule :
      RequestFacts
      → CompiledRoutingRule P
      → List (CompiledRoutingRule P)
      → Evaluation
      → Resolution P
      → Resolution P
  unfolding pass_over warn_once
  try_rule facts rule rules (boolean true) rest = record {
    decision = some (decision_of facts rule);
    rules = rule ∷ rules;
    warnings = [];
  }
  try_rule facts rule rules (boolean false) rest = pass_over rule rest
  try_rule facts rule rules (other t) rest = warn_once rule rest
  try_rule facts rule rules (threw e) rest = pass_over rule rest

  unfoldable pub resolve_rules : RequestFacts → List (CompiledRoutingRule P) → Resolution P
  unfolding try_rule pass_over warn_once
  resolve_rules facts [] = record { decision = none; rules = []; warnings = [] }
  resolve_rules facts (rule ∷ rules) =
      try_rule facts rule rules (rule.when facts) (resolve_rules facts rules)

  nothing_matched : RequestFacts → List (CompiledRoutingRule P) → OmniError
  unfolding model_not_found omni_error
  nothing_matched facts [] =
      model_not_found "no routing rules are configured, so nothing can be served yet"
  nothing_matched facts (rule ∷ rules) =
      model_not_found
        ("The model `" <> facts.model <> "` does not exist or no rule is configured to serve it.")

  answer :
      RequestFacts
      → List (CompiledRoutingRule P)
      → Option (RouteDecision P)
      → Result OmniError (RouteDecision P)
  answer facts rules none = err (nothing_matched facts rules)
  answer facts rules (some d) = ok d

  -- `resolve`, with the rules' flags after it and the warnings that it logged.
  unfoldable pub resolve :
      List String
      → List (CompiledRoutingRule P)
      → RequestFacts
      → Result OmniError (RouteDecision P) × List (CompiledRoutingRule P) × List String
  unfolding refusal nothing_matched answer
  resolve allowed_models rules facts =
      let found = resolve_rules facts rules in
      if model_refused allowed_models facts.model
      then (err (refusal facts), rules, [])
      else (answer facts rules found.decision, found.rules, found.warnings)

  base_evaluation : CompiledRoutingRule P → Outcome → RuleEvaluation
  base_evaluation rule outcome = record {
    rule = rule.route_name;
    provider_id = rule.provider_id;
    provider_type = rule.provider_type;
    outcome = outcome;
  }

  -- One round of `explain`: it stops at the first match.
  report : CompiledRoutingRule P → Evaluation → List RuleEvaluation → List RuleEvaluation
  unfolding base_evaluation
  report rule (boolean true) rest = base_evaluation rule matched ∷ []
  report rule (boolean false) rest = base_evaluation rule no_match ∷ rest
  report rule (other t) rest = base_evaluation rule (non_boolean t) ∷ rest
  report rule (threw e) rest = base_evaluation rule (failed e) ∷ rest

  unfoldable pub explain : RequestFacts → List (CompiledRoutingRule P) → List RuleEvaluation
  unfolding report
  explain facts [] = []
  explain facts (rule ∷ rules) = report rule (rule.when facts) (explain facts rules)

-- The parts of a routing rule's configuration that `unreachableRules` reads.
pub record RoutingRuleConfig : Type 0 where
  pub when : String
  pub id : Option String
  pub name : Option String

-- `rule.name ?? rule.id ?? `rules[${index}]``
unfoldable pub label : RoutingRuleConfig → ℕ → String
label rule index = or_else (or_option rule.name rule.id) ("rules[" <> show index <> "]")

-- `rules.findIndex((rule) => rule.when.trim() === "true")`, with the rule and those after it.
unfoldable pub find_catch_all :
    ℕ → List RoutingRuleConfig → Option (ℕ × RoutingRuleConfig × List RoutingRuleConfig)
find_catch_all index [] = none
find_catch_all index (rule ∷ rules) =
    let later = find_catch_all (suc index) rules in
    if trim rule.when == "true" then some (index, rule, rules) else later

shadowed : String → ℕ → List RoutingRuleConfig → List (String × String)
shadowed by index [] = []
shadowed by index (rule ∷ rules) = (label rule index, by) ∷ shadowed by (suc index) rules

report_shadowed : Option (ℕ × RoutingRuleConfig × List RoutingRuleConfig) → List (String × String)
report_shadowed none = []
report_shadowed (some (index, rule, rules)) = shadowed (label rule index) (suc index) rules

-- The rules behind the first catch-all, each with the catch-all's label.
unfoldable pub unreachable_rules : List RoutingRuleConfig → List (String × String)
unfolding report_shadowed shadowed find_catch_all
unreachable_rules rules = report_shadowed (find_catch_all 0 rules)
