-- ===== src/Tests/Routes.antt =====
-- Routing with one rule for a model and a catch-all before a third rule.
use omni_model.Prelude.{
  ◌++◌, suc, String, ◌≡◌, refl, ◌⊎◌, true, false, none, some, List, [], ◌∷◌, map, All, take, length,
  ◌==◌,
}
use omni_model.Prelude.Result.{ok, err}
use omni_model.Errors.{OmniError}
use omni_model.Facts.{RequestFacts, boolean, other, is_true}
use omni_model.Routing.{
  CompiledRoutingRule, decision_of, model_refused, try_rule, label, find_catch_all, resolve_rules,
  resolve, RoutingRuleConfig, unreachable_rules,
}
use omni_model.Routing.Choice.{IsFirstMatch, resolve_exact}
use omni_model.Routing.Explain.{NoneReported, LastReported, explain_agrees}
use omni_model.Routing.Unreachable.{
  AreCompiled, IsNoCatchAll, IsCatchAll, labels_from, unreachable_rules-decision,
}
use omni_model.Util.Duration.{trim, is_space}

abbrev request : RequestFacts
request = record {
  model = "large";
  input_token_count = 3;
  max_tokens = none;
  temperature = none;
  user_id = some "ann";
  user_claims = "{}";
  user_providers = [];
  client_id = none;
  client_name = none;
  http_method = "POST";
  http_path = "/v1/chat/completions";
  http_ip = none;
  http_headers = [];
}

abbrev by_model : CompiledRoutingRule String
by_model = record {
  when = λ facts. boolean (facts.model == "small");
  route_name = "small";
  provider = "provider a";
  provider_id = "a";
  provider_type = "openai";
  fallback_provider = none;
  fallback_provider_id = none;
  fallback_provider_type = none;
  model = none;
  warned_non_boolean = false;
}

-- Its condition gives a number.
abbrev numeric : CompiledRoutingRule String
numeric = record by_model { when = λ facts. other "number"; route_name = "numeric" }

abbrev catch_all : CompiledRoutingRule String
catch_all = record by_model { when = λ facts. boolean true; route_name = "rest" }

abbrev rules : List (CompiledRoutingRule String)
rules = by_model ∷ numeric ∷ catch_all ∷ by_model ∷ []

abbrev configured : RoutingRuleConfig
configured = record { when = "request.model == 'small'"; id = none; name = some "small" }

abbrev always : RoutingRuleConfig
always = record { when = " true "; id = some "rest"; name = none }

abbrev config : List RoutingRuleConfig
config = configured ∷ configured ∷ always ∷ configured ∷ []

served : (resolve [] rules request).0 ≡ ok (decision_of request catch_all)
unfolding resolve resolve_rules model_refused try_rule
served = refl

reported : unreachable_rules config ≡ ("small", "rest") ∷ []
unfolding unreachable_rules find_catch_all trim is_space label
reported = refl

resolve_exact_example :
    ((e : OmniError) × ((resolve [] rules request).0 ≡ err e)
      × (e.status ≡ 404)
      × ((model_refused [] request.model ≡ true)
          ⊎ All (λ r. is_true (r.when request) ≡ false) rules))
    ⊎ ((rule : CompiledRoutingRule String) × ((resolve [] rules request).0
          ≡ ok (decision_of request rule))
        × (model_refused [] request.model ≡ false)
        × IsFirstMatch request rules rule)
resolve_exact_example = resolve_exact [] rules request

not_always : (trim "request.model == 'small'" == "true") ≡ false
unfolding trim is_space
not_always = refl

rules-AreCompiled : AreCompiled config rules
rules-AreCompiled = (
  λ h. cc (not_always, h),
  (λ h. cc (not_always, h), (λ h facts. refl, (λ h. cc (not_always, h), tt))),
)

explain_agrees_example : NoneReported request rules ⊎ LastReported request rules
explain_agrees_example = explain_agrees request rules

unreachable_rules-decision_example :
    (All IsNoCatchAll config × (unreachable_rules config ≡ []))
    ⊎ ((before : List RoutingRuleConfig) × (catch_all : RoutingRuleConfig) × (behind : List
          RoutingRuleConfig)
        × (config ≡ before ++ catch_all ∷ behind)
        × All IsNoCatchAll before
        × IsCatchAll catch_all
        × (unreachable_rules config
            ≡ map
                (λ l. (l, label catch_all (length before)))
                (labels_from (suc (length before)) behind))
        × ((facts : RequestFacts)
            → (resolve_rules facts (take (suc (length before)) rules)).decision
              ≡ (resolve_rules facts rules).decision))
unreachable_rules-decision_example = unreachable_rules-decision config rules rules-AreCompiled
