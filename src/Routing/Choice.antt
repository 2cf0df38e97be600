-- ===== src/Routing/Choice.antt =====
-- Which rule `resolve` picks.
use omni_model.Prelude.{
  String, ◌≡◌, refl, sym, ap, subst, ◌⊎◌, inl, inr, Bool, true, false, Option, none, some, List, [],
  ◌∷◌, ◌++◌, arith, All, Bool-cases, if◌then◌else◌,
}
use omni_model.Prelude.Result.{ok, err}
use omni_model.Errors.{OmniError}
use omni_model.Facts.{RequestFacts, Evaluation, boolean, other, threw, is_true}
use omni_model.Routing.{
  CompiledRoutingRule, RouteDecision, Resolution, model_refused, decision_of, pass_over, warn_once,
  try_rule, resolve_rules, nothing_matched, refusal, resolve,
}

-- The rule's condition is `true`, and no earlier rule's is.
pub record IsFirstMatch {P : Type 0} (facts : RequestFacts) (rules : List (CompiledRoutingRule P))
    (rule : CompiledRoutingRule P) : Type 0 where
  pub before : List (CompiledRoutingRule P)
  pub after : List (CompiledRoutingRule P)
  pub listed : rules ≡ before ++ rule ∷ after
  pub holds : is_true (rule.when facts) ≡ true
  pub passed : All (λ r. is_true (r.when facts) ≡ false) before

module _ {P : Type 0} (facts : RequestFacts) where
  abbrev Found : List (CompiledRoutingRule P) → Option (RouteDecision P) → Type 0
  Found rules decision =
      ((decision ≡ none) × All (λ r. is_true (r.when facts) ≡ false) rules)
      ⊎ ((rule : CompiledRoutingRule P) × (decision ≡ some (decision_of facts rule))
          × IsFirstMatch facts rules rule)

  Found-skip :
      (r : CompiledRoutingRule P) (rules : List (CompiledRoutingRule P))
      (d : Option (RouteDecision P))
      → is_true (r.when facts) ≡ false
      → Found rules d
      → Found (r ∷ rules) d
  Found-skip r rules d no_match (inl (nothing, free)) = inl (nothing, (no_match, free))
  Found-skip r rules d no_match (inr (rule, chosen, first)) = inr (
    rule,
    chosen,
    record {
      before = r ∷ first.before;
      after = first.after;
      listed = ap (λ rs. r ∷ rs) first.listed;
      holds = first.holds;
      passed = (no_match, first.passed);
    },
  )

  -- What a round does to the decision.
  pub decision-try_rule :
      (r : CompiledRoutingRule P) (rules : List (CompiledRoutingRule P)) (e : Evaluation)
      (rest : Resolution P)
      → (try_rule facts r rules e rest).decision
        ≡ (if is_true e then some (decision_of facts r) else rest.decision)
  unfolding try_rule pass_over warn_once
  decision-try_rule r rules (boolean true) rest = refl
  decision-try_rule r rules (boolean false) rest = refl
  decision-try_rule r rules (other t) rest = ground arith
  decision-try_rule r rules (threw m) rest = refl

  Found-cons :
      (r : CompiledRoutingRule P) (rules : List (CompiledRoutingRule P))
      (d : Option (RouteDecision P)) (b : Bool)
      → is_true (r.when facts) ≡ b
      → Found rules d
      → Found (r ∷ rules) (if b then some (decision_of facts r) else d)
  Found-cons r rules d true holds found =
      inr
        (r, refl, record { before = []; after = rules; listed = refl; holds = holds; passed = tt })
  Found-cons r rules d false no_match found = Found-skip r rules d no_match found

  resolve_rules-Found :
      (rules : List (CompiledRoutingRule P)) → Found rules (resolve_rules facts rules).decision
  unfolding resolve_rules
  resolve_rules-Found [] = inl (refl, tt)
  resolve_rules-Found (r ∷ rules) =
      subst (Found (r ∷ rules))
        (sym (decision-try_rule r rules (r.when facts) (resolve_rules facts rules)))
        (Found-cons r rules _ (is_true (r.when facts)) refl (resolve_rules-Found rules))

nothing_matched-status :
    {P : Type 0} (facts : RequestFacts) (rules : List (CompiledRoutingRule P))
    → (nothing_matched facts rules).status ≡ 404
unfolding nothing_matched
nothing_matched-status facts [] = refl
nothing_matched-status facts (r ∷ rules) = refl

-- A refused model is answered with a 404; so is a request when no rule's condition is `true`; any
-- other request is served by the first rule whose condition is `true`.
pub resolve_exact :
    {P : Type 0} (allowed_models : List String) (rules : List (CompiledRoutingRule P))
    (facts : RequestFacts)
    → ((e : OmniError) × ((resolve allowed_models rules facts).0 ≡ err e)
        × (e.status ≡ 404)
        × ((model_refused allowed_models facts.model ≡ true)
            ⊎ All (λ r. is_true (r.when facts) ≡ false) rules))
      ⊎ ((rule : CompiledRoutingRule P) × ((resolve allowed_models rules facts).0
            ≡ ok (decision_of facts rule))
          × (model_refused allowed_models facts.model ≡ false)
          × IsFirstMatch facts rules rule)
unfolding resolve refusal
resolve_exact allowed_models rules facts =
    elim (Bool-cases (model_refused allowed_models facts.model)) [
      | inl refused ↦ inl (refusal facts, rw refused, refl, inl refused)
      | inr allowed ↦ elim (resolve_rules-Found facts rules) [
        | inl (nothing, free) ↦ inl (
          nothing_matched facts rules,
          rw allowed (rw nothing),
          nothing_matched-status facts rules,
          inr free,
        )
        | inr (rule, chosen, first) ↦ inr (rule, rw allowed (rw chosen), allowed, first)
      ]
    ]
