-- ===== src/Routing/Explain.antt =====
-- What `explain` reports, beside what `resolve` does.
use omni_model.Prelude.{
  ◌≡◌, refl, ap, ◌∙◌, true, false, none, some, List, [], ◌∷◌, ◌++◌, map, ◌⊎◌, inl, inr, Bool-cases,
  if◌then◌else◌, All,
}
use omni_model.Facts.{RequestFacts, Evaluation, boolean, other, threw, is_true}
use omni_model.Routing.{
  CompiledRoutingRule, Outcome, matched, no_match, failed, non_boolean, RuleEvaluation, decision_of,
  resolve_rules, base_evaluation, report, explain,
}
use omni_model.Routing.Choice.{decision-try_rule}

-- How a condition's result is to be reported.
abbrev pub outcome_of : Evaluation → Outcome
outcome_of (boolean true) = matched
outcome_of (boolean false) = no_match
outcome_of (other t) = non_boolean t
outcome_of (threw e) = failed e

module _ {P : Type 0} (facts : RequestFacts) where
  abbrev pub evaluation_of : CompiledRoutingRule P → RuleEvaluation
  evaluation_of rule = record {
    rule = rule.route_name;
    provider_id = rule.provider_id;
    provider_type = rule.provider_type;
    outcome = outcome_of (rule.when facts);
  }

  -- No rule's condition is true: every rule is reported, and none is chosen.
  pub record NoneReported (rules : List (CompiledRoutingRule P)) : Type 0 where
    pub passed : All (λ r. is_true (r.when facts) ≡ false) rules
    pub reported : explain facts rules ≡ map evaluation_of rules
    pub unresolved : (resolve_rules facts rules).decision ≡ none

  -- The rule is the first whose condition is true: the rules up to it are reported and no other, and
  -- it is chosen.
  pub record LastReported (rules : List (CompiledRoutingRule P)) : Type 0 where
    pub before : List (CompiledRoutingRule P)
    pub rule : CompiledRoutingRule P
    pub after : List (CompiledRoutingRule P)
    pub listed : rules ≡ before ++ rule ∷ after
    pub passed : All (λ r. is_true (r.when facts) ≡ false) before
    pub holds : is_true (rule.when facts) ≡ true
    pub reported : explain facts rules ≡ map evaluation_of (before ++ rule ∷ [])
    pub resolved : (resolve_rules facts rules).decision ≡ some (decision_of facts rule)

  report-matched :
      (rule : CompiledRoutingRule P) (e : Evaluation) (rest : List RuleEvaluation)
      → is_true e ≡ true
      → report rule e rest ≡ base_evaluation rule (outcome_of e) ∷ []
  unfolding report
  report-matched rule (boolean true) rest holds = refl
  report-matched rule (boolean false) rest holds = cc
  report-matched rule (other t) rest holds = cc
  report-matched rule (threw m) rest holds = cc

  report-passed :
      (rule : CompiledRoutingRule P) (e : Evaluation) (rest : List RuleEvaluation)
      → is_true e ≡ false
      → report rule e rest ≡ base_evaluation rule (outcome_of e) ∷ rest
  unfolding report
  report-passed rule (boolean true) rest passed = cc
  report-passed rule (boolean false) rest passed = refl
  report-passed rule (other t) rest passed = refl
  report-passed rule (threw m) rest passed = refl

  decision-cons :
      (rule : CompiledRoutingRule P) (rules : List (CompiledRoutingRule P))
      → (resolve_rules facts (rule ∷ rules)).decision ≡ (
          if is_true (rule.when facts)
          then some (decision_of facts rule)
          else (resolve_rules facts rules).decision)
  unfolding resolve_rules
  decision-cons rule rules = decision-try_rule facts rule rules (rule.when facts) _

  explained-matched :
      (rule : CompiledRoutingRule P) (rules : List (CompiledRoutingRule P))
      → is_true (rule.when facts) ≡ true
      → LastReported (rule ∷ rules)
  unfolding explain base_evaluation
  explained-matched rule rules holds = record {
    before = [];
    rule = rule;
    after = rules;
    listed = refl;
    passed = tt;
    holds = holds;
    reported = report-matched rule (rule.when facts) (explain facts rules) holds;
    resolved = rw (decision-cons rule rules) (rw holds);
  }

  explained-passed :
      (rule : CompiledRoutingRule P) (rules : List (CompiledRoutingRule P))
      → is_true (rule.when facts) ≡ false
      → NoneReported rules ⊎ LastReported rules
      → NoneReported (rule ∷ rules) ⊎ LastReported (rule ∷ rules)
  unfolding explain base_evaluation
  explained-passed rule rules away (inl n) = inl (record {
    passed = (away, n.passed);
    reported =
        report-passed rule (rule.when facts) (explain facts rules) away
        ∙ ap (λ (es : List RuleEvaluation). evaluation_of rule ∷ es) n.reported;
    unresolved = rw (decision-cons rule rules) (rw away n.unresolved);
  })
  explained-passed rule rules away (inr l) = inr (record {
    before = rule ∷ l.before;
    rule = l.rule;
    after = l.after;
    listed = ap (λ (rs : List (CompiledRoutingRule P)). rule ∷ rs) l.listed;
    passed = (away, l.passed);
    holds = l.holds;
    reported =
        report-passed rule (rule.when facts) (explain facts rules) away
        ∙ ap (λ (es : List RuleEvaluation). evaluation_of rule ∷ es) l.reported;
    resolved = rw (decision-cons rule rules) (rw away l.resolved);
  })

-- `explain` reports exactly the rules up to the first whose condition is true, or all of them when
-- there is none, in order and each with what its condition did; and that first rule, or none, is what
-- the loop of `resolve` chooses.
pub explain_agrees :
    {P : Type 0} (facts : RequestFacts) (rules : List (CompiledRoutingRule P))
    → NoneReported facts rules ⊎ LastReported facts rules
unfolding explain resolve_rules
explain_agrees facts [] = inl (record { passed = tt; reported = refl; unresolved = refl })
explain_agrees facts (rule ∷ rules) = elim (Bool-cases (is_true (rule.when facts))) [
  | inl holds ↦ inr (explained-matched facts rule rules holds)
  | inr away ↦ explained-passed facts rule rules away (explain_agrees facts rules)
]
