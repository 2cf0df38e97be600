-- ===== src/Routing/Warnings.antt =====
-- The warning about a condition that gives no Boolean is logged once for each rule.
use omni_model.Prelude.{
  ℕ, ◌+◌, ◌≤◌, suc, String, ◌≡◌, refl, ap, Bool, true, false, List, [], ◌∷◌, ◌++◌, arith,
  if◌then◌else◌, length, length-append, Bool-cases, inl, inr,
}
use omni_model.Facts.{RequestFacts, Evaluation, boolean, other, threw}
use omni_model.Routing.{
  CompiledRoutingRule, Resolution, model_refused, pass_over, warn_once, try_rule, resolve_rules,
  resolve,
}

-- The names that a run of requests warns about, and the rules that it leaves.
abbrev pub warnings_of :
    {P : Type 0} → List String → List RequestFacts → List (CompiledRoutingRule P) → List String
warnings_of allowed [] rules = []
warnings_of allowed (facts ∷ later) rules =
    (resolve allowed rules facts).2 ++ warnings_of allowed later (resolve allowed rules facts).1

module _ {P : Type 0} where
  abbrev pub warned_count : List (CompiledRoutingRule P) → ℕ
  warned_count [] = 0
  warned_count (r ∷ rs) = (if r.warned_non_boolean then 1 else 0) + warned_count rs

  record IsAccounted (rules : List (CompiledRoutingRule P)) (r : Resolution P) : Type 0 where
    same_length : length r.rules ≡ length rules
    counted : warned_count r.rules ≡ warned_count rules + length r.warnings

  warn_once-IsAccounted :
      (rule : CompiledRoutingRule P) (rules : List (CompiledRoutingRule P)) (rest : Resolution P)
      (b : Bool)
      → rule.warned_non_boolean ≡ b
      → IsAccounted rules rest
      → IsAccounted (rule ∷ rules) (warn_once rule rest)
  unfolding warn_once pass_over
  warn_once-IsAccounted rule rules rest true old h = record {
    same_length = rw old (ap suc h.same_length);
    counted = ground (arith, h.counted, old);
  }
  warn_once-IsAccounted rule rules rest false new h = record {
    same_length = rw new (ap suc h.same_length);
    counted = ground (arith, h.counted, new);
  }

  try_rule-IsAccounted :
      (facts : RequestFacts) (rule : CompiledRoutingRule P) (rules : List (CompiledRoutingRule P))
      (e : Evaluation) (rest : Resolution P)
      → IsAccounted rules rest
      → IsAccounted (rule ∷ rules) (try_rule facts rule rules e rest)
  unfolding try_rule pass_over warn_once
  try_rule-IsAccounted facts rule rules (boolean true) rest h = record {
    same_length = refl;
    counted = omega arith;
  }
  try_rule-IsAccounted facts rule rules (boolean false) rest h = record {
    same_length = ap suc h.same_length;
    counted = omega (arith, h.counted);
  }
  try_rule-IsAccounted facts rule rules (other t) rest h =
      warn_once-IsAccounted rule rules rest _ refl h
  try_rule-IsAccounted facts rule rules (threw m) rest h = record {
    same_length = ap suc h.same_length;
    counted = omega (arith, h.counted);
  }

  resolve_rules-IsAccounted :
      (facts : RequestFacts) (rules : List (CompiledRoutingRule P))
      → IsAccounted rules (resolve_rules facts rules)
  unfolding resolve_rules
  resolve_rules-IsAccounted facts [] = record { same_length = refl; counted = omega arith }
  resolve_rules-IsAccounted facts (rule ∷ rules) =
      try_rule-IsAccounted facts rule rules (rule.when facts) _
        (resolve_rules-IsAccounted facts rules)

  resolve-accounted :
      (allowed : List String) (rules : List (CompiledRoutingRule P)) (facts : RequestFacts)
      → (length (resolve allowed rules facts).1 ≡ length rules)
        × (warned_count (resolve allowed rules facts).1
            ≡ warned_count rules + length (resolve allowed rules facts).2)
  unfolding resolve
  resolve-accounted allowed rules facts =
      let h = resolve_rules-IsAccounted facts rules in
      elim (Bool-cases (model_refused allowed facts.model)) [
        | inl refused ↦ rw refused (refl, omega arith)
        | inr fine ↦ rw fine (h.same_length, h.counted)
      ]

  warned_count-le : (rules : List (CompiledRoutingRule P)) → warned_count rules ≤ length rules
  warned_count-le [] = omega arith
  warned_count-le (r ∷ rs) = ground (arith, warned_count-le rs)

  -- However many requests are resolved, no more warnings are logged than there are rules that have
  -- not warned yet.
  pub warnings_bounded :
      (allowed : List String) (requests : List RequestFacts) (rules : List (CompiledRoutingRule P))
      → length (warnings_of allowed requests rules) + warned_count rules ≤ length rules
  warnings_bounded allowed [] rules = omega (arith, warned_count-le rules)
  warnings_bounded allowed (facts ∷ later) rules =
      let (same, counted) = resolve-accounted allowed rules facts in
      omega (
        arith,
        same,
        counted,
        length-append (resolve allowed rules facts).2
            (warnings_of allowed later (resolve allowed rules facts).1),
        warnings_bounded allowed later (resolve allowed rules facts).1,
      )
