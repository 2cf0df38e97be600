-- ===== src/Routing/Unreachable.antt =====
-- The rules that `unreachableRules` reports are never chosen.
use omni_model.Prelude.{
  ℕ, suc, ◌+◌, String, ◌≡◌, refl, ap, true, false, Option, some, List, [], ◌∷◌, ◌++◌, map, arith,
  if◌then◌else◌, length, take, ◌==◌, All, ◌⊎◌, Bool-cases, inl, inr,
}
use omni_model.Facts.{RequestFacts, is_true}
use omni_model.Util.Duration.{trim}
use omni_model.Routing.{
  CompiledRoutingRule, RouteDecision, decision_of, resolve_rules, RoutingRuleConfig, label,
  find_catch_all, shadowed, report_shadowed, unreachable_rules,
}
use omni_model.Routing.Choice.{decision-try_rule}

-- The rules are the configured ones compiled: a condition that is `true` after trimming is true of
-- every request.
abbrev pub AreCompiled :
    {P : Type 0} → List RoutingRuleConfig → List (CompiledRoutingRule P) → Type 0
AreCompiled [] [] = Unit
AreCompiled (c ∷ cs) (r ∷ rs) =
    ((trim c.when == "true") ≡ true → (facts : RequestFacts) → is_true (r.when facts) ≡ true)
    × AreCompiled cs rs
AreCompiled cs rs = ⊥

-- The labels of rules that stand from a place on.
abbrev pub labels_from : ℕ → List RoutingRuleConfig → List String
labels_from i [] = []
labels_from i (c ∷ cs) = label c i ∷ labels_from (suc i) cs

shadowed-labels_from :
    (by : String) (i : ℕ) (cs : List RoutingRuleConfig)
    → shadowed by i cs ≡ map (λ l. (l, by)) (labels_from i cs)
unfolding shadowed
shadowed-labels_from by i [] = refl
shadowed-labels_from by i (c ∷ cs) =
    ap (λ (ps : List (String × String)). (label c i, by) ∷ ps) (shadowed-labels_from by (suc i) cs)

abbrev pub IsCatchAll : RoutingRuleConfig → Type 0
IsCatchAll c = (trim c.when == "true") ≡ true

abbrev pub IsNoCatchAll : RoutingRuleConfig → Type 0
IsNoCatchAll c = (trim c.when == "true") ≡ false

module _ {P : Type 0} (facts : RequestFacts) where
  abbrev decision : List (CompiledRoutingRule P) → Option (RouteDecision P)
  decision rules = (resolve_rules facts rules).decision

  decision-cons :
      (r : CompiledRoutingRule P) (rules : List (CompiledRoutingRule P))
      → decision (r ∷ rules)
        ≡ (if is_true (r.when facts) then some (decision_of facts r) else decision rules)
  unfolding resolve_rules
  decision-cons r rules = decision-try_rule facts r rules (r.when facts) (resolve_rules facts rules)

  -- A rule that holds ends the search.
  decision-take_one :
      (r : CompiledRoutingRule P) (rules : List (CompiledRoutingRule P))
      → is_true (r.when facts) ≡ true
      → decision (take 1 (r ∷ rules)) ≡ decision (r ∷ rules)
  decision-take_one r rules holds = rw (decision-cons r []) (rw (decision-cons r rules) (rw holds))

  decision-take_more :
      (m : ℕ) (r : CompiledRoutingRule P) (rules : List (CompiledRoutingRule P))
      → decision (take m rules) ≡ decision rules
      → decision (take (suc m) (r ∷ rules)) ≡ decision (r ∷ rules)
  decision-take_more m r rules same =
      rw (decision-cons r (take m rules)) (rw (decision-cons r rules) (rw same))

-- No rule always applies, and none is reported from the place on.
record NothingShadowed (i : ℕ) (configured : List RoutingRuleConfig) : Type 0 where
  conditional : All IsNoCatchAll configured
  silent : report_shadowed (find_catch_all i configured) ≡ []

zero_right : (i : ℕ) → i + 0 ≡ i
zero_right i = omega arith

zero_left : (i : ℕ) → 0 + i ≡ i
zero_left i = omega arith

suc_right : (i n : ℕ) → i + suc n ≡ suc i + n
suc_right i n = omega arith

module _ {P : Type 0} where
  -- The first rule that always applies: exactly the rules behind it are reported, in order, each by
  -- its label beside the label of that rule, and without them every decision is the same.
  record Shadows (i : ℕ) (configured : List RoutingRuleConfig)
      (rules : List (CompiledRoutingRule P)) : Type 0 where
    before : List RoutingRuleConfig
    catch_all : RoutingRuleConfig
    behind : List RoutingRuleConfig
    listed : configured ≡ before ++ catch_all ∷ behind
    conditional : All IsNoCatchAll before
    always : IsCatchAll catch_all
    reported :
        report_shadowed (find_catch_all i configured)
        ≡ map
            (λ l. (l, label catch_all (i + length before)))
            (labels_from (suc (i + length before)) behind)
    same_decision :
        (facts : RequestFacts)
        → (resolve_rules facts (take (suc (length before)) rules)).decision
          ≡ (resolve_rules facts rules).decision

  Shadows-always :
      (i : ℕ) (c : RoutingRuleConfig) (cs : List RoutingRuleConfig) (r : CompiledRoutingRule P)
      (rs : List (CompiledRoutingRule P))
      → AreCompiled (c ∷ cs) (r ∷ rs)
      → IsCatchAll c
      → Shadows i (c ∷ cs) (r ∷ rs)
  unfolding find_catch_all report_shadowed
  Shadows-always i c cs r rs (compiled, later) always = record {
    before = [];
    catch_all = c;
    behind = cs;
    listed = refl;
    conditional = tt;
    always = always;
    reported = rw always (rw (zero_right i) (shadowed-labels_from (label c i) (suc i) cs));
    same_decision = λ facts. decision-take_one facts r rs (compiled always facts);
  }

  Shadows-later :
      (i : ℕ) (c : RoutingRuleConfig) (cs : List RoutingRuleConfig) (r : CompiledRoutingRule P)
      (rs : List (CompiledRoutingRule P))
      → IsNoCatchAll c
      → NothingShadowed (suc i) cs ⊎ Shadows (suc i) cs rs
      → NothingShadowed i (c ∷ cs) ⊎ Shadows i (c ∷ cs) (r ∷ rs)
  unfolding find_catch_all
  Shadows-later i c cs r rs sometimes (inl n) =
      inl (record { conditional = (sometimes, n.conditional); silent = rw sometimes n.silent })
  Shadows-later i c cs r rs sometimes (inr s) = inr (record {
    before = c ∷ s.before;
    catch_all = s.catch_all;
    behind = s.behind;
    listed = ap (λ (cs : List RoutingRuleConfig). c ∷ cs) s.listed;
    conditional = (sometimes, s.conditional);
    always = s.always;
    reported = rw sometimes (rw (suc_right i (length s.before)) s.reported);
    same_decision =
        λ facts. decision-take_more facts (suc (length s.before)) r rs (s.same_decision facts);
  })

  Shadows-from :
      (i : ℕ) (configured : List RoutingRuleConfig) (rules : List (CompiledRoutingRule P))
      → AreCompiled configured rules
      → NothingShadowed i configured ⊎ Shadows i configured rules
  unfolding find_catch_all report_shadowed
  Shadows-from i [] [] compiled = inl (record { conditional = tt; silent = refl })
  Shadows-from i [] (r ∷ rs) compiled = elim compiled [ ]
  Shadows-from i (c ∷ cs) [] compiled = elim compiled [ ]
  Shadows-from i (c ∷ cs) (r ∷ rs) (first, later) = elim (Bool-cases (trim c.when == "true")) [
    | inl always ↦ inr (Shadows-always i c cs r rs (first, later) always)
    | inr sometimes ↦ Shadows-later i c cs r rs sometimes (Shadows-from (suc i) cs rs later)
  ]

-- When a configured rule whose condition is `true` is compiled to one that always holds: either no
-- rule has that condition and none is reported, or exactly the rules behind the first such rule are
-- reported, in order, each by its label beside that rule's; and taking the reported rules away
-- changes no decision.
pub unreachable_rules-decision :
    {P : Type 0} (configured : List RoutingRuleConfig) (rules : List (CompiledRoutingRule P))
    → AreCompiled configured rules
    → (All IsNoCatchAll configured × (unreachable_rules configured ≡ []))
      ⊎ ((before : List RoutingRuleConfig) × (catch_all : RoutingRuleConfig) × (behind : List
            RoutingRuleConfig)
          × (configured ≡ before ++ catch_all ∷ behind)
          × All IsNoCatchAll before
          × IsCatchAll catch_all
          × (unreachable_rules configured
              ≡ map
                  (λ l. (l, label catch_all (length before)))
                  (labels_from (suc (length before)) behind))
          × ((facts : RequestFacts)
              → (resolve_rules facts (take (suc (length before)) rules)).decision
                ≡ (resolve_rules facts rules).decision))
unfolding unreachable_rules
unreachable_rules-decision configured rules compiled =
    elim (Shadows-from 0 configured rules compiled) [
      | inl n ↦ inl (n.conditional, n.silent)
      | inr s ↦ inr (
        s.before,
        s.catch_all,
        s.behind,
        s.listed,
        s.conditional,
        s.always,
        rw (zero_left (length s.before)) at s.reported,
        s.same_decision,
      )
    ]
