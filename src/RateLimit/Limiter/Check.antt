-- ===== src/RateLimit/Limiter/Check.antt =====
-- What `check` decides, over a backend that keeps counters and over any backend.
use omni_model.Prelude.{
  ℕ, String, ◌≡◌, refl, ap, ◌∙◌, ◌⊎◌, inl, inr, Bool, true, false, ◌&&◌, Option, none, some, List,
  [], ◌∷◌, ◌++◌, All, Bool-cases, Option-cases, keep, if◌then◌else◌,
}
use omni_model.Prelude.Number.{JsNumber, at_least}
use omni_model.Facts.{RequestFacts}
use omni_model.Storage.{StorageAdapter, KeepsCounters}
use omni_model.RateLimit.Limiter.{
  CompiledRule, applies, applicable_rules, RateLimitDecision, allowed, key_of, rejection, judge,
  check_rules, check,
}

-- The rule applies to the request and its counter has reached the limit.
abbrev pub exhausted : (String → JsNumber) → ℕ → RequestFacts → CompiledRule → Bool
exhausted counter now facts rule =
    applies rule facts && at_least (counter (key_of now facts rule)) rule.tokens.limit

-- The first such rule.
abbrev pub first_exhausted :
    (String → JsNumber) → ℕ → RequestFacts → List CompiledRule → Option CompiledRule
first_exhausted counter now facts [] = none
first_exhausted counter now facts (rule ∷ rules) =
    let rest = first_exhausted counter now facts rules in
    if exhausted counter now facts rule then some rule else rest

abbrev pub verdict : ℕ → Option CompiledRule → RateLimitDecision
verdict now none = allowed
verdict now (some rule) = rejection now rule

module _ (store : StorageAdapter) (laws : KeepsCounters store) (now : ℕ)
    (facts : RequestFacts) where
  open laws use {counter, read_value, read_only}

  check_rules-verdict :
      (rules : List CompiledRule) (s : store.State) (before : String → JsNumber)
      → ((k : String) → counter s k ≡ before k)
      → (check_rules store now facts (keep (λ r. applies r facts) rules) s).0
        ≡ verdict now (first_exhausted before now facts rules)
  unfolding check_rules judge
  check_rules-verdict [] s before same = refl
  check_rules-verdict (rule ∷ rules) s before same =
      let key = key_of now facts rule in
      let later =
        check_rules-verdict rules (store.get_counter key s).1 before
          (λ k. read_only key k s ∙ same k) in
      elim (Bool-cases (applies rule facts)) [
        | inl yes_applies ↦
            rw (yes_applies, read_value key s, same key)
              (elim (Bool-cases (at_least (before key) rule.tokens.limit)) [
                | inl full ↦ rw full
                | inr room ↦ rw room later
              ])
        | inr skipped ↦ rw skipped (check_rules-verdict rules s before same)
      ]

  counter-check_rules :
      (rules : List CompiledRule) (s : store.State) (k : String)
      → counter (check_rules store now facts rules s).1 k ≡ counter s k
  unfolding check_rules judge
  counter-check_rules [] s k = refl
  counter-check_rules (rule ∷ rules) s k =
      let key = key_of now facts rule in
      let s' = (store.get_counter key s).1 in
      let later = counter-check_rules rules s' k ∙ read_only key k s in
      rw (read_value key s) (elim (Bool-cases (at_least (counter s key) rule.tokens.limit)) [
        | inl full ↦ rw full (read_only key k s)
        | inr room ↦ rw room later
      ])

  -- Checking spends nothing: no counter changes.
  pub counter-check :
      (compiled : List CompiledRule) (s : store.State) (k : String)
      → counter (check store now compiled facts s).1 k ≡ counter s k
  unfolding check
  counter-check compiled s k = counter-check_rules (applicable_rules compiled facts) s k

  pub check-verdict :
      (compiled : List CompiledRule) (s : store.State)
      → (check store now compiled facts s).0
        ≡ verdict now (first_exhausted (counter s) now facts compiled)
  unfolding check applicable_rules
  check-verdict compiled s = check_rules-verdict compiled s (counter s) (λ k. refl)

-- The rule is exhausted, and every rule before it is not.
pub record IsFirst (counter : String → JsNumber) (now : ℕ) (facts : RequestFacts)
    (rules : List CompiledRule) (rule : CompiledRule) : Type 0 where
  pub before : List CompiledRule
  pub after : List CompiledRule
  pub listed : rules ≡ before ++ rule ∷ after
  pub blocked : exhausted counter now facts rule ≡ true
  pub passed : All (λ r. exhausted counter now facts r ≡ false) before

module _ (counter : String → JsNumber) (now : ℕ) (facts : RequestFacts) where
  -- Either no rule is exhausted, or there is a first one.
  abbrev pub Outcome : List CompiledRule → Type 0
  Outcome rules =
      ((first_exhausted counter now facts rules ≡ none)
        × All (λ r. exhausted counter now facts r ≡ false) rules)
      ⊎ ((rule : CompiledRule) × (first_exhausted counter now facts rules ≡ some rule)
          × IsFirst counter now facts rules rule)

  Outcome-skip :
      (r : CompiledRule) (rules : List CompiledRule)
      → exhausted counter now facts r ≡ false
      → Outcome rules
      → Outcome (r ∷ rules)
  Outcome-skip r rules room (inl (nothing, free)) = inl (rw room nothing, (room, free))
  Outcome-skip r rules room (inr (rule, found, first)) = inr (
    rule,
    rw room found,
    record {
      before = r ∷ first.before;
      after = first.after;
      listed = ap (λ rs. r ∷ rs) first.listed;
      blocked = first.blocked;
      passed = (room, first.passed);
    },
  )

  first_exhausted-Outcome : (rules : List CompiledRule) → Outcome rules
  first_exhausted-Outcome [] = inl (refl, tt)
  first_exhausted-Outcome (r ∷ rules) = elim (Bool-cases (exhausted counter now facts r)) [
    | inl full ↦ inr (
      r,
      rw full refl,
      record { before = []; after = rules; listed = refl; blocked = full; passed = tt },
    )
    | inr room ↦ Outcome-skip r rules room (first_exhausted-Outcome rules)
  ]

-- While the backend is up, a request is allowed exactly when no rule that applies to it has reached
-- its limit; otherwise it is rejected by the first such rule, with that rule's name and limit and
-- the seconds until its window resets. Either way no counter changes.
pub check_exact :
    (store : StorageAdapter) (laws : KeepsCounters store) (now : ℕ) (facts : RequestFacts)
    (compiled : List CompiledRule) (s : store.State)
    → ((((check store now compiled facts s).0 ≡ allowed)
          × All (λ r. exhausted (laws.counter s) now facts r ≡ false) compiled)
        ⊎ ((rule : CompiledRule) × ((check store now compiled facts s).0 ≡ rejection now rule)
            × IsFirst (laws.counter s) now facts compiled rule))
      × ((k : String) → laws.counter (check store now compiled facts s).1 k ≡ laws.counter s k)
check_exact store laws now facts compiled s = (
  elim (first_exhausted-Outcome (laws.counter s) now facts compiled) [
    | inl (nothing, free) ↦ inl (decided ∙ ap (verdict now) nothing, free)
    | inr (rule, found, first) ↦ inr (rule, decided ∙ ap (verdict now) found, first)
  ],
  counter-check store laws now facts compiled s,
)
  where
    decided :
        (check store now compiled facts s).0
        ≡ verdict now (first_exhausted (laws.counter s) now facts compiled)
    decided = check-verdict store laws now facts compiled s

-- What is behind a rejection: a rule that is listed and applies, after rules that all let the request
-- pass, and the number that its counter then gave, in the state that checking those rules left.
pub record Backing (store : StorageAdapter) (now : ℕ) (facts : RequestFacts)
    (compiled : List CompiledRule) (s : store.State) (decision : RateLimitDecision) : Type 0 where
  pub before : List CompiledRule
  pub rule : CompiledRule
  pub after : List CompiledRule
  pub number : JsNumber
  pub listed : compiled ≡ before ++ rule ∷ after
  pub applied : applies rule facts ≡ true
  pub passed : (check store now before facts s).0 ≡ allowed
  pub was_read :
      (store.get_counter (key_of now facts rule) (check store now before facts s).1).0 ≡ some number
  pub reached : at_least number rule.tokens.limit ≡ true
  pub decided : decision ≡ rejection now rule

module _ (store : StorageAdapter) (now : ℕ) (facts : RequestFacts) where
  -- A rule lets the request pass when it does not apply, cannot be read, or has room.
  record LetsPass (rule : CompiledRule) (s s' : store.State) : Type 0 where
    same :
        (rules : List CompiledRule)
        → check store now (rule ∷ rules) facts s ≡ check store now rules facts s'

  judged :
      (rule : CompiledRule) (rules : List CompiledRule) (s : store.State)
      → applies rule facts ≡ true
      → check store now (rule ∷ rules) facts s
        ≡ judge store now rule
            (store.get_counter (key_of now facts rule) s).0
            (store.get_counter (key_of now facts rule) s).1
            (check store now rules facts (store.get_counter (key_of now facts rule) s).1)
  unfolding check check_rules applicable_rules
  judged rule rules s applied = rw applied refl

  skipped : (rule : CompiledRule) (s : store.State) → applies rule facts ≡ false → LetsPass rule s s
  unfolding check check_rules applicable_rules
  skipped rule s away = record { same = λ rules. rw away refl }

  Backing-later :
      (rule : CompiledRule) (rules : List CompiledRule) (s s' : store.State)
      (decision : RateLimitDecision)
      → LetsPass rule s s'
      → Backing store now facts rules s' decision
      → Backing store now facts (rule ∷ rules) s decision
  Backing-later rule rules s s' decision passes b = record {
    before = rule ∷ b.before;
    rule = b.rule;
    after = b.after;
    number = b.number;
    listed = ap (λ (rs : List CompiledRule). rule ∷ rs) b.listed;
    applied = b.applied;
    passed = rw (passes.same b.before) b.passed;
    was_read = rw (passes.same b.before) b.was_read;
    reached = b.reached;
    decided = b.decided;
  }

  Backing-passed :
      (rule : CompiledRule) (rules : List CompiledRule) (s s' : store.State)
      → LetsPass rule s s'
      → ((check store now rules facts s').0 ≡ allowed)
        ⊎ Backing store now facts rules s' (check store now rules facts s').0
      → ((check store now (rule ∷ rules) facts s).0 ≡ allowed)
        ⊎ Backing store now facts (rule ∷ rules) s (check store now (rule ∷ rules) facts s).0
  Backing-passed rule rules s s' passes (inl free) = inl (rw (passes.same rules) free)
  Backing-passed rule rules s s' passes (inr b) =
      inr (rw (passes.same rules) (Backing-later rule rules s s' _ passes b))

  -- What a read comes to: the rule lets the request pass, or it rejects.
  read-judge :
      (rule : CompiledRule) (s : store.State)
      → applies rule facts ≡ true
      → LetsPass rule s (store.get_counter (key_of now facts rule) s).1
        ⊎ ((n : JsNumber) × ((store.get_counter (key_of now facts rule) s).0 ≡ some n)
            × (at_least n rule.tokens.limit ≡ true))
  unfolding judge
  read-judge rule s applied = elim (Option-cases (store.get_counter (key_of now facts rule) s).0) [
    | inl unread ↦ inl (record { same = λ rules. judged rule rules s applied ∙ rw unread refl })
    | inr (n, found) ↦ elim (Bool-cases (at_least n rule.tokens.limit)) [
      | inl full ↦ inr (n, found, full)
      | inr room ↦
          inl (record { same = λ rules. judged rule rules s applied ∙ rw found (rw room refl) })
    ]
  ]

  Backing-here :
      (rule : CompiledRule) (rules : List CompiledRule) (s : store.State) (n : JsNumber)
      → applies rule facts ≡ true
      → (store.get_counter (key_of now facts rule) s).0 ≡ some n
      → at_least n rule.tokens.limit ≡ true
      → Backing store now facts (rule ∷ rules) s (check store now (rule ∷ rules) facts s).0
  unfolding check check_rules applicable_rules judge
  Backing-here rule rules s n applied found full = record {
    before = [];
    rule = rule;
    after = rules;
    number = n;
    listed = refl;
    applied = applied;
    passed = refl;
    was_read = found;
    reached = full;
    decided = rw applied (rw found (rw full refl));
  }

  -- Whatever the backend does, failures included: the request is allowed, or it is rejected by a
  -- configured rule that applies, with that rule's name, limit and time, after all rules before it let
  -- the request pass, on a number that its counter gave then and that had reached its limit. A backend
  -- that cannot be read rejects nobody.
  pub rejection-Backing :
      (compiled : List CompiledRule) (s : store.State)
      → ((check store now compiled facts s).0 ≡ allowed)
        ⊎ Backing store now facts compiled s (check store now compiled facts s).0
  unfolding check check_rules applicable_rules
  rejection-Backing [] s = inl refl
  rejection-Backing (rule ∷ rules) s = elim (Bool-cases (applies rule facts)) [
    | inl applied ↦ elim (read-judge rule s applied) [
      | inl passes ↦ Backing-passed rule rules s _ passes (rejection-Backing rules _)
      | inr (n, found, full) ↦ inr (Backing-here rule rules s n applied found full)
    ]
    | inr away ↦ Backing-passed rule rules s s (skipped rule s away) (rejection-Backing rules s)
  ]
