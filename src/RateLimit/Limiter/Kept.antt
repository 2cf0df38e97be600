-- ===== src/RateLimit/Limiter/Kept.antt =====
-- How long the counters of packages/core/src/ratelimit/limiter.ts last in the in-memory storage, whose
-- clock moves: each to the end of its window.
use omni_model.Prelude.{
  ℕ, ◌+◌, ◌*◌, ◌≤◌, ◌<◌, String, ◌≡◌, ◌≢◌, refl, sym, ap, ◌∙◌, subst, ◌⊎◌, inl, inr, true, false,
  Option, none, some, List, [], ◌∷◌, ◌++◌, map, arith, All, Bool-cases, keep, ◌==◌, eq_iff, leb,
}
use omni_model.Prelude.Int.{ℤ, pos, negsuc}
use omni_model.Prelude.Number.{at_least}
use omni_model.Prelude.Dict.{get}
use omni_model.Facts.{RequestFacts}
use omni_model.Storage.Memory.{Memory, increment, get_counter}
use omni_model.Storage.Memory.Laws.{memory_adapter, memory_get_counter, memory_increment, at}
use omni_model.Storage.Memory.Lifetimes.{
  LastsTo, get_counter-LastsTo, increment-LastsTo, clock-increment,
}
use omni_model.RateLimit.Limiter.{
  seen, CompiledRule, applies, applicable_rules, key_of, judge, window_start_for, check,
  check_rules, record_rules, record_usage,
}
use omni_model.RateLimit.Limiter.Compile.{IsUsable, Distinct}
use omni_model.RateLimit.Limiter.Windows.{window_start_bounds}
use omni_model.RateLimit.Limiter.Keys.{NoColon, token_key-injective}

-- The rule, or one with another id.
abbrev pub IsSameOrApart : CompiledRule → CompiledRule → Type 0
IsSameOrApart rule r = (r ≡ rule) ⊎ (r.id ≢ rule.id)

-- The calls of a limiter, each at a time: a response is charged, or a request is checked.
pub data LimiterCall : Type 0 where
  charging : ℕ → RequestFacts → Option ℤ → LimiterCall
  checking : ℕ → RequestFacts → LimiterCall

abbrev pub run_call : List CompiledRule → LimiterCall → Memory → Memory
run_call compiled (charging now facts total) m =
    record_usage memory_adapter now compiled facts total (at now m)
run_call compiled (checking now facts) m = (check memory_adapter now compiled facts (at now m)).1

abbrev pub run_calls : List CompiledRule → List LimiterCall → Memory → Memory
run_calls compiled [] m = m
run_calls compiled (call ∷ calls) m = run_calls compiled calls (run_call compiled call m)

abbrev pub window_end : ℕ → CompiledRule → ℕ
window_end now rule = window_start_for now rule.tokens.window_ms + rule.tokens.window_ms

module _ (rule : CompiledRule) (usable : IsUsable rule.tokens) (clear_id : NoColon rule.id) where
  -- Every counter of the rule lasts to the end of its window.
  abbrev pub IsKept : Memory → Type 0
  IsKept m =
      (t : ℕ) (facts : RequestFacts)
      → LastsTo (window_end t rule) (get (key_of t facts rule) m.entries)

  -- What a list of rules may hold beside the rule.
  abbrev pub Beside : CompiledRule → Type 0
  Beside r = IsSameOrApart rule r × NoColon r.id

  pub same_window :
      (now t : ℕ) (facts facts' : RequestFacts) (r : CompiledRule)
      → Beside r
      → key_of now facts' r ≡ key_of t facts rule
      → (window_end t rule ≤ now + r.tokens.ttl_seconds * 1000) × (now < window_end t rule)
  unfolding key_of
  same_window now t facts facts' r (inr apart, clear) same =
      absurd (apart (token_key-injective r.id rule.id _ _ _ _ clear clear_id same).0)
  same_window now t facts facts' r (inl one, clear) same =
      let start = (token_key-injective r.id rule.id _ _ _ _ clear clear_id same).2 in
      let window : r.tokens.window_ms ≡ rule.tokens.window_ms =
        ap (λ (x : CompiledRule). x.tokens.window_ms) one in
      let lifetime : r.tokens.ttl_seconds ≡ rule.tokens.ttl_seconds =
        ap (λ (x : CompiledRule). x.tokens.ttl_seconds) one in
      let own : window_start_for now rule.tokens.window_ms
          ≡ window_start_for t rule.tokens.window_ms =
        rw window at start in
      let bounds = window_start_bounds now rule.tokens.window_ms usable.positive in
      (omega (arith, own, lifetime, bounds.0, usable.outlived), omega (arith, own, bounds.1))

  pub increment-IsKept :
      (now : ℕ) (facts : RequestFacts) (n : ℤ) (r : CompiledRule) (m : Memory)
      → m.clock ≡ now
      → Beside r
      → IsKept m
      → IsKept (increment (key_of now facts r) n r.tokens.ttl_seconds m).1
  increment-IsKept now facts n r m clock beside kept t facts' =
      increment-LastsTo (window_end t rule) (key_of now facts r) (key_of t facts' rule) m n
        r.tokens.ttl_seconds (kept t facts')
        (λ same.
          subst (λ c. window_end t rule ≤ c + r.tokens.ttl_seconds * 1000) (sym clock)
            (same_window now t facts' facts r beside ((eq_iff _ _).0 same)).0)

  pub record_rules-IsKept :
      (now : ℕ) (facts : RequestFacts) (n : ℤ) (rules : List CompiledRule) (m : Memory)
      → m.clock ≡ now
      → All Beside rules
      → IsKept m
      → IsKept (record_rules memory_adapter now facts n (keep (λ r. applies r facts) rules) m)
  unfolding record_rules memory_increment
  record_rules-IsKept now facts n [] m clock beside kept = kept
  record_rules-IsKept now facts n (r ∷ rules) m clock (here, later) kept =
      elim (Bool-cases (applies r facts)) [
        | inl applied ↦ rw applied (
            record_rules-IsKept now facts n rules _
              (clock-increment (key_of now facts r) n r.tokens.ttl_seconds m ∙ clock) later
              (increment-IsKept now facts n r m clock here kept))
        | inr skipped ↦ rw skipped (record_rules-IsKept now facts n rules m clock later kept)
      ]

  pub record_usage-IsKept :
      (now : ℕ) (facts : RequestFacts) (total : Option ℤ) (compiled : List CompiledRule)
      (m : Memory)
      → m.clock ≡ now
      → All Beside compiled
      → IsKept m
      → IsKept (record_usage memory_adapter now compiled facts total m)
  unfolding record_usage applicable_rules
  record_usage-IsKept now facts none compiled m clock beside kept = kept
  record_usage-IsKept now facts (some (negsuc n)) compiled m clock beside kept = kept
  record_usage-IsKept now facts (some (pos n)) compiled m clock beside kept =
      elim (Bool-cases (leb n 0)) [
        | inl nothing ↦ rw nothing kept
        | inr something ↦
            rw something (record_rules-IsKept now facts (pos n) compiled m clock beside kept)
      ]

  pub clock-record_rules :
      (now : ℕ) (facts : RequestFacts) (n : ℤ) (rules : List CompiledRule) (m : Memory)
      → (record_rules memory_adapter now facts n rules m).clock ≡ m.clock
  unfolding record_rules memory_increment
  clock-record_rules now facts n [] m = refl
  clock-record_rules now facts n (r ∷ rules) m =
      clock-record_rules now facts n rules _
      ∙ clock-increment (key_of now facts r) n r.tokens.ttl_seconds m

  pub clock-record_usage :
      (now n : ℕ) (facts : RequestFacts) (compiled : List CompiledRule) (m : Memory)
      → (record_usage memory_adapter now compiled facts (some (pos n)) m).clock ≡ m.clock
  unfolding record_usage
  clock-record_usage now n facts compiled m = elim (Bool-cases (leb n 0)) [
    | inl nothing ↦ rw nothing refl
    | inr something ↦
        rw something (clock-record_rules now facts (pos n) (applicable_rules compiled facts) m)
  ]

  pub get_counter-IsKept : (k : String) (m : Memory) → IsKept m → IsKept (get_counter k m).1
  get_counter-IsKept k m kept t facts =
      get_counter-LastsTo (window_end t rule) k (key_of t facts rule) m (kept t facts)

  pub check_rules-IsKept :
      (now : ℕ) (facts : RequestFacts) (rules : List CompiledRule) (m : Memory)
      → IsKept m
      → IsKept (check_rules memory_adapter now facts rules m).1
  unfolding check_rules judge memory_get_counter
  check_rules-IsKept now facts [] m kept = kept
  check_rules-IsKept now facts (r ∷ rules) m kept =
      let read = get_counter (key_of now facts r) m in
      let kept' = get_counter-IsKept (key_of now facts r) m kept in
      elim (Bool-cases (at_least read.0 r.tokens.limit)) [
        | inl full ↦ rw full kept'
        | inr room ↦ rw room (check_rules-IsKept now facts rules read.1 kept')
      ]

  pub run_calls-IsKept :
      (compiled : List CompiledRule) (calls : List LimiterCall) (m : Memory)
      → All Beside compiled
      → IsKept m
      → IsKept (run_calls compiled calls m)
  unfolding check
  run_calls-IsKept compiled [] m beside kept = kept
  run_calls-IsKept compiled (charging now facts total ∷ calls) m beside kept =
      run_calls-IsKept compiled calls _ beside
        (record_usage-IsKept now facts total compiled (at now m) refl beside kept)
  run_calls-IsKept compiled (checking now facts ∷ calls) m beside kept =
      run_calls-IsKept compiled calls _ beside
        (check_rules-IsKept now facts (applicable_rules compiled facts) (at now m) kept)

pub empty-IsKept :
    (rule : CompiledRule) (usable : IsUsable rule.tokens) (clear_id : NoColon rule.id) (m : Memory)
    → m.entries ≡ []
    → IsKept rule usable clear_id m
unfolding get
empty-IsKept rule usable clear_id m none_yet t facts = rw none_yet tt

differ : (a b : String) → (a == b) ≡ false → a ≢ b
differ a b apart same = let alike : (a == b) ≡ true = (eq_iff a b).1 same in cc (apart, alike)

apart-after :
    (rule : CompiledRule) (after : List CompiledRule)
    → seen rule.id (map (λ r. r.id) after) ≡ false
    → All (IsSameOrApart rule) after
apart-after rule [] fresh = tt
apart-after rule (r ∷ after) fresh = (
  inr (λ same. differ rule.id r.id (ground (arith, fresh)) (sym same)),
  apart-after rule after (ground (arith, fresh)),
)

seen-here :
    (id : String) (before after : List CompiledRule) (rule : CompiledRule)
    → seen id (map (λ r. r.id) (before ++ rule ∷ after)) ≡ false
    → id ≢ rule.id
seen-here id [] after rule fresh = differ id rule.id (ground (arith, fresh))
seen-here id (r ∷ before) after rule fresh = seen-here id before after rule (ground (arith, fresh))

pub Distinct-IsSameOrApart :
    (before after : List CompiledRule) (rule : CompiledRule)
    → Distinct (map (λ r. r.id) (before ++ rule ∷ after))
    → All (IsSameOrApart rule) (before ++ rule ∷ after)
Distinct-IsSameOrApart [] after rule (fresh, distinct) = (inl refl, apart-after rule after fresh)
Distinct-IsSameOrApart (r ∷ before) after rule (fresh, distinct) = (
  inr (seen-here r.id before after rule fresh),
  Distinct-IsSameOrApart before after rule distinct,
)

pub All-both :
    (P Q : CompiledRule → Type 0) (rules : List CompiledRule)
    → All P rules
    → All Q rules
    → All (λ r. P r × Q r) rules
All-both P Q [] ps qs = tt
All-both P Q (r ∷ rules) (p, ps) (q, qs) = ((p, q), All-both P Q rules ps qs)
