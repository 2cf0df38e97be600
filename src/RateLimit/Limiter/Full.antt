-- ===== src/RateLimit/Limiter/Full.antt =====
-- A full counter of packages/core/src/ratelimit/limiter.ts stays full, whatever is charged and checked.
use omni_model.Prelude.{
  ℕ, ◌<◌, String, ◌≡◌, refl, sym, ◌∙◌, subst, inl, inr, true, false, Option, none, some, List, [],
  ◌∷◌, arith, All, Bool-cases, keep, ◌==◌, eq_iff, leb,
}
use omni_model.Prelude.Int.{ℤ, pos, negsuc}
use omni_model.Prelude.Number.{at_least, at_least-add, add-zero_right}
use omni_model.Prelude.Dict.{get}
use omni_model.Facts.{RequestFacts}
use omni_model.Storage.Memory.{Memory, increment, get_counter}
use omni_model.Storage.Memory.Laws.{
  counter_of, memory_adapter, memory_get_counter, memory_increment, at, counter_of-increment,
  counter_of-get_counter,
}
use omni_model.Storage.Memory.Lifetimes.{
  clock-increment, counter_of-later, get-get_counter, get-increment, clock-get_counter,
  counter_of-same,
}
use omni_model.RateLimit.Limiter.{
  CompiledRule, applies, applicable_rules, key_of, judge, check, check_rules, record_rules,
  record_usage,
}
use omni_model.RateLimit.Limiter.Compile.{IsUsable}
use omni_model.RateLimit.Limiter.Keys.{NoColon}
use omni_model.RateLimit.Limiter.Kept.{
  LimiterCall, charging, checking, run_calls, window_end, IsKept, Beside, same_window,
  increment-IsKept, record_usage-IsKept, get_counter-IsKept, check_rules-IsKept,
}

module _ (rule : CompiledRule) (usable : IsUsable rule.tokens) (clear_id : NoColon rule.id)
    (since : ℕ) (owner : RequestFacts) where
  abbrev own_key : String
  own_key = key_of since owner rule

  -- The counter is at its limit, whenever it is read before the window's end.
  abbrev pub IsFull : Memory → Type 0
  IsFull m =
      (t : ℕ)
      → t < window_end since rule
      → at_least (counter_of (at t m) own_key) rule.tokens.limit ≡ true

  touched-IsFull :
      (now : ℕ) (facts : RequestFacts) (r : CompiledRule) (m m' : Memory)
      → Beside rule usable clear_id r
      → m'.clock ≡ now
      → IsKept rule usable clear_id m'
      → ((key_of now facts r == own_key) ≡ true
          → at_least (counter_of m' own_key) rule.tokens.limit ≡ true)
      → ((key_of now facts r == own_key) ≡ false → get own_key m'.entries ≡ get own_key m.entries)
      → IsFull m
      → IsFull m'
  touched-IsFull now facts r m m' beside clock kept own apart full t early =
      elim (Bool-cases (key_of now facts r == own_key)) [
        | inr other ↦ rw (counter_of-same t own_key m m' (apart other)) (full t early)
        | inl same ↦
            let inside =
              (same_window rule usable clear_id now since owner facts r beside
                ((eq_iff _ _).0 same)).1 in
            rw
              (counter_of-later (window_end since rule) t own_key m' (kept since owner)
                (subst (λ c. c < window_end since rule) (sym clock) inside) early)
              (own same)
      ]

  full_now :
      (now : ℕ) (facts : RequestFacts) (r : CompiledRule) (m : Memory)
      → Beside rule usable clear_id r
      → m.clock ≡ now
      → IsFull m
      → (key_of now facts r == own_key) ≡ true
      → at_least (counter_of m own_key) rule.tokens.limit ≡ true
  full_now now facts r m beside clock full same = full m.clock (
      subst (λ c. c < window_end since rule) (sym clock)
        (same_window rule usable clear_id now since owner facts r beside ((eq_iff _ _).0 same)).1)

  increment-IsFull :
      (now n : ℕ) (facts : RequestFacts) (r : CompiledRule) (m : Memory)
      → IsUsable r.tokens
      → Beside rule usable clear_id r
      → m.clock ≡ now
      → IsKept rule usable clear_id m
      → IsFull m
      → IsFull (increment (key_of now facts r) (pos n) r.tokens.ttl_seconds m).1
  increment-IsFull now n facts r m own_usable beside clock kept full =
      let key = key_of now facts r in
      let ttl = r.tokens.ttl_seconds in
      touched-IsFull now facts r m (increment key (pos n) ttl m).1 beside
        (clock-increment key (pos n) ttl m ∙ clock)
        (increment-IsKept rule usable clear_id now facts (pos n) r m clock beside kept)
        (λ same.
          rw (counter_of-increment key own_key (pos n) ttl m (omega (arith, own_usable.outlived))) (
            rw same (
              at_least-add (counter_of m own_key) 0 n rule.tokens.limit (omega arith) (
                rw (add-zero_right (counter_of m own_key))
                  (full_now now facts r m beside clock full same)))))
        (λ apart. get-increment key own_key m apart (pos n) ttl) full

  get_counter-IsFull :
      (now : ℕ) (facts : RequestFacts) (r : CompiledRule) (m : Memory)
      → Beside rule usable clear_id r
      → m.clock ≡ now
      → IsKept rule usable clear_id m
      → IsFull m
      → IsFull (get_counter (key_of now facts r) m).1
  get_counter-IsFull now facts r m beside clock kept full =
      let key = key_of now facts r in
      touched-IsFull now facts r m (get_counter key m).1 beside (clock-get_counter key m ∙ clock)
        (get_counter-IsKept rule usable clear_id key m kept)
        (λ same.
          rw (counter_of-get_counter key own_key m) (full_now now facts r m beside clock full same))
        (λ apart. get-get_counter key own_key m apart) full

  record_rules-IsFull :
      (now n : ℕ) (facts : RequestFacts) (rules : List CompiledRule) (m : Memory)
      → m.clock ≡ now
      → All (λ r. IsUsable r.tokens) rules
      → All (Beside rule usable clear_id) rules
      → IsKept rule usable clear_id m
      → IsFull m
      → IsFull (record_rules memory_adapter now facts (pos n) (keep (λ r. applies r facts) rules) m)
  unfolding record_rules memory_increment
  record_rules-IsFull now n facts [] m clock all_usable beside kept full = full
  record_rules-IsFull now n facts (r ∷ rules) m clock (u, us) (here, later) kept full =
      elim (Bool-cases (applies r facts)) [
        | inl applied ↦ rw applied (
            record_rules-IsFull now n facts rules _
              (clock-increment (key_of now facts r) (pos n) r.tokens.ttl_seconds m ∙ clock) us later
              (increment-IsKept rule usable clear_id now facts (pos n) r m clock here kept)
              (increment-IsFull now n facts r m u here clock kept full))
        | inr skipped ↦
            rw skipped (record_rules-IsFull now n facts rules m clock us later kept full)
      ]

  record_usage-IsFull :
      (now : ℕ) (facts : RequestFacts) (total : Option ℤ) (compiled : List CompiledRule)
      (m : Memory)
      → m.clock ≡ now
      → All (λ r. IsUsable r.tokens) compiled
      → All (Beside rule usable clear_id) compiled
      → IsKept rule usable clear_id m
      → IsFull m
      → IsFull (record_usage memory_adapter now compiled facts total m)
  unfolding record_usage applicable_rules
  record_usage-IsFull now facts none compiled m clock us beside kept full = full
  record_usage-IsFull now facts (some (negsuc n)) compiled m clock us beside kept full = full
  record_usage-IsFull now facts (some (pos n)) compiled m clock us beside kept full =
      elim (Bool-cases (leb n 0)) [
        | inl nothing ↦ rw nothing full
        | inr something ↦
            rw something (record_rules-IsFull now n facts compiled m clock us beside kept full)
      ]

  check_rules-IsFull :
      (now : ℕ) (facts : RequestFacts) (rules : List CompiledRule) (m : Memory)
      → m.clock ≡ now
      → All (Beside rule usable clear_id) rules
      → IsKept rule usable clear_id m
      → IsFull m
      → IsFull (check_rules memory_adapter now facts (keep (λ r. applies r facts) rules) m).1
  unfolding check_rules judge memory_get_counter
  check_rules-IsFull now facts [] m clock beside kept full = full
  check_rules-IsFull now facts (r ∷ rules) m clock (here, later) kept full =
      let key = key_of now facts r in
      let read = get_counter key m in
      let full' = get_counter-IsFull now facts r m here clock kept full in
      let rest =
        check_rules-IsFull now facts rules read.1 (clock-get_counter key m ∙ clock) later
          (get_counter-IsKept rule usable clear_id key m kept) full' in
      elim (Bool-cases (applies r facts)) [
        | inr skipped ↦ rw skipped (check_rules-IsFull now facts rules m clock later kept full)
        | inl applied ↦ rw applied (elim (Bool-cases (at_least read.0 r.tokens.limit)) [
          | inl over ↦ rw over full'
          | inr room ↦ rw room rest
        ])
      ]

  pub run_calls-IsFull :
      (compiled : List CompiledRule) (calls : List LimiterCall) (m : Memory)
      → All (λ r. IsUsable r.tokens) compiled
      → All (Beside rule usable clear_id) compiled
      → IsKept rule usable clear_id m
      → IsFull m
      → IsFull (run_calls compiled calls m)
  unfolding check applicable_rules
  run_calls-IsFull compiled [] m us beside kept full = full
  run_calls-IsFull compiled (charging now facts total ∷ calls) m us beside kept full =
      run_calls-IsFull compiled calls _ us beside
        (record_usage-IsKept rule usable clear_id now facts total compiled (at now m) refl beside
          kept)
        (record_usage-IsFull now facts total compiled (at now m) refl us beside kept full)
  run_calls-IsFull compiled (checking now facts ∷ calls) m us beside kept full =
      run_calls-IsFull compiled calls _ us beside
        (check_rules-IsKept rule usable clear_id now facts (applicable_rules compiled facts)
          (at now m) kept)
        (check_rules-IsFull now facts compiled (at now m) refl beside kept full)
