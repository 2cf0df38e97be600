-- ===== src/RateLimit/Limiter/Budget.antt =====
-- A budget of packages/core/src/ratelimit/limiter.ts, over the counters of storage/memory.ts and while
-- the clock moves: once spent, it stays closed for the rest of its window.
use omni_model.Prelude.{
  ℕ, ◌+◌, ◌*◌, ◌≤◌, ◌<◌, ◌≡◌, ◌≢◌, refl, sym, ◌∙◌, subst, inl, inr, true, false, some, List, [],
  ◌∷◌, ◌++◌, All,
}
use omni_model.Prelude.Int.{pos}
use omni_model.Prelude.Number.{at_least, add, at_least-add}
use omni_model.Prelude.Result.{ok}
use omni_model.Facts.{RequestFacts, ExpressionEngine}
use omni_model.Storage.Memory.{Memory}
use omni_model.Storage.Memory.Laws.{counter_of, memory_adapter, memory_laws, at}
use omni_model.Storage.Memory.Lifetimes.{counter_of-later}
use omni_model.RateLimit.Limiter.{
  RuleConfig, CompiledRule, applies, allowed, key_of, window_start_for, check, record_usage,
  create_rate_limiter,
}
use omni_model.RateLimit.Limiter.Compile.{IsUsable, create_rate_limiter_sound}
use omni_model.RateLimit.Limiter.Windows.{window_start_bounds}
use omni_model.RateLimit.Limiter.Keys.{NoColon}
use omni_model.RateLimit.Limiter.Check.{exhausted, check_exact}
use omni_model.RateLimit.Limiter.Spending.{
  uses, counter-record_usage, uses-own, rejection-ne-allowed, All-at, key_of_same_window,
  exhausted-intro, le-times,
}
use omni_model.RateLimit.Limiter.Kept.{
  IsSameOrApart, LimiterCall, run_calls, window_end, IsKept, Beside, record_usage-IsKept,
  run_calls-IsKept, clock-record_usage, empty-IsKept, Distinct-IsSameOrApart, All-both,
}
use omni_model.RateLimit.Limiter.Full.{IsFull, run_calls-IsFull}

module _ (engine : ExpressionEngine) (configured : List RuleConfig)
    (before after : List CompiledRule) (rule : CompiledRule)
    (accepted : create_rate_limiter engine configured ≡ ok (before ++ rule ∷ after))
    (clear_ids : All (λ r. NoColon r.id) (before ++ rule ∷ after))
    (calls between : List LimiterCall) (fresh : Memory) (none_yet : fresh.entries ≡ [])
    (facts : RequestFacts) (now later n : ℕ) (applied : applies rule facts ≡ true)
    (reached : at_least
        (add
          (counter_of
            (at now (run_calls (before ++ rule ∷ after) calls fresh))
            (key_of now facts rule))
          (pos n))
        rule.tokens.limit
      ≡ true)
    (from : window_start_for now rule.tokens.window_ms ≤ later)
    (to : later < window_start_for now rule.tokens.window_ms + rule.tokens.window_ms) where
  All-usable : All (λ r. IsUsable r.tokens) (before ++ rule ∷ after)
  All-usable = (create_rate_limiter_sound engine configured (before ++ rule ∷ after) accepted).2

  usable : IsUsable rule.tokens
  usable = All-at (λ r. IsUsable r.tokens) before after rule All-usable

  clear_id : NoColon rule.id
  clear_id = All-at (λ r. NoColon r.id) before after rule clear_ids

  All-Beside : All (Beside rule usable clear_id) (before ++ rule ∷ after)
  All-Beside =
      All-both (IsSameOrApart rule) (λ r. NoColon r.id) (before ++ rule ∷ after)
        (Distinct-IsSameOrApart before after rule
          (create_rate_limiter_sound engine configured (before ++ rule ∷ after) accepted).0)
        clear_ids

  abbrev reached_state : Memory
  reached_state = run_calls (before ++ rule ∷ after) calls fresh

  abbrev spent : Memory
  spent =
      record_usage memory_adapter now (before ++ rule ∷ after) facts (some (pos n))
        (at now reached_state)

  spent-IsKept : IsKept rule usable clear_id spent
  spent-IsKept =
      record_usage-IsKept rule usable clear_id now facts (some (pos n)) (before ++ rule ∷ after)
        (at now reached_state) refl All-Beside
        (run_calls-IsKept rule usable clear_id (before ++ rule ∷ after) calls fresh All-Beside
          (empty-IsKept rule usable clear_id fresh none_yet))

  spent-full : at_least (counter_of spent (key_of now facts rule)) rule.tokens.limit ≡ true
  unfolding memory_laws
  spent-full =
      let key = key_of now facts rule in
      let times = uses now facts key (before ++ rule ∷ after) in
      rw
        (counter-record_usage memory_adapter memory_laws now facts (before ++ rule ∷ after)
          (some (pos n)) (at now reached_state) key All-usable)
        (at_least-add (counter_of (at now reached_state) key) n (times * n) rule.tokens.limit
          (le-times times n (uses-own now facts before after rule applied)) reached)

  spent-IsFull : IsFull rule usable clear_id now facts spent
  spent-IsFull t early =
      rw
        (counter_of-later (window_end now rule) t (key_of now facts rule) spent
          (spent-IsKept now facts)
          (subst (λ c. c < window_end now rule)
            (sym (
              clock-record_usage rule usable clear_id now n facts (before ++ rule ∷ after)
                (at now reached_state)))
            (window_start_bounds now rule.tokens.window_ms usable.positive).1)
          early)
        spent-full

  abbrev then_state : Memory
  then_state = run_calls (before ++ rule ∷ after) between spent

  spent-exhausted : exhausted (counter_of (at later then_state)) later facts rule ≡ true
  spent-exhausted = exhausted-intro (counter_of (at later then_state)) later facts rule applied (
      rw (key_of_same_window now later facts rule usable.positive from to) (
        run_calls-IsFull rule usable clear_id now facts (before ++ rule ∷ after) between spent
          All-usable All-Beside spent-IsKept spent-IsFull later to))

  -- Over the in-memory storage, whose clock moves and whose entries run out: after any calls of the
  -- limiter, at any times, on a storage that was empty, a response that takes the counter of a rule to
  -- its limit closes the budget: whatever is charged and checked after it, at whatever times, every
  -- later request with the same facts is refused until the rule's window is over. The rules are those
  -- of an accepted configuration, with no `:` in their ids.
  pub spent_budget_refuses :
      (check memory_adapter later (before ++ rule ∷ after) facts (
        at later (
          run_calls (before ++ rule ∷ after) between (
            record_usage memory_adapter now
              (before ++ rule ∷ after)
              facts
              (some (pos n))
              (at now (run_calls (before ++ rule ∷ after) calls fresh)))))).0
      ≢ allowed
  unfolding memory_laws
  spent_budget_refuses e =
      elim (check_exact memory_adapter memory_laws later facts (before ++ rule ∷ after)
        (at later then_state)).0 [
          | inl (_, free) ↦
              let open_rule : exhausted (counter_of (at later then_state)) later facts rule
                  ≡ false =
                All-at (λ r. exhausted (counter_of (at later then_state)) later facts r ≡ false)
                  before after rule free in
              cc spent-exhausted
          | inr (r, refused, first) ↦ rejection-ne-allowed later r (sym refused ∙ e)
        ]
