-- ===== src/Tests/Limits.antt =====
-- The rate limits on one application with a rule of ten tokens a minute.
use omni_model.Prelude.{
  List, ◌+◌, ◌*◌, ◌≤◌, ◌<◌, String, ◌≡◌, ◌≢◌, refl, ◌⊎◌, true, false, none, some, [], ◌∷◌, ◌++◌,
  arith, All, if◌then◌else◌, ◌==◌,
}
use omni_model.Prelude.Int.{pos, negsuc, ◌+ℤ◌}
use omni_model.Prelude.Number.{int, add, at_least, to_number, to_text}
use omni_model.Prelude.Text.{show, read}
use omni_model.Prelude.Dict.{get, set}
use omni_model.Prelude.Result.{ok}
use omni_model.Facts.{RequestFacts, limit_key_for, boolean, ExpressionEngine}
use omni_model.Storage.Memory.{Memory, get_counter, increment, expired}
use omni_model.Storage.Memory.Laws.{
  counter_of, memory_adapter, memory_laws, increment-get_counter, at, memory_get_counter,
  memory_increment,
}
use omni_model.RateLimit.Limiter.{
  RuleConfig, CompiledRule, window_start_for, token_key, create_rate_limiter, identity_of, not_seen,
  compile_rule, compile_window, allowed, rejection, check, check_rules, applicable_rules, judge,
  record_rules, record_usage, applies, key_of,
}
use omni_model.Util.Duration.{parse_duration, span_digits, trim, is_space, is_digit, unit_ms}
use omni_model.RateLimit.Limiter.Compile.{IsUsable}
use omni_model.RateLimit.Limiter.Keys.{NoColon}
use omni_model.RateLimit.Limiter.Check.{exhausted, IsFirst, check_exact, Backing, rejection-Backing}
use omni_model.RateLimit.Limiter.Spending.{uses, charged, counter-record_usage}
use omni_model.RateLimit.Limiter.Kept.{LimiterCall, charging, checking, run_calls}
use omni_model.RateLimit.Limiter.Budget.{spent_budget_refuses}
use omni_model.RateLimit.Concurrency.{counted, granted, enter, release, acquire}
use omni_model.RateLimit.Concurrency.Interleaving.{
  System, arrive, here, next, serving_count, counted_calls, bounded_in_flight, phase_of,
}
use omni_model.RateLimit.Concurrency.Expiry.{late_release_below_zero}

abbrev ann : RequestFacts
ann = record {
  model = "m";
  input_token_count = 3;
  max_tokens = none;
  temperature = none;
  user_id = some "ann";
  user_claims = "{}";
  user_providers = "jwt" ∷ [];
  client_id = none;
  client_name = none;
  http_method = "POST";
  http_path = "/v1/chat/completions";
  http_ip = none;
  http_headers = [];
}

abbrev minute : CompiledRule
minute = record {
  id = "minute";
  name = "per minute";
  when = none;
  tokens = record { limit = 10; window_ms = 60000; ttl_seconds = 120 };
}

abbrev empty_store : Memory
empty_store = record { entries = []; clock = 1000 }

minute-IsUsable : IsUsable (record { limit = 10; window_ms = 60000; ttl_seconds = 120 })
minute-IsUsable = record { positive = omega arith; outlived = omega arith }

check_exact_example :
    ((((check memory_adapter 1000 (minute ∷ []) ann empty_store).0 ≡ allowed)
        × All (λ r. exhausted (memory_laws.counter empty_store) 1000 ann r ≡ false) (minute ∷ []))
      ⊎ ((rule : CompiledRule) × ((check memory_adapter 1000 (minute ∷ []) ann empty_store).0
            ≡ rejection 1000 rule)
          × IsFirst (memory_laws.counter empty_store) 1000 ann (minute ∷ []) rule))
    × ((k : String)
        → memory_laws.counter (check memory_adapter 1000 (minute ∷ []) ann empty_store).1 k
          ≡ memory_laws.counter empty_store k)
check_exact_example = check_exact memory_adapter memory_laws 1000 ann (minute ∷ []) empty_store

counter-record_usage_example :
    counter_of
      (record_usage memory_adapter 1000 (minute ∷ minute ∷ []) ann (some (pos 4)) empty_store)
      "other"
    ≡ add
        (counter_of empty_store "other")
        (pos (uses 1000 ann "other" (minute ∷ minute ∷ []) * charged (some (pos 4))))
unfolding memory_laws
counter-record_usage_example =
    counter-record_usage memory_adapter memory_laws 1000 ann (minute ∷ minute ∷ []) (some (pos 4))
      empty_store "other" (minute-IsUsable, (minute-IsUsable, tt))

abbrev used_up : Memory
used_up = record_usage memory_adapter 1000 (minute ∷ []) ann (some (pos 12)) empty_store

no_entry : get "k" empty_store.entries ≡ none
unfolding get
no_entry = refl

no_count : counter_of empty_store "k" ≡ int (pos 0)
unfolding counter_of get
no_count = refl

late_release_below_zero_example :
    ((acquire memory_adapter "k" 1 (at 0 empty_store)).0 ≡ granted (counted false))
    × (counter_of
          (release memory_adapter "k"
            (counted false)
            (at 900000 (acquire memory_adapter "k" 1 (at 0 empty_store)).1)).1
          "k"
        ≡ int (negsuc 0))
late_release_below_zero_example =
    late_release_below_zero "k" 1 0 900000 empty_store no_entry (omega arith) (omega arith)

-- Two requests of a user who may have one at a time.
abbrev one_in : System memory_adapter
one_in = record {
  state = (enter memory_adapter "k" 1 empty_store).1;
  calls = phase_of (enter memory_adapter "k" 1 empty_store).0 ∷ [];
}

bounded_in_flight_example :
    (serving_count one_in.calls ≤ 1)
    × (counter_of one_in.state "k" ≡ int (pos (counted_calls one_in.calls)))
unfolding memory_laws
bounded_in_flight_example =
    bounded_in_flight memory_adapter memory_laws "k" 1 empty_store one_in no_count
      (next here (arrive empty_store []))

abbrev constant_engine : ExpressionEngine
constant_engine source = ok (λ facts. boolean true)

abbrev config : RuleConfig
config = record { id = some "minute"; name = none; when = none; limit = 10; window = "1m" }

abbrev minute_by_id : CompiledRule
minute_by_id = record minute { name = "minute" }

accepted_config : create_rate_limiter constant_engine (config ∷ []) ≡ ok (minute_by_id ∷ [])
unfolding create_rate_limiter identity_of not_seen compile_rule compile_window parse_duration read
    span_digits trim is_space is_digit unit_ms
accepted_config = refl

increment-get_counter_example :
    ((get_counter "k" empty_store).0 ≡ counter_of empty_store "k")
    × (counter_of (get_counter "k" empty_store).1 "j" ≡ counter_of empty_store "j")
    × ((increment "k" (pos 1) 60 empty_store).0 ≡ add (counter_of empty_store "k") (pos 1))
    × (counter_of (increment "k" (pos 1) 60 empty_store).1 "j" ≡ (
        if "k" == "j"
        then add (counter_of empty_store "j") (pos 1)
        else counter_of empty_store "j"))
increment-get_counter_example = increment-get_counter "k" "j" (pos 1) 60 empty_store (omega arith)

-- Four tokens are charged at 1 s and six at 20 s; more come at 40 s, and the request at 59 s is refused.
abbrev earlier_calls : List LimiterCall
earlier_calls = checking 500 ann ∷ charging 1000 ann (some (pos 4)) ∷ []

abbrev later_calls : List LimiterCall
later_calls = checking 30000 ann ∷ charging 40000 ann (some (pos 2)) ∷ []

spends_it :
    at_least
      (add
        (counter_of
          (at 20000 (run_calls (minute_by_id ∷ []) earlier_calls empty_store))
          (key_of 20000 ann minute_by_id))
        (pos 6))
      10
    ≡ true
unfolding check record_usage memory_get_counter memory_increment get_counter increment get set
    counter_of add ◌+ℤ◌ applies check_rules applicable_rules judge record_rules key_of token_key
    limit_key_for show window_start_for expired to_number to_text read
spends_it = refl

begins : window_start_for 20000 60000 ≤ 59000
unfolding window_start_for
begins = omega arith

ends : 59000 < window_start_for 20000 60000 + 60000
unfolding window_start_for
ends = omega arith

minute_by_id-applies : applies minute_by_id ann ≡ true
unfolding applies
minute_by_id-applies = refl

minute_id-NoColon : NoColon "minute"
minute_id-NoColon = (
  λ e. omega (arith, e),
  (
    λ e. omega (arith, e),
    (
      λ e. omega (arith, e),
      (λ e. omega (arith, e), (λ e. omega (arith, e), (λ e. omega (arith, e), tt))),
    ),
  ),
)

spent_budget_refuses_example :
    (check memory_adapter 59000 ([] ++ minute_by_id ∷ []) ann (
      at 59000 (
        run_calls ([] ++ minute_by_id ∷ []) later_calls (
          record_usage memory_adapter 20000
            ([] ++ minute_by_id ∷ [])
            ann
            (some (pos 6))
            (at 20000 (run_calls ([] ++ minute_by_id ∷ []) earlier_calls empty_store)))))).0
    ≢ allowed
spent_budget_refuses_example =
    spent_budget_refuses constant_engine (config ∷ []) [] [] minute_by_id accepted_config
      (minute_id-NoColon, tt) earlier_calls later_calls empty_store refl ann 20000 59000 6
      minute_by_id-applies spends_it begins ends

rejection-Backing_example :
    ((check memory_adapter 1000 (minute ∷ []) ann used_up).0 ≡ allowed)
    ⊎ Backing memory_adapter 1000 ann
        (minute ∷ [])
        used_up
        (check memory_adapter 1000 (minute ∷ []) ann used_up).0
rejection-Backing_example = rejection-Backing memory_adapter 1000 ann (minute ∷ []) used_up
