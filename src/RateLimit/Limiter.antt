-- ===== src/RateLimit/Limiter.antt =====
-- `createRateLimiter` of packages/core/src/ratelimit/limiter.ts, on rules that the schema has
-- parsed: compilation, `check` and `recordUsage`. Logging is left out; it decides nothing.
pub mod Compile
pub mod Windows
pub mod Keys
pub mod Check
pub mod Spending
pub mod Kept
pub mod Full
pub mod Budget
use omni_model.Prelude.{
  ℕ, ◌+◌, ◌-◌, ◌*◌, ◌/◌, String, Bool, true, Option, none, some, List, [], ◌∷◌, ◌==◌, leb,
  if◌then◌else◌, keep, any, or_option,
}
use omni_model.Prelude.Int.{ℤ, pos, negsuc}
use omni_model.Prelude.Number.{JsNumber, at_least}
use omni_model.Prelude.Text.{◌<>◌, show}
use omni_model.Prelude.Result.{Result, ok, err, ◌>>=◌, ◌>>◌}
use omni_model.Facts.{RequestFacts, CompiledExpression, ExpressionEngine, is_true, limit_key_for}
use omni_model.Storage.{StorageAdapter}
use omni_model.Util.Duration.{parse_duration}

-- `RateLimitRuleConfig`: `tokens: { limit, window }`
pub record RuleConfig : Type 0 where
  pub id : Option String
  pub name : Option String
  pub when : Option String
  pub limit : ℕ
  pub window : String

pub record CompiledWindow : Type 0 where
  pub limit : ℕ
  pub window_ms : ℕ
  pub ttl_seconds : ℕ

pub record CompiledRule : Type 0 where
  pub id : String
  pub name : String
  pub when : Option CompiledExpression
  pub tokens : CompiledWindow

-- `Math.floor(nowMs / windowMs) * windowMs`
unfoldable pub window_start_for : ℕ → ℕ → ℕ
window_start_for now_ms window_ms = now_ms / window_ms * window_ms

unfoldable pub token_key : String → String → ℕ → String
token_key rule_id limit_key window_start =
    "rl:tok:" <> rule_id <> ":" <> limit_key <> ":" <> show window_start

rename_error : {A : Type 0} → String → Result String A → Result String A
rename_error prefix (ok a) = ok a
rename_error prefix (err e) = err (prefix <> e)

unfoldable pub compile_expression :
    ExpressionEngine → String → String → Result String CompiledExpression
unfolding rename_error
compile_expression engine source rule_name =
    rename_error ("rate limit rule \"" <> rule_name <> "\": invalid `when` expression: ")
      (engine source)

-- `Math.ceil(windowMs / 1000) + 60`
build_window : ℕ → String → ℕ → Result String CompiledWindow
build_window limit rule_name window_ms =
    if leb window_ms 0
    then err ("rate limit rule \"" <> rule_name <> "\": tokens.window must be a positive duration")
    else ok (record {
      limit = limit;
      window_ms = window_ms;
      ttl_seconds = (window_ms + 999) / 1000 + 60;
    })

unfoldable pub compile_window : ℕ → String → String → Result String CompiledWindow
unfolding rename_error build_window
compile_window limit window rule_name = do
  window_ms ←
      rename_error ("rate limit rule \"" <> rule_name <> "\": tokens.window: ")
        (parse_duration window)
  build_window limit rule_name window_ms

both_names : Option String → Option String → Result String (String × String)
both_names (some id) (some name) = ok (id, name)
both_names _ _ = err "a rate limit rule needs an `id` or a `name`"

unfoldable pub identity_of : RuleConfig → Result String (String × String)
unfolding both_names
identity_of rule = both_names (or_option rule.id rule.name) (or_option rule.name rule.id)

compile_when : ExpressionEngine → Option String → String → Result String (Option CompiledExpression)
compile_when engine none name = ok none
compile_when engine (some source) name = do e ← compile_expression engine source name; ok (some e)

unfoldable pub compile_rule : ExpressionEngine → RuleConfig → Result String CompiledRule
unfolding compile_when
compile_rule engine rule = do
  (id, name) ← identity_of rule
  when ← compile_when engine rule.when name
  tokens ← compile_window rule.limit rule.window name
  ok (record { id = id; name = name; when = when; tokens = tokens })

abbrev pub seen : String → List String → Bool
seen x = any (λ y. x == y)

unfoldable pub not_seen : String → String → List String → List String → Result String (Unit {0})
not_seen id name seen_ids seen_names =
    if seen id seen_ids
    then err (
        "duplicate rate limit rule id \"" <> id
        <> "\"; ids isolate counter keyspaces and must be unique "
        <> "(a rule without an explicit `id` uses its `name`)")
    else if seen name seen_names
    then err (
        "duplicate rate limit rule name \"" <> name
        <> "\"; names identify rules in decisions and response headers and must be unique")
    else ok tt

-- The loop of `createRateLimiter` over the parsed rules, with the ids and names seen so far.
unfoldable pub compile_rules :
    ExpressionEngine
    → List String
    → List String
    → List RuleConfig
    → Result String (List CompiledRule)
compile_rules engine seen_ids seen_names [] = ok []
compile_rules engine seen_ids seen_names (rule ∷ rules) = do
  (id, name) ← identity_of rule
  not_seen id name seen_ids seen_names
  compiled ← compile_rule engine rule
  rest ← compile_rules engine (id ∷ seen_ids) (name ∷ seen_names) rules
  ok (compiled ∷ rest)

unfoldable pub create_rate_limiter :
    ExpressionEngine → List RuleConfig → Result String (List CompiledRule)
unfolding compile_rules
create_rate_limiter engine rules = compile_rules engine [] [] rules

-- A condition that throws, or gives anything but `true`, does not apply.
unfoldable pub applies : CompiledRule → RequestFacts → Bool
applies rule facts = elim rule.when [ none ↦ true | some e ↦ is_true (e facts) ]

unfoldable pub applicable_rules : List CompiledRule → RequestFacts → List CompiledRule
applicable_rules compiled facts = keep (λ rule. applies rule facts) compiled

pub data RateLimitDecision : Type 0 where
  allowed : RateLimitDecision
  -- the rule's name, its limit, and the seconds until its window resets
  rejected : String → ℕ → ℕ → RateLimitDecision

unfoldable pub key_of : ℕ → RequestFacts → CompiledRule → String
key_of now_ms facts rule =
    token_key rule.id (limit_key_for facts) (window_start_for now_ms rule.tokens.window_ms)

-- `Math.ceil((windowStart + windowMs - nowMs) / 1000)`
unfoldable pub retry_after : ℕ → ℕ → ℕ
retry_after now_ms window_ms = (window_start_for now_ms window_ms + window_ms - now_ms + 999) / 1000

unfoldable pub rejection : ℕ → CompiledRule → RateLimitDecision
rejection now_ms rule =
    rejected rule.name rule.tokens.limit (retry_after now_ms rule.tokens.window_ms)

module _ (store : StorageAdapter) where
  open store use {State, get_counter, increment}

  -- One round of `check` after its read: a read that failed lets the rule pass.
  unfoldable pub judge :
      ℕ
      → CompiledRule
      → Option JsNumber
      → State
      → RateLimitDecision × State
      → RateLimitDecision × State
  judge now_ms rule none s' rest = rest
  judge now_ms rule (some n) s' rest =
      if at_least n rule.tokens.limit then (rejection now_ms rule, s') else rest

  -- The loop of `check`.
  unfoldable pub check_rules :
      ℕ → RequestFacts → List CompiledRule → State → RateLimitDecision × State
  check_rules now_ms facts [] s = (allowed, s)
  check_rules now_ms facts (rule ∷ rules) s =
      let (used, s') = get_counter (key_of now_ms facts rule) s in
      let rest = check_rules now_ms facts rules s' in judge now_ms rule used s' rest

  unfoldable pub check : ℕ → List CompiledRule → RequestFacts → State → RateLimitDecision × State
  check now_ms compiled facts s = check_rules now_ms facts (applicable_rules compiled facts) s

  -- The loop of `recordUsage`; a write that fails is dropped.
  unfoldable pub record_rules : ℕ → RequestFacts → ℤ → List CompiledRule → State → State
  record_rules now_ms facts total [] s = s
  record_rules now_ms facts total (rule ∷ rules) s =
      record_rules now_ms facts total rules
        (increment (key_of now_ms facts rule) total rule.tokens.ttl_seconds s).1

  -- `total` is `usage.total_tokens`, a whole number here; none stands for one that is not finite.
  unfoldable pub record_usage : ℕ → List CompiledRule → RequestFacts → Option ℤ → State → State
  record_usage now_ms compiled facts none s = s
  record_usage now_ms compiled facts (some (negsuc n)) s = s
  record_usage now_ms compiled facts (some (pos n)) s =
      if leb n 0 then s else record_rules now_ms facts (pos n) (applicable_rules compiled facts) s
