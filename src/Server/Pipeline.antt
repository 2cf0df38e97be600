-- ===== src/Server/Pipeline.antt =====
-- packages/core/src/server/pipeline.ts: from the facts of a request to the answer of a provider. The
-- limiter, the router, the cache and the providers are the interfaces that it is written against; a
-- provider is what its `chat` and `embeddings` come to at this request.
pub mod Acts
pub mod Attribution
pub mod Calls
use omni_model.Prelude.{
  ℕ, String, Bool, true, false, Option, none, some, List, [], ◌∷◌, ◌++◌, eqb, if◌then◌else◌,
  or_else,
}
use omni_model.Prelude.Text.{◌<>◌, show}
use omni_model.Prelude.Result.{Result, ok, err}
use omni_model.Errors.{OmniError, omni_error, not_found, rate_limited}
use omni_model.Facts.{RequestFacts}
use omni_model.RateLimit.Limiter.{RateLimitDecision, allowed, rejected}
use omni_model.Routing.{RouteDecision}
use omni_model.Server.Response.{ErrorBody}
use omni_model.Server.Effects.{
  Thrown, omni, failure, Usage, CachedEntry, completion_entry, stream_entry, Act, reported_limit,
  reported_route, reported_cached, called, Run, done, throw, act, ◌>>=◌, ◌>>◌, attempt, from_result,
}

-- The parts of a request that the pipeline reads or changes, and the rest of its JSON text.
pub record ProxiedRequest : Type 0 where
  pub model : String
  pub stream : Bool
  pub rest : String

-- A provider's stream: its chunks, whether it broke off, and what the promise of its usage gives
-- (`none` where it rejects).
pub record ProviderStream : Type 0 where
  pub chunks : List (List ℕ)
  pub broke : Bool
  pub usage : Option (Option Usage)

pub data ChatResult (C : Type 0) : Type 0 where
  completion : C → ChatResult C
  stream : ProviderStream → ChatResult C
  error : ℕ → ErrorBody → ChatResult C

pub data EmbeddingsResult (C : Type 0) : Type 0 where
  embedded : C → EmbeddingsResult C
  embeddings_error : ℕ → ErrorBody → EmbeddingsResult C

pub record ChatProvider (C : Type 0) : Type 0 where
  pub id : String
  pub chat : ProxiedRequest → Result Thrown (ChatResult C)
  pub embeddings : Option (ProxiedRequest → Result Thrown (EmbeddingsResult C))

abbrev pub Route : Type 0 → Type 0
Route C = RouteDecision (ChatProvider C)

-- The parts of the key of `promptCacheKey`.
pub record CacheKeyInput : Type 0 where
  pub provider_id : String
  pub provider_type : String
  pub route_name : String
  pub model : String
  pub body : ProxiedRequest
  pub stream : Bool
  pub endpoint : String

-- The components at the time of a request. The cache's key and its `get` may fail.
pub record PipelineDeps (C : Type 0) : Type 0 where
  pub check : RequestFacts → RateLimitDecision
  pub resolve : RequestFacts → Result OmniError (Route C)
  pub cache : Option (CacheKeyInput → Result String (String × Option (CachedEntry C)))

-- `rateLimitError` of a rejection, whose kind is always `tokens`
unfoldable pub rate_limit_error : String → ℕ → ℕ → OmniError
rate_limit_error rule limit retry_after_seconds =
    let base =
      rate_limited
        ("Token budget exceeded for rate limit rule \"" <> rule <> "\". Please try again later.")
        (some retry_after_seconds) in
    record base {
      headers = base.headers ++ ("x-ratelimit-limit", show limit) ∷ ("x-ratelimit-rule", rule) ∷ [];
    }

unfoldable pub concurrency_error : ℕ → OmniError
concurrency_error limit =
    omni_error 429
      ("You already have "
        <> show limit
        <> " request"
        <> (if eqb limit 1 then "" else "s")
        <> " in flight. Wait for one to finish before sending another.")
      (record {
        type = none;
        code = some "concurrency_limit_exceeded";
        param = none;
        headers = ("Retry-After", "1") ∷ ("x-ratelimit-concurrency", show limit) ∷ [];
      })

unfoldable pub embeddings_usage : ℕ → ℕ → Usage
embeddings_usage prompt_tokens total_tokens = record {
  prompt_tokens = prompt_tokens;
  completion_tokens = 0;
  total_tokens = total_tokens;
}

-- What `chatWithFallback` answers: the result, and the fallback if it was used.
abbrev pub Answer : Type 0 → Type 0
Answer C = ChatResult C × Option (Route C)

pub record ChatExecution (C : Type 0) : Type 0 where
  pub result : ChatResult C
  pub cache_key : Option String
  pub cached : Bool

pub record EmbeddingsExecution (C : Type 0) : Type 0 where
  pub result : EmbeddingsResult C
  pub cache_key : Option String
  pub cached : Bool

module _ {C : Type 0} where
  unless_rejected : RateLimitDecision → Run C (Unit {0})
  unless_rejected allowed = done tt
  unless_rejected (rejected rule limit retry_after_seconds) = do
    act (reported_limit rule)
    throw (omni (rate_limit_error rule limit retry_after_seconds))

  unfoldable pub enforce_rate_limit : PipelineDeps C → RequestFacts → Run C (Unit {0})
  unfolding unless_rejected
  enforce_rate_limit deps facts = unless_rejected (deps.check facts)

  route_found : Result OmniError (Route C) → Run C (Route C)
  route_found (ok decision) = do
    act (reported_route decision.provider_id decision.model decision.route_name)
    done decision
  route_found (err thrown) = throw (omni thrown)

  -- `resolve`, and the observer's report of it
  unfoldable pub route : PipelineDeps C → RequestFacts → Run C (Route C)
  unfolding route_found
  route deps facts = route_found (deps.resolve facts)

  found : Result String (String × Option (CachedEntry C)) → Option (String × Option (CachedEntry C))
  found (ok lookup) = some lookup
  found (err message) = none

  -- `lookUp`: a cache that fails is no cache.
  unfoldable pub look_up :
      PipelineDeps C
      → Route C
      → ProxiedRequest
      → String
      → Bool
      → Option (String × Option (CachedEntry C))
  unfolding found
  look_up deps decision body endpoint streams = elim deps.cache [
    | none ↦ none
    | some get ↦ found (
        get (record {
          provider_id = decision.provider_id;
          provider_type = decision.provider_type;
          route_name = decision.route_name;
          model = decision.model;
          body = body;
          stream = streams;
          endpoint = endpoint;
        }))
  ]

  fallback_of : Option (ChatProvider C) → Option String → Option String → Route C → Option (Route C)
  fallback_of (some provider) (some id) (some type) decision = some (record {
    provider = provider;
    provider_id = id;
    provider_type = type;
    fallback_provider = none;
    fallback_provider_id = none;
    fallback_provider_type = none;
    model = decision.model;
    route_name = decision.route_name;
  })
  fallback_of (some provider) (some id) none decision = none
  fallback_of (some provider) none type decision = none
  fallback_of none id type decision = none

  unfoldable pub fallback_decision : Route C → Option (Route C)
  unfolding fallback_of
  fallback_decision decision =
      fallback_of decision.fallback_provider decision.fallback_provider_id
        decision.fallback_provider_type decision

  -- `decision.provider.chat({ ...request, model: decision.model })`
  unfoldable pub call_chat : Route C → ProxiedRequest → Run C (ChatResult C)
  call_chat decision request = do
    act (called decision.provider.id decision.model)
    from_result (decision.provider.chat (record request { model = decision.model }))

  kept_or_fallen : ChatResult C → Route C → Result Thrown (ChatResult C) → Answer C
  kept_or_fallen result fallback (ok second) = (second, some fallback)
  kept_or_fallen result fallback (err thrown) = (result, none)

  after_result : ChatResult C → Option (Route C) → ProxiedRequest → Run C (Answer C)
  unfolding call_chat kept_or_fallen
  after_result (error status body) (some fallback) request = do
    second ← attempt (call_chat fallback request)
    done (kept_or_fallen (error status body) fallback second)
  after_result (error status body) none request = done (error status body, none)
  after_result (completion answer) fallback request = done (completion answer, none)
  after_result (stream sse) fallback request = done (stream sse, none)

  after_throw : Thrown → Option (Route C) → ProxiedRequest → Run C (Answer C)
  unfolding call_chat
  after_throw thrown none request = throw thrown
  after_throw thrown (some fallback) request = do
    second ← call_chat fallback request
    done (second, some fallback)

  after_first : Result Thrown (ChatResult C) → Option (Route C) → ProxiedRequest → Run C (Answer C)
  unfolding after_result after_throw
  after_first (ok result) fallback request = after_result result fallback request
  after_first (err thrown) fallback request = after_throw thrown fallback request

  unfoldable pub chat_with_fallback : Route C → ProxiedRequest → Run C (Answer C)
  unfolding after_first call_chat fallback_decision
  chat_with_fallback decision request = do
    first ← attempt (call_chat decision request)
    after_first first (fallback_decision decision) request

  report_used : Option (Route C) → Run C (Unit {0})
  report_used none = done tt
  report_used (some used) = act (reported_route used.provider_id used.model used.route_name)

  key_of : Option (String × Option (CachedEntry C)) → Option String
  key_of none = none
  key_of (some (key, hit)) = some key

  execution_of : Option String → Answer C → Run C (ChatExecution C)
  unfolding report_used
  execution_of key (result, used) = do
    report_used used
    done (record { result = result; cache_key = key; cached = false })

  -- The platform's encoder gives the bytes of a stored stream.
  module _ (encode : String → List ℕ) where
    unfoldable pub replay : CachedEntry C → ChatResult C
    replay (completion_entry answer usage) = completion answer
    replay (stream_entry sse usage) =
        stream (record { chunks = encode sse ∷ []; broke = false; usage = some usage })

    answer_chat :
        Route C
        → ProxiedRequest
        → Option (String × Option (CachedEntry C))
        → Run C (ChatExecution C)
    unfolding replay execution_of key_of
    answer_chat decision request (some (key, some hit)) = do
      act reported_cached
      done (record { result = replay hit; cache_key = some key; cached = true })
    answer_chat decision request (some (key, none)) = do
      answer ← chat_with_fallback decision request
      execution_of (some key) answer
    answer_chat decision request none = do
      answer ← chat_with_fallback decision request
      execution_of none answer

    unfoldable pub execute_chat :
        PipelineDeps C → RequestFacts → ProxiedRequest → Run C (ChatExecution C)
    unfolding answer_chat
    execute_chat deps facts request = do
      enforce_rate_limit deps facts
      decision ← route deps facts
      answer_chat decision request (look_up deps decision request "chat" request.stream)
