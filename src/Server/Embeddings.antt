-- ===== src/Server/Embeddings.antt =====
-- `executeEmbeddings` of packages/core/src/server/pipeline.ts.
pub mod Acts
use omni_model.Prelude.{
  String, Bool, true, false, Option, none, some, List, [], ◌∷◌, ◌++◌, if◌then◌else◌,
}
use omni_model.Prelude.Text.{◌<>◌}
use omni_model.Prelude.Result.{Result, ok, err}
use omni_model.Errors.{OmniError, not_found}
use omni_model.Facts.{RequestFacts}
use omni_model.Server.Effects.{
  Thrown, omni, CachedEntry, completion_entry, stream_entry, Act, reported_route, reported_cached,
  called, Run, done, throw, act, ◌>>=◌, ◌>>◌, attempt, from_result,
}
use omni_model.Server.Pipeline.{
  ProxiedRequest, EmbeddingsResult, embedded, embeddings_error, ChatProvider, Route, PipelineDeps,
  EmbeddingsExecution, enforce_rate_limit, route, look_up, fallback_decision,
}

abbrev Embed : Type 0 → Type 0
Embed C = ProxiedRequest → Result Thrown (EmbeddingsResult C)

no_embeddings : String → OmniError
no_embeddings id =
    not_found ("provider \"" <> id <> "\" does not support embeddings")
      (record { type = none; code = some "unsupported_endpoint"; param = none; headers = [] })

module _ {C : Type 0} where
  -- `embed({ ...request, model: used.model })`, by the provider that `used` names
  call_embed : Embed C → Route C → ProxiedRequest → Run C (EmbeddingsResult C)
  call_embed embed used request = do
    act (called used.provider.id used.model)
    from_result (embed (record request { model = used.model }))

  report : Route C → Run C (Unit {0})
  report used = act (reported_route used.provider_id used.model used.route_name)

  -- A fallback that supports embeddings is used instead, if there is one.
  fall_back :
      Option (Route C) → ProxiedRequest → Run C (EmbeddingsResult C) → Run C (EmbeddingsResult C)
  unfolding report call_embed
  fall_back none request otherwise = otherwise
  fall_back (some fallback) request otherwise = elim fallback.provider.embeddings [
    | none ↦ otherwise
    | some embed ↦ do report fallback; call_embed embed fallback request
  ]

  -- What the primary's call came to.
  after_primary :
      Option (Route C)
      → ProxiedRequest
      → Result Thrown (EmbeddingsResult C)
      → Run C (EmbeddingsResult C)
  unfolding fall_back
  after_primary fallback request (err thrown) = fall_back fallback request (throw thrown)
  after_primary fallback request (ok (embeddings_error status body)) =
      fall_back fallback request (done (embeddings_error status body))
  after_primary fallback request (ok (embedded answer)) = done (embedded answer)

  with_primary : Embed C → Route C → Option (Route C) → ProxiedRequest → Run C (EmbeddingsResult C)
  unfolding call_embed after_primary
  with_primary embed decision fallback request = do
    first ← attempt (call_embed embed decision request)
    after_primary fallback request first

  -- The provider that the error names, when neither supports embeddings.
  last_provider : Route C → Option (Route C) → String
  last_provider decision none = decision.provider.id
  last_provider decision (some fallback) = fallback.provider.id

  embed_with_fallback : Route C → Option (Route C) → ProxiedRequest → Run C (EmbeddingsResult C)
  unfolding with_primary fall_back last_provider no_embeddings
  embed_with_fallback decision fallback request = elim decision.provider.embeddings [
    | some embed ↦ with_primary embed decision fallback request
    | none ↦
        fall_back fallback request (throw (omni (no_embeddings (last_provider decision fallback))))
  ]

  hit_of : Option (String × Option (CachedEntry C)) → Option C
  hit_of (some (key, some (completion_entry answer usage))) = some answer
  hit_of (some (key, some (stream_entry sse usage))) = none
  hit_of (some (key, none)) = none
  hit_of none = none

  key_of : Option (String × Option (CachedEntry C)) → Option String
  key_of none = none
  key_of (some (key, hit)) = some key

  answer_embeddings :
      Route C → ProxiedRequest → Option String → Option C → Run C (EmbeddingsExecution C)
  unfolding embed_with_fallback
  answer_embeddings decision request key (some answer) = do
    act reported_cached
    done (record { result = embedded answer; cache_key = key; cached = true })
  answer_embeddings decision request key none = do
    result ← embed_with_fallback decision (fallback_decision decision) request
    done (record { result = result; cache_key = key; cached = false })

  unfoldable pub execute_embeddings :
      PipelineDeps C → RequestFacts → ProxiedRequest → Run C (EmbeddingsExecution C)
  unfolding answer_embeddings hit_of key_of
  execute_embeddings deps facts request = do
    enforce_rate_limit deps facts
    decision ← route deps facts
    let lookup = look_up deps decision request "embeddings" false
    answer_embeddings decision request (key_of lookup) (hit_of lookup)
