-- ===== src/Server/Handlers.antt =====
-- The handlers of packages/core/src/server/routes/chat.ts and embeddings.ts, from the body that
-- `readJsonObject` gave to the end of the response, with the work that it leaves for later. What the
-- log row keeps of a request and the response's headers are left out.
pub mod Slots
pub mod Accounting
use omni_model.Prelude.{
  ℕ, ◌+◌, ◌*◌, String, Bool, true, false, ◌&&◌, not, Option, none, some, List, [], ◌∷◌, ◌++◌, ◌==◌,
  eqb, ltb, length, if◌then◌else◌, or_else,
}
use omni_model.Prelude.Text.{◌<>◌}
use omni_model.Prelude.Result.{Result, ok, err}
use omni_model.Errors.{OmniError, omni_error, bad_request}
use omni_model.Facts.{RequestFacts}
use omni_model.RateLimit.Concurrency.{
  Slot, untracked, counted, ConcurrencyDecision, granted, refused,
}
use omni_model.WriteKeys.{WriteKey}
use omni_model.Server.Bodies.{JsonBody, checked_chat, checked_embeddings}
use omni_model.Server.Response.{
  ChatCompletion, EmbeddingsResponse, ErrorBody, PublicChatResponseMetadata, redact_chat_completion,
  redact_provider_error, redact_embeddings_response,
}
use omni_model.Server.Effects.{
  Thrown, omni, Usage, CachedEntry, completion_entry, stream_entry, Act, acquired, released,
  charged, stored, Run, done, throw, act, ◌>>=◌, ◌>>◌, attempt,
}
use omni_model.Server.Pipeline.{
  ProxiedRequest, ProviderStream, ChatResult, completion, stream, error, EmbeddingsResult, embedded,
  embeddings_error, PipelineDeps, ChatExecution, EmbeddingsExecution, execute_chat,
  concurrency_error, embeddings_usage,
}
use omni_model.Server.Embeddings.{execute_embeddings}

abbrev pub max_cached_stream_bytes : ℕ
max_cached_stream_bytes = 256 * 1024

joined_to : List ℕ → Option (List ℕ) → Option (List ℕ)
joined_to chunk none = none
joined_to chunk (some rest) = some (chunk ++ rest)

-- The loop of `teeForCache` after some bytes: the bytes of a whole stream within the cap.
unfoldable pub capture_chunks : ℕ → List (List ℕ) → Bool → Option (List ℕ)
unfolding joined_to
capture_chunks size [] broke = if broke then none else some []
capture_chunks size (chunk ∷ chunks) broke =
    let rest = joined_to chunk (capture_chunks (size + length chunk) chunks broke) in
    if ltb max_cached_stream_bytes (size + length chunk) then none else rest

pub data ChatAnswer : Type 0 where
  json_answer : ChatCompletion → ChatAnswer
  -- a stream that is redacted for these metadata on its way out
  stream_answer : ProviderStream → PublicChatResponseMetadata → ChatAnswer
  error_answer : ℕ → ErrorBody → ChatAnswer

module _ {C : Type 0} where
  from : {A : Type 0} → Result OmniError A → Run C A
  from (ok a) = done a
  from (err thrown) = throw (omni thrown)

  -- `acquireConcurrencySlot` of what the limiter decided, if there is one
  unfoldable pub acquire_concurrency_slot : Option ConcurrencyDecision → Run C Slot
  acquire_concurrency_slot none = done untracked
  acquire_concurrency_slot (some (granted untracked)) = done untracked
  acquire_concurrency_slot (some (granted (counted true))) = done (counted true)
  acquire_concurrency_slot (some (granted (counted false))) = do act acquired; done (counted false)
  acquire_concurrency_slot (some (refused limit)) = throw (omni (concurrency_error limit))

  unfoldable pub release_slot : Slot → Run C (Unit {0})
  release_slot untracked = done tt
  release_slot (counted true) = done tt
  release_slot (counted false) = act released

  -- `recordUsage`, of an answer that was not cached and has its usage
  unfoldable pub charge : Bool → Option Usage → Run C (Unit {0})
  charge true usage = done tt
  charge false none = done tt
  charge false (some usage) = act (charged usage)

  -- `storeCached`, of an answer that was not cached and has a key
  unfoldable pub store : Bool → Option String → CachedEntry C → Run C (Unit {0})
  store true key entry = done tt
  store false none entry = done tt
  store false (some key) entry = act (stored key entry)

  rethrown : {A B : Type 0} → Slot → Result Thrown A → (A → Run C B) → Run C B
  unfolding release_slot
  rethrown slot (ok execution) next = next execution
  rethrown slot (err thrown) next = release_slot slot >> throw thrown

usage_settled : Option (Option Usage) → Option Usage
usage_settled none = none
usage_settled (some usage) = usage

module _ (encode : String → List ℕ) (decode : List ℕ → String) where
  store_stream :
      Bool → Option String → Option (Option Usage) → Option (List ℕ) → Run ChatCompletion (Unit {0})
  unfolding store usage_settled
  store_stream cached key usage none = done tt
  store_stream cached key usage (some bytes) =
      store cached key (stream_entry (decode bytes) (usage_settled usage))

  unfoldable pub respond_chat :
      PublicChatResponseMetadata
      → Slot
      → ChatExecution ChatCompletion
      → ChatResult ChatCompletion
      → Run ChatCompletion ChatAnswer
  unfolding store_stream release_slot charge store usage_settled
  respond_chat metadata slot execution (completion answer) = do
    release_slot slot
    charge execution.cached answer.usage
    store execution.cached execution.cache_key (completion_entry answer answer.usage)
    done (json_answer (redact_chat_completion answer metadata))
  respond_chat metadata slot execution (stream sse) = do
    release_slot slot
    charge execution.cached (usage_settled sse.usage)
    store_stream execution.cached execution.cache_key sse.usage
        (capture_chunks 0 sse.chunks sse.broke)
    done (stream_answer sse metadata)
  respond_chat metadata slot execution (error status body) = do
    release_slot slot
    done (error_answer status (redact_provider_error body))

  serve_chat :
      PipelineDeps ChatCompletion
      → RequestFacts
      → PublicChatResponseMetadata
      → ProxiedRequest
      → Slot
      → Run ChatCompletion ChatAnswer
  unfolding rethrown respond_chat
  serve_chat deps facts metadata request slot = do
    tried ← attempt (execute_chat encode deps facts request)
    rethrown slot tried (λ execution. respond_chat metadata slot execution execution.result)

  -- The handler of `createChatHandler`. The limiter's decision on a slot, the facts and the metadata
  -- are those of the request's model.
  unfoldable pub chat_handler :
      PipelineDeps ChatCompletion
      → Option ConcurrencyDecision
      → Option WriteKey
      → RequestFacts
      → PublicChatResponseMetadata
      → JsonBody
      → Run ChatCompletion ChatAnswer
  unfolding serve_chat from
  chat_handler deps concurrency key facts metadata body = do
    request ← from (checked_chat key body)
    slot ← acquire_concurrency_slot concurrency
    serve_chat deps facts metadata request slot

pub data EmbeddingsAnswer : Type 0 where
  embeddings_answer : EmbeddingsResponse → EmbeddingsAnswer
  embeddings_failure : ℕ → ErrorBody → EmbeddingsAnswer

usage_of : EmbeddingsResponse → Option Usage
usage_of response = elim response.usage [
  | none ↦ none
  | some (prompt_tokens, total_tokens) ↦ some (embeddings_usage prompt_tokens total_tokens)
]

unfoldable pub respond_embeddings :
    String
    → EmbeddingsExecution EmbeddingsResponse
    → EmbeddingsResult EmbeddingsResponse
    → Run EmbeddingsResponse EmbeddingsAnswer
unfolding charge store usage_of
respond_embeddings model execution (embedded response) = do
  charge execution.cached (usage_of response)
  store execution.cached execution.cache_key (completion_entry response (usage_of response))
  done (embeddings_answer (redact_embeddings_response response model))
respond_embeddings model execution (embeddings_error status body) =
    done (embeddings_failure status (redact_provider_error body))

finish_embeddings :
    String
    → Result Thrown (EmbeddingsExecution EmbeddingsResponse)
    → Run EmbeddingsResponse EmbeddingsAnswer
unfolding respond_embeddings
finish_embeddings model (ok execution) = respond_embeddings model execution execution.result
finish_embeddings model (err thrown) = throw thrown

-- The slot is given back whatever the call came to.
serve_embeddings :
    PipelineDeps EmbeddingsResponse
    → RequestFacts
    → ProxiedRequest
    → Slot
    → Run EmbeddingsResponse EmbeddingsAnswer
unfolding finish_embeddings release_slot
serve_embeddings deps facts request slot = do
  tried ← attempt (execute_embeddings deps facts request)
  release_slot slot
  finish_embeddings request.model tried

-- The handler of `createEmbeddingsHandler`.
unfoldable pub embeddings_handler :
    PipelineDeps EmbeddingsResponse
    → Option ConcurrencyDecision
    → Option WriteKey
    → RequestFacts
    → JsonBody
    → Run EmbeddingsResponse EmbeddingsAnswer
unfolding serve_embeddings from
embeddings_handler deps concurrency key facts body = do
  request ← from (checked_embeddings key body)
  slot ← acquire_concurrency_slot concurrency
  serve_embeddings deps facts request slot
