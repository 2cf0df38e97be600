-- ===== src/Server/Handlers/Slots.antt =====
-- The slot of a request: taken and given back in pairs.
use omni_model.Prelude.{
  ℕ, suc, String, true, false, Option, none, some, List, [], ◌∷◌, ◌++◌, ◌≡◌, refl, arith, All,
}
use omni_model.Prelude.Result.{Result, ok, err}
use omni_model.Errors.{OmniError}
use omni_model.Facts.{RequestFacts}
use omni_model.RateLimit.Concurrency.{
  Slot, untracked, counted, ConcurrencyDecision, granted, refused,
}
use omni_model.WriteKeys.{WriteKey}
use omni_model.Server.Response.{ChatCompletion, EmbeddingsResponse, PublicChatResponseMetadata}
use omni_model.Server.Effects.{
  Thrown, Act, acquired, released, charged, stored, called, reported_limit, reported_route,
  reported_cached, Run, ◌>>=◌, ◌>>◌,
}
use omni_model.Server.Pipeline.{
  PipelineDeps, ProxiedRequest, ChatResult, completion, stream, error, ChatExecution, execute_chat,
  EmbeddingsResult, embedded, embeddings_error, EmbeddingsExecution,
}
use omni_model.Server.Pipeline.Acts.{Quiet, execute_chat-IsQuiet}
use omni_model.Server.Embeddings.{execute_embeddings}
use omni_model.Server.Embeddings.Acts.{execute_embeddings-IsQuiet}
use omni_model.Server.Bodies.{JsonBody, checked_chat, checked_embeddings}
use omni_model.Server.Handlers.{
  chat_handler, embeddings_handler, respond_embeddings, finish_embeddings, serve_embeddings,
  serve_chat, respond_chat, rethrown, release_slot, charge, store, store_stream,
  acquire_concurrency_slot, from,
}

module _ {C : Type 0} where
  -- How often a slot was taken, and how often one was given back.
  abbrev pub acquisitions : List (Act C) → ℕ
  acquisitions [] = 0
  acquisitions (acquired ∷ acts) = suc (acquisitions acts)
  acquisitions (_ ∷ acts) = acquisitions acts

  abbrev pub releases : List (Act C) → ℕ
  releases [] = 0
  releases (released ∷ acts) = suc (releases acts)
  releases (_ ∷ acts) = releases acts

  -- The acts take this many slots and give that many back.
  abbrev Slots : List (Act C) → ℕ → ℕ → Type 0
  Slots acts taken given = (acquisitions acts ≡ taken) × (releases acts ≡ given)

  Slots-Quiet :
      (acts later : List (Act C)) {taken given : ℕ}
      → All Quiet acts
      → Slots later taken given
      → Slots (acts ++ later) taken given
  Slots-Quiet [] later q h = h
  Slots-Quiet (reported_limit rule ∷ acts) later q h = Slots-Quiet acts later q.1 h
  Slots-Quiet (reported_route id model name ∷ acts) later q h = Slots-Quiet acts later q.1 h
  Slots-Quiet (reported_cached ∷ acts) later q h = Slots-Quiet acts later q.1 h
  Slots-Quiet (called id model ∷ acts) later q h = Slots-Quiet acts later q.1 h
  Slots-Quiet (acquired ∷ acts) later q h = absurd q.0
  Slots-Quiet (released ∷ acts) later q h = absurd q.0
  Slots-Quiet (charged usage ∷ acts) later q h = absurd q.0
  Slots-Quiet (stored key entry ∷ acts) later q h = absurd q.0

-- What a slot is still to give back.
abbrev owed : Slot → ℕ
owed untracked = 0
owed (counted true) = 0
owed (counted false) = 1

Slots-release : (C : Type 0) (slot : Slot) → Slots (release_slot {C = C} slot).0 0 (owed slot)
unfolding release_slot
Slots-release C untracked = (refl, refl)
Slots-release C (counted true) = (refl, refl)
Slots-release C (counted false) = (refl, refl)

module _ {C : Type 0} where
  Slots-rethrown :
      {A B : Type 0} (slot : Slot) (result : Result Thrown A) (next : A → Run C B)
      → ((a : A) → Slots (next a).0 0 (owed slot))
      → Slots (rethrown slot result next).0 0 (owed slot)
  unfolding rethrown release_slot
  Slots-rethrown slot (ok a) next h = h a
  Slots-rethrown untracked (err thrown) next h = (refl, refl)
  Slots-rethrown (counted true) (err thrown) next h = (refl, refl)
  Slots-rethrown (counted false) (err thrown) next h = (refl, refl)

  abbrev pub Balanced : List (Act C) → Type 0
  Balanced acts = acquisitions acts ≡ releases acts

  Balanced-from :
      {A B : Type 0} (result : Result OmniError A) (next : A → Run C B)
      → ((a : A) → Balanced (next a).0)
      → Balanced (from result >>= next).0
  unfolding from
  Balanced-from (ok a) next h = h a
  Balanced-from (err thrown) next h = refl

  -- What goes on with the slot gives it back.
  Balanced-acquire :
      {B : Type 0} (concurrency : Option ConcurrencyDecision) (next : Slot → Run C B)
      → ((slot : Slot) → Slots (next slot).0 0 (owed slot))
      → Balanced (acquire_concurrency_slot concurrency >>= next).0
  unfolding acquire_concurrency_slot
  Balanced-acquire none next h = omega (arith, h untracked)
  Balanced-acquire (some (granted untracked)) next h = omega (arith, h untracked)
  Balanced-acquire (some (granted (counted true))) next h = omega (arith, h (counted true))
  Balanced-acquire (some (granted (counted false))) next h = omega (arith, h (counted false))
  Balanced-acquire (some (refused limit)) next h = refl

  Slots-release_then :
      {B : Type 0} (slot : Slot) (rest : Run C B)
      → Slots rest.0 0 0
      → Slots (release_slot slot >> rest).0 0 (owed slot)
  unfolding release_slot
  Slots-release_then untracked rest h = h
  Slots-release_then (counted true) rest h = h
  Slots-release_then (counted false) rest h = omega (arith, h)

Slots-respond_embeddings :
    (model : String) (execution : EmbeddingsExecution EmbeddingsResponse)
    (result : EmbeddingsResult EmbeddingsResponse)
    → Slots (respond_embeddings model execution result).0 0 0
unfolding respond_embeddings charge store
Slots-respond_embeddings model execution (embedded response) = (ground arith, ground arith)
Slots-respond_embeddings model execution (embeddings_error status body) = (refl, refl)

Slots-finish_embeddings :
    (model : String) (tried : Result Thrown (EmbeddingsExecution EmbeddingsResponse))
    → Slots (finish_embeddings model tried).0 0 0
unfolding finish_embeddings
Slots-finish_embeddings model (ok execution) =
    Slots-respond_embeddings model execution execution.result
Slots-finish_embeddings model (err thrown) = (refl, refl)

Slots-serve_embeddings :
    (deps : PipelineDeps EmbeddingsResponse) (facts : RequestFacts) (request : ProxiedRequest)
    (slot : Slot)
    → Slots (serve_embeddings deps facts request slot).0 0 (owed slot)
unfolding serve_embeddings
Slots-serve_embeddings deps facts request slot =
    let run = execute_embeddings deps facts request in
    Slots-Quiet run.0 _ (execute_embeddings-IsQuiet deps facts request) (
      Slots-release_then slot (finish_embeddings request.model run.1)
        (Slots-finish_embeddings request.model run.1))

embeddings_handler_slots :
    (deps : PipelineDeps EmbeddingsResponse) (concurrency : Option ConcurrencyDecision)
    (key : Option WriteKey) (facts : RequestFacts) (body : JsonBody)
    → Balanced (embeddings_handler deps concurrency key facts body).0
unfolding embeddings_handler
embeddings_handler_slots deps concurrency key facts body =
    Balanced-from (checked_embeddings key body) _ λ request.
      Balanced-acquire concurrency (serve_embeddings deps facts request)
        (Slots-serve_embeddings deps facts request)

module _ (encode : String → List ℕ) (decode : List ℕ → String) where
  Slots-respond_chat :
      (metadata : PublicChatResponseMetadata) (slot : Slot)
      (execution : ChatExecution ChatCompletion) (result : ChatResult ChatCompletion)
      → Slots (respond_chat encode decode metadata slot execution result).0 0 (owed slot)
  unfolding respond_chat release_slot charge store store_stream
  Slots-respond_chat metadata untracked execution (completion answer) = (ground arith, ground arith)
  Slots-respond_chat metadata (counted true) execution (completion answer) =
      (ground arith, ground arith)
  Slots-respond_chat metadata (counted false) execution (completion answer) =
      (ground arith, ground arith)
  Slots-respond_chat metadata untracked execution (stream sse) = (ground arith, ground arith)
  Slots-respond_chat metadata (counted true) execution (stream sse) = (ground arith, ground arith)
  Slots-respond_chat metadata (counted false) execution (stream sse) = (ground arith, ground arith)
  Slots-respond_chat metadata untracked execution (error status body) = (refl, refl)
  Slots-respond_chat metadata (counted true) execution (error status body) = (refl, refl)
  Slots-respond_chat metadata (counted false) execution (error status body) = (refl, refl)

  module _ (deps : PipelineDeps ChatCompletion) (facts : RequestFacts)
      (metadata : PublicChatResponseMetadata) where
    Slots-serve_chat :
        (request : ProxiedRequest) (slot : Slot)
        → Slots (serve_chat encode decode deps facts metadata request slot).0 0 (owed slot)
    unfolding serve_chat rethrown
    Slots-serve_chat request slot =
        let run = execute_chat encode deps facts request in
        Slots-Quiet run.0 _ (execute_chat-IsQuiet encode deps facts request) (
          Slots-rethrown slot run.1
            (λ execution. respond_chat encode decode metadata slot execution execution.result)
            (λ execution. Slots-respond_chat metadata slot execution execution.result))

    chat_handler_slots :
        (concurrency : Option ConcurrencyDecision) (key : Option WriteKey) (body : JsonBody)
        → Balanced (chat_handler encode decode deps concurrency key facts metadata body).0
    unfolding chat_handler
    chat_handler_slots concurrency key body = Balanced-from (checked_chat key body) _ λ request.
        Balanced-acquire concurrency (serve_chat encode decode deps facts metadata request)
          (Slots-serve_chat request)

-- A request for a completion or for embeddings gives back exactly the slots that it took, however it
-- ends: refused, failed, answered from the cache, or streamed to the end or to a break.
pub handlers_slots :
    (encode : String → List ℕ) (decode : List ℕ → String) (deps : PipelineDeps ChatCompletion)
    (embeddings_deps : PipelineDeps EmbeddingsResponse) (concurrency : Option ConcurrencyDecision)
    (key : Option WriteKey) (facts : RequestFacts) (metadata : PublicChatResponseMetadata)
    (body : JsonBody)
    → Balanced (chat_handler encode decode deps concurrency key facts metadata body).0
      × Balanced (embeddings_handler embeddings_deps concurrency key facts body).0
handlers_slots encode decode deps embeddings_deps concurrency key facts metadata body = (
  chat_handler_slots encode decode deps facts metadata concurrency key body,
  embeddings_handler_slots embeddings_deps concurrency key facts body,
)
