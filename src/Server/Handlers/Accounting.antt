-- ===== src/Server/Handlers/Accounting.antt =====
-- Budgets and the cache: what a request is charged for, and what is kept of its answer.
use omni_model.Prelude.{
  ℕ, suc, ◌≤◌, String, Bool, true, false, Option, none, some, List, [], ◌∷◌, ◌++◌, ◌≡◌, refl, arith,
  All, inl, inr, Bool-cases,
}
use omni_model.Prelude.Result.{Result, ok, err}
use omni_model.Errors.{OmniError}
use omni_model.Facts.{RequestFacts}
use omni_model.RateLimit.Concurrency.{
  Slot, untracked, counted, ConcurrencyDecision, granted, refused,
}
use omni_model.WriteKeys.{WriteKey}
use omni_model.Server.Response.{
  ChatCompletion, redact_chat_completion, redact_provider_error, PublicChatResponseMetadata,
}
use omni_model.Server.Effects.{
  Thrown, Usage, done, throw, CachedEntry, completion_entry, Act, acquired, released, charged,
  stored, called, reported_limit, reported_route, reported_cached, Run, ◌>>=◌, ◌>>◌,
}
use omni_model.Server.Pipeline.{
  PipelineDeps, ProviderStream, ProxiedRequest, ChatResult, completion, stream, error,
  ChatExecution, execute_chat,
}
use omni_model.Server.Pipeline.Acts.{Quiet, execute_chat-IsQuiet}
use omni_model.Server.Pipeline.Calls.{calls, calls-append, execute_chat-IsCalledFor}
use omni_model.Server.Bodies.{JsonBody, checked_chat}
use omni_model.Server.Handlers.{
  chat_handler, serve_chat, respond_chat, rethrown, release_slot, charge, store, store_stream,
  ChatAnswer, json_answer, stream_answer, error_answer, acquire_concurrency_slot, usage_settled,
  capture_chunks, from,
}

module _ {C : Type 0} where
  abbrev pub charges : List (Act C) → ℕ
  charges [] = 0
  charges (charged usage ∷ acts) = suc (charges acts)
  charges (_ ∷ acts) = charges acts

  abbrev pub stores : List (Act C) → ℕ
  stores [] = 0
  stores (stored key entry ∷ acts) = suc (stores acts)
  stores (_ ∷ acts) = stores acts

  -- At most one charge and one entry, and none where no provider was called.
  abbrev pub PaidFor : List (Act C) → ℕ → Type 0
  PaidFor acts n = (charges acts ≤ 1) × (stores acts ≤ 1) × (charges acts ≤ n) × (stores acts ≤ n)

  PaidFor-Quiet :
      (acts later : List (Act C)) (n : ℕ)
      → All Quiet acts
      → PaidFor later n
      → PaidFor (acts ++ later) n
  PaidFor-Quiet [] later n q h = h
  PaidFor-Quiet (called id model ∷ acts) later n q h = PaidFor-Quiet acts later n q.1 h
  PaidFor-Quiet (reported_limit rule ∷ acts) later n q h = PaidFor-Quiet acts later n q.1 h
  PaidFor-Quiet (reported_route id model name ∷ acts) later n q h = PaidFor-Quiet acts later n q.1 h
  PaidFor-Quiet (reported_cached ∷ acts) later n q h = PaidFor-Quiet acts later n q.1 h
  PaidFor-Quiet (acquired ∷ acts) later n q h = absurd q.0
  PaidFor-Quiet (released ∷ acts) later n q h = absurd q.0
  PaidFor-Quiet (charged usage ∷ acts) later n q h = absurd q.0
  PaidFor-Quiet (stored key entry ∷ acts) later n q h = absurd q.0

-- What may be charged and stored for one answer, by whether it came from the cache.
abbrev price : Bool → ℕ
price true = 0
price false = 1

PaidFor-charge_only :
    {B : Type 0} (C : Type 0) (cached : Bool) (usage : Option Usage) (answer : B)
    → PaidFor {C = C} (charge cached usage >> done answer).0 (price cached)
unfolding charge
PaidFor-charge_only C true usage answer = omega arith
PaidFor-charge_only C false none answer = omega arith
PaidFor-charge_only C false (some usage) answer = omega arith

module _ {C B : Type 0} where
  PaidFor-release :
      (slot : Slot) (rest : Run C B) (n : ℕ)
      → PaidFor rest.0 n
      → PaidFor (release_slot slot >> rest).0 n
  unfolding release_slot
  PaidFor-release untracked rest n h = h
  PaidFor-release (counted true) rest n h = h
  PaidFor-release (counted false) rest n h = h

  PaidFor-charge :
      (cached : Bool) (usage : Option Usage) (key : Option String) (entry : CachedEntry C)
      (answer : B)
      → PaidFor (charge cached usage >> (store cached key entry >> done answer)).0 (price cached)
  unfolding charge store
  PaidFor-charge true usage key entry answer = omega arith
  PaidFor-charge false none none entry answer = omega arith
  PaidFor-charge false none (some key) entry answer = omega arith
  PaidFor-charge false (some usage) none entry answer = omega arith
  PaidFor-charge false (some usage) (some key) entry answer = omega arith

  PaidFor-rethrown :
      {A : Type 0} (slot : Slot) (result : Result Thrown A) (next : A → Run C B) (n : ℕ)
      → ((a : A) → result ≡ ok a → PaidFor (next a).0 n)
      → PaidFor (rethrown slot result next).0 n
  unfolding rethrown
  PaidFor-rethrown slot (ok a) next n h = h a refl
  PaidFor-rethrown slot (err thrown) next n h = PaidFor-release slot (throw thrown) n (omega arith)

  -- The same of a whole run.
  abbrev pub IsPaidFor : Run C B → Type 0
  IsPaidFor run = PaidFor run.0 (calls run.0)

  IsPaidFor-from :
      {A : Type 0} (result : Result OmniError A) (next : A → Run C B)
      → ((a : A) → IsPaidFor (next a))
      → IsPaidFor (from result >>= next)
  unfolding from
  IsPaidFor-from (ok a) next h = h a
  IsPaidFor-from (err thrown) next h = omega arith

  IsPaidFor-acquire :
      (concurrency : Option ConcurrencyDecision) (next : Slot → Run C B)
      → ((slot : Slot) → IsPaidFor (next slot))
      → IsPaidFor (acquire_concurrency_slot concurrency >>= next)
  unfolding acquire_concurrency_slot
  IsPaidFor-acquire none next h = h untracked
  IsPaidFor-acquire (some (granted untracked)) next h = h untracked
  IsPaidFor-acquire (some (granted (counted true))) next h = h (counted true)
  IsPaidFor-acquire (some (granted (counted false))) next h = h (counted false)
  IsPaidFor-acquire (some (refused limit)) next h = omega arith

PaidFor-le : {C : Type 0} (acts : List (Act C)) (m n : ℕ) → m ≤ n → PaidFor acts m → PaidFor acts n
PaidFor-le acts m n le h = omega arith

module _ (encode : String → List ℕ) (decode : List ℕ → String) where
  PaidFor-stream :
      (cached : Bool) (key : Option String) (sse : ProviderStream) (bytes : Option (List ℕ))
      (answer : ChatAnswer)
      → PaidFor
          (charge cached (usage_settled sse.usage)
            >> (store_stream encode decode cached key sse.usage bytes >> done answer)).0
          (price cached)
  unfolding store_stream
  PaidFor-stream cached key sse none answer =
      PaidFor-charge_only ChatCompletion cached (usage_settled sse.usage) answer
  PaidFor-stream cached key sse (some bytes) answer = PaidFor-charge cached _ key _ answer

  PaidFor-respond_chat :
      (metadata : PublicChatResponseMetadata) (slot : Slot)
      (execution : ChatExecution ChatCompletion) (result : ChatResult ChatCompletion)
      → PaidFor
          (respond_chat encode decode metadata slot execution result).0
          (price execution.cached)
  unfolding respond_chat
  PaidFor-respond_chat metadata slot execution (completion answer) =
      PaidFor-release slot _ (price execution.cached) (
        PaidFor-charge execution.cached answer.usage execution.cache_key
          (completion_entry answer answer.usage)
          (json_answer (redact_chat_completion answer metadata)))
  PaidFor-respond_chat metadata slot execution (stream sse) =
      PaidFor-release slot _ (price execution.cached) (
        PaidFor-stream execution.cached execution.cache_key sse
          (capture_chunks 0 sse.chunks sse.broke) (stream_answer sse metadata))
  PaidFor-respond_chat metadata slot execution (error status body) =
      PaidFor-release slot (done (error_answer status (redact_provider_error body)))
        (price execution.cached) (omega arith)

  module _ (deps : PipelineDeps ChatCompletion) (facts : RequestFacts)
      (metadata : PublicChatResponseMetadata) where
    price-le-calls :
        (request : ProxiedRequest) (execution : ChatExecution ChatCompletion)
        → (execute_chat encode deps facts request).1 ≡ ok execution
        → price execution.cached ≤ calls (execute_chat encode deps facts request).0
    price-le-calls request execution answered = elim (Bool-cases execution.cached) [
      | inl cached ↦ rw cached (omega arith)
      | inr live ↦
          rw live (execute_chat-IsCalledFor encode deps facts request execution answered live)
    ]

    IsPaidFor-serve_chat :
        (request : ProxiedRequest) (slot : Slot)
        → IsPaidFor (serve_chat encode decode deps facts metadata request slot)
    unfolding serve_chat
    IsPaidFor-serve_chat request slot =
        let run = execute_chat encode deps facts request in
        let next = λ (execution : ChatExecution ChatCompletion).
          respond_chat encode decode metadata slot execution execution.result in
        let later = (rethrown slot run.1 next).0 in
        let quiet = execute_chat-IsQuiet encode deps facts request in
        PaidFor-le (run.0 ++ later) (calls run.0) (calls (run.0 ++ later))
          (omega (arith, calls-append run.0 later))
          (PaidFor-Quiet run.0 later (calls run.0) quiet (
            PaidFor-rethrown slot run.1 next (calls run.0) λ execution answered.
              PaidFor-le (next execution).0 (price execution.cached) (calls run.0)
                (price-le-calls request execution answered)
                (PaidFor-respond_chat metadata slot execution execution.result)))

    -- A request is charged at most once and leaves at most one entry in the cache, and does neither
    -- unless a provider was called for it: answers from the cache, refusals and errors before the
    -- call cost nothing.
    pub chat_handler-IsPaidFor :
        (concurrency : Option ConcurrencyDecision) (key : Option WriteKey) (body : JsonBody)
        → IsPaidFor (chat_handler encode decode deps concurrency key facts metadata body)
    unfolding chat_handler
    chat_handler-IsPaidFor concurrency key body =
        IsPaidFor-from (checked_chat key body) _ λ request.
          IsPaidFor-acquire concurrency (serve_chat encode decode deps facts metadata request)
            (IsPaidFor-serve_chat request)
