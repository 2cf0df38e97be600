-- ===== src/Server/Pipeline/Calls.antt =====
-- Which providers a request calls.
use omni_model.Prelude.{
  ℕ, suc, ◌+◌, ◌≤◌, String, false, Option, none, some, List, [], ◌∷◌, ◌++◌, ◌≡◌, arith,
}
use omni_model.Prelude.Result.{ok, err}
use omni_model.Facts.{RequestFacts}
use omni_model.Server.Effects.{
  CachedEntry, Act, acquired, released, charged, stored, called, reported_limit, reported_route,
  reported_cached, Run, ◌>>=◌,
}
use omni_model.Server.Pipeline.{
  PipelineDeps, ProxiedRequest, ChatExecution, Route, call_chat, chat_with_fallback, execution_of,
  answer_chat, enforce_rate_limit, route, look_up, execute_chat,
}

abbrev pub calls : {C : Type 0} → List (Act C) → ℕ
calls [] = 0
calls (called id model ∷ acts) = suc (calls acts)
calls (_ ∷ acts) = calls acts

module _ {C : Type 0} where
  pub calls-append : (acts later : List (Act C)) → calls (acts ++ later) ≡ calls acts + calls later
  calls-append [] later = omega arith
  calls-append (called id model ∷ acts) later = omega (arith, calls-append acts later)
  calls-append (reported_limit rule ∷ acts) later = calls-append acts later
  calls-append (reported_route id model name ∷ acts) later = calls-append acts later
  calls-append (reported_cached ∷ acts) later = calls-append acts later
  calls-append (acquired ∷ acts) later = calls-append acts later
  calls-append (released ∷ acts) later = calls-append acts later
  calls-append (charged usage ∷ acts) later = calls-append acts later
  calls-append (stored key entry ∷ acts) later = calls-append acts later

  bind_called :
      {A B : Type 0} (first : Run C A) (next : A → Run C B)
      → 1 ≤ calls first.0
      → 1 ≤ calls (first >>= next).0
  bind_called (acts, ok a) next h = omega (arith, calls-append acts (next a).0)
  bind_called (acts, err thrown) next h = h

  -- An answer that does not come from the cache was called for.
  abbrev pub IsCalledFor : Run C (ChatExecution C) → Type 0
  IsCalledFor run =
      (execution : ChatExecution C)
      → run.1 ≡ ok execution
      → execution.cached ≡ false
      → 1 ≤ calls run.0

  bind-IsCalledFor :
      {A : Type 0} (first : Run C A) (next : A → Run C (ChatExecution C))
      → ((a : A) → IsCalledFor (next a))
      → IsCalledFor (first >>= next)
  bind-IsCalledFor (acts, ok a) next h execution answered live =
      let later = h a execution answered live in omega (arith, calls-append acts (next a).0)
  bind-IsCalledFor (acts, err thrown) next h execution answered live = cc

  chat_with_fallback_called :
      (decision : Route C) (request : ProxiedRequest)
      → 1 ≤ calls (chat_with_fallback decision request).0
  unfolding chat_with_fallback call_chat
  chat_with_fallback_called decision request = omega arith

  answer_chat-IsCalledFor :
      (encode : String → List ℕ) (decision : Route C) (request : ProxiedRequest)
      (lookup : Option (String × Option (CachedEntry C)))
      → IsCalledFor (answer_chat encode decision request lookup)
  unfolding answer_chat
  answer_chat-IsCalledFor encode decision request (some (key, some hit)) execution answered live =
      ground arith
  answer_chat-IsCalledFor encode decision request (some (key, none)) execution answered live =
      bind_called (chat_with_fallback decision request) (execution_of (some key))
        (chat_with_fallback_called decision request)
  answer_chat-IsCalledFor encode decision request none execution answered live =
      bind_called (chat_with_fallback decision request) (execution_of none)
        (chat_with_fallback_called decision request)

  pub execute_chat-IsCalledFor :
      (encode : String → List ℕ) (deps : PipelineDeps C) (facts : RequestFacts)
      (request : ProxiedRequest)
      → IsCalledFor (execute_chat encode deps facts request)
  unfolding execute_chat
  execute_chat-IsCalledFor encode deps facts request =
      bind-IsCalledFor (enforce_rate_limit deps facts) _ λ checked.
        bind-IsCalledFor (route deps facts) _ λ decision.
          answer_chat-IsCalledFor encode decision request
            (look_up deps decision request "chat" request.stream)
