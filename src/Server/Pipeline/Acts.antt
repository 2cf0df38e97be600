-- ===== src/Server/Pipeline/Acts.antt =====
-- What the pipeline itself does: it reports and calls, and leaves slots, budgets and the cache's
-- contents to the handlers.
use omni_model.Prelude.{ℕ, String, Option, none, some, List, [], ◌∷◌, ◌++◌, All}
use omni_model.Prelude.Result.{Result, ok, err}
use omni_model.Facts.{RequestFacts}
use omni_model.RateLimit.Limiter.{RateLimitDecision, allowed, rejected}
use omni_model.Errors.{OmniError}
use omni_model.Server.Effects.{
  Thrown, CachedEntry, Act, acquired, released, charged, stored, called, reported_limit,
  reported_route, reported_cached, Run, ◌>>=◌, attempt,
}
use omni_model.Server.Pipeline.{
  PipelineDeps, ProxiedRequest, ChatResult, completion, stream, error, Answer, Route, call_chat,
  chat_with_fallback, fallback_decision, after_first, after_result, after_throw, enforce_rate_limit,
  unless_rejected, route, route_found, answer_chat, execute_chat, look_up, execution_of,
  report_used,
}

-- A report or a call.
abbrev pub Quiet : {C : Type 0} → Act C → Type 0
Quiet (reported_limit rule) = Unit
Quiet (reported_route id model name) = Unit
Quiet reported_cached = Unit
Quiet (called id model) = Unit
Quiet acquired = ⊥
Quiet released = ⊥
Quiet (charged usage) = ⊥
Quiet (stored key entry) = ⊥

abbrev pub IsQuiet : {C A : Type 0} → Run C A → Type 0
IsQuiet run = All Quiet run.0

unless_rejected-IsQuiet :
    (C : Type 0) (decision : RateLimitDecision) → IsQuiet (unless_rejected {C = C} decision)
unfolding unless_rejected
unless_rejected-IsQuiet C allowed = tt
unless_rejected-IsQuiet C (rejected rule limit retry_after_seconds) = (tt, tt)

module _ {C : Type 0} where
  Quiet-append :
      (acts later : List (Act C)) → All Quiet acts → All Quiet later → All Quiet (acts ++ later)
  Quiet-append [] later h k = k
  Quiet-append (a ∷ acts) later (h, hs) k = (h, Quiet-append acts later hs k)

  pub bind-IsQuiet :
      {A B : Type 0} (first : Run C A) (next : A → Run C B)
      → IsQuiet first
      → ((a : A) → IsQuiet (next a))
      → IsQuiet (first >>= next)
  bind-IsQuiet (acts, ok a) next h k = Quiet-append acts (next a).0 h (k a)
  bind-IsQuiet (acts, err thrown) next h k = h

  call_chat-IsQuiet :
      (decision : Route C) (request : ProxiedRequest) → IsQuiet (call_chat decision request)
  unfolding call_chat
  call_chat-IsQuiet decision request = (tt, tt)

  after_result-IsQuiet :
      (result : ChatResult C) (fallback : Option (Route C)) (request : ProxiedRequest)
      → IsQuiet (after_result result fallback request)
  unfolding after_result call_chat
  after_result-IsQuiet (error status body) (some fallback) request = (tt, tt)
  after_result-IsQuiet (error status body) none request = tt
  after_result-IsQuiet (completion answer) fallback request = tt
  after_result-IsQuiet (stream sse) fallback request = tt

  after_throw-IsQuiet :
      (thrown : Thrown) (fallback : Option (Route C)) (request : ProxiedRequest)
      → IsQuiet (after_throw thrown fallback request)
  unfolding after_throw
  after_throw-IsQuiet thrown none request = tt
  after_throw-IsQuiet thrown (some fallback) request =
      bind-IsQuiet (call_chat fallback request) _ (call_chat-IsQuiet fallback request)
        (λ second. tt)

  after_first-IsQuiet :
      (first : Result Thrown (ChatResult C)) (fallback : Option (Route C))
      (request : ProxiedRequest)
      → IsQuiet (after_first first fallback request)
  unfolding after_first
  after_first-IsQuiet (ok result) fallback request = after_result-IsQuiet result fallback request
  after_first-IsQuiet (err thrown) fallback request = after_throw-IsQuiet thrown fallback request

  chat_with_fallback-IsQuiet :
      (decision : Route C) (request : ProxiedRequest)
      → IsQuiet (chat_with_fallback decision request)
  unfolding chat_with_fallback
  chat_with_fallback-IsQuiet decision request =
      let fallback = fallback_decision decision in
      bind-IsQuiet {B = Answer C} (attempt (call_chat decision request))
        (λ first. after_first first fallback request) (call_chat-IsQuiet decision request)
        (λ first. after_first-IsQuiet first fallback request)

  execution_of-IsQuiet :
      (key : Option String) (answer : Answer C) → IsQuiet (execution_of key answer)
  unfolding execution_of report_used
  execution_of-IsQuiet key (result, none) = tt
  execution_of-IsQuiet key (result, some used) = (tt, tt)

  answer_chat-IsQuiet :
      (encode : String → List ℕ) (decision : Route C) (request : ProxiedRequest)
      (lookup : Option (String × Option (CachedEntry C)))
      → IsQuiet (answer_chat encode decision request lookup)
  unfolding answer_chat
  answer_chat-IsQuiet encode decision request (some (key, some hit)) = (tt, tt)
  answer_chat-IsQuiet encode decision request (some (key, none)) =
      bind-IsQuiet (chat_with_fallback decision request) _
        (chat_with_fallback-IsQuiet decision request) (execution_of-IsQuiet (some key))
  answer_chat-IsQuiet encode decision request none =
      bind-IsQuiet (chat_with_fallback decision request) _
        (chat_with_fallback-IsQuiet decision request) (execution_of-IsQuiet none)

  pub enforce_rate_limit-IsQuiet :
      (deps : PipelineDeps C) (facts : RequestFacts) → IsQuiet (enforce_rate_limit deps facts)
  unfolding enforce_rate_limit
  enforce_rate_limit-IsQuiet deps facts = unless_rejected-IsQuiet C (deps.check facts)

  route_found-IsQuiet : (found : Result OmniError (Route C)) → IsQuiet (route_found found)
  unfolding route_found
  route_found-IsQuiet (ok decision) = (tt, tt)
  route_found-IsQuiet (err thrown) = tt

  pub route-IsQuiet : (deps : PipelineDeps C) (facts : RequestFacts) → IsQuiet (route deps facts)
  unfolding route
  route-IsQuiet deps facts = route_found-IsQuiet (deps.resolve facts)

  pub execute_chat-IsQuiet :
      (encode : String → List ℕ) (deps : PipelineDeps C) (facts : RequestFacts)
      (request : ProxiedRequest)
      → IsQuiet (execute_chat encode deps facts request)
  unfolding execute_chat
  execute_chat-IsQuiet encode deps facts request =
      bind-IsQuiet (enforce_rate_limit deps facts) _ (enforce_rate_limit-IsQuiet deps facts)
        λ checked. bind-IsQuiet (route deps facts) _ (route-IsQuiet deps facts) λ decision.
          answer_chat-IsQuiet encode decision request
            (look_up deps decision request "chat" request.stream)
