-- ===== src/Server/Pipeline/Attribution.antt =====
-- Who answered: what the observer hears last is the provider whose answer the client gets.
use omni_model.Prelude.{
  ℕ, String, false, Option, none, some, List, [], ◌∷◌, ◌≡◌, refl, arith, ◌⊎◌, inl, inr, or_option,
  ap, ◌∙◌,
}
use omni_model.Prelude.Result.{Result, ok, err, ok-injective}
use omni_model.Facts.{RequestFacts}
use omni_model.Errors.{OmniError}
use omni_model.RateLimit.Limiter.{RateLimitDecision, allowed, rejected}
use omni_model.Server.Response.{ErrorBody}
use omni_model.Server.Effects.{Thrown, CachedEntry, Act, called, reported_route, Run, ◌>>=◌, ◌>>◌}
use omni_model.Server.Pipeline.{
  PipelineDeps, ProxiedRequest, ChatResult, completion, stream, error, ChatExecution, Answer, Route,
  call_chat, chat_with_fallback, after_first, after_result, after_throw, fallback_decision,
  kept_or_fallen, execution_of, report_used, answer_chat, enforce_rate_limit, route, route_found,
  look_up, execute_chat, unless_rejected,
}

-- The last report of a route: the provider's id, the model and the rule.
abbrev pub last_route : {C : Type 0} → List (Act C) → Option (String × String × String)
last_route [] = none
last_route (reported_route id model name ∷ acts) =
    or_option (last_route acts) (some (id, model, name))
last_route (_ ∷ acts) = last_route acts

-- The route as it is reported.
abbrev pub reported : {C : Type 0} → Route C → String × String × String
reported used = (used.provider_id, used.model, used.route_name)

abbrev pub chat_of : {C : Type 0} → Route C → ProxiedRequest → Result Thrown (ChatResult C)
chat_of used request = used.provider.chat (record request { model = used.model })

-- The result is that of the decision's provider, and nothing else is reported; or it is that of the
-- fallback, which is reported last.
data Attributed {C : Type 0} (decision : Route C) (request : ProxiedRequest) (result : ChatResult C)
    (acts : List (Act C)) : Type 0 where
  primary :
      chat_of decision request ≡ ok result
      → last_route acts ≡ none
      → Attributed decision request result acts
  fallen :
      (used : Route C)
      → fallback_decision decision ≡ some used
      → chat_of used request ≡ ok result
      → last_route acts ≡ some (reported used)
      → Attributed decision request result acts

module _ {C : Type 0} where
  same_result :
      {r execution : ChatExecution C}
      → ◌≡◌ {A = Result Thrown (ChatExecution C)} (ok r) (ok execution)
      → ◌≡◌ {A = Result Thrown (ChatResult C)} (ok r.result) (ok execution.result)
  same_result same = ap (λ (e : ChatExecution C). ok e.result) (ok-injective same)

  module _ (decision : Route C) (request : ProxiedRequest) (key : Option String)
      (execution : ChatExecution C) where
    Answered : Run C (Answer C) → Type 0
    Answered run =
        (run >>= execution_of key).1 ≡ ok execution
        → Attributed decision request execution.result (run >>= execution_of key).0

    Attributed-called :
        (id model : String) (run : Run C (Answer C))
        → Answered run
        → Answered (called id model ∷ run.0, run.1)
    unfolding Answered
    Attributed-called id model (acts, ok answer) h same = elim (h same) [
      | primary first quiet ↦ primary first quiet
      | fallen used second third last ↦ fallen used second third last
    ]
    Attributed-called id model (acts, err thrown) h same = cc

    -- The fallback was tried for an error of the primary.
    kept_or_fallen-Attributed :
        (status : ℕ) (body : ErrorBody) (used : Route C) (tried : Result Thrown (ChatResult C))
        → chat_of decision request ≡ ok (error status body)
        → fallback_decision decision ≡ some used
        → chat_of used request ≡ tried
        → let next = execution_of key (kept_or_fallen (error status body) used tried) in
          next.1 ≡ ok execution
          → Attributed decision request execution.result
              (called used.provider.id used.model ∷ next.0)
    unfolding execution_of report_used kept_or_fallen
    kept_or_fallen-Attributed status body used (ok result) first second third same =
        fallen used second (third ∙ same_result same) refl
    kept_or_fallen-Attributed status body used (err thrown) first second third same =
        primary (first ∙ same_result same) refl

    -- The fallback was tried for a primary that threw.
    second-Attributed :
        (used : Route C) (tried : Result Thrown (ChatResult C))
        → fallback_decision decision ≡ some used
        → chat_of used request ≡ tried
        → let first : Run C (ChatResult C) = (called used.provider.id used.model ∷ [], tried) in
          Answered (first >>= λ result. ([], ok (result, some used)))
    unfolding Answered execution_of report_used
    second-Attributed used (ok result) second third same =
        fallen used second (third ∙ same_result same) refl
    second-Attributed used (err thrown) second third same = cc

    after_result-Attributed :
        (result : ChatResult C) (fallback : Option (Route C))
        → chat_of decision request ≡ ok result
        → fallback_decision decision ≡ fallback
        → Answered (after_result result fallback request)
    unfolding Answered after_result execution_of report_used call_chat kept_or_fallen
    after_result-Attributed (completion answer) fallback first second same =
        primary (first ∙ same_result same) refl
    after_result-Attributed (stream sse) fallback first second same =
        primary (first ∙ same_result same) refl
    after_result-Attributed (error status body) none first second same =
        primary (first ∙ same_result same) refl
    after_result-Attributed (error status body) (some used) first second same =
        kept_or_fallen-Attributed status body used (chat_of used request) first second refl same

    after_first-Attributed :
        (tried : Result Thrown (ChatResult C)) (fallback : Option (Route C))
        → chat_of decision request ≡ tried
        → fallback_decision decision ≡ fallback
        → Answered (after_first tried fallback request)
    unfolding Answered after_first after_throw call_chat
    after_first-Attributed (ok result) fallback first second same =
        after_result-Attributed result fallback first second same
    after_first-Attributed (err thrown) none first second same = cc
    after_first-Attributed (err thrown) (some used) first second same =
        second-Attributed used (chat_of used request) second refl same

    chat_with_fallback-Attributed : Answered (chat_with_fallback decision request)
    unfolding Answered chat_with_fallback call_chat
    chat_with_fallback-Attributed same =
        let fallback = fallback_decision decision in
        let tried = chat_of decision request in
        Attributed-called decision.provider.id decision.model (after_first tried fallback request)
          (after_first-Attributed tried fallback refl refl) same

  answer_chat-Attributed :
      (encode : String → List ℕ) (decision : Route C) (request : ProxiedRequest)
      (lookup : Option (String × Option (CachedEntry C))) (execution : ChatExecution C)
      → (answer_chat encode decision request lookup).1 ≡ ok execution
      → execution.cached ≡ false
      → Attributed decision request execution.result (answer_chat encode decision request lookup).0
  unfolding answer_chat Answered
  answer_chat-Attributed encode decision request (some (key, some hit)) execution same live =
      absurd (ground arith)
  answer_chat-Attributed encode decision request (some (key, none)) execution same live =
      chat_with_fallback-Attributed decision request (some key) execution same
  answer_chat-Attributed encode decision request none execution same live =
      chat_with_fallback-Attributed decision request none execution same

  -- The provider that answered, among the decision's two, is the one that was reported last.
  abbrev pub IsAttributed :
      PipelineDeps C → RequestFacts → ProxiedRequest → ChatResult C → List (Act C) → Type 0
  IsAttributed deps facts request result acts =
      (decision : Route C) × (used : Route C) × (deps.resolve facts ≡ ok decision)
      × ((used ≡ decision) ⊎ (fallback_decision decision ≡ some used))
      × (chat_of used request ≡ ok result)
      × (last_route acts ≡ some (reported used))

  Attributed-route :
      (deps : PipelineDeps C) (facts : RequestFacts) (request : ProxiedRequest) (decision : Route C)
      (result : ChatResult C) (acts : List (Act C))
      → deps.resolve facts ≡ ok decision
      → Attributed decision request result acts
      → IsAttributed deps facts request result
          (reported_route decision.provider_id decision.model decision.route_name ∷ acts)
  Attributed-route deps facts request decision result acts found (primary first quiet) =
      (decision, decision, found, inl refl, first, rw quiet)
  Attributed-route deps facts request decision result acts found (fallen used second third last) =
      (decision, used, found, inr second, third, rw last)

  module _ (encode : String → List ℕ) (deps : PipelineDeps C) (facts : RequestFacts)
      (request : ProxiedRequest) (execution : ChatExecution C)
      (live : execution.cached ≡ false) where
    answer : Route C → Run C (ChatExecution C)
    answer decision =
        answer_chat encode decision request (look_up deps decision request "chat" request.stream)

    route-IsAttributed :
        (found : Result OmniError (Route C))
        → deps.resolve facts ≡ found
        → (route_found found >>= answer).1 ≡ ok execution
        → IsAttributed deps facts request execution.result (route_found found >>= answer).0
    unfolding route_found answer
    route-IsAttributed (ok decision) found same =
        Attributed-route deps facts request decision execution.result (answer decision).0 found (
          answer_chat-Attributed encode decision request
            (look_up deps decision request "chat" request.stream) execution same live)
    route-IsAttributed (err thrown) found same = cc

    check-IsAttributed :
        (limit : RateLimitDecision)
        → (unless_rejected limit >> (route deps facts >>= answer)).1 ≡ ok execution
        → IsAttributed deps facts request execution.result
            (unless_rejected limit >> (route deps facts >>= answer)).0
    unfolding unless_rejected route
    check-IsAttributed allowed same = route-IsAttributed (deps.resolve facts) refl same
    check-IsAttributed (rejected rule limit retry_after_seconds) same = cc

  -- An answer that does not come from the cache is that of the provider which the router chose, or of
  -- its fallback, and the last route that the observer hears names that provider.
  pub execute_chat-IsAttributed :
      (encode : String → List ℕ) (deps : PipelineDeps C) (facts : RequestFacts)
      (request : ProxiedRequest) (execution : ChatExecution C)
      → (execute_chat encode deps facts request).1 ≡ ok execution
      → execution.cached ≡ false
      → IsAttributed deps facts request execution.result (execute_chat encode deps facts request).0
  unfolding execute_chat enforce_rate_limit answer
  execute_chat-IsAttributed encode deps facts request execution same live =
      check-IsAttributed encode deps facts request execution live (deps.check facts) same
