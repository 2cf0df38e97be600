-- ===== src/Server/Embeddings/Acts.antt =====
-- What `executeEmbeddings` itself does: it reports and calls.
use omni_model.Prelude.{String, Option, none, some, false, inl, inr, Option-cases}
use omni_model.Prelude.Result.{Result, ok, err}
use omni_model.Facts.{RequestFacts}
use omni_model.Server.Effects.{Thrown, Run, attempt}
use omni_model.Server.Pipeline.{
  PipelineDeps, ProxiedRequest, EmbeddingsResult, embedded, embeddings_error, Route,
  enforce_rate_limit, route, look_up, fallback_decision,
}
use omni_model.Server.Pipeline.Acts.{
  IsQuiet, bind-IsQuiet, enforce_rate_limit-IsQuiet, route-IsQuiet,
}
use omni_model.Server.Embeddings.{
  Embed, call_embed, report, fall_back, after_primary, with_primary, embed_with_fallback,
  answer_embeddings, execute_embeddings, hit_of, key_of,
}

module _ {C : Type 0} where
  call_embed-IsQuiet :
      (embed : Embed C) (used : Route C) (request : ProxiedRequest)
      → IsQuiet (call_embed embed used request)
  unfolding call_embed
  call_embed-IsQuiet embed used request = (tt, tt)

  fall_back-IsQuiet :
      (fallback : Option (Route C)) (request : ProxiedRequest)
      (otherwise : Run C (EmbeddingsResult C))
      → IsQuiet otherwise
      → IsQuiet (fall_back fallback request otherwise)
  unfolding fall_back report call_embed
  fall_back-IsQuiet none request otherwise h = h
  fall_back-IsQuiet (some fallback) request otherwise h =
      elim (Option-cases fallback.provider.embeddings) [
        | inl missing ↦ rw missing h
        | inr (embed, found) ↦ rw found (tt, (tt, tt))
      ]

  after_primary-IsQuiet :
      (fallback : Option (Route C)) (request : ProxiedRequest)
      (first : Result Thrown (EmbeddingsResult C))
      → IsQuiet (after_primary fallback request first)
  unfolding after_primary
  after_primary-IsQuiet fallback request (err thrown) = fall_back-IsQuiet fallback request _ tt
  after_primary-IsQuiet fallback request (ok (embeddings_error status body)) =
      fall_back-IsQuiet fallback request _ tt
  after_primary-IsQuiet fallback request (ok (embedded answer)) = tt

  with_primary-IsQuiet :
      (embed : Embed C) (decision : Route C) (fallback : Option (Route C))
      (request : ProxiedRequest)
      → IsQuiet (with_primary embed decision fallback request)
  unfolding with_primary
  with_primary-IsQuiet embed decision fallback request =
      bind-IsQuiet {B = EmbeddingsResult C} (attempt (call_embed embed decision request))
        (after_primary fallback request) (call_embed-IsQuiet embed decision request)
        (after_primary-IsQuiet fallback request)

  embed_with_fallback-IsQuiet :
      (decision : Route C) (fallback : Option (Route C)) (request : ProxiedRequest)
      → IsQuiet (embed_with_fallback decision fallback request)
  unfolding embed_with_fallback
  embed_with_fallback-IsQuiet decision fallback request =
      elim (Option-cases decision.provider.embeddings) [
        | inl missing ↦ rw (missing, embed_with_fallback) (fall_back-IsQuiet fallback request _ tt)
        | inr (embed, found) ↦
            rw (found, embed_with_fallback) (with_primary-IsQuiet embed decision fallback request)
      ]

  answer_embeddings-IsQuiet :
      (decision : Route C) (request : ProxiedRequest) (key : Option String) (hit : Option C)
      → IsQuiet (answer_embeddings decision request key hit)
  unfolding answer_embeddings
  answer_embeddings-IsQuiet decision request key (some answer) = (tt, tt)
  answer_embeddings-IsQuiet decision request key none =
      bind-IsQuiet (embed_with_fallback decision (fallback_decision decision) request) _
        (embed_with_fallback-IsQuiet decision (fallback_decision decision) request) (λ result. tt)

  pub execute_embeddings-IsQuiet :
      (deps : PipelineDeps C) (facts : RequestFacts) (request : ProxiedRequest)
      → IsQuiet (execute_embeddings deps facts request)
  unfolding execute_embeddings
  execute_embeddings-IsQuiet deps facts request =
      bind-IsQuiet (enforce_rate_limit deps facts) _ (enforce_rate_limit-IsQuiet deps facts)
        λ checked. bind-IsQuiet (route deps facts) _ (route-IsQuiet deps facts) λ decision.
          let lookup = look_up deps decision request "embeddings" false in
          answer_embeddings-IsQuiet decision request (key_of lookup) (hit_of lookup)
