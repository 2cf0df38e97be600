-- ===== src/Server/Bodies.antt =====
-- What the handlers of packages/core/src/server/routes check of a JSON body before they serve it.
use omni_model.Prelude.{
  ℕ, String, Bool, true, not, Option, none, some, [], ◌==◌, eqb, if◌then◌else◌, or_else,
}
use omni_model.Prelude.Text.{◌<>◌}
use omni_model.Prelude.Result.{Result, ok, err, ◌>>=◌, ◌>>◌}
use omni_model.Errors.{OmniError, omni_error, bad_request}
use omni_model.WriteKeys.{WriteKey, write_key_allows_model}
use omni_model.Server.Pipeline.{ProxiedRequest}

-- What the handlers check of a JSON body: `model` where it is a string, how many messages an array
-- of that name has, whether there is an `input`, and the request itself.
pub record JsonBody : Type 0 where
  pub model : Option String
  pub messages : Option ℕ
  pub has_input : Bool
  pub stream : Bool
  pub rest : String

bad_param : String → String → OmniError
bad_param message param =
    bad_request message (record { type = none; code = none; param = some param; headers = [] })

is_missing : Option ℕ → Bool
is_missing none = true
is_missing (some n) = eqb n 0

unfoldable pub requested_model : JsonBody → Result OmniError String
unfolding bad_param
requested_model body =
    let model = or_else body.model "" in
    if model == "" then err (bad_param "you must provide a model parameter" "model") else ok model

unfoldable pub model_allowed : Option WriteKey → String → Bool
model_allowed none model = true
model_allowed (some key) model = write_key_allows_model key model

unfoldable pub assert_model_allowed_for_client :
    Option WriteKey → String → Result OmniError (Unit {0})
unfolding model_allowed
assert_model_allowed_for_client key model =
    if model_allowed key model
    then ok tt
    else err (
        omni_error 404
          ("The model `" <> model <> "` does not exist or you do not have access to it.")
          (record {
            type = none;
            code = some "model_not_found";
            param = some "model";
            headers = [];
          }))

request_of : JsonBody → String → ProxiedRequest
request_of body model = record { model = model; stream = body.stream; rest = body.rest }

require : Bool → OmniError → Result OmniError (Unit {0})
require met thrown = if met then ok tt else err thrown

-- What `createChatHandler` refuses before it looks at slots and budgets.
unfoldable pub checked_chat : Option WriteKey → JsonBody → Result OmniError ProxiedRequest
unfolding bad_param is_missing request_of require
checked_chat key body = do
  model ← requested_model body
  require (not (is_missing body.messages))
      (bad_param "'messages' is a required property and must be a non-empty array" "messages")
  assert_model_allowed_for_client key model
  ok (request_of body model)

-- The same of `createEmbeddingsHandler`.
unfoldable pub checked_embeddings : Option WriteKey → JsonBody → Result OmniError ProxiedRequest
unfolding bad_param request_of require
checked_embeddings key body = do
  model ← requested_model body
  require body.has_input (bad_param "'input' is a required property" "input")
  assert_model_allowed_for_client key model
  ok (request_of body model)
