-- ===== src/Server/InputLimit.antt =====
-- The limit on a request's input tokens, of packages/core/src/server/routes/chat.ts.
use omni_model.Prelude.{ℕ, ◌*◌, ◌≤◌, ◌<◌, List, ◌≡◌, none, some, [], ltb, if◌then◌else◌, arith}
use omni_model.Prelude.Text.{◌<>◌, show}
use omni_model.Prelude.Result.{Result, ok, err}
use omni_model.Errors.{OmniError, omni_error}
use omni_model.Util.InputTokens.{
  estimate_input_tokens, input_token_body_byte_ceiling, utf8_bytes, max_safe_integer, over_ceiling,
}

unfoldable pub input_token_limit_exceeded : ℕ → OmniError
unfolding omni_error
input_token_limit_exceeded max_input_tokens =
    omni_error 413
      ("request input exceeds the configured limit of " <> show max_input_tokens <> " tokens")
      (record { type = none; code = some "input_token_limit_exceeded"; param = none; headers = [] })

-- `enforceInputTokenLimit`, of the code points of the JSON text of the body, which the caller keeps
unfoldable pub enforce_input_token_limit : List ℕ → ℕ → Result OmniError (List ℕ)
unfolding estimate_input_tokens input_token_limit_exceeded
enforce_input_token_limit text max_input_tokens =
    if ltb max_input_tokens (estimate_input_tokens text)
    then err (input_token_limit_exceeded max_input_tokens)
    else ok text

-- A JSON text whose UTF-8 form is longer than the ceiling of a limit is refused by the limit, if four
-- times the limit is a safe integer.
pub over_ceiling_refused :
    (text : List ℕ) (max_input_tokens : ℕ)
    → max_input_tokens * 4 ≤ max_safe_integer
    → input_token_body_byte_ceiling max_input_tokens < utf8_bytes text
    → enforce_input_token_limit text max_input_tokens
      ≡ err (input_token_limit_exceeded max_input_tokens)
unfolding enforce_input_token_limit
over_ceiling_refused text max_input_tokens safe more =
    let over = over_ceiling text max_input_tokens safe more in ground arith
