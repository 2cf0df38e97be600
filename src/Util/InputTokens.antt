-- ===== src/Util/InputTokens.antt =====
-- packages/core/src/util/input-tokens.ts: the estimate of a request's input tokens, on the code points
-- of the JSON text.
use omni_model.Prelude.{ℕ, suc, ◌+◌, ◌*◌, ◌/◌, ◌≤◌, ◌<◌, List, [], ◌∷◌, leb, if◌then◌else◌, arith}

-- The ASCII characters and the other code points of a text.
unfoldable pub count_characters : List ℕ → ℕ × ℕ
count_characters [] = (0, 0)
count_characters (c ∷ text) =
    let (ascii, others) = count_characters text in
    if leb c 0x7f then (suc ascii, others) else (ascii, suc others)

unfoldable pub rounded : ℕ × ℕ → ℕ
rounded (ascii, others) = (ascii + 3) / 4 + others

-- `estimateInputTokens`, of the text that `JSON.stringify` gives
unfoldable pub estimate_input_tokens : List ℕ → ℕ
unfolding count_characters rounded
estimate_input_tokens text = rounded (count_characters text)

-- `Number.MAX_SAFE_INTEGER`
abbrev pub max_safe_integer : ℕ
max_safe_integer = 9007199254740991

unfoldable pub input_token_body_byte_ceiling : ℕ → ℕ
input_token_body_byte_ceiling max_input_tokens =
    if leb max_safe_integer (max_input_tokens * 4) then max_safe_integer else max_input_tokens * 4

-- The bytes of a code point in UTF-8.
unfoldable pub utf8_size : ℕ → ℕ
utf8_size c = if leb c 0x7f then 1 else if leb c 0x7ff then 2 else if leb c 0xffff then 3 else 4

unfoldable pub utf8_bytes : List ℕ → ℕ
unfolding utf8_size
utf8_bytes [] = 0
utf8_bytes (c ∷ text) = utf8_size c + utf8_bytes text

bytes_bound :
    (text : List ℕ) → utf8_bytes text ≤ (count_characters text).0 + (count_characters text).1 * 4
unfolding utf8_bytes count_characters utf8_size
bytes_bound [] = omega arith
bytes_bound (c ∷ text) = let ih = bytes_bound text in ground arith

-- A text whose UTF-8 form is longer than the ceiling of a limit has an estimate above the limit, if
-- four times the limit is a safe integer.
pub over_ceiling :
    (text : List ℕ) (max_input_tokens : ℕ)
    → max_input_tokens * 4 ≤ max_safe_integer
    → input_token_body_byte_ceiling max_input_tokens < utf8_bytes text
    → max_input_tokens < estimate_input_tokens text
unfolding estimate_input_tokens rounded input_token_body_byte_ceiling
over_ceiling text max_input_tokens safe more = let bound = bytes_bound text in ground arith
