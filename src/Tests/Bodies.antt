-- ===== src/Tests/Bodies.antt =====
-- Bodies of a few characters, and the facts of a request.
use omni_model.Prelude.{
  ◌↔◌, String, if◌then◌else◌, ◌==◌, none, some, false, eqb, ℕ, List, [], ◌∷◌, ◌≡◌, refl, arith,
}
use omni_model.Prelude.Result.{ok}
use omni_model.Util.InputTokens.{input_token_body_byte_ceiling, estimate_input_tokens}
use omni_model.Server.InputLimit.{enforce_input_token_limit}
use omni_model.Prelude.Codes.{codes}
use omni_model.Prelude.Dict.{get, set}
use omni_model.Server.JsonObject.{
  Incoming, Parsed, not_json, other_value, object, read_json_object, declared_within,
  read_body_text,
}
use omni_model.Server.JsonObject.Accepted.{Accepts, read_json_object_iff}
use omni_model.Server.Facts.{RequestFactsInput, build_request_facts}
use omni_model.Server.Facts.Redacted.{redacted, last_value, get-build_request_facts}

-- `"né"`
abbrev quoted : List ℕ
quoted = 34 ∷ 110 ∷ 233 ∷ 34 ∷ []

quoted_estimate : estimate_input_tokens quoted ≡ 2
unfolding estimate_input_tokens
quoted_estimate = refl

-- An object is known by its text; a text that opens with a brace is one.
abbrev parse : List ℕ → Parsed (List ℕ)
parse [] = not_json
parse (c ∷ s) = if eqb c 123 then object (c ∷ s) else other_value

abbrev in_two_chunks : Incoming
in_two_chunks = record {
  content_length = some 7;
  body = some (codes "{\"a\"" ∷ codes ":1}" ∷ []);
  broke = false;
}

in_two_chunks-Accepts : Accepts parse (λ text. text) 2 in_two_chunks (codes "{\"a\":1}")
unfolding input_token_body_byte_ceiling estimate_input_tokens
in_two_chunks-Accepts = record {
  declared = omega arith;
  whole = refl;
  within = omega arith;
  parsed = refl;
  affordable = omega arith;
}

read_json_object_iff_example :
    (read_json_object parse (λ text. text) 2 in_two_chunks ≡ ok (codes "{\"a\":1}"))
    ↔ Accepts parse (λ text. text) 2 in_two_chunks (codes "{\"a\":1}")
read_json_object_iff_example =
    read_json_object_iff parse (λ text. text) 2 in_two_chunks (codes "{\"a\":1}")

read_in_two_chunks : read_json_object parse (λ text. text) 2 in_two_chunks ≡ ok (codes "{\"a\":1}")
unfolding read_json_object declared_within read_body_text enforce_input_token_limit
    input_token_body_byte_ceiling
read_in_two_chunks = refl

abbrev incoming_headers : RequestFactsInput String
incoming_headers = record {
  method = "POST";
  path = "/v1/embeddings";
  headers =
      ("authorization", "Bearer abc")
      ∷ ("X-Session-Token", "t")
      ∷ ("x-plan", "free")
      ∷ ("x-plan", "paid")
      ∷ [];
  ip = none;
  body = none;
  identity = none;
  write_key = none;
  input_token_count = none;
}

-- The platform's lower case, on the one name here that needs it.
abbrev lower : String → String
lower name = if name == "X-Session-Token" then "x-session-token" else name

get-build_request_facts_example :
    get "x-session-token" (build_request_facts lower (λ claims. "{}") incoming_headers).http_headers
    ≡ redacted lower "x-session-token"
        (last_value lower "x-session-token" incoming_headers.headers none)
get-build_request_facts_example =
    get-build_request_facts lower (λ claims. "{}") incoming_headers "x-session-token"

seen_headers :
    (build_request_facts lower (λ claims. "{}") incoming_headers).http_headers
    ≡ ("authorization", "<redacted>") ∷ ("x-session-token", "<redacted>") ∷ ("x-plan", "paid") ∷ []
unfolding build_request_facts set
seen_headers = refl
