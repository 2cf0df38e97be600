-- ===== src/Server/Facts.antt =====
-- packages/core/src/server/facts.ts: what the expressions may know of a request.
pub mod Redacted
use Prim.Native.Char.{code}
use Prim.Native.String.{[], ◌∷◌}
use omni_model.Prelude.{
  ℕ, String, Bool, true, false, ◌&&◌, ◌||◌, Option, none, some, List, [], ◌∷◌, ◌==◌, any, eqb,
  if◌then◌else◌, or_else, or_option,
}
use omni_model.Prelude.Codes.{codes}
use omni_model.Prelude.Dict.{Dict, get, set}
use omni_model.Facts.{RequestFacts}
use omni_model.Util.Duration.{trim}
use omni_model.Util.InputTokens.{estimate_input_tokens}
use omni_model.Server.Auth.{Identity}
use omni_model.WriteKeys.{WriteKey}

abbrev pub redacted_headers : List String
redacted_headers =
    "authorization" ∷ "cookie" ∷ "set-cookie" ∷ "x-api-key" ∷ "x-firebase-appcheck"
    ∷ "x-apple-device-token" ∷ "x-appattest-assertion" ∷ "x-appattest-keyid"
    ∷ "x-appattest-challenge" ∷ []

abbrev pub redacted_header_patterns : List String
redacted_header_patterns = "token" ∷ "appcheck" ∷ "assertion" ∷ "api-key" ∷ "-key" ∷ []

unfoldable pub begins_with : List ℕ → List ℕ → Bool
begins_with [] s = true
begins_with (c ∷ p) [] = false
begins_with (c ∷ p) (d ∷ s) = eqb c d && begins_with p s

-- `s.includes(p)`
unfoldable pub includes : List ℕ → List ℕ → Bool
unfolding begins_with
includes p [] = begins_with p []
includes p (c ∷ s) = begins_with p (c ∷ s) || includes p s

unfoldable pub is_redacted_header : String → Bool
unfolding includes
is_redacted_header name =
    any (λ header. header == name) redacted_headers
    || any (λ pattern. includes (codes pattern) (codes name)) redacted_header_patterns

-- `s.split(",")[0]`
before_comma : String → String
before_comma [] = ""
before_comma (c ∷ s) = let rest = before_comma s in if eqb (code c) 44 then "" else c ∷ rest

-- A header's value that is not blank, trimmed.
present : Option String → Option String
present none = none
present (some value) = let trimmed = trim value in if trimmed == "" then none else some trimmed

first_hop : Option String → Option String
unfolding before_comma
first_hop none = none
first_hop (some forwarded) = some (before_comma forwarded)

unfoldable pub extract_client_ip : Dict String → Bool → Option String
unfolding present first_hop
extract_client_ip headers false = none
extract_client_ip headers true = or_option (present (get "cf-connecting-ip" headers)) (
    or_option (present (first_hop (get "x-forwarded-for" headers)))
      (present (get "x-real-ip" headers)))

-- What the facts take of a parsed body: the model where it is a string, the texts of the finite
-- numbers, and the code points of its JSON text.
pub record FactsBody : Type 0 where
  pub model : Option String
  pub max_completion_tokens : Option String
  pub max_tokens : Option String
  pub temperature : Option String
  pub text : List ℕ

pub record RequestFactsInput (C : Type 0) : Type 0 where
  pub method : String
  pub path : String
  pub headers : List (String × String)
  pub ip : Option String
  pub body : Option FactsBody
  pub identity : Option (Identity C)
  pub write_key : Option WriteKey
  pub input_token_count : Option ℕ

-- The platform's `toLowerCase`.
module _ (to_lower_case : String → String) where
  redact : String → String → String
  unfolding is_redacted_header
  redact name value = if is_redacted_header name then "<redacted>" else value

  -- The loop over the headers.
  unfoldable pub add_headers : List (String × String) → Dict String → Dict String
  unfolding redact
  add_headers [] headers = headers
  add_headers ((key, value) ∷ rest) headers =
      let name = to_lower_case key in add_headers rest (set name (redact name value) headers)

  providers_of : {C : Type 0} → Option (Identity C) → List String
  providers_of none = []
  providers_of (some identity) = or_else identity.providers (identity.provider ∷ [])

  tokens_of : Option FactsBody → ℕ
  tokens_of none = 0
  tokens_of (some body) = estimate_input_tokens body.text

  no_body : FactsBody
  no_body = record {
    model = none;
    max_completion_tokens = none;
    max_tokens = none;
    temperature = none;
    text = [];
  }

  -- The JSON text of claims is a parameter.
  unfoldable pub build_request_facts :
      {C : Type 0} → (Dict C → String) → RequestFactsInput C → RequestFacts
  unfolding add_headers providers_of tokens_of no_body
  build_request_facts claims_text input =
      let body = or_else input.body no_body in
      record {
        model = or_else body.model "";
        input_token_count = or_else input.input_token_count (tokens_of input.body);
        max_tokens = or_option body.max_completion_tokens body.max_tokens;
        temperature = body.temperature;
        user_id = elim input.identity [ none ↦ none | some identity ↦ identity.user_id ];
        user_claims = elim input.identity [
          | none ↦ "{}"
          | some identity ↦ claims_text identity.claims
        ];
        user_providers = providers_of input.identity;
        client_id = elim input.write_key [ none ↦ none | some key ↦ some key.id ];
        client_name = elim input.write_key [ none ↦ none | some key ↦ some key.name ];
        http_method = input.method;
        http_path = input.path;
        http_ip = input.ip;
        http_headers = add_headers input.headers [];
      }
