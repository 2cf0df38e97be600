-- ===== src/Server/JsonObject/Accepted.antt =====
-- Which bodies `readJsonObject` accepts.
use omni_model.Prelude.{
  ℕ, ◌+◌, ◌≤◌, Bool, true, false, Option, none, some, List, [], ◌∷◌, ◌≡◌, ◌↔◌, refl, sym, ◌∙◌,
  arith, ltb, length, length-append, Bool-cases, inl, inr, if◌then◌else◌,
}
use omni_model.Prelude.Codes.{concat}
use omni_model.Prelude.Result.{Result, ok, err, >>=-eq-ok, ok-injective}
use omni_model.Errors.{OmniError}
use omni_model.Util.InputTokens.{input_token_body_byte_ceiling, estimate_input_tokens}
use omni_model.Server.InputLimit.{input_token_limit_exceeded, enforce_input_token_limit}
use omni_model.Server.JsonObject.{
  Incoming, Parsed, not_json, other_value, object, append_to, invalid_json, read_chunks,
  read_body_text, declared_within, object_of, read_json_object,
}

-- All the bytes of a body.
abbrev pub bytes_of : Option (List (List ℕ)) → List ℕ
bytes_of none = []
bytes_of (some chunks) = concat chunks

-- The stream did not break off, if there is one.
abbrev pub IsWhole : Option (List (List ℕ)) → Bool → Type 0
IsWhole none broke = Unit {0}
IsWhole (some chunks) broke = broke ≡ false

abbrev pub IsWithin : Option ℕ → ℕ → Type 0
IsWithin none limit = Unit {0}
IsWithin (some declared) limit = declared ≤ limit

-- The request's body is an object whose text is within the limit, and its bytes are within the
-- ceiling.
pub record Accepts {J : Type 0} (parse : List ℕ → Parsed J) (stringify : J → List ℕ)
    (max_input_tokens : ℕ) (incoming : Incoming) (value : J) : Type 0 where
  pub declared : IsWithin incoming.content_length (input_token_body_byte_ceiling max_input_tokens)
  pub whole : IsWhole incoming.body incoming.broke
  pub within : length (bytes_of incoming.body) ≤ input_token_body_byte_ceiling max_input_tokens
  pub parsed : parse (bytes_of incoming.body) ≡ object value
  pub affordable : estimate_input_tokens (stringify value) ≤ max_input_tokens

read_chunks-whole :
    (max_input_tokens size : ℕ) (chunks : List (List ℕ))
    → size ≤ input_token_body_byte_ceiling max_input_tokens
    → read_chunks max_input_tokens size chunks false ≡ (
        if ltb (input_token_body_byte_ceiling max_input_tokens) (size + length (concat chunks))
        then err (input_token_limit_exceeded max_input_tokens)
        else ok (concat chunks))
unfolding read_chunks append_to
read_chunks-whole max_input_tokens size [] h = ground arith
read_chunks-whole max_input_tokens size (chunk ∷ chunks) h = ground (
  arith,
  length-append chunk (concat chunks),
  read_chunks-whole max_input_tokens (size + length chunk) chunks,
)

read_chunks-broken :
    (max_input_tokens size : ℕ) (chunks : List (List ℕ))
    → (thrown : OmniError) × (read_chunks max_input_tokens size chunks true ≡ err thrown)
unfolding read_chunks append_to
read_chunks-broken max_input_tokens size [] = (invalid_json, refl)
read_chunks-broken max_input_tokens size (chunk ∷ chunks) =
    let (thrown, rest) = read_chunks-broken max_input_tokens (size + length chunk) chunks in
    elim (Bool-cases (ltb (input_token_body_byte_ceiling max_input_tokens) (size + length chunk))) [
      | inl over ↦ (input_token_limit_exceeded max_input_tokens, rw over)
      | inr within ↦ (thrown, rw within (rw rest))
    ]

-- What is read of a body.
record ReadsAll (limit : ℕ) (body : Option (List (List ℕ))) (broke : Bool) (bytes : List ℕ)
    : Type 0 where
  whole : IsWhole body broke
  all : bytes ≡ bytes_of body
  within : length (bytes_of body) ≤ limit

read_body : ℕ → Option (List (List ℕ)) → Bool → Result OmniError (List ℕ)
read_body max_input_tokens body broke =
    read_body_text max_input_tokens (record { content_length = none; body = body; broke = broke })

read_body-ReadsAll :
    (max_input_tokens : ℕ) (body : Option (List (List ℕ))) (broke : Bool) (bytes : List ℕ)
    → read_body max_input_tokens body broke ≡ ok bytes
    → ReadsAll (input_token_body_byte_ceiling max_input_tokens) body broke bytes
unfolding read_body read_body_text
read_body-ReadsAll max_input_tokens none broke bytes h = record {
  whole = tt;
  all = ok-injective (sym h);
  within = omega arith;
}
read_body-ReadsAll max_input_tokens (some chunks) true bytes h =
    let (thrown, e) = read_chunks-broken max_input_tokens 0 chunks in cc
read_body-ReadsAll max_input_tokens (some chunks) false bytes h = record {
  whole = refl;
  all = ground (arith, read_chunks-whole max_input_tokens 0 chunks (omega arith));
  within = ground (arith, read_chunks-whole max_input_tokens 0 chunks (omega arith));
}

read_body-whole :
    (max_input_tokens : ℕ) (body : Option (List (List ℕ))) (broke : Bool)
    → IsWhole body broke
    → length (bytes_of body) ≤ input_token_body_byte_ceiling max_input_tokens
    → read_body max_input_tokens body broke ≡ ok (bytes_of body)
unfolding read_body read_body_text
read_body-whole max_input_tokens none broke whole within = refl
read_body-whole max_input_tokens (some chunks) broke whole within =
    rw whole (read_chunks-whole max_input_tokens 0 chunks (omega arith) ∙ ground arith)

declared : ℕ → Option ℕ → Result OmniError (Unit {0})
declared max_input_tokens length =
    declared_within max_input_tokens
      (record { content_length = length; body = none; broke = false })

declared_iff :
    (max_input_tokens : ℕ) (length : Option ℕ)
    → (declared max_input_tokens length ≡ ok tt)
      ↔ IsWithin length (input_token_body_byte_ceiling max_input_tokens)
unfolding declared declared_within
declared_iff max_input_tokens none = (λ h. tt, λ h. refl)
declared_iff max_input_tokens (some n) = (λ h. ground arith, λ h. ground arith)

object_of-eq-ok :
    {J : Type 0} (parse : List ℕ → Parsed J) (stringify : J → List ℕ) (parsed : Parsed J)
    (value : J)
    → object_of parse stringify parsed ≡ ok value
    → parsed ≡ object value
unfolding object_of
object_of-eq-ok parse stringify not_json value h = cc
object_of-eq-ok parse stringify other_value value h = cc
object_of-eq-ok parse stringify (object v) value h = cc

enforce_iff :
    (text : List ℕ) (max_input_tokens : ℕ) (c : List ℕ)
    → enforce_input_token_limit text max_input_tokens ≡ ok c
    → estimate_input_tokens text ≤ max_input_tokens
unfolding enforce_input_token_limit
enforce_iff text max_input_tokens c h = ground arith

enforce_ok :
    (text : List ℕ) (max_input_tokens : ℕ)
    → estimate_input_tokens text ≤ max_input_tokens
    → enforce_input_token_limit text max_input_tokens ≡ ok text
unfolding enforce_input_token_limit
enforce_ok text max_input_tokens h = ground arith

module _ {J : Type 0} (parse : List ℕ → Parsed J) (stringify : J → List ℕ) (max_input_tokens : ℕ)
    (incoming : Incoming) (value : J) where
  accepted :
      (v : J) (bytes c : List ℕ)
      → declared_within max_input_tokens incoming ≡ ok tt
      → read_body_text max_input_tokens incoming ≡ ok bytes
      → object_of parse stringify (parse bytes) ≡ ok v
      → enforce_input_token_limit (stringify v) max_input_tokens ≡ ok c
      → v ≡ value
      → Accepts parse stringify max_input_tokens incoming value
  unfolding declared declared_within read_body read_body_text
  accepted v bytes c first second third fourth same =
      let read = read_body-ReadsAll max_input_tokens incoming.body incoming.broke bytes second in
      record {
        declared = (declared_iff max_input_tokens incoming.content_length).0 first;
        whole = read.whole;
        within = read.within;
        parsed = cc (read.all, object_of-eq-ok parse stringify (parse bytes) v third, same);
        affordable = rw same at (enforce_iff (stringify v) max_input_tokens c fourth);
      }

  -- A body is read as a value exactly if its declared length, where there is one, and its bytes are
  -- within the ceiling, it arrived whole, all its bytes parse to that object, and the estimate of
  -- the object's text is within the limit.
  pub read_json_object_iff :
      (read_json_object parse stringify max_input_tokens incoming ≡ ok value)
      ↔ Accepts parse stringify max_input_tokens incoming value
  unfolding read_json_object declared declared_within read_body read_body_text object_of
  read_json_object_iff = (
    λ h.
        let (checked, first, h1) = >>=-eq-ok (declared_within max_input_tokens incoming) _ h in
        let (bytes, second, h2) = >>=-eq-ok (read_body_text max_input_tokens incoming) _ h1 in
        let (v, third, h3) = >>=-eq-ok (object_of parse stringify (parse bytes)) _ h2 in
        let (c, fourth, h4) =
          >>=-eq-ok (enforce_input_token_limit (stringify v) max_input_tokens) _ h3 in
        accepted v bytes c first second third fourth (ok-injective h4),
    λ a. rw ((declared_iff max_input_tokens incoming.content_length).1 a.declared) (
        rw (read_body-whole max_input_tokens incoming.body incoming.broke a.whole a.within)
          (rw a.parsed (rw (enforce_ok (stringify value) max_input_tokens a.affordable)))),
  )
