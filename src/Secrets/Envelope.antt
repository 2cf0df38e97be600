-- ===== src/Secrets/Envelope.antt =====
-- packages/core/src/secrets/envelope.ts: values sealed under a keyring. The encryption library `jose`
-- and the platform's text encoder and decoder are parameters; a value is the list of its units.
use omni_model.Prelude.{
  ℕ, ◌-◌, ◌≡◌, String, Bool, false, Option, none, some, List, [], ◌∷◌, ◌==◌, leb, length, drop,
  if◌then◌else◌, or_else,
}
use omni_model.Prelude.Text.{◌<>◌}
use omni_model.Prelude.Result.{Result, ok, err}
use omni_model.Secrets.Keyring.{MasterKey, Keyring, find}

-- The parameters of a protected header that are read back, where they are texts.
pub record SealedHeader : Type 0 where
  pub kid : Option String
  pub omni_sid : Option String

-- `jose`, whose sealed texts are of a type `T`: `encrypt` also takes what it draws at random.
pub record Jose (K T : Type 0) : Type 0 where
  pub encrypt : ℕ → K → SealedHeader → List ℕ → T
  pub decode_protected_header : T → Option SealedHeader
  pub decrypt : K → T → Option (List ℕ)
  pub encode : List ℕ → List ℕ
  pub decode : List ℕ → List ℕ

pub data SecretError : Type 0 where
  config_error : String → SecretError
  -- what `jose` throws
  untrusted : SecretError

bound_to : Option String → String → Bool
bound_to none id = false
bound_to (some sid) id = sid == id

joined : List String → String
joined [] = ""
joined (s ∷ []) = s
joined (s ∷ t ∷ ss) = s <> ", " <> joined (t ∷ ss)

-- `secretHint`: an ellipsis and the last four units, of a long value.
unfoldable pub secret_hint : List ℕ → List ℕ
secret_hint value = if leb 8 (length value) then 8230 ∷ drop (length value - 4) value else []

module _ {K T : Type 0} (jose : Jose K T) where
  unfoldable pub sealed_key_id : T → String
  sealed_key_id jwe = elim (jose.decode_protected_header jwe) [
    | none ↦ ""
    | some header ↦ or_else header.kid ""
  ]

  module _ (ring : Keyring K) where
    -- `sealSecret`, with what is drawn at random
    unfoldable pub seal_secret : ℕ → String → List ℕ → T
    seal_secret drawn id plaintext =
        jose.encrypt drawn ring.active.key
          (record { kid = some ring.active.id; omni_sid = some id }) (jose.encode plaintext)

    decrypted : String → SealedHeader → Option (List ℕ) → Result SecretError (List ℕ)
    unfolding bound_to
    decrypted id header none = err untrusted
    decrypted id header (some plaintext) =
        if bound_to header.omni_sid id
        then ok (jose.decode plaintext)
        else err (
            config_error (
              "secret \"" <> id
              <> "\" holds a value sealed for a different secret; refusing to use it"))

    open_with : String → T → SealedHeader → Option (MasterKey K) → Result SecretError (List ℕ)
    unfolding decrypted joined
    open_with id jwe header none = err (
        config_error (
          "secret \""
          <> id
          <> "\" was encrypted with key \""
          <> or_else header.kid ""
          <> "\", which is not in the keyring. Add that key to OMNI_ENCRYPTION_KEY_PREVIOUS "
          <> "(comma-separated) to read it again. Keys currently loaded: "
          <> joined ring.order))
    open_with id jwe header (some master) = decrypted id header (jose.decrypt master.key jwe)

    open_header : String → T → Option SealedHeader → Result SecretError (List ℕ)
    unfolding open_with find
    open_header id jwe none = err untrusted
    open_header id jwe (some header) = open_with id jwe header (find ring (or_else header.kid ""))

    unfoldable pub open_secret : String → T → Result SecretError (List ℕ)
    unfolding open_header
    open_secret id jwe = open_header id jwe (jose.decode_protected_header jwe)

-- What is relied on of `jose`: the header of a sealed text is the one that it was sealed with, and
-- the key that sealed a text opens it.
pub record OpensSealed {K T : Type 0} (jose : Jose K T) : Type 0 where
  pub header :
      (drawn : ℕ) (key : K) (header : SealedHeader) (plaintext : List ℕ)
      → jose.decode_protected_header (jose.encrypt drawn key header plaintext) ≡ some header
  pub plaintext :
      (drawn : ℕ) (key : K) (header : SealedHeader) (plaintext : List ℕ)
      → jose.decrypt key (jose.encrypt drawn key header plaintext) ≡ some plaintext
