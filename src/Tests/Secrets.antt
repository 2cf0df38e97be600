-- ===== src/Tests/Secrets.antt =====
-- Two sealed secrets, one under a key that is being rotated out, and a configuration with a credential.
use omni_model.Prelude.{
  or_else, ℕ, String, Bool, true, false, Option, none, some, List, [], ◌∷◌, ◌≡◌, refl, eqb,
  if◌then◌else◌, arith, ◌==◌, eq_refl,
}
use omni_model.Prelude.Result.{Result, ok}
use omni_model.Prelude.Text.{◌<>◌, show}
use omni_model.Prelude.Dict.{get, set}
use omni_model.Util.Duration.{trim, is_space}
use omni_model.Secrets.Keyring.{MasterKey, Keyring, find}
use omni_model.Secrets.Envelope.{
  Jose, SecretError, OpensSealed, SealedHeader, sealed_key_id, seal_secret, open_secret,
}
use omni_model.Secrets.Store.{
  SecretRow, SecretDescription, Rows, put, reveal, describe, describe_by_name, describe_row, rotate,
  rotate_rows, rotate_row, go_on, list_rows, upsert,
}
use omni_model.Secrets.Store.Kept.{Filed, rotate-reveal}
use omni_model.Secrets.Store.Put.{described_id, put_lem}
use omni_model.Secrets.Store.Current.{rotate-current}
use omni_model.Secrets.Resolver.{Json, text}
use omni_model.Secrets.Credentials.{
  SecretStore, Sealing, is_credential_field, looks_like_env_reference, child_path, seal_credentials,
  walk, reference_to_secret,
}
use omni_model.Secrets.Credentials.Sealed.{NoneIn, seal_credentials-NoneIn}
use omni_model.Secrets.Credentials.Overwritten.{two, entry, moved_reference_overwritten}

-- A sealed text that shows what it was sealed from, and opens with its key alone.
abbrev Sealed : Type 0
Sealed = ℕ × SealedHeader × List ℕ

same_key : ℕ → ℕ → List ℕ → Option (List ℕ)
same_key key other plaintext = if eqb key other then some plaintext else none

abbrev jose : Jose ℕ Sealed
jose = record {
  encrypt = λ drawn key header plaintext. (key, header, plaintext);
  decode_protected_header = λ sealed. some sealed.1;
  decrypt = λ key sealed. same_key key sealed.0 sealed.2;
  encode = λ text. text;
  decode = λ bytes. bytes;
}

jose_opens : OpensSealed jose
unfolding same_key
jose_opens = record {
  header = λ drawn key header plaintext. refl;
  plaintext = λ drawn key header plaintext. ground arith;
}

abbrev new_key : MasterKey ℕ
new_key = record { id = "k2"; key = 2 }

abbrev old_key : MasterKey ℕ
old_key = record { id = "k1"; key = 1 }

abbrev ring : Keyring ℕ
ring = record {
  active = new_key;
  by_id = ("k2", new_key) ∷ ("k1", old_key) ∷ [];
  order = "k2" ∷ "k1" ∷ [];
}

ring-usable : find ring ring.active.id ≡ some ring.active
unfolding find get
ring-usable = refl

abbrev row_under : MasterKey ℕ → String → String → List ℕ → SecretRow Sealed
row_under key id name value = record {
  id = id;
  name = name;
  jwe = (key.key, record { kid = some key.id; omni_sid = some id }, value);
  hint = [];
  fingerprint = "";
  created_at = 1;
  updated_at = 1;
}

abbrev rows : Rows Sealed
rows =
    ("a", row_under old_key "a" "openai" (7 ∷ 8 ∷ []))
    ∷ ("b", row_under new_key "b" "jwt" (9 ∷ []))
    ∷ []

abbrev before : String → String → Bool
before a b = true

abbrev rotated : Result SecretError ℕ × Rows Sealed
rotated = rotate jose ring before (λ n. n) 5 rows

one_rotated : rotated.0 ≡ ok 1
unfolding rotate rotate_rows rotate_row list_rows go_on open_secret sealed_key_id find get same_key
one_rotated = refl

rows-Filed : Filed rows
rows-Filed = (refl, (refl, tt), (refl, tt, tt))

rotate-reveal_example : reveal jose ring "a" rotated.1 ≡ reveal jose ring "a" rows
rotate-reveal_example =
    rotate-reveal jose ring jose_opens ring-usable before (λ n. n) 5 rows "a" rows-Filed
      (λ id value read. refl)

one_is_old :
    describe jose "a" rows ≡ some (describe_row jose (row_under old_key "a" "openai" (7 ∷ 8 ∷ [])))
unfolding describe get
one_is_old = refl

abbrev row_again : SecretRow Sealed
row_again = record (row_under new_key "a" "openai" (7 ∷ 8 ∷ [])) { updated_at = 5 }

one_is_new : describe jose "a" rotated.1 ≡ some (describe_row jose row_again)
unfolding describe get rotate rotate_rows rotate_row list_rows go_on open_secret sealed_key_id find
    same_key upsert set seal_secret
one_is_new = refl

rotate-current_example : (describe_row jose row_again).key_id ≡ "k2"
rotate-current_example =
    rotate-current jose ring jose_opens before (λ n. n) 5 rows 1 "a"
      (describe_row jose (row_under old_key "a" "openai" (7 ∷ 8 ∷ [])))
      (describe_row jose row_again) rows-Filed one_rotated one_is_old one_is_new

abbrev after_put : SecretDescription × Rows Sealed
after_put = put jose ring (λ value. "digest") 3 "c" 6 "openai" (4 ∷ []) rows

put_lem_example :
    (reveal jose ring "b" after_put.1
      ≡ (if after_put.0.id == "b" then ok (some (4 ∷ [])) else reveal jose ring "b" rows))
    × (describe jose after_put.0.id after_put.1 ≡ some after_put.0)
    × (after_put.0.id ≡ or_else (described_id (describe_by_name jose "openai" rows)) "c")
put_lem_example =
    put_lem jose ring jose_opens ring-usable (λ value. "digest") 3 "c" 6 "openai" (4 ∷ []) rows "b"
      refl

-- A store of the last secret, whose id is its name.
abbrev Last : Type 0
Last = String × String

reveal_last : String → Last → Option String
reveal_last id (name, value) = if name == id then some value else none

named_last : String → Last → Option String
named_last name (last, value) = if name == last then some name else none

abbrev last_secret : SecretStore Last
last_secret = record { put = λ name value s. (name, (name, value)); reveal = reveal_last }

named_last-keeps :
    (name value id : String) (s : Last)
    → named_last name s ≡ some id
    → (last_secret.put name value s).0 ≡ id
unfolding named_last
named_last-keeps name value id (last, v) found = ground arith

last_secret-reveals :
    (name value : String) (s : Last)
    → last_secret.reveal (last_secret.put name value s).0 (last_secret.put name value s).1
      ≡ some value
unfolding reveal_last
last_secret-reveals name value s = rw (eq_refl name)

abbrev providers : Json
providers =
    two (entry "secret" (text "new")) (entry "secret" (reference_to_secret "config.p[0].secret"))

abbrev start : Sealing Last
start = record { store = ("config.p[0].secret", "old"); sealed = [] }

is_secret : is_credential_field "secret" ≡ true
unfolding is_credential_field
is_secret = refl

no_env : looks_like_env_reference "new" ≡ false
unfolding looks_like_env_reference trim is_space
no_env = refl

was_there :
    named_last ("config" <> "." <> child_path ("p" <> "[" <> show 0 <> "]") "secret") start.store
    ≡ some "config.p[0].secret"
unfolding named_last child_path show
was_there = refl

moved_reference_overwritten_example :
    ((walk last_secret "config" providers "p" start).0
      ≡ two
          (entry "secret" (reference_to_secret "config.p[0].secret"))
          (entry "secret" (reference_to_secret "config.p[0].secret")))
    × (last_secret.reveal "config.p[0].secret"
          (walk last_secret "config" providers "p" start).1.store
        ≡ some "new")
moved_reference_overwritten_example =
    moved_reference_overwritten last_secret named_last named_last-keeps last_secret-reveals "config"
      "p" "secret" "config.p[0].secret" "new" start is_secret refl refl no_env was_there

seal_credentials-NoneIn_example :
    NoneIn (seal_credentials last_secret "config" providers ("", "")).0
seal_credentials-NoneIn_example = seal_credentials-NoneIn last_secret "config" providers ("", "")
