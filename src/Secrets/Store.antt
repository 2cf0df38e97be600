-- ===== src/Secrets/Store.antt =====
-- packages/core/src/secrets/store.ts: the encrypted store over the in-process rows. The digest of a
-- value and the order of names are parameters, as are what is drawn at random and the time.
pub mod Kept
pub mod Put
pub mod Listed
pub mod Current
use omni_model.Prelude.{
  map, ℕ, ◌+◌, String, Bool, true, false, Option, none, some, List, [], ◌∷◌, ◌==◌, length,
  if◌then◌else◌, is_some,
}
use omni_model.Prelude.Dict.{Dict, get, set, delete}
use omni_model.Prelude.Result.{Result, ok, err}
use omni_model.Secrets.Keyring.{Keyring}
use omni_model.Secrets.Envelope.{
  Jose, SecretError, secret_hint, sealed_key_id, seal_secret, open_secret,
}

pub record SecretRow (T : Type 0) : Type 0 where
  pub id : String
  pub name : String
  pub jwe : T
  pub hint : List ℕ
  pub fingerprint : String
  pub created_at : ℕ
  pub updated_at : ℕ

pub record SecretDescription : Type 0 where
  pub id : String
  pub name : String
  pub hint : List ℕ
  pub fingerprint : String
  pub key_id : String
  pub created_at : ℕ
  pub updated_at : ℕ

-- `MemorySecretRowStore`
abbrev pub Rows : Type 0 → Type 0
Rows T = Dict (SecretRow T)

unfoldable pub upsert : {T : Type 0} → SecretRow T → Rows T → Rows T
upsert row rows = set row.id row rows

unfoldable pub find_by_name : {T : Type 0} → String → Rows T → Option (SecretRow T)
find_by_name name [] = none
find_by_name name ((id, row) ∷ rows) =
    let rest = find_by_name name rows in if row.name == name then some row else rest

unfoldable pub remove_row : {T : Type 0} → String → Rows T → Bool × Rows T
remove_row id rows = (is_some (get id rows), delete id rows)

-- The order of names: whether `a.localeCompare(b) <= 0`.
module _ {T : Type 0} (before : String → String → Bool) where
  unfoldable pub insert_row : SecretRow T → List (SecretRow T) → List (SecretRow T)
  insert_row row [] = row ∷ []
  insert_row row (first ∷ rows) =
      let rest = first ∷ insert_row row rows in
      if before row.name first.name then row ∷ first ∷ rows else rest

  unfoldable pub list_rows : Rows T → List (SecretRow T)
  unfolding insert_row
  list_rows [] = []
  list_rows ((id, row) ∷ rows) = insert_row row (list_rows rows)

id_of : {T : Type 0} → String → Option (SecretRow T) → String
id_of fresh none = fresh
id_of fresh (some row) = row.id

created_of : {T : Type 0} → ℕ → Option (SecretRow T) → ℕ
created_of now none = now
created_of now (some row) = row.created_at

module _ {K T : Type 0} (jose : Jose K T) where
  unfoldable pub describe_row : SecretRow T → SecretDescription
  unfolding sealed_key_id
  describe_row row = record {
    id = row.id;
    name = row.name;
    hint = row.hint;
    fingerprint = row.fingerprint;
    key_id = sealed_key_id jose row.jwe;
    created_at = row.created_at;
    updated_at = row.updated_at;
  }

  described : Option (SecretRow T) → Option SecretDescription
  unfolding describe_row
  described none = none
  described (some row) = some (describe_row row)

  unfoldable pub describe : String → Rows T → Option SecretDescription
  unfolding described
  describe id rows = described (get id rows)

  unfoldable pub describe_by_name : String → Rows T → Option SecretDescription
  unfolding described find_by_name
  describe_by_name name rows = described (find_by_name name rows)

  -- `list`, in the order of names
  unfoldable pub list_secrets : (String → String → Bool) → Rows T → List SecretDescription
  unfolding describe_row list_rows
  list_secrets before rows = map describe_row (list_rows before rows)

  module _ (ring : Keyring K) where
    -- The row that `put` writes over what the name has.
    sealed_row :
        (List ℕ → String) → ℕ → String → ℕ → String → List ℕ → Option (SecretRow T) → SecretRow T
    unfolding id_of created_of seal_secret secret_hint
    sealed_row fingerprint drawn fresh now name value existing = record {
      id = id_of fresh existing;
      name = name;
      jwe = seal_secret jose ring drawn (id_of fresh existing) value;
      hint = secret_hint value;
      fingerprint = fingerprint value;
      created_at = created_of now existing;
      updated_at = now;
    }

    unfoldable pub put :
        (List ℕ → String) → ℕ → String → ℕ → String → List ℕ → Rows T → SecretDescription × Rows T
    unfolding sealed_row describe_row upsert find_by_name
    put fingerprint drawn fresh now name value rows =
        let row = sealed_row fingerprint drawn fresh now name value (find_by_name name rows) in
        (describe_row row, upsert row rows)

    opened : Result SecretError (List ℕ) → Result SecretError (Option (List ℕ))
    opened (err thrown) = err thrown
    opened (ok value) = ok (some value)

    reveal_row : Option (SecretRow T) → Result SecretError (Option (List ℕ))
    unfolding opened open_secret
    reveal_row none = ok none
    reveal_row (some row) = opened (open_secret jose ring row.id row.jwe)

    unfoldable pub reveal : String → Rows T → Result SecretError (Option (List ℕ))
    unfolding reveal_row
    reveal id rows = reveal_row (get id rows)

    resealed :
        ℕ → ℕ → SecretRow T → Rows T → Result SecretError (List ℕ) → Result SecretError ℕ × Rows T
    unfolding upsert seal_secret
    resealed drawn now row rows (err thrown) = (err thrown, rows)
    resealed drawn now row rows (ok plaintext) = (
      ok 1,
      upsert (record row { jwe = seal_secret jose ring drawn row.id plaintext; updated_at = now })
          rows,
    )

    -- One round of `rotate`: how many rows it sealed again.
    unfoldable pub rotate_row : ℕ → ℕ → SecretRow T → Rows T → Result SecretError ℕ × Rows T
    unfolding resealed open_secret sealed_key_id
    rotate_row drawn now row rows =
        if sealed_key_id jose row.jwe == ring.active.id
        then (ok 0, rows)
        else resealed drawn now row rows (open_secret jose ring row.id row.jwe)

    unfoldable pub go_on :
        (ℕ → Rows T → Result SecretError ℕ × Rows T)
        → ℕ
        → Result SecretError ℕ × Rows T
        → Result SecretError ℕ × Rows T
    go_on next rotated (err thrown, rows) = (err thrown, rows)
    go_on next rotated (ok n, rows) = next (rotated + n) rows

    -- The loop of `rotate`, with what is drawn for the row that is sealed after `n` others.
    unfoldable pub rotate_rows :
        (ℕ → ℕ) → ℕ → List (SecretRow T) → ℕ → Rows T → Result SecretError ℕ × Rows T
    unfolding rotate_row go_on
    rotate_rows draws now [] rotated rows = (ok rotated, rows)
    rotate_rows draws now (row ∷ later) rotated rows =
        go_on (rotate_rows draws now later) rotated (rotate_row (draws rotated) now row rows)

    -- `rotate`: how many rows it sealed again; how many there are is `length` of `list_rows`.
    unfoldable pub rotate :
        (String → String → Bool) → (ℕ → ℕ) → ℕ → Rows T → Result SecretError ℕ × Rows T
    unfolding rotate_rows list_rows
    rotate before draws now rows = rotate_rows draws now (list_rows before rows) 0 rows
