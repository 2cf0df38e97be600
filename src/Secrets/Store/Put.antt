-- ===== src/Secrets/Store/Put.antt =====
-- What `put` does to the secrets (packages/core/src/secrets/store.ts).
use omni_model.Prelude.{
  ℕ, ◌≡◌, String, Option, none, some, List, ◌==◌, eq_refl, inl, inr, Option-cases, Bool-cases,
  if◌then◌else◌, or_else,
}
use omni_model.Prelude.Dict.{get, get-set}
use omni_model.Prelude.Result.{ok}
use omni_model.Secrets.Keyring.{Keyring, find}
use omni_model.Secrets.Envelope.{Jose, OpensSealed}
use omni_model.Secrets.Store.{
  SecretRow, SecretDescription, Rows, put, upsert, reveal, describe, describe_by_name, sealed_row,
  find_by_name, id_of,
}
use omni_model.Secrets.Store.Kept.{open-seal_secret}

abbrev pub described_id : Option SecretDescription → Option String
described_id none = none
described_id (some d) = some d.id

module _ {K T : Type 0} (jose : Jose K T) (ring : Keyring K) (opens : OpensSealed jose)
    (usable : find ring ring.active.id ≡ some ring.active) (fingerprint : List ℕ → String)
    (drawn : ℕ) (fresh : String) (now : ℕ) (name : String) (value : List ℕ) (rows : Rows T) where
  abbrev stored : SecretDescription × Rows T
  stored = put jose ring fingerprint drawn fresh now name value rows

  upsert_same : (row : SecretRow T) → get row.id (upsert row rows) ≡ some row
  unfolding upsert
  upsert_same row = rw (get-set row.id row.id row rows) (rw (eq_refl row.id))

  reveal-put :
      (id : String)
      → jose.decode (jose.encode value) ≡ value
      → reveal jose ring id stored.1
        ≡ (if stored.0.id == id then ok (some value) else reveal jose ring id rows)
  unfolding put reveal upsert
  reveal-put id kept =
      let row : SecretRow T =
        sealed_row jose ring fingerprint drawn fresh now name value (find_by_name name rows) in
      rw (get-set row.id id row rows) (elim (Bool-cases (row.id == id)) [
        | inl same ↦ rw same (rw (open-seal_secret jose ring opens usable drawn row.id value kept))
        | inr other ↦ rw other
      ])

  describe-put : describe jose stored.0.id stored.1 ≡ some stored.0
  unfolding put describe
  describe-put =
      let row : SecretRow T =
        sealed_row jose ring fingerprint drawn fresh now name value (find_by_name name rows) in
      rw (upsert_same row)

  put-id : stored.0.id ≡ or_else (described_id (describe_by_name jose name rows)) fresh
  unfolding put describe_by_name id_of
  put-id = elim (Option-cases (find_by_name name rows)) [
    | inl missing ↦ rw missing
    | inr (row, there) ↦ rw there
  ]

  -- When the keyring finds its active key, a secret that is put, of a value that encoding keeps, is
  -- revealed under the id that `put` answers, and every other id reveals what it did. `put` answers
  -- the description of that secret, and its id is that of the secret which had the name, if there
  -- was one, or else the fresh one.
  pub put_lem :
      (id : String)
      → jose.decode (jose.encode value) ≡ value
      → (reveal jose ring id stored.1
          ≡ (if stored.0.id == id then ok (some value) else reveal jose ring id rows))
        × (describe jose stored.0.id stored.1 ≡ some stored.0)
        × (stored.0.id ≡ or_else (described_id (describe_by_name jose name rows)) fresh)
  put_lem id kept = (reveal-put id kept, describe-put, put-id)
