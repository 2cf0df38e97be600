-- ===== src/Secrets/Store/Kept.antt =====
-- What the secrets reveal when one is put and when all are sealed again
-- (packages/core/src/secrets/store.ts).
use omni_model.Prelude.{
  ℕ, ◌+◌, ◌≡◌, refl, ◌∙◌, sym, inl, inr, String, Bool, none, some, List, [], ◌∷◌, ◌==◌, arith,
  eq_iff, eq_refl, Bool-cases,
}
use omni_model.Prelude.Dict.{get, get-set, Fresh}
use omni_model.Prelude.Result.{Result, ok, err, Result-cases}
use omni_model.Secrets.Keyring.{Keyring, find}
use omni_model.Secrets.Envelope.{
  Jose, SecretError, OpensSealed, SealedHeader, sealed_key_id, seal_secret, open_secret,
}
use omni_model.Secrets.Store.{
  SecretRow, Rows, upsert, insert_row, list_rows, reveal, rotate_row, rotate_rows, go_on, rotate,
}

-- Each row stands under its own id, once.
abbrev pub Filed : {T : Type 0} → Rows T → Type 0
Filed [] = Unit
Filed ((id, row) ∷ rows) = (row.id ≡ id) × Fresh id rows × Filed rows

pub get-Fresh : {T : Type 0} → (id : String) (rows : Rows T) → Fresh id rows → get id rows ≡ none
unfolding get
get-Fresh id [] fresh = refl
get-Fresh id ((j, row) ∷ rows) fresh = ground (arith, get-Fresh id rows)

module _ {K T : Type 0} (jose : Jose K T) (ring : Keyring K) (opens : OpensSealed jose)
    (usable : find ring ring.active.id ≡ some ring.active) where
  -- A value that the platform's encoder and decoder keep is read back as it was sealed.
  pub open-seal_secret :
      (drawn : ℕ) (id : String) (value : List ℕ)
      → jose.decode (jose.encode value) ≡ value
      → open_secret jose ring id (seal_secret jose ring drawn id value) ≡ ok value
  unfolding open_secret seal_secret
  open-seal_secret drawn id value kept =
      let header : SealedHeader = record { kid = some ring.active.id; omni_sid = some id } in
      rw (opens.header drawn ring.active.key header (jose.encode value)) (
        rw usable (
          rw (opens.plaintext drawn ring.active.key header (jose.encode value))
            (rw (eq_refl id) (rw kept))))

  -- What the row holds is what the store reveals for its id.
  abbrev Agrees : Rows T → SecretRow T → Type 0
  Agrees rows row =
      (value : List ℕ)
      → open_secret jose ring row.id row.jwe ≡ ok value
      → reveal jose ring row.id rows ≡ ok (some value)

  abbrev AllAgree : Rows T → List (SecretRow T) → Type 0
  AllAgree rows [] = Unit
  AllAgree rows (row ∷ later) = Agrees rows row × AllAgree rows later

  -- A value that is revealed is one that encoding keeps.
  abbrev pub Encodable : Rows T → Type 0
  Encodable rows =
      (id : String) (value : List ℕ)
      → reveal jose ring id rows ≡ ok (some value)
      → jose.decode (jose.encode value) ≡ value

  abbrev SameReveals : Rows T → Rows T → Type 0
  SameReveals rows rows' = (id : String) → reveal jose ring id rows' ≡ reveal jose ring id rows

  upsert-reveal :
      (sealed : SecretRow T) (rows : Rows T) (value : List ℕ)
      → open_secret jose ring sealed.id sealed.jwe ≡ ok value
      → reveal jose ring sealed.id rows ≡ ok (some value)
      → SameReveals rows (upsert sealed rows)
  unfolding reveal upsert
  upsert-reveal sealed rows value opened before id =
      rw (get-set sealed.id id sealed rows) (elim (Bool-cases (sealed.id == id)) [
        | inl there ↦
            let same : sealed.id ≡ id = (eq_iff sealed.id id).0 there in
            rw (← same) (rw (eq_refl sealed.id) (rw opened (sym before)))
        | inr other ↦ rw other
      ])

  rotate_row-reveal :
      (drawn now : ℕ) (row : SecretRow T) (rows : Rows T)
      → Encodable rows
      → Agrees rows row
      → SameReveals rows (rotate_row jose ring drawn now row rows).1
  unfolding rotate_row
  rotate_row-reveal drawn now row rows encodable agrees id =
      elim (Bool-cases (sealed_key_id jose row.jwe == ring.active.id)) [
        | inl current ↦ rw current
        | inr old ↦ rw old (elim (Result-cases (open_secret jose ring row.id row.jwe)) [
          | inr (thrown, failed) ↦ rw failed
          | inl (value, read) ↦ rw read (
              upsert-reveal
                (record row { jwe = seal_secret jose ring drawn row.id value; updated_at = now })
                rows value
                (open-seal_secret drawn row.id value (encodable row.id value (agrees value read)))
                (agrees value read) id)
        ])
      ]

  AllAgree-same :
      (rows rows' : Rows T) (list : List (SecretRow T))
      → SameReveals rows rows'
      → AllAgree rows list
      → AllAgree rows' list
  AllAgree-same rows rows' [] same agree = tt
  AllAgree-same rows rows' (row ∷ list) same (agrees, agree) =
      (λ value read. same row.id ∙ agrees value read, AllAgree-same rows rows' list same agree)

  SameReveals-Encodable :
      (rows rows' : Rows T) → SameReveals rows rows' → Encodable rows → Encodable rows'
  SameReveals-Encodable rows rows' same encodable id value read =
      encodable id value (sym (same id) ∙ read)

  go_on-reveal :
      (next : ℕ → Rows T → Result SecretError ℕ × Rows T) (rotated : ℕ) (rows : Rows T)
      (r : Result SecretError ℕ × Rows T)
      → SameReveals rows r.1
      → ((n : ℕ) → SameReveals rows (next n r.1).1)
      → SameReveals rows (go_on jose ring next rotated r).1
  unfolding go_on
  go_on-reveal next rotated rows (err thrown, rows') here later id = here id
  go_on-reveal next rotated rows (ok n, rows') here later id = later (rotated + n) id

  rotate_rows-reveal :
      (draws : ℕ → ℕ) (now : ℕ) (list : List (SecretRow T)) (rotated : ℕ) (rows : Rows T)
      → Encodable rows
      → AllAgree rows list
      → SameReveals rows (rotate_rows jose ring draws now list rotated rows).1
  unfolding rotate_rows
  rotate_rows-reveal draws now [] rotated rows encodable agree = λ id. refl
  rotate_rows-reveal draws now (row ∷ later) rotated rows encodable (agrees, agree) =
      let r = rotate_row jose ring (draws rotated) now row rows in
      let here : SameReveals rows r.1 =
        rotate_row-reveal (draws rotated) now row rows encodable agrees in
      go_on-reveal (rotate_rows jose ring draws now later) rotated rows r here (λ n id.
        rotate_rows-reveal draws now later n r.1 (SameReveals-Encodable rows r.1 here encodable)
          (AllAgree-same rows r.1 later here agree) id
        ∙ here id)

  AllAgree-insert_row :
      (before : String → String → Bool) (rows : Rows T) (row : SecretRow T)
      (list : List (SecretRow T))
      → Agrees rows row
      → AllAgree rows list
      → AllAgree rows (insert_row before row list)
  unfolding insert_row
  AllAgree-insert_row before rows row [] agrees agree = (agrees, tt)
  AllAgree-insert_row before rows row (first ∷ list) agrees (agrees', agree) =
      elim (Bool-cases (before row.name first.name)) [
        | inl lower ↦ rw lower (agrees, (agrees', agree))
        | inr higher ↦ rw higher (agrees', AllAgree-insert_row before rows row list agrees agree)
      ]

  Agrees-later :
      (id : String) (first row : SecretRow T) (rows : Rows T)
      → Fresh id rows
      → Agrees rows row
      → Agrees ((id, first) ∷ rows) row
  unfolding reveal get
  Agrees-later id first row rows fresh agrees value read = elim (Bool-cases (id == row.id)) [
    | inl there ↦
        let same : id ≡ row.id = (eq_iff id row.id).0 there in
        let nothing : reveal jose ring row.id rows ≡ ok none =
          rw (← same) (rw (get-Fresh id rows fresh)) in
        cc (agrees value read)
    | inr other ↦ rw other (agrees value read)
  ]

  AllAgree-later :
      (id : String) (first : SecretRow T) (rows : Rows T) (list : List (SecretRow T))
      → Fresh id rows
      → AllAgree rows list
      → AllAgree ((id, first) ∷ rows) list
  AllAgree-later id first rows [] fresh agree = tt
  AllAgree-later id first rows (row ∷ list) fresh (agrees, agree) =
      (Agrees-later id first row rows fresh agrees, AllAgree-later id first rows list fresh agree)

  Agrees-own :
      (id : String) (row : SecretRow T) (rows : Rows T)
      → row.id ≡ id
      → Agrees ((id, row) ∷ rows) row
  unfolding reveal get
  Agrees-own id row rows same value read = rw (← same) (rw (eq_refl row.id) (rw read))

  AllAgree-list_rows :
      (before : String → String → Bool) (rows : Rows T)
      → Filed rows
      → AllAgree rows (list_rows before rows)
  unfolding list_rows
  AllAgree-list_rows before [] filed = tt
  AllAgree-list_rows before ((id, row) ∷ rows) (same, fresh, filed) =
      AllAgree-insert_row before ((id, row) ∷ rows) row (list_rows before rows)
        (Agrees-own id row rows same)
        (AllAgree-later id row rows (list_rows before rows) fresh
          (AllAgree-list_rows before rows filed))

  -- Sealing all secrets again under the active key changes none of them, also when it fails on the
  -- way, if the keyring finds its active key, each row stands under its own id and the values are
  -- ones that encoding keeps.
  pub rotate-reveal :
      (before : String → String → Bool) (draws : ℕ → ℕ) (now : ℕ) (rows : Rows T) (id : String)
      → Filed rows
      → Encodable rows
      → reveal jose ring id (rotate jose ring before draws now rows).1 ≡ reveal jose ring id rows
  unfolding rotate
  rotate-reveal before draws now rows id filed encodable =
      rotate_rows-reveal draws now (list_rows before rows) 0 rows encodable
        (AllAgree-list_rows before rows filed) id
