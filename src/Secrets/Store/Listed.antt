-- ===== src/Secrets/Store/Listed.antt =====
-- The list of the rows (packages/core/src/secrets/store.ts): what holds of each of them.
use omni_model.Prelude.{
  ◌≡◌, refl, arith, false, ◌∙◌, sym, ap, subst, inl, inr, String, Bool, none, some, List, [], ◌∷◌,
  ◌==◌, eq_iff, eq_refl, Bool-cases,
}
use omni_model.Prelude.Dict.{get, set, Fresh, Fresh-set}
use omni_model.Secrets.Store.{SecretRow, Rows, upsert, insert_row, list_rows}
use omni_model.Secrets.Store.Kept.{Filed, get-Fresh}

abbrev pub AllOf : {T : Type 0} → ((SecretRow T) → Type 0) → List (SecretRow T) → Type 0
AllOf P [] = Unit
AllOf P (row ∷ rows) = P row × AllOf P rows

module _ {T : Type 0} (P : SecretRow T → Type 0) (before : String → String → Bool) where
  pub AllOf-insert_row :
      (row : SecretRow T) (list : List (SecretRow T))
      → P row
      → AllOf P list
      → AllOf P (insert_row before row list)
  unfolding insert_row
  AllOf-insert_row row [] p all = (p, tt)
  AllOf-insert_row row (first ∷ list) p (q, all) = elim (Bool-cases (before row.name first.name)) [
    | inl lower ↦ rw lower (p, (q, all))
    | inr higher ↦ rw higher (q, AllOf-insert_row row list p all)
  ]

  insert_row-AllOf :
      (row : SecretRow T) (list : List (SecretRow T))
      → AllOf P (insert_row before row list)
      → P row × AllOf P list
  unfolding insert_row
  insert_row-AllOf row [] (p, all) = (p, tt)
  insert_row-AllOf row (first ∷ list) all = elim (Bool-cases (before row.name first.name)) [
    | inl lower ↦ rw lower at all
    | inr higher ↦
        let there : P first × AllOf P (insert_row before row list) = rw higher at all in
        let (p, rest) = insert_row-AllOf row list (there.1) in (p, (there.0, rest))
  ]

  -- What holds of all rows in the list holds of the row of any id.
  pub get-AllOf :
      (id : String) (row : SecretRow T) (rows : Rows T)
      → AllOf P (list_rows before rows)
      → get id rows ≡ some row
      → P row
  unfolding list_rows get
  get-AllOf id row [] all found = cc
  get-AllOf id row ((j, first) ∷ rows) all found =
      let (p, rest) = insert_row-AllOf first (list_rows before rows) all in
      elim (Bool-cases (j == id)) [
        | inl here ↦ let same : first ≡ row = cc (rw here at found) in subst P (same) p
        | inr other ↦ get-AllOf id row rows rest (rw other at found)
      ]

pub get-id :
    {T : Type 0}
    → (id : String) (row : SecretRow T) (rows : Rows T) → Filed rows
    → get id rows ≡ some row
    → row.id ≡ id
unfolding get
get-id {T} id row [] filed found = cc
get-id {T} id row ((j, first) ∷ rows) (same, fresh, filed) found = elim (Bool-cases (j == id)) [
  | inl here ↦
      let there : first ≡ row = cc (rw here at found) in
      sym (ap (λ (r : SecretRow T). r.id) there) ∙ same ∙ (eq_iff j id).0 here
  | inr other ↦ get-id id row rows filed (rw other at found)
]

abbrev pub Here : {T : Type 0} → Rows T → SecretRow T → Type 0
Here rows row = get row.id rows ≡ some row

AllOf-later :
    {T : Type 0}
    → (id : String) (first : SecretRow T) (rows : Rows T) (list : List (SecretRow T))
    → Fresh id rows
    → AllOf (Here rows) list
    → AllOf (Here ((id, first) ∷ rows)) list
unfolding get
AllOf-later id first rows [] fresh all = tt
AllOf-later id first rows (row ∷ list) fresh (here, all) = (
  elim (Bool-cases (id == row.id)) [
    | inl there ↦
        let same : id ≡ row.id = (eq_iff id row.id).0 there in
        let nothing : get row.id rows ≡ none = rw (← same) (get-Fresh id rows fresh) in cc
    | inr other ↦ rw other here
  ],
  AllOf-later id first rows list fresh all,
)

pub AllOf-list_rows :
    {T : Type 0}
    → (before : String → String → Bool) (rows : Rows T) → Filed rows
    → AllOf (Here rows) (list_rows before rows)
unfolding list_rows get
AllOf-list_rows before [] filed = tt
AllOf-list_rows before ((id, row) ∷ rows) (same, fresh, filed) =
    AllOf-insert_row (Here ((id, row) ∷ rows)) before row (list_rows before rows)
      (rw (← same) (rw (eq_refl row.id)))
      (AllOf-later id row rows (list_rows before rows) fresh (AllOf-list_rows before rows filed))

different : (a b : String) → (a == b) ≡ false → (b == a) ≡ false
different a b other = ground (arith, eq_iff a b, eq_iff b a)

-- A row that is written stands under its own id.
pub Filed-upsert :
    {T : Type 0} → (row : SecretRow T) (rows : Rows T) → Filed rows → Filed (upsert row rows)
unfolding upsert set
Filed-upsert row [] filed = (refl, tt, tt)
Filed-upsert row ((j, first) ∷ rows) (same, fresh, filed) = elim (Bool-cases (j == row.id)) [
  | inl here ↦ rw here (sym ((eq_iff j row.id).0 here), fresh, filed)
  | inr other ↦ rw other (
    same,
    Fresh-set row.id j row rows (different j row.id other) fresh,
    Filed-upsert row rows filed,
  )
]
