-- ===== src/Secrets/Store/Current.antt =====
-- Which key seals the secrets once all are sealed again (packages/core/src/secrets/store.ts).
use omni_model.Prelude.{
  ℕ, ◌+◌, ◌≡◌, refl, ◌∙◌, sym, ap, subst, ◌⊎◌, inl, inr, String, Bool, Option, none, some, List, [],
  ◌∷◌, ◌==◌, eq_iff, eq_refl, Bool-cases, Option-cases,
}
use omni_model.Prelude.Dict.{get, get-set}
use omni_model.Prelude.Result.{Result, ok, err, Result-cases}
use omni_model.Secrets.Keyring.{Keyring}
use omni_model.Secrets.Envelope.{
  Jose, SecretError, OpensSealed, SealedHeader, sealed_key_id, seal_secret, open_secret,
}
use omni_model.Secrets.Store.{
  SecretRow, SecretDescription, Rows, upsert, list_rows, describe, describe_row, rotate_row,
  rotate_rows, go_on, rotate,
}
use omni_model.Secrets.Store.Listed.{AllOf, get-AllOf, get-id, Here, AllOf-list_rows}
use omni_model.Secrets.Store.Kept.{Filed}

module _ {K T : Type 0} (jose : Jose K T) (ring : Keyring K) (opens : OpensSealed jose) where
  sealed_key_id-seal_secret :
      (drawn : ℕ) (id : String) (value : List ℕ)
      → sealed_key_id jose (seal_secret jose ring drawn id value) ≡ ring.active.id
  unfolding sealed_key_id seal_secret
  sealed_key_id-seal_secret drawn id value =
      let header : SealedHeader = record { kid = some ring.active.id; omni_sid = some id } in
      rw (opens.header drawn ring.active.key header (jose.encode value), sealed_key_id)

  -- Whatever the id has is sealed under the active key.
  abbrev Current : Rows T → String → Type 0
  Current rows id =
      (row : SecretRow T) → get id rows ≡ some row → sealed_key_id jose row.jwe ≡ ring.active.id

  abbrev Ready : Rows T → SecretRow T → Type 0
  Ready rows row = (get row.id rows ≡ some row) ⊎ Current rows row.id

  -- One round brings its row up to date, unless it fails, and leaves the others as they are.
  record Round (row : SecretRow T) (rows : Rows T) (r : Result SecretError ℕ × Rows T)
      : Type 0 where
    done : (n : ℕ) → r.0 ≡ ok n → Current r.1 row.id
    others : (id : String) → (get id r.1 ≡ get id rows) ⊎ Current r.1 id

  Current-sealed :
      (rows : Rows T) (id : String) (sealed : SecretRow T)
      → sealed_key_id jose sealed.jwe ≡ ring.active.id
      → get id rows ≡ some sealed
      → Current rows id
  Current-sealed rows id sealed current there row found =
      let same : sealed ≡ row = cc in
      subst (λ (r : SecretRow T). sealed_key_id jose r.jwe ≡ ring.active.id) (same) current

  upsert-Round :
      (drawn now : ℕ) (row : SecretRow T) (rows : Rows T) (value : List ℕ)
      → Round row rows (
        ok 1,
        upsert
            (record row { jwe = seal_secret jose ring drawn row.id value; updated_at = now })
            rows,
      )
  unfolding upsert
  upsert-Round drawn now row rows value =
      let sealed : SecretRow T = record row {
        jwe = seal_secret jose ring drawn row.id value;
        updated_at = now;
      } in
      let active : sealed_key_id jose sealed.jwe ≡ ring.active.id =
        sealed_key_id-seal_secret drawn row.id value in
      record {
        done = λ n finished.
            Current-sealed (upsert sealed rows) row.id sealed active
              (rw (get-set row.id row.id sealed rows) (rw (eq_refl row.id)));
        others = λ id. elim (Bool-cases (row.id == id)) [
          | inl same ↦ inr (
              Current-sealed (upsert sealed rows) id sealed active
                (rw (get-set row.id id sealed rows) (rw same)))
          | inr other ↦ inl (rw (get-set row.id id sealed rows) (rw other))
        ];
      }

  kept-Round :
      (row : SecretRow T) (rows : Rows T)
      → Ready rows row
      → sealed_key_id jose row.jwe ≡ ring.active.id
      → Round row rows (ok 0, rows)
  kept-Round row rows (inl here) current = record {
    done = λ n finished. Current-sealed rows row.id row current here;
    others = λ id. inl refl;
  }
  kept-Round row rows (inr there) current = record {
    done = λ n finished. there;
    others = λ id. inl refl;
  }

  rotate_row-Round :
      (drawn now : ℕ) (row : SecretRow T) (rows : Rows T)
      → Ready rows row
      → Round row rows (rotate_row jose ring drawn now row rows)
  unfolding rotate_row
  rotate_row-Round drawn now row rows ready =
      elim (Bool-cases (sealed_key_id jose row.jwe == ring.active.id)) [
        | inl current ↦ rw current (
            kept-Round row rows ready
              ((eq_iff (sealed_key_id jose row.jwe) ring.active.id).0 current))
        | inr old ↦ rw old (elim (Result-cases (open_secret jose ring row.id row.jwe)) [
          | inr (thrown, failed) ↦
              rw failed (record { done = λ n finished. cc; others = λ id. inl refl })
          | inl (value, read) ↦ rw read (upsert-Round drawn now row rows value)
        ])
      ]

  Current-Round :
      (row : SecretRow T) (rows : Rows T) (r : Result SecretError ℕ × Rows T) (id : String)
      → Round row rows r
      → Current rows id
      → Current r.1 id
  Current-Round row rows r id round current = elim (round.others id) [
    | inl same ↦ λ row' found. current row' (sym same ∙ found)
    | inr now ↦ now
  ]

  Ready-Round :
      (row next : SecretRow T) (rows : Rows T) (r : Result SecretError ℕ × Rows T)
      → Round row rows r
      → Ready rows next
      → Ready r.1 next
  Ready-Round row next rows r round (inl here) = elim (round.others next.id) [
    | inl same ↦ inl (same ∙ here)
    | inr now ↦ inr now
  ]
  Ready-Round row next rows r round (inr current) =
      inr (Current-Round row rows r next.id round current)

  AllOf-Ready :
      (row : SecretRow T) (rows : Rows T) (r : Result SecretError ℕ × Rows T)
      (list : List (SecretRow T))
      → Round row rows r
      → AllOf (Ready rows) list
      → AllOf (Ready r.1) list
  AllOf-Ready row rows r [] round all = tt
  AllOf-Ready row rows r (next ∷ list) round (ready, all) =
      (Ready-Round row next rows r round ready, AllOf-Ready row rows r list round all)

  -- What a finished loop has done for the rows of its list and for those that were up to date.
  record Rotated (list : List (SecretRow T)) (rows : Rows T) (out : Result SecretError ℕ × Rows T)
      : Type 0 where
    finished : (n : ℕ) → out.0 ≡ ok n → AllOf (λ row. Current out.1 row.id) list
    stays : (id : String) → Current rows id → Current out.1 id

  go_on-Rotated :
      (next : ℕ → Rows T → Result SecretError ℕ × Rows T) (rotated : ℕ) (row : SecretRow T)
      (later : List (SecretRow T)) (rows : Rows T) (r : Result SecretError ℕ × Rows T)
      → Round row rows r
      → ((n : ℕ) → Rotated later r.1 (next n r.1))
      → Rotated (row ∷ later) rows (go_on jose ring next rotated r)
  unfolding go_on
  go_on-Rotated next rotated row later rows (err thrown, rows') round rest = record {
    finished = λ n ended. cc;
    stays = λ id current. Current-Round row rows (err thrown, rows') id round current;
  }
  go_on-Rotated next rotated row later rows (ok m, rows') round rest =
      let done : Rotated later rows' (next (rotated + m) rows') = rest (rotated + m) in
      record {
        finished = λ n ended. (done.stays row.id (round.done m refl), done.finished n ended);
        stays = λ id current. done.stays id (Current-Round row rows (ok m, rows') id round current);
      }

  rotate_rows-Rotated :
      (draws : ℕ → ℕ) (now : ℕ) (list : List (SecretRow T)) (rotated : ℕ) (rows : Rows T)
      → AllOf (Ready rows) list
      → Rotated list rows (rotate_rows jose ring draws now list rotated rows)
  unfolding rotate_rows
  rotate_rows-Rotated draws now [] rotated rows all = record {
    finished = λ n ended. tt;
    stays = λ id current. current;
  }
  rotate_rows-Rotated draws now (row ∷ later) rotated rows (ready, all) =
      let r = rotate_row jose ring (draws rotated) now row rows in
      let round : Round row rows r = rotate_row-Round (draws rotated) now row rows ready in
      go_on-Rotated (rotate_rows jose ring draws now later) rotated row later rows r round
        (λ n. rotate_rows-Rotated draws now later n r.1 (AllOf-Ready row rows r later round all))

module _ {K T : Type 0} (jose : Jose K T) (ring : Keyring K) (opens : OpensSealed jose) where
  AllOf-Here-Ready :
      (rows : Rows T) (list : List (SecretRow T))
      → AllOf (Here rows) list
      → AllOf (Ready jose ring opens rows) list
  AllOf-Here-Ready rows [] all = tt
  AllOf-Here-Ready rows (row ∷ list) (here, all) = (inl here, AllOf-Here-Ready rows list all)

  described-row :
      (id : String) (rows : Rows T) (d : SecretDescription)
      → describe jose id rows ≡ some d
      → (row : SecretRow T) × (get id rows ≡ some row) × (d.key_id ≡ sealed_key_id jose row.jwe)
  unfolding describe
  described-row id rows d found = elim (Option-cases (get id rows)) [
    | inl missing ↦
        absurd
          (let off : ◌≡◌ {A = Option SecretDescription} none (some d) = rw missing at found in cc)
    | inr (row, there) ↦
        let same : describe_row jose row ≡ d = cc (rw there at found) in
        (row, there, sym (ap (λ (e : SecretDescription). e.key_id) same))
  ]

  -- When the secrets have all been sealed again, each that there was is sealed under the active key, if
  -- each row stands under its own id.
  pub rotate-current :
      (before : String → String → Bool) (draws : ℕ → ℕ) (now : ℕ) (rows : Rows T) (n : ℕ)
      (id : String) (old new : SecretDescription)
      → Filed rows
      → (rotate jose ring before draws now rows).0 ≡ ok n
      → describe jose id rows ≡ some old
      → describe jose id (rotate jose ring before draws now rows).1 ≡ some new
      → new.key_id ≡ ring.active.id
  unfolding rotate
  rotate-current before draws now rows n id old new filed finished had has =
      let list = list_rows before rows in
      let (row, there, _) = described-row id rows old had in
      let (row', there', key) =
        described-row id (rotate jose ring before draws now rows).1 new has in
      let done : Rotated jose ring opens list rows (rotate_rows jose ring draws now list 0 rows) =
        rotate_rows-Rotated jose ring opens draws now list 0 rows
          (AllOf-Here-Ready rows list (AllOf-list_rows before rows filed)) in
      let there_now : Current jose ring opens (rotate jose ring before draws now rows).1 row.id =
        get-AllOf (λ r. Current jose ring opens (rotate jose ring before draws now rows).1 r.id)
          before id row rows (done.finished n finished) there in
      key
      ∙ subst (Current jose ring opens (rotate jose ring before draws now rows).1)
          (get-id id row rows filed there) there_now row' there'
