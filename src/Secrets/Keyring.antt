-- ===== src/Secrets/Keyring.antt =====
-- packages/core/src/secrets/keyring.ts: the master keys of a process. The platform's `trim` and
-- `atob`, the import of a key and the digest that names it are parameters; a text is the list of its
-- units.
use omni_model.Prelude.{
  ℕ, zero, suc, Bool, true, false, ◌+◌, ◌-◌, ◌*◌, ◌/◌, ◌≡◌, String, Option, none, some, List, [],
  ◌∷◌, ◌++◌, map, eqb, length, is_some, if◌then◌else◌, eq_iff, eq_refl, ◌==◌, inl, inr, Bool-cases,
  subst,
}
use omni_model.Prelude.Text.{◌<>◌, show}
use omni_model.Prelude.Dict.{Dict, get, set, get-set}
use omni_model.Prelude.Result.{Result, ok, err, ◌>>=◌, >>=-eq-ok, ok-injective}

pub record MasterKey (K : Type 0) : Type 0 where
  pub id : String
  pub key : K

pub record Keyring (K : Type 0) : Type 0 where
  pub active : MasterKey K
  pub by_id : Dict (MasterKey K)
  pub order : List String

-- The platform: `atob` fails on what is no base64.
pub record KeyPlatform (K : Type 0) : Type 0 where
  pub trim : List ℕ → List ℕ
  pub atob : List ℕ → Option (List ℕ)
  pub import_key : List ℕ → K
  pub derive_key_id : List ℕ → String

abbrev pub key_bytes : ℕ
key_bytes = 32

unfoldable pub from_url : ℕ → ℕ
from_url c = if eqb c 45 then 43 else if eqb c 95 then 47 else c

equals_signs : ℕ → List ℕ
equals_signs zero = []
equals_signs (suc n) = 61 ∷ equals_signs n

unfoldable pub padded : List ℕ → List ℕ
unfolding equals_signs
padded s = s ++ equals_signs (((length s + 3) / 4) * 4 - length s)

abbrev pub encryption_key_variable : String
encryption_key_variable = "OMNI_ENCRYPTION_KEY"

abbrev pub previous_encryption_key_variable : String
previous_encryption_key_variable = "OMNI_ENCRYPTION_KEY_PREVIOUS"

unfoldable pub find : {K : Type 0} → Keyring K → String → Option (MasterKey K)
find ring key_id = get key_id ring.by_id

is_blank : List ℕ → Bool
is_blank [] = true
is_blank (c ∷ s) = false

module _ {K : Type 0} (platform : KeyPlatform K) where
  decoded : String → Option (List ℕ) → Result String (List ℕ)
  decoded variable none =
      err (variable <> " is not valid base64. Generate one with: openssl rand -base64 32")
  decoded variable (some bytes) = ok bytes

  unfoldable pub decode_base64 : List ℕ → String → Result String (List ℕ)
  unfolding decoded padded from_url
  decode_base64 value variable =
      decoded variable (platform.atob (padded (map from_url (platform.trim value))))

  imported : String → List ℕ → Result String (MasterKey K)
  imported variable raw =
      if eqb (length raw) key_bytes
      then ok (record { id = platform.derive_key_id raw; key = platform.import_key raw })
      else err (
          variable
          <> " must decode to exactly 32 bytes (got "
          <> show (length raw)
          <> "). Generate one with: openssl rand -base64 32")

  unfoldable pub import_master_key : List ℕ → String → Result String (MasterKey K)
  unfolding decode_base64 imported
  import_master_key value variable = decode_base64 value variable >>= imported variable

  -- A key whose id is there already changes nothing.
  add_key : Keyring K → MasterKey K → Keyring K
  add_key ring master = if is_some (get master.id ring.by_id) then ring else record ring {
    by_id = set master.id master ring.by_id;
    order = ring.order ++ master.id ∷ [];
  }

  -- One value of `previous`.
  add_previous : List ℕ → Keyring K → Result String (Keyring K)
  unfolding add_key import_master_key is_blank
  add_previous value ring =
      if is_blank (platform.trim value)
      then ok ring
      else import_master_key value previous_encryption_key_variable >>= λ master.
          ok (add_key ring master)

  unfoldable pub add_all_previous : List (List ℕ) → Keyring K → Result String (Keyring K)
  unfolding add_previous
  add_all_previous [] ring = ok ring
  add_all_previous (value ∷ values) ring = add_previous value ring >>= add_all_previous values

  ring_of : MasterKey K → Keyring K
  ring_of master = record {
    active = master;
    by_id = (master.id, master) ∷ [];
    order = master.id ∷ [];
  }

  unfoldable pub create_keyring : List ℕ → List (List ℕ) → Result String (Keyring K)
  unfolding add_all_previous import_master_key ring_of
  create_keyring active previous = import_master_key active encryption_key_variable >>= λ master.
      add_all_previous previous (ring_of master)

-- The active key is found under its id.
abbrev IsUsable : {K : Type 0} → Keyring K → Type 0
IsUsable ring = find ring ring.active.id ≡ some ring.active

module _ {K : Type 0} (platform : KeyPlatform K) where
  add_key-IsUsable :
      (ring : Keyring K) (master : MasterKey K)
      → IsUsable ring
      → IsUsable (add_key platform ring master)
  unfolding add_key find
  add_key-IsUsable ring master usable = elim (Bool-cases (is_some (get master.id ring.by_id))) [
    | inl there ↦ rw there usable
    | inr fresh ↦ rw fresh (
        rw (get-set master.id ring.active.id master ring.by_id)
          (elim (Bool-cases (master.id == ring.active.id)) [
            | inl same ↦
                let here : master.id ≡ ring.active.id = (eq_iff master.id ring.active.id).0 same in
                let seen : is_some (get master.id ring.by_id) ≡ true = rw here (rw usable) in cc
            | inr other ↦ rw other usable
          ]))
  ]

  add_previous-IsUsable :
      (value : List ℕ) (ring out : Keyring K)
      → IsUsable ring
      → add_previous platform value ring ≡ ok out
      → IsUsable out
  unfolding add_previous
  add_previous-IsUsable value ring out usable added =
      elim (Bool-cases (is_blank (platform.trim value))) [
        | inl blank ↦ subst IsUsable (ok-injective (rw blank at added)) usable
        | inr key ↦
            let (master, first, rest) =
              >>=-eq-ok (import_master_key platform value previous_encryption_key_variable)
                (λ master. ok (add_key platform ring master)) (rw key at added) in
            subst IsUsable (ok-injective rest) (add_key-IsUsable ring master usable)
      ]

  add_all_previous-IsUsable :
      (values : List (List ℕ)) (ring out : Keyring K)
      → IsUsable ring
      → add_all_previous platform values ring ≡ ok out
      → IsUsable out
  unfolding add_all_previous
  add_all_previous-IsUsable [] ring out usable added = subst IsUsable (ok-injective added) usable
  add_all_previous-IsUsable (value ∷ values) ring out usable added =
      let (next, first, rest) =
        >>=-eq-ok (add_previous platform value ring) (add_all_previous platform values) added in
      add_all_previous-IsUsable values next out (add_previous-IsUsable value ring next usable first)
        rest

  ring_of-IsUsable : (master : MasterKey K) → IsUsable (ring_of platform master)
  unfolding ring_of find get
  ring_of-IsUsable master = rw (eq_refl master.id)

  -- A keyring that is created finds its active key.
  pub create_keyring-IsUsable :
      (active : List ℕ) (previous : List (List ℕ)) (ring : Keyring K)
      → create_keyring platform active previous ≡ ok ring
      → find ring ring.active.id ≡ some ring.active
  unfolding create_keyring find
  create_keyring-IsUsable active previous ring created =
      let (master, first, rest) =
        >>=-eq-ok (import_master_key platform active encryption_key_variable)
          (λ master. add_all_previous platform previous (ring_of platform master)) created in
      add_all_previous-IsUsable previous (ring_of platform master) ring (ring_of-IsUsable master)
        rest
