-- ===== src/Prelude/Dict.antt =====
-- JavaScript's `Map` with text keys: an association list in insertion order. `set` of a key that is
-- present keeps its place; of a new key it goes to the end; `delete` drops the entry.
use Prim.Native.Nat.{ℕ, ◌+◌, ◌≤◌}
use Prim.Native.String.{String}
use mathlib.Core.Path.{◌≡◌, refl}
use mathlib.Core.Bool.{false}
use mathlib.Core.Option.{Option, none, some}
use mathlib.Core.List.{List, [], ◌∷◌}
use native.Mathlib.Omega.{arith}
use text.Mathlib.Text.{◌==◌}
use text.Mathlib.TextEquality.{eq_iff}
use omni_model.Prelude.Tests.{if◌then◌else◌}
use omni_model.Prelude.Lists.{length}

abbrev pub Dict {ℓ} : Type ℓ → Type ℓ
Dict V = List (String × V)

module _ {ℓ} {V : Type ℓ} where
  unfoldable pub get : String → Dict V → Option V
  get k [] = none
  get k ((j, v) ∷ m) = if j == k then some v else get k m

  unfoldable pub set : String → V → Dict V → Dict V
  set k v [] = (k, v) ∷ []
  set k v ((j, w) ∷ m) = let rest = set k v m in if j == k then (j, v) ∷ m else (j, w) ∷ rest

  unfoldable pub delete : String → Dict V → Dict V
  delete k [] = []
  delete k ((j, w) ∷ m) = let rest = delete k m in if j == k then rest else (j, w) ∷ rest

  abbrev pub size : Dict V → ℕ
  size m = length m

  pub get-set :
      (k j : String) (v : V) (m : Dict V) → get j (set k v m) ≡ (if k == j then some v else get j m)
  unfolding get set
  get-set k j v [] = refl
  get-set k j v ((i, w) ∷ m) = ground (arith, eq_iff k j, eq_iff i k, eq_iff i j, get-set k j v m)

  pub get-delete :
      (k j : String) (m : Dict V) → get j (delete k m) ≡ (if k == j then none else get j m)
  unfolding get delete
  get-delete k j [] = ground arith
  get-delete k j ((i, w) ∷ m) = ground (arith, eq_iff k j, eq_iff i k, eq_iff i j, get-delete k j m)

  -- No entry of the map has the key.
  abbrev pub Fresh : String → Dict V → Type 0
  Fresh k [] = Unit
  Fresh k ((j, v) ∷ m) = ((j == k) ≡ false) × Fresh k m

  -- A map holds each key once.
  abbrev pub UniqueKeys : Dict V → Type 0
  UniqueKeys [] = Unit
  UniqueKeys ((j, v) ∷ m) = Fresh j m × UniqueKeys m

  pub Fresh-set :
      (k j : String) (v : V) (m : Dict V) → (k == j) ≡ false → Fresh j m → Fresh j (set k v m)
  unfolding set
  Fresh-set k j v [] h f = (h, tt)
  Fresh-set k j v ((i, w) ∷ m) h f = ground (arith, Fresh-set k j v m h)

  pub UniqueKeys-set : (k : String) (v : V) (m : Dict V) → UniqueKeys m → UniqueKeys (set k v m)
  unfolding set
  UniqueKeys-set k v [] u = (tt, tt)
  UniqueKeys-set k v ((i, w) ∷ m) u =
      ground (arith, eq_iff i k, eq_iff k i, UniqueKeys-set k v m, Fresh-set k i v m)

  pub Fresh-delete : (k j : String) (m : Dict V) → Fresh j m → Fresh j (delete k m)
  unfolding delete
  Fresh-delete k j [] f = tt
  Fresh-delete k j ((i, w) ∷ m) f = ground (arith, Fresh-delete k j m)

  pub Fresh-delete_self : (k : String) (m : Dict V) → Fresh k (delete k m)
  unfolding delete
  Fresh-delete_self k [] = tt
  Fresh-delete_self k ((i, w) ∷ m) = ground (arith, Fresh-delete_self k m)

  pub UniqueKeys-delete : (k : String) (m : Dict V) → UniqueKeys m → UniqueKeys (delete k m)
  unfolding delete
  UniqueKeys-delete k [] u = tt
  UniqueKeys-delete k ((i, w) ∷ m) u = ground (arith, UniqueKeys-delete k m, Fresh-delete k i m)

  pub size-delete-le : (k : String) (m : Dict V) → size (delete k m) ≤ size m
  unfolding delete
  size-delete-le k [] = omega arith
  size-delete-le k ((i, w) ∷ m) = ground (arith, size-delete-le k m)

  pub size-set-le : (k : String) (v : V) (m : Dict V) → size (set k v m) ≤ size m + 1
  unfolding set
  size-set-le k v [] = omega arith
  size-set-le k v ((i, w) ∷ m) = ground (arith, size-set-le k v m)

pub ruleset dict_laws = (get-set, get-delete)
