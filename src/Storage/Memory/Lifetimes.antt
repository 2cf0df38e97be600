-- ===== src/Storage/Memory/Lifetimes.antt =====
-- How long the entries of packages/core/src/storage/memory.ts last while counters are read and written.
use omni_model.Prelude.{
  ℕ, ◌+◌, ◌*◌, ◌≤◌, ◌<◌, String, ◌≡◌, refl, sym, ap, ◌∙◌, subst, inl, inr, true, false, Option,
  none, some, arith, Bool-cases, Option-cases, if◌then◌else◌, ◌==◌, eq_iff,
}
use omni_model.Prelude.Int.{ℤ}
use omni_model.Prelude.Dict.{get, get-set, get-delete}
use omni_model.Storage.Memory.{Entry, Memory, expired, increment, get_counter, add_to}
use omni_model.Storage.Memory.Laws.{counter_of, live_number, at}

-- An entry, if there is one, is there until the time.
abbrev pub LastsTo : ℕ → Option Entry → Type 0
LastsTo end none = Unit
LastsTo end (some e) = elim e.expires_at [ none ↦ Unit | some t ↦ end ≤ t ]

LastsTo-alive : (end now : ℕ) (e : Entry) → LastsTo end (some e) → now < end → expired e now ≡ false
unfolding expired
LastsTo-alive end now e lasts early = elim (Option-cases e.expires_at) [
  | inl ever ↦ rw ever refl
  | inr (t, until) ↦ rw until (ground (arith, rw until at lasts))
]

module _ (end : ℕ) (k j : String) (m : Memory) where
  -- With the key's entry gone, the other entries last as they did.
  deleted-LastsTo : (o : Option Entry) → LastsTo end o → LastsTo end (if k == j then none else o)
  deleted-LastsTo o lasts = elim (Bool-cases (k == j)) [
    | inl same ↦ rw same tt
    | inr apart ↦ rw apart lasts
  ]

  pub get_counter-LastsTo :
      LastsTo end (get j m.entries) → LastsTo end (get j (get_counter k m).1.entries)
  unfolding get_counter
  get_counter-LastsTo lasts = elim (Option-cases (get k m.entries)) [
    | inl missing ↦ rw missing lasts
    | inr (e, found) ↦ rw found (elim (Bool-cases (expired e m.clock)) [
      | inr alive ↦ rw alive lasts
      | inl dead ↦ rw dead (rw (get-delete k j m.entries) (deleted-LastsTo (get j m.entries) lasts))
    ])
  ]

  put-LastsTo :
      (new : Entry) (o : Option Entry)
      → LastsTo end o
      → ((k == j) ≡ true → LastsTo end (some new))
      → LastsTo end (if k == j then some new else o)
  put-LastsTo new o lasts fresh = elim (Bool-cases (k == j)) [
    | inl same ↦ rw same (fresh same)
    | inr apart ↦ rw apart lasts
  ]

  found-LastsTo :
      (e : Entry)
      → get k m.entries ≡ some e
      → LastsTo end (get j m.entries)
      → (k == j) ≡ true
      → LastsTo end (some e)
  found-LastsTo e found lasts same =
      let key : k ≡ j = (eq_iff k j).0 same in
      subst (λ (o : Option Entry). LastsTo end o)
        (ap (λ (x : String). get x m.entries) (sym key) ∙ found) lasts

  -- An entry that is made by an increment lasts for its lifetime; an older one keeps its own.
  pub increment-LastsTo :
      (n : ℤ) (ttl : ℕ)
      → LastsTo end (get j m.entries)
      → ((k == j) ≡ true → end ≤ m.clock + ttl * 1000)
      → LastsTo end (get j (increment k n ttl m).1.entries)
  unfolding increment add_to
  increment-LastsTo n ttl lasts fresh = elim (Option-cases (get k m.entries)) [
    | inl missing ↦ rw missing (rw get-set (put-LastsTo _ (get j m.entries) lasts fresh))
    | inr (e, found) ↦ rw found (elim (Bool-cases (expired e m.clock)) [
      | inl dead ↦ rw dead (
          rw get-set (
            rw (get-delete k j m.entries)
              (put-LastsTo _ _ (deleted-LastsTo (get j m.entries) lasts) fresh)))
      | inr alive ↦
          rw alive
            (rw get-set (put-LastsTo _ (get j m.entries) lasts (found-LastsTo e found lasts)))
    ])
  ]

module _ (k j : String) (m : Memory) (apart : (k == j) ≡ false) where
  -- The entries of other keys are not touched.
  pub get-get_counter : get j (get_counter k m).1.entries ≡ get j m.entries
  unfolding get_counter
  get-get_counter = elim (Option-cases (get k m.entries)) [
    | inl missing ↦ rw missing refl
    | inr (e, found) ↦ rw found (elim (Bool-cases (expired e m.clock)) [
      | inr alive ↦ rw alive refl
      | inl dead ↦ rw dead (rw (get-delete k j m.entries) (rw apart refl))
    ])
  ]

  pub get-increment : (n : ℤ) (ttl : ℕ) → get j (increment k n ttl m).1.entries ≡ get j m.entries
  unfolding increment add_to
  get-increment n ttl = elim (Option-cases (get k m.entries)) [
    | inl missing ↦ rw missing (rw get-set (rw apart refl))
    | inr (e, found) ↦ rw found (elim (Bool-cases (expired e m.clock)) [
      | inr alive ↦ rw alive (rw get-set (rw apart refl))
      | inl dead ↦ rw dead (rw get-set (rw apart (rw (get-delete k j m.entries) (rw apart refl))))
    ])
  ]

pub clock-get_counter : (k : String) (m : Memory) → (get_counter k m).1.clock ≡ m.clock
unfolding get_counter
clock-get_counter k m = ground arith

-- The number of a key is that of its entry.
pub counter_of-same :
    (t : ℕ) (k : String) (m m' : Memory)
    → get k m'.entries ≡ get k m.entries
    → counter_of (at t m') k ≡ counter_of (at t m) k
unfolding counter_of
counter_of-same t k m m' same = rw same refl

pub clock-increment :
    (k : String) (n : ℤ) (ttl : ℕ) (m : Memory) → (increment k n ttl m).1.clock ≡ m.clock
unfolding increment add_to
clock-increment k n ttl m = ground arith

-- While an entry lasts, its number does not depend on the time.
pub counter_of-later :
    (end later : ℕ) (k : String) (m : Memory)
    → LastsTo end (get k m.entries)
    → m.clock < end
    → later < end
    → counter_of (at later m) k ≡ counter_of m k
unfolding counter_of live_number
counter_of-later end later k m lasts early late = elim (Option-cases (get k m.entries)) [
  | inl missing ↦ rw missing refl
  | inr (e, found) ↦
      let there : LastsTo end (some e) = rw found at lasts in
      rw found (
        rw (LastsTo-alive end later e there late)
          (rw (LastsTo-alive end m.clock e there early) refl))
]
