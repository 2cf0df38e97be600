-- ===== src/WriteKeys/Cached/Eviction.antt =====
-- What a revocation does to the cache of packages/core/src/writekeys/cache.ts, with lookups that are
-- under way.
use omni_model.Prelude.{
  ℕ, ◌+◌, ◌<◌, String, ◌≡◌, refl, Bool, true, false, Option, none, some, List, [], ◌∷◌, ltb, leb,
  Bool-cases, inl, inr, ◌⊎◌, ◌==◌, is_some, arith, All, eq_refl,
}
use omni_model.Prelude.Dict.{Dict, get, set, delete, get-set, size}
use omni_model.WriteKeys.{WriteKey}
use omni_model.WriteKeys.Cached.{
  CacheEntry, CachedWriteKeyStore, drop_expired, drop_oldest, make_room, remember, look_up,
  authenticate, finish_lookup, begin_lookup, hit_or_miss, has_id, evict_by_id, revoked, clear,
}

-- What is found is no key with the id, or a revoked one.
abbrev pub IsRevoked : String → Option WriteKey → Type 0
IsRevoked id none = Unit
IsRevoked id (some key) = ((key.id == id) ≡ false) ⊎ (is_some key.disabled_at ≡ true)

-- The answer that the cache gives on its own, if it gives one.
abbrev pub AnswersRevoked : String → Option (Option WriteKey) → Type 0
AnswersRevoked id none = Unit
AnswersRevoked id (some value) = IsRevoked id value

-- One step of the cache between two awaits.
pub data CacheStep : Type 0 where
  -- a lookup of a hash begins
  asked : String → ℕ → CacheStep
  -- the store's answer to a lookup that missed arrives; the time is that of the lookup's start
  arrived : String → Option WriteKey → ℕ → CacheStep
  -- a key is created, or revoked, or the cache is emptied
  made : String → WriteKey → ℕ → CacheStep
  disabled : String → Bool → CacheStep
  emptied : CacheStep

abbrev pub take_step : CacheStep → CachedWriteKeyStore → CachedWriteKeyStore
take_step (asked hash now) store = (begin_lookup hash now store).1
take_step (arrived hash found now) store = (finish_lookup hash found now (none, store)).1
take_step (made hash key now) store = remember hash (some key) now store
take_step (disabled id moved) store = revoked id moved store
take_step emptied store = clear store

abbrev pub take_steps : List CacheStep → CachedWriteKeyStore → CachedWriteKeyStore
take_steps [] store = store
take_steps (step ∷ steps) store = take_steps steps (take_step step store)

-- What comes to the cache from the store is no key with the id that is still good.
abbrev pub BringsRevoked : String → CacheStep → Type 0
BringsRevoked id (arrived hash found now) = IsRevoked id found
BringsRevoked id (made hash key now) = IsRevoked id (some key)
BringsRevoked id step = Unit

module _ (id : String) where
  abbrev HoldsRevoked : Dict CacheEntry → Type 0
  HoldsRevoked entries = All (λ he. IsRevoked id he.1.value) entries

  other_id-IsRevoked : (value : Option WriteKey) → has_id id value ≡ false → IsRevoked id value
  unfolding has_id
  other_id-IsRevoked none stays = tt
  other_id-IsRevoked (some key) stays = inl stays

  evict_by_id-HoldsRevoked : (entries : Dict CacheEntry) → HoldsRevoked (evict_by_id id entries)
  unfolding evict_by_id has_id
  evict_by_id-HoldsRevoked [] = tt
  evict_by_id-HoldsRevoked ((h, e) ∷ entries) = elim (Bool-cases (has_id id e.value)) [
    | inl gone ↦ rw gone (evict_by_id-HoldsRevoked entries)
    | inr stays ↦ rw stays (other_id-IsRevoked e.value stays, evict_by_id-HoldsRevoked entries)
  ]

  keep-HoldsRevoked :
      (other : String) (entries : Dict CacheEntry)
      → HoldsRevoked entries
      → HoldsRevoked (evict_by_id other entries)
  unfolding evict_by_id
  keep-HoldsRevoked other [] holds = tt
  keep-HoldsRevoked other ((h, e) ∷ entries) (here, later) =
      elim (Bool-cases (has_id other e.value)) [
        | inl gone ↦ rw gone (keep-HoldsRevoked other entries later)
        | inr stays ↦ rw stays (here, keep-HoldsRevoked other entries later)
      ]

  drop_expired-HoldsRevoked :
      (now : ℕ) (entries : Dict CacheEntry)
      → HoldsRevoked entries
      → HoldsRevoked (drop_expired now entries)
  unfolding drop_expired
  drop_expired-HoldsRevoked now [] holds = tt
  drop_expired-HoldsRevoked now ((h, e) ∷ entries) (here, later) =
      elim (Bool-cases (leb e.expires_at now)) [
        | inl over ↦ rw over (drop_expired-HoldsRevoked now entries later)
        | inr alive ↦ rw alive (here, drop_expired-HoldsRevoked now entries later)
      ]

  delete-HoldsRevoked :
      (h : String) (entries : Dict CacheEntry)
      → HoldsRevoked entries
      → HoldsRevoked (delete h entries)
  unfolding delete
  delete-HoldsRevoked h [] holds = tt
  delete-HoldsRevoked h ((j, e) ∷ entries) (here, later) = elim (Bool-cases (j == h)) [
    | inl same ↦ rw same (delete-HoldsRevoked h entries later)
    | inr apart ↦ rw apart (here, delete-HoldsRevoked h entries later)
  ]

  set-HoldsRevoked :
      (h : String) (e : CacheEntry) (entries : Dict CacheEntry)
      → IsRevoked id e.value
      → HoldsRevoked entries
      → HoldsRevoked (set h e entries)
  unfolding set
  set-HoldsRevoked h e [] new holds = (new, tt)
  set-HoldsRevoked h e ((j, f) ∷ entries) new (here, later) = elim (Bool-cases (j == h)) [
    | inl same ↦ rw same (new, later)
    | inr apart ↦ rw apart (here, set-HoldsRevoked h e entries new later)
  ]

  drop_oldest-HoldsRevoked :
      (entries : Dict CacheEntry) → HoldsRevoked entries → HoldsRevoked (drop_oldest entries)
  unfolding drop_oldest
  drop_oldest-HoldsRevoked [] holds = tt
  drop_oldest-HoldsRevoked ((h, e) ∷ entries) holds = delete-HoldsRevoked h ((h, e) ∷ entries) holds

  make_room-HoldsRevoked :
      (max_entries now : ℕ) (entries : Dict CacheEntry)
      → HoldsRevoked entries
      → HoldsRevoked (make_room max_entries now entries)
  unfolding make_room
  make_room-HoldsRevoked max_entries now entries holds =
      let fresh = drop_expired-HoldsRevoked now entries holds in
      elim (Bool-cases (leb max_entries (size entries))) [
        | inr room ↦ rw room holds
        | inl full ↦
            rw full (elim (Bool-cases (leb max_entries (size (drop_expired now entries)))) [
              | inl still ↦ rw still (drop_oldest-HoldsRevoked (drop_expired now entries) fresh)
              | inr enough ↦ rw enough fresh
            ])
      ]

  remember-HoldsRevoked :
      (hash : String) (found : Option WriteKey) (now : ℕ) (store : CachedWriteKeyStore)
      → IsRevoked id found
      → HoldsRevoked store.entries
      → HoldsRevoked (remember hash found now store).entries
  unfolding remember
  remember-HoldsRevoked hash found now store new holds =
      set-HoldsRevoked hash _ (make_room store.max_entries now store.entries) new
        (make_room-HoldsRevoked store.max_entries now store.entries holds)

  entries-hit_or_miss :
      (now : ℕ) (store : CachedWriteKeyStore) (o : Option CacheEntry)
      → (hit_or_miss now store o).1.entries ≡ store.entries
  unfolding hit_or_miss
  entries-hit_or_miss now store none = refl
  entries-hit_or_miss now store (some e) = ground arith

  revoked-HoldsRevoked :
      (other : String) (moved : Bool) (store : CachedWriteKeyStore)
      → HoldsRevoked store.entries
      → HoldsRevoked (revoked other moved store).entries
  unfolding revoked
  revoked-HoldsRevoked other true store holds = keep-HoldsRevoked other store.entries holds
  revoked-HoldsRevoked other false store holds = holds

  take_step-HoldsRevoked :
      (step : CacheStep) (store : CachedWriteKeyStore)
      → BringsRevoked id step
      → HoldsRevoked store.entries
      → HoldsRevoked (take_step step store).entries
  unfolding begin_lookup finish_lookup clear
  take_step-HoldsRevoked (asked hash now) store brings holds =
      rw (entries-hit_or_miss now store (get hash store.entries)) holds
  take_step-HoldsRevoked (arrived hash found now) store brings holds =
      remember-HoldsRevoked hash found now store brings holds
  take_step-HoldsRevoked (made hash key now) store brings holds =
      remember-HoldsRevoked hash (some key) now store brings holds
  take_step-HoldsRevoked (disabled other moved) store brings holds =
      revoked-HoldsRevoked other moved store holds
  take_step-HoldsRevoked emptied store brings holds = tt

  take_steps-HoldsRevoked :
      (steps : List CacheStep) (store : CachedWriteKeyStore)
      → All (BringsRevoked id) steps
      → HoldsRevoked store.entries
      → HoldsRevoked (take_steps steps store).entries
  take_steps-HoldsRevoked [] store brings holds = holds
  take_steps-HoldsRevoked (step ∷ steps) store (first, later) holds =
      take_steps-HoldsRevoked steps (take_step step store) later
        (take_step-HoldsRevoked step store first holds)

  get-HoldsRevoked :
      (hash : String) (now : ℕ) (store : CachedWriteKeyStore) (entries : Dict CacheEntry)
      → HoldsRevoked entries
      → AnswersRevoked id (hit_or_miss now store (get hash entries)).0
  unfolding get hit_or_miss
  get-HoldsRevoked hash now store [] holds = tt
  get-HoldsRevoked hash now store ((h, e) ∷ entries) (here, later) = elim (Bool-cases (h == hash)) [
    | inr apart ↦ rw apart (get-HoldsRevoked hash now store entries later)
    | inl same ↦ rw same (elim (Bool-cases (ltb now e.expires_at)) [
      | inl alive ↦ rw alive here
      | inr over ↦ rw over tt
    ])
  ]

-- Once a key is revoked here, the cache never again answers with it as a good key, whatever lookups,
-- creations, revocations and clearings follow and however lookups overlap, as long as no answer of the
-- store behind brings the key as a good one.
pub revoked-answers :
    (id hash : String) (now : ℕ) (steps : List CacheStep) (store : CachedWriteKeyStore)
    → All (BringsRevoked id) steps
    → AnswersRevoked id (begin_lookup hash now (take_steps steps (revoked id true store))).0
unfolding begin_lookup revoked
revoked-answers id hash now steps store brings =
    get-HoldsRevoked id hash now (take_steps steps (revoked id true store))
      (take_steps steps (revoked id true store)).entries
      (take_steps-HoldsRevoked id steps (revoked id true store) brings
        (evict_by_id-HoldsRevoked id store.entries))

look_up-finish_lookup :
    (hash : String) (found : Option WriteKey) (now : ℕ) (store : CachedWriteKeyStore)
    (o : Option CacheEntry)
    → look_up hash found now store o ≡ finish_lookup hash found now (hit_or_miss now store o)
unfolding look_up finish_lookup hit_or_miss
look_up-finish_lookup hash found now store none = refl
look_up-finish_lookup hash found now store (some e) = elim (Bool-cases (ltb now e.expires_at)) [
  | inl alive ↦ rw alive
  | inr over ↦ rw over
]

-- The two parts of a lookup, with nothing between them, are `authenticate`.
authenticate-finish_lookup :
    (hash : String → String) (inner : String → Option WriteKey) (now : ℕ) (secret : String)
    (store : CachedWriteKeyStore)
    → authenticate hash inner now secret store
      ≡ finish_lookup (hash secret) (inner secret) now (begin_lookup (hash secret) now store)
unfolding authenticate begin_lookup
authenticate-finish_lookup hash inner now secret store =
    look_up-finish_lookup (hash secret) (inner secret) now store (get (hash secret) store.entries)

-- A lookup that the store behind answered before the revocation, and that goes on after it, puts the
-- key back as it was: until the cache's time has passed since that lookup began, it is answered again.
pub late_answer_readmits :
    (hash : String) (key : WriteKey) (began later : ℕ) (store : CachedWriteKeyStore)
    → later < began + store.ttl_ms
    → (begin_lookup hash later
        (take_steps (disabled key.id true ∷ arrived hash (some key) began ∷ []) store)).0
      ≡ some (some key)
unfolding begin_lookup finish_lookup hit_or_miss remember revoked
late_answer_readmits hash key began later store soon =
    rw get-set (rw eq_refl (ground (arith, soon)))
