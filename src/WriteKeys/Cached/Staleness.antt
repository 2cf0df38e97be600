-- ===== src/WriteKeys/Cached/Staleness.antt =====
-- How old an answer of the cache can be.
use omni_model.Prelude.{
  ℕ, ◌+◌, ◌≤◌, ◌<◌, suc, String, ◌≡◌, refl, sym, subst, ◌∙◌, Bool, true, false, Option, none, some,
  List, [], ◌∷◌, arith, if◌then◌else◌, leb, ltb, ltb→lt, Bool-cases, inl, inr, ◌⊎◌, ◌==◌, eq_iff,
  All,
}
use omni_model.Prelude.Dict.{Dict, get, set, delete, size}
use omni_model.WriteKeys.{WriteKey}
use omni_model.WriteKeys.Cached.{
  CacheEntry, CachedWriteKeyStore, drop_expired, drop_oldest, make_room, remember, look_up,
  authenticate,
}

eq_to : (a b : String) → (a == b) ≡ true → a ≡ b
eq_to a b same = ground (arith, eq_iff a b, same)

module _ (hash : String → String) (truth : ℕ → String → Option WriteKey) where
  -- The entry is what the store behind answered at a time that is past, for every secret with the
  -- hash.
  pub record IsCoherent (ttl now : ℕ) (h : String) (e : CacheEntry) : Type 0 where
    pub asked : ℕ
    pub past : asked ≤ now
    pub ends : e.expires_at ≡ asked + ttl
    pub true_then : (secret : String) → hash secret ≡ h → e.value ≡ truth asked secret

  abbrev pub Coherent : ℕ → ℕ → Dict CacheEntry → Type 0
  Coherent ttl now entries = All (λ he. IsCoherent ttl now he.0 he.1) entries

  -- The answer is what the store behind gave within the last `ttl` milliseconds, or gives now.
  abbrev pub IsRecent : ℕ → ℕ → String → Option WriteKey → Type 0
  IsRecent ttl now secret answer =
      (asked : ℕ) × (asked ≤ now)
      × ((asked ≡ now) ⊎ (now < asked + ttl))
      × (answer ≡ truth asked secret)

  Coherent-later :
      (ttl now wait : ℕ) (entries : Dict CacheEntry)
      → Coherent ttl now entries
      → Coherent ttl (now + wait) entries
  Coherent-later ttl now wait [] c = tt
  Coherent-later ttl now wait ((h, e) ∷ entries) (c, cs) = (
    record {
      asked = c.asked;
      past = omega (arith, c.past);
      ends = c.ends;
      true_then = c.true_then;
    },
    Coherent-later ttl now wait entries cs,
  )

  module _ (ttl now : ℕ) where
    Coherent-delete :
        (h : String) (entries : Dict CacheEntry)
        → Coherent ttl now entries
        → Coherent ttl now (delete h entries)
    unfolding delete
    Coherent-delete h [] c = tt
    Coherent-delete h ((j, e) ∷ entries) (c, cs) = elim (Bool-cases (j == h)) [
      | inl same ↦ rw same (Coherent-delete h entries cs)
      | inr other ↦ rw other (c, Coherent-delete h entries cs)
    ]

    Coherent-drop_expired :
        (entries : Dict CacheEntry)
        → Coherent ttl now entries
        → Coherent ttl now (drop_expired now entries)
    unfolding drop_expired
    Coherent-drop_expired [] c = tt
    Coherent-drop_expired ((h, e) ∷ entries) (c, cs) = elim (Bool-cases (leb e.expires_at now)) [
      | inl over ↦ rw over (Coherent-drop_expired entries cs)
      | inr alive ↦ rw alive (c, Coherent-drop_expired entries cs)
    ]

    Coherent-drop_oldest :
        (entries : Dict CacheEntry)
        → Coherent ttl now entries
        → Coherent ttl now (drop_oldest entries)
    unfolding drop_oldest
    Coherent-drop_oldest [] c = tt
    Coherent-drop_oldest ((h, e) ∷ entries) c = Coherent-delete h ((h, e) ∷ entries) c

    Coherent-if :
        (b : Bool) (first second : Dict CacheEntry)
        → Coherent ttl now first
        → Coherent ttl now second
        → Coherent ttl now (if b then first else second)
    Coherent-if true first second c d = c
    Coherent-if false first second c d = d

    Coherent-make_room :
        (max_entries : ℕ) (entries : Dict CacheEntry)
        → Coherent ttl now entries
        → Coherent ttl now (make_room max_entries now entries)
    unfolding make_room
    Coherent-make_room max_entries entries c =
        let d = Coherent-drop_expired entries c in
        let fresh = drop_expired now entries in
        Coherent-if (leb max_entries (size entries))
          (if leb max_entries (size fresh) then drop_oldest fresh else fresh) entries
          (Coherent-if (leb max_entries (size fresh)) (drop_oldest fresh) fresh
            (Coherent-drop_oldest fresh d) d)
          c

    Coherent-set :
        (h : String) (e : CacheEntry) (entries : Dict CacheEntry)
        → IsCoherent ttl now h e
        → Coherent ttl now entries
        → Coherent ttl now (set h e entries)
    unfolding set
    Coherent-set h e [] new c = (new, tt)
    Coherent-set h e ((j, w) ∷ entries) new (c, cs) = elim (Bool-cases (j == h)) [
      | inl same ↦ rw same (subst (λ k. IsCoherent ttl now k e) (sym (eq_to j h same)) new, cs)
      | inr other ↦ rw other (c, Coherent-set h e entries new cs)
    ]

    abbrev Found : String → Option CacheEntry → Type 0
    Found h none = Unit
    Found h (some e) = IsCoherent ttl now h e

    Found-get :
        (h : String) (entries : Dict CacheEntry)
        → Coherent ttl now entries
        → Found h (get h entries)
    unfolding get
    Found-get h [] c = tt
    Found-get h ((j, w) ∷ entries) (c, cs) = elim (Bool-cases (j == h)) [
      | inl same ↦ rw same (subst (λ k. IsCoherent ttl now k w) (eq_to j h same) c)
      | inr other ↦ rw other (Found-get h entries cs)
    ]

  -- The store behind looks a secret up by its hash.
  abbrev pub LooksUpByHash : Type 0
  LooksUpByHash = (at : ℕ) (a b : String) → hash a ≡ hash b → truth at a ≡ truth at b

  module _ (by_hash : LooksUpByHash) (now : ℕ) (secret : String) where
    abbrev Answered : CachedWriteKeyStore → Option WriteKey × CachedWriteKeyStore → Type 0
    Answered before (answer, after) =
        IsRecent before.ttl_ms now secret answer
        × (after.ttl_ms ≡ before.ttl_ms)
        × Coherent before.ttl_ms now after.entries

    asked_now :
        (store : CachedWriteKeyStore)
        → Coherent store.ttl_ms now store.entries
        → Answered store (
          truth now secret,
          remember
              (hash secret)
              (truth now secret)
              now
              (record store { misses = suc store.misses }),
        )
    unfolding remember
    asked_now store c = (
      (now, omega arith, inl refl, refl),
      refl,
      Coherent-set store.ttl_ms now (hash secret)
          (record { value = truth now secret; expires_at = now + store.ttl_ms })
          (make_room store.max_entries now store.entries)
          (record {
            asked = now;
            past = omega arith;
            ends = refl;
            true_then = λ other same. by_hash now secret other (sym same);
          })
          (Coherent-make_room store.ttl_ms now store.max_entries store.entries c),
    )

    look_up-Answered :
        (store : CachedWriteKeyStore) (o : Option CacheEntry)
        → Coherent store.ttl_ms now store.entries
        → Found store.ttl_ms now (hash secret) o
        → Answered store (look_up (hash secret) (truth now secret) now store o)
    unfolding look_up
    look_up-Answered store none c f = asked_now store c
    look_up-Answered store (some e) c f = elim (Bool-cases (ltb now e.expires_at)) [
      | inl alive ↦ rw alive (
        (
          f.asked,
          f.past,
          inr (omega (arith, f.ends, ltb→lt now e.expires_at alive)),
          f.true_then secret refl,
        ),
        refl,
        c,
      )
      | inr over ↦ rw over (asked_now store c)
    ]

    authenticate-Answered :
        (store : CachedWriteKeyStore)
        → Coherent store.ttl_ms now store.entries
        → Answered store (authenticate hash (truth now) now secret store)
    unfolding authenticate
    authenticate-Answered store c =
        look_up-Answered store (get (hash secret) store.entries) c
          (Found-get store.ttl_ms now (hash secret) store.entries c)

  -- Every answer of a run is recent: each request waits, then presents a secret.
  abbrev pub AllRecent : ℕ → ℕ → CachedWriteKeyStore → List (ℕ × String) → Type 0
  AllRecent ttl now store [] = Unit
  AllRecent ttl now store ((wait, secret) ∷ later) =
      let answered = authenticate hash (truth (now + wait)) (now + wait) secret store in
      IsRecent ttl (now + wait) secret answered.0 × AllRecent ttl (now + wait) answered.1 later

  AllRecent-Coherent :
      LooksUpByHash
      → (ttl now : ℕ) (store : CachedWriteKeyStore) (requests : List (ℕ × String))
      → store.ttl_ms ≡ ttl
      → Coherent ttl now store.entries
      → AllRecent ttl now store requests
  AllRecent-Coherent by_hash ttl now store [] same c = tt
  AllRecent-Coherent by_hash ttl now store ((wait, secret) ∷ later) same c =
      let at = now + wait in
      let (recent, kept, coherent) = authenticate-Answered by_hash at secret store (
        Coherent-later store.ttl_ms now wait store.entries
          (subst (λ t. Coherent t now store.entries) (sym same) c)) in
      (
        subst (λ t. IsRecent t at secret (authenticate hash (truth at) at secret store).0) same
            recent,
        AllRecent-Coherent by_hash ttl at (authenticate hash (truth at) at secret store).1 later
            (kept ∙ same)
            (subst (λ t. Coherent t at (authenticate hash (truth at) at secret store).1.entries)
              same coherent),
      )

-- Whatever is presented and whenever, each answer of a cache that starts empty is what the store
-- behind answered for that secret less than `ttl` milliseconds ago, or answers now, when that store
-- looks secrets up by their hash.
pub authenticate_recent :
    (hash : String → String) (truth : ℕ → String → Option WriteKey) (ttl max_entries start : ℕ)
    (requests : List (ℕ × String))
    → LooksUpByHash hash truth
    → AllRecent hash truth ttl start
        (record { ttl_ms = ttl; max_entries = max_entries; entries = []; hits = 0; misses = 0 })
        requests
authenticate_recent hash truth ttl max_entries start requests by_hash =
    AllRecent-Coherent hash truth by_hash ttl start _ requests refl tt
