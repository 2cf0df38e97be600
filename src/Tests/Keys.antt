-- ===== src/Tests/Keys.antt =====
-- The cache of write keys over a store that revokes its one key at a time.
use omni_model.Prelude.{
  ℕ, String, true, Option, none, some, List, [], ◌∷◌, ◌≡◌, refl, inr, arith, if◌then◌else◌, ltb,
  ◌==◌, ap,
}
use omni_model.WriteKeys.{WriteKey}
use omni_model.WriteKeys.Cached.{CachedWriteKeyStore, authenticate, begin_lookup, created, revoked}
use omni_model.WriteKeys.Cached.Bound.{WithinBound, authenticate-WithinBound}
use omni_model.WriteKeys.Cached.Staleness.{AllRecent, authenticate_recent, LooksUpByHash}
use omni_model.WriteKeys.Cached.Eviction.{
  AnswersRevoked, CacheStep, asked, arrived, disabled, take_steps, revoked-answers,
  late_answer_readmits,
}

abbrev app_key : WriteKey
app_key = record {
  id = "1";
  name = "app";
  prefix = "omk_";
  last4 = "abcd";
  allowed_models = none;
  capture_content = none;
  metadata = "{}";
  created_by = none;
  created_at = 0;
  expires_at = none;
  disabled_at = none;
}

abbrev digest : String → String
digest s = s

-- The key is there until 5 s.
abbrev store_at : ℕ → String → Option WriteKey
store_at now secret =
    if ltb now 5000 then (if secret == "omk_1" then some app_key else none) else none

abbrev empty_cache : CachedWriteKeyStore
empty_cache = record { ttl_ms = 10000; max_entries = 1; entries = []; hits = 0; misses = 0 }

authenticate-WithinBound_example :
    WithinBound (authenticate digest (store_at 0) 0 "omk_1" empty_cache).1
    × WithinBound (created digest 0 "omk_1" app_key empty_cache)
authenticate-WithinBound_example =
    authenticate-WithinBound digest (store_at 0) 0 "omk_1" app_key empty_cache
      (omega arith, omega arith)

store_at-LooksUpByHash : LooksUpByHash digest store_at
store_at-LooksUpByHash at a b same = ap (store_at at) same

authenticate_recent_example :
    AllRecent digest store_at 10000 0 empty_cache
      ((1000, "omk_1") ∷ (8000, "omk_1") ∷ (4000, "omk_1") ∷ [])
authenticate_recent_example =
    authenticate_recent digest store_at 10000 1 0
      ((1000, "omk_1") ∷ (8000, "omk_1") ∷ (4000, "omk_1") ∷ []) store_at-LooksUpByHash

-- The store answers with the revoked key, which is remembered.
abbrev after_revocation : List CacheStep
after_revocation =
    asked "omk_1" 6000
    ∷ arrived "omk_1" (some (record app_key { disabled_at = some 5000 })) 6000
    ∷ []

revoked-answers_example :
    AnswersRevoked "1"
      (begin_lookup "omk_1" 7000 (
        take_steps after_revocation
          (revoked "1" true (authenticate digest (store_at 0) 0 "omk_1" empty_cache).1))).0
revoked-answers_example =
    revoked-answers "1" "omk_1" 7000 after_revocation
      (authenticate digest (store_at 0) 0 "omk_1" empty_cache).1 (tt, (inr refl, tt))

late_answer_readmits_example :
    (begin_lookup "omk_1" 9000 (
      take_steps
        (disabled app_key.id true ∷ arrived "omk_1" (some app_key) 4000 ∷ [])
        empty_cache)).0
    ≡ some (some app_key)
late_answer_readmits_example =
    late_answer_readmits "omk_1" app_key 4000 9000 empty_cache (omega arith)
