-- ===== src/RateLimit/Concurrency/Interleaving.antt =====
-- Requests of one user that arrive and finish in any order, with every `await` a place where others
-- run: never more than the bound are served, and no slot is lost.
use omni_model.Prelude.{
  ℕ, ◌+◌, ◌≤◌, suc, String, ◌≡◌, refl, ap, ◌∙◌, true, false, some, List, [], ◌∷◌, ◌++◌, arith, All,
  ◌==◌, eq_refl,
}
use omni_model.Prelude.Int.{ℤ, pos, negsuc, ◌+ℤ◌, +ℤ_pos}
use omni_model.Prelude.Number.{int, add}
use omni_model.Storage.{StorageAdapter, KeepsCounters}
use omni_model.RateLimit.Concurrency.{
  counted, Entry, open_entry, over_limit, within_limit, entry_of, enter, take_off, release,
  slot_ttl_seconds,
}

-- Where a call stands between two awaits: admitted and not yet released, refused and about to give
-- its count back, or done; `uncounted` is a request that is served because storage failed.
pub data Phase : Type 0 where
  serving returning done uncounted : Phase

abbrev pub phase_of : Entry → Phase
phase_of open_entry = uncounted
phase_of over_limit = returning
phase_of within_limit = serving

abbrev pub served : Phase → ℕ
served serving = 1
served uncounted = 1
served returning = 0
served done = 0

abbrev pub on_counter : Phase → ℕ
on_counter serving = 1
on_counter returning = 1
on_counter done = 0
on_counter uncounted = 0

abbrev pub total : (Phase → ℕ) → List Phase → ℕ
total f [] = 0
total f (p ∷ ps) = f p + total f ps

-- Requests that are being served.
abbrev pub serving_count : List Phase → ℕ
serving_count = total served

-- Calls that the counter still counts.
abbrev pub counted_calls : List Phase → ℕ
counted_calls = total on_counter

total-middle :
    (f : Phase → ℕ) (p : Phase) (before after : List Phase)
    → total f (before ++ p ∷ after) ≡ f p + total f (before ++ after)
total-middle f p [] after = refl
total-middle f p (b ∷ before) after = omega (arith, total-middle f p before after)

-- No request is served without being counted.
abbrev Tracked : List Phase → Type 0
Tracked ps = All (λ p. served p ≤ on_counter p) ps

serving-le-counted : (ps : List Phase) → Tracked ps → serving_count ps ≤ counted_calls ps
serving-le-counted [] h = omega arith
serving-le-counted (p ∷ ps) (h, hs) = omega (arith, h, serving-le-counted ps hs)

Tracked-middle :
    (p : Phase) (before after : List Phase)
    → Tracked (before ++ p ∷ after)
    → Tracked (before ++ done ∷ after)
Tracked-middle p [] after (h, hs) = (omega arith, hs)
Tracked-middle p (b ∷ before) after (h, hs) = (h, Tracked-middle p before after hs)

pub record System (store : StorageAdapter) : Type 0 where
  pub state : store.State
  pub calls : List Phase

-- What may happen between two awaits.
pub data Step (store : StorageAdapter) (key : String) (per_user : ℕ)
    : System store → System store → Type 0 where
  arrive :
      (s : store.State) (ps : List Phase)
      → Step store key per_user
          (record { state = s; calls = ps })
          (record {
            state = (enter store key per_user s).1;
            calls = phase_of (enter store key per_user s).0 ∷ ps;
          })
  hand_back :
      (s : store.State) (before after : List Phase)
      → Step store key per_user
          (record { state = s; calls = before ++ returning ∷ after })
          (record {
            state = (release store key (counted false) s).1;
            calls = before ++ done ∷ after;
          })
  finish :
      (s : store.State) (before after : List Phase)
      → Step store key per_user
          (record { state = s; calls = before ++ serving ∷ after })
          (record {
            state = (release store key (counted false) s).1;
            calls = before ++ done ∷ after;
          })
  release_again :
      (s : store.State) (ps : List Phase)
      → Step store key per_user
          (record { state = s; calls = ps })
          (record { state = (release store key (counted true) s).1; calls = ps })
  elsewhere :
      (s : store.State) (ps : List Phase) (other : String) (n : ℤ)
      → (other == key) ≡ false
      → Step store key per_user
          (record { state = s; calls = ps })
          (record { state = (store.increment other n slot_ttl_seconds s).1; calls = ps })

pub data Reach (store : StorageAdapter) (key : String) (per_user : ℕ) (from : System store)
    : System store → Type 0 where
  here : Reach store key per_user from from
  next :
      {t u : System store}
      → Reach store key per_user from t
      → Step store key per_user t u
      → Reach store key per_user from u

module _ (store : StorageAdapter) (laws : KeepsCounters store) (key : String) (per_user : ℕ) where
  open laws use {counter, added_value, added_only}

  record IsCounted (sys : System store) : Type 0 where
    exact : counter sys.state key ≡ int (pos (counted_calls sys.calls))
    served : serving_count sys.calls ≤ per_user
    tracked : Tracked sys.calls

  enter_value :
      (s : store.State)
      → (enter store key per_user s).0 ≡ entry_of per_user (some (add (counter s key) (pos 1)))
  unfolding enter
  enter_value s = ap (entry_of per_user) (added_value key (pos 1) slot_ttl_seconds s (omega arith))

  enter_counter :
      (s : store.State) → counter (enter store key per_user s).1 key ≡ add (counter s key) (pos 1)
  unfolding enter
  enter_counter s = added_only key key (pos 1) slot_ttl_seconds s (omega arith) ∙ rw eq_refl refl

  release_counter :
      (s : store.State)
      → counter (release store key (counted false) s).1 key ≡ add (counter s key) (negsuc 0)
  unfolding release take_off
  release_counter s =
      added_only key key (negsuc 0) slot_ttl_seconds s (omega arith) ∙ rw eq_refl refl

  -- The arithmetic of one arrival.
  admission :
      (c n : ℕ)
      → n ≤ c
      → n ≤ per_user
      → (on_counter (phase_of (entry_of per_user (some (int (pos (c + 1)))))) ≡ 1)
        × (served (phase_of (entry_of per_user (some (int (pos (c + 1)))))) + n ≤ per_user)
  unfolding entry_of
  admission c n h k = ground arith

  served-le : (p : Phase) → on_counter p ≡ 1 → served p ≤ on_counter p
  served-le serving h = omega arith
  served-le returning h = omega arith
  served-le done h = omega arith
  served-le uncounted h = omega arith

  one_more : (c : ℕ) → add (int (pos c)) (pos 1) ≡ int (pos (c + 1))
  unfolding add
  one_more c = ap int (+ℤ_pos c 1)

  one_less : (c : ℕ) → add (int (pos (suc c))) (negsuc 0) ≡ int (pos c)
  unfolding add ◌+ℤ◌
  one_less c = ground arith

  arrive-IsCounted :
      (s : store.State) (ps : List Phase)
      → IsCounted (record { state = s; calls = ps })
      → IsCounted (record {
        state = (enter store key per_user s).1;
        calls = phase_of (enter store key per_user s).0 ∷ ps;
      })
  arrive-IsCounted s ps h =
      let c = counted_calls ps in
      let after_one = ap (λ x. add x (pos 1)) h.exact ∙ one_more c in
      let (one, room) = admission c (serving_count ps) (serving-le-counted ps h.tracked) h.served in
      rw (enter_value s) (
        rw after_one (record {
          exact = enter_counter s ∙ after_one ∙ rw one (ap (λ n. int (pos n)) (omega arith));
          served = room;
          tracked = (served-le _ one, h.tracked);
        }))

  -- A call that gives its count back.
  leave-IsCounted :
      (s : store.State) (p : Phase) (before after : List Phase)
      → on_counter p ≡ 1
      → IsCounted (record { state = s; calls = before ++ p ∷ after })
      → IsCounted (record {
        state = (release store key (counted false) s).1;
        calls = before ++ done ∷ after;
      })
  leave-IsCounted s p before after one h =
      let left = total-middle on_counter p before after in
      let gone = total-middle on_counter done before after in
      let was : counted_calls (before ++ p ∷ after) ≡ suc (counted_calls (before ++ done ∷ after)) =
        omega (arith, left, gone, one) in
      record {
        exact =
            release_counter s
            ∙ ap (λ x. add x (negsuc 0)) (h.exact ∙ ap (λ n. int (pos n)) was)
            ∙ one_less (counted_calls (before ++ done ∷ after));
        served = omega (
          arith,
          total-middle served p before after,
          total-middle served done before after,
          h.served,
        );
        tracked = Tracked-middle p before after h.tracked;
      }

  Step-IsCounted : {t u : System store} → Step store key per_user t u → IsCounted t → IsCounted u
  unfolding release
  Step-IsCounted (arrive s ps) h = arrive-IsCounted s ps h
  Step-IsCounted (hand_back s before after) h = leave-IsCounted s returning before after refl h
  Step-IsCounted (finish s before after) h = leave-IsCounted s serving before after refl h
  Step-IsCounted (release_again s ps) h = record {
    exact = h.exact;
    served = h.served;
    tracked = h.tracked;
  }
  Step-IsCounted (elsewhere s ps other n apart) h = record {
    exact = added_only other key n slot_ttl_seconds s (omega arith) ∙ rw apart h.exact;
    served = h.served;
    tracked = h.tracked;
  }

  Reach-IsCounted : {t u : System store} → IsCounted t → Reach store key per_user t u → IsCounted u
  Reach-IsCounted h here = h
  Reach-IsCounted h (next r st) = Step-IsCounted st (Reach-IsCounted h r)

  -- From an empty counter, whatever the order in which a user's requests arrive, are refused, finish
  -- and release twice, no more than `per_user` are served at once, and the counter is the number of
  -- calls that have not given their slot back: while the backend is up and the counter does not
  -- expire.
  pub bounded_in_flight :
      (s : store.State) (now : System store)
      → counter s key ≡ int (pos 0)
      → Reach store key per_user (record { state = s; calls = [] }) now
      → (serving_count now.calls ≤ per_user)
        × (counter now.state key ≡ int (pos (counted_calls now.calls)))
  bounded_in_flight s now empty r =
      let h = Reach-IsCounted (record { exact = empty; served = omega arith; tracked = tt }) r in
      (h.served, h.exact)
