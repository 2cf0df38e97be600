-- ===== src/Server/Lifecycle/Tracking.antt =====
-- The count is right, and no drain waits for nothing.
use omni_model.Prelude.{
  ℕ, ◌+◌, ◌-◌, zero, suc, ◌≡◌, refl, Bool, true, false, List, [], ◌∷◌, arith, eqb, ltb, Bool-cases,
  inl, inr,
}
use omni_model.Prelude.Result.{Result, ok, err}
use omni_model.Errors.{OmniError}
use omni_model.Server.Lifecycle.{
  RequestTracker, release, admit, settle, begin_shutdown, drain, without, give_up,
}

-- The tracker with the flag of each request that it admitted.
pub record Server : Type 0 where
  pub tracker : RequestTracker
  pub settled : List Bool

abbrev pub unsettled : List Bool → ℕ
unsettled [] = 0
unsettled (true ∷ flags) = unsettled flags
unsettled (false ∷ flags) = 1 + unsettled flags

pub data Event : Type 0 where
  -- a request arrives
  arrives : Event
  -- the `settle` of a request runs, by its number, the latest first
  settles : ℕ → Event
  shuts_down : Event
  drains gives_up : ℕ → Event

abbrev pub admitted : Server → Result OmniError RequestTracker → Server
admitted server (ok tracker) = record { tracker = tracker; settled = false ∷ server.settled }
admitted server (err e) = server

-- The flags and the tracker after the `settle` of the nth request, if there is one.
abbrev pub settle_nth : ℕ → List Bool → RequestTracker → List Bool × RequestTracker
settle_nth n [] tracker = ([], tracker)
settle_nth zero (flag ∷ flags) tracker =
    let (flag', tracker') = settle flag tracker in (flag' ∷ flags, tracker')
settle_nth (suc n) (flag ∷ flags) tracker =
    let (flags', tracker') = settle_nth n flags tracker in (flag ∷ flags', tracker')

abbrev pub step : Event → Server → Server
step arrives server = admitted server (admit server.tracker)
step (settles n) server =
    let (flags, tracker) = settle_nth n server.settled server.tracker in
    record { tracker = tracker; settled = flags }
step shuts_down server = record server { tracker = begin_shutdown server.tracker }
step (drains w) server = record server { tracker = drain w server.tracker }
step (gives_up w) server = record server { tracker = give_up w server.tracker }

abbrev pub run : List Event → Server → Server
run [] server = server
run (e ∷ es) server = run es (step e server)

-- The count is that of the requests that are not settled, and with none in flight no drain waits.
pub record IsTracking (tracker : RequestTracker) (flags : List Bool) (others : ℕ) : Type 0 where
  pub counted : tracker.in_flight ≡ others + unsettled flags
  pub resolved : tracker.in_flight ≡ 0 → tracker.idle ≡ []

release-IsTracking :
    (tracker : RequestTracker) (flags : List Bool) (others : ℕ)
    → IsTracking tracker (false ∷ flags) others
    → IsTracking (release tracker) (true ∷ flags) others
unfolding release
release-IsTracking tracker flags others t = elim (Bool-cases (ltb 0 (tracker.in_flight - 1))) [
  | inl more ↦ rw more (record {
    counted = omega (arith, t.counted);
    resolved = λ h. absurd (ground (arith, more, h));
  })
  | inr last ↦ rw last (record { counted = omega (arith, t.counted); resolved = λ h. refl })
]

settle_nth-IsTracking :
    (n : ℕ) (tracker : RequestTracker) (flags : List Bool) (others : ℕ)
    → IsTracking tracker flags others
    → IsTracking (settle_nth n flags tracker).1 (settle_nth n flags tracker).0 others
unfolding settle
settle_nth-IsTracking n tracker [] others t = t
settle_nth-IsTracking zero tracker (true ∷ flags) others t = t
settle_nth-IsTracking zero tracker (false ∷ flags) others t =
    release-IsTracking tracker flags others t
settle_nth-IsTracking (suc n) tracker (true ∷ flags) others t =
    let u =
      settle_nth-IsTracking n tracker flags others
        (record { counted = t.counted; resolved = t.resolved }) in
    record { counted = u.counted; resolved = u.resolved }
settle_nth-IsTracking (suc n) tracker (false ∷ flags) others t =
    let u =
      settle_nth-IsTracking n tracker flags (others + 1)
        (record { counted = omega (arith, t.counted); resolved = t.resolved }) in
    record { counted = omega (arith, u.counted); resolved = u.resolved }

without-nil : (w : ℕ) (ws : List ℕ) → ws ≡ [] → without w ws ≡ []
unfolding without
without-nil w [] h = refl
without-nil w (v ∷ ws) h = cc

step-IsTracking :
    (e : Event) (server : Server)
    → IsTracking server.tracker server.settled 0
    → IsTracking (step e server).tracker (step e server).settled 0
unfolding admit begin_shutdown drain give_up
step-IsTracking arrives server t = elim (Bool-cases server.tracker.shutting_down) [
  | inl closing ↦ rw closing (record { counted = t.counted; resolved = t.resolved })
  | inr open_ ↦
      rw open_
        (record { counted = omega (arith, t.counted); resolved = λ h. absurd (omega (arith, h)) })
]
step-IsTracking (settles n) server t = settle_nth-IsTracking n server.tracker server.settled 0 t
step-IsTracking shuts_down server t = record { counted = t.counted; resolved = t.resolved }
step-IsTracking (drains w) server t = elim (Bool-cases (eqb server.tracker.in_flight 0)) [
  | inl none_left ↦ rw none_left t
  | inr some_left ↦
      rw some_left
        (record { counted = t.counted; resolved = λ h. absurd (ground (arith, some_left, h)) })
]
step-IsTracking (gives_up w) server t = record {
  counted = t.counted;
  resolved = λ h. without-nil w server.tracker.idle (t.resolved h);
}

-- In every run from a server that is right, in which requests settle once, twice or never, the count
-- is the number of admitted requests that have not settled, and when none is in flight no drain
-- waits.
pub run-IsTracking :
    (es : List Event) (server : Server)
    → IsTracking server.tracker server.settled 0
    → IsTracking (run es server).tracker (run es server).settled 0
run-IsTracking [] server t = t
run-IsTracking (e ∷ es) server t = run-IsTracking es (step e server) (step-IsTracking e server t)
