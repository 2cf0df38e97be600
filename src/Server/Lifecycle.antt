-- ===== src/Server/Lifecycle.antt =====
-- packages/core/src/server/lifecycle.ts: the tracker of the requests that are being served. A
-- request's `settle` is a closure over one flag, so the model holds the flags; it runs when the
-- handler or the streamed body is done, on every path. A `drain` that waits is named by a number.
pub mod Tracking
use omni_model.Prelude.{
  ℕ, ◌+◌, ◌-◌, zero, suc, Bool, true, false, none, some, List, [], ◌∷◌, ◌++◌, if◌then◌else◌, eqb,
  ltb,
}
use omni_model.Prelude.Result.{Result, ok, err}
use omni_model.Errors.{OmniError, no_options, omni_error}

pub record RequestTracker : Type 0 where
  pub in_flight : ℕ
  pub shutting_down : Bool
  -- the drains that wait for the count to reach zero
  pub idle : List ℕ

-- The count after one more request is done; at zero every drain that waits is resolved.
unfoldable pub release : RequestTracker → RequestTracker
release tracker =
    if ltb 0 (tracker.in_flight - 1)
    then record tracker { in_flight = tracker.in_flight - 1 }
    else record tracker { in_flight = tracker.in_flight - 1; idle = [] }

-- The middleware up to `next`.
unfoldable pub admit : RequestTracker → Result OmniError RequestTracker
admit tracker =
    if tracker.shutting_down
    then err (
        omni_error 503 "the server is shutting down; retry this request"
          (record no_options { type = some "api_error"; code = some "shutting_down" }))
    else ok (record tracker { in_flight = tracker.in_flight + 1 })

-- `settle`, with its flag before and after.
unfoldable pub settle : Bool → RequestTracker → Bool × RequestTracker
unfolding release
settle true tracker = (true, tracker)
settle false tracker = (true, release tracker)

unfoldable pub begin_shutdown : RequestTracker → RequestTracker
begin_shutdown tracker = record tracker { shutting_down = true }

-- `drain` up to its wait.
unfoldable pub drain : ℕ → RequestTracker → RequestTracker
drain waiter tracker =
    if eqb tracker.in_flight 0
    then tracker
    else record tracker { idle = tracker.idle ++ waiter ∷ [] }

unfoldable pub without : ℕ → List ℕ → List ℕ
without waiter [] = []
without waiter (w ∷ ws) = let rest = without waiter ws in if eqb w waiter then rest else w ∷ rest

-- The time of a drain is over.
unfoldable pub give_up : ℕ → RequestTracker → RequestTracker
unfolding without
give_up waiter tracker = record tracker { idle = without waiter tracker.idle }
