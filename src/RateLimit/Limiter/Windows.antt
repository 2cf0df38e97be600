-- ===== src/RateLimit/Limiter/Windows.antt =====
-- Fixed windows, the time until one resets, and the keys that counters stand under.
use omni_model.Prelude.{ℕ, ◌+◌, ◌*◌, ◌≤◌, ◌<◌, ◌≡◌, arith}
use omni_model.RateLimit.Limiter.{window_start_for, retry_after}

-- A time lies in its window.
pub window_start_bounds :
    (now w : ℕ) → 0 < w → (window_start_for now w ≤ now) × (now < window_start_for now w + w)
unfolding window_start_for
window_start_bounds now w h = grind arith

-- Every time of a window has the window's start.
pub window_start_same :
    (now later w : ℕ)
    → 0 < w
    → window_start_for now w ≤ later
    → later < window_start_for now w + w
    → window_start_for later w ≡ window_start_for now w
unfolding window_start_for
window_start_same now later w h from to = grind arith

-- Whole seconds after which the window is over, and at most a second too many; never 0.
pub retry_after_bounds :
    (now w : ℕ)
    → 0 < w
    → (0 < retry_after now w)
      × (window_start_for now w + w ≤ now + retry_after now w * 1000)
      × (now + retry_after now w * 1000 < window_start_for now w + w + 1000)
unfolding retry_after
retry_after_bounds now w h =
    omega (arith, (window_start_bounds now w h).0, (window_start_bounds now w h).1)
