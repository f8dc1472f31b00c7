-- ===== src/Capture/Backoff.antt =====
-- src/capture.rs, `ReconnectBackoff`: how long the worker waits before it opens the camera again.
use native.Mathlib.Nat.{pow-suc}
use camera_man.Base.{ℕ, zero, suc, ◌*◌, ◌^◌, ◌≡◌, refl, min, arith, Bool, true, if◌then◌else◌}
use camera_man.Capture.{second, millisecond}

pub record ReconnectBackoff : Type 0 where
  pub next : ℕ

abbrev pub default_backoff : ReconnectBackoff
default_backoff = record { next = 100 * millisecond }

-- The delay is answered beside the state.
unfoldable pub next_delay : ReconnectBackoff → ReconnectBackoff × ℕ
next_delay backoff = (record { next = min (backoff.next * 2) (5 * second) }, backoff.next)

abbrev pub reset : ReconnectBackoff → ReconnectBackoff
reset backoff = record { next = 100 * millisecond }

unfoldable pub observe_frame : ReconnectBackoff → (received : Bool) → ReconnectBackoff
observe_frame backoff received = if received then reset backoff else backoff

-- The state after some delays.
abbrev pub delayed : ℕ → ReconnectBackoff → ReconnectBackoff
delayed zero backoff = backoff
delayed (suc n) backoff = (next_delay (delayed n backoff)).0

delayed_next :
    (n : ℕ) (backoff : ReconnectBackoff)
    → backoff.next ≡ 100 * millisecond
    → (delayed n backoff).next ≡ min (100 * millisecond * 2 ^ n) (5 * second)
unfolding next_delay
delayed_next zero backoff e = omega (arith, e)
delayed_next (suc n) backoff e = omega (arith, delayed_next n backoff e, pow-suc 2 n)

-- At the start, and after a frame from any state, the delays are 100 milliseconds, doubled each
-- time, and never more than five seconds.
pub next_delay-delayed :
    (n : ℕ) (backoff : ReconnectBackoff)
    → ((next_delay (delayed n default_backoff)).1 ≡ min (100 * millisecond * 2 ^ n) (5 * second))
      × ((next_delay (delayed n (observe_frame backoff true))).1
          ≡ min (100 * millisecond * 2 ^ n) (5 * second))
unfolding next_delay observe_frame
next_delay-delayed n backoff =
    (delayed_next n default_backoff refl, delayed_next n (observe_frame backoff true) refl)
