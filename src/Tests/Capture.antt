-- ===== src/Tests/Capture.antt =====
-- A camera that is stuck, and two workers that want one camera.
use camera_man.Base.{
  ℕ, zero, suc, ◌+◌, ◌-◌, ◌*◌, ◌/◌, ◌^◌, ◌≤◌, ◌<◌, ◌≡◌, ◌≢◌, ◌↔◌, refl, arith, min, String,
  get_elem?, true, Result, ok, err, none, some, Option, List, [], ◌∷◌,
}
use camera_man.Error.{CameraManError, Checked, capture, timeout, other, empty_input}
use camera_man.Media.Formats.{bgra8, VideoFormat}
use camera_man.Pipeline.{CapturedFrame}
use camera_man.Capture.{
  second, millisecond, Report, ThreadedFrameSource, latest_frame, reopen, stall_age, awaiting_lease,
  opening, saturating_add_duration, default_slots, publish_phase, open_stall_age, pre_frame_elapsed,
}
use camera_man.Capture.Backoff.{
  next_delay, observe_frame, delayed, default_backoff, next_delay-delayed,
}
use camera_man.Capture.Deadlines.{IsHealthy, latest_frame_iff}
use camera_man.Capture.Deadlines.Retry.{reopen-latest_frame}
use camera_man.Capture.Lease.{occurs, try_acquire_camera_lease}
use camera_man.Capture.Open.{Request, closest}
use camera_man.Capture.Poll.{Outcome, first_frame_within-Outcome}
use camera_man.Capture.Worker.{
  CaptureWorker, at_place, with_phase, with_format, with_error, retry, spawned, inside_open, Event,
  created, answered, lease_asked, open_failed, run, no_workers, take_place, answer_at, worker_step,
  ask_for_lease, run_step, after_open, leave,
}
use camera_man.Capture.Worker.Leases.{held, holds_lease}
use camera_man.Capture.Worker.Leases.Exclusive.{run-exclusive}
use camera_man.Capture.Worker.Signals.Reported.{run-reported}

abbrev report : Report
report phase id millis = "stuck"

-- Opened at 5 seconds, and still not open at 30.
abbrev stuck : ThreadedFrameSource
stuck = record {
  id = "a";
  slots = publish_phase (5 * second) opening (default_slots 0);
  open_timeout = 20 * second;
  inherited_stall = 0;
}

stuck_long : 20 * second ≤ stall_age (30 * second) stuck
unfolding stall_age open_stall_age pre_frame_elapsed
stuck_long = omega arith

reopen-latest_frame_example :
    latest_frame report
      (32 * second)
      (reopen (31 * second) "a" (20 * second) (stall_age (30 * second) stuck))
    ≡ err (
        capture timeout (
          report awaiting_lease "a" (
            saturating_add_duration (32 * second - 31 * second) (stall_age (30 * second) stuck)
            / millisecond)))
reopen-latest_frame_example =
    reopen-latest_frame report "a" (30 * second) (31 * second) (32 * second) (20 * second) stuck
      stuck_long (omega arith)

latest_frame_iff_example :
    (latest_frame report (30 * second) stuck ≡ ok none)
    ↔ (IsHealthy (30 * second) stuck × (stuck.slots.latest ≡ none))
latest_frame_iff_example = latest_frame_iff report (30 * second) stuck none

next_delay-delayed_example :
    ((next_delay (delayed 3 default_backoff)).1 ≡ min (100 * millisecond * 2 ^ 3) (5 * second))
    × ((next_delay (delayed 3 (observe_frame default_backoff true))).1
        ≡ min (100 * millisecond * 2 ^ 3) (5 * second))
next_delay-delayed_example = next_delay-delayed 3 default_backoff

-- A camera that answers nothing for two polls, of which the second is too late.
abbrev silent : ℕ → Checked (Option CapturedFrame)
silent poll = ok none

abbrev clock : ℕ → ℕ
clock poll = poll * 20

first_frame_within-Outcome_example : Outcome silent clock "late" 20 2 0
first_frame_within-Outcome_example =
    first_frame_within-Outcome silent clock "late" 20 1 0 (omega arith)

-- The first format is refused.
abbrev open_second : Request ℕ → Result String ℕ
open_second (closest width height format fps) = elim format [ zero ↦ err "busy" | suc n ↦ ok n ]
open_second _ = err "unsupported"

abbrev wide_format : VideoFormat
wide_format = record { width = 4; height = 2; fps = 30; pixel_format = bgra8 }

abbrev start_stream : ℕ → Checked ℕ
start_stream n = ok (n + 1)

abbrev no_camera : Option String → CameraManError
no_camera e = capture other "open"

-- Two cameras, each with its worker; the second worker of camera "a" has to wait.
abbrev busy : List Event
busy =
    created 1 "b"
    ∷ created 2 "a"
    ∷ created 3 "a"
    ∷ answered 0 4 lease_asked
    ∷ answered 1 5 lease_asked
    ∷ answered 2 6 lease_asked
    ∷ []

abbrev opening_at : (start now : ℕ) → String → CaptureWorker
opening_at start now id = at_place (with_phase now (spawned start id) opening) inside_open

abbrev first : String
first = "a"

abbrev second_id : String
second_id = "b"

run-exclusive_example :
    ((id : String)
      → (held id (run busy no_workers).all ≡ occurs id (run busy no_workers).active)
        × (occurs id (run busy no_workers).active ≤ 1))
    × ((i j : ℕ) (v w : CaptureWorker)
        → i < j
        → get_elem? (run busy no_workers).all i ≡ some v
        → get_elem? (run busy no_workers).all j ≡ some w
        → holds_lease v.place ≡ true
        → holds_lease w.place ≡ true
        → v.id ≢ w.id)
run-exclusive_example = run-exclusive busy

abbrev failing : List Event
failing = created 1 "a" ∷ answered 0 2 lease_asked ∷ answered 0 3 (open_failed empty_input) ∷ []

abbrev failed_worker : CaptureWorker
failed_worker = retry (with_format (with_error (opening_at 1 2 "a") empty_input) none)

abbrev failed_source : ThreadedFrameSource
failed_source = record stuck { slots = failed_worker.slots }

run-reported_example :
    (e : CameraManError) × (latest_frame report (4 * second) failed_source ≡ err e)
unfolding take_place answer_at worker_step ask_for_lease try_acquire_camera_lease run_step
    after_open leave next_delay
run-reported_example =
    run-reported failing 0 failed_worker report (4 * second) failed_source refl refl refl
