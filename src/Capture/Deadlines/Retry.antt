-- ===== src/Capture/Deadlines/Retry.antt =====
-- src/capture.rs: a camera that is stuck stays named as stuck when it is opened again.
use camera_man.Base.{
  ℕ, ◌+◌, ◌-◌, ◌/◌, ◌≤◌, ◌<◌, ◌≡◌, refl, arith, min, true, leb, inl, inr, err, Result-cases, String,
}
use camera_man.Error.{CameraManError, capture, timeout}
use camera_man.Pipeline.{max_duration}
use camera_man.Capture.{
  millisecond, awaiting_lease, open_stall_age, pre_frame_elapsed, stall_age, stalled_open_error,
  stall_error, latest_frame, Report, ThreadedFrameSource, reopen, saturating_add_duration,
}
use camera_man.Capture.Deadlines.{latest_frame_iff, healthy_age}

-- A stall that is counted is reported: a source with an age of its stall answers an error.
pub stall_age-reported :
    (report : Report) (now : ℕ) (source : ThreadedFrameSource)
    → 0 < stall_age now source
    → (e : CameraManError) × (latest_frame report now source ≡ err e)
stall_age-reported report now source h = elim (Result-cases (latest_frame report now source)) [
  | inr failed ↦ failed
  | inl (frame, answered) ↦
      let healthy = ((latest_frame_iff report now source frame).0 answered).0 in
      absurd (omega (arith, h, healthy_age now source healthy))
]

-- A source that is opened again takes over the stall of the one before, at least its deadline: as long as its
-- worker waits for the lease, it answers a timeout, at once and with the whole time that was waited.
pub reopen-latest_frame :
    (report : Report) (id : String) (stuck start now limit : ℕ) (before : ThreadedFrameSource)
    → limit ≤ stall_age stuck before
    → limit ≤ max_duration
    → latest_frame report now (reopen start id limit (stall_age stuck before))
      ≡ err (
          capture timeout (
            report awaiting_lease id
              (saturating_add_duration (now - start) (stall_age stuck before) / millisecond)))
unfolding latest_frame stall_error stalled_open_error open_stall_age pre_frame_elapsed
reopen-latest_frame report id stuck start now limit before h m =
    let late : leb limit (min (now - start + stall_age stuck before) max_duration) ≡ true =
      ground arith in
    rw (late, latest_frame, stall_error, stalled_open_error, open_stall_age) refl
