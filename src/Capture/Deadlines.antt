-- ===== src/Capture/Deadlines.antt =====
-- src/capture.rs: the reader answers a frame exactly where nothing is wrong, and names every stall.
use native.Mathlib.Nat.{div-add-mod', mod-lt}
pub mod Retry
use mathlib.Core.Option.{some_inj}
use camera_man.Pipeline.{max_duration, CapturedFrame}
use camera_man.Base.{
  subst, ap, ◌⊎◌, ℕ, ◌+◌, ◌-◌, ◌*◌, ◌/◌, ◌%◌, ◌≤◌, ◌<◌, ◌≡◌, ◌≢◌, ◌↔◌, refl, sym, ◌∙◌, arith, max,
  String, Bool, true, false, ◌==◌, Bool-cases, inl, inr, Option, none, some, Option-cases, ok, err,
}
use camera_man.Base.Options.{◌>>=◌}
use camera_man.Error.{Checked, CameraManError, capture, timeout}
use camera_man.Media.Formats.{VideoFormat}
use camera_man.Capture.{
  second, millisecond, WorkerPhase, awaiting_lease, opening, awaiting_first_frame, streaming,
  phase_eq, CaptureSlots, ThreadedFrameSource, open_stall_age, frame_gap_stall_age,
  frame_gap_timeout, frame_gap_intervals, min_frame_gap_timeout, elapsed, pre_frame_elapsed,
  frame_stall_age, stall_age, frame_gap_exceeded, stalled_frame_error, stalled_open_error,
  stall_error, latest_frame, Report, reopen, or_else, answered,
}

-- Nothing is wrong: there is no error, and the deadline of the phase has not passed.
pub record IsHealthy (now : ℕ) (source : ThreadedFrameSource) : Type 0 where
  pub quiet : source.slots.last_error ≡ none
  pub starting :
      source.slots.progress.phase ≢ streaming → pre_frame_elapsed now source < source.open_timeout
  pub flowing :
      source.slots.progress.phase ≡ streaming
      → (format : VideoFormat) → source.slots.negotiated_format ≡ some format
      → elapsed now source.slots.progress < frame_gap_timeout format.fps

open_age_none :
    (phase : WorkerPhase) (spent limit : ℕ)
    → (open_stall_age phase spent limit ≡ none) ↔ (phase ≢ streaming → spent < limit)
unfolding open_stall_age
open_age_none streaming spent limit = (λ e h. absurd (h refl), λ h. refl)
open_age_none awaiting_lease spent limit =
    (λ e h. ground arith, λ h. ground (arith, h (λ e. absurd (ground arith))))
open_age_none opening spent limit =
    (λ e h. ground arith, λ h. ground (arith, h (λ e. absurd (ground arith))))
open_age_none awaiting_first_frame spent limit =
    (λ e h. ground arith, λ h. ground (arith, h (λ e. absurd (ground arith))))

open_error_none :
    (report : Report) (id : String) (phase : WorkerPhase) (spent limit : ℕ)
    → (stalled_open_error report id phase spent limit ≡ none) ↔ (phase ≢ streaming → spent < limit)
unfolding stalled_open_error open_stall_age
open_error_none report id streaming spent limit = (λ e h. absurd (h refl), λ h. refl)
open_error_none report id awaiting_lease spent limit =
    (λ e h. ground arith, λ h. ground (arith, h (λ e. absurd (ground arith))))
open_error_none report id opening spent limit =
    (λ e h. ground arith, λ h. ground (arith, h (λ e. absurd (ground arith))))
open_error_none report id awaiting_first_frame spent limit =
    (λ e h. ground arith, λ h. ground (arith, h (λ e. absurd (ground arith))))

whole_lt : (a b q m : ℕ) → 0 < b → q * b + a % b ≡ a → q ≤ m → a < (m + 1) * b
whole_lt a b q m p e h =
    let rest : a % b < b = mod-lt a p in
    let grown : (q + 1) * b ≤ (m + 1) * b = mul_mono (q + 1) (m + 1) b (omega (arith, h)) in
    omega (arith, e, rest, grown)
  where
    mul_mono : (a b o : ℕ) → a ≤ b → a * o ≤ b * o
    mul_mono a b o h = grind arith

-- The next frame of a camera with a rate is awaited for at least two seconds, and for no less than 60 of its
-- intervals, less what rounding to nanoseconds takes; for 30 frames a second and more it is two seconds.
pub frame_gap_timeout_bounds :
    (fps : ℕ)
    → 0 < fps
    → (2 * second ≤ frame_gap_timeout fps)
      × (60 * second < (frame_gap_timeout fps + 1) * fps)
      × (30 ≤ fps → frame_gap_timeout fps ≡ 2 * second)
unfolding frame_gap_timeout
frame_gap_timeout_bounds fps p =
    let rate : (fps == 0) ≡ false = ground arith in
    let whole = div-add-mod' (60 * second) fps in
    rw rate (
      omega arith,
      whole_lt (60 * second) fps (60 * second / fps) (max (60 * second / fps) (2 * second)) p
          (omega (arith, whole)) (omega arith),
      λ h.
          let small =
            quotient_le (60 * second / fps) fps ((60 * second) % fps) (omega (arith, whole)) h in
          omega (arith, small),
    )
  where
    quotient_le : (q b r : ℕ) → q * b + r ≡ 60 * second → 30 ≤ b → q ≤ 2 * second
    quotient_le q b r e h = let grown : q * 30 ≤ q * b = grind arith in omega (arith, grown, e)

gap_none :
    (phase : WorkerPhase) (gap limit : ℕ)
    → (frame_gap_stall_age phase gap limit ≡ none) ↔ (phase ≡ streaming → gap < limit)
unfolding frame_gap_stall_age
gap_none streaming gap limit = (λ e h. ground arith, λ h. ground (arith, h refl))
gap_none awaiting_lease gap limit = (λ e h. absurd (ground arith), λ h. refl)
gap_none opening gap limit = (λ e h. absurd (ground arith), λ h. refl)
gap_none awaiting_first_frame gap limit = (λ e h. absurd (ground arith), λ h. refl)

abbrev Flows : (now : ℕ) → CaptureSlots → Type 0
Flows now slots =
    slots.progress.phase ≡ streaming
    → (format : VideoFormat) → slots.negotiated_format ≡ some format
    → elapsed now slots.progress < frame_gap_timeout format.fps

frame_stall_none :
    (now : ℕ) (slots : CaptureSlots)
    → slots.last_error ≡ none
    → (frame_stall_age now slots ≡ none) ↔ Flows now slots
unfolding frame_stall_age
frame_stall_none now slots quiet = elim (Option-cases slots.negotiated_format) [
  | inl missing ↦
      (λ e h format found. absurd (ground arith), λ h. rw (missing, frame_stall_age) refl)
  | inr (format, found) ↦
      let age =
        gap_none slots.progress.phase (elapsed now slots.progress) (frame_gap_timeout format.fps) in
      (
        λ e h other same.
            let gone = age.0 (rw (found, quiet) at e) h in
            let equal : format ≡ other = some_inj.0 (sym found ∙ same) in
            subst (λ (o : VideoFormat). elapsed now slots.progress < frame_gap_timeout o.fps) equal
              gone,
        λ h. rw (found, quiet, frame_stall_age) (age.1 (λ p. h p format found)),
      )
]

answered_iff :
    (opened : Option CameraManError) (stall : Option ℕ) (named : ℕ → CameraManError)
    (latest frame : Option CapturedFrame)
    → (answered (or_else opened (stall >>= λ age. some (named age))) latest ≡ ok frame)
      ↔ ((opened ≡ none) × (stall ≡ none) × (latest ≡ frame))
answered_iff (some e) stall named latest frame =
    (λ h. absurd (ground arith), λ h. absurd (ground arith))
answered_iff none (some age) named latest frame =
    (λ h. absurd (ground arith), λ h. absurd (ground arith))
answered_iff none none named latest frame = (λ h. (refl, refl, ok_inj h), λ h. ap ok h.2)
  where
    ok_inj :
        {a b : Option CapturedFrame} → Path (Checked (Option CapturedFrame)) (ok a) (ok b) → a ≡ b
    ok_inj h = ground arith

quiet_answer :
    (report : Report) (now : ℕ) (source : ThreadedFrameSource)
    → source.slots.last_error ≡ none
    → latest_frame report now source ≡ answered (stall_error report now source) source.slots.latest
unfolding latest_frame
quiet_answer report now source quiet =
    ap (λ e. answered (or_else e (stall_error report now source)) source.slots.latest) quiet

-- The reader answers a frame, or that there is none yet, exactly where there is no error and no deadline has
-- passed; it then answers what the worker published last.
pub latest_frame_iff :
    (report : Report) (now : ℕ) (source : ThreadedFrameSource) (frame : Option CapturedFrame)
    → (latest_frame report now source ≡ ok frame)
      ↔ (IsHealthy now source × (source.slots.latest ≡ frame))
unfolding latest_frame stall_error
latest_frame_iff report now source frame = elim (Option-cases source.slots.last_error) [
  | inr (e, failed) ↦
      (λ h. absurd (refute (rw failed at h)), λ h. absurd (ground (arith, h.0.quiet)))
  | inl quiet ↦
      let opened =
        open_error_none report source.id source.slots.progress.phase (pre_frame_elapsed now source)
          source.open_timeout in
      let gap = frame_stall_none now source.slots quiet in
      let same = quiet_answer report now source quiet in
      let read =
        answered_iff
          (stalled_open_error report source.id source.slots.progress.phase
            (pre_frame_elapsed now source) source.open_timeout)
          (frame_stall_age now source.slots) (stalled_frame_error report source.id)
          source.slots.latest frame in
      (
        λ h.
            let (o, g, l) = read.0 (sym same ∙ h) in
            (record { quiet = quiet; starting = opened.0 o; flowing = gap.0 g }, l),
        λ h. same ∙ read.1 (opened.1 h.0.starting, gap.1 h.0.flowing, h.1),
      )
]
  where
    refute : {e : CameraManError} → Path (Checked (Option CapturedFrame)) (err e) (ok frame) → ⊥
    refute h = ground arith

-- A source that is healthy has no stall.
pub healthy_age :
    (now : ℕ) (source : ThreadedFrameSource) → IsHealthy now source → stall_age now source ≡ 0
unfolding stall_age
healthy_age now source healthy =
    let opened =
      (open_age_none source.slots.progress.phase (pre_frame_elapsed now source)
          source.open_timeout).1
        healthy.starting in
    let gap = (frame_stall_none now source.slots healthy.quiet).1 healthy.flowing in
    rw (opened, gap, stall_age) refl
