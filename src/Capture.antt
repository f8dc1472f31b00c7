-- ===== src/Capture.antt =====
-- src/capture.rs: what a capture worker publishes, and how its reader names a worker that is stuck.
-- A duration is a number of nanoseconds, and a point of time counts them from some start. The slots
-- that worker and reader share are one record. The texts that `format!` builds are an argument.
pub mod Deadlines
pub mod Backoff
pub mod Pixels
pub mod Open
pub mod Lease
pub mod Worker
pub mod Poll
use camera_man.Base.{
  ℕ, ◌+◌, ◌-◌, ◌*◌, ◌/◌, ◌^◌, min, max, String, Bool, true, false, not, ◌&&◌, ◌==◌, leb, ltb,
  if◌then◌else◌, Option, none, some, Result, ok, err,
}
use camera_man.Base.Options.{◌>>=◌}
use camera_man.Error.{CameraManError, CaptureErrorKind, capture, timeout, Checked}
use camera_man.Media.Formats.{VideoFormat}
use camera_man.Pipeline.{CapturedFrame, max_duration}

abbrev pub second : ℕ
second = 1000000000

abbrev pub millisecond : ℕ
millisecond = 1000000

-- `Duration::saturating_add`.
abbrev pub saturating_add_duration : ℕ → ℕ → ℕ
saturating_add_duration a b = min (a + b) max_duration

pub data WorkerPhase : Type 0 where
  awaiting_lease opening awaiting_first_frame streaming : WorkerPhase

abbrev pub phase_eq : WorkerPhase → WorkerPhase → Bool
phase_eq awaiting_lease awaiting_lease = true
phase_eq opening opening = true
phase_eq awaiting_first_frame awaiting_first_frame = true
phase_eq streaming streaming = true
phase_eq _ _ = false

pub record WorkerProgress : Type 0 where
  pub phase : WorkerPhase
  pub since : ℕ

pub record CaptureSlots : Type 0 where
  pub latest : Option CapturedFrame
  pub last_error : Option CameraManError
  pub negotiated_format : Option VideoFormat
  pub progress : WorkerProgress
  pub stop : Bool

abbrev pub default_slots : (now : ℕ) → CaptureSlots
default_slots now = record {
  latest = none;
  last_error = none;
  negotiated_format = none;
  progress = record { phase = awaiting_lease; since = now };
  stop = false;
}

abbrev pub publish_phase : (now : ℕ) → WorkerPhase → CaptureSlots → CaptureSlots
publish_phase now phase slots = record slots { progress = record { phase = phase; since = now } }

abbrev pub default_camera_open_timeout : ℕ
default_camera_open_timeout = 20 * second

abbrev positive_millis : ℕ → Option ℕ
positive_millis millis = if ltb 0 millis then some (millis * millisecond) else none

-- `parse` is the parser of the standard library for the trimmed text.
unfoldable pub parse_open_timeout : (parse : String → Option ℕ) → (value : Option String) → ℕ
parse_open_timeout parse value = elim (value >>= parse >>= positive_millis) [
  | none ↦ default_camera_open_timeout
  | some limit ↦ limit
]

abbrev then_some : Bool → ℕ → Option ℕ
then_some true n = some n
then_some false n = none

unfoldable pub open_stall_age : WorkerPhase → (elapsed limit : ℕ) → Option ℕ
open_stall_age phase elapsed limit =
    then_some (not (phase_eq phase streaming) && leb limit elapsed) elapsed

abbrev pub frame_gap_intervals : ℕ
frame_gap_intervals = 60

abbrev pub min_frame_gap_timeout : ℕ
min_frame_gap_timeout = 2 * second

unfoldable pub frame_gap_timeout : (fps : ℕ) → ℕ
frame_gap_timeout fps =
    if fps == 0
    then min_frame_gap_timeout
    else max (frame_gap_intervals * second / fps) min_frame_gap_timeout

-- `Instant::elapsed`.
abbrev pub elapsed : (now : ℕ) → WorkerProgress → ℕ
elapsed now progress = now - progress.since

unfoldable pub frame_gap_stall_age : WorkerPhase → (gap limit : ℕ) → Option ℕ
frame_gap_stall_age phase gap limit = then_some (phase_eq phase streaming && leb limit gap) gap

-- The text of a report, for the phase that took so many milliseconds.
abbrev pub Report : Type 0
Report = (phase : WorkerPhase) → (id : String) → (millis : ℕ) → String

unfoldable pub stalled_frame_error : Report → (id : String) → (stall : ℕ) → CameraManError
stalled_frame_error report id stall = capture timeout (report streaming id (stall / millisecond))

abbrev pub open_error : Report → (id : String) → WorkerPhase → (millis : ℕ) → Option CameraManError
open_error report id streaming millis = none
open_error report id awaiting_lease millis =
    some (capture timeout (report awaiting_lease id millis))
open_error report id opening millis = some (capture timeout (report opening id millis))
open_error report id awaiting_first_frame millis =
    some (capture timeout (report awaiting_first_frame id millis))

unfoldable pub stalled_open_error :
    Report → (id : String) → WorkerPhase → (elapsed limit : ℕ) → Option CameraManError
unfolding open_stall_age
stalled_open_error report id phase elapsed limit = do
  stall ← open_stall_age phase elapsed limit
  open_error report id phase (stall / millisecond)

-- The reader; its thread handle is left out.
pub record ThreadedFrameSource : Type 0 where
  pub id : String
  pub slots : CaptureSlots
  pub open_timeout : ℕ
  pub inherited_stall : ℕ

unfoldable pub pre_frame_elapsed : (now : ℕ) → ThreadedFrameSource → ℕ
pre_frame_elapsed now source =
    let spent = elapsed now source.slots.progress in
    if phase_eq source.slots.progress.phase awaiting_lease
    then saturating_add_duration spent source.inherited_stall
    else spent

abbrev pub negotiated_fps : CaptureSlots → Option ℕ
negotiated_fps slots = slots.negotiated_format >>= λ (format : VideoFormat). some format.fps

abbrev gap_unless_error : (now : ℕ) → CaptureSlots → (fps : ℕ) → Option CameraManError → Option ℕ
unfolding frame_gap_stall_age
gap_unless_error now slots fps none =
    frame_gap_stall_age slots.progress.phase (elapsed now slots.progress) (frame_gap_timeout fps)
gap_unless_error now slots fps (some e) = none

unfoldable pub frame_stall_age : (now : ℕ) → CaptureSlots → Option ℕ
unfolding gap_unless_error
frame_stall_age now slots = do
  fps ← negotiated_fps slots
  gap_unless_error now slots fps slots.last_error

abbrev pub or_else {ℓ} : {A : Type ℓ} → Option A → Option A → Option A
or_else none b = b
or_else (some a) b = some a

unfoldable pub stall_age : (now : ℕ) → ThreadedFrameSource → ℕ
unfolding frame_stall_age open_stall_age pre_frame_elapsed
stall_age now source =
    elim (or_else
      (open_stall_age source.slots.progress.phase (pre_frame_elapsed now source)
        source.open_timeout)
      (frame_stall_age now source.slots)) [ none ↦ 0 | some age ↦ age ]

unfoldable pub frame_gap_exceeded : (now : ℕ) → ThreadedFrameSource → Bool
unfolding frame_stall_age
frame_gap_exceeded now source = elim (frame_stall_age now source.slots) [
  | none ↦ false
  | some age ↦ true
]

-- The error that a deadline stands for.
unfoldable pub stall_error : Report → (now : ℕ) → ThreadedFrameSource → Option CameraManError
unfolding stalled_open_error frame_stall_age stalled_frame_error pre_frame_elapsed
stall_error report now source =
    or_else
      (stalled_open_error report source.id source.slots.progress.phase
        (pre_frame_elapsed now source) source.open_timeout)
      (frame_stall_age now source.slots >>= λ stall.
        some (stalled_frame_error report source.id stall))

abbrev pub answered : Option CameraManError → Option CapturedFrame → Checked (Option CapturedFrame)
answered none frame = ok frame
answered (some e) frame = err e

unfoldable pub latest_frame :
    Report → (now : ℕ) → ThreadedFrameSource → Checked (Option CapturedFrame)
unfolding stall_error
latest_frame report now source =
    answered (or_else source.slots.last_error (stall_error report now source)) source.slots.latest

-- The replacement of a source that was stuck for `inherited_stall`, or for no time.
abbrev pub reopen :
    (now : ℕ) → (id : String) (open_timeout inherited_stall : ℕ) → ThreadedFrameSource
reopen now id open_timeout inherited_stall = record {
  id = id;
  slots = default_slots now;
  open_timeout = open_timeout;
  inherited_stall = inherited_stall;
}

-- `Drop`: the worker sees `stop` between two frames; the thread that joins it is left out.
abbrev pub dropped : CaptureSlots → CaptureSlots
dropped slots = record slots { stop = true }
