-- ===== src/Extension.antt =====
-- src/extension/frame_pump.rs, `LatestFrameReader`, and src/extension/timing.rs: what the camera
-- extension shows of the frames that the transport answers. The pixel buffers of the system are of any
-- type; whether one can be made of a frame is part of the transport's answer, and the clock is an
-- argument. The log and the counters of drops are left out.
pub mod Fresh
use text.Mathlib.Text.{◌==◌}
use camera_man.Base.{
  ℕ, ◌-◌, ◌*◌, ◌/◌, min, max, String, Bool, true, false, not, ltb, if◌then◌else◌, Option, none,
  some, Result, ok, err, saturating_mul64,
}
use camera_man.Base.Options.{◌>>=◌}
use camera_man.Media.Formats.{
  PixelFormat, virtual_camera_default_fps, virtual_camera_min_fps, virtual_camera_max_fps,
}
use camera_man.Stream.Integrity.{
  FrameObservation, FrameDiscontinuity, FrameIntegrityState, continuous, frames_dropped,
  transport_read_failed, consumer_backpressure, new_integrity, observe, mark_drop, mark_stale,
}

pub record FrameSnapshot : Type 0 where
  pub width : ℕ
  pub height : ℕ
  pub pixel_format : PixelFormat
  pub sequence : ℕ
  pub generation : ℕ
  pub monotonic_timestamp_nanos : ℕ
  pub fps : ℕ

abbrev pub observation : FrameSnapshot → FrameObservation
observation s = record {
  width = s.width;
  height = s.height;
  pixel_format = s.pixel_format;
  generation = s.generation;
  sequence = s.sequence;
  monotonic_timestamp_nanos = s.monotonic_timestamp_nanos;
}

-- `fps.unwrap_or(default).clamp(min, max)`.
abbrev unwrap_fps : Option ℕ → ℕ
unwrap_fps none = virtual_camera_default_fps
unwrap_fps (some fps) = fps

unfoldable pub normalized_transport_fps : Option ℕ → ℕ
normalized_transport_fps fps =
    min (max (unwrap_fps fps) virtual_camera_min_fps) virtual_camera_max_fps

abbrev pub minimum_stale_nanos : ℕ
minimum_stale_nanos = 500000000

unfoldable pub stale_timeout_nanos : (fps : ℕ) → ℕ
stale_timeout_nanos fps = max minimum_stale_nanos (saturating_mul64 (1000000000 / max fps 1) 5)

unfoldable pub frame_is_stale : (now : ℕ) → FrameSnapshot → Bool
unfolding stale_timeout_nanos
frame_is_stale now frame =
    ltb (stale_timeout_nanos frame.fps) (now - frame.monotonic_timestamp_nanos)

module _ (Buffer : Type 0) where
  pub record LatestFrameReader : Type 0 where
    pub last_frame : Option FrameSnapshot
    pub last_pixel_buffer : Option Buffer
    pub last_error : Option String
    pub stale : Bool
    pub integrity : FrameIntegrityState

  unfoldable pub new_reader : LatestFrameReader
  unfolding new_integrity
  new_reader = record {
    last_frame = none;
    last_pixel_buffer = none;
    last_error = none;
    stale = false;
    integrity = new_integrity "virtual-camera-output";
  }

  pub record FramePoll : Type 0 where
    pub pixel_buffer : Option Buffer
    pub fps : ℕ
    pub discontinuity : FrameDiscontinuity

  -- A frame with the buffer that was made of it, nothing new, or the text of an error.
  abbrev pub TransportAnswer : Type 0
  TransportAnswer = Result String (Option (FrameSnapshot × Option Buffer))

  abbrev pub is_last_error : Option String → String → Bool
  is_last_error none message = false
  is_last_error (some last) message = last == message

  abbrev pub take_frame :
      LatestFrameReader
      → FrameSnapshot
      → Option Buffer
      → FrameDiscontinuity
      → LatestFrameReader × FrameDiscontinuity
  take_frame reader snapshot none seen = (
    record reader { integrity = mark_drop reader.integrity consumer_backpressure 1 },
    frames_dropped,
  )
  take_frame reader snapshot (some buffer) seen = (
    record reader { last_pixel_buffer = some buffer; last_frame = some snapshot; stale = false },
    seen,
  )

  -- The `match` on what the transport answers.
  unfoldable pub follow_transport :
      TransportAnswer → LatestFrameReader → LatestFrameReader × FrameDiscontinuity
  unfolding observe mark_drop
  follow_transport (ok (some (snapshot, buffer))) reader =
      let (integrity, seen) = observe reader.integrity (observation snapshot) in
      take_frame (record reader { last_error = none; integrity = integrity }) snapshot buffer seen
  follow_transport (ok none) reader = (reader, continuous)
  follow_transport (err message) reader =
      if is_last_error reader.last_error message then (reader, continuous) else (
        record reader {
          last_error = some message;
          integrity = mark_drop reader.integrity transport_read_failed 1;
        },
        continuous,
      )

  abbrev pub is_stale : (now : ℕ) → Option FrameSnapshot → Bool
  unfolding frame_is_stale
  is_stale now none = false
  is_stale now (some frame) = frame_is_stale now frame

  -- A frame that is too old is forgotten, and reported once.
  unfoldable pub forget_stale :
      (now : ℕ) → LatestFrameReader × FrameDiscontinuity → LatestFrameReader × FrameDiscontinuity
  unfolding is_stale mark_stale
  forget_stale now (reader, seen) =
      let marked = mark_stale reader.integrity in
      let dark = record reader { last_frame = none; last_pixel_buffer = none } in
      if not (is_stale now reader.last_frame)
      then (reader, seen)
      else if reader.stale
      then (dark, seen)
      else (record dark { integrity = marked.0; stale = true }, marked.1)

  unfoldable pub poll :
      (now : ℕ) → TransportAnswer → LatestFrameReader → LatestFrameReader × FramePoll
  unfolding follow_transport forget_stale normalized_transport_fps
  poll now answer reader =
      let (next, seen) = forget_stale now (follow_transport answer reader) in
      (
        next,
        record {
          pixel_buffer = next.last_pixel_buffer;
          fps =
              normalized_transport_fps
                (next.last_frame >>= λ (frame : FrameSnapshot). some frame.fps);
          discontinuity = seen;
        },
      )
