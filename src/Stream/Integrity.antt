-- ===== src/Stream/Integrity.antt =====
-- src/frame_integrity.rs: `FrameIntegrityState`. The source's name plays no part in what it does.
pub mod History
use camera_man.Base.{
  ℕ, ◌+◌, ◌-◌, ◌%◌, max, Bool, true, false, not, ◌||◌, Option, none, some, ltb, ◌==◌, ◌!=◌,
  if◌then◌else◌, wrapping_add64, wrapping_sub64, saturating_add64, String,
}
use camera_man.Media.Formats.{PixelFormat, pixel_format_eq}

pub record FrameObservation : Type 0 where
  pub width : ℕ
  pub height : ℕ
  pub pixel_format : PixelFormat
  pub generation : ℕ
  pub sequence : ℕ
  pub monotonic_timestamp_nanos : ℕ

pub data FrameDiscontinuity : Type 0 where
  continuous : FrameDiscontinuity  -- `None`
  writer_restarted : FrameDiscontinuity
  frames_dropped : FrameDiscontinuity
  format_changed : FrameDiscontinuity
  timing_reset : FrameDiscontinuity
  became_stale : FrameDiscontinuity
  resumed : FrameDiscontinuity

pub data IntegrityDropReason : Type 0 where
  source_unavailable : IntegrityDropReason
  decode_failed : IntegrityDropReason
  transport_read_failed : IntegrityDropReason
  stale_source : IntegrityDropReason
  consumer_backpressure : IntegrityDropReason

pub record FrameIntegrityState : Type 0 where
  pub source_id : String
  pub last_observation : Option FrameObservation
  pub last_discontinuity : FrameDiscontinuity
  pub last_drop_reason : Option IntegrityDropReason
  pub inferred_dropped_frames : ℕ
  pub writer_restarts : ℕ
  pub stale : Bool

unfoldable pub new_integrity : String → FrameIntegrityState
new_integrity source_id = record {
  source_id = source_id;
  last_observation = none;
  last_discontinuity = continuous;
  last_drop_reason = none;
  inferred_dropped_frames = 0;
  writer_restarts = 0;
  stale = false;
}

unfoldable pub classify_frame_integrity :
    Option FrameObservation → FrameObservation → Bool → FrameDiscontinuity
classify_frame_integrity none current was_stale = if was_stale then resumed else continuous
classify_frame_integrity (some previous) current was_stale =
    if previous.generation != current.generation
    then writer_restarted
    else if previous.width != current.width
        || (previous.height != current.height
            || not (pixel_format_eq previous.pixel_format current.pixel_format))
    then format_changed
    else if ltb current.monotonic_timestamp_nanos previous.monotonic_timestamp_nanos
    then timing_reset
    else if current.sequence != wrapping_add64 previous.sequence 1
    then frames_dropped
    else if was_stale
    then resumed
    else continuous

-- What an observation adds to the two counters.
abbrev pub restarts_after : FrameDiscontinuity → ℕ → ℕ
restarts_after writer_restarted n = saturating_add64 n 1
restarts_after continuous n = n
restarts_after frames_dropped n = n
restarts_after format_changed n = n
restarts_after timing_reset n = n
restarts_after became_stale n = n
restarts_after resumed n = n

abbrev pub dropped_after : FrameDiscontinuity → Option FrameObservation → FrameObservation → ℕ → ℕ
dropped_after frames_dropped (some previous) current n =
    let expected = wrapping_add64 previous.sequence 1 in
    saturating_add64 n (max (wrapping_sub64 current.sequence expected) 1)
dropped_after frames_dropped none current n = n
dropped_after continuous previous current n = n
dropped_after writer_restarted previous current n = n
dropped_after format_changed previous current n = n
dropped_after timing_reset previous current n = n
dropped_after became_stale previous current n = n
dropped_after resumed previous current n = n

unfoldable pub observe :
    FrameIntegrityState → FrameObservation → FrameIntegrityState × FrameDiscontinuity
unfolding classify_frame_integrity
observe state current =
    let discontinuity = classify_frame_integrity state.last_observation current state.stale in
    (
      record state {
        writer_restarts = restarts_after discontinuity state.writer_restarts;
        inferred_dropped_frames =
            dropped_after discontinuity state.last_observation current
              state.inferred_dropped_frames;
        last_observation = some current;
        last_discontinuity = discontinuity;
        last_drop_reason = none;
        stale = false;
      },
      discontinuity,
    )

unfoldable pub mark_drop : FrameIntegrityState → IntegrityDropReason → ℕ → FrameIntegrityState
mark_drop state reason count = record state {
  last_drop_reason = some reason;
  inferred_dropped_frames = saturating_add64 state.inferred_dropped_frames count;
}

unfoldable pub mark_stale : FrameIntegrityState → FrameIntegrityState × FrameDiscontinuity
unfolding mark_drop
mark_stale state =
    let state1 = mark_drop state stale_source 1 in
    if state1.stale
    then (state1, continuous)
    else (record state1 { stale = true; last_discontinuity = became_stale }, became_stale)
