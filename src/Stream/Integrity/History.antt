-- ===== src/Stream/Integrity/History.antt =====
-- What the integrity history says of the frames it saw.
use camera_man.Base.{
  ℕ, ◌+◌, ◌≤◌, ◌<◌, ◌≡◌, ◌↔◌, Bool, true, false, some, arith, wrapping_add64, u64_max,
}
use camera_man.Media.Formats.{pixel_format_eq}
use camera_man.Stream.Integrity.{
  FrameObservation, continuous, frames_dropped, resumed, FrameIntegrityState,
  classify_frame_integrity, observe, mark_stale, mark_drop,
}

-- The next frame of the same history.
pub record Follows (previous current : FrameObservation) : Type 0 where
  pub generation : previous.generation ≡ current.generation
  pub width : previous.width ≡ current.width
  pub height : previous.height ≡ current.height
  pub format : pixel_format_eq previous.pixel_format current.pixel_format ≡ true
  pub time : previous.monotonic_timestamp_nanos ≤ current.monotonic_timestamp_nanos
  pub sequence : current.sequence ≡ wrapping_add64 previous.sequence 1

-- Of two observations the second is continuous exactly if it is the next frame of the same history and
-- the source was not stale.
pub classify_frame_integrity_iff :
    (previous current : FrameObservation) (was_stale : Bool)
    → (classify_frame_integrity (some previous) current was_stale ≡ continuous)
      ↔ (Follows previous current × (was_stale ≡ false))
unfolding classify_frame_integrity
classify_frame_integrity_iff p c w = (
  λ e. (
    record {
      generation = ground arith;
      width = ground arith;
      height = ground arith;
      format = ground arith;
      time = ground arith;
      sequence = ground arith;
    },
    ground arith,
  ),
  λ (f, s). ground (arith, f.generation, f.width, f.height, f.format, f.time, f.sequence),
)

-- A frame of the same history whose sequence skipped `lost` numbers counts just those as
-- dropped, where neither the sequence nor the counter overflows.
pub observe-dropped :
    (state : FrameIntegrityState) (previous current : FrameObservation) (lost : ℕ)
    → state.last_observation ≡ some previous
    → previous.generation ≡ current.generation
    → previous.width ≡ current.width
    → previous.height ≡ current.height
    → pixel_format_eq previous.pixel_format current.pixel_format ≡ true
    → previous.monotonic_timestamp_nanos ≤ current.monotonic_timestamp_nanos
    → 0 < lost
    → current.sequence ≡ previous.sequence + 1 + lost
    → current.sequence ≤ u64_max
    → state.inferred_dropped_frames + lost ≤ u64_max
    → ((observe state current).1 ≡ frames_dropped)
      × ((observe state current).0.inferred_dropped_frames ≡ state.inferred_dropped_frames + lost)
      × ((observe state current).0.writer_restarts ≡ state.writer_restarts)
unfolding observe classify_frame_integrity
observe-dropped state p c lost l g w h f t n s b r = rw l (ground arith, ground arith, ground arith)

-- A stale source is reported once, since a second report announces nothing, and the next frame
-- that continues the history is reported as a resumption and ends the staleness.
pub mark_stale-observe :
    (state : FrameIntegrityState) (previous current : FrameObservation)
    → state.last_observation ≡ some previous
    → Follows previous current
    → ((mark_stale (mark_stale state).0).1 ≡ continuous)
      × ((observe (mark_stale state).0 current).1 ≡ resumed)
      × ((observe (mark_stale state).0 current).0.stale ≡ false)
unfolding mark_stale mark_drop observe classify_frame_integrity
mark_stale-observe state p c l f = rw l (
  ground arith,
  ground (arith, f.generation, f.width, f.height, f.format, f.time, f.sequence),
  ground arith,
)
