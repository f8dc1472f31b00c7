-- ===== src/Pipeline.antt =====
-- src/pipeline.rs: the composition loop that reads its sources, composes and sends, one tick at a time
-- (with `CapturedFrame` of src/frame.rs). What the sources, the compositor, the sink and the clocks
-- answer in a tick is an argument. Durations are nanoseconds. The text of an index is a parameter.
pub mod Reading
pub mod Run
pub mod Room
pub mod Accounts
pub mod Ticks
pub mod Runs
use camera_man.Base.{
  ℕ, zero, suc, ◌+◌, String, min, max, Bool, true, false, not, ◌&&◌, ◌==◌, if◌then◌else◌, Option,
  none, some, Result, ok, err, List, [], ◌∷◌, ◌++◌, length, get_elem?, replicate, map,
  saturating_add64, ltb, ◌*◌,
}
use camera_man.Base.Options.{◌>>=◌}
use camera_man.Error.{CameraManError, virtual_camera_unavailable, context, Checked}
use camera_man.Frame.Buffer.{Frame}

pub record FrameMetadata : Type 0 where
  pub source_id : String
  pub sequence : ℕ
  pub monotonic : ℕ
  pub wall : ℕ

pub record CapturedFrame : Type 0 where
  pub frame : Frame
  pub metadata : FrameMetadata

pub record PipelineMetrics : Type 0 where
  pub ticks_completed : ℕ
  pub source_reads : ℕ
  pub source_frames_received : ℕ
  pub dropped_source_frames : ℕ
  pub source_errors : ℕ
  pub stale_source_frames : ℕ
  pub latency_samples : ℕ
  pub capture_to_sink_duration : ℕ
  pub max_capture_to_sink_duration : ℕ
  pub source_read_duration : ℕ
  pub render_duration : ℕ
  pub sink_send_duration : ℕ

abbrev pub no_metrics : PipelineMetrics
no_metrics = record {
  ticks_completed = 0;
  source_reads = 0;
  source_frames_received = 0;
  dropped_source_frames = 0;
  source_errors = 0;
  stale_source_frames = 0;
  latency_samples = 0;
  capture_to_sink_duration = 0;
  max_capture_to_sink_duration = 0;
  source_read_duration = 0;
  render_duration = 0;
  sink_send_duration = 0;
}

-- `Duration::MAX` in nanoseconds.
abbrev pub max_duration : ℕ
max_duration = 18446744073709551615 * 1000000000 + 999999999

-- The sum of two durations, where `none` is the panic of a sum that does not fit.
unfoldable pub add_duration : ℕ → ℕ → Option ℕ
add_duration a b = if ltb max_duration (a + b) then none else some (a + b)

-- The counters stop at the top, and a sum of durations may panic.
unfoldable pub accumulate : PipelineMetrics → PipelineMetrics → Option PipelineMetrics
unfolding add_duration
accumulate a b = do
  capture_to_sink ← add_duration a.capture_to_sink_duration b.capture_to_sink_duration
  source_read ← add_duration a.source_read_duration b.source_read_duration
  render ← add_duration a.render_duration b.render_duration
  sink_send ← add_duration a.sink_send_duration b.sink_send_duration
  some (record {
    ticks_completed = saturating_add64 a.ticks_completed b.ticks_completed;
    source_reads = saturating_add64 a.source_reads b.source_reads;
    source_frames_received = saturating_add64 a.source_frames_received b.source_frames_received;
    dropped_source_frames = saturating_add64 a.dropped_source_frames b.dropped_source_frames;
    source_errors = saturating_add64 a.source_errors b.source_errors;
    stale_source_frames = saturating_add64 a.stale_source_frames b.stale_source_frames;
    latency_samples = saturating_add64 a.latency_samples b.latency_samples;
    capture_to_sink_duration = capture_to_sink;
    max_capture_to_sink_duration =
        max a.max_capture_to_sink_duration b.max_capture_to_sink_duration;
    source_read_duration = source_read;
    render_duration = render;
    sink_send_duration = sink_send;
  })

pub record RenderReport : Type 0 where
  pub tick_index : ℕ
  pub source_count : ℕ
  pub missing_source_count : ℕ
  pub source_errors : List (ℕ × CameraManError)
  pub output : Frame
  pub metrics : PipelineMetrics

pub record RunSummary : Type 0 where
  pub ticks : ℕ
  pub frames_sent : ℕ
  pub missing_sources_seen : ℕ
  pub source_errors_seen : ℕ
  pub metrics : PipelineMetrics

-- The state of the engine, without its sources, its compositor and its sink.
pub record PipelineEngine : Type 0 where
  pub connected : Bool
  pub tick_index : ℕ
  pub metrics : PipelineMetrics
  pub last_source_sequences : List (Option ℕ)

-- What one source answers, and how long it takes.
pub record SourceRead : Type 0 where
  pub answer : Checked (Option CapturedFrame)
  pub elapsed : ℕ

-- What a tick meets. `latency` is the age of a capture time.
pub record Tick : Type 0 where
  pub reads : List SourceRead
  pub compose : List (Option CapturedFrame) → Checked Frame
  pub compose_elapsed : ℕ
  pub send : Frame → Checked (Unit {0})
  pub send_elapsed : ℕ
  pub latency : ℕ → ℕ

unfoldable pub new_engine : (source_count : ℕ) → PipelineEngine
new_engine source_count = record {
  connected = false;
  tick_index = 0;
  metrics = no_metrics;
  last_source_sequences = replicate source_count none;
}

-- `connection` is what the sink answers when it is asked.
unfoldable pub start_engine :
    PipelineEngine → (connection : Checked (Unit {0})) → PipelineEngine × Checked (Unit {0})
start_engine engine connection = if engine.connected then (engine, ok tt) else elim connection [
  | ok done ↦ (record engine { connected = true }, ok tt)
  | err e ↦ (engine, err e)
]

-- The engine, and whether the sink is told to disconnect.
unfoldable pub stop_engine : PipelineEngine → PipelineEngine × Bool
stop_engine engine = (record engine { connected = false }, engine.connected)
