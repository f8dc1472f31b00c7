-- ===== src/Pipeline/Run.antt =====
-- src/pipeline.rs, `render_once` after the loop over the sources, and `render_n`.
use camera_man.Base.{
  ℕ, String, if◌then◌else◌, Option, none, some, ok, err, List, [], ◌∷◌, length, checked_add64,
}
use camera_man.Base.Options.{◌>>=◌}
use camera_man.Error.{virtual_camera_unavailable, context, Checked}
use camera_man.Frame.Buffer.{Frame}
use camera_man.Pipeline.{
  PipelineMetrics, PipelineEngine, RenderReport, RunSummary, Tick, no_metrics, accumulate,
  add_duration,
}
use camera_man.Pipeline.Reading.{Reading, read_sources, first_reading, missing}

abbrev pub with_latency : PipelineMetrics → (latency : ℕ → ℕ) → Option ℕ → PipelineMetrics
with_latency m latency none = m
with_latency m latency (some time) = record m {
  latency_samples = 1;
  capture_to_sink_duration = latency time;
  max_capture_to_sink_duration = latency time;
}

-- What a call leaves and answers, where `none` is a panic: of a sum of durations, or of `+=` on a
-- `u64` that does not fit, in a build that checks for overflow.
abbrev pub Attempt : Type 0 → Type 0
Attempt A = Option (PipelineEngine × Checked A)

-- The end of a tick: what the sink answers for the output.
unfoldable pub finish_tick :
    PipelineEngine
    → Tick
    → Reading
    → PipelineMetrics
    → (output : Frame) → Checked (Unit {0})
    → Attempt RenderReport
unfolding accumulate
finish_tick engine tick r m output (err e) = do
  metrics ← accumulate engine.metrics m
  some (record engine { metrics = metrics }, err (context "send pipeline frame" e))
finish_tick engine tick r m output (ok done) = do
  metrics ←
      accumulate engine.metrics
        (record (with_latency m tick.latency r.oldest) { ticks_completed = 1 })
  tick_index ← checked_add64 engine.tick_index 1
  some (
    record engine { metrics = metrics; tick_index = tick_index },
    ok (record {
      tick_index = tick_index;
      source_count = length r.frames;
      missing_source_count = missing r.frames;
      source_errors = r.source_errors;
      output = output;
      metrics = record (with_latency m tick.latency r.oldest) { ticks_completed = 1 };
    }),
  )

unfoldable pub compose_tick : PipelineEngine → Tick → Reading → Checked Frame → Attempt RenderReport
unfolding finish_tick accumulate add_duration
compose_tick engine tick r (err e) = do
  render_duration ← add_duration r.metrics.render_duration tick.compose_elapsed
  metrics ← accumulate engine.metrics (record r.metrics { render_duration = render_duration })
  some (record engine { metrics = metrics }, err (context "compose pipeline frame" e))
compose_tick engine tick r (ok output) = do
  render_duration ← add_duration r.metrics.render_duration tick.compose_elapsed
  sink_send_duration ← add_duration r.metrics.sink_send_duration tick.send_elapsed
  finish_tick engine tick r
      (record r.metrics {
        render_duration = render_duration;
        sink_send_duration = sink_send_duration;
      })
      output (tick.send output)

-- A tick of an engine that is connected.
unfoldable pub render_connected :
    (label : ℕ → String) → PipelineEngine → Tick → Attempt RenderReport
unfolding read_sources compose_tick
render_connected label engine tick = do
  r ← read_sources label 0 tick.reads (first_reading engine)
  compose_tick (record engine { last_source_sequences = r.last_source_sequences }) tick r
      (tick.compose r.frames)

unfoldable pub render_once : (label : ℕ → String) → PipelineEngine → Tick → Attempt RenderReport
unfolding render_connected
render_once label engine tick =
    if engine.connected
    then render_connected label engine tick
    else some (engine, err (virtual_camera_unavailable "pipeline is not started"))

abbrev pub start_summary : (ticks : ℕ) → RunSummary
start_summary ticks = record {
  ticks = ticks;
  frames_sent = 0;
  missing_sources_seen = 0;
  source_errors_seen = 0;
  metrics = no_metrics;
}

unfoldable pub add_report : RunSummary → RenderReport → Option RunSummary
unfolding accumulate
add_report summary report = do
  frames_sent ← checked_add64 summary.frames_sent 1
  missing_sources_seen ← checked_add64 summary.missing_sources_seen report.missing_source_count
  source_errors_seen ← checked_add64 summary.source_errors_seen (length report.source_errors)
  metrics ← accumulate summary.metrics report.metrics
  some (record {
    ticks = summary.ticks;
    frames_sent = frames_sent;
    missing_sources_seen = missing_sources_seen;
    source_errors_seen = source_errors_seen;
    metrics = metrics;
  })

-- The loop of `render_n`: the first tick that fails ends it.
unfoldable pub render_ticks :
    (label : ℕ → String) → PipelineEngine → RunSummary → List Tick → Attempt RunSummary
unfolding add_report render_once
render_ticks label engine summary [] = some (engine, ok summary)
render_ticks label engine summary (tick ∷ ticks) = do
  (next, answer) ← render_once label engine tick
  elim answer [
    | err e ↦ some (next, err e)
    | ok report ↦
        add_report summary report >>= λ (added : RunSummary). render_ticks label next added ticks
  ]

unfoldable pub render_n : (label : ℕ → String) → PipelineEngine → List Tick → Attempt RunSummary
unfolding render_ticks
render_n label engine ticks = render_ticks label engine (start_summary (length ticks)) ticks
