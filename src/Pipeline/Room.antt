-- ===== src/Pipeline/Room.antt =====
-- Sums of durations that fit.
use camera_man.Base.{
  ℕ, ◌+◌, ◌≤◌, ◌≡◌, refl, arith, Option, none, some, max, false, ltb, saturating_add64,
}
use camera_man.Pipeline.{PipelineMetrics, accumulate, add_duration, max_duration}
use camera_man.Pipeline.Run.{with_latency}

-- Each sum of durations can grow by so much.
pub record Room (m : PipelineMetrics) (more : ℕ) : Type 0 where
  pub capture_to_sink : m.capture_to_sink_duration + more ≤ max_duration
  pub source_read : m.source_read_duration + more ≤ max_duration
  pub render : m.render_duration + more ≤ max_duration
  pub sink_send : m.sink_send_duration + more ≤ max_duration

-- No sum of durations is longer.
pub record Spent (most : ℕ) (m : PipelineMetrics) : Type 0 where
  pub capture_to_sink : m.capture_to_sink_duration ≤ most
  pub source_read : m.source_read_duration ≤ most
  pub render : m.render_duration ≤ most
  pub sink_send : m.sink_send_duration ≤ most

pub add_duration_fits : (a b : ℕ) → a + b ≤ max_duration → add_duration a b ≡ some (a + b)
unfolding add_duration
add_duration_fits a b h =
    let fits : ltb max_duration (a + b) ≡ false = ground (arith, h) in rw fits refl

-- The accumulated metrics, when every sum fits.
abbrev pub summed : PipelineMetrics → PipelineMetrics → PipelineMetrics
summed a b = record {
  ticks_completed = saturating_add64 a.ticks_completed b.ticks_completed;
  source_reads = saturating_add64 a.source_reads b.source_reads;
  source_frames_received = saturating_add64 a.source_frames_received b.source_frames_received;
  dropped_source_frames = saturating_add64 a.dropped_source_frames b.dropped_source_frames;
  source_errors = saturating_add64 a.source_errors b.source_errors;
  stale_source_frames = saturating_add64 a.stale_source_frames b.stale_source_frames;
  latency_samples = saturating_add64 a.latency_samples b.latency_samples;
  capture_to_sink_duration = a.capture_to_sink_duration + b.capture_to_sink_duration;
  max_capture_to_sink_duration = max a.max_capture_to_sink_duration b.max_capture_to_sink_duration;
  source_read_duration = a.source_read_duration + b.source_read_duration;
  render_duration = a.render_duration + b.render_duration;
  sink_send_duration = a.sink_send_duration + b.sink_send_duration;
}

pub accumulate-summed :
    (a b : PipelineMetrics) (most : ℕ)
    → Room a most
    → Spent most b
    → accumulate a b ≡ some (summed a b)
unfolding accumulate
accumulate-summed a b most room spent =
    let capture_to_sink =
      add_duration_fits a.capture_to_sink_duration b.capture_to_sink_duration
        (omega (arith, room.capture_to_sink, spent.capture_to_sink)) in
    let source_read =
      add_duration_fits a.source_read_duration b.source_read_duration
        (omega (arith, room.source_read, spent.source_read)) in
    let render =
      add_duration_fits a.render_duration b.render_duration
        (omega (arith, room.render, spent.render)) in
    let sink_send =
      add_duration_fits a.sink_send_duration b.sink_send_duration
        (omega (arith, room.sink_send, spent.sink_send)) in
    rw (capture_to_sink, source_read, render, sink_send) refl

pub summed-Room :
    (a b : PipelineMetrics) (most rest : ℕ)
    → Room a (most + rest)
    → Spent most b
    → Room (summed a b) rest
summed-Room a b most rest room spent = record {
  capture_to_sink = omega (arith, room.capture_to_sink, spent.capture_to_sink);
  source_read = omega (arith, room.source_read, spent.source_read);
  render = omega (arith, room.render, spent.render);
  sink_send = omega (arith, room.sink_send, spent.sink_send);
}

pub less-Room : (m : PipelineMetrics) (most rest : ℕ) → Room m (most + rest) → Room m most
less-Room m most rest room = record {
  capture_to_sink = omega (arith, room.capture_to_sink);
  source_read = omega (arith, room.source_read);
  render = omega (arith, room.render);
  sink_send = omega (arith, room.sink_send);
}

pub with_latency-Spent :
    (most : ℕ) (m : PipelineMetrics) (latency : ℕ → ℕ) (oldest : Option ℕ)
    → Spent most m
    → ((time : ℕ) → latency time ≤ most)
    → Spent most (with_latency m latency oldest)
with_latency-Spent most m latency none spent short = spent
with_latency-Spent most m latency (some time) spent short = record {
  capture_to_sink = short time;
  source_read = spent.source_read;
  render = spent.render;
  sink_send = spent.sink_send;
}
