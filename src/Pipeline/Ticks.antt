-- ===== src/Pipeline/Ticks.antt =====
-- How a tick of a connected engine ends.
use camera_man.Base.{
  ℕ, suc, ◌+◌, ◌≤◌, ◌<◌, ◌≡◌, refl, ◌∙◌, ap, arith, String, u64_max, true, Option, none, some, ok,
  err, List, [], ◌∷◌, length, if_true, checked_add64,
}
use camera_man.Base.Options.{◌>>=◌}
use camera_man.Error.{CameraManError, context}
use camera_man.Frame.Buffer.{Frame}
use camera_man.Pipeline.{
  PipelineEngine, PipelineMetrics, RenderReport, SourceRead, Tick, no_metrics, add_duration,
}
use camera_man.Pipeline.Reading.{Reading, missing, first_reading}
use camera_man.Pipeline.Run.{render_once, render_connected, compose_tick, finish_tick, with_latency}
use camera_man.Pipeline.Room.{
  Room, Spent, add_duration_fits, accumulate-summed, summed, with_latency-Spent,
}
use camera_man.Pipeline.Accounts.{
  frames_of, errors_of, total_elapsed, gathered, gathered-frames, gathered-errors, gathered-spent,
  gathered-Tallied, read_sources_fits, Tallied,
}

length-frames_of : (reads : List SourceRead) → length (frames_of reads) ≡ length reads
length-frames_of [] = refl
length-frames_of (read ∷ reads) = ap suc (length-frames_of reads)

with_latency-Tallied :
    (r : Reading) (m : PipelineMetrics) (latency : ℕ → ℕ) (o : Option ℕ)
    → Tallied r m
    → Tallied r (with_latency m latency o)
with_latency-Tallied r m latency none t = t
with_latency-Tallied r m latency (some time) t = record {
  reads = t.reads;
  dropped = t.dropped;
  split = t.split;
  errors = t.errors;
  failures = t.failures;
  stale = t.stale;
  unfinished = t.unfinished;
}

abbrev first_tally : (e : PipelineEngine) → Tallied (first_reading e) no_metrics
first_tally e = record {
  reads = refl;
  dropped = refl;
  split = refl;
  errors = refl;
  failures = omega arith;
  stale = omega arith;
  unfinished = refl;
}

-- The report says of the sources what they answered, and names each error with its source.
pub record Reports (label : ℕ → String) (report : RenderReport) (reads : List SourceRead)
    : Type 0 where
  pub source_count : report.source_count ≡ length reads
  pub missing_count : report.missing_source_count ≡ missing (frames_of reads)
  pub split : report.metrics.source_frames_received + report.missing_source_count ≡ length reads
  pub errors : report.source_errors ≡ errors_of label 0 reads
  pub failures : length report.source_errors ≤ report.missing_source_count
  pub completed : report.metrics.ticks_completed ≡ 1

-- What a tick takes is no longer: all of its reads together, and everything else.
pub record Brief (most : ℕ) (tick : Tick) : Type 0 where
  pub few : length tick.reads ≤ u64_max
  pub reads : total_elapsed tick.reads ≤ most
  pub compose : tick.compose_elapsed ≤ most
  pub send : tick.send_elapsed ≤ most
  pub latency : (time : ℕ) → tick.latency time ≤ most

module _ (label : ℕ → String) (engine : PipelineEngine) (tick : Tick) (most : ℕ)
    (connected : engine.connected ≡ true) (brief : Brief most tick)
    (room : Room engine.metrics most) where
  abbrev pub last_reading : Reading
  last_reading = gathered label 0 tick.reads (first_reading engine)

  last_frames : last_reading.frames ≡ frames_of tick.reads
  last_frames = gathered-frames label 0 tick.reads (first_reading engine)

  last_tally : Tallied last_reading last_reading.metrics
  last_tally =
      gathered-Tallied label 0 tick.reads (first_reading engine) (omega (arith, brief.few))
        (first_tally engine)

  abbrev pub reading_engine : PipelineEngine
  reading_engine = record engine { last_source_sequences = last_reading.last_source_sequences }

  render_once_connected :
      render_once label engine tick
      ≡ compose_tick reading_engine tick last_reading (tick.compose (frames_of tick.reads))
  unfolding render_once render_connected
  render_once_connected =
      if_true engine.connected _ _ connected
      ∙ (ap
            (λ (r : Option Reading). r >>= λ (r : Reading).
              compose_tick (record engine { last_source_sequences = r.last_source_sequences }) tick
                r (tick.compose r.frames))
            (read_sources_fits label 0 tick.reads (first_reading engine)
              (omega (arith, brief.reads, room.source_read)))
          ∙ ap (λ frames. compose_tick reading_engine tick last_reading (tick.compose frames))
              last_frames)

  abbrev pub composed_metrics : PipelineMetrics
  composed_metrics = record last_reading.metrics {
    render_duration = last_reading.metrics.render_duration + tick.compose_elapsed;
  }

  abbrev pub timed : PipelineMetrics
  timed = record composed_metrics {
    sink_send_duration = last_reading.metrics.sink_send_duration + tick.send_elapsed;
  }

  last_spent :
      (last_reading.metrics.source_read_duration ≡ total_elapsed tick.reads)
      × (last_reading.metrics.render_duration ≡ 0)
      × (last_reading.metrics.sink_send_duration ≡ 0)
      × (last_reading.metrics.capture_to_sink_duration ≡ 0)
  last_spent =
      let spent = gathered-spent label 0 tick.reads (first_reading engine) in
      (omega (arith, spent.0), spent.1, spent.2, spent.3)

  composed_metrics-Spent : Spent most composed_metrics
  composed_metrics-Spent = record {
    capture_to_sink = omega (arith, last_spent.3);
    source_read = omega (arith, last_spent.0, brief.reads);
    render = omega (arith, last_spent.1, brief.compose);
    sink_send = omega (arith, last_spent.2);
  }

  timed-Spent : Spent most timed
  timed-Spent = record {
    capture_to_sink = composed_metrics-Spent.capture_to_sink;
    source_read = composed_metrics-Spent.source_read;
    render = composed_metrics-Spent.render;
    sink_send = omega (arith, last_spent.2, brief.send);
  }

  composing_fits :
      add_duration last_reading.metrics.render_duration tick.compose_elapsed
      ≡ some (last_reading.metrics.render_duration + tick.compose_elapsed)
  composing_fits =
      add_duration_fits last_reading.metrics.render_duration tick.compose_elapsed
        (omega (arith, last_spent.1, brief.compose, room.render))

  sending_fits :
      add_duration last_reading.metrics.sink_send_duration tick.send_elapsed
      ≡ some (last_reading.metrics.sink_send_duration + tick.send_elapsed)
  sending_fits =
      add_duration_fits last_reading.metrics.sink_send_duration tick.send_elapsed
        (omega (arith, last_spent.2, brief.send, room.sink_send))

  abbrev pub done : PipelineMetrics
  done = record (with_latency timed tick.latency last_reading.oldest) { ticks_completed = 1 }

  pub done-Spent : Spent most done
  done-Spent =
      let spent =
        with_latency-Spent most timed tick.latency last_reading.oldest timed-Spent brief.latency in
      record {
        capture_to_sink = spent.capture_to_sink;
        source_read = spent.source_read;
        render = spent.render;
        sink_send = spent.sink_send;
      }

  composed_tick :
      (output : Frame)
      → compose_tick reading_engine tick last_reading (ok output)
        ≡ finish_tick reading_engine tick last_reading timed output (tick.send output)
  unfolding compose_tick
  composed_tick output = rw (composing_fits, sending_fits) refl

  timed_tally : Tallied last_reading (with_latency timed tick.latency last_reading.oldest)
  timed_tally =
      let t = last_tally in
      with_latency-Tallied last_reading timed tick.latency last_reading.oldest (record {
        reads = t.reads;
        dropped = t.dropped;
        split = t.split;
        errors = t.errors;
        failures = t.failures;
        stale = t.stale;
        unfinished = t.unfinished;
      })

  abbrev pub last_report : Frame → RenderReport
  last_report output = record {
    tick_index = engine.tick_index + 1;
    source_count = length last_reading.frames;
    missing_source_count = missing last_reading.frames;
    source_errors = last_reading.source_errors;
    output = output;
    metrics = done;
  }

  abbrev pub next_engine : PipelineEngine
  next_engine = record reading_engine {
    metrics = summed engine.metrics done;
    tick_index = engine.tick_index + 1;
  }

  pub render_once_done :
      (output : Frame)
      → engine.tick_index < u64_max
      → tick.compose (frames_of tick.reads) ≡ ok output
      → tick.send output ≡ ok tt
      → render_once label engine tick ≡ some (next_engine, ok (last_report output))
  unfolding finish_tick
  render_once_done output low c s =
      let index : checked_add64 engine.tick_index 1 ≡ some (engine.tick_index + 1) =
        ground (arith, low) in
      render_once_connected
      ∙ (ap (compose_tick reading_engine tick last_reading) c
          ∙ (composed_tick output
              ∙ (ap (finish_tick reading_engine tick last_reading timed output) s
                  ∙ rw (accumulate-summed engine.metrics done most room done-Spent, index) refl)))

  pub last-Reports : (output : Frame) → Reports label (last_report output) tick.reads
  last-Reports output =
      let t = timed_tally in
      let long = ap length last_frames ∙ length-frames_of tick.reads in
      record {
        source_count = long;
        missing_count = ap missing last_frames;
        split = omega (arith, t.split, t.dropped, t.reads, long);
        errors = gathered-errors label 0 tick.reads (first_reading engine);
        failures = omega (arith, t.errors, t.failures, t.dropped);
        completed = refl;
      }

  pub render_once_uncomposed :
      (e : CameraManError)
      → tick.compose (frames_of tick.reads) ≡ err e
      → render_once label engine tick
        ≡ some (
          record reading_engine { metrics = summed engine.metrics composed_metrics },
          err (context "compose pipeline frame" e),
        )
  unfolding compose_tick
  render_once_uncomposed e c =
      render_once_connected
      ∙ (ap (compose_tick reading_engine tick last_reading) c
          ∙ rw
              (
                composing_fits,
                accumulate-summed engine.metrics composed_metrics most room composed_metrics-Spent,
              )
              refl)

  pub render_once_unsent :
      (output : Frame) (e : CameraManError)
      → tick.compose (frames_of tick.reads) ≡ ok output
      → tick.send output ≡ err e
      → render_once label engine tick
        ≡ some (
          record reading_engine { metrics = summed engine.metrics timed },
          err (context "send pipeline frame" e),
        )
  unfolding finish_tick
  render_once_unsent output e c s =
      render_once_connected
      ∙ (ap (compose_tick reading_engine tick last_reading) c
          ∙ (composed_tick output
              ∙ (ap (finish_tick reading_engine tick last_reading timed output) s
                  ∙ rw (accumulate-summed engine.metrics timed most room timed-Spent) refl)))

  -- A tick of a connected engine of fewer than 2 ^ 64 sources, whose output is composed and sent,
  -- succeeds, whatever the sources answer, when the sums of durations have room for the time it
  -- takes and the count of ticks is not at its top: each failure is a frame that is missing. The
  -- report accounts for every source and lists exactly the errors that were answered, with the
  -- index of each, and the engine has made one tick more.
  pub render_once_ok :
      (output : Frame)
      → engine.tick_index < u64_max
      → tick.compose (frames_of tick.reads) ≡ ok output
      → tick.send output ≡ ok tt
      → (next : PipelineEngine) × (report : RenderReport) × (render_once label engine tick
          ≡ some (next, ok report))
        × (report.output ≡ output)
        × (next.tick_index ≡ engine.tick_index + 1)
        × (report.tick_index ≡ engine.tick_index + 1)
        × Reports label report tick.reads
  render_once_ok output low c s = (
    next_engine,
    last_report output,
    render_once_done output low c s,
    refl,
    refl,
    refl,
    last-Reports output,
  )
