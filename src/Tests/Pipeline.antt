-- ===== src/Tests/Pipeline.antt =====
-- The pipeline on a tick of three sources, and the limits of a small document.
use camera_man.Base.{
  ℕ, ◌+◌, ◌≤◌, ◌≡◌, ◌↔◌, refl, arith, true, none, some, ok, err, List, [], ◌∷◌, length, String,
  saturating_mul64,
}
use camera_man.Error.{Checked, empty_frame, empty_input}
use camera_man.Limits.{validate_json_envelope, profile_parser_limits}
use camera_man.Limits.Envelope.{AlwaysSmall, blank, validate_json_envelope_iff}
use camera_man.Pipeline.{
  CapturedFrame, PipelineEngine, RenderReport, RunSummary, SourceRead, Tick, no_metrics,
}
use camera_man.Pipeline.Room.{Room}
use camera_man.Pipeline.Run.{render_once, render_n, start_summary}
use camera_man.Pipeline.Ticks.{Brief, Reports, render_once_ok}
use camera_man.Pipeline.Runs.{IsReady, RunEnds, render_n-RunEnds}
use camera_man.Tests.Samples.{small_frame}

abbrev captured : CapturedFrame
captured = record {
  frame = small_frame;
  metadata = record { source_id = "left"; sequence = 5; monotonic = 100; wall = 200 };
}

abbrev three_reads : List SourceRead
three_reads =
    record { answer = ok (some captured); elapsed = 3 }
    ∷ record { answer = err empty_frame; elapsed = 1 }
    ∷ record { answer = ok none; elapsed = 1 }
    ∷ []

abbrev good_tick : Tick
good_tick = record {
  reads = three_reads;
  compose = λ frames. ok small_frame;
  compose_elapsed = 10;
  send = λ frame. ok tt;
  send_elapsed = 2;
  latency = λ time. 50;
}

abbrev dark_tick : Tick
dark_tick = record good_tick { compose = λ frames. err empty_input }

abbrev running : PipelineEngine
running = record {
  connected = true;
  tick_index = 8;
  metrics = no_metrics;
  last_source_sequences = some 5 ∷ none ∷ none ∷ [];
}

abbrev label : ℕ → String
label index = "read source"

short_tick : Brief 50 good_tick
short_tick = record {
  few = omega arith;
  reads = omega arith;
  compose = omega arith;
  send = omega arith;
  latency = λ time. omega arith;
}

short_dark_tick : Brief 50 dark_tick
short_dark_tick = record {
  few = omega arith;
  reads = omega arith;
  compose = omega arith;
  send = omega arith;
  latency = λ time. omega arith;
}

nothing_spent : (more : ℕ) → more ≤ 1000 → Room no_metrics more
nothing_spent more few = record {
  capture_to_sink = omega (arith, few);
  source_read = omega (arith, few);
  render = omega (arith, few);
  sink_send = omega (arith, few);
}

render_once_ok_example :
    (next : PipelineEngine) × (report : RenderReport) × (render_once label running good_tick
      ≡ some (next, ok report))
    × (report.output ≡ small_frame)
    × (next.tick_index ≡ 8 + 1)
    × (report.tick_index ≡ 8 + 1)
    × Reports label report three_reads
render_once_ok_example =
    render_once_ok label running good_tick 50 refl short_tick (nothing_spent 50 (omega arith))
      small_frame (omega arith) refl refl

abbrev three_ticks : List Tick
three_ticks = good_tick ∷ dark_tick ∷ good_tick ∷ []

three_ticks-IsReady : IsReady 50 three_ticks running (start_summary 3)
three_ticks-IsReady = record {
  connected = refl;
  brief = (short_tick, (short_dark_tick, (short_tick, tt)));
  engine_room = nothing_spent 150 (omega arith);
  summary_room = nothing_spent 150 (omega arith);
  index = omega arith;
  sent = omega arith;
  missing_sources = omega arith;
  source_errors = omega arith;
}

render_n-RunEnds_example :
    (r : PipelineEngine × Checked RunSummary) × (render_n label running three_ticks ≡ some r)
    × RunEnds running (start_summary 3) three_ticks r
render_n-RunEnds_example = render_n-RunEnds label 50 three_ticks running three_ticks-IsReady

-- `[{"a":1}]`.
abbrev document : List ℕ
document = 91 ∷ 123 ∷ 34 ∷ 97 ∷ 34 ∷ 58 ∷ 49 ∷ 125 ∷ 93 ∷ []

validate_json_envelope_iff_example :
    (validate_json_envelope document profile_parser_limits ≡ ok tt) ↔ (
      (length document ≤ profile_parser_limits.max_input_bytes)
      × ((saturating_mul64 (length document) 2 ≤ profile_parser_limits.max_allocation_bytes)
          × AlwaysSmall profile_parser_limits blank document))
validate_json_envelope_iff_example = validate_json_envelope_iff document profile_parser_limits
