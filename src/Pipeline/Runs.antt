-- ===== src/Pipeline/Runs.antt =====
-- A run of ticks ends at the first that fails.
use camera_man.Base.{
  ℕ, ◌+◌, ◌≤◌, ◌<◌, ◌≡◌, ◌⊎◌, refl, ap, arith, String, u64_max, true, some, ok, err, inl, inr, List,
  [], ◌∷◌, ◌++◌, length, Result-cases, All, checked_add64,
}
use camera_man.Error.{CameraManError, Checked, context}
use camera_man.Frame.Buffer.{Frame}
use camera_man.Pipeline.{PipelineEngine, RenderReport, Tick, RunSummary}
use camera_man.Pipeline.Reading.{missing}
use camera_man.Pipeline.Accounts.{frames_of}
use camera_man.Pipeline.Room.{Room, Spent, accumulate-summed, summed, summed-Room, less-Room}
use camera_man.Pipeline.Ticks.{
  Brief, Reports, next_engine, last_report, render_once_done, render_once_uncomposed,
  render_once_unsent, last-Reports, done, done-Spent,
}
use camera_man.Pipeline.Run.{render_once, render_ticks, render_n, start_summary, add_report}

-- The output of the tick was composed of what its sources answered, and the sink took it.
abbrev pub IsSent : Tick → Type 0
IsSent tick =
    (output : Frame) × (tick.compose (frames_of tick.reads) ≡ ok output)
    × (tick.send output ≡ ok tt)

-- The compositor or the sink answered an error.
abbrev pub Fails : Tick → CameraManError → Type 0
Fails tick e =
    ((cause : CameraManError) × (tick.compose (frames_of tick.reads) ≡ err cause)
      × (e ≡ context "compose pipeline frame" cause))
    ⊎ ((output : Frame) × (cause : CameraManError) × (tick.compose (frames_of tick.reads)
          ≡ ok output)
        × (tick.send output ≡ err cause)
        × (e ≡ context "send pipeline frame" cause))

-- How a tick ends, with the room that is left.
abbrev TickEnds :
    (label : ℕ → String)
    → PipelineEngine
    → Tick
    → (most rest : ℕ) → PipelineEngine × Checked RenderReport
    → Type 0
TickEnds label engine tick most rest (next, ok report) =
    IsSent tick
    × (next.connected ≡ true)
    × (next.tick_index ≡ engine.tick_index + 1)
    × Room next.metrics rest
    × Spent most report.metrics
    × Reports label report tick.reads
TickEnds label engine tick most rest (next, err e) =
    Fails tick e × (next.tick_index ≡ engine.tick_index)

render_once_ends :
    (label : ℕ → String) (engine : PipelineEngine) (tick : Tick) (most rest : ℕ)
    → engine.connected ≡ true
    → Brief most tick
    → Room engine.metrics (most + rest)
    → engine.tick_index < u64_max
    → (r : PipelineEngine × Checked RenderReport) × (render_once label engine tick ≡ some r)
      × TickEnds label engine tick most rest r
render_once_ends label engine tick most rest connected brief room low =
    let fits = less-Room engine.metrics most rest room in
    elim (Result-cases (tick.compose (frames_of tick.reads))) [
      | inl (output, c) ↦ elim (Result-cases (tick.send output)) [
        | inl (done', s) ↦ (
          (
            next_engine label engine tick most connected brief fits,
            ok (last_report label engine tick most connected brief fits output),
          ),
          render_once_done label engine tick most connected brief fits output low c s,
          (
            (output, c, s),
            connected,
            refl,
            summed-Room engine.metrics (done label engine tick most connected brief fits) most rest
                room (done-Spent label engine tick most connected brief fits),
            done-Spent label engine tick most connected brief fits,
            last-Reports label engine tick most connected brief fits output,
          ),
        )
        | inr (e, s) ↦ (
          _,
          render_once_unsent label engine tick most connected brief fits output e c s,
          (inr (output, e, c, s, refl), refl),
        )
      ]
      | inr (e, c) ↦ (
        _,
        render_once_uncomposed label engine tick most connected brief fits e c,
        (inl (e, c, refl), refl),
      )
    ]

-- What a run may take, and what it may count.
abbrev pub budget : (most : ℕ) → List Tick → ℕ
budget most [] = 0
budget most (tick ∷ ticks) = most + budget most ticks

abbrev pub total_reads : List Tick → ℕ
total_reads [] = 0
total_reads (tick ∷ ticks) = length tick.reads + total_reads ticks

abbrev pub total_missing : List Tick → ℕ
total_missing [] = 0
total_missing (tick ∷ ticks) = missing (frames_of tick.reads) + total_missing ticks

-- The engine is connected, the ticks are brief, and no sum of the run overflows.
pub record IsReady (most : ℕ) (ticks : List Tick) (engine : PipelineEngine) (summary : RunSummary)
    : Type 0 where
  pub connected : engine.connected ≡ true
  pub brief : All (Brief most) ticks
  pub engine_room : Room engine.metrics (budget most ticks)
  pub summary_room : Room summary.metrics (budget most ticks)
  pub index : engine.tick_index + length ticks ≤ u64_max
  pub sent : summary.frames_sent + length ticks ≤ u64_max
  pub missing_sources : summary.missing_sources_seen + total_reads ticks ≤ u64_max
  pub source_errors : summary.source_errors_seen + total_reads ticks ≤ u64_max

-- How a run ends.
abbrev pub RunEnds :
    PipelineEngine → RunSummary → List Tick → PipelineEngine × Checked RunSummary → Type 0
RunEnds engine before ticks (next, ok summary) =
    All IsSent ticks
    × (summary.frames_sent ≡ before.frames_sent + length ticks)
    × (summary.missing_sources_seen ≡ before.missing_sources_seen + total_missing ticks)
    × (next.tick_index ≡ engine.tick_index + length ticks)
RunEnds engine before ticks (next, err e) =
    (sent : List Tick) × (failed : Tick) × (left : List Tick) × (ticks ≡ sent ++ (failed ∷ left))
    × All IsSent sent
    × Fails failed e
    × (next.tick_index ≡ engine.tick_index + length sent)

RunEnds-later :
    (engine next : PipelineEngine) (before added : RunSummary) (tick : Tick) (ticks : List Tick)
    → IsSent tick
    → next.tick_index ≡ engine.tick_index + 1
    → added.frames_sent ≡ before.frames_sent + 1
    → added.missing_sources_seen ≡ before.missing_sources_seen + missing (frames_of tick.reads)
    → (r : PipelineEngine × Checked RunSummary) → RunEnds next added ticks r
    → RunEnds engine before (tick ∷ ticks) r
RunEnds-later engine next before added tick ticks took index count gone (last, ok summary) ends = (
  (took, ends.0),
  omega (arith, count, ends.1),
  omega (arith, gone, ends.2),
  omega (arith, index, ends.3),
)
RunEnds-later engine next before added tick ticks took index count gone (last, err e) ends =
    let (sent, failed, left, whole, all_sent, fails, place) = ends in
    (
      tick ∷ sent,
      failed,
      left,
      ap (λ (rest : List Tick). tick ∷ rest) whole,
      (took, all_sent),
      fails,
      omega (arith, index, place),
    )

-- The summary with a report added, when every sum fits.
abbrev with_report : RunSummary → RenderReport → RunSummary
with_report summary report = record {
  ticks = summary.ticks;
  frames_sent = summary.frames_sent + 1;
  missing_sources_seen = summary.missing_sources_seen + report.missing_source_count;
  source_errors_seen = summary.source_errors_seen + length report.source_errors;
  metrics = summed summary.metrics report.metrics;
}

add_report-with_report :
    (summary : RunSummary) (report : RenderReport) (most : ℕ)
    → Room summary.metrics most
    → Spent most report.metrics
    → summary.frames_sent + 1 ≤ u64_max
    → summary.missing_sources_seen + report.missing_source_count ≤ u64_max
    → summary.source_errors_seen + length report.source_errors ≤ u64_max
    → add_report summary report ≡ some (with_report summary report)
unfolding add_report
add_report-with_report summary report most room spent sent gone failed =
    let a : checked_add64 summary.frames_sent 1 ≡ some (summary.frames_sent + 1) =
      ground (arith, sent) in
    let b : checked_add64 summary.missing_sources_seen report.missing_source_count
        ≡ some (summary.missing_sources_seen + report.missing_source_count) =
      ground (arith, gone) in
    let c : checked_add64 summary.source_errors_seen (length report.source_errors)
        ≡ some (summary.source_errors_seen + length report.source_errors) =
      ground (arith, failed) in
    rw (a, b, c, accumulate-summed summary.metrics report.metrics most room spent) refl

render_ticks-RunEnds :
    (label : ℕ → String) (most : ℕ) (ticks : List Tick) (engine : PipelineEngine)
    (summary : RunSummary)
    → IsReady most ticks engine summary
    → (r : PipelineEngine × Checked RunSummary) × (render_ticks label engine summary ticks ≡ some r)
      × RunEnds engine summary ticks r
unfolding render_ticks
render_ticks-RunEnds label most [] engine summary ready =
    ((engine, ok summary), refl, (tt, omega arith, omega arith, omega arith))
render_ticks-RunEnds label most (tick ∷ ticks) engine summary ready =
    let (r, made, ends) =
      render_once_ends label engine tick most (budget most ticks) ready.connected ready.brief.0
        ready.engine_room (omega (arith, ready.index)) in
    after r made ends (render_ticks-RunEnds label most ticks)
  where
    after :
        (r : PipelineEngine × Checked RenderReport)
        → render_once label engine tick ≡ some r
        → TickEnds label engine tick most (budget most ticks) r
        → ((next : PipelineEngine) (added : RunSummary)
            → IsReady most ticks next added
            → (r : PipelineEngine × Checked RunSummary) × (render_ticks label next added ticks
                ≡ some r)
              × RunEnds next added ticks r)
        → (r : PipelineEngine × Checked RunSummary) × (render_ticks label engine summary
              (tick ∷ ticks)
            ≡ some r)
          × RunEnds engine summary (tick ∷ ticks) r
    after (next, err e) made (fails, same) later = (
      (next, err e),
      rw (made, render_ticks) refl,
      ([], tick, ticks, refl, tt, fails, omega (arith, same)),
    )
    after (next, ok report) made (took, connected, index, room, spent, reports) later =
        let fits = less-Room summary.metrics most (budget most ticks) ready.summary_room in
        let short : report.missing_source_count ≤ length tick.reads =
          omega (arith, reports.split) in
        let added =
          add_report-with_report summary report most fits spent (omega (arith, ready.sent))
            (omega (arith, ready.missing_sources, short))
            (omega (arith, ready.source_errors, short, reports.failures)) in
        let (last, whole, ends) = later next (with_report summary report) (record {
          connected = connected;
          brief = ready.brief.1;
          engine_room = room;
          summary_room =
              summed-Room summary.metrics report.metrics most (budget most ticks) ready.summary_room
                spent;
          index = omega (arith, ready.index, index);
          sent = omega (arith, ready.sent);
          missing_sources = omega (arith, ready.missing_sources, short);
          source_errors = omega (arith, ready.source_errors, short, reports.failures);
        }) in
        (
          last,
          rw (made, render_ticks) (rw added whole),
          RunEnds-later engine next summary (with_report summary report) tick ticks took index refl
              (omega (arith, reports.missing_count)) last ends,
        )

-- A run of a connected engine answers, when each tick takes no longer than a time for which, as often
-- as there are ticks, the sums of durations have room, and the counters have room for the ticks and
-- their reads. If it succeeds, every tick's output was composed of what its sources answered and
-- taken by the sink, and the frames, the missing sources and the ticks are counted exactly. If it
-- fails, its error is that of the first tick that could not be composed or sent, and the ticks
-- before it were sent and counted.
pub render_n-RunEnds :
    (label : ℕ → String) (most : ℕ) (ticks : List Tick) (engine : PipelineEngine)
    → IsReady most ticks engine (start_summary (length ticks))
    → (r : PipelineEngine × Checked RunSummary) × (render_n label engine ticks ≡ some r)
      × RunEnds engine (start_summary (length ticks)) ticks r
unfolding render_n
render_n-RunEnds label most ticks engine ready =
    render_ticks-RunEnds label most ticks engine (start_summary (length ticks)) ready
