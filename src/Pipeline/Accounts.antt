-- ===== src/Pipeline/Accounts.antt =====
-- What a report says is what the sources answered, and no answer of a source ends a tick.
use camera_man.Base.{
  ℕ, suc, ◌+◌, ◌≤◌, ◌≡◌, refl, sym, ◌∙◌, ap, arith, String, u64_max, Option, none, some, ok, err,
  List, [], ◌∷◌, ◌++◌, length, length-append, append_assoc, append-nil, ltb, false,
}
use camera_man.Error.{CameraManError, Checked, context}
use camera_man.Pipeline.{CapturedFrame, PipelineMetrics, SourceRead, add_duration, max_duration}
use camera_man.Pipeline.Reading.{
  Reading, handle_answer, read_sources, missing, count_read, with_read,
}

-- An error counts as a frame that is missing.
abbrev pub frame_of : Checked (Option CapturedFrame) → Option CapturedFrame
frame_of (ok frame) = frame
frame_of (err e) = none

abbrev pub frames_of : List SourceRead → List (Option CapturedFrame)
frames_of [] = []
frames_of (read ∷ reads) = frame_of read.answer ∷ frames_of reads

missing-append :
    (xs ys : List (Option CapturedFrame)) → missing (xs ++ ys) ≡ missing xs + missing ys
missing-append [] ys = omega arith
missing-append (none ∷ xs) ys = omega (arith, missing-append xs ys)
missing-append (some x ∷ xs) ys = missing-append xs ys

handle_answer-frames :
    (label : ℕ → String) (index : ℕ) (r : Reading) (answer : Checked (Option CapturedFrame))
    → (handle_answer label index r answer).frames ≡ r.frames ++ (frame_of answer ∷ [])
unfolding handle_answer
handle_answer-frames label index r (ok (some captured)) = refl
handle_answer-frames label index r (ok none) = refl
handle_answer-frames label index r (err e) = refl

-- The loop, if no sum of durations panics.
abbrev pub gathered : (label : ℕ → String) → (index : ℕ) → List SourceRead → Reading → Reading
gathered label index [] r = r
gathered label index (read ∷ reads) r = gathered label (suc index) reads (
    handle_answer label index (with_read r (r.metrics.source_read_duration + read.elapsed))
      read.answer)

abbrev pub total_elapsed : List SourceRead → ℕ
total_elapsed [] = 0
total_elapsed (read ∷ reads) = read.elapsed + total_elapsed reads

abbrev error_of :
    (label : ℕ → String) → (index : ℕ) → Checked (Option CapturedFrame) → List (ℕ × CameraManError)
error_of label index (ok frame) = []
error_of label index (err e) = (index, context (label index) e) ∷ []

-- The errors that the sources answer, each with its index and its context.
abbrev pub errors_of :
    (label : ℕ → String) → (index : ℕ) → List SourceRead → List (ℕ × CameraManError)
errors_of label index [] = []
errors_of label index (read ∷ reads) =
    error_of label index read.answer ++ errors_of label (suc index) reads

handle_answer-spent :
    (label : ℕ → String) (index : ℕ) (r : Reading) (answer : Checked (Option CapturedFrame))
    → let after = (handle_answer label index r answer).metrics in
      (after.source_read_duration ≡ r.metrics.source_read_duration)
      × (after.render_duration ≡ r.metrics.render_duration)
      × (after.sink_send_duration ≡ r.metrics.sink_send_duration)
      × (after.capture_to_sink_duration ≡ r.metrics.capture_to_sink_duration)
unfolding handle_answer
handle_answer-spent label index r (ok (some captured)) = (refl, refl, refl, refl)
handle_answer-spent label index r (ok none) = (refl, refl, refl, refl)
handle_answer-spent label index r (err e) = (refl, refl, refl, refl)

-- The loop adds the time of its reads, and no other.
pub gathered-spent :
    (label : ℕ → String) (index : ℕ) (reads : List SourceRead) (r : Reading)
    → let after = (gathered label index reads r).metrics in
      (after.source_read_duration ≡ r.metrics.source_read_duration + total_elapsed reads)
      × (after.render_duration ≡ r.metrics.render_duration)
      × (after.sink_send_duration ≡ r.metrics.sink_send_duration)
      × (after.capture_to_sink_duration ≡ r.metrics.capture_to_sink_duration)
gathered-spent label index [] r = (omega arith, refl, refl, refl)
gathered-spent label index (read ∷ reads) r =
    let c = with_read r (r.metrics.source_read_duration + read.elapsed) in
    let step = handle_answer-spent label index c read.answer in
    let rest = gathered-spent label (suc index) reads (handle_answer label index c read.answer) in
    (omega (arith, step.0, rest.0), rest.1 ∙ step.1, rest.2 ∙ step.2, rest.3 ∙ step.3)

-- It does not panic when the time of the reads fits.
pub read_sources_fits :
    (label : ℕ → String) (index : ℕ) (reads : List SourceRead) (r : Reading)
    → r.metrics.source_read_duration + total_elapsed reads ≤ max_duration
    → read_sources label index reads r ≡ some (gathered label index reads r)
unfolding read_sources count_read add_duration
read_sources_fits label index [] r h = refl
read_sources_fits label index (read ∷ reads) r h =
    let c = with_read r (r.metrics.source_read_duration + read.elapsed) in
    let step = handle_answer-spent label index c read.answer in
    let fits : ltb max_duration (r.metrics.source_read_duration + read.elapsed) ≡ false =
      ground (arith, h) in
    rw (fits, read_sources, count_read)
      (read_sources_fits label (suc index) reads (handle_answer label index c read.answer)
        (omega (arith, h, step.0)))

pub gathered-frames :
    (label : ℕ → String) (index : ℕ) (reads : List SourceRead) (r : Reading)
    → (gathered label index reads r).frames ≡ r.frames ++ frames_of reads
gathered-frames label index [] r = sym (append-nil r.frames)
gathered-frames label index (read ∷ reads) r =
    let c = with_read r (r.metrics.source_read_duration + read.elapsed) in
    gathered-frames label (suc index) reads (handle_answer label index c read.answer)
    ∙ (ap (λ fs. fs ++ frames_of reads) (handle_answer-frames label index c read.answer)
        ∙ append_assoc r.frames (frame_of read.answer ∷ []) (frames_of reads))

handle_answer-errors :
    (label : ℕ → String) (index : ℕ) (r : Reading) (answer : Checked (Option CapturedFrame))
    → (handle_answer label index r answer).source_errors
      ≡ r.source_errors ++ error_of label index answer
unfolding handle_answer
handle_answer-errors label index r (ok (some captured)) = sym (append-nil r.source_errors)
handle_answer-errors label index r (ok none) = sym (append-nil r.source_errors)
handle_answer-errors label index r (err e) = refl

pub gathered-errors :
    (label : ℕ → String) (index : ℕ) (reads : List SourceRead) (r : Reading)
    → (gathered label index reads r).source_errors ≡ r.source_errors ++ errors_of label index reads
gathered-errors label index [] r = sym (append-nil r.source_errors)
gathered-errors label index (read ∷ reads) r =
    let c = with_read r (r.metrics.source_read_duration + read.elapsed) in
    gathered-errors label (suc index) reads (handle_answer label index c read.answer)
    ∙ (ap (λ es. es ++ errors_of label (suc index) reads)
          (handle_answer-errors label index c read.answer)
        ∙ append_assoc r.source_errors (error_of label index read.answer)
            (errors_of label (suc index) reads))

-- The counters of a reading agree with its frames and errors.
pub record Tallied (r : Reading) (m : PipelineMetrics) : Type 0 where
  pub reads : m.source_reads ≡ length r.frames
  pub dropped : m.dropped_source_frames ≡ missing r.frames
  pub split : m.source_frames_received + m.dropped_source_frames ≡ m.source_reads
  pub errors : m.source_errors ≡ length r.source_errors
  pub failures : m.source_errors ≤ m.dropped_source_frames
  pub stale : m.stale_source_frames ≤ m.source_frames_received
  pub unfinished : m.ticks_completed ≡ 0

handle_answer-Tallied :
    (label : ℕ → String) (index : ℕ) (r : Reading) (spent : ℕ)
    (answer : Checked (Option CapturedFrame))
    → length r.frames + 1 ≤ u64_max
    → Tallied r r.metrics
    → Tallied
        (handle_answer label index (with_read r spent) answer)
        (handle_answer label index (with_read r spent) answer).metrics
unfolding handle_answer
handle_answer-Tallied label index r spent (ok (some captured)) b t =
    let f = length-append r.frames (some captured ∷ []) in
    let m = missing-append r.frames (some captured ∷ []) in
    record {
      reads = omega (arith, f, b, t.reads);
      dropped = omega (arith, m, t.dropped);
      split = omega (arith, b, t.reads, t.split);
      errors = t.errors;
      failures = t.failures;
      stale = ground (arith, b, t.reads, t.split, t.stale);
      unfinished = t.unfinished;
    }
handle_answer-Tallied label index r spent (ok none) b t =
    let f = length-append r.frames (none ∷ []) in
    let m = missing-append r.frames (none ∷ []) in
    record {
      reads = omega (arith, f, b, t.reads);
      dropped = omega (arith, m, t.dropped, t.split, t.reads, b);
      split = omega (arith, b, t.reads, t.split);
      errors = t.errors;
      failures = omega (arith, t.failures, t.split, t.reads, b);
      stale = t.stale;
      unfinished = t.unfinished;
    }
handle_answer-Tallied label index r spent (err e) b t =
    let f = length-append r.frames (none ∷ []) in
    let m = missing-append r.frames (none ∷ []) in
    let l = length-append r.source_errors ((index, context (label index) e) ∷ []) in
    record {
      reads = omega (arith, f, b, t.reads);
      dropped = omega (arith, m, t.dropped, t.split, t.reads, b);
      split = omega (arith, b, t.reads, t.split);
      errors = omega (arith, l, t.errors, t.failures, t.split, t.reads, b);
      failures = omega (arith, t.failures, t.split, t.reads, b);
      stale = t.stale;
      unfinished = t.unfinished;
    }

pub gathered-Tallied :
    (label : ℕ → String) (index : ℕ) (reads : List SourceRead) (r : Reading)
    → length r.frames + length reads ≤ u64_max
    → Tallied r r.metrics
    → Tallied (gathered label index reads r) (gathered label index reads r).metrics
gathered-Tallied label index [] r b t = t
gathered-Tallied label index (read ∷ reads) r b t =
    let spent = r.metrics.source_read_duration + read.elapsed in
    let next = handle_answer label index (with_read r spent) read.answer in
    let frames = handle_answer-frames label index (with_read r spent) read.answer in
    let longer = ap length frames ∙ length-append r.frames (frame_of read.answer ∷ []) in
    gathered-Tallied label (suc index) reads next (omega (arith, longer, b))
      (handle_answer-Tallied label index r spent read.answer (omega (arith, b)) t)
