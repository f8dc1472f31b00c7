-- ===== src/Pipeline/Reading.antt =====
-- src/pipeline.rs, `render_once`: the loop over the sources.
use camera_man.Base.{
  ℕ, zero, suc, String, min, Bool, false, ◌==◌, if◌then◌else◌, Option, none, some, ok, err, List,
  [], ◌∷◌, ◌++◌, get_elem?, saturating_add64,
}
use camera_man.Error.{CameraManError, context, Checked}
use camera_man.Base.Options.{◌>>=◌}
use camera_man.Pipeline.{
  CapturedFrame, PipelineMetrics, PipelineEngine, SourceRead, no_metrics, add_duration,
}

-- The variables of `render_once` that its loop over the sources changes.
pub record Reading : Type 0 where
  pub frames : List (Option CapturedFrame)
  pub source_errors : List (ℕ × CameraManError)
  pub metrics : PipelineMetrics
  pub oldest : Option ℕ
  pub last_source_sequences : List (Option ℕ)

abbrev pub set_at {ℓ} : {A : Type ℓ} → List A → ℕ → A → List A
set_at [] i a = []
set_at (x ∷ xs) zero a = a ∷ xs
set_at (x ∷ xs) (suc i) a = x ∷ set_at xs i a

-- The source was read before, and answers the same sequence again.
abbrev is_repeated : Option (Option ℕ) → ℕ → Bool
is_repeated (some (some last)) sequence = last == sequence
is_repeated (some none) sequence = false
is_repeated none sequence = false

abbrev older : Option ℕ → ℕ → Option ℕ
older none time = some time
older (some oldest) time = some (min oldest time)

-- One round of the loop, after the read has been counted and timed. The engine keeps a last sequence
-- for each source, so that `index` is in range.
unfoldable pub handle_answer :
    (label : ℕ → String) → (index : ℕ) → Reading → Checked (Option CapturedFrame) → Reading
handle_answer label index r (ok (some captured)) =
    let sequence = captured.metadata.sequence in
    let m = r.metrics in
    let received = saturating_add64 m.source_frames_received 1 in
    let stale =
      if is_repeated (get_elem? r.last_source_sequences index) sequence
      then saturating_add64 m.stale_source_frames 1
      else m.stale_source_frames in
    record r {
      frames = r.frames ++ (some captured ∷ []);
      metrics = record m { source_frames_received = received; stale_source_frames = stale };
      oldest = older r.oldest captured.metadata.monotonic;
      last_source_sequences = set_at r.last_source_sequences index (some sequence);
    }
handle_answer label index r (ok none) =
    let m = r.metrics in
    record r {
      frames = r.frames ++ (none ∷ []);
      metrics = record m { dropped_source_frames = saturating_add64 m.dropped_source_frames 1 };
    }
handle_answer label index r (err e) =
    let m = r.metrics in
    record r {
      frames = r.frames ++ (none ∷ []);
      source_errors = r.source_errors ++ ((index, context (label index) e) ∷ []);
      metrics = record m {
        dropped_source_frames = saturating_add64 m.dropped_source_frames 1;
        source_errors = saturating_add64 m.source_errors 1;
      };
    }

-- A read that was counted, with the time that all of them took.
abbrev pub with_read : Reading → (spent : ℕ) → Reading
with_read r spent =
    let m = r.metrics in
    record r {
      metrics = record m {
        source_read_duration = spent;
        source_reads = saturating_add64 m.source_reads 1;
      };
    }

unfoldable pub count_read : Reading → (elapsed : ℕ) → Option Reading
unfolding add_duration
count_read r elapsed = do
  spent ← add_duration r.metrics.source_read_duration elapsed
  some (with_read r spent)

-- `none` is a panic.
unfoldable pub read_sources :
    (label : ℕ → String) → (index : ℕ) → List SourceRead → Reading → Option Reading
unfolding handle_answer count_read
read_sources label index [] r = some r
read_sources label index (read ∷ reads) r = do
  next ← count_read r read.elapsed
  read_sources label (suc index) reads (handle_answer label index next read.answer)

abbrev pub missing : List (Option CapturedFrame) → ℕ
missing [] = 0
missing (none ∷ frames) = suc (missing frames)
missing (some frame ∷ frames) = missing frames

abbrev pub first_reading : PipelineEngine → Reading
first_reading engine = record {
  frames = [];
  source_errors = [];
  metrics = no_metrics;
  oldest = none;
  last_source_sequences = engine.last_source_sequences;
}
