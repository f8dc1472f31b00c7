-- ===== src/Tests/Stream.antt =====
-- The stream runtime and the integrity history on concrete inputs.
use camera_man.Base.{◌+◌, ◌≤◌, ◌≡◌, refl, some, none, arith, true, false, u64_max, List, [], ◌∷◌}
use camera_man.Stream.Pacer.{DeadlinePacer, interval_for_fps, plan}
use camera_man.Stream.Pacer.Schedule.{IsNext, plan-IsNext}
use camera_man.Stream.Lifecycle.{ready, running, Stream}
use camera_man.Stream.Lifecycle.Recovery.{
  Event, attached, start_asked, start_finished, recovery_asked, run, nobody, way_back, worker_of,
  told_of, run-worker_of,
}
use camera_man.Stream.Integrity.{FrameIntegrityState, continuous, frames_dropped, observe}
use camera_man.Stream.Integrity.History.{observe-dropped}
use camera_man.Tests.Samples.{seen}

-- Ten frames per second, with the next deadline at 200 ms.
abbrev tenth : DeadlinePacer
tenth = record {
  fps = 10;
  interval_nanos = 100000000;
  next_deadline_nanos = some 200000000;
  last_now_nanos = some 110000000;
}

plan-IsNext_example :
    let out = plan tenth 450000000 10 in
    let reached = 450000000 + out.1.sleep_nanos in
    IsNext 450000000 200000000 100000000 reached out.1.skipped_deadlines
    × (reached + 100000000 ≤ u64_max → out.0.next_deadline_nanos ≡ some (reached + 100000000))
    × (out.1.clock_discontinuity ≡ false)
plan-IsNext_example =
    plan-IsNext tenth 450000000 10 200000000 110000000 refl refl refl (omega arith) (omega arith)
      (omega arith)

tenth_interval : tenth.interval_nanos ≡ interval_for_fps tenth.fps
unfolding interval_for_fps
tenth_interval = refl

-- A start that fails, a recovery, and a start that is asked for twice.
abbrev restarted : List Event
restarted =
    attached
    ∷ start_asked
    ∷ start_finished false
    ∷ recovery_asked
    ∷ start_asked
    ∷ start_asked
    ∷ start_finished true
    ∷ []

run-worker_of_example :
    let p = run restarted nobody in
    (p.workers ≡ worker_of p.state)
    × (p.told ≡ told_of p.state)
    × ((run (way_back p.state) p).state ≡ ready)
run-worker_of_example = run-worker_of restarted

abbrev lost : Stream
lost = record { lifecycle = running; streaming = true }

abbrev history : FrameIntegrityState
history = record {
  source_id = "front";
  last_observation = some seen;
  last_discontinuity = continuous;
  last_drop_reason = none;
  inferred_dropped_frames = 3;
  writer_restarts = 1;
  stale = false;
}

observe-dropped_example :
    ((observe history (record seen { sequence = 15 })).1 ≡ frames_dropped)
    × ((observe history (record seen { sequence = 15 })).0.inferred_dropped_frames ≡ 3 + 4)
    × ((observe history (record seen { sequence = 15 })).0.writer_restarts ≡ 1)
observe-dropped_example =
    observe-dropped history seen (record seen { sequence = 15 }) 4 refl refl refl refl refl
      (omega arith) (omega arith) refl (omega arith) (omega arith)
