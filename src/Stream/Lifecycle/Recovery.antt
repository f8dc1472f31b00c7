-- ===== src/Stream/Lifecycle/Recovery.antt =====
-- The lifecycle as a count of workers, and the states that no worker is left to leave.
use camera_man.Base.{
  ℕ, ◌+◌, ◌-◌, Bool, true, false, not, some, Result, ok, err, ◌≡◌, ◌≢◌, ◌∙◌, ap, refl, arith, List,
  [], ◌∷◌,
}
use camera_man.Stream.Lifecycle.{
  StreamState, detached, ready, starting, running, stopping, faulted, StartAction, start_worker,
  already_running, StopAction, stop_worker, already_stopped, LifecycleError, attach, begin_start,
  finish_start, begin_stop, finish_stop, recover, force_ready, Stream,
  begin_start_reaping_finished_worker, reset_after_contained_panic,
}

-- What happens to a stream: a call of its lifecycle, or the loss of its worker, after which the
-- state is forced.
pub data Event : Type 0 where
  attached : Event
  start_asked : Event
  start_finished : (succeeded : Bool) → Event
  stop_asked : Event
  stop_finished : Event
  recovery_asked : Event
  worker_lost : Event

-- The workers that are left when an answer is obeyed: one more when a worker is to be started, one
-- less when a start has failed or a stop is finished.
abbrev after_start : Result LifecycleError StartAction → ℕ → ℕ
after_start (ok start_worker) workers = workers + 1
after_start (ok already_running) workers = workers
after_start (err e) workers = workers

abbrev after_end : Result LifecycleError (Unit {0}) → (ended : Bool) → ℕ → ℕ
after_end (ok done) true workers = workers - 1
after_end (ok done) false workers = workers
after_end (err e) ended workers = workers

abbrev pub workers_after : Event → StreamState → ℕ → ℕ
workers_after attached s workers = workers
workers_after start_asked s workers = after_start (begin_start s).1 workers
workers_after (start_finished succeeded) s workers =
    after_end (finish_start s succeeded).1 (not succeeded) workers
workers_after stop_asked s workers = workers
workers_after stop_finished s workers = after_end (finish_stop s).1 true workers
workers_after recovery_asked s workers = workers
workers_after worker_lost s workers = 0

-- The workers that were told to stop and have not ended.
abbrev after_stop : Result LifecycleError StopAction → ℕ → ℕ
after_stop (ok stop_worker) told = told + 1
after_stop (ok already_stopped) told = told
after_stop (err e) told = told

abbrev pub told_after : Event → StreamState → ℕ → ℕ
told_after attached s told = told
told_after start_asked s told = told
told_after (start_finished succeeded) s told = told
told_after stop_asked s told = after_stop (begin_stop s).1 told
told_after stop_finished s told = after_end (finish_stop s).1 true told
told_after recovery_asked s told = told
told_after worker_lost s told = 0

abbrev pub state_after : Event → StreamState → StreamState
state_after attached s = (attach s).0
state_after start_asked s = (begin_start s).0
state_after (start_finished succeeded) s = (finish_start s succeeded).0
state_after stop_asked s = (begin_stop s).0
state_after stop_finished s = (finish_stop s).0
state_after recovery_asked s = (recover s).0
state_after worker_lost s = (force_ready s).0

-- The state, the workers, and those of them that were told to stop.
pub record Workplace : Type 0 where
  pub state : StreamState
  pub workers : ℕ
  pub told : ℕ

abbrev pub nobody : Workplace
nobody = record { state = detached; workers = 0; told = 0 }

abbrev pub happens : Event → Workplace → Workplace
happens e p = record {
  state = state_after e p.state;
  workers = workers_after e p.state p.workers;
  told = told_after e p.state p.told;
}

-- A history, the earliest event first.
abbrev pub run : List Event → Workplace → Workplace
run [] p = p
run (e ∷ events) p = run events (happens e p)

-- The states in which a worker is at work.
abbrev pub worker_of : StreamState → ℕ
worker_of detached = 0
worker_of ready = 0
worker_of starting = 1
worker_of running = 1
worker_of stopping = 1
worker_of faulted = 0

event_worker :
    (e : Event) (s : StreamState) → workers_after e s (worker_of s) ≡ worker_of (state_after e s)
unfolding attach begin_start finish_start begin_stop finish_stop recover force_ready
event_worker attached s = ground arith
event_worker start_asked s = ground arith
event_worker (start_finished true) s = ground arith
event_worker (start_finished false) s = ground arith
event_worker stop_asked s = ground arith
event_worker stop_finished s = ground arith
event_worker recovery_asked s = ground arith
event_worker worker_lost s = ground arith

abbrev pub told_of : StreamState → ℕ
told_of stopping = 1
told_of detached = 0
told_of ready = 0
told_of starting = 0
told_of running = 0
told_of faulted = 0

event_told : (e : Event) (s : StreamState) → told_after e s (told_of s) ≡ told_of (state_after e s)
unfolding attach begin_start finish_start begin_stop finish_stop recover force_ready
event_told attached s = ground arith
event_told start_asked s = ground arith
event_told (start_finished true) s = ground arith
event_told (start_finished false) s = ground arith
event_told stop_asked s = ground arith
event_told stop_finished s = ground arith
event_told recovery_asked s = ground arith
event_told worker_lost s = ground arith

run_workers :
    (events : List Event) (p : Workplace)
    → p.workers ≡ worker_of p.state
    → p.told ≡ told_of p.state
    → ((run events p).workers ≡ worker_of (run events p).state)
      × ((run events p).told ≡ told_of (run events p).state)
run_workers [] p e t = (e, t)
run_workers (event ∷ events) p e t =
    run_workers events (happens event p)
      (ap (workers_after event p.state) e ∙ event_worker event p.state)
      (ap (told_after event p.state) t ∙ event_told event p.state)

-- What brings a stream back to where it can be started.
abbrev pub way_back : StreamState → List Event
way_back detached = attached ∷ []
way_back ready = []
way_back starting = start_finished true ∷ stop_asked ∷ stop_finished ∷ []
way_back running = stop_asked ∷ stop_finished ∷ []
way_back stopping = stop_finished ∷ []
way_back faulted = recovery_asked ∷ []

way_back_lem :
    (s : StreamState) (workers told : ℕ)
    → (run (way_back s) (record { state = s; workers = workers; told = told })).state ≡ ready
unfolding attach begin_start finish_start begin_stop finish_stop recover
way_back_lem detached workers told = refl
way_back_lem ready workers told = refl
way_back_lem starting workers told = refl
way_back_lem running workers told = refl
way_back_lem stopping workers told = refl
way_back_lem faulted workers told = refl

-- In every history of calls and lost workers, when each answer is obeyed, the stream that starts
-- detached has one worker while it is starting, running or stopping and none in the other states, so
-- that a worker is never started beside another; a worker was told to stop, and only once, exactly
-- while the stream is stopping; and from wherever it is, calls alone bring it back to ready.
pub run-worker_of :
    (events : List Event)
    → let p = run events nobody in
      (p.workers ≡ worker_of p.state)
      × (p.told ≡ told_of p.state)
      × ((run (way_back p.state) p).state ≡ ready)
run-worker_of events =
    let p = run events nobody in
    let counts = run_workers events nobody refl refl in
    (counts.0, counts.1, way_back_lem p.state p.workers p.told)

-- With a stream attached, a start that finds its worker finished starts a new worker from any state
-- and reports that state, with the run flag cleared.
pub reaping_starts :
    (s : Stream)
    → s.lifecycle ≢ detached
    → begin_start_reaping_finished_worker s true
      ≡ (record { lifecycle = starting; streaming = false }, ok (start_worker, some s.lifecycle))
unfolding begin_start_reaping_finished_worker
reaping_starts s n = ground arith

starts_from_ready :
    (l : StreamState) → l ≢ detached → begin_start (force_ready l).0 ≡ (starting, ok start_worker)
unfolding force_ready begin_start
starts_from_ready l n = ground arith

-- After a contained panic, in whatever state it struck, an attached stream can be started again.
pub panic_then_start :
    (s : Stream)
    → s.lifecycle ≢ detached
    → begin_start (reset_after_contained_panic s).0.lifecycle ≡ (starting, ok start_worker)
unfolding reset_after_contained_panic
panic_then_start s n = ground (arith, starts_from_ready s.lifecycle n)
