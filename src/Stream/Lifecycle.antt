-- ===== src/Stream/Lifecycle.antt =====
-- src/stream_runtime.rs: `StreamLifecycle` and the two functions that recover it from a lost worker.
pub mod Recovery
use camera_man.Base.{Bool, true, false, Option, none, some, Result, ok, err, if◌then◌else◌, String}

pub data StreamState : Type 0 where
  detached : StreamState
  ready : StreamState
  starting : StreamState
  running : StreamState
  stopping : StreamState
  faulted : StreamState

pub data StartAction : Type 0 where
  start_worker : StartAction
  already_running : StartAction

pub data StopAction : Type 0 where
  stop_worker : StopAction
  already_stopped : StopAction

pub record LifecycleError : Type 0 where
  pub state : StreamState
  pub operation : String

-- An operation's outcome: the state after it, and its result.
abbrev pub Outcome : Type 0 → Type 0
Outcome A = StreamState × Result LifecycleError A

abbrev refused : {A : Type 0} → StreamState → String → Outcome A
refused state operation = (state, err (record { state = state; operation = operation }))

unfoldable pub attach : StreamState → Outcome (Unit {0})
attach detached = (ready, ok tt)
attach ready = (ready, ok tt)
attach starting = refused starting "attach"
attach running = refused running "attach"
attach stopping = refused stopping "attach"
attach faulted = refused faulted "attach"

unfoldable pub begin_start : StreamState → Outcome StartAction
begin_start ready = (starting, ok start_worker)
begin_start starting = (starting, ok already_running)
begin_start running = (running, ok already_running)
begin_start detached = refused detached "start"
begin_start stopping = refused stopping "start"
begin_start faulted = refused faulted "start"

unfoldable pub finish_start : StreamState → Bool → Outcome (Unit {0})
finish_start starting succeeded = (if succeeded then running else faulted, ok tt)
finish_start detached succeeded = refused detached "finish starting"
finish_start ready succeeded = refused ready "finish starting"
finish_start running succeeded = refused running "finish starting"
finish_start stopping succeeded = refused stopping "finish starting"
finish_start faulted succeeded = refused faulted "finish starting"

unfoldable pub begin_stop : StreamState → Outcome StopAction
begin_stop running = (stopping, ok stop_worker)
begin_stop detached = (detached, ok already_stopped)
begin_stop ready = (ready, ok already_stopped)
begin_stop stopping = (stopping, ok already_stopped)
begin_stop starting = refused starting "stop"
begin_stop faulted = refused faulted "stop"

unfoldable pub finish_stop : StreamState → Outcome (Unit {0})
finish_stop stopping = (ready, ok tt)
finish_stop detached = refused detached "finish stopping"
finish_stop ready = refused ready "finish stopping"
finish_stop starting = refused starting "finish stopping"
finish_stop running = refused running "finish stopping"
finish_stop faulted = refused faulted "finish stopping"

unfoldable pub recover : StreamState → Outcome (Unit {0})
recover faulted = (ready, ok tt)
recover detached = refused detached "recover"
recover ready = refused ready "recover"
recover starting = refused starting "recover"
recover running = refused running "recover"
recover stopping = refused stopping "recover"

-- The state after it, and the state it interrupted.
unfoldable pub force_ready : StreamState → StreamState × StreamState
force_ready detached = (detached, detached)
force_ready ready = (ready, ready)
force_ready starting = (ready, starting)
force_ready running = (ready, running)
force_ready stopping = (ready, stopping)
force_ready faulted = (ready, faulted)

-- The lifecycle and the worker's run flag.
pub record Stream : Type 0 where
  pub lifecycle : StreamState
  pub streaming : Bool

abbrev pub with_reaped :
    Result LifecycleError StartAction
    → Option StreamState
    → Result LifecycleError (StartAction × Option StreamState)
with_reaped (ok action) reaped = ok (action, reaped)
with_reaped (err e) reaped = err e

unfoldable pub begin_start_reaping_finished_worker :
    Stream → Bool → Stream × Result LifecycleError (StartAction × Option StreamState)
unfolding force_ready begin_start
begin_start_reaping_finished_worker s worker_finished =
    let (forced, interrupted) = force_ready s.lifecycle in
    let state = if worker_finished then forced else s.lifecycle in
    let reaped = if worker_finished then some interrupted else none in
    let (state', result) = begin_start state in
    (
      record { lifecycle = state'; streaming = if worker_finished then false else s.streaming },
      with_reaped result reaped,
    )

unfoldable pub reset_after_contained_panic : Stream → Stream × StreamState
unfolding force_ready
reset_after_contained_panic s =
    let (forced, interrupted) = force_ready s.lifecycle in
    (record { lifecycle = forced; streaming = false }, interrupted)
