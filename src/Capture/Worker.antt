-- ===== src/Capture/Worker.antt =====
-- src/capture.rs, `run_capture_worker`: the loop of one worker, cut where it calls the camera, sleeps
-- or waits. What the camera answers is the event; the error that is built of a panic's text is part of
-- it. The workers of all cameras share the set of leases.
pub mod Leases
pub mod Signals
use camera_man.Base.{
  ℕ, zero, suc, ◌+◌, min, String, Bool, true, false, leb, if◌then◌else◌, Option, none, some, List,
  [], ◌∷◌,
}
use camera_man.Error.{CameraManError}
use camera_man.Media.Formats.{VideoFormat}
use camera_man.Pipeline.{CapturedFrame}
use camera_man.Capture.{
  CaptureSlots, WorkerPhase, opening, awaiting_first_frame, streaming, publish_phase, default_slots,
}
use camera_man.Capture.Backoff.{ReconnectBackoff, default_backoff, next_delay, observe_frame}
use camera_man.Capture.Lease.{try_acquire_camera_lease, drop_lease}

-- Where the worker stands: it waits for the lease, is inside one of the camera's calls, sleeps after
-- some failures in a row or before it opens the camera again, or has returned.
pub data Place : Type 0 where
  waiting : Place
  inside_open : Place
  inside_read : (failure_streak : ℕ) → Place
  pausing : (failure_streak : ℕ) → Place
  retrying : (delay : ℕ) → Place
  returned : Place

pub data Answer : Type 0 where
  lease_asked : Answer
  opened : VideoFormat → Answer
  open_failed : CameraManError → Answer
  open_panicked : CameraManError → Answer
  frame_read : Option CapturedFrame → Answer
  read_failed : CameraManError → Answer
  read_panicked : CameraManError → Answer
  woken : Answer

pub record CaptureWorker : Type 0 where
  pub id : String
  pub slots : CaptureSlots
  pub backoff : ReconnectBackoff
  pub place : Place

abbrev pub spawned : (now : ℕ) → (id : String) → CaptureWorker
spawned now id = record {
  id = id;
  slots = default_slots now;
  backoff = default_backoff;
  place = waiting;
}

abbrev pub is_some : Option CapturedFrame → Bool
is_some none = false
is_some (some frame) = true

abbrev pub at_place : CaptureWorker → Place → CaptureWorker
at_place w place = record w { place = place }

abbrev pub with_error : CaptureWorker → CameraManError → CaptureWorker
with_error w e = record w { slots = record w.slots { last_error = some e } }

abbrev pub with_format : CaptureWorker → Option VideoFormat → CaptureWorker
with_format w format = record w { slots = record w.slots { negotiated_format = format } }

abbrev pub with_phase : (now : ℕ) → CaptureWorker → WorkerPhase → CaptureWorker
with_phase now w phase = record w { slots = publish_phase now phase w.slots }

-- The head of the outer loop.
abbrev pub open_again : (now : ℕ) → CaptureWorker → CaptureWorker
open_again now w =
    if w.slots.stop then at_place w returned else at_place (with_phase now w opening) inside_open

abbrev pub retry : CaptureWorker → CaptureWorker
retry w =
    let (backoff, delay) = next_delay w.backoff in
    record w { backoff = backoff; place = retrying delay }

-- The end of the outer loop's body; with `stop`, the loop ends.
abbrev pub session_over : CaptureWorker → CaptureWorker
session_over w =
    if w.slots.stop then at_place (with_format w none) returned else retry (with_format w none)

-- The head of the inner loop.
abbrev pub read_again : CaptureWorker → (failure_streak : ℕ) → CaptureWorker
read_again w streak = if w.slots.stop then session_over w else at_place w (inside_read streak)

unfoldable pub after_open : (now : ℕ) → Answer → CaptureWorker → CaptureWorker
after_open now (opened format) w =
    read_again (with_format (with_phase now w awaiting_first_frame) (some format)) 0
after_open now (open_failed e) w = retry (with_format (with_error w e) none)
after_open now (open_panicked e) w = at_place (with_error w e) returned
after_open now _ w = w

abbrev pub with_frame : (now : ℕ) → CaptureWorker → Option CapturedFrame → CaptureWorker
with_frame now w frame =
    let told = if is_some frame then with_phase now w streaming else w in
    record told {
      backoff = observe_frame told.backoff (is_some frame);
      slots = record told.slots { latest = frame; last_error = none };
    }

abbrev pub read_error : CaptureWorker → (failure_streak : ℕ) → CaptureWorker
read_error w streak = if leb 3 streak then session_over w else at_place w (pausing streak)

-- The streak is a byte that stops at the top.
unfoldable pub after_read : (now failure_streak : ℕ) → Answer → CaptureWorker → CaptureWorker
after_read now streak (frame_read frame) w = read_again (with_frame now w frame) 0
after_read now streak (read_failed e) w = read_error (with_error w e) (min (streak + 1) 255)
after_read now streak (read_panicked e) w = session_over (with_error w e)
after_read now streak _ w = w

unfoldable pub after_pause : (failure_streak : ℕ) → Answer → CaptureWorker → CaptureWorker
after_pause streak woken w = if w.slots.stop then at_place w returned else read_again w streak
after_pause streak _ w = w

unfoldable pub after_retry : (now : ℕ) → Answer → CaptureWorker → CaptureWorker
after_retry now woken w = open_again now w
after_retry now _ w = w

-- A worker that holds the lease.
unfoldable pub run_step : (now : ℕ) → Answer → Place → CaptureWorker → CaptureWorker
unfolding after_open after_read after_pause after_retry
run_step now answer waiting w = w
run_step now answer inside_open w = after_open now answer w
run_step now answer (inside_read streak) w = after_read now streak answer w
run_step now answer (pausing streak) w = after_pause streak answer w
run_step now answer (retrying delay) w = after_retry now answer w
run_step now answer returned w = w

abbrev pub has_returned : Place → Bool
has_returned returned = true
has_returned _ = false

-- The lease is dropped when the worker returns.
unfoldable pub leave : List String → CaptureWorker → List String × CaptureWorker
leave active w = if has_returned w.place then (drop_lease w.id active, w) else (active, w)

-- One turn of `wait_for_camera_lease`.
unfoldable pub ask_for_lease : (now : ℕ) → List String → CaptureWorker → List String × CaptureWorker
ask_for_lease now active w =
    if w.slots.stop
    then (active, at_place w returned)
    else (let (next, free) = try_acquire_camera_lease w.id active in
        (next, if free then open_again now w else w))

unfoldable pub worker_step :
    (now : ℕ) → Answer → List String → Place → CaptureWorker → List String × CaptureWorker
unfolding ask_for_lease run_step leave
worker_step now answer active waiting w = ask_for_lease now active w
worker_step now answer active returned w = (active, w)
worker_step now answer active place w = leave active (run_step now answer place w)

pub data Event : Type 0 where
  -- What the camera answers the worker of a number.
  answered : (worker now : ℕ) → Answer → Event
  -- Its source is dropped.
  dropped_source : (worker : ℕ) → Event
  created : (now : ℕ) → (id : String) → Event

pub record Workers : Type 0 where
  pub active : List String
  pub all : List CaptureWorker

unfoldable pub answer_at :
    (worker now : ℕ) → Answer → List String → List CaptureWorker → List String × List CaptureWorker
unfolding worker_step
answer_at worker now answer active [] = (active, [])
answer_at zero now answer active (w ∷ ws) =
    let (next, w') = worker_step now answer active w.place w in (next, w' ∷ ws)
answer_at (suc worker) now answer active (w ∷ ws) =
    let (next, ws') = answer_at worker now answer active ws in (next, w ∷ ws')

unfoldable pub stop_at : (worker : ℕ) → List CaptureWorker → List CaptureWorker
stop_at worker [] = []
stop_at zero (w ∷ ws) = record w { slots = record w.slots { stop = true } } ∷ ws
stop_at (suc worker) (w ∷ ws) = w ∷ stop_at worker ws

unfoldable pub take_place : Event → Workers → Workers
unfolding answer_at stop_at
take_place (answered worker now answer) s =
    let (active, all) = answer_at worker now answer s.active s.all in
    record { active = active; all = all }
take_place (dropped_source worker) s = record s { all = stop_at worker s.all }
take_place (created now id) s = record s { all = spawned now id ∷ s.all }

-- The events of all threads, in the order in which they take place.
abbrev pub run : List Event → Workers → Workers
run [] s = s
run (event ∷ events) s = run events (take_place event s)

abbrev pub no_workers : Workers
no_workers = record { active = []; all = [] }
