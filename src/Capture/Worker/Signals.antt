-- ===== src/Capture/Worker/Signals.antt =====
-- What a worker publishes tells where it stands: a camera that failed is never shown as healthy.
pub mod Reported
use camera_man.Base.{
  ℕ, zero, suc, ◌+◌, ◌*◌, ◌≤◌, ◌<◌, ◌≡◌, refl, subst, min, arith, String, Bool, true, false, leb,
  Bool-cases, inl, inr, if◌then◌else◌, Option, none, some, List, [], ◌∷◌, All,
}
use camera_man.Error.{CameraManError}
use camera_man.Media.Formats.{VideoFormat}
use camera_man.Pipeline.{CapturedFrame}
use camera_man.Capture.{
  second, WorkerPhase, awaiting_lease, opening, awaiting_first_frame, streaming, CaptureSlots,
}
use camera_man.Capture.Backoff.{next_delay, observe_frame}
use camera_man.Capture.Worker.{
  Place, waiting, inside_open, inside_read, pausing, retrying, returned, Answer, lease_asked,
  opened, open_failed, open_panicked, frame_read, read_failed, read_panicked, woken, CaptureWorker,
  at_place, with_error, with_format, with_phase, with_frame, open_again, retry, session_over,
  read_again, read_error, after_open, after_read, after_pause, after_retry, run_step, is_some,
}

abbrev pub has_error : CaptureSlots → Bool
has_error slots = elim slots.last_error [ none ↦ false | some e ↦ true ]

abbrev pub has_format : CaptureSlots → Bool
has_format slots = elim slots.negotiated_format [ none ↦ false | some format ↦ true ]

-- The device is open.
abbrev reads : WorkerPhase → Bool
reads awaiting_lease = false
reads opening = false
reads awaiting_first_frame = true
reads streaming = true

-- What the slots say while the worker is at a place.
abbrev pub Shape : Place → CaptureSlots → Type 0
Shape waiting s =
    (s.progress.phase ≡ awaiting_lease) × (has_format s ≡ false) × (has_error s ≡ false)
Shape inside_open s = (s.progress.phase ≡ opening) × (has_format s ≡ false)
Shape (inside_read n) s =
    (n < 3) × (reads s.progress.phase ≡ true) × (has_format s ≡ true) × (0 < n → has_error s ≡ true)
Shape (pausing n) s =
    (n < 3) × (reads s.progress.phase ≡ true) × (has_format s ≡ true) × (has_error s ≡ true)
Shape (retrying delay) s = (delay ≤ 5 * second) × (has_format s ≡ false) × (has_error s ≡ true)
Shape returned s = s.stop ≡ false → has_error s ≡ true

pub record IsSignalled (w : CaptureWorker) : Type 0 where
  pub shape : Shape w.place w.slots
  pub short : w.backoff.next ≤ 5 * second

pub either :
    (b : Bool) (x y : CaptureWorker)
    → (b ≡ true → IsSignalled x)
    → (b ≡ false → IsSignalled y)
    → IsSignalled (if b then x else y)
either true x y h k = h refl
either false x y h k = k refl

-- With `stop` a worker may return whatever it published.
pub stopped-IsSignalled :
    (w : CaptureWorker)
    → w.slots.stop ≡ true
    → w.backoff.next ≤ 5 * second
    → IsSignalled (at_place w returned)
stopped-IsSignalled w stopped short = record { shape = λ e. absurd (ground arith); short = short }

pub open_again-IsSignalled :
    (now : ℕ) (w : CaptureWorker)
    → has_format w.slots ≡ false
    → w.backoff.next ≤ 5 * second
    → IsSignalled (open_again now w)
open_again-IsSignalled now w closed short =
    either w.slots.stop _ _ (λ e. stopped-IsSignalled w e short)
      (λ e. record { shape = (refl, closed); short = short })

retry-IsSignalled :
    (w : CaptureWorker)
    → has_format w.slots ≡ false
    → has_error w.slots ≡ true
    → w.backoff.next ≤ 5 * second
    → IsSignalled (retry w)
unfolding next_delay
retry-IsSignalled w closed failed short = record {
  shape = (short, closed, failed);
  short = omega arith;
}

session_over-IsSignalled :
    (w : CaptureWorker)
    → (w.slots.stop ≡ false → has_error w.slots ≡ true)
    → w.backoff.next ≤ 5 * second
    → IsSignalled (session_over w)
session_over-IsSignalled w failed short =
    either w.slots.stop _ _ (λ e. stopped-IsSignalled (with_format w none) e short)
      (λ e. retry-IsSignalled (with_format w none) refl (failed e) short)

read_again-IsSignalled :
    (w : CaptureWorker) (n : ℕ)
    → Shape (inside_read n) w.slots
    → w.backoff.next ≤ 5 * second
    → IsSignalled (read_again w n)
read_again-IsSignalled w n shape short =
    either w.slots.stop _ _ (λ e. session_over-IsSignalled w (λ e'. absurd (ground arith)) short)
      (λ e. record { shape = shape; short = short })

after_open-IsSignalled :
    (now : ℕ) (a : Answer) (w : CaptureWorker)
    → w.place ≡ inside_open
    → IsSignalled w
    → IsSignalled (after_open now a w)
unfolding after_open
after_open-IsSignalled now (opened format) w e s =
    read_again-IsSignalled (with_format (with_phase now w awaiting_first_frame) (some format)) 0
      (omega arith, refl, refl, λ h. absurd (omega (arith, h))) s.short
after_open-IsSignalled now (open_failed x) w e s =
    retry-IsSignalled (with_format (with_error w x) none) refl refl s.short
after_open-IsSignalled now (open_panicked x) w e s = record { shape = λ h. refl; short = s.short }
after_open-IsSignalled now lease_asked w e s = s
after_open-IsSignalled now (frame_read f) w e s = s
after_open-IsSignalled now (read_failed x) w e s = s
after_open-IsSignalled now (read_panicked x) w e s = s
after_open-IsSignalled now woken w e s = s

frame-Shape :
    (now : ℕ) (w : CaptureWorker) (frame : Option CapturedFrame) (n : ℕ)
    → Shape (inside_read n) w.slots
    → Shape (inside_read 0) (with_frame now w frame).slots
frame-Shape now w none n (few, open_device, format, failing) =
    (omega arith, open_device, format, λ h. absurd (omega (arith, h)))
frame-Shape now w (some frame) n (few, open_device, format, failing) =
    (omega arith, refl, format, λ h. absurd (omega (arith, h)))

frame-short :
    (now : ℕ) (w : CaptureWorker) (frame : Option CapturedFrame)
    → w.backoff.next ≤ 5 * second
    → (with_frame now w frame).backoff.next ≤ 5 * second
unfolding observe_frame
frame-short now w none short = short
frame-short now w (some frame) short = omega arith

after_read-IsSignalled :
    (now n : ℕ) (a : Answer) (w : CaptureWorker)
    → Shape (inside_read n) w.slots
    → IsSignalled w
    → IsSignalled (after_read now n a w)
unfolding after_read
after_read-IsSignalled now n (frame_read f) w shape s =
    read_again-IsSignalled (with_frame now w f) 0 (frame-Shape now w f n shape)
      (frame-short now w f s.short)
after_read-IsSignalled now n (read_failed x) w shape s =
    either (leb 3 (min (n + 1) 255)) _ _
      (λ e. session_over-IsSignalled (with_error w x) (λ e'. refl) s.short)
      (λ e. record { shape = (ground (arith, shape.0), shape.1, shape.2, refl); short = s.short })
after_read-IsSignalled now n (read_panicked x) w shape s =
    session_over-IsSignalled (with_error w x) (λ e'. refl) s.short
after_read-IsSignalled now n lease_asked w shape s = s
after_read-IsSignalled now n (opened f) w shape s = s
after_read-IsSignalled now n (open_failed x) w shape s = s
after_read-IsSignalled now n (open_panicked x) w shape s = s
after_read-IsSignalled now n woken w shape s = s

after_pause-IsSignalled :
    (n : ℕ) (a : Answer) (w : CaptureWorker)
    → Shape (pausing n) w.slots
    → IsSignalled w
    → IsSignalled (after_pause n a w)
unfolding after_pause
after_pause-IsSignalled n woken w (few, open_device, format, failing) s =
    either w.slots.stop _ _ (λ e. stopped-IsSignalled w e s.short)
      (λ e. read_again-IsSignalled w n (few, open_device, format, λ h. failing) s.short)
after_pause-IsSignalled n lease_asked w shape s = s
after_pause-IsSignalled n (opened f) w shape s = s
after_pause-IsSignalled n (open_failed x) w shape s = s
after_pause-IsSignalled n (open_panicked x) w shape s = s
after_pause-IsSignalled n (frame_read f) w shape s = s
after_pause-IsSignalled n (read_failed x) w shape s = s
after_pause-IsSignalled n (read_panicked x) w shape s = s

after_retry-IsSignalled :
    (now delay : ℕ) (a : Answer) (w : CaptureWorker)
    → Shape (retrying delay) w.slots
    → IsSignalled w
    → IsSignalled (after_retry now a w)
unfolding after_retry
after_retry-IsSignalled now delay woken w shape s = open_again-IsSignalled now w shape.1 s.short
after_retry-IsSignalled now delay lease_asked w shape s = s
after_retry-IsSignalled now delay (opened f) w shape s = s
after_retry-IsSignalled now delay (open_failed x) w shape s = s
after_retry-IsSignalled now delay (open_panicked x) w shape s = s
after_retry-IsSignalled now delay (frame_read f) w shape s = s
after_retry-IsSignalled now delay (read_failed x) w shape s = s
after_retry-IsSignalled now delay (read_panicked x) w shape s = s

pub Shape-place : (w : CaptureWorker) (p : Place) → w.place ≡ p → IsSignalled w → Shape p w.slots
Shape-place w p e s = subst (λ q. Shape q w.slots) e s.shape

pub run_step-IsSignalled :
    (now : ℕ) (a : Answer) (p : Place) (w : CaptureWorker)
    → w.place ≡ p
    → IsSignalled w
    → IsSignalled (run_step now a p w)
unfolding run_step
run_step-IsSignalled now a waiting w e s = s
run_step-IsSignalled now a returned w e s = s
run_step-IsSignalled now a inside_open w e s = after_open-IsSignalled now a w e s
run_step-IsSignalled now a (inside_read n) w e s =
    after_read-IsSignalled now n a w (Shape-place w (inside_read n) e s) s
run_step-IsSignalled now a (pausing n) w e s =
    after_pause-IsSignalled n a w (Shape-place w (pausing n) e s) s
run_step-IsSignalled now a (retrying d) w e s =
    after_retry-IsSignalled now d a w (Shape-place w (retrying d) e s) s
