-- ===== src/Capture/Worker/Signals/Reported.antt =====
-- Every worker that can be reached tells where it stands, and its reader says so.
use mathlib.Core.Option.{some_inj}
use camera_man.Base.{
  ℕ, zero, suc, ◌≡◌, refl, sym, subst, arith, String, Bool, true, false, not, inl, inr,
  if◌then◌else◌, some, Option-cases, err, List, [], ◌∷◌, get_elem?, All,
}
use camera_man.Error.{CameraManError}
use camera_man.Capture.{CaptureSlots, ThreadedFrameSource, Report, latest_frame}
use camera_man.Capture.Lease.{try_acquire_camera_lease}
use camera_man.Capture.Worker.{
  Place, waiting, inside_open, inside_read, pausing, retrying, returned, Answer, CaptureWorker,
  leave, has_returned, ask_for_lease, worker_step, Event, answered, dropped_source, created,
  Workers, answer_at, stop_at, take_place, run, no_workers,
}
use camera_man.Capture.Worker.Signals.{
  Shape, IsSignalled, has_error, either, stopped-IsSignalled, open_again-IsSignalled, Shape-place,
  run_step-IsSignalled,
}

either_step :
    (b : Bool) (x y : List String × CaptureWorker)
    → (b ≡ true → IsSignalled x.1)
    → (b ≡ false → IsSignalled y.1)
    → let r : List String × CaptureWorker = if b then x else y in IsSignalled r.1
either_step true x y h k = h refl
either_step false x y h k = k refl

ask-IsSignalled :
    (now : ℕ) (active : List String) (w : CaptureWorker)
    → w.place ≡ waiting
    → IsSignalled w
    → IsSignalled (ask_for_lease now active w).1
unfolding ask_for_lease
ask-IsSignalled now active w e s =
    either_step w.slots.stop _ _ (λ stopped. stopped-IsSignalled w stopped s.short)
      (λ going.
        either (try_acquire_camera_lease w.id active).1 _ _
          (λ free. open_again-IsSignalled now w (Shape-place w waiting e s).1 s.short) (λ taken. s))

leave-IsSignalled :
    (active : List String) (w : CaptureWorker) → IsSignalled w → IsSignalled (leave active w).1
unfolding leave
leave-IsSignalled active w s = either_step (has_returned w.place) _ _ (λ gone. s) (λ stays. s)

worker_step-IsSignalled :
    (now : ℕ) (a : Answer) (active : List String) (p : Place) (w : CaptureWorker)
    → w.place ≡ p
    → IsSignalled w
    → IsSignalled (worker_step now a active p w).1
unfolding worker_step
worker_step-IsSignalled now a active waiting w e s = ask-IsSignalled now active w e s
worker_step-IsSignalled now a active returned w e s = s
worker_step-IsSignalled now a active inside_open w e s =
    leave-IsSignalled active _ (run_step-IsSignalled now a inside_open w e s)
worker_step-IsSignalled now a active (inside_read n) w e s =
    leave-IsSignalled active _ (run_step-IsSignalled now a (inside_read n) w e s)
worker_step-IsSignalled now a active (pausing n) w e s =
    leave-IsSignalled active _ (run_step-IsSignalled now a (pausing n) w e s)
worker_step-IsSignalled now a active (retrying d) w e s =
    leave-IsSignalled active _ (run_step-IsSignalled now a (retrying d) w e s)

answer_at-IsSignalled :
    (i now : ℕ) (a : Answer) (active : List String) (ws : List CaptureWorker)
    → All IsSignalled ws
    → All IsSignalled (answer_at i now a active ws).1
unfolding answer_at
answer_at-IsSignalled i now a active [] h = tt
answer_at-IsSignalled zero now a active (w ∷ ws) (s, h) =
    (worker_step-IsSignalled now a active w.place w refl s, h)
answer_at-IsSignalled (suc i) now a active (w ∷ ws) (s, h) =
    (s, answer_at-IsSignalled i now a active ws h)

stopped-Shape : (p : Place) (s : CaptureSlots) → Shape p s → Shape p (record s { stop = true })
stopped-Shape waiting s h = h
stopped-Shape inside_open s h = h
stopped-Shape (inside_read n) s h = h
stopped-Shape (pausing n) s h = h
stopped-Shape (retrying d) s h = h
stopped-Shape returned s h = λ e. absurd (ground arith)

stop_at-IsSignalled :
    (i : ℕ) (ws : List CaptureWorker) → All IsSignalled ws → All IsSignalled (stop_at i ws)
unfolding stop_at
stop_at-IsSignalled i [] h = tt
stop_at-IsSignalled zero (w ∷ ws) (s, h) =
    (record { shape = stopped-Shape w.place w.slots s.shape; short = s.short }, h)
stop_at-IsSignalled (suc i) (w ∷ ws) (s, h) = (s, stop_at-IsSignalled i ws h)

run-IsSignalled :
    (events : List Event) (s : Workers) → All IsSignalled s.all → All IsSignalled (run events s).all
unfolding take_place
run-IsSignalled [] s h = h
run-IsSignalled (answered i now a ∷ events) s h =
    run-IsSignalled events _ (answer_at-IsSignalled i now a s.active s.all h)
run-IsSignalled (dropped_source i ∷ events) s h =
    run-IsSignalled events _ (stop_at-IsSignalled i s.all h)
run-IsSignalled (created now id ∷ events) s h =
    run-IsSignalled events _ (record { shape = (refl, refl, refl); short = omega arith }, h)

one_of :
    (ws : List CaptureWorker) (i : ℕ) (w : CaptureWorker)
    → All IsSignalled ws
    → get_elem? ws i ≡ some w
    → IsSignalled w
one_of [] i w h e = absurd (ground arith)
one_of (x ∷ ws) zero w h e = subst IsSignalled (some_inj.0 e) h.0
one_of (x ∷ ws) (suc i) w h e = one_of ws i w h.1 e

-- Every worker that can be reached publishes what its place calls for.
pub reached-IsSignalled :
    (events : List Event) (i : ℕ) (w : CaptureWorker)
    → get_elem? (run events no_workers).all i ≡ some w
    → IsSignalled w
reached-IsSignalled events i w e = one_of _ i w (run-IsSignalled events no_workers tt) e

-- The places after a failure; a worker that returned and was not stopped met one.
abbrev pub has_failed : Place → (stop : Bool) → Bool
has_failed (pausing n) stop = true
has_failed (retrying d) stop = true
has_failed returned stop = not stop
has_failed _ stop = false

failed_error :
    (p : Place) (s : CaptureSlots) → Shape p s → has_failed p s.stop ≡ true → has_error s ≡ true
failed_error waiting s h e = absurd (ground arith)
failed_error inside_open s h e = absurd (ground arith)
failed_error (inside_read n) s h e = absurd (ground arith)
failed_error (pausing n) s h e = h.3
failed_error (retrying d) s h e = h.2
failed_error returned s h e = h (ground arith)

-- In every interleaving, the reader of a worker that pauses after a failed read, waits to open the camera again, or
-- returned without being stopped, answers an error at any time: it never shows the last frame as if
-- the camera were healthy.
pub run-reported :
    (events : List Event) (i : ℕ) (w : CaptureWorker) (report : Report) (now : ℕ)
    (source : ThreadedFrameSource)
    → get_elem? (run events no_workers).all i ≡ some w
    → has_failed w.place w.slots.stop ≡ true
    → source.slots ≡ w.slots
    → (e : CameraManError) × (latest_frame report now source ≡ err e)
unfolding latest_frame
run-reported events i w report now source found failed same =
    let told = failed_error w.place w.slots (reached-IsSignalled events i w found).shape failed in
    elim (Option-cases source.slots.last_error) [
      | inl quiet ↦
          let missing : has_error source.slots ≡ true =
            subst (λ s. has_error s ≡ true) (sym same) told in
          absurd (ground arith)
      | inr (e, said) ↦ (e, rw said refl)
    ]
