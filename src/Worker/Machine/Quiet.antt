-- ===== src/Worker/Machine/Quiet.antt =====
-- What becomes of the output when it is turned off.
use camera_man.Base.{ℕ, ◌+◌, ◌≤◌, ◌≡◌, refl, arith, false, Option-cases, inl, inr, List, All}
use camera_man.Media.Formats.{VideoFormat}
use camera_man.Worker.{
  RenderResult, WorkerState, submit, disconnect_output, take_result, recycle_frame, stop_worker,
  next_action, is_current,
}
use camera_man.Worker.Publish.{take_recycled_frame, publish_result}
use camera_man.Worker.Machine.Action.{next_action-cases, take_recycled_frame-cases}
use camera_man.Worker.Machine.{
  World, Event, Phase, Answers, ready, composing, composed, connecting, checking, sending,
  finishing, finished, submitted, disconnected, result_taken, frame_recycled, stopped, worked,
  advance, happen, history, history-keeps, act,
}

-- A frame that has passed the last test is on its way.
abbrev pub on_its_way : Phase → ℕ
on_its_way ready = 0
on_its_way (composing job) = 0
on_its_way (composed job frame reused) = 0
on_its_way (connecting job frame reused) = 0
on_its_way (checking job frame reused) = 0
on_its_way (sending job frame reused) = 1
on_its_way (finishing job frame reused e sent) = 0
on_its_way finished = 0

-- Any event but the submission of a job that is to be published.
abbrev pub Private : {Image : Type 0} → Event Image → Type 0
Private (submitted job) = job.publish_virtual ≡ false
Private disconnected = Unit {0}
Private result_taken = Unit {0}
Private (frame_recycled frame) = Unit {0}
Private stopped = Unit {0}
Private (worked a) = Unit {0}

abbrev Bounded : {Image : Type 0} → ℕ → World Image → Type 0
Bounded n w = (w.state.output_enabled ≡ false) × (w.sends + on_its_way w.phase ≤ n)

module _ {Image : Type 0} (n : ℕ) where
  act-Bounded :
      (w : World Image) → w.phase ≡ ready → Bounded n w → Bounded n (act w (next_action w.state))
  act-Bounded w e c = elim (next_action-cases w.state) [
    | inl waits ↦ rw waits c
    | inr (inl stops) ↦ rw stops (rw e at c)
    | inr (inr (inl ends)) ↦ rw ends c
    | inr (inr (inr (job, (takes, pending)))) ↦ rw takes (rw e at c)
  ]

  take_recycled_frame-output :
      (s : WorkerState Image) (format : VideoFormat)
      → (take_recycled_frame s format).0.output_enabled ≡ s.output_enabled
  take_recycled_frame-output s format = elim (take_recycled_frame-cases s format) [
    | inl same ↦ rw same refl
    | inr (others, (smaller, less)) ↦ rw smaller refl
  ]

  publish_result-output :
      (s : WorkerState Image) (r : RenderResult Image)
      → (publish_result s r).output_enabled ≡ s.output_enabled
  unfolding publish_result
  publish_result-output s r = elim (Option-cases s.result) [
    | inl first ↦ rw (first, publish_result) refl
    | inr (previous, e) ↦ rw (e, publish_result) refl
  ]

  Bounded-advance :
      (a : Answers Image) (w : World Image) (p : Phase)
      → w.phase ≡ p
      → Bounded n w
      → Bounded n (advance a w p)
  unfolding advance is_current
  Bounded-advance a w ready e c = act-Bounded w e c
  Bounded-advance a w (composing job) e c =
      rw (take_recycled_frame-output w.state job.format) (rw e at c)
  Bounded-advance a w (composed job frame reused) e c = ground arith
  Bounded-advance a w (connecting job frame reused) e c = ground arith
  Bounded-advance a w (checking job frame reused) e c = ground arith
  Bounded-advance a w (sending job frame reused) e c = ground arith
  Bounded-advance a w (finishing job frame reused e' sent) e c =
      rw (publish_result-output w.state _) (rw e at c)
  Bounded-advance a w finished e c = c

  Bounded-happen :
      (w : World Image) (e : Event Image) → Private e → Bounded n w → Bounded n (happen w e)
  unfolding happen submit disconnect_output take_result recycle_frame stop_worker
  Bounded-happen w (submitted job) q c = (q, c.1)
  Bounded-happen w disconnected q c = (refl, c.1)
  Bounded-happen w result_taken q c = c
  Bounded-happen w (frame_recycled frame) q c = c
  Bounded-happen w stopped q c = c
  Bounded-happen w (worked a) q c = Bounded-advance a w w.phase refl c

-- Once the output is turned off, and until a job is submitted that is to be published, no frame is sent but
-- the one that has passed the last test before.
pub disconnect_output_quiet :
    {Image : Type 0} (w : World Image) (es : List (Event Image))
    → All Private es
    → (history (happen w disconnected) es).sends ≤ w.sends + on_its_way w.phase
unfolding happen disconnect_output
disconnect_output_quiet w es q =
    let bounded =
      history-keeps Private (Bounded (w.sends + on_its_way w.phase)) (happen w disconnected) es
        (Bounded-happen (w.sends + on_its_way w.phase)) q (refl, omega arith) in
    omega (arith, bounded.1)
