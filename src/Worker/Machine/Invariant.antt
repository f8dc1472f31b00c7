-- ===== src/Worker/Machine/Invariant.antt =====
-- What the two threads see of each other: the flag that the worker is busy, and the store of outputs.
use camera_man.Base.{
  ◌≤◌, ◌≡◌, refl, ◌∙◌, arith, Bool, true, false, none, Option-cases, inl, inr, ok, err, List,
  length,
}
use camera_man.Error.{Checked}
use camera_man.Frame.Buffer.{Frame}
use camera_man.Media.Formats.{VideoFormat}
use camera_man.Worker.{
  RenderResult, WorkerState, submit, disconnect_output, take_result, recycle_frame, stop_worker,
  next_action, has_work,
}
use camera_man.Worker.Publish.{take_recycled_frame, publish_result, job_result, recycle_result}
use camera_man.Worker.Machine.Action.{
  next_action-cases, take_recycled_frame-cases, length-push_recycled,
}
use camera_man.Worker.Machine.{
  World, Event, Phase, Answers, ready, composing, composed, connecting, checking, sending,
  finishing, finished, submitted, disconnected, result_taken, frame_recycled, stopped, worked,
  start, advance, happen, history, history-keeps_always, act,
}

-- The worker has a job in hand.
abbrev pub is_busy : Phase → Bool
is_busy ready = false
is_busy (composing job) = true
is_busy (composed job frame reused) = true
is_busy (connecting job frame reused) = true
is_busy (checking job frame reused) = true
is_busy (sending job frame reused) = true
is_busy (finishing job frame reused e sent) = true
is_busy finished = false

abbrev pub Sound : {Image : Type 0} → World Image → Type 0
Sound w = (w.state.processing ≡ is_busy w.phase) × (length w.state.recycled_frames ≤ 3)

module _ {Image : Type 0} where
  act-Sound : (w : World Image) → w.phase ≡ ready → Sound w → Sound (act w (next_action w.state))
  act-Sound w e c = elim (next_action-cases w.state) [
    | inl waits ↦ rw waits c
    | inr (inl stops) ↦ rw stops (rw e at c)
    | inr (inr (inl ends)) ↦ rw ends c
    | inr (inr (inr (job, (takes, pending)))) ↦ rw takes (refl, c.1)
  ]

  take_recycled_frame-Sound :
      (s : WorkerState Image) (format : VideoFormat)
      → length s.recycled_frames ≤ 3
      → ((take_recycled_frame s format).0.processing ≡ s.processing)
        × (length (take_recycled_frame s format).0.recycled_frames ≤ 3)
  take_recycled_frame-Sound s format h = elim (take_recycled_frame-cases s format) [
    | inl same ↦ rw same (refl, h)
    | inr (others, (smaller, less)) ↦ rw smaller (refl, omega (arith, less, h))
  ]

  publish_result-Sound :
      (s : WorkerState Image) (r : RenderResult Image)
      → length s.recycled_frames ≤ 3
      → ((publish_result s r).processing ≡ false)
        × (length (publish_result s r).recycled_frames ≤ 3)
  unfolding publish_result
  publish_result-Sound s r h = elim (Option-cases s.result) [
    | inl first ↦ rw (first, publish_result) (refl, h)
    | inr (previous, e) ↦
        rw (e, publish_result) (refl, recycle_result-Sound s.recycled_frames previous.frame h)
  ]
    where
      recycle_result-Sound :
          (frames : List Frame) (frame : Checked Frame)
          → length frames ≤ 3
          → length (recycle_result frames frame) ≤ 3
      recycle_result-Sound frames (ok frame) k = length-push_recycled frames frame k
      recycle_result-Sound frames (err e) k = k

  Sound-advance :
      (a : Answers Image) (w : World Image) (p : Phase)
      → w.phase ≡ p
      → Sound w
      → Sound (advance a w p)
  unfolding advance
  Sound-advance a w ready e c = act-Sound w e c
  Sound-advance a w (composing job) e c =
      let taken = take_recycled_frame-Sound w.state job.format c.1 in
      (taken.0 ∙ (rw e at c.0), taken.1)
  Sound-advance a w (composed job frame reused) e c = ground arith
  Sound-advance a w (connecting job frame reused) e c = ground arith
  Sound-advance a w (checking job frame reused) e c = ground arith
  Sound-advance a w (sending job frame reused) e c = ground arith
  Sound-advance a w (finishing job frame reused e' sent) e c =
      publish_result-Sound w.state
        (job_result job frame reused sent a.preview e' a.producer a.consumer) c.1
  Sound-advance a w finished e c = c

  Sound-happen : (w : World Image) (e : Event Image) → Sound w → Sound (happen w e)
  unfolding happen submit disconnect_output take_result recycle_frame stop_worker
  Sound-happen w (submitted job) c = c
  Sound-happen w disconnected c = c
  Sound-happen w result_taken c = c
  Sound-happen w (frame_recycled frame) c =
      (c.0, length-push_recycled w.state.recycled_frames frame c.1)
  Sound-happen w stopped c = c
  Sound-happen w (worked a) c = Sound-advance a w w.phase refl c

  -- Whatever the order of events, the flag tells whether the worker has a job in hand, and the store
  -- holds at most three outputs.
  pub history-Sound : (es : List (Event Image)) → Sound (history start es)
  history-Sound es = history-keeps_always Sound start es Sound-happen (refl, omega arith)

  -- When the worker says that it has no work, no job waits or is in hand and no result is unread, in
  -- any order of events: no job is missed between a poll of the result and the question.
  pub has_work-false :
      (es : List (Event Image))
      → has_work (history start es).state ≡ false
      → (((history start es).state.pending ≡ none) × ((history start es).state.result ≡ none))
        × (is_busy (history start es).phase ≡ false)
  unfolding has_work
  has_work-false es h = let sound = history-Sound es in ground arith
