-- ===== src/Worker/Machine/Counters.antt =====
-- The counters of the results account for every job and every frame.
use camera_man.Base.{ℕ, ◌+◌, ◌≡◌, refl, arith, true, false, inl, inr, List}
use camera_man.Media.Formats.{VideoFormat}
use camera_man.Worker.{
  WorkerState, submit, disconnect_output, take_result, recycle_frame, stop_worker, next_action,
}
use camera_man.Worker.Publish.{take_recycled_frame, publish_result, job_result}
use camera_man.Worker.Machine.Action.{next_action-cases, take_recycled_frame-cases}
use camera_man.Worker.Machine.{
  World, Event, Phase, Answers, ready, composing, composed, connecting, checking, sending,
  finishing, finished, submitted, disconnected, result_taken, frame_recycled, stopped, worked,
  start, advance, happen, history, history-keeps_always, reports, act,
}

-- A frame that was sent, before the result that tells it is published.
abbrev in_hand : Phase → ℕ
in_hand ready = 0
in_hand (composing job) = 0
in_hand (composed job frame reused) = 0
in_hand (connecting job frame reused) = 0
in_hand (checking job frame reused) = 0
in_hand (sending job frame reused) = 0
in_hand (finishing job frame reused e true) = 1
in_hand (finishing job frame reused e false) = 0
in_hand finished = 0

abbrev pub Counted : {Image : Type 0} → World Image → Type 0
Counted w =
    (w.jobs ≡ w.reported_jobs + (reports w.state.result).0)
    × (w.sends ≡ w.reported_sends + ((reports w.state.result).1 + in_hand w.phase))

module _ {Image : Type 0} where
  act-Counted :
      (w : World Image) → w.phase ≡ ready → Counted w → Counted (act w (next_action w.state))
  act-Counted w e c = elim (next_action-cases w.state) [
    | inl waits ↦ rw waits c
    | inr (inl stops) ↦ rw stops (rw e at c)
    | inr (inr (inl ends)) ↦ rw ends c
    | inr (inr (inr (job, (takes, pending)))) ↦ rw takes (rw e at c)
  ]

  take_recycled_frame-result :
      (s : WorkerState Image) (format : VideoFormat)
      → (take_recycled_frame s format).0.result ≡ s.result
  take_recycled_frame-result s format = elim (take_recycled_frame-cases s format) [
    | inl same ↦ rw same refl
    | inr (others, (smaller, less)) ↦ rw smaller refl
  ]

  Counted-advance :
      (a : Answers Image) (w : World Image) (p : Phase)
      → w.phase ≡ p
      → Counted w
      → Counted (advance a w p)
  unfolding advance publish_result job_result
  Counted-advance a w ready e c = act-Counted w e c
  Counted-advance a w (composing job) e c =
      rw (take_recycled_frame-result w.state job.format) (rw e at c)
  Counted-advance a w (composed job frame reused) e c = ground arith
  Counted-advance a w (connecting job frame reused) e c = ground arith
  Counted-advance a w (checking job frame reused) e c = ground arith
  Counted-advance a w (sending job frame reused) e c = ground arith
  Counted-advance a w (finishing job frame reused e' sent) e c = ground arith
  Counted-advance a w finished e c = c

  Counted-happen : (w : World Image) (e : Event Image) → Counted w → Counted (happen w e)
  unfolding happen submit disconnect_output take_result recycle_frame stop_worker
  Counted-happen w (submitted job) c = c
  Counted-happen w disconnected c = c
  Counted-happen w result_taken c = ground arith
  Counted-happen w (frame_recycled frame) c = c
  Counted-happen w stopped c = c
  Counted-happen w (worked a) c = Counted-advance a w w.phase refl c

  -- Whatever the order in which the two threads act and whatever the sink and the compositor answer, the
  -- jobs that were rendered are those that the results taken have reported and those that the result
  -- that waits reports. So it is with the frames sent, but for one whose result is being made.
  pub history-Counted : (es : List (Event Image)) → Counted (history start es)
  history-Counted es = history-keeps_always Counted start es Counted-happen (refl, refl)
