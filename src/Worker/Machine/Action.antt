-- ===== src/Worker/Machine/Action.antt =====
-- What the worker does next, and what it takes from the store of outputs.
use camera_man.Base.{
  ◌≤◌, ◌<◌, ◌≡◌, ◌⊎◌, refl, arith, true, false, ltb, Option, none, some, Option-cases, inl, inr,
  Bool-cases, List, [], ◌∷◌, length, length-append,
}
use camera_man.Frame.Buffer.{Frame}
use camera_man.Media.Formats.{VideoFormat}
use camera_man.Worker.{RenderJob, WorkerState, render, disconnect, stop, next_action, push_recycled}
use camera_man.Worker.Publish.{
  take_recycled_frame, take_matching, without_last, swap_first, matches_format,
}

module _ {Image : Type 0} where
  -- It waits, stops, disconnects the sink or takes the job that is pending.
  pub next_action-cases :
      (s : WorkerState Image)
      → (next_action s ≡ none)
        ⊎ ((next_action s ≡ some (s, stop))
            ⊎ ((next_action s ≡ some (record s { disconnect_requested = false }, disconnect))
                ⊎ ((job : RenderJob) × ((next_action s
                        ≡ some (record s { processing = true; pending = none }, render job))
                      × (s.pending ≡ some job)))))
  unfolding next_action
  next_action-cases s = elim (Bool-cases s.stopping) [
    | inl ending ↦ inr (inl (ground arith))
    | inr going ↦ elim (Bool-cases s.disconnect_requested) [
      | inl asked ↦ inr (inr (inl (ground arith)))
      | inr quiet ↦ elim (Option-cases s.pending) [
        | inl nothing ↦ inl (ground arith)
        | inr (job, e) ↦ inr (inr (inr (job, (ground arith, e))))
      ]
    ]
  ]

length-without_last :
    (frame : Frame) (frames : List Frame) → length (without_last frame frames) ≡ length frames
length-without_last frame [] = refl
length-without_last frame (next ∷ frames) = omega (arith, length-without_last next frames)

length-swap_first : (frames : List Frame) → length (swap_first frames) ≡ length frames
length-swap_first [] = refl
length-swap_first (next ∷ frames) = omega (arith, length-without_last next frames)

abbrev Shorter : List Frame → Option (Frame × List Frame) → Type 0
Shorter frames none = Unit {0}
Shorter frames (some (found, others)) = length others < length frames

take_matching-Shorter :
    (format : VideoFormat) (frames : List Frame) → Shorter frames (take_matching format frames)
unfolding take_matching
take_matching-Shorter format [] = tt
take_matching-Shorter format (frame ∷ frames) =
    let rest = take_matching-Shorter format frames in
    elim (Option-cases (take_matching format frames)) [
      | inl missing ↦ elim (Bool-cases (matches_format format frame)) [
        | inl found ↦ let l = length-swap_first frames in rw (missing, found) (omega (arith, l))
        | inr other ↦ rw (missing, other) tt
      ]
      | inr ((found, others), e) ↦ let less = rw e at rest in rw e (omega (arith, less))
    ]

pub length-push_recycled :
    (frames : List Frame) (frame : Frame)
    → length frames ≤ 3
    → length (push_recycled frames frame) ≤ 3
length-push_recycled frames frame h =
    let l = length-append frames (frame ∷ []) in
    elim (Bool-cases (ltb (length frames) 3)) [
      | inl room ↦ rw room (ground (arith, l))
      | inr full ↦ rw full h
    ]

module _ {Image : Type 0} where
  -- Nothing changes in the state but the store, which does not grow.
  pub take_recycled_frame-cases :
      (s : WorkerState Image) (format : VideoFormat)
      → ((take_recycled_frame s format).0 ≡ s)
        ⊎ ((others : List Frame) × (((take_recycled_frame s format).0
                ≡ record s { recycled_frames = others })
              × (length others < length s.recycled_frames)))
  unfolding take_recycled_frame
  take_recycled_frame-cases s format =
      let shorter = take_matching-Shorter format s.recycled_frames in
      elim (Option-cases (take_matching format s.recycled_frames)) [
        | inl missing ↦ inl (rw (missing, take_recycled_frame) refl)
        | inr ((found, others), e) ↦
            inr (others, (rw (e, take_recycled_frame) refl, rw e at shorter))
      ]
