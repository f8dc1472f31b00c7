-- ===== src/Capture/Poll.antt =====
-- src/capture.rs, `first_frame_within`: the source is asked again and again, until it answers or the
-- time is over. `answers` is what it answers the n-th time, and `clock` the time after that; the
-- pauses between are part of `clock`. Without fuel the result is `none`.
use camera_man.Base.{
  ℕ, zero, suc, ◌+◌, ◌-◌, ◌≤◌, ◌<◌, ◌≡◌, ◌⊎◌, inl, inr, refl, arith, ◌==◌, Bool-cases, true, false,
  subst, String, Option, none, some, Result-cases, ok, err,
}
use camera_man.Error.{Checked, CameraManError, capture, timeout}
use camera_man.Pipeline.{CapturedFrame}

abbrev Answers : Type 0
Answers = (poll : ℕ) → Checked (Option CapturedFrame)

module _ (answers : Answers) (clock : ℕ → ℕ) (report : String) (deadline : ℕ) where
  -- The error of the caller's own deadline, with the text that `format!` builds.
  abbrev pub expired : CameraManError
  expired = capture timeout report

  unfoldable pub first_frame_within : (fuel poll : ℕ) → Option (Checked CapturedFrame)
  first_frame_within zero poll = none
  first_frame_within (suc fuel) poll = elim (answers poll) [
    | err e ↦ some (err e)
    | ok (some frame) ↦ some (ok frame)
    | ok none ↦ elim (deadline - clock poll == 0) [
      | true ↦ some (err expired)
      | false ↦ first_frame_within fuel (suc poll)
    ]
  ]

  -- What an answer after some polls can be.
  abbrev Ends : (poll : ℕ) → Checked CapturedFrame → Type 0
  Ends poll (ok frame) = answers poll ≡ ok (some frame)
  Ends poll (err e) =
      (answers poll ≡ err e) ⊎ ((answers poll ≡ ok none) × (deadline ≤ clock poll) × (e ≡ expired))

  -- The polls before a poll had neither a frame nor an error, and left time.
  abbrev Waits : (from poll : ℕ) → Type 0
  Waits from poll = (i : ℕ) → from ≤ i → i < poll → (answers i ≡ ok none) × (clock i < deadline)

  -- How a number of polls ends.
  pub record Outcome (fuel from : ℕ) : Type 0 where
    pub poll : ℕ
    pub result : Checked CapturedFrame
    pub found : first_frame_within fuel from ≡ some result
    pub waits : Waits from poll
    pub ends : Ends poll result

  none_before : (from : ℕ) → Waits from from
  none_before from i h k = absurd (omega (arith, h, k))

  one_more :
      (fuel from : ℕ)
      → answers from ≡ ok none
      → clock from < deadline
      → Outcome fuel (suc from)
      → Outcome (suc fuel) from
  unfolding first_frame_within
  one_more fuel from empty early o =
      let time : (deadline - clock from == 0) ≡ false = ground arith in
      record {
        poll = o.poll;
        result = o.result;
        found = rw (empty, time, first_frame_within) o.found;
        waits = λ i h k. elim (Bool-cases (i == from)) [
          | inl same ↦ let e : from ≡ i = ground arith in rw⁻¹ e (empty, early)
          | inr later ↦ o.waits i (ground arith) k
        ];
        ends = o.ends;
      }

  last :
      (fuel from : ℕ) (result : Checked CapturedFrame)
      → first_frame_within (suc fuel) from ≡ some result
      → Ends from result
      → Outcome (suc fuel) from
  last fuel from result e h = record {
    poll = from;
    result = result;
    found = e;
    waits = none_before from;
    ends = h;
  }

  step :
      (fuel from : ℕ)
      → (answers from ≡ ok none → clock from < deadline → Outcome fuel (suc from))
      → Outcome (suc fuel) from
  unfolding first_frame_within
  step fuel from rest = elim (Result-cases (answers from)) [
    | inr (e, failed) ↦ last fuel from (err e) (rw (failed, first_frame_within) refl) (inl failed)
    | inl (some frame, found) ↦
        last fuel from (ok frame) (rw (found, first_frame_within) refl) found
    | inl (none, empty) ↦ elim (Bool-cases (deadline - clock from == 0)) [
      | inl over ↦
          last fuel from (err expired) (rw (empty, over, first_frame_within) refl)
            (inr (empty, ground arith, refl))
      | inr early ↦ one_more fuel from empty (ground arith) (rest empty (ground arith))
    ]
  ]

  -- If the time is over at some poll, one unit of fuel more than the polls before it is enough: the
  -- search ends at the first poll that answers a frame or an error, or at the first one after which the
  -- time is over, with that frame, that error or a timeout.
  pub first_frame_within-Outcome :
      (fuel from : ℕ) → deadline ≤ clock (from + fuel) → Outcome (suc fuel) from
  first_frame_within-Outcome zero from late = step zero from (λ empty early. absurd (ground arith))
  first_frame_within-Outcome (suc fuel) from late = step (suc fuel) from (λ empty early.
      first_frame_within-Outcome fuel (suc from)
        (subst (λ n. deadline ≤ clock n) (omega arith) late))
