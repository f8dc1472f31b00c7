-- ===== src/Stream/Pacer/Schedule.antt =====
-- The pacer keeps the schedule: deadlines stay on the grid of the interval.
use camera_man.Base.{
  ℕ, suc, min, ◌+◌, ◌*◌, ◌/◌, ◌-◌, ◌≤◌, ◌<◌, ◌≡◌, refl, ap, inl, inr, zero, max, true, false, some,
  arith, ltb, if◌then◌else◌, u64_max, Bool-cases,
}
use native.Mathlib.Nat.{div-add-mod', mod-lt}
use camera_man.Stream.Pacer.{DeadlinePacer, interval_for_fps, went_back, restart, catch_up, plan}

-- The first deadline of the grid that is not before `now`, and its distance in intervals.
pub record IsNext (now deadline interval reached skipped : ℕ) : Type 0 where
  pub on_grid : reached ≡ deadline + skipped * interval
  pub not_before : now ≤ reached
  pub first : 0 < skipped → reached < now + interval

le-mul : (q n : ℕ) → 0 < n → q ≤ q * n
le-mul q zero p = absurd (omega arith)
le-mul q (suc n) p = omega arith

-- What `catch_up` gives in each of its three cases.
catch_up_lem :
    (now deadline interval skipped : ℕ)
    → now + interval ≤ u64_max
    → (now - deadline) / interval ≡ skipped
    → skipped * interval ≤ now - deadline
    → skipped ≤ u64_max - 1
    → catch_up now deadline interval ≡ (
        if ltb deadline now
        then (if ltb (deadline + skipped * interval) now
            then (deadline + skipped * interval + interval, skipped + 1)
            else (deadline + skipped * interval, skipped))
        else (deadline, 0))
unfolding catch_up
catch_up_lem now deadline interval skipped b e le s = rw e (elim (Bool-cases (ltb deadline now)) [
  | inr h ↦ rw h refl
  | inl h ↦
      let m : min (skipped * interval) u64_max ≡ skipped * interval = omega arith in
      let r : min (deadline + skipped * interval) u64_max ≡ deadline + skipped * interval =
        ground arith in
      let n : min (skipped + 1) u64_max ≡ skipped + 1 = omega arith in
      let t : min (deadline + skipped * interval + interval) u64_max
          ≡ deadline + skipped * interval + interval =
        ground arith in
      rw (h, m, r, n, t) refl
])

-- Without overflow the pacer waits for the first deadline of the grid that is not yet over.
catch_up-IsNext :
    (now deadline interval : ℕ)
    → 0 < interval
    → now + interval ≤ u64_max
    → IsNext now deadline interval
        (catch_up now deadline interval).0
        (catch_up now deadline interval).1
catch_up-IsNext now deadline interval p b =
    let q = (now - deadline) / interval in
    let split = div-add-mod' (now - deadline) interval in
    let small = mod-lt (now - deadline) p in
    let more : (q + 1) * interval ≡ q * interval + interval = omega arith in
    let few : q ≤ q * interval = le-mul q interval p in
    let e =
      catch_up_lem now deadline interval q b refl (omega (arith, split))
        (omega (arith, split, few, p, b)) in
    rw e (record {
      on_grid = ground (arith, split, small, more);
      not_before = ground (arith, split, small);
      first = λ s. ground (arith, split, small);
    })

-- With the rate unchanged and the clock running forward, nothing starts over.
restart_steady :
    (pacer : DeadlinePacer) (now fps last : ℕ)
    → max fps 1 ≡ pacer.fps
    → pacer.last_now_nanos ≡ some last
    → last ≤ now
    → ((restart pacer now fps).next_deadline_nanos ≡ pacer.next_deadline_nanos)
      × ((restart pacer now fps).interval_nanos ≡ pacer.interval_nanos)
      × (went_back pacer.last_now_nanos now ≡ false)
unfolding restart
restart_steady pacer now fps last f l m = (ground arith, ground arith, ground arith)

-- With the rate unchanged, the clock running forward and no overflow, a plan keeps the pacer on
-- its grid: it waits for the first deadline that is not over, counts the ones it missed, and
-- the next deadline is one interval after the one it waits for, however late the call came.
pub plan-IsNext :
    (pacer : DeadlinePacer) (now fps deadline last : ℕ)
    → max fps 1 ≡ pacer.fps
    → pacer.next_deadline_nanos ≡ some deadline
    → pacer.last_now_nanos ≡ some last
    → last ≤ now
    → 0 < pacer.interval_nanos
    → now + pacer.interval_nanos ≤ u64_max
    → let out = plan pacer now fps in
      let reached = now + out.1.sleep_nanos in
      IsNext now deadline pacer.interval_nanos reached out.1.skipped_deadlines
      × (reached + pacer.interval_nanos ≤ u64_max
          → out.0.next_deadline_nanos ≡ some (reached + pacer.interval_nanos))
      × (out.1.clock_discontinuity ≡ false)
unfolding plan
plan-IsNext pacer now fps deadline last f d l m p b =
    let (same, rate, forward) = restart_steady pacer now fps last f l m in
    let next = catch_up-IsNext now deadline pacer.interval_nanos p b in
    let wait : now + ((catch_up now deadline pacer.interval_nanos).0 - now)
        ≡ (catch_up now deadline pacer.interval_nanos).0 =
      omega (arith, next.not_before) in
    rw (rate, same, d, wait) (next, λ r. ap some (omega arith), forward)

-- A clock that went back starts the schedule over: nothing is skipped, nothing is waited for, and the
-- next deadline is one interval away, at the rate asked for.
pub plan_after_jump :
    (pacer : DeadlinePacer) (now fps last : ℕ)
    → pacer.last_now_nanos ≡ some last
    → now < last
    → pacer.interval_nanos ≡ interval_for_fps pacer.fps
    → let out = plan pacer now fps in
      (out.1.clock_discontinuity ≡ true)
      × (out.1.sleep_nanos ≡ 0)
      × (out.1.skipped_deadlines ≡ 0)
      × (out.0.next_deadline_nanos ≡ some (min (now + interval_for_fps (max fps 1)) u64_max))
unfolding plan restart catch_up
plan_after_jump pacer now fps last l b i = (ground arith, ground arith, ground arith, ground arith)
