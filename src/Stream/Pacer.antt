-- ===== src/Stream/Pacer.antt =====
-- src/stream_runtime.rs: `DeadlinePacer`. Above 10^9 frames per second the interval is zero, and the
-- source's division by it panics; the theorems on the schedule ask for a positive interval.
pub mod Schedule
use camera_man.Base.{
  ℕ, ◌+◌, ◌*◌, ◌/◌, ◌-◌, max, Bool, true, false, not, Option, none, some, ltb, ◌==◌, ◌!=◌,
  if◌then◌else◌, saturating_add64, saturating_mul64,
}

pub record PacingPlan : Type 0 where
  pub sleep_nanos : ℕ
  pub skipped_deadlines : ℕ
  pub clock_discontinuity : Bool

pub record DeadlinePacer : Type 0 where
  pub fps : ℕ
  pub interval_nanos : ℕ
  pub next_deadline_nanos : Option ℕ
  pub last_now_nanos : Option ℕ

unfoldable pub interval_for_fps : ℕ → ℕ
interval_for_fps fps = let fps' = if fps == 0 then 1 else fps in 1000000000 / fps'

unfoldable pub new_pacer : ℕ → DeadlinePacer
unfolding interval_for_fps
new_pacer fps =
    let fps' = max fps 1 in
    record {
      fps = fps';
      interval_nanos = interval_for_fps fps';
      next_deadline_nanos = none;
      last_now_nanos = none;
    }

abbrev pub went_back : Option ℕ → ℕ → Bool
went_back none now = false
went_back (some previous) now = ltb now previous

-- The first half of `plan`: a clock that went back, or another rate, starts the schedule over.
unfoldable pub restart : DeadlinePacer → (now fps : ℕ) → DeadlinePacer
unfolding interval_for_fps
restart pacer now fps =
    let fps' = max fps 1 in
    let back = went_back pacer.last_now_nanos now in
    let pacer1 : DeadlinePacer = record pacer {
      last_now_nanos = some now;
      next_deadline_nanos = if back then some now else pacer.next_deadline_nanos;
    } in
    if fps' != pacer1.fps
    then record pacer1 {
      fps = fps';
      interval_nanos = interval_for_fps fps';
      next_deadline_nanos = some now;
    }
    else pacer1

abbrev pub unwrap_or : Option ℕ → ℕ → ℕ
unwrap_or none n = n
unwrap_or (some d) n = d

-- The deadline to wait for, and how many were missed before it.
unfoldable pub catch_up : (now deadline interval : ℕ) → ℕ × ℕ
catch_up now deadline interval =
    if ltb deadline now
    then (let skipped = (now - deadline) / interval in
        let reached = saturating_add64 deadline (saturating_mul64 skipped interval) in
        if ltb reached now
        then (saturating_add64 reached interval, saturating_add64 skipped 1)
        else (reached, skipped))
    else (deadline, 0)

unfoldable pub plan : DeadlinePacer → (now fps : ℕ) → DeadlinePacer × PacingPlan
unfolding restart catch_up
plan pacer now fps =
    let pacer' = restart pacer now fps in
    let (deadline, skipped) =
      catch_up now (unwrap_or pacer'.next_deadline_nanos now) pacer'.interval_nanos in
    (
      record pacer' {
        next_deadline_nanos = some (saturating_add64 deadline pacer'.interval_nanos);
      },
      record {
        sleep_nanos = deadline - now;
        skipped_deadlines = skipped;
        clock_discontinuity = went_back pacer.last_now_nanos now;
      },
    )
