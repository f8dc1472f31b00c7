-- ===== src/Capture/Worker/Leases.antt =====
-- A step of one worker changes the set of leases as it changes what the worker holds.
pub mod Exclusive
use text.Mathlib.TextEquality.{eq_iff}
use camera_man.Base.{
  ℕ, zero, suc, ◌+◌, ◌≤◌, ◌≡◌, refl, sym, ◌∙◌, ap, subst, arith, String, Bool, true, false, leb,
  Bool-cases, inl, inr, ◌⊎◌, if◌then◌else◌, List, [], ◌∷◌,
}
use camera_man.Capture.Lease.{
  same_id, contains, try_acquire_camera_lease, drop_lease, occurs, contains-false, occurs-drop_same,
  occurs-drop_other,
}
use camera_man.Capture.Worker.{
  Place, waiting, inside_open, inside_read, pausing, retrying, returned, Answer, lease_asked,
  opened, open_failed, open_panicked, frame_read, read_failed, read_panicked, woken, CaptureWorker,
  run_step, has_returned, after_open, after_read, after_pause, after_retry, leave, ask_for_lease,
  worker_step, Workers, Event, answered, dropped_source, created, answer_at, stop_at, take_place,
  run, no_workers,
}

abbrev pub holds_lease : Place → Bool
holds_lease waiting = false
holds_lease returned = false
holds_lease _ = true

-- 1 for a worker that holds the lease of this camera.
abbrev pub holds : (id : String) → CaptureWorker → ℕ
holds id w = if holds_lease w.place then (if same_id w.id id then 1 else 0) else 0

abbrev pub held : (id : String) → List CaptureWorker → ℕ
held id [] = 0
held id (w ∷ ws) = holds id w + held id ws

abbrev is_waiting : Place → Bool
is_waiting waiting = true
is_waiting _ = false

-- A worker with a lease keeps its camera, and never waits for a lease again.
record Stays (w w' : CaptureWorker) : Type 0 where
  same : w'.id ≡ w.id
  past : is_waiting w'.place ≡ false

after_open-Stays :
    (now : ℕ) (a : Answer) (w : CaptureWorker)
    → w.place ≡ inside_open
    → Stays w (after_open now a w)
unfolding after_open
after_open-Stays now a w e = record { same = ground arith; past = ground arith }

after_read-Stays :
    (now streak : ℕ) (a : Answer) (w : CaptureWorker)
    → w.place ≡ inside_read streak
    → Stays w (after_read now streak a w)
unfolding after_read
after_read-Stays now streak a w e = record { same = ground arith; past = ground arith }

after_pause-Stays :
    (streak : ℕ) (a : Answer) (w : CaptureWorker)
    → w.place ≡ pausing streak
    → Stays w (after_pause streak a w)
unfolding after_pause
after_pause-Stays streak a w e = record { same = ground arith; past = ground arith }

after_retry-Stays :
    (now delay : ℕ) (a : Answer) (w : CaptureWorker)
    → w.place ≡ retrying delay
    → Stays w (after_retry now a w)
unfolding after_retry
after_retry-Stays now delay a w e = record { same = ground arith; past = ground arith }

-- What a step of one worker does to the leases: the set and the holders change together.
pub record Balanced (active : List String) (w : CaptureWorker) (r : List String × CaptureWorker)
    : Type 0 where
  pub same : r.1.id ≡ w.id
  pub sum : (id : String) → occurs id r.0 + holds id w ≡ occurs id active + holds id r.1
  pub once : (id : String) → occurs id r.0 ≤ 1

-- The set holds each camera once at most, and those of the worker.
pub record Fits (active : List String) (w : CaptureWorker) : Type 0 where
  pub once : (id : String) → occurs id active ≤ 1
  pub kept : (id : String) → holds id w ≤ occurs id active

-- A lease that is given back leaves its own camera only.
dropped_sum :
    (active : List String) (own id : String)
    → occurs id active ≤ 1
    → (if same_id own id then 1 else 0) ≤ occurs id active
    → occurs id (drop_lease own active) + (if same_id own id then 1 else 0) ≡ occurs id active
dropped_sum active own id once kept = elim (Bool-cases (same_id own id)) [
  | inl same ↦
      let e : own ≡ id = (eq_iff own id).0 same in
      let gone : occurs id (drop_lease own active) ≡ 0 = rw e (occurs-drop_same id active) in
      rw same (omega (arith, gone, once, (rw same at kept)))
  | inr other ↦ let stays = occurs-drop_other id own active other in rw other (omega (arith, stays))
]

holds_own :
    (w : CaptureWorker) (id : String)
    → holds_lease w.place ≡ true
    → holds id w ≡ (if same_id w.id id then 1 else 0)
holds_own w id own = rw own refl

holds_nothing : (w : CaptureWorker) (id : String) → holds_lease w.place ≡ false → holds id w ≡ 0
holds_nothing w id free = rw free refl

-- A worker that goes on counts for its camera what the worker before counted.
own_count :
    (w w' : CaptureWorker) (id : String)
    → holds_lease w.place ≡ true
    → w'.id ≡ w.id
    → holds id w ≡ (if same_id w'.id id then 1 else 0)
own_count w w' id own same =
    holds_own w id own ∙ ap (λ (x : String). if same_id x id then 1 else 0) (sym same)

leave-Balanced :
    (active : List String) (w w' : CaptureWorker)
    → holds_lease w.place ≡ true
    → Fits active w
    → Stays w w'
    → Balanced active w (leave active w')
unfolding leave
leave-Balanced active w w' own fits stays = elim (Bool-cases (has_returned w'.place)) [
  | inl gone ↦
      rw (gone, leave)
        (record {
          same = stays.same;
          sum = λ id. omega (
            arith,
            given_back id,
            own_count w w' id own stays.same,
            holds_nothing w' id (ground arith),
          );
          once = λ id. omega (arith, given_back id, fits.once id);
        })
  | inr stayed ↦
      rw (stayed, leave)
        (record {
          same = stays.same;
          sum = λ id. omega (
            arith,
            own_count w w' id own stays.same,
            holds_own w' id (ground (arith, stays.past)),
          );
          once = fits.once;
        })
]
  where
    given_back :
        (id : String)
        → occurs id (drop_lease w'.id active) + (if same_id w'.id id then 1 else 0)
          ≡ occurs id active
    given_back id =
        dropped_sum active w'.id id (fits.once id)
          (omega (arith, own_count w w' id own stays.same, fits.kept id))

ask-Balanced :
    (now : ℕ) (active : List String) (w : CaptureWorker)
    → w.place ≡ waiting
    → Fits active w
    → Balanced active w (ask_for_lease now active w)
unfolding ask_for_lease try_acquire_camera_lease
ask-Balanced now active w e fits = elim (Bool-cases w.slots.stop) [
  | inl stopped ↦ rw stopped (record {
    same = refl;
    sum = λ id. omega (arith, holds_nothing w id (ground arith));
    once = fits.once;
  })
  | inr running ↦ elim (Bool-cases (contains w.id active)) [
    | inl taken ↦
        rw (running, taken, ask_for_lease, try_acquire_camera_lease)
          (record { same = refl; sum = λ id. omega arith; once = fits.once })
    | inr free ↦
        rw (running, free, ask_for_lease, try_acquire_camera_lease)
          (record {
            same = refl;
            sum = λ id. ground (arith, holds_nothing w id (ground arith));
            once = λ id. elim (Bool-cases (same_id w.id id)) [
              | inl own ↦
                  let x : w.id ≡ id = (eq_iff w.id id).0 own in
                  let fresh = contains-false w.id active free in
                  ground (arith, subst (λ i. occurs i active ≡ 0) x fresh)
              | inr other ↦ ground (arith, fits.once id)
            ];
          })
  ]
]

pub worker_step-Balanced :
    (now : ℕ) (a : Answer) (active : List String) (p : Place) (w : CaptureWorker)
    → w.place ≡ p
    → Fits active w
    → Balanced active w (worker_step now a active p w)
unfolding worker_step run_step
worker_step-Balanced now a active waiting w e fits = ask-Balanced now active w e fits
worker_step-Balanced now a active returned w e fits = record {
  same = refl;
  sum = λ id. omega arith;
  once = fits.once;
}
worker_step-Balanced now a active inside_open w e fits =
    leave-Balanced active w _ (ground arith) fits (after_open-Stays now a w e)
worker_step-Balanced now a active (inside_read streak) w e fits =
    leave-Balanced active w _ (ground arith) fits (after_read-Stays now streak a w e)
worker_step-Balanced now a active (pausing streak) w e fits =
    leave-Balanced active w _ (ground arith) fits (after_pause-Stays streak a w e)
worker_step-Balanced now a active (retrying delay) w e fits =
    leave-Balanced active w _ (ground arith) fits (after_retry-Stays now delay a w e)
