-- ===== src/Clock/Quiet.antt =====
-- A clock that was stopped asks for nothing, and no tick is taken twice.
use camera_man.Base.{
  ℕ, ◌+◌, ◌≤◌, ◌≡◌, refl, ap, sym, max, ◌∙◌, arith, Bool, true, false, not, ◌==◌, Bool-cases, inl,
  inr, if◌then◌else◌, List, [], ◌∷◌, All, wrapping_add64,
}
use camera_man.Clock.{
  ClockControl, Place, idle, sleeping, returned, MediaClock, new_clock, update, start, stop,
  set_fps, take_tick, schedule, ticks, counted, awake, Event, started, stopped, fps_set, tick_taken,
  woken, happens, run,
}

-- The clock does not run, and its ticks were taken.
record IsQuiet (clock : MediaClock) : Type 0 where
  rests : clock.control.running ≡ false
  taken : clock.generation ≡ clock.consumed_generation

-- The event does not start the clock.
abbrev pub is_start : Event → Bool
is_start (started fps) = true
is_start _ = false

stop-IsQuiet : (clock : MediaClock) → IsQuiet (stop clock)
unfolding stop update
stop-IsQuiet clock = record { rests = ground arith; taken = refl }

-- The ticks and the control are those of the clock before.
abbrev Same : (before after : MediaClock) → Type 0
Same before after =
    (after.generation ≡ before.generation)
    × (after.consumed_generation ≡ before.consumed_generation)
    × (after.control ≡ before.control)

either :
    (b : Bool) (before x y : MediaClock)
    → Same before x
    → Same before y
    → Same before (if b then x else y)
either true before x y h k = h
either false before x y h k = k

schedule-Same : (reset_now now : ℕ) (clock : MediaClock) → Same clock (schedule reset_now now clock)
unfolding schedule
schedule-Same reset_now now clock =
    let fresh =
      either (clock.pacing_revision == clock.control.revision) clock _ _ (refl, refl, refl)
        (refl, refl, refl) in
    either clock.control.stopping clock _ _ (refl, refl, refl)
      (either (not clock.control.running) clock _ _ (refl, refl, refl) fresh)

schedule-IsQuiet :
    (reset_now now : ℕ) (clock : MediaClock)
    → IsQuiet clock
    → IsQuiet (schedule reset_now now clock)
schedule-IsQuiet reset_now now clock q =
    let (generation, consumed, control) = schedule-Same reset_now now clock in
    record {
      rests = ap (λ (c : ClockControl). c.running) control ∙ q.rests;
      taken = generation ∙ q.taken ∙ sym consumed;
    }

awake-IsQuiet :
    (reset_now now : ℕ) (timed_out : Bool) (clock : MediaClock) (p : Place)
    → clock.place ≡ p
    → IsQuiet clock
    → IsQuiet (awake reset_now now timed_out clock)
unfolding awake
awake-IsQuiet reset_now now timed_out clock idle e q =
    rw (e, awake) (schedule-IsQuiet reset_now now clock q)
awake-IsQuiet reset_now now timed_out clock returned e q = rw (e, awake) q
awake-IsQuiet reset_now now timed_out clock (sleeping r n) e q =
    let none_due : ticks timed_out r clock ≡ false = ground (arith, q.rests) in
    rw (e, awake) (rw none_due (schedule-IsQuiet reset_now now clock q))

happens-IsQuiet :
    (event : Event) (clock : MediaClock)
    → is_start event ≡ false
    → IsQuiet clock
    → IsQuiet (happens event clock)
unfolding happens set_fps take_tick
happens-IsQuiet (started fps) clock n q = absurd (ground arith)
happens-IsQuiet stopped clock n q = stop-IsQuiet clock
happens-IsQuiet (fps_set fps) clock n q = record {
  rests = ground (arith, q.rests);
  taken = ground (arith, q.taken);
}
happens-IsQuiet tick_taken clock n q = record {
  rests = ground (arith, q.rests);
  taken = ground (arith, q.taken);
}
happens-IsQuiet (woken reset_now now timed_out) clock n q =
    awake-IsQuiet reset_now now timed_out clock clock.place refl q

run-IsQuiet :
    (events : List Event) (clock : MediaClock)
    → All (λ e. is_start e ≡ false) events
    → IsQuiet clock
    → IsQuiet (run events clock)
run-IsQuiet [] clock n q = q
run-IsQuiet (e ∷ events) clock n q =
    run-IsQuiet events (happens e clock) n.1 (happens-IsQuiet e clock n.0 q)

-- Whatever happened before, once the clock was stopped and until it is started again no tick is
-- there to be taken, also when the worker wakes up late or the rate is changed.
pub stop-take_tick :
    (before after : List Event) (fps : ℕ)
    → All (λ e. is_start e ≡ false) after
    → (take_tick (run after (stop (run before (new_clock fps))))).1 ≡ false
unfolding take_tick
stop-take_tick before after fps n =
    let quiet =
      run-IsQuiet after (stop (run before (new_clock fps))) n
        (stop-IsQuiet (run before (new_clock fps))) in
    ground (arith, quiet.taken)

-- 1 for an awakening that counts a tick, and for a call that takes one.
abbrev wakes : (timed_out : Bool) → Place → MediaClock → ℕ
wakes timed_out idle clock = 0
wakes timed_out returned clock = 0
wakes timed_out (sleeping revision n) clock = if ticks timed_out revision clock then 1 else 0

abbrev pub ticked : Event → MediaClock → ℕ
ticked (woken reset_now now timed_out) clock = wakes timed_out clock.place clock
ticked _ clock = 0

abbrev pub taken : Event → MediaClock → ℕ
taken tick_taken clock = if (take_tick clock).1 then 1 else 0
taken _ clock = 0

abbrev pub total : (count : Event → MediaClock → ℕ) → List Event → MediaClock → ℕ
total count [] clock = 0
total count (e ∷ events) clock = count e clock + total count events (happens e clock)

-- 1 for a tick that nobody took yet.
abbrev pending : MediaClock → ℕ
pending clock = if clock.generation == clock.consumed_generation then 0 else 1

-- The ticks of a clock, after and before.
pending-Same : (before after : MediaClock) → Same before after → pending after ≡ pending before
pending-Same before after (generation, consumed, control) = rw (generation, consumed) refl

pending_le : (clock : MediaClock) → pending clock ≤ 1
pending_le clock = elim (Bool-cases (clock.generation == clock.consumed_generation)) [
  | inl same ↦ rw same (omega arith)
  | inr apart ↦ rw apart (omega arith)
]

counted_pending :
    (ticked : Bool) (clock : MediaClock)
    → pending (counted ticked clock) ≤ pending clock + (if ticked then 1 else 0)
counted_pending true clock = omega (arith, pending_le (counted true clock))
counted_pending false clock = omega arith

awake_pending :
    (reset_now now : ℕ) (timed_out : Bool) (clock : MediaClock) (p : Place)
    → clock.place ≡ p
    → pending (awake reset_now now timed_out clock) ≤ pending clock + wakes timed_out p clock
unfolding awake
awake_pending reset_now now timed_out clock returned e = rw (e, awake) (omega arith)
awake_pending reset_now now timed_out clock idle e =
    let same =
      pending-Same clock (schedule reset_now now clock) (schedule-Same reset_now now clock) in
    rw (e, awake) (omega (arith, same))
awake_pending reset_now now timed_out clock (sleeping r n) e =
    let due = counted (ticks timed_out r clock) clock in
    let same = pending-Same due (schedule reset_now now due) (schedule-Same reset_now now due) in
    let more = counted_pending (ticks timed_out r clock) clock in
    rw (e, awake) (omega (arith, same, more))

taken_pending :
    (clock : MediaClock)
    → (if (take_tick clock).1 then 1 else 0) + pending (take_tick clock).0 ≤ pending clock
unfolding take_tick
taken_pending clock = elim (Bool-cases (clock.generation == clock.consumed_generation)) [
  | inl same ↦
      let nothing : pending clock ≡ 0 = rw same refl in
      rw (same, take_tick) (omega (arith, nothing))
  | inr apart ↦
      let self : (clock.generation == clock.generation) ≡ true = ground arith in
      rw (apart, self, take_tick) (omega arith)
]

fps_pending : (fps : ℕ) (clock : MediaClock) → pending (set_fps fps clock) ≡ pending clock
unfolding set_fps
fps_pending fps clock = elim (Bool-cases (clock.control.fps == max fps 1)) [
  | inl same ↦ rw same refl
  | inr other ↦ rw other refl
]

happens_pending :
    (event : Event) (clock : MediaClock)
    → taken event clock + pending (happens event clock) ≤ pending clock + ticked event clock
unfolding happens start stop
happens_pending (started fps) clock =
    let self : (clock.generation == clock.generation) ≡ true = ground arith in rw self (omega arith)
happens_pending stopped clock =
    let self : (clock.generation == clock.generation) ≡ true = ground arith in rw self (omega arith)
happens_pending (fps_set fps) clock = omega (arith, fps_pending fps clock)
happens_pending tick_taken clock = omega (arith, taken_pending clock)
happens_pending (woken reset_now now timed_out) clock =
    omega (arith, awake_pending reset_now now timed_out clock clock.place refl)

total_pending :
    (events : List Event) (clock : MediaClock)
    → total taken events clock + pending (run events clock)
      ≤ pending clock + total ticked events clock
total_pending [] clock = omega arith
total_pending (e ∷ events) clock =
    omega (arith, happens_pending e clock, total_pending events (happens e clock))

take_tick_pending : (clock : MediaClock) → pending (take_tick clock).0 ≡ 0
unfolding take_tick
take_tick_pending clock = elim (Bool-cases (clock.generation == clock.consumed_generation)) [
  | inl same ↦ rw (same, same) refl
  | inr apart ↦
      let self : (clock.generation == clock.generation) ≡ true = ground arith in
      rw (apart, self) refl
]

nothing_pending : (clock : MediaClock) → pending clock ≡ 0 → (take_tick clock).1 ≡ false
nothing_pending clock e = elim (Bool-cases (take_tick clock).1) [
  | inl takes ↦
      let bound = taken_pending clock in
      let one_taken = rw takes at bound in absurd (omega (arith, one_taken, e))
  | inr none_taken ↦ none_taken
]

one_pending : (clock : MediaClock) → pending clock ≡ 1 → (take_tick clock).1 ≡ true
unfolding take_tick
one_pending clock e = elim (Bool-cases (clock.generation == clock.consumed_generation)) [
  | inl same ↦ let nothing = rw same at e in absurd (omega (arith, nothing))
  | inr apart ↦ rw apart refl
]

-- A tick that is counted when no other is there is there to be taken.
awake_takes :
    (reset_now now : ℕ) (timed_out : Bool) (clock : MediaClock) (p : Place)
    → clock.place ≡ p
    → pending clock ≡ 0
    → wakes timed_out p clock ≡ 1
    → pending (awake reset_now now timed_out clock) ≡ 1
unfolding awake
awake_takes reset_now now timed_out clock idle e none_due h = absurd (omega (arith, h))
awake_takes reset_now now timed_out clock returned e none_due h = absurd (omega (arith, h))
awake_takes reset_now now timed_out clock (sleeping r n) e none_due h =
    let due = counted (ticks timed_out r clock) clock in
    let same = pending-Same due (schedule reset_now now due) (schedule-Same reset_now now due) in
    rw (e, awake)
      (same ∙ elim (Bool-cases (ticks timed_out r clock)) [
        | inl ticked ↦ rw ticked (counted_one clock none_due)
        | inr not_ticked ↦ let nothing = rw not_ticked at h in absurd (omega (arith, nothing))
      ])
  where
    counted_one : (clock : MediaClock) → pending clock ≡ 0 → pending (counted true clock) ≡ 1
    counted_one clock none_due =
        let apart : (wrapping_add64 clock.generation 1 == clock.consumed_generation) ≡ false =
          ground (arith, none_due) in
        rw apart refl

happens_takes :
    (event : Event) (clock : MediaClock)
    → pending clock ≡ 0
    → ticked event clock ≡ 1
    → (take_tick (happens event clock)).1 ≡ true
unfolding happens
happens_takes (started fps) clock none_due h = absurd (omega (arith, h))
happens_takes stopped clock none_due h = absurd (omega (arith, h))
happens_takes (fps_set fps) clock none_due h = absurd (omega (arith, h))
happens_takes tick_taken clock none_due h = absurd (omega (arith, h))
happens_takes (woken reset_now now timed_out) clock none_due h =
    one_pending (awake reset_now now timed_out clock)
      (awake_takes reset_now now timed_out clock clock.place refl none_due h)

-- In every order of calls and awakenings no more ticks are taken than the worker counted. Ticks that
-- are late come as one: after a tick is taken, however many were due, no tick is there to be taken
-- until the worker counts another, and the next that it counts is there.
pub total-taken :
    (events : List Event) (fps : ℕ)
    → let clock = (take_tick (run events (new_clock fps))).0 in
      (total taken events (new_clock fps) ≤ total ticked events (new_clock fps))
      × ((after : List Event)
          → total ticked after clock ≡ 0
          → ((take_tick (run after clock)).1 ≡ false)
            × ((event : Event)
                → ticked event (run after clock) ≡ 1
                → (take_tick (happens event (run after clock))).1 ≡ true))
total-taken events fps =
    let clock = (take_tick (run events (new_clock fps))).0 in
    let none_left = take_tick_pending (run events (new_clock fps)) in
    (
      omega (arith, total_pending events (new_clock fps)),
      λ after none_due.
          let still : pending (run after clock) ≡ 0 =
            omega (arith, none_due, total_pending after clock, none_left) in
          (
            nothing_pending (run after clock) still,
            λ event due. happens_takes event (run after clock) still due,
          ),
    )
