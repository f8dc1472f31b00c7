-- ===== src/Clock.antt =====
-- src/media_clock.rs, `MediaClock`: the ticks that ask the user interface for a picture. The worker
-- of `run_clock` sleeps under the lock that every other call takes, so that an event is either a call
-- or one awakening of the worker; the readings of the system's clock are part of it. The condition variable, which only
-- hastens the awakening, and the thread's handle are left out.
pub mod Quiet
use camera_man.Base.{
  ℕ, max, Bool, true, false, not, ◌&&◌, ◌||◌, ◌==◌, if◌then◌else◌, Option, none, some, List, [],
  ◌∷◌, wrapping_add64,
}
use camera_man.Stream.Pacer.{DeadlinePacer, PacingPlan, new_pacer, plan}

pub record ClockControl : Type 0 where
  pub running : Bool
  pub fps : ℕ
  pub revision : ℕ
  pub stopping : Bool

-- Where the worker is: it waits until the clock runs, sleeps towards the deadline of a revision, or
-- has returned.
pub data Place : Type 0 where
  idle : Place
  sleeping : (revision : ℕ) → (sleep_nanos : ℕ) → Place
  returned : Place

pub record MediaClock : Type 0 where
  pub control : ClockControl
  pub generation : ℕ
  pub consumed_generation : ℕ
  pub pacer : DeadlinePacer
  pub pacing_revision : ℕ
  pub place : Place

abbrev pub new_clock : (fps : ℕ) → MediaClock
new_clock fps = record {
  control = record { running = false; fps = max fps 1; revision = 0; stopping = false };
  generation = 0;
  consumed_generation = 0;
  pacer = new_pacer 1;
  pacing_revision = 18446744073709551615;
  place = idle;
}

abbrev running_eq : Bool → Bool → Bool
running_eq true true = true
running_eq false false = true
running_eq _ _ = false

unfoldable pub update : (running : Bool) → (fps : ℕ) → ClockControl → ClockControl
update running fps control =
    if running_eq control.running running && control.fps == max fps 1
    then control
    else record control {
      running = running;
      fps = max fps 1;
      revision = wrapping_add64 control.revision 1;
    }

unfoldable pub start : (fps : ℕ) → MediaClock → MediaClock
unfolding update
start fps clock = record clock {
  consumed_generation = clock.generation;
  control = update true fps clock.control;
}

unfoldable pub stop : MediaClock → MediaClock
unfolding update
stop clock = record clock {
  control = update false clock.control.fps clock.control;
  consumed_generation = clock.generation;
}

unfoldable pub set_fps : (fps : ℕ) → MediaClock → MediaClock
set_fps fps clock = if clock.control.fps == max fps 1 then clock else record clock {
  control = record clock.control {
    fps = max fps 1;
    revision = wrapping_add64 clock.control.revision 1;
  };
}

unfoldable pub take_tick : MediaClock → MediaClock × Bool
take_tick clock =
    if clock.generation == clock.consumed_generation
    then (clock, false)
    else (record clock { consumed_generation = clock.generation }, true)

unfoldable pub dropped : MediaClock → MediaClock
dropped clock = record clock {
  control = record clock.control {
    stopping = true;
    running = false;
    revision = wrapping_add64 clock.control.revision 1;
  };
}

-- A new revision starts the schedule over.
abbrev pub with_schedule : (reset_now : ℕ) → MediaClock → MediaClock
with_schedule reset_now clock =
    if clock.pacing_revision == clock.control.revision then clock else record clock {
      pacer = (plan (new_pacer clock.control.fps) reset_now clock.control.fps).0;
      pacing_revision = clock.control.revision;
    }

-- The head of the loop, up to the next sleep.
unfoldable pub schedule : (reset_now now : ℕ) → MediaClock → MediaClock
schedule reset_now now clock =
    if clock.control.stopping
    then record clock { place = returned }
    else if not clock.control.running
    then record clock { place = idle }
    else (let scheduled = with_schedule reset_now clock in
        let next = plan scheduled.pacer now clock.control.fps in
        record scheduled {
          pacer = next.0;
          place = sleeping clock.control.revision next.1.sleep_nanos;
        })

-- The sleep was on time, and for the rate that still holds.
abbrev pub ticks : (timed_out : Bool) → (revision : ℕ) → MediaClock → Bool
ticks timed_out revision clock =
    timed_out
    && (not clock.control.stopping && (clock.control.running && clock.control.revision == revision))

abbrev pub counted : (ticked : Bool) → MediaClock → MediaClock
counted ticked clock =
    if ticked then record clock { generation = wrapping_add64 clock.generation 1 } else clock

-- The end of a sleep, on time or because of a call.
unfoldable pub awake : (reset_now now : ℕ) → (timed_out : Bool) → MediaClock → MediaClock
unfolding schedule
awake reset_now now timed_out clock = elim clock.place [
  | idle ↦ schedule reset_now now clock
  | returned ↦ clock
  | sleeping revision sleep_nanos ↦
      schedule reset_now now (counted (ticks timed_out revision clock) clock)
]

pub data Event : Type 0 where
  started : (fps : ℕ) → Event
  stopped : Event
  fps_set : (fps : ℕ) → Event
  tick_taken : Event
  woken : (reset_now now : ℕ) → (timed_out : Bool) → Event

unfoldable pub happens : Event → MediaClock → MediaClock
unfolding start stop set_fps take_tick awake
happens (started fps) clock = start fps clock
happens stopped clock = stop clock
happens (fps_set fps) clock = set_fps fps clock
happens tick_taken clock = (take_tick clock).0
happens (woken reset_now now timed_out) clock = awake reset_now now timed_out clock

abbrev pub run : List Event → MediaClock → MediaClock
run [] clock = clock
run (event ∷ events) clock = run events (happens event clock)
