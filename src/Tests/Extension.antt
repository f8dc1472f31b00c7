-- ===== src/Tests/Extension.antt =====
-- One frame shown and forgotten, and a clock that is stopped.
use camera_man.Base.{ℕ, ◌-◌, ◌≤◌, ◌≡◌, refl, true, false, none, some, ok, List, [], ◌∷◌}
use camera_man.Clock.{
  Event, started, fps_set, tick_taken, woken, happens, new_clock, run, stop, take_tick,
}
use camera_man.Clock.Quiet.{stop-take_tick, total, taken, ticked, total-taken}
use camera_man.Extension.{
  FrameSnapshot, TransportAnswer, new_reader, poll, stale_timeout_nanos, normalized_transport_fps,
}
use camera_man.Extension.Fresh.{newer, newest, polled, poll-fresh}
use camera_man.Media.Formats.{bgra8}

abbrev shown : FrameSnapshot
shown = record {
  width = 2;
  height = 1;
  pixel_format = bgra8;
  sequence = 1;
  generation = 7;
  monotonic_timestamp_nanos = 1000;
  fps = 30;
}

-- A frame with its buffer, and nothing new for a second.
abbrev history : List (ℕ × TransportAnswer ℕ)
history = (2000, ok (some (shown, some 5))) ∷ (1000002000, ok none) ∷ []

poll-fresh_example :
    let r = poll ℕ 1000003000 (ok none) (polled ℕ history (new_reader ℕ)) in
    ((buffer : ℕ)
      → r.1.pixel_buffer ≡ some buffer
      → (frame : FrameSnapshot) × (r.0.last_frame ≡ some frame)
        × (newer ℕ (ok none) (newest ℕ history none) ≡ some (frame, buffer))
        × (1000003000 - frame.monotonic_timestamp_nanos ≤ stale_timeout_nanos frame.fps)
        × (r.1.fps ≡ normalized_transport_fps (some frame.fps)))
    × ((15 ≤ r.1.fps) × (r.1.fps ≤ 60))
poll-fresh_example = poll-fresh ℕ history 1000003000 (ok none)

abbrev running : List Event
running = started 30 ∷ woken 0 0 false ∷ woken 40000000 40000000 true ∷ tick_taken ∷ []

abbrev late : List Event
late = woken 80000000 80000000 true ∷ fps_set 60 ∷ []

stop-take_tick_example : (take_tick (run late (stop (run running (new_clock 24))))).1 ≡ false
stop-take_tick_example = stop-take_tick running late 24 (refl, (refl, tt))

total-taken_example :
    let clock = (take_tick (run running (new_clock 24))).0 in
    (total taken running (new_clock 24) ≤ total ticked running (new_clock 24))
    × ((after : List Event)
        → total ticked after clock ≡ 0
        → ((take_tick (run after clock)).1 ≡ false)
          × ((event : Event)
              → ticked event (run after clock) ≡ 1
              → (take_tick (happens event (run after clock))).1 ≡ true))
total-taken_example = total-taken running 24
