-- ===== src/Extension/Fresh.antt =====
-- The extension never shows a frame that is too old, and answers a rate that the camera offers.
use mathlib.Core.Option.{some_inj}
use camera_man.Base.{
  ℕ, ◌-◌, ◌≤◌, ◌≡◌, refl, ap, subst, arith, true, false, not, Bool-cases, inl, inr, Option, none,
  some, ok, err, List, [], ◌∷◌,
}
use camera_man.Base.Options.{◌>>=◌}
use camera_man.Stream.Integrity.{FrameDiscontinuity}
use camera_man.Extension.{
  FrameSnapshot, LatestFrameReader, TransportAnswer, new_reader, frame_is_stale,
  stale_timeout_nanos, is_stale, follow_transport, forget_stale, poll, normalized_transport_fps,
  is_last_error,
}

module _ (Buffer : Type 0) where
  -- The last frame that came with a buffer, and that buffer.
  abbrev pub Delivery : Type 0
  Delivery = Option (FrameSnapshot × Buffer)

  abbrev pub newer : TransportAnswer Buffer → Delivery → Delivery
  newer (ok none) before = before
  newer (ok (some (snapshot, none))) before = before
  newer (ok (some (snapshot, some buffer))) before = some (snapshot, buffer)
  newer (err message) before = before

  abbrev pub newest : List (ℕ × TransportAnswer Buffer) → Delivery → Delivery
  newest [] before = before
  newest ((now, answer) ∷ polls) before = newest polls (newer answer before)

  -- A buffer that is shown was the last to be delivered, with the frame that is known, and a reader
  -- that is stale knows none.
  pub record IsPaired (last : Delivery) (reader : LatestFrameReader Buffer) : Type 0 where
    pub paired :
        (buffer : Buffer)
        → reader.last_pixel_buffer ≡ some buffer
        → (frame : FrameSnapshot) × (reader.last_frame ≡ some frame) × (last ≡ some (frame, buffer))
    pub dark : reader.stale ≡ true → reader.last_frame ≡ none

  follow_transport-IsPaired :
      (answer : TransportAnswer Buffer) (last : Delivery) (reader : LatestFrameReader Buffer)
      → IsPaired last reader
      → IsPaired (newer answer last) (follow_transport Buffer answer reader).0
  unfolding follow_transport
  follow_transport-IsPaired (ok none) last reader p = p
  follow_transport-IsPaired (ok (some (snapshot, none))) last reader p = record {
    paired = p.paired;
    dark = p.dark;
  }
  follow_transport-IsPaired (ok (some (snapshot, some buffer))) last reader p = record {
    paired = λ b e. (snapshot, refl, ap (λ (c : Buffer). some (snapshot, c)) (some_inj.0 e));
    dark = λ e. absurd (ground arith);
  }
  follow_transport-IsPaired (err message) last reader p =
      elim (Bool-cases (is_last_error Buffer reader.last_error message)) [
        | inl again ↦ rw again p
        | inr first ↦ rw first (record { paired = p.paired; dark = p.dark })
      ]

  -- What is left is not too old.
  record Shows (now : ℕ) (last : Delivery) (reader : LatestFrameReader Buffer) : Type 0 where
    pairs : IsPaired last reader
    fresh : is_stale Buffer now reader.last_frame ≡ false

  forget_stale-Shows :
      (now : ℕ) (last : Delivery) (reader : LatestFrameReader Buffer) (seen : FrameDiscontinuity)
      → IsPaired last reader
      → Shows now last (forget_stale Buffer now (reader, seen)).0
  unfolding forget_stale
  forget_stale-Shows now last reader seen p =
      elim (Bool-cases (not (is_stale Buffer now reader.last_frame))) [
        | inl kept ↦ rw (kept, forget_stale) (record { pairs = p; fresh = ground arith })
        | inr gone ↦ elim (Bool-cases reader.stale) [
          | inl told ↦
              rw (gone, told, forget_stale)
                (record {
                  pairs = record { paired = λ b e. absurd (ground arith); dark = λ e. refl };
                  fresh = refl;
                })
          | inr first ↦
              rw (gone, first, forget_stale)
                (record {
                  pairs = record { paired = λ b e. absurd (ground arith); dark = λ e. refl };
                  fresh = refl;
                })
        ]
      ]

  poll-Shows :
      (now : ℕ) (answer : TransportAnswer Buffer) (last : Delivery)
      (reader : LatestFrameReader Buffer)
      → IsPaired last reader
      → Shows now (newer answer last) (poll Buffer now answer reader).0
  unfolding poll
  poll-Shows now answer last reader p =
      forget_stale-Shows now (newer answer last) (follow_transport Buffer answer reader).0
        (follow_transport Buffer answer reader).1 (follow_transport-IsPaired answer last reader p)

  -- A history of polls, the earliest first.
  abbrev pub polled :
      List (ℕ × TransportAnswer Buffer) → LatestFrameReader Buffer → LatestFrameReader Buffer
  polled [] reader = reader
  polled ((now, answer) ∷ polls) reader = polled polls (poll Buffer now answer reader).0

  polled-IsPaired :
      (polls : List (ℕ × TransportAnswer Buffer)) (last : Delivery)
      (reader : LatestFrameReader Buffer)
      → IsPaired last reader
      → IsPaired (newest polls last) (polled polls reader)
  polled-IsPaired [] last reader p = p
  polled-IsPaired ((now, answer) ∷ polls) last reader p =
      polled-IsPaired polls (newer answer last) (poll Buffer now answer reader).0
        (poll-Shows now answer last reader p).pairs

  new_reader-IsPaired : IsPaired none (new_reader Buffer)
  unfolding new_reader
  new_reader-IsPaired = record { paired = λ b e. absurd (ground arith); dark = λ e. refl }

  stale_bound :
      (now : ℕ) (frame : FrameSnapshot)
      → frame_is_stale now frame ≡ false
      → now - frame.monotonic_timestamp_nanos ≤ stale_timeout_nanos frame.fps
  unfolding frame_is_stale
  stale_bound now frame e = ground arith

  normalized_bounds :
      (fps : Option ℕ) → (15 ≤ normalized_transport_fps fps) × (normalized_transport_fps fps ≤ 60)
  unfolding normalized_transport_fps
  normalized_bounds fps = (omega arith, omega arith)

  -- After any history of polls, the buffer that a poll shows is the last that the transport
  -- delivered, this poll included; the frame it knows is the one that came with this buffer, is not
  -- older than its stale timeout, and gives the rate, clamped. Every poll answers a rate from 15 to
  -- 60.
  pub poll-fresh :
      (polls : List (ℕ × TransportAnswer Buffer)) (now : ℕ) (answer : TransportAnswer Buffer)
      → let r = poll Buffer now answer (polled polls (new_reader Buffer)) in
        ((buffer : Buffer)
          → r.1.pixel_buffer ≡ some buffer
          → (frame : FrameSnapshot) × (r.0.last_frame ≡ some frame)
            × (newer answer (newest polls none) ≡ some (frame, buffer))
            × (now - frame.monotonic_timestamp_nanos ≤ stale_timeout_nanos frame.fps)
            × (r.1.fps ≡ normalized_transport_fps (some frame.fps)))
        × ((15 ≤ r.1.fps) × (r.1.fps ≤ 60))
  unfolding poll
  poll-fresh polls now answer =
      let reader = polled polls (new_reader Buffer) in
      let shown =
        poll-Shows now answer (newest polls none) reader
          (polled-IsPaired polls none (new_reader Buffer) new_reader-IsPaired) in
      (
        λ buffer e.
            let (frame, known, delivered) = shown.pairs.paired buffer e in
            let young = subst (λ f. is_stale Buffer now f ≡ false) known shown.fresh in
            (
              frame,
              known,
              delivered,
              stale_bound now frame young,
              ap
                  (λ (f : Option FrameSnapshot).
                    normalized_transport_fps (f >>= λ (g : FrameSnapshot). some g.fps))
                  known,
            ),
        normalized_bounds (
            (poll Buffer now answer reader).0.last_frame >>= λ (frame : FrameSnapshot).
            some frame.fps),
      )
