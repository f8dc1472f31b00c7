-- ===== src/Shm/Channel/Publish/Delivery.antt =====
-- A published frame is delivered, whole and once.
use camera_man.Base.{
  ℕ, suc, ◌≤◌, ◌<◌, ◌≡◌, refl, min, false, Option, none, some, ok, arith, length, take, drop,
  take-append_length, u64_max, u32_mod, ==_refl,
}
use camera_man.Error.{Checked}
use camera_man.Frame.Limits.{FrameLimits}
use camera_man.Frame.Buffer.{Frame}
use camera_man.Frame.View.{as_view}
use camera_man.Frame.View.Tight.{to_owned-as_view}
use camera_man.Shm.Slot.{reading_slot_state, publish_ready, try_claim_for_read}
use camera_man.Shm.Mapping.{slot_count}
use camera_man.Shm.Channel.{Region, with_state}
use camera_man.Shm.Channel.Writer.{publish}
use camera_man.Shm.Channel.Reader.{
  SharedFrameReader, BorrowedTransportFrame, TransportFrame, done, acknowledge, drop_guard,
  read_leased, read_round, into_owned, read_latest_borrowed, read_rounds, read_latest,
  follow_writer, is_last,
}
use camera_man.Shm.Channel.Publish.{IsSendable, Holds, borrow_frame_held, canonical_valid}

-- A round that is over is the answer.
read_rounds-done :
    (rounds : ℕ) (r r' : Region) (reader reader' : SharedFrameReader) (pid now : ℕ)
    (result : Checked (Option BorrowedTransportFrame))
    → read_round r reader pid now ≡ done r' reader' result
    → read_rounds (suc rounds) r reader pid now ≡ (r', reader', result)
unfolding read_rounds
read_rounds-done rounds r r' reader reader' pid now result e = rw (read_rounds, e) refl

read_latest_borrowed-done :
    (r r' : Region) (reader reader' : SharedFrameReader) (pid now : ℕ)
    (result : Checked (Option BorrowedTransportFrame))
    → read_round r reader pid now ≡ done r' reader' result
    → read_latest_borrowed r reader pid now ≡ (r', reader', result)
unfolding read_latest_borrowed
read_latest_borrowed-done r r' reader reader' pid now result e =
    read_rounds-done 2 r r' reader reader' pid now result e

-- A reader with a 32-bit process id that is not zero, which has seen the frame in the active
-- slot, is told that there is nothing new, where the slot, the region and the reader have one
-- generation.
pub read_latest-seen :
    (limits : FrameLimits) (r : Region) (reader : SharedFrameReader) (pid now : ℕ)
    → r.header.active_slot < slot_count
    → 0 < pid
    → pid < u32_mod
    → (r.header.slots r.header.active_slot).generation ≡ reader.writer_generation
    → r.header.writer_generation ≡ reader.writer_generation
    → reader.last_sequence ≡ some (r.header.slots r.header.active_slot).sequence
    → (read_latest limits r reader pid now).2 ≡ ok none
unfolding read_latest read_latest_borrowed read_rounds read_round read_leased drop_guard
    try_claim_for_read
read_latest-seen limits r reader pid now b p s g w l =
    ground (arith, ==_refl reader.writer_generation, ==_refl r.header.active_slot)

module _ (r : Region) (i target_fps monotonic wall : ℕ) (f : Frame) (reader : SharedFrameReader)
    (pid now : ℕ) (in_range : i < slot_count) (writer : 0 < r.header.writer_generation)
    (rate : 0 < target_fps) (positive : 0 < pid) (small : pid < u32_mod)
    (sendable : IsSendable f reader.slot_capacity) where
  open r.header use {next_sequence, writer_generation}

  abbrev pub published : Region
  published = publish r i target_fps monotonic wall f

  pub leased : Region
  leased = with_state published i (reading_slot_state pid)

  leased-Holds : Holds (leased.header.slots i) f pid
  unfolding leased publish
  leased-Holds = ground (arith, ==_refl i)

  leased_bytes : take (length f.bytes) (leased.slot_bytes i) ≡ f.bytes
  unfolding leased publish
  leased_bytes = rw ==_refl (take-append_length f.bytes (drop (length f.bytes) (r.slot_bytes i)))

  abbrev pub borrowed : BorrowedTransportFrame
  borrowed = record {
    frame = as_view f;
    sequence = next_sequence;
    generation = writer_generation;
    monotonic_timestamp_nanos = monotonic;
    timestamp_nanos = min wall u64_max;
    fps = target_fps;
    guard = i;
  }

  round_delivers :
      is_last (follow_writer reader writer_generation).last_sequence next_sequence ≡ false
      → read_round published reader pid now
        ≡ done
            (acknowledge leased pid now writer_generation next_sequence)
            (record (follow_writer reader writer_generation) { last_sequence = some next_sequence })
            (ok (some borrowed))
  unfolding read_round publish publish_ready try_claim_for_read leased
  round_delivers fresh = ground (
    arith,
    ==_refl i,
    borrow_frame_held leased i reader.slot_capacity pid f positive small sendable leased-Holds
        leased_bytes,
  )

  abbrev pub delivered : TransportFrame
  delivered = record {
    frame = f;
    sequence = next_sequence;
    generation = writer_generation;
    monotonic_timestamp_nanos = monotonic;
    timestamp_nanos = min wall u64_max;
    fps = target_fps;
  }

  owned :
      (limits : FrameLimits)
      → length f.bytes ≤ limits.max_frame_bytes
      → into_owned limits borrowed ≡ ok delivered
  unfolding into_owned
  owned limits b =
      rw
        (to_owned-as_view f limits sendable.valid (canonical_valid f reader.slot_capacity sendable)
          b)
        refl

  pub reader_after : SharedFrameReader
  reader_after = record (follow_writer reader writer_generation) {
    last_sequence = some next_sequence;
  }

  pub region_after : Region
  unfolding leased
  region_after = drop_guard (acknowledge leased pid now writer_generation next_sequence) i

  -- The reader that has not seen the frame reads it, gives the slot back, and remembers it.
  pub read_published :
      (limits : FrameLimits)
      → length f.bytes ≤ limits.max_frame_bytes
      → is_last (follow_writer reader writer_generation).last_sequence next_sequence ≡ false
      → read_latest limits published reader pid now
        ≡ (region_after, reader_after, ok (some delivered))
  unfolding read_latest reader_after region_after
  read_published limits b fresh =
      rw (read_latest_borrowed-done _ _ _ _ pid now _ (round_delivers fresh))
        (rw (owned limits b) refl)
