-- ===== src/Shm/Channel/Reader.antt =====
-- src/shared_memory_transport/reader.rs: `SharedFrameReader`. A borrowed frame keeps its slot in the
-- reading state until `drop_borrowed`.
use camera_man.Base.{
  ℕ, zero, suc, ◌*◌, max, Bool, false, Option, none, some, ok, err, ◌>>=◌, ◌>>◌, ok_or, map_err,
  leb, ◌==◌, ◌!=◌, if◌then◌else◌, take, checked_mul64,
}
use camera_man.Error.{invalid_media_contract, buffer_too_large, Checked}
use camera_man.Media.Formats.{bgra8, bytes_per_pixel}
use camera_man.Media.Colorimetry.{from_wire_code}
use camera_man.Media.Contract.{canonical_bgra}
use camera_man.Frame.Limits.{FrameLimits}
use camera_man.Frame.Buffer.{Frame}
use camera_man.Frame.View.{
  FrameView, new_checked_view_with_contract, to_owned_tightly_packed_with_limits,
}
use camera_man.Shm.Slot.{try_claim_for_read, release_read}
use camera_man.Shm.Mapping.{slot_count}
use camera_man.Shm.Validation.{validate_shared_slot_metadata}
use camera_man.Shm.Channel.{Region, with_state}

pub record SharedFrameReader : Type 0 where
  pub slot_capacity : ℕ
  pub last_sequence : Option ℕ
  pub writer_generation : ℕ

-- `try_open_endpoint`, once the mapping is there.
abbrev pub open_reader : Region → SharedFrameReader
open_reader r = record {
  slot_capacity = r.header.slot_capacity;
  last_sequence = none;
  writer_generation = r.header.writer_generation;
}

pub record BorrowedTransportFrame : Type 0 where
  pub frame : FrameView
  pub sequence : ℕ
  pub generation : ℕ
  pub monotonic_timestamp_nanos : ℕ
  pub timestamp_nanos : ℕ
  pub fps : ℕ
  pub guard : ℕ  -- the slot that the frame keeps

pub record TransportFrame : Type 0 where
  pub frame : Frame
  pub sequence : ℕ
  pub generation : ℕ
  pub monotonic_timestamp_nanos : ℕ
  pub timestamp_nanos : ℕ
  pub fps : ℕ

-- `Drop` of the guard.
unfoldable pub drop_guard : Region → ℕ → Region
drop_guard r index = with_state r index (release_read (r.header.slots index).state)

-- The view of a leased slot, from its metadata to the checked frame.
unfoldable pub borrow_frame : Region → ℕ → ℕ → Checked FrameView
unfolding bytes_per_pixel
borrow_frame r index slot_capacity = do
  let slot = r.header.slots index
  map_err (λ _. invalid_media_contract "shared-memory slot metadata is inconsistent")
      (validate_shared_slot_metadata
        (record {
          state = slot.state;
          width = slot.width;
          height = slot.height;
          pixel_format = slot.pixel_format;
          fps = max slot.fps 1;
          color_contract = slot.color_contract;
          generation = slot.generation;
          data_len = slot.data_len;
        })
        slot_capacity)
  row_stride ←
      ok_or (checked_mul64 slot.width (bytes_per_pixel bgra8)) (buffer_too_large (slot.width * 4))
  colorimetry ←
      ok_or (from_wire_code slot.color_contract)
        (invalid_media_contract "unknown shared-memory color contract")
  let contract = canonical_bgra slot.width slot.height
  new_checked_view_with_contract slot.width slot.height bgra8
      (record contract { colorimetry = colorimetry }) row_stride
      (take slot.data_len (r.slot_bytes index))

abbrev pub is_last : Option ℕ → ℕ → Bool
is_last none sequence = false
is_last (some last) sequence = last == sequence

-- What a round of the loop ends in.
pub data Round : Type 0 where
  again : Region → SharedFrameReader → Round
  done : Region → SharedFrameReader → Checked (Option BorrowedTransportFrame) → Round

-- The acknowledgement: the reader's progress, published by its process id.
unfoldable pub acknowledge : Region → (pid now generation sequence : ℕ) → Region
acknowledge r pid now generation sequence =
    let h = r.header in
    record r {
      header = record h {
        consumer_pid = pid;
        consumer_generation = generation;
        consumer_sequence = sequence;
        consumer_heartbeat_monotonic_nanos = now;
      };
    }

-- The rest of a round whose lease on slot `index` succeeded.
unfoldable pub read_leased : Region → SharedFrameReader → ℕ → (pid now : ℕ) → Round
unfolding drop_guard acknowledge
read_leased r reader index pid now =
    let slot = r.header.slots index in
    if slot.generation != reader.writer_generation
    then again (drop_guard r index) reader
    else if is_last reader.last_sequence slot.sequence
    then done (drop_guard r index) reader (ok none)
    else elim (borrow_frame r index reader.slot_capacity) [
      | err e ↦ done (drop_guard r index) reader (err e)
      | ok view ↦
          done (acknowledge r pid now slot.generation slot.sequence)
            (record reader { last_sequence = some slot.sequence })
            (ok (
              some (record {
                frame = view;
                sequence = slot.sequence;
                generation = slot.generation;
                monotonic_timestamp_nanos = slot.monotonic_timestamp_nanos;
                timestamp_nanos = slot.wall_timestamp_nanos;
                fps = max slot.fps 1;
                guard = index;
              })))
    ]

-- `writer_generation != self.writer_generation`: a new writer's sequences start over.
abbrev pub follow_writer : SharedFrameReader → ℕ → SharedFrameReader
follow_writer reader generation =
    if generation != reader.writer_generation
    then record reader { writer_generation = generation; last_sequence = none }
    else reader

unfoldable pub read_round : Region → SharedFrameReader → (pid now : ℕ) → Round
unfolding read_leased
read_round r reader pid now =
    let generation = r.header.writer_generation in
    if generation == 0
    then done r reader (ok none)
    else (let reader' = follow_writer reader generation in
        let index = r.header.active_slot in
        if leb slot_count index
        then done r reader' (ok none)
        else (let (word, won) = try_claim_for_read (r.header.slots index).state pid in
            if won
            then read_leased (with_state r index word) reader' index pid now
            else again r reader'))

abbrev pub ReadResult : Type 0
ReadResult = Region × SharedFrameReader × Checked (Option BorrowedTransportFrame)

unfoldable pub read_rounds : ℕ → Region → SharedFrameReader → (pid now : ℕ) → ReadResult
read_rounds zero r reader pid now = (r, reader, ok none)
read_rounds (suc rounds) r reader pid now = elim (read_round r reader pid now) [
  | again r' reader' ↦ read_rounds rounds r' reader' pid now
  | done r' reader' result ↦ (r', reader', result)
]

unfoldable pub read_latest_borrowed : Region → SharedFrameReader → (pid now : ℕ) → ReadResult
unfolding read_rounds
read_latest_borrowed r reader pid now = read_rounds slot_count r reader pid now

unfoldable pub into_owned : FrameLimits → BorrowedTransportFrame → Checked TransportFrame
into_owned limits b = do
  frame ← to_owned_tightly_packed_with_limits b.frame limits
  ok (record {
    frame = frame;
    sequence = b.sequence;
    generation = b.generation;
    monotonic_timestamp_nanos = b.monotonic_timestamp_nanos;
    timestamp_nanos = b.timestamp_nanos;
    fps = b.fps;
  })

abbrev transposed : Checked TransportFrame → Checked (Option TransportFrame)
transposed (ok t) = ok (some t)
transposed (err e) = err e

-- `read_latest`: the owned copy ends the lease.
abbrev owned_result :
    FrameLimits → ReadResult → Region × SharedFrameReader × Checked (Option TransportFrame)
owned_result limits (r, reader, err e) = (r, reader, err e)
owned_result limits (r, reader, ok none) = (r, reader, ok none)
owned_result limits (r, reader, ok (some b)) =
    (drop_guard r b.guard, reader, transposed (into_owned limits b))

unfoldable pub read_latest :
    FrameLimits
    → Region
    → SharedFrameReader
    → (pid now : ℕ) → Region × SharedFrameReader × Checked (Option TransportFrame)
unfolding into_owned drop_guard
read_latest limits r reader pid now = owned_result limits (read_latest_borrowed r reader pid now)
