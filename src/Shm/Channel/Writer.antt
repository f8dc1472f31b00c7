-- ===== src/Shm/Channel/Writer.antt =====
-- src/shared_memory_transport/writer.rs: `SharedFrameSink`.
use camera_man.Base.{
  ℕ, zero, suc, ◌+◌, ◌-◌, ◌%◌, min, max, Bool, not, Option, none, some, ok, err, ltb, ◌==◌,
  if◌then◌else◌, length, wrapping_add64, u64_max, u32_mod,
}
use camera_man.Error.{
  invalid_media_contract, unsupported_pixel_format, buffer_too_large, virtual_camera_unavailable,
  Checked,
}
use camera_man.Media.Formats.{bgra8, pixel_format_eq, virtual_camera_default_fps}
use camera_man.Media.Colorimetry.{wire_code}
use camera_man.Media.Contract.{is_canonical_bgra}
use camera_man.Frame.Buffer.{Frame}
use camera_man.Shm.Slot.{try_claim_for_write, publish_ready}
use camera_man.Shm.Mapping.{slot_count}
use camera_man.Shm.Validation.{pixel_format_bgra8}
use camera_man.Shm.Channel.{SharedSlot, Region, with_slot, with_state, with_bytes}

pub record SharedFrameSink : Type 0 where
  pub slot_capacity : ℕ
  pub mapping : Option Region
  pub target_fps : ℕ
  pub next_slot : ℕ

unfoldable pub new_sink : ℕ → SharedFrameSink
new_sink slot_capacity = record {
  slot_capacity = slot_capacity;
  mapping = none;
  target_fps = virtual_camera_default_fps;
  next_slot = 0;
}

unfoldable pub set_target_fps : SharedFrameSink → ℕ → SharedFrameSink
set_target_fps sink fps = record sink { target_fps = max fps 1 }

pub record ProducerProgress : Type 0 where
  pub generation : ℕ
  pub sequence : ℕ

abbrev producer_of : Option Region → Option ProducerProgress
producer_of none = none
producer_of (some r) =
    if r.header.next_sequence == 0
    then none
    else if r.header.writer_generation == 0
    then none
    else some
        (record { generation = r.header.writer_generation; sequence = r.header.next_sequence - 1 })

unfoldable pub producer_progress : SharedFrameSink → Option ProducerProgress
producer_progress sink = producer_of sink.mapping

pub record ConsumerProgress : Type 0 where
  pub pid : ℕ
  pub generation : ℕ
  pub sequence : ℕ
  pub heartbeat_monotonic_nanos : ℕ

-- The second load of the process id sees the first one's value, since nobody disturbs the call.
abbrev consumer_of : Option Region → Option ConsumerProgress
consumer_of none = none
consumer_of (some r) =
    if r.header.consumer_pid == 0
    then none
    else some (record {
      pid = r.header.consumer_pid;
      generation = r.header.consumer_generation;
      sequence = r.header.consumer_sequence;
      heartbeat_monotonic_nanos = r.header.consumer_heartbeat_monotonic_nanos;
    })

unfoldable pub consumer_progress : SharedFrameSink → Option ConsumerProgress
consumer_progress sink = consumer_of sink.mapping

-- The loop of `claim_slot` from `offset` on, with the rounds that are left.
unfoldable pub claim_from : ℕ → ℕ → ℕ → (ℕ → Bool) → Region → Region × Option ℕ
claim_from zero offset next_slot alive r = (r, none)
claim_from (suc rounds) offset next_slot alive r =
    let index = (next_slot + offset) % slot_count in
    let (word, won) = try_claim_for_write (r.header.slots index).state alive in
    let r' = with_state r index word in
    let rest = claim_from rounds (offset + 1) next_slot alive r' in
    if won then (r', some index) else rest

-- What `send` writes into a claimed slot, up to its publication.
unfoldable pub publish : Region → ℕ → (target_fps monotonic wall : ℕ) → Frame → Region
publish r index target_fps monotonic wall frame =
    let h = r.header in
    let slot = h.slots index in
    let filled : SharedSlot = record {
      state = publish_ready slot.state;
      width = frame.width;
      height = frame.height;
      pixel_format = pixel_format_bgra8;
      fps = target_fps;
      color_contract = wire_code frame.contract.colorimetry;
      sequence = h.next_sequence;
      generation = h.writer_generation;
      monotonic_timestamp_nanos = monotonic;
      wall_timestamp_nanos = min wall u64_max;
      data_len = length frame.bytes;
    } in
    let r' = with_bytes (with_slot r index filled) index frame.bytes in
    let h' = r'.header in
    record r' {
      header = record h' {
        next_sequence = wrapping_add64 h.next_sequence 1;
        active_slot = index % u32_mod;
        writer_heartbeat_monotonic_nanos = monotonic;
      };
    }

unfoldable pub send_claimed :
    SharedFrameSink
    → Region × Option ℕ
    → (monotonic wall : ℕ) → Frame
    → SharedFrameSink × Checked (Unit {0})
send_claimed sink (r, none) monotonic wall frame = (
  record sink { mapping = some r },
  err (virtual_camera_unavailable "all shared-memory frame slots are busy"),
)
send_claimed sink (r, some index) monotonic wall frame = (
  record sink {
    mapping = some (publish r index sink.target_fps monotonic wall frame);
    next_slot = (index + 1) % slot_count;
  },
  ok tt,
)

unfoldable pub send_to :
    Option Region
    → SharedFrameSink
    → (ℕ → Bool)
    → (monotonic wall : ℕ) → Frame
    → SharedFrameSink × Checked (Unit {0})
unfolding send_claimed
send_to none sink alive monotonic wall frame =
    (sink, err (virtual_camera_unavailable "shared-memory sink is not connected"))
send_to (some r) sink alive monotonic wall frame =
    if not (pixel_format_eq frame.pixel_format bgra8)
    then (sink, err unsupported_pixel_format)
    else if not (is_canonical_bgra frame.contract frame.width frame.height)
    then (sink, err (invalid_media_contract "transport accepts only compositor-normalized frames"))
    else if ltb sink.slot_capacity (length frame.bytes)
    then (sink, err (buffer_too_large (length frame.bytes)))
    else send_claimed sink (claim_from slot_count 0 sink.next_slot alive r) monotonic wall frame

unfoldable pub send :
    SharedFrameSink
    → (ℕ → Bool)
    → (monotonic wall : ℕ) → Frame
    → SharedFrameSink × Checked (Unit {0})
unfolding send_to
send sink alive monotonic wall frame = send_to sink.mapping sink alive monotonic wall frame
