-- ===== src/Shm/Channel.antt =====
-- The mapped region and its two users. The region's atomics are plain fields: these functions are a
-- call that nobody disturbs (the interleavings of one slot are in Ownership). A slot's bytes are the
-- list of its contents; a copy overwrites the front of it. Clocks, process ids and liveness are
-- arguments; statistics and tracing have no effect on the region and are left out.
pub mod Writer
pub mod Reader
pub mod Claim
pub mod Publish
use camera_man.Base.{ℕ, ◌==◌, if◌then◌else◌, List, [], ◌++◌, length, drop}
use camera_man.Media.Formats.{virtual_camera_default_fps}
use camera_man.Media.Colorimetry.{bt709_full_opaque, wire_code}
use camera_man.Shm.Slot.{slot_free}
use camera_man.Shm.Mapping.{version, slot_count, invalid_slot}
use camera_man.Shm.Validation.{pixel_format_bgra8}

-- src/shared_memory_transport/protocol.rs, `SharedSlot` and `SharedHeader`.
pub record SharedSlot : Type 0 where
  pub state : ℕ
  pub width : ℕ
  pub height : ℕ
  pub pixel_format : ℕ
  pub fps : ℕ
  pub color_contract : ℕ
  pub sequence : ℕ
  pub generation : ℕ
  pub monotonic_timestamp_nanos : ℕ
  pub wall_timestamp_nanos : ℕ
  pub data_len : ℕ

pub record SharedHeader : Type 0 where
  pub magic_word : ℕ
  pub version_word : ℕ
  pub slot_count_word : ℕ
  pub active_slot : ℕ
  pub writer_pid : ℕ
  pub consumer_pid : ℕ
  pub writer_generation : ℕ
  pub writer_process_start_token : ℕ
  pub writer_heartbeat_monotonic_nanos : ℕ
  pub consumer_generation : ℕ
  pub consumer_sequence : ℕ
  pub consumer_heartbeat_monotonic_nanos : ℕ
  pub slot_capacity : ℕ
  pub next_sequence : ℕ
  pub slots : ℕ → SharedSlot

pub record Region : Type 0 where
  pub header : SharedHeader
  pub slot_bytes : ℕ → List ℕ

unfoldable pub new_slot : SharedSlot
unfolding wire_code
new_slot = record {
  state = slot_free;
  width = 0;
  height = 0;
  pixel_format = pixel_format_bgra8;
  fps = virtual_camera_default_fps;
  color_contract = wire_code bt709_full_opaque;
  sequence = 0;
  generation = 0;
  monotonic_timestamp_nanos = 0;
  wall_timestamp_nanos = 0;
  data_len = 0;
}

unfoldable pub new_header : ℕ → SharedHeader
unfolding new_slot
new_header slot_capacity = record {
  magic_word = 0;
  version_word = version;
  slot_count_word = slot_count;
  active_slot = invalid_slot;
  writer_pid = 0;
  consumer_pid = 0;
  writer_generation = 0;
  writer_process_start_token = 0;
  writer_heartbeat_monotonic_nanos = 0;
  consumer_generation = 0;
  consumer_sequence = 0;
  consumer_heartbeat_monotonic_nanos = 0;
  slot_capacity = slot_capacity;
  next_sequence = 0;
  slots = λ _. new_slot;
}

abbrev pub store_at {ℓ} : {A : Type ℓ} → (ℕ → A) → ℕ → A → ℕ → A
store_at f i a j = if j == i then a else f j

abbrev pub with_slot : Region → ℕ → SharedSlot → Region
with_slot r i slot =
    let h = r.header in record r { header = record h { slots = store_at h.slots i slot } }

-- A store to a slot's state word.
abbrev pub with_state : Region → ℕ → ℕ → Region
with_state r i word = let slot = r.header.slots i in with_slot r i (record slot { state = word })

-- `copy_nonoverlapping` to the start of the slot.
abbrev pub with_bytes : Region → ℕ → List ℕ → Region
with_bytes r i bytes = record r {
  slot_bytes = store_at r.slot_bytes i (bytes ++ drop (length bytes) (r.slot_bytes i));
}
