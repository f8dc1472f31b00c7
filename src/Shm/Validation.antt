-- ===== src/Shm/Validation.antt =====
-- src/shared_memory_transport/validation.rs: what a process checks of a header and of a slot that
-- another process wrote. `usize::try_from` of a `u64` never fails at 64 bits.
pub mod Accepts
use camera_man.Base.{
  ℕ, Bool, true, false, not, ◌&&◌, ◌||◌, ◌==◌, ◌!=◌, ltb, leb, Option, none, some, Result, ok, err,
  ◌>>=◌, ◌>>◌, fail_if, ok_or, if◌then◌else◌,
}
use camera_man.Media.Formats.{bgra8, bytes_per_pixel}
use camera_man.Media.Colorimetry.{Colorimetry, bt709_full_opaque, colorimetry_eq, from_wire_code}
use camera_man.Frame.Limits.{checked_frame_byte_len}
use camera_man.Shm.Slot.{slot_ready, slot_reading, slot_state, slot_owner, is_known_state}
use camera_man.Shm.Mapping.{magic, version, slot_count, invalid_slot, checked_mapped_len}

-- `WirePixelFormat::Bgra8.code()`.
abbrev pub pixel_format_bgra8 : ℕ
pixel_format_bgra8 = 1

pub record SharedHeaderMetadata : Type 0 where
  pub magic_word : ℕ
  pub version_word : ℕ
  pub slot_count_word : ℕ
  pub active_slot : ℕ
  pub slot_capacity : ℕ
  pub mapping_len : ℕ
  pub page_size : ℕ

pub record SharedSlotMetadata : Type 0 where
  pub state : ℕ
  pub width : ℕ
  pub height : ℕ
  pub pixel_format : ℕ
  pub fps : ℕ
  pub color_contract : ℕ
  pub generation : ℕ
  pub data_len : ℕ

pub data SharedProtocolValidationError : Type 0 where
  bad_magic bad_version bad_slot_count bad_active_slot bad_slot_capacity bad_mapping_length
        bad_slot_state reader_owner frame_metadata :
      SharedProtocolValidationError

abbrev pub Validated : Type 0
Validated = Result SharedProtocolValidationError (Unit {0})

unfoldable pub validate_shared_header_metadata : ℕ → SharedHeaderMetadata → Validated
validate_shared_header_metadata header_size m = do
  fail_if (m.magic_word != magic) bad_magic
  fail_if (m.version_word != version) bad_version
  fail_if (m.slot_count_word != slot_count) bad_slot_count
  fail_if (m.active_slot != invalid_slot && leb slot_count m.active_slot) bad_active_slot
  expected ← ok_or (checked_mapped_len header_size m.slot_capacity m.page_size) bad_mapping_length
  fail_if (expected != m.mapping_len) bad_mapping_length
  ok tt

-- `decoded != Some(BT709_FULL_OPAQUE)`.
abbrev is_other_color : Option Colorimetry → Bool
is_other_color none = true
is_other_color (some c) = not (colorimetry_eq c bt709_full_opaque)

-- The checks of a slot that holds a published frame.
validate_published : SharedSlotMetadata → ℕ → Validated
validate_published m slot_capacity = do
  expected ← ok_or (checked_frame_byte_len m.width m.height (bytes_per_pixel bgra8)) frame_metadata
  fail_if
      (m.width == 0
        || (m.height == 0
            || (m.pixel_format != pixel_format_bgra8
                || (m.fps == 0
                    || (is_other_color (from_wire_code m.color_contract)
                        || (m.generation == 0
                            || (m.data_len != expected || ltb slot_capacity m.data_len)))))))
      frame_metadata
  ok tt

unfoldable pub validate_shared_slot_metadata : SharedSlotMetadata → ℕ → Validated
unfolding validate_published checked_frame_byte_len bytes_per_pixel
validate_shared_slot_metadata m slot_capacity = do
  fail_if (not (is_known_state m.state)) bad_slot_state
  fail_if (slot_state m.state == slot_reading && slot_owner m.state == 0) reader_owner
  if slot_state m.state == slot_ready || slot_state m.state == slot_reading
      then validate_published m slot_capacity
      else ok tt
