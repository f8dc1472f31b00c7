-- ===== src/Shm/Validation/Accepts.antt =====
-- What a header or a slot that passes validation is good for.
use camera_man.Base.{ℕ, ◌*◌, ◌≤◌, ◌<◌, ◌≡◌, ◌⊎◌, ◌↔◌, some, ok, arith, u64_mod}
use camera_man.Media.Colorimetry.{bt709_full_opaque, colorimetry_eq, from_wire_code}
use camera_man.Shm.Slot.{
  slot_ready, slot_reading, slot_writing, slot_free, slot_state, slot_owner, is_known_state,
}
use camera_man.Shm.Mapping.{magic, version, slot_count, invalid_slot, checked_mapped_len}
use camera_man.Shm.Validation.{
  SharedHeaderMetadata, SharedSlotMetadata, validate_shared_header_metadata,
  validate_shared_slot_metadata, pixel_format_bgra8,
}

-- A header passes exactly if its magic, version and slot count are this protocol's, its active slot is
-- one of the slots or none, and the mapping has the length that its capacity and page size give.
pub validate_shared_header_metadata_iff :
    (header_size : ℕ) (m : SharedHeaderMetadata)
    → (validate_shared_header_metadata header_size m ≡ ok tt) ↔ (
        (m.magic_word ≡ magic)
        × (m.version_word ≡ version)
        × (m.slot_count_word ≡ slot_count)
        × ((m.active_slot ≡ invalid_slot) ⊎ (m.active_slot < slot_count))
        × (checked_mapped_len header_size m.slot_capacity m.page_size ≡ some m.mapping_len))
unfolding validate_shared_header_metadata
validate_shared_header_metadata_iff header_size m = (λ e. ground arith, λ e. ground arith)

-- What a slot with a published frame holds.
pub record IsPublished (m : SharedSlotMetadata) (slot_capacity : ℕ) : Type 0 where
  pub wide : 0 < m.width
  pub high : 0 < m.height
  pub pixels : m.pixel_format ≡ pixel_format_bgra8
  pub rate : 0 < m.fps
  pub color : from_wire_code m.color_contract ≡ some bt709_full_opaque
  pub generation : 0 < m.generation
  pub exact : m.data_len ≡ m.width * m.height * 4
  pub word : m.width * m.height * 4 < u64_mod
  pub fits : m.data_len ≤ slot_capacity

-- A ready slot passes exactly if it holds a published frame of the supported format that fits the
-- slot; so does a slot that is being read, and its reader's process id is then not zero.
pub validate_shared_slot_metadata_iff :
    (m : SharedSlotMetadata) (slot_capacity : ℕ)
    → (slot_state m.state ≡ slot_ready) ⊎ (slot_state m.state ≡ slot_reading)
    → (validate_shared_slot_metadata m slot_capacity ≡ ok tt)
      ↔ ((slot_state m.state ≡ slot_reading → 0 < slot_owner m.state) × IsPublished m slot_capacity)
unfolding validate_shared_slot_metadata is_known_state colorimetry_eq
validate_shared_slot_metadata_iff m slot_capacity s =
    (λ e. (λ r. ground arith, ground arith), λ (o, p). ground arith)

-- A free slot, and one that is being written, passes whatever else it holds.
pub validate_unpublished_slot :
    (m : SharedSlotMetadata) (slot_capacity : ℕ)
    → (slot_state m.state ≡ slot_free) ⊎ (slot_state m.state ≡ slot_writing)
    → validate_shared_slot_metadata m slot_capacity ≡ ok tt
unfolding validate_shared_slot_metadata is_known_state
validate_unpublished_slot m slot_capacity s = ground arith
