-- ===== src/Shm/Mapping.antt =====
-- src/shared_memory_transport/protocol.rs: where the header and the three slots lie in the mapping.
-- `size_of::<SharedHeader>()` is the compiler's, and an argument here; so is the page size that
-- `sysconf` reports.
pub mod Bounds
use camera_man.Base.{
  ℕ, ◌+◌, ◌-◌, ◌*◌, ◌/◌, Option, none, some, ok, err, ok_or, ◌==◌, ltb, if◌then◌else◌, and_then,
  checked_mul64, checked_add64,
}
use camera_man.Error.{buffer_too_large, Checked}

abbrev pub magic : ℕ
magic = 0x434D414E

abbrev pub version : ℕ
version = 5

abbrev pub slot_count : ℕ
slot_count = 3

-- `u32::MAX`.
abbrev pub invalid_slot : ℕ
invalid_slot = 4294967295

abbrev pub cache_line : ℕ
cache_line = 64

-- `div_ceil` by the cache line.
unfoldable pub aligned_header_len : ℕ → ℕ
aligned_header_len header_size = (header_size + 63) / cache_line * cache_line

unfoldable pub checked_mapped_len : ℕ → ℕ → ℕ → Option ℕ
checked_mapped_len header_size slot_capacity page_size =
    if page_size == 0
    then none
    else and_then (checked_mul64 slot_capacity slot_count) λ slots.
      and_then (checked_add64 slots (aligned_header_len header_size)) λ raw_len.
        and_then (checked_add64 raw_len (page_size - 1)) λ len. some (len / page_size * page_size)

unfoldable pub checked_slot_offset : ℕ → ℕ → ℕ → Option ℕ
checked_slot_offset header_size slot slot_capacity =
    and_then (if ltb slot slot_count then some slot else none) λ slot'.
      and_then (checked_mul64 slot' slot_capacity)
        λ bytes. checked_add64 (aligned_header_len header_size) bytes

unfoldable pub mapped_len : ℕ → ℕ → ℕ → Checked ℕ
mapped_len header_size page_size slot_capacity =
    ok_or (checked_mapped_len header_size slot_capacity page_size) (buffer_too_large slot_capacity)
