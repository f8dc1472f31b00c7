-- ===== src/Shm/Mapping/Bounds.antt =====
-- A mapping that was computed holds its header and all three slots, apart from one another.
use native.Mathlib.Nat.{mul-mod_left, mul-le-mul_right}
use camera_man.Base.{ℕ, ◌+◌, ◌-◌, ◌*◌, ◌/◌, ◌%◌, ◌≤◌, ◌<◌, ◌≡◌, some, arith, u64_mod}
use camera_man.Shm.Mapping.{
  slot_count, cache_line, aligned_header_len, checked_mapped_len, checked_slot_offset,
}

-- The header's share is a whole number of cache lines, no shorter than the header and less than a
-- line longer.
pub aligned_header_len_bounds :
    (n : ℕ)
    → (aligned_header_len n % cache_line ≡ 0)
      × (n ≤ aligned_header_len n)
      × (aligned_header_len n < n + cache_line)
unfolding aligned_header_len
aligned_header_len_bounds n = (omega arith, omega arith, omega arith)

round_up :
    (n page : ℕ)
    → 0 < page
    → (n ≤ (n + (page - 1)) / page * page)
      × ((n + (page - 1)) / page * page ≤ n + (page - 1))
      × (((n + (page - 1)) / page * page) % page ≡ 0)
round_up n page h = (omega arith, omega arith, mul-mod_left ((n + (page - 1)) / page) page)

-- A length that is computed covers the header and the slots, is a whole number of pages, and
-- wastes less than one.
pub checked_mapped_len_bounds :
    (header capacity page : ℕ) {len : ℕ}
    → checked_mapped_len header capacity page ≡ some len
    → (aligned_header_len header + slot_count * capacity ≤ len)
      × (len < aligned_header_len header + slot_count * capacity + page)
      × (len % page ≡ 0)
      × (len < u64_mod)
unfolding checked_mapped_len
checked_mapped_len_bounds header capacity page {len} e =
    ground (arith, round_up (capacity * slot_count + aligned_header_len header) page)

-- Every slot of a mapping has an offset at or past the end of the header and of its padding, which
-- ends on a cache line, and its bytes end within the mapping.
pub slot_in_mapping :
    (header capacity page slot : ℕ) {len : ℕ}
    → checked_mapped_len header capacity page ≡ some len
    → slot < slot_count
    → (offset : ℕ) × (checked_slot_offset header slot capacity ≡ some offset)
      × (header ≤ offset)
      × (aligned_header_len header ≤ offset)
      × (aligned_header_len header % cache_line ≡ 0)
      × (offset + capacity ≤ len)
unfolding checked_slot_offset
slot_in_mapping header capacity page slot {len} e h = (
  aligned_header_len header + slot * capacity,
  ground (arith, upto, covers),
  omega (arith, aligned_header_len_bounds header),
  omega arith,
  (aligned_header_len_bounds header).0,
  omega (arith, upto, covers),
)
  where
    covers : (aligned_header_len header + slot_count * capacity ≤ len) × (len < u64_mod)
    covers = ground (arith, checked_mapped_len_bounds header capacity page e)

    upto : slot * capacity + capacity ≤ 3 * capacity
    upto = omega (arith, mul-le-mul_right capacity h)

-- Two slots that have an offset share no byte.
pub slots_disjoint :
    (header capacity i j : ℕ) {a b : ℕ}
    → checked_slot_offset header i capacity ≡ some a
    → checked_slot_offset header j capacity ≡ some b
    → i < j
    → a + capacity ≤ b
unfolding checked_slot_offset
slots_disjoint header capacity i j {a} {b} p q h = ground (arith, mul-le-mul_right capacity h)
