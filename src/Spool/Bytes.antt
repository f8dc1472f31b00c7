-- ===== src/Spool/Bytes.antt =====
-- src/frame_transport.rs, `write_u32`, `write_u64`, `write_u128` and their readers: numbers as
-- little-endian bytes.
use native.Mathlib.Nat.{pow-suc}
use camera_man.Base.{
  get_range, ℕ, zero, suc, ◌+◌, ◌*◌, ◌/◌, ◌%◌, ◌^◌, ◌≤◌, ◌<◌, ◌≡◌, refl, subst, ap, ok, ◌>>=◌,
  ok_or, arith, List, [], ◌∷◌, ◌++◌, length, take, drop, length-append, length-drop,
  take-append_length,
}
use camera_man.Error.{invalid_buffer_length, Checked}

-- `to_le_bytes` of a number of `n` bytes.
unfoldable pub to_le_bytes : ℕ → ℕ → List ℕ
to_le_bytes zero v = []
to_le_bytes (suc n) v = (v % 256) ∷ to_le_bytes n (v / 256)

unfoldable pub from_le_bytes : List ℕ → ℕ
from_le_bytes [] = 0
from_le_bytes (b ∷ bs) = b + from_le_bytes bs * 256

unfoldable pub read_exact : List ℕ → ℕ → ℕ → Checked (List ℕ)
read_exact bytes offset len =
    ok_or (get_range bytes offset len) (invalid_buffer_length (offset + len) (length bytes))

-- `read_u32`, `read_u64` and `read_u128`, for 4, 8 and 16 bytes.
unfoldable pub read_number : ℕ → List ℕ → ℕ → Checked ℕ
unfolding read_exact from_le_bytes
read_number n bytes offset = do value ← read_exact bytes offset n; ok (from_le_bytes value)

pub length-to_le_bytes : (n v : ℕ) → length (to_le_bytes n v) ≡ n
unfolding to_le_bytes
length-to_le_bytes zero v = refl
length-to_le_bytes (suc n) v = ap suc (length-to_le_bytes n (v / 256))

-- A number that fits the bytes is read back from them.
pub from_le_bytes-to_le_bytes : (n v : ℕ) → v < 256 ^ n → from_le_bytes (to_le_bytes n v) ≡ v
unfolding to_le_bytes from_le_bytes
from_le_bytes-to_le_bytes zero v h = omega arith
from_le_bytes-to_le_bytes (suc n) v h =
    let ih = from_le_bytes-to_le_bytes n (v / 256) (omega (arith, pow-suc 256 n)) in
    omega (arith, ih)

-- A number that stands at an offset is read there, whatever follows it.
pub read_number_at :
    (n : ℕ) (bytes : List ℕ) (offset v : ℕ) (rest : List ℕ)
    → 0 < n
    → v < 256 ^ n
    → drop offset bytes ≡ to_le_bytes n v ++ rest
    → read_number n bytes offset ≡ ok v
unfolding read_number
read_number_at n bytes offset v rest p b e =
    let value : take n (drop offset bytes) ≡ to_le_bytes n v = rw e (
      subst (λ (k : ℕ). take k (to_le_bytes n v ++ rest) ≡ to_le_bytes n v) (length-to_le_bytes n v)
        (take-append_length (to_le_bytes n v) rest)) in
    let fits : offset + n ≤ length bytes = omega (
      arith,
      length-drop offset bytes,
      ap length e,
      length-append (to_le_bytes n v) rest,
      length-to_le_bytes n v,
    ) in
    ground (arith, value, fits, from_le_bytes-to_le_bytes n v b)
