-- ===== src/Frame/Limits.antt =====
-- src/frame.rs: `FrameLimits`, `byte_len` and `checked_frame_byte_len`. The environment variable
-- (already parsed) and the amount of physical memory enter as arguments.
use camera_man.Base.{
  ℕ, ◌*◌, ◌/◌, ◌≤◌, ◌<◌, ◌≡◌, Option, none, some, ok, ◌>>=◌, ◌>>◌, fail_if, ok_or, ◌==◌, ◌||◌, ltb,
  if◌then◌else◌, checked_mul64, and_then, u64_max, u64_mod, arith,
}
use camera_man.Error.{invalid_dimensions, buffer_too_large, frame_limit_exceeded, Checked}
use camera_man.Media.Formats.{PixelFormat, bgra8, bytes_per_pixel}

abbrev pub min_default_frame_bytes : ℕ
min_default_frame_bytes = 67108864

abbrev pub max_default_frame_bytes : ℕ
max_default_frame_bytes = 1073741824

abbrev frame_memory_fraction : ℕ
frame_memory_fraction = 16

pub record FrameLimits : Type 0 where
  pub max_frame_bytes : ℕ

unfoldable pub new_limits : ℕ → FrameLimits
new_limits bytes = record { max_frame_bytes = if bytes == 0 then 1 else bytes }

unfoldable pub for_physical_memory : ℕ → FrameLimits
for_physical_memory physical_memory_bytes =
    let suggested = physical_memory_bytes / frame_memory_fraction in
    record {
      max_frame_bytes =
          if ltb suggested min_default_frame_bytes
          then min_default_frame_bytes
          else if ltb max_default_frame_bytes suggested
          then max_default_frame_bytes
          else suggested;
    }

-- `.filter(|bytes| *bytes > 0)`.
abbrev positive_only : Option ℕ → Option ℕ
positive_only none = none
positive_only (some n) = if n == 0 then none else some n

abbrev or_memory : Option ℕ → Option ℕ → FrameLimits
or_memory (some bytes) memory = new_limits bytes
or_memory none (some bytes) = for_physical_memory bytes
or_memory none none = new_limits max_default_frame_bytes

unfoldable pub detect : Option ℕ → Option ℕ → FrameLimits
unfolding new_limits for_physical_memory
detect environment physical_memory = or_memory (positive_only environment) physical_memory

unfoldable pub checked_frame_byte_len : ℕ → ℕ → ℕ → Option ℕ
checked_frame_byte_len width height bytes_per_pixel =
    and_then (checked_mul64 width height) (λ pixels. checked_mul64 pixels bytes_per_pixel)

unfoldable pub byte_len : ℕ → ℕ → PixelFormat → FrameLimits → Checked ℕ
unfolding checked_frame_byte_len bytes_per_pixel
byte_len width height format limits = do
  fail_if (width == 0 || height == 0) (invalid_dimensions width height)
  bytes ←
      ok_or (checked_frame_byte_len width height (bytes_per_pixel format))
        (buffer_too_large u64_max)
  fail_if (ltb limits.max_frame_bytes bytes) (frame_limit_exceeded bytes limits.max_frame_bytes)
  ok bytes

-- The detected policy always allows some memory, and without an override it stays between 64 MiB
-- and 1 GiB.
pub detect_bounds :
    (environment memory : Option ℕ)
    → (0 < (detect environment memory).max_frame_bytes)
      × ((environment ≡ none)
          → (min_default_frame_bytes ≤ (detect environment memory).max_frame_bytes)
            × ((detect environment memory).max_frame_bytes ≤ max_default_frame_bytes))
unfolding detect
detect_bounds environment memory = (ground arith, λ e. ground arith)

-- What a computed length says.
pub byte_len_of_ok :
    (w h : ℕ) (f : PixelFormat) (l : FrameLimits) {n : ℕ}
    → byte_len w h f l ≡ ok n
    → (0 < w) × (0 < h) × (n ≡ w * h * 4) × (n ≤ l.max_frame_bytes) × (n < u64_mod)
unfolding byte_len
byte_len_of_ok w h bgra8 l {n} e = ground arith

-- A non-empty size within the limit has a length, if that fits 64 bits.
pub byte_len_ok :
    (w h : ℕ) (f : PixelFormat) (l : FrameLimits)
    → 0 < w
    → 0 < h
    → w * h * 4 ≤ l.max_frame_bytes
    → w * h * 4 < u64_mod
    → byte_len w h f l ≡ ok (w * h * 4)
unfolding byte_len
byte_len_ok w h bgra8 l pw ph b v = ground arith
