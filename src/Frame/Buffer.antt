-- ===== src/Frame/Buffer.antt =====
-- src/frame.rs, `Frame`: dimensions, contract and tightly packed bytes. The bytes behind the
-- copy-on-write `Arc` are a list of their own for each frame. Indexing past the end panics in the
-- source; the model answers `none` there, and valid frames never reach it.
pub mod Pixels
pub mod Valid
use camera_man.Base.{
  ℕ, ◌+◌, ◌*◌, Option, none, some, ok, err, Result, ◌>>=◌, ◌>>◌, fail_if, ◌==◌, ◌!=◌, ◌||◌, leb,
  if◌then◌else◌, List, [], ◌∷◌, ◌++◌, length, get_elem?, take, drop, and_then, zero, suc,
}
use camera_man.Error.{
  CameraManError, invalid_dimensions, invalid_buffer_length, pixel_out_of_bounds, Checked,
}
use camera_man.Media.Formats.{PixelFormat, bgra8, bytes_per_pixel}
use camera_man.Media.Contract.{FrameContract, canonical_bgra, validate_contract}
use camera_man.Frame.Limits.{FrameLimits, byte_len}

pub record Frame : Type 0 where
  pub width : ℕ
  pub height : ℕ
  pub pixel_format : PixelFormat
  pub contract : FrameContract
  pub bytes : List ℕ

-- `[u8; 4]`.
pub record Bgra : Type 0 where
  pub blue : ℕ
  pub green : ℕ
  pub red : ℕ
  pub alpha : ℕ

abbrev pub pixel_bytes : Bgra → List ℕ
pixel_bytes p = p.blue ∷ p.green ∷ p.red ∷ p.alpha ∷ []

unfoldable pub new_checked_with_limits : ℕ → ℕ → PixelFormat → List ℕ → FrameLimits → Checked Frame
new_checked_with_limits width height format bytes limits = do
  fail_if (width == 0 || height == 0) (invalid_dimensions width height)
  expected ← byte_len width height format limits
  fail_if (length bytes != expected) (invalid_buffer_length expected (length bytes))
  ok (record {
    width = width;
    height = height;
    pixel_format = format;
    contract = canonical_bgra width height;
    bytes = bytes;
  })

-- The process-wide limits are an argument.
unfoldable pub new_checked_with_contract :
    FrameLimits → ℕ → ℕ → PixelFormat → FrameContract → List ℕ → Checked Frame
new_checked_with_contract limits width height format contract bytes = do
  validate_contract contract width height
  frame ← new_checked_with_limits width height format bytes limits
  ok (record frame { contract = contract })

-- `count` pixels of one colour: `chunks_exact_mut(4)` over a buffer of a multiple of four bytes.
unfoldable pub repeat_pixel : ℕ → Bgra → List ℕ
repeat_pixel zero p = []
repeat_pixel (suc n) p = pixel_bytes p ++ repeat_pixel n p

unfoldable pub solid_bgra_with_limits : ℕ → ℕ → Bgra → FrameLimits → Checked Frame
solid_bgra_with_limits width height bgra limits = do
  len ← byte_len width height bgra8 limits
  ok (record {
    width = width;
    height = height;
    pixel_format = bgra8;
    contract = canonical_bgra width height;
    bytes = repeat_pixel (width * height) bgra;
  })

unfoldable pub set_contract : Frame → FrameContract → Checked Frame
set_contract frame contract = do
  validate_contract contract frame.width frame.height
  ok (record frame { contract = contract })

unfoldable pub pixel_offset : Frame → ℕ → ℕ → Option ℕ
unfolding bytes_per_pixel
pixel_offset frame x y =
    if leb frame.width x || leb frame.height y
    then none
    else some (
        y * (frame.width * bytes_per_pixel frame.pixel_format)
        + x * bytes_per_pixel frame.pixel_format)

-- Four bytes from an offset on.
unfoldable pub read_pixel : List ℕ → ℕ → Option Bgra
read_pixel bytes offset = and_then (get_elem? bytes offset) λ b.
    and_then (get_elem? bytes (offset + 1)) λ g. and_then (get_elem? bytes (offset + 2)) λ r.
      and_then (get_elem? bytes (offset + 3))
        λ a. some (record { blue = b; green = g; red = r; alpha = a })

unfoldable pub bgra_at : Frame → ℕ → ℕ → Option Bgra
bgra_at frame x y = and_then (pixel_offset frame x y) (read_pixel frame.bytes)

-- `data[offset..offset + 4].copy_from_slice(&bgra)`.
unfoldable pub write_pixel : List ℕ → ℕ → Bgra → List ℕ
write_pixel bytes offset bgra = take offset bytes ++ (pixel_bytes bgra ++ drop (offset + 4) bytes)

unfoldable pub try_set_bgra : Frame → ℕ → ℕ → Bgra → Frame × Checked (Unit {0})
try_set_bgra frame x y bgra = elim (pixel_offset frame x y) [
  | none ↦ (frame, err (pixel_out_of_bounds x y frame.width frame.height))
  | some offset ↦ (record frame { bytes = write_pixel frame.bytes offset bgra }, ok tt)
]
