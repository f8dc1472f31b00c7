-- ===== src/Frame/View.antt =====
-- src/frame.rs, `FrameView`: a borrowed view whose rows may be padded, and the copy of its active
-- pixels into a frame. A slice past the end panics in the source; `take` and `drop` cut it short
-- here, and a view made by the constructor never asks for one.
pub mod Tight
pub mod Reads
use camera_man.Base.{
  ℕ, zero, suc, ◌+◌, ◌-◌, ◌*◌, Option, none, some, ok, err, ◌>>=◌, ◌>>◌, fail_if, ok_or, ◌==◌, ◌||◌,
  not, leb, ltb, if◌then◌else◌, List, [], ◌++◌, length, take, drop, and_then, checked_mul64,
  checked_add64, u64_max,
}
use camera_man.Error.{
  CameraManError, invalid_dimensions, invalid_row_stride, invalid_buffer_length, buffer_too_large,
  Checked,
}
use camera_man.Media.Formats.{PixelFormat, bytes_per_pixel, pixel_format_eq, bgra8}
use camera_man.Media.Contract.{FrameContract, canonical_bgra, validate_contract}
use camera_man.Frame.Limits.{FrameLimits, byte_len}
use camera_man.Frame.Buffer.{Frame, Bgra, new_checked_with_limits, set_contract, read_pixel}

pub record FrameView : Type 0 where
  pub width : ℕ
  pub height : ℕ
  pub pixel_format : PixelFormat
  pub contract : FrameContract
  pub row_stride : ℕ
  pub active_row_bytes : ℕ
  pub bytes : List ℕ

unfoldable pub as_view : Frame → FrameView
unfolding bytes_per_pixel
as_view frame = record {
  width = frame.width;
  height = frame.height;
  pixel_format = frame.pixel_format;
  contract = frame.contract;
  row_stride = frame.width * bytes_per_pixel frame.pixel_format;
  active_row_bytes = frame.width * bytes_per_pixel frame.pixel_format;
  bytes = frame.bytes;
}

-- The active bytes of a row fit `u64` and `usize` for every 32-bit width.
unfoldable pub new_checked_view : ℕ → ℕ → PixelFormat → ℕ → List ℕ → Checked FrameView
unfolding bytes_per_pixel
new_checked_view width height format row_stride bytes = do
  fail_if (width == 0 || height == 0) (invalid_dimensions width height)
  let active_row_bytes = width * bytes_per_pixel format
  fail_if (ltb row_stride active_row_bytes) (invalid_row_stride active_row_bytes row_stride)
  required ←
      ok_or
        (and_then (checked_mul64 (height - 1) row_stride)
          λ prefix. checked_add64 prefix active_row_bytes)
        (buffer_too_large u64_max)
  fail_if (ltb (length bytes) required) (invalid_buffer_length required (length bytes))
  ok (record {
    width = width;
    height = height;
    pixel_format = format;
    contract = canonical_bgra width height;
    row_stride = row_stride;
    active_row_bytes = active_row_bytes;
    bytes = bytes;
  })

unfoldable pub new_checked_view_with_contract :
    ℕ → ℕ → PixelFormat → FrameContract → ℕ → List ℕ → Checked FrameView
new_checked_view_with_contract width height format contract row_stride bytes = do
  validate_contract contract width height
  view ← new_checked_view width height format row_stride bytes
  ok (record view { contract = contract })

-- The slice of an existing row.
abbrev pub row_slice : FrameView → ℕ → List ℕ
row_slice view y = take view.active_row_bytes (drop (y * view.row_stride) view.bytes)

unfoldable pub row : FrameView → ℕ → Option (List ℕ)
row view y = if leb view.height y then none else some (row_slice view y)

unfoldable pub view_bgra_at : FrameView → ℕ → ℕ → Option Bgra
unfolding row
view_bgra_at view x y =
    if leb view.width x || not (pixel_format_eq view.pixel_format bgra8)
    then none
    else and_then (row view y) (λ bytes. read_pixel bytes (x * 4))

-- `count` rows from row `y` on, one after the other.
unfoldable pub rows_from : FrameView → ℕ → ℕ → List ℕ
rows_from view zero y = []
rows_from view (suc count) y = row_slice view y ++ rows_from view count (y + 1)

unfoldable pub to_owned_tightly_packed_with_limits : FrameView → FrameLimits → Checked Frame
to_owned_tightly_packed_with_limits view limits = do
  tight_len ← byte_len view.width view.height view.pixel_format limits
  frame ←
      new_checked_with_limits view.width view.height view.pixel_format
        (rows_from view view.height 0) limits
  set_contract frame view.contract
