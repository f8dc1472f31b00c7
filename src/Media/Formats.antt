-- ===== src/Media/Formats.antt =====
-- Pixel formats, their wire codes (src/wire.rs, `PixelFormat` of src/frame.rs) and the virtual
-- camera's fixed configuration (src/config.rs).
use camera_man.Base.{ℕ, ◌==◌, if◌then◌else◌, Option, none, some, Bool, ◌&&◌, true, ◌≡◌, refl}

pub data PixelFormat : Type 0 where
  bgra8 : PixelFormat

unfoldable pub bytes_per_pixel : PixelFormat → ℕ
bytes_per_pixel bgra8 = 4

-- The wire enum has the same single constructor; its discriminant is 1.
pub data WirePixelFormat : Type 0 where
  wire_bgra8 : WirePixelFormat

unfoldable pub wire_pixel_code : WirePixelFormat → ℕ
wire_pixel_code wire_bgra8 = 1

unfoldable pub wire_pixel_from_code : ℕ → Option WirePixelFormat
wire_pixel_from_code code = if code == 1 then some wire_bgra8 else none

unfoldable pub wire_of_pixel_format : PixelFormat → WirePixelFormat
wire_of_pixel_format bgra8 = wire_bgra8

unfoldable pub pixel_format_of_wire : WirePixelFormat → PixelFormat
pixel_format_of_wire wire_bgra8 = bgra8

abbrev pub pixel_format_eq : PixelFormat → PixelFormat → Bool
pixel_format_eq bgra8 bgra8 = true

abbrev pub virtual_camera_width : ℕ
virtual_camera_width = 1920

abbrev pub virtual_camera_height : ℕ
virtual_camera_height = 1080

abbrev pub virtual_camera_min_fps : ℕ
virtual_camera_min_fps = 15

abbrev pub virtual_camera_default_fps : ℕ
virtual_camera_default_fps = 30

abbrev pub virtual_camera_max_fps : ℕ
virtual_camera_max_fps = 60

pub record VideoFormat : Type 0 where
  pub width : ℕ
  pub height : ℕ
  pub fps : ℕ
  pub pixel_format : PixelFormat

abbrev pub video_format_eq : VideoFormat → VideoFormat → Bool
video_format_eq a b =
    a.width == b.width
    && (a.height == b.height && (a.fps == b.fps && pixel_format_eq a.pixel_format b.pixel_format))

abbrev pub hd_1080p_bgra : VideoFormat
hd_1080p_bgra = record {
  width = virtual_camera_width;
  height = virtual_camera_height;
  fps = virtual_camera_default_fps;
  pixel_format = bgra8;
}

pub bytes_per_pixel-four : (p : PixelFormat) → bytes_per_pixel p ≡ 4
unfolding bytes_per_pixel
bytes_per_pixel-four bgra8 = refl
