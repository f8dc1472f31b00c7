-- ===== src/Media/Contract.antt =====
-- src/media_contract.rs: pixel aspect ratio, clean aperture, transform metadata and the frame
-- contract with its validation.
pub mod Validity
use camera_man.Base.{
  ℕ, Bool, true, false, not, ◌&&◌, ◌||◌, ◌==◌, ◌!=◌, ltb, Option, none, some, ok, err, ◌>>◌,
  fail_if, checked_add32, if◌then◌else◌,
}
use camera_man.Error.{CameraManError, invalid_media_contract, Checked}
use camera_man.Media.Colorimetry.{
  Colorimetry, ColorRange, AlphaMode, full, limited, opaque, straight, premultiplied,
  bt709_full_opaque, color_contract_schema_version,
}

pub record PixelAspectRatio : Type 0 where
  pub horizontal : ℕ
  pub vertical : ℕ

abbrev pub square : PixelAspectRatio
square = record { horizontal = 1; vertical = 1 }

unfoldable pub new_pixel_aspect_ratio : ℕ → ℕ → Checked PixelAspectRatio
new_pixel_aspect_ratio horizontal vertical =
    if horizontal == 0 || vertical == 0
    then err (invalid_media_contract "pixel aspect ratio terms must be non-zero")
    else ok (record { horizontal = horizontal; vertical = vertical })

pub record CleanAperture : Type 0 where
  pub x : ℕ
  pub y : ℕ
  pub width : ℕ
  pub height : ℕ

abbrev pub full_frame : ℕ → ℕ → CleanAperture
full_frame width height = record { x = 0; y = 0; width = width; height = height }

-- `sum.is_none_or(|edge| edge > bound)`.
abbrev none_or_above : Option ℕ → ℕ → Bool
none_or_above none bound = true
none_or_above (some edge) bound = ltb bound edge

unfoldable pub validate_aperture : CleanAperture → ℕ → ℕ → Checked (Unit {0})
validate_aperture a frame_width frame_height = do
  fail_if (a.width == 0 || a.height == 0)
      (invalid_media_contract "clean aperture must not be empty")
  fail_if
      (none_or_above (checked_add32 a.x a.width) frame_width
        || none_or_above (checked_add32 a.y a.height) frame_height)
      (invalid_media_contract "clean aperture exceeds frame bounds")
  ok tt

pub data Rotation : Type 0 where
  degrees0 degrees90 degrees180 degrees270 : Rotation

abbrev pub swaps_axes : Rotation → Bool
swaps_axes degrees90 = true
swaps_axes degrees270 = true
swaps_axes _ = false

pub record TransformMetadata : Type 0 where
  pub rotation : Rotation
  pub mirror_horizontal : Bool
  pub mirror_vertical : Bool

abbrev pub identity : TransformMetadata
identity = record { rotation = degrees0; mirror_horizontal = false; mirror_vertical = false }

abbrev pub is_degrees0 : Rotation → Bool
is_degrees0 degrees0 = true
is_degrees0 _ = false

unfoldable pub is_identity_metadata : TransformMetadata → Bool
is_identity_metadata t =
    is_degrees0 t.rotation && (not t.mirror_horizontal && not t.mirror_vertical)

pub record FrameContract : Type 0 where
  pub colorimetry : Colorimetry
  pub pixel_aspect_ratio : PixelAspectRatio
  pub clean_aperture : CleanAperture
  pub transform : TransformMetadata

unfoldable pub canonical_bgra : ℕ → ℕ → FrameContract
canonical_bgra width height = record {
  colorimetry = bt709_full_opaque;
  pixel_aspect_ratio = square;
  clean_aperture = full_frame width height;
  transform = identity;
}

unfoldable pub validate_contract : FrameContract → ℕ → ℕ → Checked (Unit {0})
unfolding validate_aperture
validate_contract c width height = do
  fail_if (c.colorimetry.schema_version != color_contract_schema_version)
      (invalid_media_contract "unsupported color-contract schema version")
  fail_if (c.colorimetry.bit_depth != 8)
      (invalid_media_contract "BGRA transport currently requires 8-bit channels")
  fail_if (c.pixel_aspect_ratio.horizontal == 0 || c.pixel_aspect_ratio.vertical == 0)
      (invalid_media_contract "pixel aspect ratio terms must be non-zero")
  validate_aperture c.clean_aperture width height

abbrev is_full : ColorRange → Bool
is_full full = true
is_full limited = false

abbrev is_opaque : AlphaMode → Bool
is_opaque opaque = true
is_opaque _ = false

-- The tests on primaries, transfer and matrix are left out: those enums have one variant each.
unfoldable pub is_canonical_bgra : FrameContract → ℕ → ℕ → Bool
unfolding is_identity_metadata
is_canonical_bgra c width height =
    c.colorimetry.schema_version == color_contract_schema_version
    && (c.colorimetry.bit_depth == 8
        && (is_full c.colorimetry.range
            && (is_opaque c.colorimetry.alpha
                && (c.pixel_aspect_ratio.horizontal == 1
                    && (c.pixel_aspect_ratio.vertical == 1
                        && (c.clean_aperture.x == 0
                            && (c.clean_aperture.y == 0
                                && (c.clean_aperture.width == width
                                    && (c.clean_aperture.height == height
                                        && is_identity_metadata c.transform)))))))))
