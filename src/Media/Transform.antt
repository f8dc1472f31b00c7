-- ===== src/Media/Transform.antt =====
-- src/source_transform.rs: crop, fit, rotation, mirroring, opacity and position of one source, and
-- how they compose with the contract of its frames.
pub mod Sanitize
pub mod Compose
use camera_man.Base.{
  ℕ, ◌+◌, ◌-◌, ◌*◌, ◌/◌, ◌%◌, min, Bool, true, false, not, xor, ◌&&◌, ◌||◌, ◌==◌, ltb, leb, ok,
  ◌>>◌, ◌>>=◌, fail_if, if◌then◌else◌, u32_mod,
}
use camera_man.Base.Int.{ℤ, pos, negsuc, contains_ℤ, clamp_ℤ}
use camera_man.Error.{invalid_media_contract, Checked}
use camera_man.Media.Contract.{
  CleanAperture, Rotation, degrees0, degrees90, degrees180, degrees270, FrameContract, is_degrees0,
  validate_contract,
}

abbrev pub transform_scale : ℕ
transform_scale = 1000

pub data SourceFit : Type 0 where
  fit fill : SourceFit

pub record CropInsets : Type 0 where
  pub left_per_mille : ℕ
  pub top_per_mille : ℕ
  pub right_per_mille : ℕ
  pub bottom_per_mille : ℕ

pub record SourceTransform : Type 0 where
  pub crop : CropInsets
  pub source_fit : SourceFit
  pub rotation : Rotation
  pub mirror_horizontal : Bool
  pub mirror_vertical : Bool
  pub opacity_per_mille : ℕ
  pub position_x_per_mille : ℤ
  pub position_y_per_mille : ℤ

abbrev pub no_crop : CropInsets
no_crop = record {
  left_per_mille = 0;
  top_per_mille = 0;
  right_per_mille = 0;
  bottom_per_mille = 0;
}

abbrev pub default_transform : SourceTransform
default_transform = record {
  crop = no_crop;
  source_fit = fit;
  rotation = degrees0;
  mirror_horizontal = false;
  mirror_vertical = false;
  opacity_per_mille = transform_scale;
  position_x_per_mille = pos 0;
  position_y_per_mille = pos 0;
}

abbrev is_fit : SourceFit → Bool
is_fit fit = true
is_fit fill = false

abbrev is_zero_ℤ : ℤ → Bool
is_zero_ℤ (pos n) = n == 0
is_zero_ℤ (negsuc n) = false

unfoldable pub is_identity : SourceTransform → Bool
is_identity t =
    t.crop.left_per_mille == 0
    && (t.crop.top_per_mille == 0
        && (t.crop.right_per_mille == 0
            && (t.crop.bottom_per_mille == 0
                && (is_fit t.source_fit
                    && (is_degrees0 t.rotation
                        && (not t.mirror_horizontal
                            && (not t.mirror_vertical
                                && (t.opacity_per_mille == transform_scale
                                    && (is_zero_ℤ t.position_x_per_mille
                                        && is_zero_ℤ t.position_y_per_mille)))))))))

abbrev in_position_range : ℤ → Bool
in_position_range p = contains_ℤ (negsuc 999) (pos 1000) p

-- The sums of insets are formed only where both insets are below 1000, so the `u16` sums of the
-- source do not overflow.
unfoldable pub validate_transform : SourceTransform → Checked (Unit {0})
validate_transform t = do
  fail_if
      (leb transform_scale t.crop.left_per_mille
        || (leb transform_scale t.crop.right_per_mille
            || (leb transform_scale t.crop.top_per_mille
                || (leb transform_scale t.crop.bottom_per_mille
                    || (leb transform_scale (t.crop.left_per_mille + t.crop.right_per_mille)
                        || leb transform_scale (t.crop.top_per_mille + t.crop.bottom_per_mille))))))
      (invalid_media_contract "source crop must leave a non-empty image")
  fail_if
      (ltb transform_scale t.opacity_per_mille
        || (not (in_position_range t.position_x_per_mille)
            || not (in_position_range t.position_y_per_mille)))
      (invalid_media_contract "source opacity or position is outside its normalized range")
  ok tt

sanitized_crop : CropInsets → CropInsets
sanitized_crop c =
    let left = min c.left_per_mille 999 in
    let top = min c.top_per_mille 999 in
    record {
      left_per_mille = left;
      top_per_mille = top;
      right_per_mille = min c.right_per_mille (999 - left);
      bottom_per_mille = min c.bottom_per_mille (999 - top);
    }

unfoldable pub sanitized : SourceTransform → SourceTransform
unfolding sanitized_crop
sanitized t = record t {
  crop = sanitized_crop t.crop;
  opacity_per_mille = min t.opacity_per_mille transform_scale;
  position_x_per_mille = clamp_ℤ t.position_x_per_mille (negsuc 999) (pos 1000);
  position_y_per_mille = clamp_ℤ t.position_y_per_mille (negsuc 999) (pos 1000);
}

unfoldable pub scale_dimension : ℕ → ℕ → ℕ
scale_dimension value per_mille = value * per_mille / transform_scale % u32_mod

abbrev pub rotation_quarter_turns : Rotation → ℕ
rotation_quarter_turns degrees0 = 0
rotation_quarter_turns degrees90 = 1
rotation_quarter_turns degrees180 = 2
rotation_quarter_turns degrees270 = 3

unfoldable pub add_rotation : Rotation → Rotation → Rotation
add_rotation left right =
    let turns = (rotation_quarter_turns left + rotation_quarter_turns right) % 4 in
    if turns == 0
    then degrees0
    else if turns == 1
    then degrees90
    else if turns == 2
    then degrees180
    else degrees270

-- The aperture that a crop leaves. `-` stops at zero, where the source's `u32` subtraction would
-- overflow; a validated crop never reaches that.
cropped_aperture : CropInsets → CleanAperture → CleanAperture
cropped_aperture crop base =
    let left = scale_dimension base.width crop.left_per_mille in
    let top = scale_dimension base.height crop.top_per_mille in
    let right = scale_dimension base.width crop.right_per_mille in
    let bottom = scale_dimension base.height crop.bottom_per_mille in
    record {
      x = base.x + left;
      y = base.y + top;
      width = base.width - left - right;
      height = base.height - top - bottom;
    }

-- The contract that `apply_to_contract` builds, before it is validated once more.
composed : SourceTransform → FrameContract → FrameContract
composed t c = record c {
  clean_aperture = cropped_aperture t.crop c.clean_aperture;
  transform = record {
    rotation = add_rotation c.transform.rotation t.rotation;
    mirror_horizontal = xor c.transform.mirror_horizontal t.mirror_horizontal;
    mirror_vertical = xor c.transform.mirror_vertical t.mirror_vertical;
  };
}

unfoldable pub apply_to_contract : SourceTransform → FrameContract → ℕ → ℕ → Checked FrameContract
unfolding composed cropped_aperture
apply_to_contract t c frame_width frame_height = do
  validate_transform t
  validate_contract c frame_width frame_height
  validate_contract (composed t c) frame_width frame_height
  ok (composed t c)
