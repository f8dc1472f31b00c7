-- ===== src/Render/Sampling.antt =====
-- src/render.rs: which pixel of the source each pixel of the output reads, and how a channel of it
-- is blended. A `u32` product fits `u64`. The weights of the bilinear filter are taken in double
-- precision: the sample that `linear_sample` answers is a parameter.
pub mod Nearest
pub mod Blend
use camera_man.Base.{
  ℕ, ◌+◌, ◌-◌, ◌*◌, ◌/◌, ◌%◌, min, max, Bool, if◌then◌else◌, List, map, indices, u8_mod, u32_mod,
}
use camera_man.Base.Int.{ℤ, pos, negsuc, clamp_ℤ}
use camera_man.Media.Contract.{FrameContract, Rotation, degrees0, degrees90, degrees180, degrees270}
use camera_man.Media.Coordinates.{display_dimensions}

unfoldable pub nearest_source_coordinate : (dest source_size dest_size : ℕ) → ℕ
nearest_source_coordinate dest source_size dest_size =
    min (dest * source_size / max dest_size 1 % u32_mod) (source_size - 1)

unfoldable pub mirrored_coordinate : (coordinate size : ℕ) → Bool → ℕ
mirrored_coordinate coordinate size mirror =
    let inside = min coordinate (size - 1) in if mirror then size - 1 - inside else inside

-- `i32::from(position) + 1_000`, of a position that is clamped.
abbrev pub normalized_position : ℤ → ℕ
normalized_position position = elim (clamp_ℤ position (negsuc 999) (pos 1000)) [
  | pos n ↦ n + 1000
  | negsuc n ↦ 999 - n
]

unfoldable pub positioned_offset : (space : ℕ) → (position_per_mille : ℤ) → ℕ
positioned_offset space position_per_mille =
    space * normalized_position position_per_mille / 2000 % u32_mod

pub record LinearSample : Type 0 where
  pub low : ℕ
  pub high : ℕ
  pub high_weight : ℕ

unfoldable pub mirrored_linear_sample : LinearSample → (size : ℕ) → Bool → LinearSample
mirrored_linear_sample sample size mirror =
    if mirror
    then record sample { low = size - 1 - sample.low; high = size - 1 - sample.high }
    else sample

-- `sample` is the answer of `linear_sample`.
unfoldable pub shifted_linear_sample : (sample : LinearSample) → (source_offset : ℕ) → LinearSample
shifted_linear_sample sample source_offset = record sample {
  low = sample.low + source_offset;
  high = sample.high + source_offset;
}

-- The point of the frame that a point of the display, its mirrors undone, stands for.
abbrev pub rotated_source : FrameContract → (transformed_x transformed_y : ℕ) → ℕ × ℕ
rotated_source c x y = elim c.transform.rotation [
  | degrees0 ↦ (x, y)
  | degrees90 ↦ (y, c.clean_aperture.height - 1 - x)
  | degrees180 ↦ (c.clean_aperture.width - 1 - x, c.clean_aperture.height - 1 - y)
  | degrees270 ↦ (c.clean_aperture.width - 1 - y, x)
]

unfoldable pub transformed_source_offset :
    FrameContract → (input_width transformed_x transformed_y : ℕ) → ℕ
transformed_source_offset c input_width transformed_x transformed_y =
    let (source_x, source_y) = rotated_source c transformed_x transformed_y in
    ((c.clean_aperture.y + source_y) * input_width + c.clean_aperture.x + source_x) * 4

-- The coordinates that `get_transformed` prepares for the nearest filter.
unfoldable pub x_coordinates : FrameContract → (source_x source_width dest_width : ℕ) → List ℕ
x_coordinates c source_x source_width dest_width =
    map
      (λ x.
        mirrored_coordinate (source_x + nearest_source_coordinate x source_width dest_width)
          (display_dimensions c).0 c.transform.mirror_horizontal)
      (indices 0 dest_width)

unfoldable pub y_coordinates : FrameContract → (source_y source_height dest_height : ℕ) → List ℕ
y_coordinates c source_y source_height dest_height =
    map
      (λ y.
        mirrored_coordinate (source_y + nearest_source_coordinate y source_height dest_height)
          (display_dimensions c).1 c.transform.mirror_vertical)
      (indices 0 dest_height)

unfoldable pub blend_opaque_bilinear_channel : (source_weighted : ℕ) → ℕ
blend_opaque_bilinear_channel source_weighted = (source_weighted + 32768) / 65536 % u8_mod

unfoldable pub blend_weighted_channel : (source_weighted destination opacity : ℕ) → ℕ
blend_weighted_channel source_weighted destination opacity =
    let denominator = 65536 * 1000 in
    let numerator = source_weighted * opacity + destination * 65536 * (1000 - opacity) in
    (numerator + denominator / 2) / denominator % u8_mod
