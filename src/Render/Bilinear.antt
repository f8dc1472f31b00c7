-- ===== src/Render/Bilinear.antt =====
-- src/render.rs: the bilinear filter of a frame that is transformed. The position of a sample is taken
-- in double precision; `position` answers its whole part before it is kept within the source, and its
-- weight, rounded.
pub mod Safe
pub mod Upright
use camera_man.Base.{
  ℕ, ◌+◌, ◌-◌, ◌*◌, min, max, Bool, true, false, leb, ◌==◌, if◌then◌else◌, Option, none, some, List,
  [], ◌∷◌, ◌++◌, map, length, indices, get_range, copy_at, try_fold, enumerate_from,
}
use camera_man.Base.Options.{◌>>=◌}
use camera_man.Media.Contract.{FrameContract}
use camera_man.Media.Coordinates.{display_dimensions}
use camera_man.Media.Transform.{transform_scale}
use camera_man.Render.Placement.{TransformedPlacement}
use camera_man.Render.Sampling.{
  LinearSample, mirrored_linear_sample, shifted_linear_sample, transformed_source_offset,
  blend_opaque_bilinear_channel, blend_weighted_channel,
}

abbrev pub Position : Type 0
Position = (dest source_size dest_size : ℕ) → ℕ × ℕ

unfoldable pub linear_sample : Position → (dest source_size dest_size : ℕ) → LinearSample
linear_sample position dest source_size dest_size =
    if leb source_size 1
    then record { low = 0; high = 0; high_weight = 0 }
    else (let (floor, weight) = position dest source_size dest_size in
        let low = min floor (source_size - 1) in
        record { low = low; high = min (low + 1) (source_size - 1); high_weight = min weight 256 })

abbrev pub sample_at :
    Position
    → (source_offset source_size dest_size display_size : ℕ) → Bool
    → (dest : ℕ) → LinearSample
sample_at position source_offset source_size dest_size display_size mirror dest =
    mirrored_linear_sample
      (shifted_linear_sample (linear_sample position dest source_size dest_size) source_offset)
      display_size mirror

unfoldable pub x_samples : Position → FrameContract → TransformedPlacement → List LinearSample
x_samples position c p =
    map
      (sample_at position p.source_x p.source_width p.dest_width (display_dimensions c).0
        c.transform.mirror_horizontal)
      (indices 0 p.dest_width)

unfoldable pub y_samples : Position → FrameContract → TransformedPlacement → List LinearSample
y_samples position c p =
    map
      (sample_at position p.source_y p.source_height p.dest_height (display_dimensions c).1
        c.transform.mirror_vertical)
      (indices 0 p.dest_height)

-- The channels of two pixels, weighted.
abbrev pub weigh : (low_weight high_weight : ℕ) → List ℕ → List ℕ → List ℕ
weigh l h [] ys = []
weigh l h (x ∷ xs) [] = []
weigh l h (x ∷ xs) (y ∷ ys) = (x * l + y * h) ∷ weigh l h xs ys

abbrev pub blend_with : (opacity : ℕ) → (weighted destination : List ℕ) → List ℕ
blend_with opacity [] destination = []
blend_with opacity (w ∷ weighted) [] = []
blend_with opacity (w ∷ weighted) (d ∷ destination) =
    blend_weighted_channel w d opacity ∷ blend_with opacity weighted destination

-- The four samples of a pixel, from the top left to the bottom right.
unfoldable pub bilinear_pixel :
    (x_sample y_sample : LinearSample) (opacity_per_mille : ℕ) (p0 p1 p2 p3 destination : List ℕ)
    → List ℕ
bilinear_pixel x_sample y_sample opacity p0 p1 p2 p3 destination =
    let top = weigh (256 - x_sample.high_weight) x_sample.high_weight p0 p1 in
    let bottom = weigh (256 - x_sample.high_weight) x_sample.high_weight p2 p3 in
    let weighted = weigh (256 - y_sample.high_weight) y_sample.high_weight top bottom in
    (if opacity == transform_scale
      then map blend_opaque_bilinear_channel weighted
      else blend_with (min opacity transform_scale) weighted destination)
    ++ (255 ∷ [])

unfoldable pub paste_bilinear_pixel :
    (output_width input_width : ℕ) (input : List ℕ)
    → FrameContract
    → (opacity_per_mille : ℕ) → TransformedPlacement
    → (y : ℕ) (y_sample : LinearSample) → ℕ × LinearSample
    → List ℕ
    → Option (List ℕ)
paste_bilinear_pixel output_width input_width input c opacity p y y_sample (x, x_sample) output = do
  let destination_offset = (p.dest_y + y) * output_width * 4 + (p.dest_x + x) * 4
  destination ← get_range output destination_offset 4
  p0 ← get_range input (transformed_source_offset c input_width x_sample.low y_sample.low) 3
  p1 ← get_range input (transformed_source_offset c input_width x_sample.high y_sample.low) 3
  p2 ← get_range input (transformed_source_offset c input_width x_sample.low y_sample.high) 3
  p3 ← get_range input (transformed_source_offset c input_width x_sample.high y_sample.high) 3
  copy_at output destination_offset
      (bilinear_pixel x_sample y_sample opacity p0 p1 p2 p3 destination)

unfoldable pub paste_bilinear_samples :
    (output_width input_width : ℕ) (input : List ℕ)
    → FrameContract
    → (opacity_per_mille : ℕ) → TransformedPlacement
    → List LinearSample
    → ℕ × LinearSample
    → List ℕ
    → Option (List ℕ)
unfolding paste_bilinear_pixel
paste_bilinear_samples output_width input_width input c opacity p xs (y, y_sample) output =
    try_fold (paste_bilinear_pixel output_width input_width input c opacity p y y_sample)
      (enumerate_from 0 xs) output

unfoldable pub paste_transformed_bilinear :
    (output_width input_width : ℕ) (input : List ℕ)
    → FrameContract
    → (opacity_per_mille : ℕ) → TransformedPlacement
    → (xs ys : List LinearSample) → List ℕ
    → Option (List ℕ)
unfolding paste_bilinear_samples
paste_transformed_bilinear output_width input_width input c opacity p xs ys output =
    try_fold (paste_bilinear_samples output_width input_width input c opacity p xs)
      (enumerate_from 0 ys) output
