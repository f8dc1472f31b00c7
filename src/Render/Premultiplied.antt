-- ===== src/Render/Premultiplied.antt =====
-- src/render.rs: a frame whose pixels are not opaque, not square, or not full range. Each pixel is
-- sampled, faded and blended in single precision, whose operations are the fields of `Floats`:
-- nothing is assumed of them. A slice out of range panics: the answer is `none`.
pub mod Safe
use camera_man.Base.{
  ℕ, ◌+◌, ◌*◌, ◌%◌, min, u32_mod, Option, none, some, List, [], ◌∷◌, indices, get_range, copy_at,
  try_fold,
}
use camera_man.Base.Options.{◌>>=◌}
use camera_man.Frame.Buffer.{Frame, Bgra, bgra_at}
use camera_man.Media.Colorimetry.{
  Colorimetry, ColorRange, AlphaMode, full, limited, opaque, straight, premultiplied,
}
use camera_man.Media.Contract.{FrameContract}
use camera_man.Media.Coordinates.{source_coordinate}
use camera_man.Media.Transform.{transform_scale}
use camera_man.Render.Bilinear.{Position, linear_sample}
use camera_man.Render.Placement.{TransformedPlacement}
use camera_man.Render.Sampling.{LinearSample, shifted_linear_sample, nearest_source_coordinate}
use camera_man.Worker.{ScalingFilter, nearest, bilinear}

-- The operations of `f32` that the code uses, each on the values that it is used on.
pub record Floats : Type 1 where
  pub Float : Type 0
  pub zero_float : Float
  pub one_float : Float
  pub plus : Float → Float → Float
  pub times : Float → Float → Float
  -- `1.0 - x`.
  pub complement : Float → Float
  -- `f32::from(byte) / 255.0`.
  pub from_byte : ℕ → Float
  -- `((f32::from(byte) - 16.0) / 219.0).clamp(0.0, 1.0)`.
  pub from_limited_byte : ℕ → Float
  -- `weight as f32 / 256.0`.
  pub from_weight : ℕ → Float
  -- `f32::from(opacity) / 1000.0`.
  pub from_per_mille : ℕ → Float
  -- `(x.clamp(0.0, 1.0) * 255.0).round() as u8`.
  pub to_byte : Float → ℕ
  -- The whole part and the weight of a sample's position, in `linear_sample`.
  pub position : Position

pub record PremultipliedPixel (F : Type 0) : Type 0 where
  pub blue : F
  pub green : F
  pub red : F
  pub alpha : F

module _ (f : Floats) where
  abbrev pub Pixel : Type 0
  Pixel = PremultipliedPixel f.Float

  unfoldable pub apply_opacity : Pixel → (opacity_per_mille : ℕ) → Pixel
  apply_opacity pixel opacity_per_mille =
      let opacity = f.from_per_mille (min opacity_per_mille transform_scale) in
      record {
        blue = f.times pixel.blue opacity;
        green = f.times pixel.green opacity;
        red = f.times pixel.red opacity;
        alpha = f.times pixel.alpha opacity;
      }

  abbrev pixel_alpha : AlphaMode → (alpha : ℕ) → f.Float
  pixel_alpha opaque alpha = f.one_float
  pixel_alpha straight alpha = f.from_byte alpha
  pixel_alpha premultiplied alpha = f.from_byte alpha

  abbrev normalized : ColorRange → (channel : ℕ) → f.Float
  normalized full channel = f.from_byte channel
  normalized limited channel = f.from_limited_byte channel

  abbrev premultiplied_channel : AlphaMode → (normalized alpha : f.Float) → f.Float
  premultiplied_channel straight channel alpha = f.times channel alpha
  premultiplied_channel opaque channel alpha = channel
  premultiplied_channel premultiplied channel alpha = channel

  unfoldable pub premultiply : Colorimetry → Bgra → Pixel
  premultiply c pixel =
      let alpha = pixel_alpha c.alpha pixel.alpha in
      record {
        blue = premultiplied_channel c.alpha (normalized c.range pixel.blue) alpha;
        green = premultiplied_channel c.alpha (normalized c.range pixel.green) alpha;
        red = premultiplied_channel c.alpha (normalized c.range pixel.red) alpha;
        alpha = alpha;
      }

  unfoldable pub sample_premultiplied :
      Frame → FrameContract → (display_x display_y : ℕ) → Option Pixel
  sample_premultiplied input contract display_x display_y = do
    let source = source_coordinate contract display_x display_y
    pixel ← bgra_at input source.0 source.1
    some (premultiply contract.colorimetry pixel)

  -- The sum of four products, from zero on.
  abbrev weighted_sum : (s0 s1 s2 s3 w0 w1 w2 w3 : f.Float) → f.Float
  weighted_sum s0 s1 s2 s3 w0 w1 w2 w3 =
      f.plus (f.plus (f.plus (f.plus f.zero_float (f.times s0 w0)) (f.times s1 w1)) (f.times s2 w2))
        (f.times s3 w3)

  unfoldable pub mix : (x_weight y_weight : ℕ) → (p0 p1 p2 p3 : Pixel) → Pixel
  mix x_weight y_weight p0 p1 p2 p3 =
      let x = f.from_weight x_weight in
      let y = f.from_weight y_weight in
      let w0 = f.times (f.complement x) (f.complement y) in
      let w1 = f.times x (f.complement y) in
      let w2 = f.times (f.complement x) y in
      let w3 = f.times x y in
      record {
        blue = weighted_sum p0.blue p1.blue p2.blue p3.blue w0 w1 w2 w3;
        green = weighted_sum p0.green p1.green p2.green p3.green w0 w1 w2 w3;
        red = weighted_sum p0.red p1.red p2.red p3.red w0 w1 w2 w3;
        alpha = weighted_sum p0.alpha p1.alpha p2.alpha p3.alpha w0 w1 w2 w3;
      }

  unfoldable pub sample_contract_bilinear :
      Frame → FrameContract → (x y : LinearSample) → Option Pixel
  unfolding sample_premultiplied
  sample_contract_bilinear input contract x y = do
    p0 ← sample_premultiplied input contract (x.low % u32_mod) (y.low % u32_mod)
    p1 ← sample_premultiplied input contract (x.high % u32_mod) (y.low % u32_mod)
    p2 ← sample_premultiplied input contract (x.low % u32_mod) (y.high % u32_mod)
    p3 ← sample_premultiplied input contract (x.high % u32_mod) (y.high % u32_mod)
    some (mix x.high_weight y.high_weight p0 p1 p2 p3)

  abbrev over : (source alpha : f.Float) → (background : ℕ) → ℕ
  over source alpha background =
      f.to_byte (f.plus source (f.times (f.from_byte background) (f.complement alpha)))

  unfoldable pub blend_over_opaque : List ℕ → Pixel → Option (List ℕ)
  blend_over_opaque (b ∷ g ∷ r ∷ a ∷ rest) p =
      some (over p.blue p.alpha b ∷ over p.green p.alpha g ∷ over p.red p.alpha r ∷ 255 ∷ rest)
  blend_over_opaque _ p = none

  -- The pixel of the source for one pixel of the destination.
  unfoldable pub contract_sample :
      Frame → ScalingFilter → FrameContract → TransformedPlacement → (x y : ℕ) → Option Pixel
  unfolding sample_premultiplied sample_contract_bilinear
  contract_sample input nearest contract p x y =
      sample_premultiplied input contract
        (p.source_x + nearest_source_coordinate x p.source_width p.dest_width)
        (p.source_y + nearest_source_coordinate y p.source_height p.dest_height)
  contract_sample input bilinear contract p x y =
      sample_contract_bilinear input contract
        (shifted_linear_sample (linear_sample f.position x p.source_width p.dest_width) p.source_x)
        (shifted_linear_sample (linear_sample f.position y p.source_height p.dest_height)
          p.source_y)

  unfoldable pub paste_contract_pixel :
      (output_width : ℕ)
      → Frame
      → ScalingFilter
      → FrameContract
      → (opacity_per_mille : ℕ) → TransformedPlacement
      → (y x : ℕ) → List ℕ
      → Option (List ℕ)
  unfolding contract_sample
  paste_contract_pixel output_width input filter contract opacity p y x output = do
    source ← contract_sample input filter contract p x y
    let offset = ((p.dest_y + y) * output_width + (p.dest_x + x)) * 4
    destination ← get_range output offset 4
    blended ← blend_over_opaque destination (apply_opacity source opacity)
    copy_at output offset blended

  unfoldable pub paste_contract_transformed_generic :
      (output_width : ℕ)
      → Frame
      → ScalingFilter
      → FrameContract
      → (opacity_per_mille : ℕ) → TransformedPlacement
      → List ℕ
      → Option (List ℕ)
  unfolding paste_contract_pixel
  paste_contract_transformed_generic output_width input filter contract opacity p output =
      try_fold
        (λ y row.
          try_fold (paste_contract_pixel output_width input filter contract opacity p y)
            (indices 0 p.dest_width) row)
        (indices 0 p.dest_height) output
