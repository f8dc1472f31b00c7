-- ===== src/Render/Compose/Safe.antt =====
-- Drawing a frame that is transformed never panics.
use mathlib.Core.Path.{◌≡◌}
use camera_man.Base.{
  ℕ, ◌*◌, ◌<◌, refl, arith, u32_mod, Bool, true, ◌&&◌, Bool-cases, inl, inr, some, Option, ok, List,
  Keeps, Long,
}
use camera_man.Error.{Checked}
use camera_man.Frame.Buffer.{Frame}
use camera_man.Frame.Buffer.Valid.{IsValidFrame}
use camera_man.Layout.{Cell}
use camera_man.Layout.Inside.Grid.{Inside}
use camera_man.Media.Colorimetry.{bt709_full_opaque, colorimetry_eq}
use camera_man.Media.Contract.{FrameContract, validate_contract, square}
use camera_man.Media.Contract.Validity.{Fits, IsValidContract-of_validate}
use camera_man.Media.Coordinates.{display_dimensions}
use camera_man.Media.Coordinates.Bounds.{display_dimensions_positive}
use camera_man.Media.Transform.{SourceTransform, validate_transform}
use camera_man.Media.Transform.Compose.{apply_to_contract-Narrows}
use camera_man.Render.Bilinear.{Position, x_samples, y_samples}
use camera_man.Render.Bilinear.Safe.{paste_transformed_bilinear-Keeps}
use camera_man.Render.Cache.{
  SamplingCache, TransformedSamplingKey, get_transformed, transformed_sampling_map,
}
use camera_man.Render.Cache.Transparent.{IsSound, get_transformed-IsSound}
use camera_man.Render.Compose.{
  Canvas, Drawing, written, paste_opaque_contract, paste_contract_transformed, paste_transformed,
  is_square,
}
use camera_man.Render.Paste.Safe.{paste_transformed_nearest-Keeps}
use camera_man.Render.Placement.{Fitted, TransformedPlacement, transformed_placement}
use camera_man.Render.Placement.Inside.{IsPlaced, transformed_placement-IsPlaced}
use camera_man.Render.Premultiplied.{Floats}
use camera_man.Render.Premultiplied.Safe.{paste_contract_transformed_generic-Keeps}
use camera_man.Worker.{ScalingFilter, nearest, bilinear}

-- The cache is sound, the output keeps its length, and where `Ready` holds there is no error.
pub record Drawn (position : Position) (size : ℕ) (Ready : Type 0) (r : Canvas × Checked (Unit {0}))
    : Type 0 where
  pub sound : IsSound position r.0.cache
  pub long : Long size r.0.bytes
  pub drawn : Ready → r.1 ≡ ok tt

pub written-Drawn :
    (position : Position) (size : ℕ) (Ready : Type 0) (cache : SamplingCache) (m : Option (List ℕ))
    → IsSound position cache
    → Keeps (Long size) m
    → Keeps (Drawn position size Ready) (written cache m)
written-Drawn position size Ready cache m s (bytes, (e, l)) = (
  (record { cache = cache; bytes = bytes }, ok tt),
  (rw e refl, record { sound = s; long = l; drawn = λ r. refl }),
)

pub unchanged-Drawn :
    (position : Position) (size : ℕ) (Ready : Type 0) (canvas : Canvas)
    (result : Checked (Unit {0}))
    → IsSound position canvas.cache
    → Long size canvas.bytes
    → (Ready → result ≡ ok tt)
    → Keeps (Drawn position size Ready) (some (canvas, result))
unchanged-Drawn position size Ready canvas result s l d =
    ((canvas, result), (refl, record { sound = s; long = l; drawn = d }))

display_small :
    (c : FrameContract) (w h : ℕ)
    → h < u32_mod
    → Fits c.clean_aperture w h
    → ((display_dimensions c).0 < u32_mod) × ((display_dimensions c).1 < u32_mod)
unfolding display_dimensions
display_small c w h bh fits = ground (arith, fits.bottom)

square_of : (c : FrameContract) → is_square c ≡ true → c.pixel_aspect_ratio ≡ square
square_of c e = ground arith

-- The test of the compiler on the keys of transformed frames is exact.
module _ (f : Floats) (fitted : Fitted)
    (eq : TransformedSamplingKey → TransformedSamplingKey → Bool)
    (exact : (a b : TransformedSamplingKey) → eq a b ≡ true → a ≡ b) (ow oh : ℕ) (input : Frame)
    (cell : Cell) (filter : ScalingFilter) (valid : IsValidFrame input) (bw : input.width < u32_mod)
    (bh : input.height < u32_mod) (inside : Inside ow oh cell) (some_wide : 0 < cell.width)
    (some_high : 0 < cell.height) (small_w : ow < u32_mod) (small_h : oh < u32_mod) where
  abbrev Ends : Type 0 → Drawing → Type 0
  Ends Ready drawing = Keeps (Drawn f.position (ow * oh * 4) Ready) drawing

  -- A frame of square and opaque pixels.
  module _ (c : FrameContract) (opacity : ℕ) (p : TransformedPlacement)
      (fits : Fits c.clean_aperture input.width input.height) (even : c.pixel_aspect_ratio ≡ square)
      (placed : IsPlaced cell (display_dimensions c) p) where
    abbrev key : ScalingFilter → TransformedSamplingKey
    key filter = record {
      contract = c;
      source_x = p.source_x;
      source_y = p.source_y;
      source_width = p.source_width;
      source_height = p.source_height;
      dest_width = p.dest_width;
      dest_height = p.dest_height;
      scaling_filter = filter;
    }

    paste_opaque_contract-Drawn :
        (filter : ScalingFilter) (Ready : Type 0) (canvas : Canvas)
        → IsSound f.position canvas.cache
        → Long (ow * oh * 4) canvas.bytes
        → Ends Ready (paste_opaque_contract f fitted eq ow input filter c opacity p canvas)
    unfolding paste_opaque_contract transformed_sampling_map x_samples y_samples
    paste_opaque_contract-Drawn nearest Ready canvas s l =
        let found = get_transformed-IsSound f.position eq exact canvas.cache (key nearest) s in
        rw (found.0, paste_opaque_contract)
          (written-Drawn f.position (ow * oh * 4) Ready
            (get_transformed eq f.position canvas.cache (key nearest)).0 _ found.1
            (paste_transformed_nearest-Keeps ow oh input.width input.height input.bytes c opacity
              cell p valid.exact fits bw even inside placed canvas.bytes l))
    paste_opaque_contract-Drawn bilinear Ready canvas s l =
        let found = get_transformed-IsSound f.position eq exact canvas.cache (key bilinear) s in
        rw (found.0, paste_opaque_contract)
          (written-Drawn f.position (ow * oh * 4) Ready
            (get_transformed eq f.position canvas.cache (key bilinear)).0 _ found.1
            (paste_transformed_bilinear-Keeps ow oh input.width input.height input.bytes c opacity
              cell p f.position valid.exact fits bw even inside placed canvas.bytes l))

  paste_contract_transformed-Drawn :
      (c : FrameContract) (transform : SourceTransform) (Ready : Type 0) (canvas : Canvas)
      → validate_contract c input.width input.height ≡ ok tt
      → IsSound f.position canvas.cache
      → Long (ow * oh * 4) canvas.bytes
      → Ends Ready (paste_contract_transformed f fitted eq ow input cell filter c transform canvas)
  unfolding paste_contract_transformed
  paste_contract_transformed-Drawn c transform Ready canvas checked s l =
      let display = display_dimensions c in
      let p = transformed_placement (fitted display cell) c cell transform in
      let fits = (IsValidContract-of_validate c input.width input.height checked).aperture in
      let some_display = display_dimensions_positive c input.width input.height checked in
      let small = display_small c input.width input.height bh fits in
      let placed =
        transformed_placement-IsPlaced (fitted display cell) c cell transform some_wide some_high
          (omega (arith, inside.0)) (omega (arith, inside.1)) small.0 small.1 some_display.0
          some_display.1 in
      elim (Bool-cases (colorimetry_eq c.colorimetry bt709_full_opaque && is_square c)) [
        | inl plain ↦
            let even : c.pixel_aspect_ratio ≡ square = square_of c (ground arith) in
            rw plain (
              paste_opaque_contract-Drawn c transform.opacity_per_mille p fits even placed filter
                Ready canvas s l)
        | inr generic ↦ rw generic (
            written-Drawn f.position (ow * oh * 4) Ready canvas.cache _ s (
              paste_contract_transformed_generic-Keeps f ow oh input filter c
                transform.opacity_per_mille cell display p valid bw bh checked inside placed
                canvas.bytes l))
      ]

  pub paste_transformed-Drawn :
      (transform : SourceTransform) (Ready : Type 0) (canvas : Canvas)
      → validate_transform transform ≡ ok tt
      → validate_contract input.contract input.width input.height ≡ ok tt
      → IsSound f.position canvas.cache
      → Long (ow * oh * 4) canvas.bytes
      → Ends Ready (paste_transformed f fitted eq ow input cell filter transform canvas)
  unfolding paste_transformed
  paste_transformed-Drawn transform Ready canvas vt vc s l =
      let (c, applied, checked, narrowed) =
        apply_to_contract-Narrows transform input.contract input.width input.height bw bh vt vc in
      rw (applied, paste_transformed)
        (paste_contract_transformed-Drawn c transform Ready canvas checked s l)
