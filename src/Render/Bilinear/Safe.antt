-- ===== src/Render/Bilinear/Safe.antt =====
-- The bilinear filter reads inside the frame and writes inside the output.
use camera_man.Base.{
  ℕ, ◌+◌, ◌-◌, ◌*◌, ◌≤◌, ◌<◌, ◌≡◌, arith, min, u32_mod, Bool, true, false, leb, ◌==◌, Bool-cases,
  inl, inr, List, [], ◌∷◌, map, length, length-append, length-map, get_range, Keeps, Long,
  Keeps-bind, try_fold-Keeps, All-enumerate_map, get_range-Keeps, copy_at-Keeps,
}
use camera_man.Layout.{Cell}
use camera_man.Layout.Inside.Grid.{Inside}
use camera_man.Media.Contract.{FrameContract, square}
use camera_man.Media.Contract.Validity.{Fits}
use camera_man.Media.Coordinates.{display_dimensions}
use camera_man.Media.Transform.{transform_scale}
use camera_man.Render.Placement.{TransformedPlacement}
use camera_man.Render.Placement.Inside.{IsPlaced}
use camera_man.Render.Paste.Safe.{row_in_buffer}
use camera_man.Render.Sampling.{
  LinearSample, mirrored_linear_sample, shifted_linear_sample, transformed_source_offset,
  blend_opaque_bilinear_channel,
}
use camera_man.Render.Sampling.Nearest.{transformed_source_offset_in_buffer}
use camera_man.Render.Bilinear.{
  Position, linear_sample, sample_at, x_samples, y_samples, weigh, blend_with, bilinear_pixel,
  paste_bilinear_pixel, paste_bilinear_samples, paste_transformed_bilinear,
}

abbrev pub Below : (size : ℕ) → LinearSample → Type 0
Below size s = (s.low < size) × (s.high < size)

pub linear_sample-Below :
    (position : Position) (dest source_size dest_size : ℕ)
    → 0 < source_size
    → Below source_size (linear_sample position dest source_size dest_size)
unfolding linear_sample
linear_sample-Below position dest source_size dest_size h = elim (Bool-cases (leb source_size 1)) [
  | inl single ↦ rw single (h, h)
  | inr more ↦ rw more (omega arith, omega arith)
]

sample_at-Below :
    (position : Position) (offset source_size dest_size display : ℕ) (mirror : Bool) (dest : ℕ)
    → 0 < source_size
    → offset + source_size ≤ display
    → Below display (sample_at position offset source_size dest_size display mirror dest)
unfolding mirrored_linear_sample shifted_linear_sample
sample_at-Below position offset source_size dest_size display true dest h k =
    (omega arith, omega arith)
sample_at-Below position offset source_size dest_size display false dest h k =
    let b = linear_sample-Below position dest source_size dest_size h in
    (omega (arith, b.0), omega (arith, b.1))

pub length-weigh :
    (l h : ℕ) (xs ys : List ℕ) → length (weigh l h xs ys) ≡ min (length xs) (length ys)
length-weigh l h [] ys = omega arith
length-weigh l h (x ∷ xs) [] = omega arith
length-weigh l h (x ∷ xs) (y ∷ ys) = omega (arith, length-weigh l h xs ys)

length-blend_with :
    (o : ℕ) (xs ys : List ℕ) → length (blend_with o xs ys) ≡ min (length xs) (length ys)
length-blend_with o [] ys = omega arith
length-blend_with o (x ∷ xs) [] = omega arith
length-blend_with o (x ∷ xs) (y ∷ ys) = omega (arith, length-blend_with o xs ys)

length-bilinear_pixel :
    (xs ys : LinearSample) (o : ℕ) (p0 p1 p2 p3 d : List ℕ)
    → Long 3 p0
    → Long 3 p1
    → Long 3 p2
    → Long 3 p3
    → Long 4 d
    → length (bilinear_pixel xs ys o p0 p1 p2 p3 d) ≡ 4
unfolding bilinear_pixel
length-bilinear_pixel xs ys o p0 p1 p2 p3 d l0 l1 l2 l3 l4 =
    let top = weigh (256 - xs.high_weight) xs.high_weight p0 p1 in
    let bottom = weigh (256 - xs.high_weight) xs.high_weight p2 p3 in
    let weighted = weigh (256 - ys.high_weight) ys.high_weight top bottom in
    let t = length-weigh (256 - xs.high_weight) xs.high_weight p0 p1 in
    let b = length-weigh (256 - xs.high_weight) xs.high_weight p2 p3 in
    let w = length-weigh (256 - ys.high_weight) ys.high_weight top bottom in
    elim (Bool-cases (o == transform_scale)) [
      | inl full ↦
          let m = length-map blend_opaque_bilinear_channel weighted in
          rw full (
            omega (
              arith,
              length-append (map blend_opaque_bilinear_channel weighted) (255 ∷ []),
              m,
              w,
              t,
              b,
              l0,
              l1,
              l2,
              l3,
            ))
      | inr part ↦
          let m = length-blend_with (min o transform_scale) weighted d in
          rw part (
            omega (
              arith,
              length-append (blend_with (min o transform_scale) weighted d) (255 ∷ []),
              m,
              w,
              t,
              b,
              l0,
              l1,
              l2,
              l3,
              l4,
            ))
    ]

module _ (ow oh w h : ℕ) (input : List ℕ) (c : FrameContract) (opacity : ℕ) (cell : Cell)
    (p : TransformedPlacement) (position : Position) (long : Long (w * h * 4) input)
    (fits : Fits c.clean_aperture w h) (bw : w < u32_mod) (even : c.pixel_aspect_ratio ≡ square)
    (inside : Inside ow oh cell) (placed : IsPlaced cell (display_dimensions c) p) where
  abbrev Output : List ℕ → Type 0
  Output = Long (ow * oh * 4)

  sample-Keeps :
      (x y : ℕ)
      → x < (display_dimensions c).0
      → y < (display_dimensions c).1
      → Keeps (Long 3) (get_range input (transformed_source_offset c w x y) 3)
  sample-Keeps x y lx ly =
      let source = transformed_source_offset_in_buffer c w h x y fits bw even lx ly in
      get_range-Keeps input (transformed_source_offset c w x y) 3 (omega (arith, source, long))

  pixel-Keeps :
      (x y : ℕ) (xs ys : LinearSample) (output : List ℕ)
      → x < p.dest_width
      → y < p.dest_height
      → Below (display_dimensions c).0 xs
      → Below (display_dimensions c).1 ys
      → Output output
      → Keeps Output (paste_bilinear_pixel ow w input c opacity p y ys (x, xs) output)
  unfolding paste_bilinear_pixel
  pixel-Keeps x y xs ys output lx ly bx by e =
      let row =
        row_in_buffer (p.dest_x + x) (p.dest_y + y) 1 ow oh (omega (arith, placed.right, inside.0))
          (omega (arith, placed.bottom, inside.1)) in
      let offset = (p.dest_y + y) * ow * 4 + (p.dest_x + x) * 4 in
      let room : (p.dest_y + y) * ow * 4 + (p.dest_x + x) * 4 + 4 ≤ ow * oh * 4 =
        omega (arith, row) in
      Keeps-bind (Long 4) Output _ _ (get_range-Keeps output offset 4 (omega (arith, room, e)))
        (λ d l4. Keeps-bind (Long 3) Output _ _ (sample-Keeps xs.low ys.low bx.0 by.0) (λ p0 l0.
          Keeps-bind (Long 3) Output _ _ (sample-Keeps xs.high ys.low bx.1 by.0) (λ p1 l1.
            Keeps-bind (Long 3) Output _ _ (sample-Keeps xs.low ys.high bx.0 by.1) (λ p2 l2.
              Keeps-bind (Long 3) Output _ _ (sample-Keeps xs.high ys.high bx.1 by.1) (λ p3 l3.
                let four = length-bilinear_pixel xs ys opacity p0 p1 p2 p3 d l0 l1 l2 l3 l4 in
                copy_at-Keeps (ow * oh * 4) output offset
                  (bilinear_pixel xs ys opacity p0 p1 p2 p3 d) (omega (arith, room, four)) e)))))

  row-Keeps :
      (y : ℕ) (ys : LinearSample) (output : List ℕ)
      → y < p.dest_height
      → Below (display_dimensions c).1 ys
      → Output output
      → Keeps Output
          (paste_bilinear_samples ow w input c opacity p (x_samples position c p) (y, ys) output)
  unfolding paste_bilinear_samples x_samples
  row-Keeps y ys output ly by e =
      try_fold-Keeps Output _ _ output
        (All-enumerate_map _ _ 0 p.dest_width (λ x k a q.
          pixel-Keeps x y _ ys a (omega (arith, k)) ly
            (sample_at-Below position p.source_x p.source_width p.dest_width
              (display_dimensions c).0 c.transform.mirror_horizontal x placed.source_wide
              placed.source_right)
            by q))
        e

  -- The bilinear filter draws a frame without a panic: it reads inside the frame, writes inside the output, and the
  -- output keeps its length, whatever the positions and the weights round to.
  pub paste_transformed_bilinear-Keeps :
      (output : List ℕ)
      → Output output
      → Keeps Output (
          paste_transformed_bilinear ow w input c opacity p
            (x_samples position c p)
            (y_samples position c p)
            output)
  unfolding paste_transformed_bilinear y_samples
  paste_transformed_bilinear-Keeps output e =
      try_fold-Keeps Output _ _ output
        (All-enumerate_map _ _ 0 p.dest_height (λ y k a q.
          row-Keeps y _ a (omega (arith, k))
            (sample_at-Below position p.source_y p.source_height p.dest_height
              (display_dimensions c).1 c.transform.mirror_vertical y placed.source_high
              placed.source_bottom)
            q))
        e
