-- ===== src/Render/Paste/Safe.antt =====
-- No loop reads or writes out of range, and the output keeps its length.
use camera_man.Base.{
  ℕ, ◌+◌, ◌-◌, ◌*◌, ◌≤◌, ◌<◌, ◌≡◌, refl, arith, min, u32_mod, List, [], ◌∷◌, length, length-append,
  indices, Keeps, Long, Keeps-bind, try_fold-Keeps, All-indices, All-enumerate_map, get_range-Keeps,
  copy_at-Keeps, ◌==◌, Bool-cases, inl, inr, ◌||◌,
}
use camera_man.Layout.{Cell}
use camera_man.Layout.Inside.Grid.{Inside}
use camera_man.Media.Contract.{FrameContract, square}
use camera_man.Media.Contract.Validity.{Fits}
use camera_man.Media.Coordinates.{display_dimensions}
use camera_man.Media.Transform.{transform_scale}
use camera_man.Render.Placement.{TransformedPlacement}
use camera_man.Render.Placement.Inside.{IsPlaced}
use camera_man.Render.Sampling.{
  x_coordinates, y_coordinates, transformed_source_offset, nearest_source_coordinate,
  mirrored_coordinate,
}
use camera_man.Render.Sampling.Nearest.{mirrored_coordinate_lt, transformed_source_offset_in_buffer}
use camera_man.Render.Paste.{
  fill_cell, fill_first_row, copy_first_row, pixel_offset, transformed_pixel, blend_pixel,
  paste_transformed_pixel, paste_transformed_row, paste_transformed_nearest,
}

-- The part of a row that a cell takes lies in the output.
pub row_in_buffer :
    (x y width w h : ℕ) → x + width ≤ w → y < h → (y * w + x) * 4 + width * 4 ≤ w * h * 4
row_in_buffer x y width w h p q =
    let row : (y + 1) * w ≤ h * w = mul_mono (y + 1) h w (omega arith) in grind arith
  where
    mul_mono : (a b o : ℕ) → a ≤ b → a * o ≤ b * o
    mul_mono a b o k = grind arith

module _ (w h : ℕ) (cell : Cell) (inside : Inside w h cell) (bgra : List ℕ)
    (four : length bgra ≡ 4) where
  fill_first_row-Keeps :
      (bytes : List ℕ)
      → 0 < cell.height
      → Long (w * h * 4) bytes
      → Keeps (Long (w * h * 4)) (fill_first_row w cell bgra bytes)
  unfolding fill_first_row
  fill_first_row-Keeps bytes high e =
      let row = row_in_buffer cell.x cell.y cell.width w h inside.0 (omega (arith, inside.1)) in
      try_fold-Keeps (Long (w * h * 4)) _ (indices 0 cell.width) bytes
        (All-indices _ 0 cell.width (λ x _ k a p.
          copy_at-Keeps (w * h * 4) a (pixel_offset w cell.x cell.y + x * 4) bgra
            (omega (arith, row, four, k)) p))
        e

  copy_first_row-Keeps :
      (y : ℕ) (bytes : List ℕ)
      → y < cell.y + cell.height
      → 0 < cell.height
      → Long (w * h * 4) bytes
      → Keeps (Long (w * h * 4)) (copy_first_row w cell y bytes)
  unfolding copy_first_row
  copy_first_row-Keeps y bytes k high e =
      let first = row_in_buffer cell.x cell.y cell.width w h inside.0 (omega (arith, inside.1)) in
      let row = row_in_buffer cell.x y cell.width w h inside.0 (omega (arith, inside.1, k)) in
      Keeps-bind (Long (cell.width * 4)) (Long (w * h * 4)) _ _
        (get_range-Keeps bytes (pixel_offset w cell.x cell.y) (cell.width * 4)
          (omega (arith, first, e)))
        (λ source long.
          copy_at-Keeps (w * h * 4) bytes (pixel_offset w cell.x y) source
            (omega (arith, row, long)) e)

  -- A cell that lies inside the output is filled without a panic, and the output keeps its length.
  pub fill_cell-Keeps :
      (bytes : List ℕ)
      → Long (w * h * 4) bytes
      → Keeps (Long (w * h * 4)) (fill_cell w cell bgra bytes)
  unfolding fill_cell
  fill_cell-Keeps bytes e = elim (Bool-cases (cell.width == 0 || cell.height == 0)) [
    | inl empty ↦ rw empty (bytes, (refl, e))
    | inr some_pixel ↦
        let high : 0 < cell.height = ground arith in
        rw some_pixel (
          Keeps-bind (Long (w * h * 4)) (Long (w * h * 4)) _ _ (fill_first_row-Keeps bytes high e)
            (λ filled long.
              try_fold-Keeps (Long (w * h * 4)) _ (indices (cell.y + 1) (cell.height - 1)) filled
                (All-indices _ (cell.y + 1) (cell.height - 1)
                  (λ y _ k a p. copy_first_row-Keeps y a (omega (arith, k)) high p))
                long))
  ]

length-blend_pixel :
    (o : ℕ) (source destination : List ℕ)
    → length source ≤ length destination
    → length (blend_pixel o source destination) ≡ length source
length-blend_pixel o [] destination h = refl
length-blend_pixel o (s ∷ source) [] h = absurd (omega arith)
length-blend_pixel o (s ∷ source) (d ∷ destination) h =
    omega (arith, length-blend_pixel o source destination (omega arith))

length-transformed_pixel :
    (o : ℕ) (source destination : List ℕ)
    → length source ≡ 3
    → length destination ≡ 4
    → length (transformed_pixel o source destination) ≡ 4
unfolding transformed_pixel
length-transformed_pixel o source destination p q = elim (Bool-cases (o == transform_scale)) [
  | inl full ↦ rw full (let l = length-append source (255 ∷ []) in omega (arith, l, p))
  | inr part ↦
      let blended = blend_pixel (min o transform_scale) source destination in
      let l = length-append blended (255 ∷ []) in
      let b = length-blend_pixel (min o transform_scale) source destination (omega arith) in
      rw part (omega (arith, l, b, p))
]

-- A frame with a contract of square pixels that fits it, and a placement inside a cell of the output.
module _ (ow oh w h : ℕ) (input : List ℕ) (c : FrameContract) (opacity : ℕ) (cell : Cell)
    (p : TransformedPlacement) (long : Long (w * h * 4) input) (fits : Fits c.clean_aperture w h)
    (bw : w < u32_mod) (even : c.pixel_aspect_ratio ≡ square) (inside : Inside ow oh cell)
    (placed : IsPlaced cell (display_dimensions c) p) where
  abbrev Output : List ℕ → Type 0
  Output = Long (ow * oh * 4)

  pixel-Keeps :
      (x y source_x source_y : ℕ) (output : List ℕ)
      → x < p.dest_width
      → y < p.dest_height
      → source_x < (display_dimensions c).0
      → source_y < (display_dimensions c).1
      → Output output
      → Keeps Output
          (paste_transformed_pixel ow w input c opacity p y source_y (x, source_x) output)
  unfolding paste_transformed_pixel
  pixel-Keeps x y sx sy output lx ly lsx lsy e =
      let row =
        row_in_buffer (p.dest_x + x) (p.dest_y + y) 1 ow oh (omega (arith, placed.right, inside.0))
          (omega (arith, placed.bottom, inside.1)) in
      let room : (p.dest_y + y) * ow * 4 + (p.dest_x + x) * 4 + 4 ≤ ow * oh * 4 =
        omega (arith, row) in
      let source = transformed_source_offset_in_buffer c w h sx sy fits bw even lsx lsy in
      Keeps-bind (Long 4) Output _ _
        (get_range-Keeps output ((p.dest_y + y) * ow * 4 + (p.dest_x + x) * 4) 4
          (omega (arith, room, e)))
        (λ destination four.
          Keeps-bind (Long 3) Output _ _
            (get_range-Keeps input (transformed_source_offset c w sx sy) 3
              (omega (arith, source, long)))
            (λ pixel three.
              let l = length-transformed_pixel opacity pixel destination three four in
              copy_at-Keeps (ow * oh * 4) output ((p.dest_y + y) * ow * 4 + (p.dest_x + x) * 4)
                (transformed_pixel opacity pixel destination) (omega (arith, room, l)) e))

  x_coordinate_lt :
      (x : ℕ)
      → mirrored_coordinate
          (p.source_x + nearest_source_coordinate x p.source_width p.dest_width)
          (display_dimensions c).0
          c.transform.mirror_horizontal
        < (display_dimensions c).0
  x_coordinate_lt x =
      mirrored_coordinate_lt (p.source_x + nearest_source_coordinate x p.source_width p.dest_width)
        (display_dimensions c).0 c.transform.mirror_horizontal
        (omega (arith, placed.source_right, placed.source_wide))

  y_coordinate_lt :
      (y : ℕ)
      → mirrored_coordinate
          (p.source_y + nearest_source_coordinate y p.source_height p.dest_height)
          (display_dimensions c).1
          c.transform.mirror_vertical
        < (display_dimensions c).1
  y_coordinate_lt y =
      mirrored_coordinate_lt
        (p.source_y + nearest_source_coordinate y p.source_height p.dest_height)
        (display_dimensions c).1 c.transform.mirror_vertical
        (omega (arith, placed.source_bottom, placed.source_high))

  row-Keeps :
      (y source_y : ℕ) (output : List ℕ)
      → y < p.dest_height
      → source_y < (display_dimensions c).1
      → Output output
      → Keeps Output (
          paste_transformed_row ow w input c opacity p
            (x_coordinates c p.source_x p.source_width p.dest_width)
            (y, source_y)
            output)
  unfolding paste_transformed_row x_coordinates
  row-Keeps y sy output ly lsy e =
      try_fold-Keeps Output _ _ output
        (All-enumerate_map _ _ 0 p.dest_width
          (λ x k a q. pixel-Keeps x y _ sy a (omega (arith, k)) ly (x_coordinate_lt x) lsy q))
        e

  -- The nearest filter draws a frame without a panic: it reads inside the frame, writes inside the output,
  -- and the output keeps its length, at any opacity, with any rotation, mirrors and crop.
  pub paste_transformed_nearest-Keeps :
      (output : List ℕ)
      → Output output
      → Keeps Output (
          paste_transformed_nearest ow w input c opacity p
            (x_coordinates c p.source_x p.source_width p.dest_width)
            (y_coordinates c p.source_y p.source_height p.dest_height)
            output)
  unfolding paste_transformed_nearest y_coordinates
  paste_transformed_nearest-Keeps output e =
      try_fold-Keeps Output _ _ output
        (All-enumerate_map _ _ 0 p.dest_height
          (λ y k a q. row-Keeps y _ a (omega (arith, k)) (y_coordinate_lt y) q))
        e
