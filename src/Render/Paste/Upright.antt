-- ===== src/Render/Paste/Upright.antt =====
-- The loops for a frame that is not turned: they copy rows, or sample them with the nearest filter.
use camera_man.Base.{
  ℕ, ◌+◌, ◌*◌, ◌≤◌, ◌<◌, ◌≡◌, arith, some, List, indices, get_elem?, get_elem?-map-indices, Keeps,
  Long, Keeps-bind, try_fold-Keeps, All-indices, All-enumerate_map, get_range-Keeps, copy_at-Keeps,
}
use camera_man.Render.Paste.{
  paste_unscaled, paste_nearest, paste_nearest_row, paste_nearest_pixel, x_offsets, y_rows,
}
use camera_man.Render.Paste.Safe.{row_in_buffer}
use camera_man.Render.Sampling.{nearest_source_coordinate}
use camera_man.Render.Sampling.Nearest.{nearest_source_coordinate_lt, pixel_in_buffer}

y_rows_at :
    (w h dh row : ℕ)
    → row < dh
    → get_elem? (y_rows w h dh) row ≡ some (nearest_source_coordinate row h dh * w * 4)
unfolding y_rows
y_rows_at w h dh row k =
    get_elem?-map-indices (λ y. nearest_source_coordinate y h dh * w * 4) dh row k

-- A frame of `w` by `h` pixels, and a rectangle that lies in the output.
module _ (ow oh w h : ℕ) (input : List ℕ) (x y dw dh : ℕ) (long : Long (w * h * 4) input)
    (right : x + dw ≤ ow) (bottom : y + dh ≤ oh) where
  abbrev Output : List ℕ → Type 0
  Output = Long (ow * oh * 4)

  -- A rectangle no larger than the frame is copied without a panic, and the output keeps its length.
  pub paste_unscaled-Keeps :
      (output : List ℕ)
      → dw ≤ w
      → dh ≤ h
      → Output output
      → Keeps Output (paste_unscaled ow w input x y dw dh output)
  unfolding paste_unscaled
  paste_unscaled-Keeps output fw fh e =
      try_fold-Keeps Output _ (indices 0 dh) output
        (All-indices _ 0 dh (λ row _ k a p.
          let source = row_in_buffer 0 row dw w h (omega (arith, fw)) (omega (arith, fh, k)) in
          let target = row_in_buffer x (y + row) dw ow oh right (omega (arith, bottom, k)) in
          Keeps-bind (Long (dw * 4)) Output _ _
            (get_range-Keeps input (row * (w * 4)) (dw * 4) (grind (arith, source, long)))
            (λ pixels l.
              copy_at-Keeps (ow * oh * 4) a ((y + row) * (ow * 4) + x * 4) pixels
                (grind (arith, target, l)) p)))
        e

  row-Keeps :
      (source_row : ℕ) (row : List ℕ)
      → 0 < w
      → 0 < h
      → Long (ow * 4) row
      → Keeps (Long (ow * 4)) (
          paste_nearest_row input
            (nearest_source_coordinate source_row h dh * w * 4)
            x
            (x_offsets w dw)
            row)
  unfolding paste_nearest_row x_offsets paste_nearest_pixel
  row-Keeps source_row row pw ph e =
      try_fold-Keeps (Long (ow * 4)) _ _ row
        (All-enumerate_map _ _ 0 dw (λ k lk a p.
          let sx = nearest_source_coordinate k w dw in
          let sy = nearest_source_coordinate source_row h dh in
          let source =
            pixel_in_buffer sx sy w h (nearest_source_coordinate_lt k w dw pw)
              (nearest_source_coordinate_lt source_row h dh ph) in
          Keeps-bind (Long 4) (Long (ow * 4)) _ _
            (get_range-Keeps input (sy * w * 4 + sx * 4) 4 (omega (arith, source, long)))
            (λ pixel l.
              copy_at-Keeps (ow * 4) a ((x + k) * 4) pixel (omega (arith, l, lk, right)) p)))
        e

  -- A frame that is not empty is scaled to the rectangle with the nearest filter without a panic: it reads
  -- inside the frame, writes inside the output, and the output keeps its length.
  pub paste_nearest-Keeps :
      (output : List ℕ)
      → 0 < w
      → 0 < h
      → Output output
      → Keeps Output (paste_nearest ow input x y dh (x_offsets w dw) (y_rows w h dh) output)
  unfolding paste_nearest
  paste_nearest-Keeps output pw ph e =
      try_fold-Keeps Output _ (indices 0 dh) output
        (All-indices _ 0 dh (λ row _ k a p.
          let target =
            row_in_buffer 0 (y + row) ow ow oh (omega arith) (omega (arith, bottom, k)) in
          Keeps-bind (Long (ow * 4)) Output _ _
            (get_range-Keeps a ((y + row) * (ow * 4)) (ow * 4) (grind (arith, target, p)))
            (λ cut l. rw (y_rows_at w h dh row (omega (arith, k))) (
              Keeps-bind (Long (ow * 4)) Output _ _ (row-Keeps row cut pw ph l) (λ pasted m.
                copy_at-Keeps (ow * oh * 4) a ((y + row) * (ow * 4)) pasted
                  (grind (arith, target, m)) p)))))
        e
