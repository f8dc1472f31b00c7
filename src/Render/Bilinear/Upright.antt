-- ===== src/Render/Bilinear/Upright.antt =====
-- src/render.rs: the bilinear filter of a frame that is not turned. The parallel loop writes the same
-- rows.
pub mod Safe
use camera_man.Base.{
  ℕ, ◌+◌, ◌-◌, ◌*◌, ◌/◌, ◌%◌, Option, List, [], ◌∷◌, map, indices, get_elem?, get_range, copy_at,
  try_fold, enumerate_from, u8_mod,
}
use camera_man.Base.Options.{◌>>=◌}
use camera_man.Render.Bilinear.{weigh}
use camera_man.Render.Sampling.{LinearSample}

-- The rounded quotient by the product of both weights.
abbrev pub rounded_channel : ℕ → ℕ
rounded_channel weighted = (weighted + 256 * 256 / 2) / (256 * 256) % u8_mod

unfoldable pub upright_pixel : (x_sample y_sample : LinearSample) (p0 p1 p2 p3 : List ℕ) → List ℕ
upright_pixel x_sample y_sample p0 p1 p2 p3 =
    let top = weigh (256 - x_sample.high_weight) x_sample.high_weight p0 p1 in
    let bottom = weigh (256 - x_sample.high_weight) x_sample.high_weight p2 p3 in
    map rounded_channel (weigh (256 - y_sample.high_weight) y_sample.high_weight top bottom)

unfoldable pub paste_upright_pixel :
    (input : List ℕ) (source_width dest_x : ℕ) (y_sample : LinearSample)
    → ℕ × LinearSample
    → List ℕ
    → Option (List ℕ)
paste_upright_pixel input source_width dest_x y_sample (x, x_sample) row = do
  let low_row = y_sample.low * source_width * 4
  let high_row = y_sample.high * source_width * 4
  p0 ← get_range input (low_row + x_sample.low * 4) 4
  p1 ← get_range input (low_row + x_sample.high * 4) 4
  p2 ← get_range input (high_row + x_sample.low * 4) 4
  p3 ← get_range input (high_row + x_sample.high * 4) 4
  copy_at row ((dest_x + x) * 4) (upright_pixel x_sample y_sample p0 p1 p2 p3)

unfoldable pub paste_bilinear_row :
    (input : List ℕ) (source_width dest_x : ℕ) (xs : List LinearSample) (y_sample : LinearSample)
    → List ℕ
    → Option (List ℕ)
unfolding paste_upright_pixel
paste_bilinear_row input source_width dest_x xs y_sample row =
    try_fold (paste_upright_pixel input source_width dest_x y_sample) (enumerate_from 0 xs) row

unfoldable pub paste_bilinear :
    (output_width source_width : ℕ) (input : List ℕ) (dest_x dest_y dest_height : ℕ)
    (xs ys : List LinearSample)
    → List ℕ
    → Option (List ℕ)
unfolding paste_bilinear_row
paste_bilinear output_width source_width input dest_x dest_y dest_height xs ys bytes =
    try_fold
      (λ y output. do
        row ← get_range output ((dest_y + y) * (output_width * 4)) (output_width * 4)
        y_sample ← get_elem? ys y
        pasted ← paste_bilinear_row input source_width dest_x xs y_sample row
        copy_at output ((dest_y + y) * (output_width * 4)) pasted)
      (indices 0 dest_height) bytes
