-- ===== src/Render/Bilinear/Upright/Safe.antt =====
-- The bilinear filter of an upright frame reads inside the frame and writes inside the output.
use camera_man.Base.{
  ℕ, ◌+◌, ◌-◌, ◌*◌, ◌≤◌, ◌<◌, ◌≡◌, arith, List, map, length, length-map, indices,
  get_elem?-map-indices, get_range, Keeps, Long, Keeps-bind, try_fold-Keeps, All-indices,
  All-enumerate_map, get_range-Keeps, copy_at-Keeps,
}
use camera_man.Render.Bilinear.{Position, linear_sample, weigh}
use camera_man.Render.Bilinear.Safe.{Below, linear_sample-Below, length-weigh}
use camera_man.Render.Bilinear.Upright.{
  upright_pixel, rounded_channel, paste_upright_pixel, paste_bilinear_row, paste_bilinear,
}
use camera_man.Render.Paste.Safe.{row_in_buffer}
use camera_man.Render.Sampling.{LinearSample}
use camera_man.Render.Sampling.Nearest.{pixel_in_buffer}

length-upright_pixel :
    (xs ys : LinearSample) (p0 p1 p2 p3 : List ℕ)
    → Long 4 p0
    → Long 4 p1
    → Long 4 p2
    → Long 4 p3
    → length (upright_pixel xs ys p0 p1 p2 p3) ≡ 4
unfolding upright_pixel
length-upright_pixel xs ys p0 p1 p2 p3 l0 l1 l2 l3 =
    let top = weigh (256 - xs.high_weight) xs.high_weight p0 p1 in
    let bottom = weigh (256 - xs.high_weight) xs.high_weight p2 p3 in
    let weighted = weigh (256 - ys.high_weight) ys.high_weight top bottom in
    let t = length-weigh (256 - xs.high_weight) xs.high_weight p0 p1 in
    let b = length-weigh (256 - xs.high_weight) xs.high_weight p2 p3 in
    let w = length-weigh (256 - ys.high_weight) ys.high_weight top bottom in
    omega (arith, length-map rounded_channel weighted, w, t, b, l0, l1, l2, l3)

module _ (ow oh w h : ℕ) (input : List ℕ) (x y dw dh : ℕ) (position : Position)
    (long : Long (w * h * 4) input) (right : x + dw ≤ ow) (bottom : y + dh ≤ oh) (pw : 0 < w)
    (ph : 0 < h) where
  abbrev Output : List ℕ → Type 0
  Output = Long (ow * oh * 4)

  abbrev xs : List LinearSample
  xs = map (λ x. linear_sample position x w dw) (indices 0 dw)

  abbrev ys : List LinearSample
  ys = map (λ y. linear_sample position y h dh) (indices 0 dh)

  sample-Keeps :
      (sx sy : ℕ) → sx < w → sy < h → Keeps (Long 4) (get_range input (sy * w * 4 + sx * 4) 4)
  sample-Keeps sx sy p q =
      let source = pixel_in_buffer sx sy w h p q in
      get_range-Keeps input (sy * w * 4 + sx * 4) 4 (omega (arith, source, long))

  pixel-Keeps :
      (k : ℕ) (s t : LinearSample) (row : List ℕ)
      → k < dw
      → Below w s
      → Below h t
      → Long (ow * 4) row
      → Keeps (Long (ow * 4)) (paste_upright_pixel input w x t (k, s) row)
  unfolding paste_upright_pixel
  pixel-Keeps k s t row lk bs bt e =
      Keeps-bind (Long 4) (Long (ow * 4)) _ _ (sample-Keeps s.low t.low bs.0 bt.0) (λ p0 l0.
        Keeps-bind (Long 4) (Long (ow * 4)) _ _ (sample-Keeps s.high t.low bs.1 bt.0) (λ p1 l1.
          Keeps-bind (Long 4) (Long (ow * 4)) _ _ (sample-Keeps s.low t.high bs.0 bt.1) (λ p2 l2.
            Keeps-bind (Long 4) (Long (ow * 4)) _ _ (sample-Keeps s.high t.high bs.1 bt.1) (λ p3 l3.
              let four = length-upright_pixel s t p0 p1 p2 p3 l0 l1 l2 l3 in
              copy_at-Keeps (ow * 4) row ((x + k) * 4) (upright_pixel s t p0 p1 p2 p3)
                (omega (arith, four, lk, right)) e))))

  row-Keeps :
      (t : LinearSample) (row : List ℕ)
      → Below h t
      → Long (ow * 4) row
      → Keeps (Long (ow * 4)) (paste_bilinear_row input w x xs t row)
  unfolding paste_bilinear_row
  row-Keeps t row bt e =
      try_fold-Keeps (Long (ow * 4)) _ _ row
        (All-enumerate_map _ _ 0 dw (λ k lk a p.
          pixel-Keeps k _ t a (omega (arith, lk)) (linear_sample-Below position k w dw pw) bt p))
        e

  -- A frame that is not empty is scaled to a rectangle of the output with the bilinear filter without a
  -- panic, and the output keeps its length.
  pub paste_bilinear-Keeps :
      (output : List ℕ)
      → Output output
      → Keeps Output (paste_bilinear ow w input x y dh xs ys output)
  unfolding paste_bilinear
  paste_bilinear-Keeps output e =
      try_fold-Keeps Output _ (indices 0 dh) output
        (All-indices _ 0 dh (λ row _ k a p.
          let target =
            row_in_buffer 0 (y + row) ow ow oh (omega arith) (omega (arith, bottom, k)) in
          Keeps-bind (Long (ow * 4)) Output _ _
            (get_range-Keeps a ((y + row) * (ow * 4)) (ow * 4) (grind (arith, target, p)))
            (λ cut l.
              rw
                (get_elem?-map-indices (λ y. linear_sample position y h dh) dh row
                  (omega (arith, k)))
                (Keeps-bind (Long (ow * 4)) Output _ _
                  (row-Keeps (linear_sample position row h dh) cut
                    (linear_sample-Below position row h dh ph) l)
                  (λ pasted m.
                    copy_at-Keeps (ow * oh * 4) a ((y + row) * (ow * 4)) pasted
                      (grind (arith, target, m)) p)))))
        e
