-- ===== src/Render/Premultiplied/Safe.antt =====
-- A frame that is not opaque is drawn without a panic.
use camera_man.Base.{
  ℕ, ◌+◌, ◌*◌, ◌%◌, ◌<◌, ◌≡◌, refl, arith, ok, u32_mod, List, [], ◌∷◌, indices, Keeps, Long,
  Keeps-bind, try_fold-Keeps, All-indices, get_range-Keeps, copy_at-Keeps,
}
use camera_man.Frame.Buffer.{Frame}
use camera_man.Frame.Buffer.Valid.{IsValidFrame}
use camera_man.Frame.Buffer.Pixels.{bgra_at_total}
use camera_man.Layout.{Cell}
use camera_man.Layout.Inside.Grid.{Inside}
use camera_man.Media.Contract.{FrameContract, validate_contract}
use camera_man.Media.Coordinates.{source_coordinate}
use camera_man.Media.Coordinates.Bounds.{source_coordinate_in_frame}
use camera_man.Render.Paste.Safe.{row_in_buffer}
use camera_man.Render.Placement.{TransformedPlacement}
use camera_man.Render.Placement.Inside.{IsPlaced}
use camera_man.Render.Premultiplied.{
  Floats, Pixel, premultiply, sample_premultiplied, sample_contract_bilinear, contract_sample, mix,
  apply_opacity, blend_over_opaque, paste_contract_pixel, paste_contract_transformed_generic,
}
use camera_man.Render.Sampling.{LinearSample}
use camera_man.Worker.{ScalingFilter, nearest, bilinear}

abbrev Read : (f : Floats) → Pixel f → Type 0
Read f pixel = Unit

blend-Keeps :
    (f : Floats) (destination : List ℕ) (p : Pixel f)
    → Long 4 destination
    → Keeps (Long 4) (blend_over_opaque f destination p)
unfolding blend_over_opaque
blend-Keeps f [] p l = absurd (omega (arith, l))
blend-Keeps f (b ∷ []) p l = absurd (omega (arith, l))
blend-Keeps f (b ∷ g ∷ []) p l = absurd (omega (arith, l))
blend-Keeps f (b ∷ g ∷ r ∷ []) p l = absurd (omega (arith, l))
blend-Keeps f (b ∷ g ∷ r ∷ a ∷ rest) p l = (_, (refl, l))

module _ (f : Floats) (ow oh : ℕ) (input : Frame) (filter : ScalingFilter) (c : FrameContract)
    (opacity : ℕ) (cell : Cell) (display : ℕ × ℕ) (p : TransformedPlacement)
    (valid : IsValidFrame input) (bw : input.width < u32_mod) (bh : input.height < u32_mod)
    (checked : validate_contract c input.width input.height ≡ ok tt) (inside : Inside ow oh cell)
    (placed : IsPlaced cell display p) where
  abbrev Output : List ℕ → Type 0
  Output = Long (ow * oh * 4)

  sample-Keeps : (x y : ℕ) → Keeps (Read f) (sample_premultiplied f input c x y)
  unfolding sample_premultiplied
  sample-Keeps x y =
      let (sx, sy) = source_coordinate_in_frame c input.width input.height x y bw bh checked in
      let (pixel, e) =
        (bgra_at_total input (source_coordinate c x y).0 (source_coordinate c x y).1 valid).0 sx
          sy in
      (premultiply f c.colorimetry pixel, (rw e refl, tt))

  bilinear-Keeps : (x y : LinearSample) → Keeps (Read f) (sample_contract_bilinear f input c x y)
  unfolding sample_contract_bilinear
  bilinear-Keeps x y =
      Keeps-bind (Read f) (Read f) _ _ (sample-Keeps (x.low % u32_mod) (y.low % u32_mod)) (λ p0 _.
        Keeps-bind (Read f) (Read f) _ _ (sample-Keeps (x.high % u32_mod) (y.low % u32_mod))
          (λ p1 _.
            Keeps-bind (Read f) (Read f) _ _ (sample-Keeps (x.low % u32_mod) (y.high % u32_mod))
              (λ p2 _.
                Keeps-bind (Read f) (Read f) _ _
                  (sample-Keeps (x.high % u32_mod) (y.high % u32_mod))
                  (λ p3 _. (mix f x.high_weight y.high_weight p0 p1 p2 p3, (refl, tt))))))

  contract_sample-Keeps :
      (filter : ScalingFilter) (x y : ℕ) → Keeps (Read f) (contract_sample f input filter c p x y)
  unfolding contract_sample
  contract_sample-Keeps nearest x y = sample-Keeps _ _
  contract_sample-Keeps bilinear x y = bilinear-Keeps _ _

  pixel-Keeps :
      (y x : ℕ) (output : List ℕ)
      → x < p.dest_width
      → y < p.dest_height
      → Output output
      → Keeps Output (paste_contract_pixel f ow input filter c opacity p y x output)
  unfolding paste_contract_pixel
  pixel-Keeps y x output lx ly e =
      let room =
        row_in_buffer (p.dest_x + x) (p.dest_y + y) 1 ow oh (omega (arith, placed.right, inside.0))
          (omega (arith, placed.bottom, inside.1)) in
      let offset = ((p.dest_y + y) * ow + (p.dest_x + x)) * 4 in
      Keeps-bind (Read f) Output _ _ (contract_sample-Keeps filter x y) (λ source _.
        Keeps-bind (Long 4) Output _ _ (get_range-Keeps output offset 4 (omega (arith, room, e)))
          (λ destination four.
            Keeps-bind (Long 4) Output _ _
              (blend-Keeps f destination (apply_opacity f source opacity) four)
              (λ blended l.
                copy_at-Keeps (ow * oh * 4) output offset blended (omega (arith, room, l)) e)))

  -- A valid frame is drawn with the generic loop without a panic, and the output keeps its length,
  -- whatever the floating-point operations answer: each sample reads a pixel of the frame.
  pub paste_contract_transformed_generic-Keeps :
      (output : List ℕ)
      → Output output
      → Keeps Output (paste_contract_transformed_generic f ow input filter c opacity p output)
  unfolding paste_contract_transformed_generic
  paste_contract_transformed_generic-Keeps output e =
      try_fold-Keeps Output _ (indices 0 p.dest_height) output
        (All-indices _ 0 p.dest_height (λ y _ k row l.
          try_fold-Keeps Output _ (indices 0 p.dest_width) row
            (All-indices _ 0 p.dest_width
              (λ x _ j a m. pixel-Keeps y x a (omega (arith, j)) (omega (arith, k)) m))
            l))
        e
