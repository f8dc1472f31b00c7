-- ===== src/Render/Sampling/Nearest.antt =====
-- The nearest filter reads inside the buffer of the source.
use camera_man.Base.{
  ℕ, ◌+◌, ◌*◌, ◌/◌, ◌≤◌, ◌<◌, ◌≡◌, refl, subst, min, max, arith, u32_mod, Bool, true, false,
  if◌then◌else◌,
}
use camera_man.Media.Contract.{
  FrameContract, Rotation, square, degrees0, degrees90, degrees180, degrees270, swaps_axes,
}
use camera_man.Media.Contract.Validity.{Fits}
use camera_man.Media.Coordinates.{display_dimensions}
use camera_man.Render.Sampling.{
  nearest_source_coordinate, mirrored_coordinate, transformed_source_offset, rotated_source,
}

-- The pixel that is read lies inside the window of the source, unless the window is empty.
pub nearest_source_coordinate_lt :
    (dest source_size dest_size : ℕ)
    → 0 < source_size
    → nearest_source_coordinate dest source_size dest_size < source_size
unfolding nearest_source_coordinate
nearest_source_coordinate_lt dest source_size dest_size h = omega arith

pub mirrored_coordinate_lt :
    (coordinate size : ℕ) (mirror : Bool)
    → 0 < size
    → mirrored_coordinate coordinate size mirror < size
unfolding mirrored_coordinate
mirrored_coordinate_lt coordinate size true h = omega arith
mirrored_coordinate_lt coordinate size false h = omega arith

abbrev turned : FrameContract → ℕ × ℕ
turned c =
    if swaps_axes c.transform.rotation
    then (c.clean_aperture.height, c.clean_aperture.width)
    else (c.clean_aperture.width, c.clean_aperture.height)

-- With square pixels the display is the aperture, turned.
display_square :
    (c : FrameContract)
    → c.pixel_aspect_ratio ≡ square
    → 0 < c.clean_aperture.width
    → c.clean_aperture.width < u32_mod
    → display_dimensions c ≡ turned c
unfolding display_dimensions
display_square c e p h =
    let same : min
          (max
            (min (min (c.clean_aperture.width * 1) 18446744073709551615 + 1 / 2)
                18446744073709551615
              / 1)
            1)
          4294967295
        ≡ c.clean_aperture.width =
      omega arith in
    rw (e, same) refl

mul_mono : (a b o : ℕ) → a ≤ b → a * o ≤ b * o
mul_mono a b o h = grind arith

pub pixel_in_buffer : (x y w h : ℕ) → x < w → y < h → (y * w + x) * 4 + 4 ≤ w * h * 4
pixel_in_buffer x y w h p q =
    let row : (y + 1) * w ≤ h * w = mul_mono (y + 1) h w (omega arith) in grind arith

rotated_in_frame :
    (r : Rotation) (c : FrameContract) (w h x y : ℕ)
    → c.transform.rotation ≡ r
    → Fits c.clean_aperture w h
    → x < (turned c).0
    → y < (turned c).1
    → (c.clean_aperture.x + (rotated_source c x y).0 < w)
      × (c.clean_aperture.y + (rotated_source c x y).1 < h)
rotated_in_frame degrees0 c w h x y e f p q = ground arith
rotated_in_frame degrees90 c w h x y e f p q = ground arith
rotated_in_frame degrees180 c w h x y e f p q = ground arith
rotated_in_frame degrees270 c w h x y e f p q = ground arith

-- A point of the display of a contract with square pixels that fits the frame is read from four bytes of
-- the frame's buffer, whatever the rotation.
pub transformed_source_offset_in_buffer :
    (c : FrameContract) (w h x y : ℕ)
    → Fits c.clean_aperture w h
    → w < u32_mod
    → c.pixel_aspect_ratio ≡ square
    → x < (display_dimensions c).0
    → y < (display_dimensions c).1
    → transformed_source_offset c w x y + 4 ≤ w * h * 4
unfolding transformed_source_offset
transformed_source_offset_in_buffer c w h x y f bw s p q =
    let display = display_square c s f.wide (omega (arith, f.right)) in
    let inside =
      rotated_in_frame c.transform.rotation c w h x y refl f (subst (λ d. x < d.0) display p)
        (subst (λ d. y < d.1) display q) in
    let last =
      pixel_in_buffer (c.clean_aperture.x + (rotated_source c x y).0)
        (c.clean_aperture.y + (rotated_source c x y).1) w h inside.0 inside.1 in
    omega (arith, last)
