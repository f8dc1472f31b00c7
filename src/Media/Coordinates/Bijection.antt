-- ===== src/Media/Coordinates/Bijection.antt =====
-- With square pixels the display shows each pixel of the clean aperture exactly once: the map from
-- display points to source pixels has an inverse, for every rotation and mirroring.
use native.Mathlib.Nat.{mul-div_cancel}
use camera_man.Base.{ℕ, ◌-◌, ◌<◌, ◌≡◌, ap, ◌∙◌, max, if◌then◌else◌, ok, arith, u32_mod}
use camera_man.Media.Contract.{
  CleanAperture, Rotation, TransformMetadata, PixelAspectRatio, FrameContract, degrees0, degrees90,
  degrees180, degrees270, swaps_axes, square, validate_contract,
}
use camera_man.Media.Contract.Validity.{Fits, IsValidContract-of_validate}
use camera_man.Media.Coordinates.{
  display_dimensions, source_coordinate, raw_coordinate, mirrored, rotate_back, place,
}
use camera_man.Media.Coordinates.Bounds.{Within}

-- The sides of the aperture as they are displayed.
abbrev shown_width : Rotation → CleanAperture → ℕ
shown_width r a = if swaps_axes r then a.height else a.width

abbrev shown_height : Rotation → CleanAperture → ℕ
shown_height r a = if swaps_axes r then a.width else a.height

abbrev rotate_forth : Rotation → CleanAperture → ℕ → ℕ → ℕ × ℕ
rotate_forth degrees0 a x y = (x, y)
rotate_forth degrees90 a x y = (a.height - 1 - y, x)
rotate_forth degrees180 a x y = (a.width - 1 - x, a.height - 1 - y)
rotate_forth degrees270 a x y = (y, a.width - 1 - x)

-- Where a pixel of the frame is displayed: the specification of the inverse.
abbrev pub display_coordinate : FrameContract → ℕ × ℕ → ℕ × ℕ
display_coordinate c (x, y) =
    let a = c.clean_aperture in
    let t = c.transform in
    let (u, v) = rotate_forth t.rotation a (x - a.x) (y - a.y) in
    (
      mirrored t.mirror_horizontal (shown_width t.rotation a) u,
      mirrored t.mirror_vertical (shown_height t.rotation a) v,
    )

raw_coordinate_self : (p n : ℕ) → p < n → n < u32_mod → raw_coordinate p n n ≡ p
raw_coordinate_self p n h b =
    ground (arith, mul-div_cancel p {n = n} (omega arith), (let e : max n 1 ≡ n = omega arith in e))

-- The display is as large as the rotated aperture.
display_dimensions-square :
    (c : FrameContract) (w h : ℕ)
    → w < u32_mod
    → h < u32_mod
    → c.pixel_aspect_ratio ≡ square
    → Fits c.clean_aperture w h
    → display_dimensions c ≡ (
      shown_width c.transform.rotation c.clean_aperture,
      shown_height c.transform.rotation c.clean_aperture,
    )
unfolding display_dimensions
display_dimensions-square c w h bw bh s f = ground (
  arith,
  ap (λ (p : PixelAspectRatio). p.horizontal) s,
  ap (λ (p : PixelAspectRatio). p.vertical) s,
)

-- The map without its scaling.
abbrev unscaled : TransformMetadata → CleanAperture → ℕ → ℕ → ℕ × ℕ
unscaled t a dx dy = place a (
    rotate_back t.rotation a (mirrored t.mirror_horizontal (shown_width t.rotation a) dx)
      (mirrored t.mirror_vertical (shown_height t.rotation a) dy))

module _ (c : FrameContract) (w h : ℕ) (bw : w < u32_mod) (bh : h < u32_mod)
    (s : c.pixel_aspect_ratio ≡ square) (f : Fits c.clean_aperture w h) where
  open c use {clean_aperture as a, transform as t}

  source_coordinate-unscaled :
      (dx dy : ℕ)
      → dx < shown_width t.rotation a
      → dy < shown_height t.rotation a
      → source_coordinate c dx dy ≡ unscaled t a dx dy
  unfolding source_coordinate
  source_coordinate-unscaled dx dy hx hy = ground (
    arith,
    display_dimensions-square c w h bw bh s f,
    raw_coordinate_self dx (shown_width t.rotation a) hx,
    raw_coordinate_self dy (shown_height t.rotation a) hy,
  )

  unscaled_display :
      (dx dy : ℕ)
      → dx < shown_width t.rotation a
      → dy < shown_height t.rotation a
      → display_coordinate c (unscaled t a dx dy) ≡ (dx, dy)
  unscaled_display dx dy hx hy = ground arith

  display_unscaled :
      (x y : ℕ)
      → Within a (x, y)
      → let (dx, dy) = display_coordinate c (x, y) in
        (dx < shown_width t.rotation a)
        × (dy < shown_height t.rotation a)
        × (unscaled t a dx dy ≡ (x, y))
  display_unscaled x y v = ground arith

-- On a frame with 32-bit sides and for a valid contract with square pixels: each displayed point
-- has its own source pixel, since `display_coordinate` leads back to the point.
pub display_coordinate-source_coordinate :
    (c : FrameContract) (w h dx dy : ℕ)
    → w < u32_mod
    → h < u32_mod
    → c.pixel_aspect_ratio ≡ square
    → validate_contract c w h ≡ ok tt
    → dx < (display_dimensions c).0
    → dy < (display_dimensions c).1
    → display_coordinate c (source_coordinate c dx dy) ≡ (dx, dy)
display_coordinate-source_coordinate c w h dx dy bw bh s e hx hy =
    let f = (IsValidContract-of_validate c w h e).aperture in
    let d = display_dimensions-square c w h bw bh s f in
    let hx' : dx < shown_width c.transform.rotation c.clean_aperture = rw d at hx in
    let hy' : dy < shown_height c.transform.rotation c.clean_aperture = rw d at hy in
    rw (source_coordinate-unscaled c w h bw bh s f dx dy hx' hy')
      (unscaled_display c w h bw bh s f dx dy hx' hy')

-- Under the same conditions every pixel of the clean aperture is displayed: it is the source of the
-- point `display_coordinate` gives, which lies within the display.
pub source_coordinate-display_coordinate :
    (c : FrameContract) (w h x y : ℕ)
    → w < u32_mod
    → h < u32_mod
    → c.pixel_aspect_ratio ≡ square
    → validate_contract c w h ≡ ok tt
    → Within c.clean_aperture (x, y)
    → let (dx, dy) = display_coordinate c (x, y) in
      (dx < (display_dimensions c).0)
      × (dy < (display_dimensions c).1)
      × (source_coordinate c dx dy ≡ (x, y))
source_coordinate-display_coordinate c w h x y bw bh s e v =
    let f = (IsValidContract-of_validate c w h e).aperture in
    let d = display_dimensions-square c w h bw bh s f in
    let (dx, dy) = display_coordinate c (x, y) in
    let (hx, hy, back) = display_unscaled c w h bw bh s f x y v in
    (rw d hx, rw d hy, source_coordinate-unscaled c w h bw bh s f dx dy hx hy ∙ back)
