-- ===== src/Media/Coordinates.antt =====
-- src/media_contract.rs, `display_dimensions` and `source_coordinate`: from display space back to
-- the pixels of the source frame. A `u32` product fits `u64`, so it is written plainly; `as u32` is
-- `% u32_mod`. Division by an aspect ratio of zero panics in the source; validation excludes it.
pub mod Bounds
pub mod Bijection
use camera_man.Base.{
  ℕ, ◌+◌, ◌-◌, ◌*◌, ◌/◌, ◌%◌, min, max, Bool, if◌then◌else◌, u32_mod, u32_max, saturating_add64,
  saturating_mul64, saturating_add32, wrapping_sub32,
}
use camera_man.Media.Contract.{
  CleanAperture, Rotation, FrameContract, degrees0, degrees90, degrees180, degrees270, swaps_axes,
}

unfoldable pub display_dimensions : FrameContract → ℕ × ℕ
display_dimensions c =
    let a = c.clean_aperture in
    let par = c.pixel_aspect_ratio in
    let adjusted_width =
      min
        (max
          (saturating_add64 (saturating_mul64 a.width par.horizontal) (par.vertical / 2)
            / par.vertical)
          1)
        u32_max in
    if swaps_axes c.transform.rotation
    then (a.height, adjusted_width)
    else (adjusted_width, a.height)

-- The `match self.transform.rotation` at the end: a point of the unmirrored display.
abbrev rotate_back : Rotation → CleanAperture → ℕ → ℕ → ℕ × ℕ
rotate_back degrees0 a x y = (x, y)
rotate_back degrees90 a x y = (y, a.height - 1 - x)
rotate_back degrees180 a x y = (a.width - 1 - x, a.height - 1 - y)
rotate_back degrees270 a x y = (a.width - 1 - y, x)

abbrev mirrored : Bool → ℕ → ℕ → ℕ
mirrored flag size raw = if flag then size - 1 - raw else raw

-- The display point scaled to the rotated aperture.
abbrev raw_coordinate : ℕ → ℕ → ℕ → ℕ
raw_coordinate position rotated_size display_size =
    position * rotated_size / max display_size 1 % u32_mod

-- The last step: kept within the aperture, and moved to its place in the frame. `width - 1` wraps on
-- an empty aperture, in a release build.
abbrev place : CleanAperture → ℕ × ℕ → ℕ × ℕ
place a (x, y) = (
  saturating_add32 a.x (min x (wrapping_sub32 a.width 1)),
  saturating_add32 a.y (min y (wrapping_sub32 a.height 1)),
)

unfoldable pub source_coordinate : FrameContract → ℕ → ℕ → ℕ × ℕ
source_coordinate c display_x display_y =
    let a = c.clean_aperture in
    let (rotated_width, rotated_height) =
      let sizes : ℕ × ℕ =
        if swaps_axes c.transform.rotation then (a.height, a.width) else (a.width, a.height) in
      sizes in
    let (display_width, display_height) = display_dimensions c in
    let raw_x = raw_coordinate display_x rotated_width display_width in
    let raw_y = raw_coordinate display_y rotated_height display_height in
    let x = mirrored c.transform.mirror_horizontal rotated_width raw_x in
    let y = mirrored c.transform.mirror_vertical rotated_height raw_y in
    place a (rotate_back c.transform.rotation a x y)
