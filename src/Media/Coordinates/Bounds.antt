-- ===== src/Media/Coordinates/Bounds.antt =====
-- Every display point is read from inside the frame.
use camera_man.Base.{ℕ, ◌+◌, ◌≤◌, ◌<◌, ◌≡◌, ok, arith, u32_mod}
use camera_man.Media.Contract.{CleanAperture, FrameContract, validate_contract}
use camera_man.Media.Contract.Validity.{Fits, IsValidContract-of_validate}
use camera_man.Media.Coordinates.{place, source_coordinate, display_dimensions}

-- A point of the frame that lies within the aperture.
pub record Within (a : CleanAperture) (p : ℕ × ℕ) : Type 0 where
  pub left : a.x ≤ p.0
  pub right : p.0 < a.x + a.width
  pub top : a.y ≤ p.1
  pub bottom : p.1 < a.y + a.height

place-Within :
    (a : CleanAperture) (p : ℕ × ℕ) (w h : ℕ)
    → w < u32_mod
    → h < u32_mod
    → Fits a w h
    → Within a (place a p)
place-Within a (x, y) w h bw bh f = ground arith

-- A contract that is valid for a frame with 32-bit sides maps every display point, also one
-- beyond the display, to a pixel of its clean aperture.
pub source_coordinate-Within :
    (c : FrameContract) (w h display_x display_y : ℕ)
    → w < u32_mod
    → h < u32_mod
    → validate_contract c w h ≡ ok tt
    → Within c.clean_aperture (source_coordinate c display_x display_y)
unfolding source_coordinate
source_coordinate-Within c w h display_x display_y bw bh e =
    place-Within c.clean_aperture _ w h bw bh (IsValidContract-of_validate c w h e).aperture

-- So every display point is read from a pixel of the frame.
pub source_coordinate_in_frame :
    (c : FrameContract) (w h display_x display_y : ℕ)
    → w < u32_mod
    → h < u32_mod
    → validate_contract c w h ≡ ok tt
    → ((source_coordinate c display_x display_y).0 < w)
      × ((source_coordinate c display_x display_y).1 < h)
source_coordinate_in_frame c w h dx dy bw bh e = ground (
  arith,
  source_coordinate-Within c w h dx dy bw bh e,
  (IsValidContract-of_validate c w h e).aperture,
)

-- The display of a valid contract is never empty.
pub display_dimensions_positive :
    (c : FrameContract) (w h : ℕ)
    → validate_contract c w h ≡ ok tt
    → (0 < (display_dimensions c).0) × (0 < (display_dimensions c).1)
unfolding display_dimensions
display_dimensions_positive c w h e = ground (arith, (IsValidContract-of_validate c w h e).aperture)
