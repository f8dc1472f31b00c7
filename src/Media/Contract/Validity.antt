-- ===== src/Media/Contract/Validity.antt =====
-- What a successful validation of a frame contract says.
use camera_man.Base.{ℕ, ◌+◌, ◌≤◌, ◌<◌, ◌≡◌, ◌↔◌, true, ok, arith, u32_mod}
use camera_man.Media.Colorimetry.{color_contract_schema_version}
use camera_man.Media.Contract.{
  CleanAperture, FrameContract, validate_aperture, validate_contract, is_canonical_bgra,
  canonical_bgra,
}

-- The aperture is not empty and lies within the frame.
pub record Fits (a : CleanAperture) (frame_width frame_height : ℕ) : Type 0 where
  pub wide : 0 < a.width
  pub high : 0 < a.height
  pub right : a.x + a.width ≤ frame_width
  pub bottom : a.y + a.height ≤ frame_height

pub record IsValidContract (c : FrameContract) (width height : ℕ) : Type 0 where
  pub schema : c.colorimetry.schema_version ≡ color_contract_schema_version
  pub depth : c.colorimetry.bit_depth ≡ 8
  pub horizontal : 0 < c.pixel_aspect_ratio.horizontal
  pub vertical : 0 < c.pixel_aspect_ratio.vertical
  pub aperture : Fits c.clean_aperture width height

pub Fits-of_validate : (a : CleanAperture) (w h : ℕ) → validate_aperture a w h ≡ ok tt → Fits a w h
unfolding validate_aperture
Fits-of_validate a w h e = ground arith

pub validate-of_Fits :
    (a : CleanAperture) (w h : ℕ)
    → w < u32_mod
    → h < u32_mod
    → Fits a w h
    → validate_aperture a w h ≡ ok tt
unfolding validate_aperture
validate-of_Fits a w h bw bh f = ground arith

pub IsValidContract-of_validate :
    (c : FrameContract) (w h : ℕ) → validate_contract c w h ≡ ok tt → IsValidContract c w h
unfolding validate_contract
IsValidContract-of_validate c w h e = ground arith

pub validate-of_IsValidContract :
    (c : FrameContract) (w h : ℕ)
    → w < u32_mod
    → h < u32_mod
    → IsValidContract c w h
    → validate_contract c w h ≡ ok tt
unfolding validate_contract
validate-of_IsValidContract c w h bw bh v = ground arith

-- On a frame with 32-bit sides, validation succeeds exactly for the contracts with schema 1, eight
-- bits, a non-zero aspect ratio and a non-empty aperture within the frame.
pub validate_contract_iff :
    (c : FrameContract) (w h : ℕ)
    → w < u32_mod
    → h < u32_mod
    → (validate_contract c w h ≡ ok tt) ↔ IsValidContract c w h
validate_contract_iff c w h bw bh =
    (IsValidContract-of_validate c w h, validate-of_IsValidContract c w h bw bh)

-- The canonical contract is the only one that the transports accept: a contract passes
-- `is_canonical_bgra` for a size exactly if it is `canonical_bgra` of that size.
pub is_canonical_bgra_iff :
    (c : FrameContract) (w h : ℕ) → (is_canonical_bgra c w h ≡ true) ↔ (c ≡ canonical_bgra w h)
unfolding is_canonical_bgra canonical_bgra
is_canonical_bgra_iff c w h = (λ e. ground arith, λ e. ground arith)

-- The canonical contract of a non-empty frame with 32-bit sides is valid for it.
pub canonical_bgra-valid :
    (w h : ℕ)
    → 0 < w
    → 0 < h
    → w < u32_mod
    → h < u32_mod
    → validate_contract (canonical_bgra w h) w h ≡ ok tt
unfolding validate_contract canonical_bgra
canonical_bgra-valid w h pw ph bw bh = ground arith
