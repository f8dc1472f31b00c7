-- ===== src/Media/Transform/Compose.antt =====
-- Applying a valid transform to a valid contract always succeeds, and narrows the aperture.
use native.Mathlib.Nat.{mul-le-mul_left}
use camera_man.Base.{ℕ, ◌+◌, ◌*◌, ◌%◌, ◌≤◌, ◌<◌, ◌≡◌, refl, ok, true, arith, u32_mod}
use camera_man.Media.Contract.{CleanAperture, Rotation, FrameContract, degrees0, validate_contract}
use camera_man.Media.Contract.Validity.{
  Fits, IsValidContract, IsValidContract-of_validate, validate-of_IsValidContract,
}
use camera_man.Media.Transform.{
  SourceTransform, CropInsets, validate_transform, is_identity, scale_dimension, add_rotation,
  rotation_quarter_turns, cropped_aperture, composed, apply_to_contract,
}

-- The crop on one axis leaves something.
scaled_lt :
    (size l r : ℕ)
    → 0 < size
    → size < u32_mod
    → l + r < 1000
    → scale_dimension size l + scale_dimension size r < size
unfolding scale_dimension
scaled_lt size l r p b h = omega (arith, product)
  where
    product : size * l + size * r ≤ size * 999
    product = let e : l + r ≤ 999 = omega arith in omega (arith, mul-le-mul_left size e)

-- What the crop of a valid transform is.
record Crops (c : CropInsets) : Type 0 where
  across : c.left_per_mille + c.right_per_mille < 1000
  down : c.top_per_mille + c.bottom_per_mille < 1000

Crops-of_validate : (t : SourceTransform) → validate_transform t ≡ ok tt → Crops t.crop
unfolding validate_transform
Crops-of_validate t h = ground arith

-- The second aperture lies within the first, and is not empty.
pub record Narrows (a b : CleanAperture) : Type 0 where
  pub wide : 0 < b.width
  pub high : 0 < b.height
  pub left : a.x ≤ b.x
  pub top : a.y ≤ b.y
  pub right : b.x + b.width ≤ a.x + a.width
  pub bottom : b.y + b.height ≤ a.y + a.height

cropped-Narrows :
    (c : CropInsets) (a : CleanAperture) (w h : ℕ)
    → w < u32_mod
    → h < u32_mod
    → Crops c
    → Fits a w h
    → Narrows a (cropped_aperture c a)
unfolding cropped_aperture
cropped-Narrows c a w h bw bh k f = ground (
  arith,
  scaled_lt a.width c.left_per_mille c.right_per_mille,
  scaled_lt a.height c.top_per_mille c.bottom_per_mille,
)

composed_valid :
    (t : SourceTransform) (c : FrameContract) (w h : ℕ)
    → w < u32_mod
    → h < u32_mod
    → IsValidContract c w h
    → Narrows c.clean_aperture (cropped_aperture t.crop c.clean_aperture)
    → IsValidContract (composed t c) w h
unfolding composed
composed_valid t c w h bw bh v n = ground arith

-- On a frame with 32-bit sides a valid transform applies to every valid contract: the validation of
-- the result never fails, and the result's aperture is a non-empty part of the original one.
pub apply_to_contract-Narrows :
    (t : SourceTransform) (c : FrameContract) (w h : ℕ)
    → w < u32_mod
    → h < u32_mod
    → validate_transform t ≡ ok tt
    → validate_contract c w h ≡ ok tt
    → (d : FrameContract) × (apply_to_contract t c w h ≡ ok d)
      × (validate_contract d w h ≡ ok tt)
      × Narrows c.clean_aperture d.clean_aperture
unfolding apply_to_contract
apply_to_contract-Narrows t c w h bw bh vt vc =
    let v = IsValidContract-of_validate c w h vc in
    let n = cropped-Narrows t.crop c.clean_aperture w h bw bh (Crops-of_validate t vt) v.aperture in
    let e : validate_contract (composed t c) w h ≡ ok tt =
      validate-of_IsValidContract (composed t c) w h bw bh (composed_valid t c w h bw bh v n) in
    (composed t c, rw (vt, vc, e), e, n)

-- Rotations add as quarter turns modulo four.
pub add_rotation-turns :
    (l r : Rotation)
    → rotation_quarter_turns (add_rotation l r)
      ≡ (rotation_quarter_turns l + rotation_quarter_turns r) % 4
unfolding add_rotation
add_rotation-turns l r = ground arith

identity-valid : (t : SourceTransform) → is_identity t ≡ true → validate_transform t ≡ ok tt
unfolding validate_transform is_identity
identity-valid t i = ground arith

scale_dimension_zero : (n : ℕ) → scale_dimension n 0 ≡ 0
unfolding scale_dimension
scale_dimension_zero n = omega arith

identity-crop :
    (t : SourceTransform) (a : CleanAperture) → is_identity t ≡ true → cropped_aperture t.crop a ≡ a
unfolding cropped_aperture is_identity
identity-crop t a i = ground (arith, scale_dimension_zero a.width, scale_dimension_zero a.height)

add_rotation-degrees0 : (r : Rotation) → add_rotation r degrees0 ≡ r
unfolding add_rotation
add_rotation-degrees0 r = ground arith

identity-composed :
    (t : SourceTransform) (c : FrameContract) → is_identity t ≡ true → composed t c ≡ c
unfolding composed is_identity
identity-composed t c i =
    ground (arith, identity-crop t c.clean_aperture i, add_rotation-degrees0 c.transform.rotation)

-- A transform that counts as the identity leaves every valid contract unchanged.
pub apply_to_contract-identity :
    (t : SourceTransform) (c : FrameContract) (w h : ℕ)
    → is_identity t ≡ true
    → validate_contract c w h ≡ ok tt
    → apply_to_contract t c w h ≡ ok c
unfolding apply_to_contract
apply_to_contract-identity t c w h i v = rw (identity-valid t i, v, identity-composed t c i, v) refl
