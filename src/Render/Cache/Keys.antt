-- ===== src/Render/Cache/Keys.antt =====
-- src/render.rs: the equality that the compiler derives for the keys of transformed frames.
use camera_man.Base.{ℕ, ◌≡◌, refl, arith, Bool, true, false, ◌&&◌, ◌==◌}
use camera_man.Media.Colorimetry.{Colorimetry, colorimetry_eq}
use camera_man.Media.Contract.{
  FrameContract, CleanAperture, PixelAspectRatio, TransformMetadata, Rotation, degrees0, degrees90,
  degrees180, degrees270,
}
use camera_man.Render.Cache.{TransformedSamplingKey, filter_eq}
use camera_man.Render.Cache.Transparent.{filter_eq_exact}

abbrev rotation_eq : Rotation → Rotation → Bool
rotation_eq degrees0 degrees0 = true
rotation_eq degrees90 degrees90 = true
rotation_eq degrees180 degrees180 = true
rotation_eq degrees270 degrees270 = true
rotation_eq _ _ = false

abbrev bool_eq : Bool → Bool → Bool
bool_eq true true = true
bool_eq false false = true
bool_eq _ _ = false

abbrev aspect_eq : PixelAspectRatio → PixelAspectRatio → Bool
aspect_eq a b = a.horizontal == b.horizontal && a.vertical == b.vertical

abbrev aperture_eq : CleanAperture → CleanAperture → Bool
aperture_eq a b = a.x == b.x && (a.y == b.y && (a.width == b.width && a.height == b.height))

abbrev metadata_eq : TransformMetadata → TransformMetadata → Bool
metadata_eq a b =
    rotation_eq a.rotation b.rotation
    && (bool_eq a.mirror_horizontal b.mirror_horizontal
        && bool_eq a.mirror_vertical b.mirror_vertical)

abbrev contract_eq : FrameContract → FrameContract → Bool
contract_eq a b =
    colorimetry_eq a.colorimetry b.colorimetry
    && (aspect_eq a.pixel_aspect_ratio b.pixel_aspect_ratio
        && (aperture_eq a.clean_aperture b.clean_aperture && metadata_eq a.transform b.transform))

unfoldable pub transformed_key_eq : TransformedSamplingKey → TransformedSamplingKey → Bool
transformed_key_eq a b =
    contract_eq a.contract b.contract
    && (a.source_x == b.source_x
        && (a.source_y == b.source_y
            && (a.source_width == b.source_width
                && (a.source_height == b.source_height
                    && (a.dest_width == b.dest_width
                        && (a.dest_height == b.dest_height
                            && filter_eq a.scaling_filter b.scaling_filter))))))

colorimetry_exact : (a b : Colorimetry) → colorimetry_eq a b ≡ true → a ≡ b
unfolding colorimetry_eq
colorimetry_exact a b e = ground arith

aspect_exact : (a b : PixelAspectRatio) → aspect_eq a b ≡ true → a ≡ b
aspect_exact a b e = ground arith

aperture_exact : (a b : CleanAperture) → aperture_eq a b ≡ true → a ≡ b
aperture_exact a b e = ground arith

rotation_exact : (a b : Rotation) → rotation_eq a b ≡ true → a ≡ b
rotation_exact a b e = ground arith

bool_exact : (a b : Bool) → bool_eq a b ≡ true → a ≡ b
bool_exact a b e = ground arith

metadata_exact : (a b : TransformMetadata) → metadata_eq a b ≡ true → a ≡ b
metadata_exact a b e =
    let r = rotation_exact a.rotation b.rotation (ground arith) in
    let h = bool_exact a.mirror_horizontal b.mirror_horizontal (ground arith) in
    let v = bool_exact a.mirror_vertical b.mirror_vertical (ground arith) in
    λ i. record { rotation = r i; mirror_horizontal = h i; mirror_vertical = v i }

contract_exact : (a b : FrameContract) → contract_eq a b ≡ true → a ≡ b
contract_exact a b e =
    let c = colorimetry_exact a.colorimetry b.colorimetry (ground arith) in
    let p = aspect_exact a.pixel_aspect_ratio b.pixel_aspect_ratio (ground arith) in
    let w = aperture_exact a.clean_aperture b.clean_aperture (ground arith) in
    let t = metadata_exact a.transform b.transform (ground arith) in
    λ i. record {
      colorimetry = c i;
      pixel_aspect_ratio = p i;
      clean_aperture = w i;
      transform = t i;
    }

both : (a b : Bool) → (a && b) ≡ true → (a ≡ true) × (b ≡ true)
both true b e = (refl, e)
both false b e = absurd (ground arith)

number_exact : (a b : ℕ) → (a == b) ≡ true → a ≡ b
number_exact a b e = ground arith

-- Two keys that test equal are one key.
pub transformed_key_exact : (a b : TransformedSamplingKey) → transformed_key_eq a b ≡ true → a ≡ b
unfolding transformed_key_eq
transformed_key_exact a b e =
    let (same_contract, e1) = both (contract_eq a.contract b.contract) _ e in
    let (same_x, e2) = both (a.source_x == b.source_x) _ e1 in
    let (same_y, e3) = both (a.source_y == b.source_y) _ e2 in
    let (same_width, e4) = both (a.source_width == b.source_width) _ e3 in
    let (same_height, e5) = both (a.source_height == b.source_height) _ e4 in
    let (same_dest_width, e6) = both (a.dest_width == b.dest_width) _ e5 in
    let (same_dest_height, same_filter) = both (a.dest_height == b.dest_height) _ e6 in
    let c = contract_exact a.contract b.contract same_contract in
    let x = number_exact a.source_x b.source_x same_x in
    let y = number_exact a.source_y b.source_y same_y in
    let w = number_exact a.source_width b.source_width same_width in
    let h = number_exact a.source_height b.source_height same_height in
    let dw = number_exact a.dest_width b.dest_width same_dest_width in
    let dh = number_exact a.dest_height b.dest_height same_dest_height in
    let f = filter_eq_exact a.scaling_filter b.scaling_filter same_filter in
    λ i. record {
      contract = c i;
      source_x = x i;
      source_y = y i;
      source_width = w i;
      source_height = h i;
      dest_width = dw i;
      dest_height = dh i;
      scaling_filter = f i;
    }
