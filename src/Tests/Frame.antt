-- ===== src/Tests/Frame.antt =====
-- Frames and views on concrete inputs.
use camera_man.Base.{ℕ, ◌≡◌, ◌≢◌, ◌⊎◌, refl, ok, none, some, Option, arith}
use camera_man.Media.Formats.{bgra8, bytes_per_pixel}
use camera_man.Media.Contract.{canonical_bgra, validate_contract}
use camera_man.Frame.Limits.{byte_len, checked_frame_byte_len}
use camera_man.Frame.Buffer.{
  Frame, new_checked_with_limits, new_checked_with_contract, bgra_at, try_set_bgra,
}
use camera_man.Frame.Buffer.Valid.{IsValidFrame, new_checked_with_contract-IsValid}
use camera_man.Frame.Buffer.Pixels.{bgra_at-try_set_bgra}
use camera_man.Frame.View.{
  as_view, new_checked_view, view_bgra_at, to_owned_tightly_packed_with_limits,
}
use camera_man.Frame.View.Tight.{to_owned-as_view}
use camera_man.Frame.View.Reads.{to_owned_ok, IsValidView, to_owned-pixels, to_owned_ok}
use camera_man.Tests.Samples.{megabyte, two_pixels, small_frame, red, padded_view}

abbrev absent : Option ℕ
absent = none

small_contract-valid : validate_contract (canonical_bgra 2 1) 2 1 ≡ ok tt
unfolding validate_contract canonical_bgra
small_contract-valid = refl

small_frame-made :
    new_checked_with_contract megabyte 2 1 bgra8 (canonical_bgra 2 1) two_pixels ≡ ok small_frame
unfolding new_checked_with_contract new_checked_with_limits byte_len checked_frame_byte_len
    bytes_per_pixel validate_contract canonical_bgra
small_frame-made = refl

new_checked_with_contract-IsValid_example :
    IsValidFrame small_frame
    × (small_frame.contract ≡ canonical_bgra 2 1)
    × (validate_contract (canonical_bgra 2 1) small_frame.width small_frame.height ≡ ok tt)
new_checked_with_contract-IsValid_example =
    new_checked_with_contract-IsValid megabyte 2 1 bgra8 (canonical_bgra 2 1) two_pixels
      {f = small_frame} small_frame-made

small_frame-IsValid : IsValidFrame small_frame
small_frame-IsValid = record {
  wide = omega arith;
  high = omega arith;
  exact = refl;
  word = omega arith;
}

bgra_at-try_set_bgra_example :
    let g = (try_set_bgra small_frame 1 0 red).0 in
    (bgra_at g 1 0 ≡ some red)
    × ((x' y' : ℕ) → (1 ≢ x') ⊎ (0 ≢ y') → bgra_at g x' y' ≡ bgra_at small_frame x' y')
bgra_at-try_set_bgra_example =
    bgra_at-try_set_bgra small_frame 1 0 red small_frame-IsValid (omega arith) (omega arith)

to_owned-as_view_example :
    to_owned_tightly_packed_with_limits (as_view small_frame) megabyte ≡ ok small_frame
to_owned-as_view_example =
    to_owned-as_view small_frame megabyte small_frame-IsValid small_contract-valid (omega arith)

padded_view-made : new_checked_view 1 2 bgra8 8 padded_view.bytes ≡ ok padded_view
unfolding new_checked_view bytes_per_pixel
padded_view-made = refl

padded_view-IsValid : IsValidView padded_view
padded_view-IsValid = record {
  wide = omega arith;
  high = omega arith;
  active = refl;
  stride = omega arith;
  reach = omega arith;
}

padded_contract-valid : validate_contract (canonical_bgra 1 2) 1 2 ≡ ok tt
unfolding validate_contract canonical_bgra
padded_contract-valid = refl

copied : (f : Frame) × (to_owned_tightly_packed_with_limits padded_view megabyte ≡ ok f)
copied =
    to_owned_ok padded_view megabyte padded_view-IsValid padded_contract-valid (omega arith)
      (omega arith)

to_owned-pixels_example :
    ((x y : ℕ) → bgra_at copied.0 x y ≡ view_bgra_at padded_view x y)
    × (copied.0.contract ≡ canonical_bgra 1 2)
to_owned-pixels_example =
    to_owned-pixels padded_view megabyte {f = copied.0} padded_view-IsValid copied.1
