-- ===== src/Frame/View/Reads.antt =====
-- A valid view can be copied, and the copy shows the same pixels, whatever the padding.
use native.Mathlib.Nat.{mul-le-mul_right}
use camera_man.Base.{
  ℕ, zero, suc, ◌+◌, ◌-◌, ◌*◌, ◌≤◌, ◌<◌, ◌≡◌, refl, ap, ◌∙◌, ok, arith, List, length, drop,
  get_elem?, get_elem?-append_left, get_elem?-append_right, length-append, length-take, length-drop,
  u64_mod,
}
use camera_man.Media.Formats.{bgra8, PixelFormat, bytes_per_pixel-four}
use camera_man.Media.Contract.{validate_contract}
use camera_man.Frame.Limits.{FrameLimits, byte_len_ok}
use camera_man.Frame.Buffer.{
  Frame, new_checked_with_limits, set_contract, bgra_at, read_pixel, pixel_offset,
}
use camera_man.Frame.View.{
  FrameView, new_checked_view, row_slice, rows_from, view_bgra_at,
  to_owned_tightly_packed_with_limits,
}

-- The rows lie within the bytes, and each is at least as far apart as it is long.
pub record IsValidView (v : FrameView) : Type 0 where
  pub wide : 0 < v.width
  pub high : 0 < v.height
  pub active : v.active_row_bytes ≡ v.width * 4
  pub stride : v.active_row_bytes ≤ v.row_stride
  pub reach : (v.height - 1) * v.row_stride + v.active_row_bytes ≤ length v.bytes

-- The constructor makes only valid views, of the bytes it was given.
pub new_checked_view-IsValid :
    (w h : ℕ) (p : PixelFormat) (stride : ℕ) (bytes : List ℕ) {v : FrameView}
    → new_checked_view w h p stride bytes ≡ ok v
    → IsValidView v × (v.bytes ≡ bytes) × (v.width ≡ w) × (v.height ≡ h)
unfolding new_checked_view
new_checked_view-IsValid w h bgra8 stride bytes {v} e = ground arith

-- Every row has its full length.
length-row_slice :
    (v : FrameView) (y : ℕ)
    → IsValidView v
    → y < v.height
    → length (row_slice v y) ≡ v.active_row_bytes
length-row_slice v y k h = omega (
  arith,
  length-take v.active_row_bytes (drop (y * v.row_stride) v.bytes),
  length-drop (y * v.row_stride) v.bytes,
  mul-le-mul_right v.row_stride below,
  k.reach,
)
  where
    below : y ≤ v.height - 1
    below = omega arith

get-rows_from :
    (v : FrameView) (count y k i j : ℕ)
    → IsValidView v
    → y + count ≤ v.height
    → k < count
    → i < v.active_row_bytes
    → k * v.active_row_bytes + i ≡ j
    → get_elem? (rows_from v count y) j ≡ get_elem? (row_slice v (y + k)) i
unfolding rows_from
get-rows_from v zero y k i j a b c d e = elim c [ ]
get-rows_from v (suc count) y zero i j a b c d e =
    let e' : j ≡ i = omega arith in
    let z : y + 0 ≡ y = omega arith in
    rw (e', z)
      (get_elem?-append_left (row_slice v y) _ i
        (omega (arith, length-row_slice v y a (omega arith))))
get-rows_from v (suc count) y (suc k) i j a b c d e =
    let m = k * v.active_row_bytes + i in
    let z : (y + 1) + k ≡ y + suc k = omega arith in
    get_elem?-append_right (row_slice v y) _ m j
      (omega (arith, length-row_slice v y a (omega arith)))
    ∙ get-rows_from v count (y + 1) k i m a (omega arith) (omega arith) d refl
    ∙ ap (λ (r : ℕ). get_elem? (row_slice v r) i) z

length-rows_from :
    (v : FrameView) (count y : ℕ)
    → IsValidView v
    → y + count ≤ v.height
    → length (rows_from v count y) ≡ count * v.active_row_bytes
unfolding rows_from
length-rows_from v zero y a b = omega arith
length-rows_from v (suc count) y a b = omega (
  arith,
  length-append (row_slice v y) (rows_from v count (y + 1)),
  length-row_slice v y a (omega arith),
  length-rows_from v count (y + 1) a (omega arith),
)

read_pixel_rows :
    (v : FrameView) (x y : ℕ)
    → IsValidView v
    → x < v.width
    → y < v.height
    → read_pixel (rows_from v v.height 0) (y * (v.width * 4) + x * 4)
      ≡ read_pixel (row_slice v y) (x * 4)
unfolding read_pixel
read_pixel_rows v x y k hx hy =
    rw
      (
        byte 0 (x * 4) o (omega arith) (omega arith) (omega arith),
        byte 1 (x * 4 + 1) (o + 1) (omega arith) refl (omega arith),
        byte 2 (x * 4 + 2) (o + 2) (omega arith) refl (omega arith),
        byte 3 (x * 4 + 3) (o + 3) (omega arith) refl (omega arith),
      )
      refl
  where
    o : ℕ
    o = y * (v.width * 4) + x * 4

    byte :
        (n i j : ℕ)
        → n < 4
        → x * 4 + n ≡ i
        → y * (v.width * 4) + i ≡ j
        → get_elem? (rows_from v v.height 0) j ≡ get_elem? (row_slice v y) i
    byte n i j a b c =
        get-rows_from v v.height 0 y i j k (omega arith) hy (omega (arith, k.active))
          (omega (arith, ap (λ (t : ℕ). y * t) k.active, c))
        ∙ ap (λ (r : ℕ). get_elem? (row_slice v r) i) (let z : 0 + y ≡ y = omega arith in z)

bgra_of_copy :
    (v : FrameView) (f : Frame) (x y : ℕ)
    → IsValidView v
    → f.width ≡ v.width
    → f.height ≡ v.height
    → f.bytes ≡ rows_from v v.height 0
    → bgra_at f x y ≡ view_bgra_at v x y
unfolding bgra_at view_bgra_at pixel_offset
bgra_of_copy v f x y k w h b =
    ground (arith, bytes_per_pixel-four f.pixel_format, read_pixel_rows v x y k)

copy_parts :
    (v : FrameView) (l : FrameLimits) {f : Frame}
    → to_owned_tightly_packed_with_limits v l ≡ ok f
    → (f.width ≡ v.width)
      × (f.height ≡ v.height)
      × (f.bytes ≡ rows_from v v.height 0)
      × (f.contract ≡ v.contract)
unfolding to_owned_tightly_packed_with_limits new_checked_with_limits set_contract
copy_parts v l {f} e = ground arith

-- The tightly packed copy of a valid view shows, at every coordinate, the pixel that the view shows,
-- and nothing outside of it; and it keeps the contract.
pub to_owned-pixels :
    (v : FrameView) (l : FrameLimits) {f : Frame}
    → IsValidView v
    → to_owned_tightly_packed_with_limits v l ≡ ok f
    → ((x y : ℕ) → bgra_at f x y ≡ view_bgra_at v x y) × (f.contract ≡ v.contract)
to_owned-pixels v l {f} k e =
    let (w, h, b, c) = copy_parts v l e in (λ x y. bgra_of_copy v f x y k w h b, c)

length-copy :
    (v : FrameView) → IsValidView v → length (rows_from v v.height 0) ≡ v.width * v.height * 4
length-copy v k =
    omega (arith, length-rows_from v v.height 0 k, ap (λ (t : ℕ). v.height * t) k.active)

-- A valid view with a valid contract whose pixels are within the limits and fit 64 bits can be
-- copied.
pub to_owned_ok :
    (v : FrameView) (l : FrameLimits)
    → IsValidView v
    → validate_contract v.contract v.width v.height ≡ ok tt
    → v.width * v.height * 4 ≤ l.max_frame_bytes
    → v.width * v.height * 4 < u64_mod
    → (f : Frame) × (to_owned_tightly_packed_with_limits v l ≡ ok f)
unfolding to_owned_tightly_packed_with_limits new_checked_with_limits set_contract
to_owned_ok v l k c small word = (
  record {
    width = v.width;
    height = v.height;
    pixel_format = v.pixel_format;
    contract = v.contract;
    bytes = rows_from v v.height 0;
  },
  ground (arith, length-copy v k, byte_len_ok v.width v.height v.pixel_format l k.wide k.high, c),
)
