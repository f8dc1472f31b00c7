-- ===== src/Frame/Buffer/Pixels.antt =====
-- Reading and writing single pixels of a valid frame.
use native.Mathlib.Nat.{mul-le-mul_right}
use camera_man.Base.{
  ℕ, ◌+◌, ◌-◌, ◌*◌, ◌≤◌, ◌<◌, ◌≡◌, ◌≢◌, ◌⊎◌, inl, inr, refl, sym, ◌∙◌, none, some, ok, List, ◌++◌,
  length, get_elem?, take, drop, arith, length-append, length-take, length-drop,
  get_elem?-append_left, get_elem?-append_right, get_elem?-take, get_elem?-drop, get_elem?_lt,
  lt_cases,
}
use camera_man.Media.Formats.{bytes_per_pixel}
use camera_man.Frame.Buffer.{
  Frame, Bgra, pixel_bytes, pixel_offset, read_pixel, write_pixel, bgra_at, try_set_bgra,
}
use camera_man.Frame.Buffer.Valid.{IsValidFrame}

-- The pixels of a row-major image do not run into one another.
index_in_range : (r c w h : ℕ) → r < h → c < w → r * (w * 4) + c * 4 + 4 ≤ w * h * 4
index_in_range r c w h p q = omega (arith, mul-le-mul_right w p)

get-write_below :
    (xs : List ℕ) (o : ℕ) (p : Bgra) (i : ℕ)
    → o + 4 ≤ length xs
    → i < o
    → get_elem? (write_pixel xs o p) i ≡ get_elem? xs i
unfolding write_pixel
get-write_below xs o p i h k =
    get_elem?-append_left (take o xs) _ i (omega (arith, length-take o xs))
    ∙ get_elem?-take o xs i k

get-write_at :
    (xs : List ℕ) (o : ℕ) (p : Bgra) (i j : ℕ)
    → o + 4 ≤ length xs
    → i < 4
    → o + i ≡ j
    → get_elem? (write_pixel xs o p) j ≡ get_elem? (pixel_bytes p) i
unfolding write_pixel
get-write_at xs o p i j h k e =
    get_elem?-append_right (take o xs) _ i j (omega (arith, length-take o xs))
    ∙ get_elem?-append_left (pixel_bytes p) _ i k

get-write_above :
    (xs : List ℕ) (o : ℕ) (p : Bgra) (j : ℕ)
    → o + 4 ≤ length xs
    → o + 4 ≤ j
    → get_elem? (write_pixel xs o p) j ≡ get_elem? xs j
unfolding write_pixel
get-write_above xs o p j h k =
    get_elem?-append_right (take o xs) _ (j - o) j (omega (arith, length-take o xs))
    ∙ get_elem?-append_right (pixel_bytes p) _ (j - o - 4) (j - o) (omega arith)
    ∙ get_elem?-drop (o + 4) xs (j - o - 4) j (omega arith)

length-write_pixel :
    (xs : List ℕ) (o : ℕ) (p : Bgra) → o + 4 ≤ length xs → length (write_pixel xs o p) ≡ length xs
unfolding write_pixel
length-write_pixel xs o p h = omega (
  arith,
  length-append (take o xs) (pixel_bytes p ++ drop (o + 4) xs),
  length-append (pixel_bytes p) (drop (o + 4) xs),
  length-take o xs,
  length-drop (o + 4) xs,
)

read-write_self :
    (xs : List ℕ) (o : ℕ) (p : Bgra)
    → o + 4 ≤ length xs
    → read_pixel (write_pixel xs o p) o ≡ some p
unfolding read_pixel
read-write_self xs o p h =
    rw
      (
        get-write_at xs o p 0 o h (omega arith) (omega arith),
        get-write_at xs o p 1 (o + 1) h (omega arith) refl,
        get-write_at xs o p 2 (o + 2) h (omega arith) refl,
        get-write_at xs o p 3 (o + 3) h (omega arith) refl,
      )
      refl

read-write_other :
    (xs : List ℕ) (o o' : ℕ) (p : Bgra)
    → o + 4 ≤ length xs
    → (o' + 4 ≤ o) ⊎ (o + 4 ≤ o')
    → read_pixel (write_pixel xs o p) o' ≡ read_pixel xs o'
unfolding read_pixel
read-write_other xs o o' p h (inl b) =
    rw
      (
        get-write_below xs o p o' h (omega arith),
        get-write_below xs o p (o' + 1) h (omega arith),
        get-write_below xs o p (o' + 2) h (omega arith),
        get-write_below xs o p (o' + 3) h (omega arith),
      )
      refl
read-write_other xs o o' p h (inr a) =
    rw
      (
        get-write_above xs o p o' h (omega arith),
        get-write_above xs o p (o' + 1) h (omega arith),
        get-write_above xs o p (o' + 2) h (omega arith),
        get-write_above xs o p (o' + 3) h (omega arith),
      )
      refl

-- The offset of a pixel in range.
offset : Frame → ℕ → ℕ → ℕ
offset f x y = y * (f.width * 4) + x * 4

pixel_offset_in :
    (f : Frame) (x y : ℕ) → x < f.width → y < f.height → pixel_offset f x y ≡ some (offset f x y)
unfolding pixel_offset offset bytes_per_pixel
pixel_offset_in f x y hx hy = ground arith

rows_apart : (w x y x' y' : ℕ) → x < w → y < y' → y * (w * 4) + x * 4 + 4 ≤ y' * (w * 4) + x' * 4
rows_apart w x y x' y' hx h = omega (arith, mul-le-mul_right w h)

offsets_apart :
    (w x y x' y' : ℕ)
    → x < w
    → x' < w
    → (x ≢ x') ⊎ (y ≢ y')
    → (y' * (w * 4) + x' * 4 + 4 ≤ y * (w * 4) + x * 4)
      ⊎ (y * (w * 4) + x * 4 + 4 ≤ y' * (w * 4) + x' * 4)
offsets_apart w x y x' y' hx hx' d = elim (lt_cases y y') [
  | inl lower ↦ inr (rows_apart w x y x' y' hx lower)
  | inr (inl upper) ↦ inl (rows_apart w x' y' x y hx' upper)
  | inr (inr level) ↦ same_row level (lt_cases x x')
]
  where
    same_row :
        y ≡ y'
        → (x < x') ⊎ ((x' < x) ⊎ (x ≡ x'))
        → (y' * (w * 4) + x' * 4 + 4 ≤ y * (w * 4) + x * 4)
          ⊎ (y * (w * 4) + x * 4 + 4 ≤ y' * (w * 4) + x' * 4)
    same_row e (inl l) = inr (rw e (omega arith))
    same_row e (inr (inl l)) = inl (rw e (omega arith))
    same_row e (inr (inr l)) = absurd (grind arith)

offset_fits :
    (f : Frame) (x y : ℕ)
    → IsValidFrame f
    → x < f.width
    → y < f.height
    → offset f x y + 4 ≤ length f.bytes
unfolding offset
offset_fits f x y v hx hy = omega (arith, index_in_range y x f.width f.height hy hx, v.exact)

read_pixel_in : (xs : List ℕ) (o : ℕ) → o + 4 ≤ length xs → (p : Bgra) × (read_pixel xs o ≡ some p)
unfolding read_pixel
read_pixel_in xs o h =
    let (b, eb) = get_elem?_lt xs o (omega arith) in
    let (g, eg) = get_elem?_lt xs (o + 1) (omega arith) in
    let (r, er) = get_elem?_lt xs (o + 2) (omega arith) in
    let (a, ea) = get_elem?_lt xs (o + 3) (omega arith) in
    (record { blue = b; green = g; red = r; alpha = a }, rw (eb, eg, er, ea) refl)

pixel_offset_out :
    (f : Frame) (x y : ℕ) → (f.width ≤ x) ⊎ (f.height ≤ y) → pixel_offset f x y ≡ none
unfolding pixel_offset
pixel_offset_out f x y out = ground arith

bgra_in :
    (f : Frame) (x y : ℕ)
    → x < f.width
    → y < f.height
    → bgra_at f x y ≡ read_pixel f.bytes (offset f x y)
unfolding bgra_at
bgra_in f x y hx hy = rw (pixel_offset_in f x y hx hy, bgra_at) refl

bgra_out : (f : Frame) (x y : ℕ) → (f.width ≤ x) ⊎ (f.height ≤ y) → bgra_at f x y ≡ none
unfolding bgra_at
bgra_out f x y out = rw (pixel_offset_out f x y out, bgra_at) refl

-- Reading a pixel of a valid frame never runs past its bytes: there is a pixel at every coordinate
-- within the dimensions, and none outside.
pub bgra_at_total :
    (f : Frame) (x y : ℕ)
    → IsValidFrame f
    → (x < f.width → y < f.height → (p : Bgra) × (bgra_at f x y ≡ some p))
      × ((f.width ≤ x) ⊎ (f.height ≤ y) → bgra_at f x y ≡ none)
bgra_at_total f x y v = (
  λ hx hy.
      let (p, e) = read_pixel_in f.bytes (offset f x y) (offset_fits f x y v hx hy) in
      (p, bgra_in f x y hx hy ∙ e),
  bgra_out f x y,
)

in_range_cases :
    (f : Frame) (x y : ℕ) → ((x < f.width) × (y < f.height)) ⊎ ((f.width ≤ x) ⊎ (f.height ≤ y))
in_range_cases f x y = ground arith

abbrev written : Frame → ℕ → ℕ → Bgra → Frame
written f x y p = record f { bytes = write_pixel f.bytes (offset f x y) p }

set_in :
    (f : Frame) (x y : ℕ) (p : Bgra)
    → x < f.width
    → y < f.height
    → try_set_bgra f x y p ≡ (written f x y p, ok tt)
unfolding try_set_bgra
set_in f x y p hx hy = rw (pixel_offset_in f x y hx hy, try_set_bgra) refl

-- Writing a pixel keeps the frame valid, whether or not the coordinates are in range.
pub try_set_bgra-IsValid :
    (f : Frame) (x y : ℕ) (p : Bgra) → IsValidFrame f → IsValidFrame (try_set_bgra f x y p).0
unfolding try_set_bgra
try_set_bgra-IsValid f x y p v = elim (in_range_cases f x y) [
  | inl (hx, hy) ↦ rw (set_in f x y p hx hy) (record {
    wide = v.wide;
    high = v.high;
    exact = length-write_pixel f.bytes (offset f x y) p (offset_fits f x y v hx hy) ∙ v.exact;
    word = v.word;
  })
  | inr out ↦ rw (pixel_offset_out f x y out, try_set_bgra) v
]

-- Within a valid frame, a pixel that was written is read back, and no other pixel changes.
pub bgra_at-try_set_bgra :
    (f : Frame) (x y : ℕ) (p : Bgra)
    → IsValidFrame f
    → x < f.width
    → y < f.height
    → let g = (try_set_bgra f x y p).0 in
      (bgra_at g x y ≡ some p)
      × ((x' y' : ℕ) → (x ≢ x') ⊎ (y ≢ y') → bgra_at g x' y' ≡ bgra_at f x' y')
unfolding offset
bgra_at-try_set_bgra f x y p v hx hy = rw (set_in f x y p hx hy) (
  bgra_in (written f x y p) x y hx hy ∙ read-write_self f.bytes (offset f x y) p fits,
  λ x' y' d. elim (in_range_cases f x' y') [
    | inl (hx', hy') ↦
        bgra_in (written f x y p) x' y' hx' hy'
        ∙ read-write_other f.bytes (offset f x y) (offset f x' y') p fits
            (offsets_apart f.width x y x' y' hx hx' d)
        ∙ sym (bgra_in f x' y' hx' hy')
    | inr out ↦ bgra_out (written f x y p) x' y' out ∙ sym (bgra_out f x' y' out)
  ],
)
  where
    fits : offset f x y + 4 ≤ length f.bytes
    fits = offset_fits f x y v hx hy
