-- ===== src/Frame/Buffer/Valid.antt =====
-- The invariant of a frame, and the constructors and setters that keep it.
use camera_man.Base.{
  ℕ, zero, suc, ◌*◌, ◌≤◌, ◌<◌, ◌≡◌, refl, ok, arith, length, Result-cases, inl, inr, u64_mod, List,
}
use camera_man.Media.Formats.{PixelFormat, bgra8}
use camera_man.Media.Contract.{FrameContract, validate_contract}
use camera_man.Frame.Limits.{FrameLimits, byte_len, byte_len_of_ok}
use camera_man.Frame.Buffer.{
  Frame, Bgra, new_checked_with_limits, new_checked_with_contract, solid_bgra_with_limits,
  repeat_pixel,
}

-- The frame is not empty, and has exactly the bytes of its pixels.
pub record IsValidFrame (f : Frame) : Type 0 where
  pub wide : 0 < f.width
  pub high : 0 < f.height
  pub exact : length f.bytes ≡ f.width * f.height * 4
  pub word : f.width * f.height * 4 < u64_mod

-- A frame is only made valid, within the memory limit, with the bytes it was given.
pub new_checked-IsValid :
    (w h : ℕ) (p : PixelFormat) (bytes : List ℕ) (l : FrameLimits) {f : Frame}
    → new_checked_with_limits w h p bytes l ≡ ok f
    → IsValidFrame f
      × (f.width ≡ w)
      × (f.height ≡ h)
      × (f.bytes ≡ bytes)
      × (length bytes ≤ l.max_frame_bytes)
unfolding new_checked_with_limits
new_checked-IsValid w h p bytes l {f} e = elim (Result-cases (byte_len w h p l)) [
  | inl (n, k) ↦ ground (arith, byte_len_of_ok w h p l k)
  | inr (x, k) ↦ ground arith
]

-- A frame that is made with a contract is valid, has that contract, and the contract is valid
-- for it.
pub new_checked_with_contract-IsValid :
    (l : FrameLimits) (w h : ℕ) (p : PixelFormat) (c : FrameContract) (bytes : List ℕ) {f : Frame}
    → new_checked_with_contract l w h p c bytes ≡ ok f
    → IsValidFrame f × (f.contract ≡ c) × (validate_contract c f.width f.height ≡ ok tt)
unfolding new_checked_with_contract
new_checked_with_contract-IsValid l w h p c bytes {f} e =
    elim (Result-cases (new_checked_with_limits w h p bytes l)) [
      | inl (g, k) ↦ ground (arith, new_checked-IsValid w h p bytes l k)
      | inr (x, k) ↦ ground arith
    ]

-- Its bytes are those it was given, and within the limit.
pub new_checked_with_contract_bytes :
    (l : FrameLimits) (w h : ℕ) (p : PixelFormat) (c : FrameContract) (bytes : List ℕ) {f : Frame}
    → new_checked_with_contract l w h p c bytes ≡ ok f
    → (f.bytes ≡ bytes) × (length bytes ≤ l.max_frame_bytes)
unfolding new_checked_with_contract
new_checked_with_contract_bytes l w h p c bytes {f} e =
    elim (Result-cases (new_checked_with_limits w h p bytes l)) [
      | inl (g, k) ↦ ground (arith, new_checked-IsValid w h p bytes l k)
      | inr (x, k) ↦ ground arith
    ]

length-repeat_pixel : (n : ℕ) (p : Bgra) → length (repeat_pixel n p) ≡ n * 4
unfolding repeat_pixel
length-repeat_pixel zero p = refl
length-repeat_pixel (suc n) p = omega (arith, length-repeat_pixel n p)

-- So is a frame of one colour.
pub solid_bgra-IsValid :
    (w h : ℕ) (p : Bgra) (l : FrameLimits) {f : Frame}
    → solid_bgra_with_limits w h p l ≡ ok f
    → IsValidFrame f
unfolding solid_bgra_with_limits
solid_bgra-IsValid w h p l {f} e = elim (Result-cases (byte_len w h bgra8 l)) [
  | inl (n, k) ↦ ground (arith, byte_len_of_ok w h bgra8 l k, length-repeat_pixel (w * h) p)
  | inr (x, k) ↦ ground arith
]
