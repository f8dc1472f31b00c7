-- ===== src/Spool/Codec/Sound.antt =====
-- What `parse_frame` gives for any file at all.
use camera_man.Base.{
  ℕ, ◌+◌, ◌≤◌, ◌<◌, ◌≡◌, ◌⊎◌, inl, inr, refl, sym, ◌∙◌, true, not, ◌||◌, Option, none, some, ok,
  err, arith, ltb, ◌!=◌, checked_add64, List, length, take, drop, Bool-cases, Option-cases,
  Result-cases,
}
use camera_man.Error.{CameraManError, Checked}
use camera_man.Media.Formats.{bgra8, wire_pixel_from_code}
use camera_man.Media.Colorimetry.{Colorimetry, bt709_full_opaque, from_wire_code, colorimetry_eq}
use camera_man.Media.Contract.{canonical_bgra, validate_contract}
use camera_man.Frame.Limits.{FrameLimits}
use camera_man.Frame.Buffer.{new_checked_with_contract}
use camera_man.Frame.Buffer.Valid.{
  IsValidFrame, new_checked_with_contract-IsValid, new_checked_with_contract_bytes,
}
use camera_man.Shm.Channel.Reader.{TransportFrame}
use camera_man.Spool.Bytes.{from_le_bytes, read_exact, read_number}
use camera_man.Spool.Codec.{
  parse_frame, spool_version, is_bgra8, wrong_length, accept_header, frame_of_file, spool_magic,
  header_len, bytes_eq,
}

abbrev pub field : List ℕ → ℕ → ℕ → ℕ
field bytes n offset = from_le_bytes (take n (drop offset bytes))

-- A read within the file succeeds.
read_number_in :
    (n : ℕ) (bytes : List ℕ) (offset : ℕ)
    → offset + n ≤ length bytes
    → read_number n bytes offset ≡ ok (field bytes n offset)
unfolding read_number read_exact
read_number_in n bytes offset h = ground arith

abbrev accepted : FrameLimits → List ℕ → Checked (Option TransportFrame)
accepted limits bytes =
    accept_header limits bytes (field bytes 4 4) (field bytes 4 8) (field bytes 4 12)
      (field bytes 4 16) (field bytes 4 20) (field bytes 4 24) (field bytes 8 28) (field bytes 8 36)
      (field bytes 8 44) (field bytes 16 52) (field bytes 8 68)

-- A file that is too short, or another program's, holds no frame; in any other file no read fails.
parse_frame-cases :
    (limits : FrameLimits) (bytes : List ℕ)
    → (parse_frame limits bytes ≡ ok none)
      ⊎ ((header_len ≤ length bytes)
          × (bytes_eq (take 4 bytes) spool_magic ≡ true)
          × (parse_frame limits bytes ≡ accepted limits bytes))
unfolding parse_frame
parse_frame-cases limits bytes =
    elim (Bool-cases (ltb (length bytes) header_len || not (bytes_eq (take 4 bytes) spool_magic))) [
      | inl e ↦ inl (rw e refl)
      | inr e ↦
          let long : header_len ≤ length bytes = ground arith in
          inr (
            long,
            ground arith,
            rw
                (
                  e,
                  read_number_in 4 bytes 4 (omega arith),
                  read_number_in 4 bytes 8 (omega arith),
                  read_number_in 4 bytes 12 (omega arith),
                  read_number_in 4 bytes 16 (omega arith),
                  read_number_in 4 bytes 20 (omega arith),
                  read_number_in 4 bytes 24 (omega arith),
                  read_number_in 8 bytes 28 (omega arith),
                  read_number_in 8 bytes 36 (omega arith),
                  read_number_in 8 bytes 44 (omega arith),
                  read_number_in 16 bytes 52 (omega arith),
                  read_number_in 8 bytes 68 (omega arith),
                )
                refl,
          )
    ]

-- A frame that came out of a file.
pub record CameFrom (limits : FrameLimits) (bytes : List ℕ) (t : TransportFrame) : Type 0 where
  pub valid : IsValidFrame t.frame
  pub contract : validate_contract t.frame.contract t.frame.width t.frame.height ≡ ok tt
  pub color : t.frame.contract.colorimetry ≡ bt709_full_opaque
  pub pixels : t.frame.bytes ≡ drop header_len bytes
  pub within : length t.frame.bytes ≤ limits.max_frame_bytes
  pub rate : 0 < t.fps

frame_of_file-CameFrom :
    (limits : FrameLimits) (bytes : List ℕ) (c : Colorimetry)
    (w h fps sequence generation monotonic wall : ℕ) {t : TransportFrame}
    → c ≡ bt709_full_opaque
    → frame_of_file limits bytes c w h fps sequence generation monotonic wall ≡ ok (some t)
    → CameFrom limits bytes t
unfolding frame_of_file
frame_of_file-CameFrom limits bytes c w h fps sequence generation monotonic wall {t} color e =
    let d = record (canonical_bgra w h) { colorimetry = c } in
    elim (Result-cases (new_checked_with_contract limits w h bgra8 d (drop header_len bytes))) [
      | inl (f, k) ↦ ground (
        arith,
        color,
        new_checked_with_contract-IsValid limits w h bgra8 d (drop header_len bytes) k,
        new_checked_with_contract_bytes limits w h bgra8 d (drop header_len bytes) k,
      )
      | inr (x, k) ↦ ground arith
    ]

only_bt709 : (c : Colorimetry) → colorimetry_eq c bt709_full_opaque ≡ true → c ≡ bt709_full_opaque
unfolding colorimetry_eq
only_bt709 c e = ground arith

-- A header that passes the tests.
record Passes (version len actual : ℕ) : Type 0 where
  current : version ≡ spool_version
  complete : actual ≡ header_len + len

accept_header-cases :
    (limits : FrameLimits) (bytes : List ℕ)
    (version w h pixel_format fps color_contract sequence generation monotonic wall len : ℕ)
    → let accepted =
        accept_header limits bytes version w h pixel_format fps color_contract sequence generation
          monotonic wall len in
      (accepted ≡ ok none)
      ⊎ (Passes version len (length bytes)
          × (accepted
              ≡ frame_of_file limits bytes bt709_full_opaque w h fps sequence generation monotonic
                  wall))
unfolding accept_header
accept_header-cases limits bytes version w h pixel_format fps color_contract sequence generation
      monotonic wall len =
    elim (Option-cases (from_wire_code color_contract)) [
      | inl n ↦ inl (rw (accept_header, n) refl)
      | inr (c, k) ↦
          let foreign =
            version != spool_version
            || (not (is_bgra8 (wire_pixel_from_code pixel_format))
                || not (colorimetry_eq c bt709_full_opaque)) in
          elim (Bool-cases foreign) [
            | inl f ↦ inl (rw (accept_header, k, f) refl)
            | inr f ↦
                elim (Bool-cases (wrong_length (checked_add64 header_len len) (length bytes))) [
                  | inl g ↦ inl (rw (accept_header, k, f, g) refl)
                  | inr g ↦
                      inr (
                        ground arith,
                        rw (accept_header, k, f, g, only_bt709 c (ground arith)) refl,
                      )
                ]
          ]
    ]

-- The frame of a file, from the fields that stand in it.
abbrev framed : FrameLimits → List ℕ → Checked (Option TransportFrame)
framed limits bytes =
    frame_of_file limits bytes bt709_full_opaque (field bytes 4 8) (field bytes 4 12)
      (field bytes 4 20) (field bytes 8 28) (field bytes 8 36) (field bytes 8 44)
      (field bytes 16 52)

-- A file of this protocol that is complete.
pub record IsSpool (bytes : List ℕ) : Type 0 where
  pub long : header_len ≤ length bytes
  pub magic : bytes_eq (take 4 bytes) spool_magic ≡ true
  pub version : field bytes 4 4 ≡ spool_version
  pub complete : length bytes ≡ header_len + field bytes 8 68

parse_frame-IsSpool :
    (limits : FrameLimits) (bytes : List ℕ)
    → (parse_frame limits bytes ≡ ok none)
      ⊎ (IsSpool bytes × (parse_frame limits bytes ≡ framed limits bytes))
parse_frame-IsSpool limits bytes = elim (parse_frame-cases limits bytes) [
  | inl n ↦ inl n
  | inr (long, magic, k) ↦
      elim (accept_header-cases limits bytes (field bytes 4 4) (field bytes 4 8) (field bytes 4 12)
        (field bytes 4 16) (field bytes 4 20) (field bytes 4 24) (field bytes 8 28)
        (field bytes 8 36) (field bytes 8 44) (field bytes 16 52) (field bytes 8 68)) [
          | inl n ↦ inl (k ∙ n)
          | inr (p, f) ↦ inr (
            record { long = long; magic = magic; version = p.current; complete = p.complete },
            k ∙ f,
          )
        ]
]

-- Whatever the file holds: a frame that is read from it is valid, of the one supported colorimetry,
-- and within the memory limit, and its pixels are what follows the header of a complete file of this
-- protocol.
pub parse_frame-CameFrom :
    (limits : FrameLimits) (bytes : List ℕ) {t : TransportFrame}
    → parse_frame limits bytes ≡ ok (some t)
    → IsSpool bytes × CameFrom limits bytes t
parse_frame-CameFrom limits bytes {t} e = elim (parse_frame-IsSpool limits bytes) [
  | inl n ↦ absurd (cc (e, n))
  | inr (p, k) ↦ (
    p,
    frame_of_file-CameFrom limits bytes bt709_full_opaque (field bytes 4 8) (field bytes 4 12)
        (field bytes 4 20) (field bytes 8 28) (field bytes 8 36) (field bytes 8 44)
        (field bytes 16 52) {t = t} refl (sym k ∙ e),
  )
]

-- An error comes only from a complete file of this protocol: any other holds no frame.
pub parse_frame_error :
    (limits : FrameLimits) (bytes : List ℕ) {e : CameraManError}
    → parse_frame limits bytes ≡ err e
    → IsSpool bytes
parse_frame_error limits bytes {e} h = elim (parse_frame-IsSpool limits bytes) [
  | inl n ↦ absurd (cc (h, n))
  | inr (p, k) ↦ p
]
