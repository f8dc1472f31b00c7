-- ===== src/Spool/Codec.antt =====
-- src/frame_transport.rs, `write_frame` and `parse_frame`: the spool file's contents.
pub mod RoundTrip
pub mod Sound
use camera_man.Base.{
  ℕ, ◌+◌, ◌≡◌, max, Bool, true, false, not, ◌||◌, Option, none, some, Result, ok, err, ◌>>=◌, ◌==◌,
  ◌!=◌, ltb, if◌then◌else◌, List, [], ◌∷◌, ◌++◌, length, take, drop, checked_add64,
}
use camera_man.Error.{CameraManError, unsupported_pixel_format, invalid_media_contract, Checked}
use camera_man.Media.Formats.{
  bgra8, pixel_format_eq, WirePixelFormat, wire_bgra8, wire_pixel_code, wire_pixel_from_code,
}
use camera_man.Media.Colorimetry.{
  Colorimetry, bt709_full_opaque, colorimetry_eq, wire_code, from_wire_code,
}
use camera_man.Media.Contract.{FrameContract, canonical_bgra, is_canonical_bgra}
use camera_man.Frame.Limits.{FrameLimits}
use camera_man.Frame.Buffer.{Frame, new_checked_with_contract}
use camera_man.Shm.Channel.Reader.{TransportFrame}
use camera_man.Spool.Bytes.{to_le_bytes, read_number}

-- "CMAN".
abbrev pub spool_magic : List ℕ
spool_magic = 67 ∷ 77 ∷ 65 ∷ 78 ∷ []

abbrev pub spool_version : ℕ
spool_version = 4

abbrev pub header_len : ℕ
header_len = 76

-- What `write_frame` writes to the temporary file.
unfoldable pub encode_frame : (sequence generation fps monotonic wall : ℕ) → Frame → List ℕ
unfolding wire_pixel_code
encode_frame sequence generation fps monotonic wall frame =
    spool_magic
    ++ (to_le_bytes 4 spool_version
        ++ (to_le_bytes 4 frame.width
            ++ (to_le_bytes 4 frame.height
                ++ (to_le_bytes 4 (wire_pixel_code wire_bgra8)
                    ++ (to_le_bytes 4 fps
                        ++ (to_le_bytes 4 (wire_code frame.contract.colorimetry)
                            ++ (to_le_bytes 8 sequence
                                ++ (to_le_bytes 8 generation
                                    ++ (to_le_bytes 8 monotonic
                                        ++ (to_le_bytes 16 wall
                                            ++ (to_le_bytes 8 (length frame.bytes)
                                                ++ frame.bytes)))))))))))

-- The file after `write_frame`, and its result. `stored` is what the file system's operations
-- (create, write, flush, rename) answer; the file is replaced by the last of them.
unfoldable pub write_frame :
    Option (List ℕ)
    → Checked (Unit {0})
    → (sequence generation fps monotonic wall : ℕ) → Frame
    → Option (List ℕ) × Checked (Unit {0})
write_frame file stored sequence generation fps monotonic wall frame =
    if not (pixel_format_eq frame.pixel_format bgra8)
    then (file, err unsupported_pixel_format)
    else if not (is_canonical_bgra frame.contract frame.width frame.height)
    then (file, err (invalid_media_contract "transport accepts only compositor-normalized frames"))
    else elim stored [
      | err e ↦ (file, err e)
      | ok done ↦ (some (encode_frame sequence generation fps monotonic wall frame), ok done)
    ]

abbrev pub bytes_eq : List ℕ → List ℕ → Bool
bytes_eq [] [] = true
bytes_eq [] (b ∷ bs) = false
bytes_eq (a ∷ as') [] = false
bytes_eq (a ∷ as') (b ∷ bs) = if a == b then bytes_eq as' bs else false

abbrev pub is_bgra8 : Option WirePixelFormat → Bool
is_bgra8 none = false
is_bgra8 (some wire_bgra8) = true

-- `HEADER_LEN.checked_add(data_len).is_none_or(|expected| bytes.len() != expected)`.
abbrev pub wrong_length : Option ℕ → ℕ → Bool
wrong_length none actual = true
wrong_length (some expected) actual = actual != expected

-- The frame of a file whose header is accepted.
unfoldable pub frame_of_file :
    FrameLimits
    → List ℕ
    → Colorimetry
    → (width height fps sequence generation monotonic wall : ℕ) → Checked (Option TransportFrame)
frame_of_file limits bytes colorimetry width height fps sequence generation monotonic wall = do
  let contract = canonical_bgra width height
  frame ←
      new_checked_with_contract limits width height bgra8
        (record contract { colorimetry = colorimetry }) (drop header_len bytes)
  ok (
      some (record {
        frame = frame;
        sequence = sequence;
        generation = generation;
        monotonic_timestamp_nanos = monotonic;
        timestamp_nanos = wall;
        fps = max fps 1;
      }))

-- The tests on a header whose fields were read.
unfoldable pub accept_header :
    FrameLimits
    → List ℕ
    → (version width height pixel_format fps color_contract sequence generation monotonic wall
        data_len : ℕ)
    → Checked (Option TransportFrame)
unfolding wire_pixel_from_code
accept_header limits bytes version width height pixel_format fps color_contract sequence generation
      monotonic wall data_len =
    elim (from_wire_code color_contract) [
      | none ↦ ok none
      | some colorimetry ↦
          if version != spool_version
            || (not (is_bgra8 (wire_pixel_from_code pixel_format))
                || not (colorimetry_eq colorimetry bt709_full_opaque))
          then ok none
          else if wrong_length (checked_add64 header_len data_len) (length bytes)
          then ok none
          else frame_of_file limits bytes colorimetry width height fps sequence generation monotonic
              wall
    ]

unfoldable pub parse_frame : FrameLimits → List ℕ → Checked (Option TransportFrame)
parse_frame limits bytes =
    if ltb (length bytes) header_len || not (bytes_eq (take 4 bytes) spool_magic)
    then ok none
    else do
      version ← read_number 4 bytes 4
      width ← read_number 4 bytes 8
      height ← read_number 4 bytes 12
      pixel_format ← read_number 4 bytes 16
      fps ← read_number 4 bytes 20
      color_contract ← read_number 4 bytes 24
      sequence ← read_number 8 bytes 28
      generation ← read_number 8 bytes 36
      monotonic ← read_number 8 bytes 44
      wall ← read_number 16 bytes 52
      data_len ← read_number 8 bytes 68
      accept_header limits bytes version width height pixel_format fps color_contract sequence
          generation monotonic wall data_len
