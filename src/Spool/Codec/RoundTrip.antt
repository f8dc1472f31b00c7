-- ===== src/Spool/Codec/RoundTrip.antt =====
-- A frame that was written to the spool file is read back.
use camera_man.Base.{
  ℕ, ◌+◌, ◌<◌, ◌≡◌, refl, ap, ◌∙◌, max, true, false, some, ok, arith, ltb, List, length, take, drop,
  u32_mod, u64_mod, u128_mod,
}
use camera_man.Media.Formats.{bgra8, wire_bgra8, wire_pixel_code, wire_pixel_from_code}
use camera_man.Media.Colorimetry.{
  Colorimetry, bt709_full_opaque, wire_code, from_wire_code, colorimetry_eq,
}
use camera_man.Media.Contract.{canonical_bgra}
use camera_man.Frame.Limits.{FrameLimits, byte_len_ok}
use camera_man.Frame.Buffer.{Frame, new_checked_with_limits, new_checked_with_contract}
use camera_man.Shm.Channel.Reader.{TransportFrame}
use camera_man.Shm.Channel.Publish.{
  IsSendable, bt709_wire, canonical_color, canonical_valid, one_format, same_contract,
}
use camera_man.Spool.Bytes.{to_le_bytes, read_number, read_number_at}
use camera_man.Spool.Codec.{
  encode_frame, parse_frame, accept_header, frame_of_file, spool_magic, spool_version, header_len,
  bytes_eq,
}

-- The numbers of a header fit their fields.
pub record FitsHeader (frame : Frame) (sequence generation fps monotonic wall : ℕ) : Type 0 where
  pub rate : fps < u32_mod
  pub sequenced : sequence < u64_mod
  pub generated : generation < u64_mod
  pub clocked : monotonic < u64_mod
  pub dated : wall < u128_mod
  pub sized : header_len + length frame.bytes < u64_mod

-- What a reader should get.
abbrev pub spooled : Frame → (sequence generation fps monotonic wall : ℕ) → TransportFrame
spooled frame sequence generation fps monotonic wall = record {
  frame = frame;
  sequence = sequence;
  generation = generation;
  monotonic_timestamp_nanos = monotonic;
  timestamp_nanos = wall;
  fps = max fps 1;
}

color_fits :
    (f : Frame)
    → f.contract ≡ canonical_bgra f.width f.height
    → wire_code f.contract.colorimetry < u32_mod
unfolding wire_code
color_fits f e = omega (arith, ap wire_code (canonical_color f e))

module _ (frame : Frame) (sequence generation fps monotonic wall : ℕ) (limits : FrameLimits)
    (sendable : IsSendable frame limits.max_frame_bytes)
    (fits : FitsHeader frame sequence generation fps monotonic wall) where
  abbrev pub encoded : List ℕ
  encoded = encode_frame sequence generation fps monotonic wall frame

  read_version : read_number 4 encoded 4 ≡ ok spool_version
  unfolding encode_frame to_le_bytes
  read_version = read_number_at 4 encoded 4 spool_version _ (omega arith) (omega arith) refl

  read_width : read_number 4 encoded 8 ≡ ok frame.width
  unfolding encode_frame to_le_bytes
  read_width = read_number_at 4 encoded 8 frame.width _ (omega arith) (omega arith) refl

  read_height : read_number 4 encoded 12 ≡ ok frame.height
  unfolding encode_frame to_le_bytes
  read_height = read_number_at 4 encoded 12 frame.height _ (omega arith) (omega arith) refl

  read_format : read_number 4 encoded 16 ≡ ok (wire_pixel_code wire_bgra8)
  unfolding encode_frame to_le_bytes wire_pixel_code
  read_format = read_number_at 4 encoded 16 1 _ (omega arith) (omega arith) refl

  read_fps : read_number 4 encoded 20 ≡ ok fps
  unfolding encode_frame to_le_bytes
  read_fps = read_number_at 4 encoded 20 fps _ (omega arith) (omega arith) refl

  read_color : read_number 4 encoded 24 ≡ ok (wire_code frame.contract.colorimetry)
  unfolding encode_frame to_le_bytes
  read_color =
      read_number_at 4 encoded 24 (wire_code frame.contract.colorimetry) _ (omega arith)
        (omega (arith, color_fits frame sendable.canonical)) refl

  read_sequence : read_number 8 encoded 28 ≡ ok sequence
  unfolding encode_frame to_le_bytes
  read_sequence = read_number_at 8 encoded 28 sequence _ (omega arith) (omega arith) refl

  read_generation : read_number 8 encoded 36 ≡ ok generation
  unfolding encode_frame to_le_bytes
  read_generation = read_number_at 8 encoded 36 generation _ (omega arith) (omega arith) refl

  read_monotonic : read_number 8 encoded 44 ≡ ok monotonic
  unfolding encode_frame to_le_bytes
  read_monotonic = read_number_at 8 encoded 44 monotonic _ (omega arith) (omega arith) refl

  read_wall : read_number 16 encoded 52 ≡ ok wall
  unfolding encode_frame to_le_bytes
  read_wall = read_number_at 16 encoded 52 wall _ (omega arith) (omega arith) refl

  read_data_len : read_number 8 encoded 68 ≡ ok (length frame.bytes)
  unfolding encode_frame to_le_bytes
  read_data_len =
      read_number_at 8 encoded 68 (length frame.bytes) _ (omega arith) (omega arith) refl

  pixels : drop header_len encoded ≡ frame.bytes
  unfolding encode_frame to_le_bytes
  pixels = refl

  long : ltb (length encoded) header_len ≡ false
  unfolding encode_frame to_le_bytes
  long = ground arith

  pub exact : length encoded ≡ header_len + length frame.bytes
  unfolding encode_frame to_le_bytes
  exact = omega arith

  starts : bytes_eq (take 4 encoded) spool_magic ≡ true
  unfolding encode_frame
  starts = refl

  -- The fields arrive at the tests as they were written.
  parse_frame-encode_frame :
      parse_frame limits encoded
      ≡ accept_header limits encoded spool_version frame.width frame.height
          (wire_pixel_code wire_bgra8)
          fps
          (wire_code frame.contract.colorimetry)
          sequence
          generation
          monotonic
          wall
          (length frame.bytes)
  unfolding parse_frame
  parse_frame-encode_frame =
      rw
        (
          long, starts, read_version, read_width, read_height, read_format, read_fps, read_color,
          read_sequence, read_generation, read_monotonic, read_wall, read_data_len,
        )
        refl

  made :
      new_checked_with_contract limits frame.width frame.height bgra8 frame.contract frame.bytes
      ≡ ok frame
  unfolding new_checked_with_contract new_checked_with_limits
  made = ground (
    arith,
    canonical_valid frame limits.max_frame_bytes sendable,
    byte_len_ok frame.width frame.height bgra8 limits sendable.valid.wide sendable.valid.high,
    sendable.valid.exact,
    sendable.valid.word,
    sendable.fits,
    one_format frame.pixel_format,
  )

  framed :
      frame_of_file limits encoded bt709_full_opaque frame.width frame.height fps sequence
        generation monotonic wall
      ≡ ok (some (spooled frame sequence generation fps monotonic wall))
  unfolding frame_of_file
  framed = rw (pixels, same_contract frame sendable.canonical, made) refl

  accepted :
      accept_header limits encoded spool_version frame.width frame.height
        (wire_pixel_code wire_bgra8)
        fps
        (wire_code frame.contract.colorimetry)
        sequence
        generation
        monotonic
        wall
        (length frame.bytes)
      ≡ ok (some (spooled frame sequence generation fps monotonic wall))
  unfolding accept_header wire_pixel_code wire_pixel_from_code colorimetry_eq
  accepted = ground (
    arith,
    ap (λ (c : Colorimetry). from_wire_code (wire_code c))
          (canonical_color frame sendable.canonical)
        ∙ bt709_wire,
    framed,
    exact,
    fits.sized,
  )

  -- A frame that the transports accept, and whose numbers fit the header, is read back from the bytes
  -- that were written, with everything that was written beside it.
  pub parse_frame-encoded :
      parse_frame limits encoded ≡ ok (some (spooled frame sequence generation fps monotonic wall))
  parse_frame-encoded = parse_frame-encode_frame ∙ accepted
