-- ===== src/Tests/Spool.antt =====
-- The file transport on one small frame.
use camera_man.Base.{
  ℕ, ◌≡◌, refl, arith, true, false, none, some, Option, ok, List, length, wrapping_add64,
}
use camera_man.Error.{Checked}
use camera_man.Shm.Channel.Publish.{IsSendable}
use camera_man.Shm.Channel.Reader.{TransportFrame}
use camera_man.Spool.Codec.{encode_frame}
use camera_man.Spool.Codec.RoundTrip.{FitsHeader, spooled, parse_frame-encoded}
use camera_man.Spool.Codec.Sound.{IsSpool, CameFrom, parse_frame-CameFrom}
use camera_man.Spool.Sink.{FrameSpoolSink, send_spool, read_latest_frame}
use camera_man.Spool.Sink.Delivery.{send_spool_delivers}
use camera_man.Tests.Samples.{megabyte, small_frame}
use camera_man.Transport.{FileReaderState, FileStamp}

abbrev spool_sink : FrameSpoolSink
spool_sink = record { connected = true; sequence = 7; generation = 9; target_fps = 30 }

abbrev closed_sink : FrameSpoolSink
closed_sink = record spool_sink { connected = false }

spoolable : IsSendable small_frame megabyte.max_frame_bytes
spoolable = record {
  valid = record { wide = omega arith; high = omega arith; exact = refl; word = omega arith };
  canonical = refl;
  narrow = omega arith;
  low = omega arith;
  fits = omega arith;
}

header_fits : FitsHeader small_frame 7 9 30 100 200
header_fits = record {
  rate = omega arith;
  sequenced = omega arith;
  generated = omega arith;
  clocked = omega arith;
  dated = omega arith;
  sized = omega arith;
}

send_spool_delivers_example :
    let out = send_spool spool_sink none (ok tt) 100 200 small_frame in
    (bytes : List ℕ) × (out.1 ≡ some bytes)
    × (out.2 ≡ ok tt)
    × (out.0 ≡ record spool_sink { sequence = wrapping_add64 7 1 })
    × (read_latest_frame megabyte (some (length bytes, bytes))
        ≡ ok (some (spooled small_frame 7 9 30 100 200)))
send_spool_delivers_example =
    send_spool_delivers spool_sink none 100 200 small_frame megabyte refl spoolable header_fits
      (omega arith)

parse_frame-CameFrom_example :
    IsSpool (encode_frame 7 9 30 100 200 small_frame)
    × CameFrom megabyte
        (encode_frame 7 9 30 100 200 small_frame)
        (spooled small_frame 7 9 30 100 200)
parse_frame-CameFrom_example =
    parse_frame-CameFrom megabyte (encode_frame 7 9 30 100 200 small_frame)
      (parse_frame-encoded small_frame 7 9 30 100 200 megabyte spoolable header_fits)

abbrev fresh_reader : FileReaderState
fresh_reader = record { last_identity = none; last_stamp = none }

abbrev stamp : (modified : ℕ) → Checked (Option FileStamp)
stamp modified = ok (some (record { len = 84; modified = some modified; inode = 3 }))

abbrev delivered : TransportFrame
delivered = spooled small_frame 7 9 30 100 200
