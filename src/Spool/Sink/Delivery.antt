-- ===== src/Spool/Sink/Delivery.antt =====
-- What a reader of the spool file gets after a send.
use camera_man.Base.{
  ℕ, ◌+◌, ◌<◌, ◌≡◌, refl, min, true, Option, some, ok, err, arith, List, length, take, take_all,
  wrapping_add64, u64_mod, u64_max,
}
use camera_man.Error.{CameraManError, Checked}
use camera_man.Media.Contract.Validity.{is_canonical_bgra_iff}
use camera_man.Frame.Limits.{FrameLimits}
use camera_man.Frame.Buffer.{Frame}
use camera_man.Shm.Channel.Publish.{IsSendable, one_format}
use camera_man.Spool.Codec.{header_len, encode_frame, write_frame}
use camera_man.Spool.Codec.RoundTrip.{FitsHeader, spooled, exact, parse_frame-encoded}
use camera_man.Spool.Sink.{FrameSpoolSink, send_spool, read_latest_frame}

-- A send that fails leaves the sink and the file as they were.
pub send_spool_error :
    (sink : FrameSpoolSink) (file : Option (List ℕ)) (stored : Checked (Unit {0}))
    (monotonic wall : ℕ) (frame : Frame) {e : CameraManError}
    → (send_spool sink file stored monotonic wall frame).2 ≡ err e
    → ((send_spool sink file stored monotonic wall frame).0 ≡ sink)
      × ((send_spool sink file stored monotonic wall frame).1 ≡ file)
unfolding send_spool write_frame
send_spool_error sink file stored monotonic wall frame {e} h = ground arith

module _ (sink : FrameSpoolSink) (file : Option (List ℕ)) (monotonic wall : ℕ) (frame : Frame)
    (limits : FrameLimits) (connected : sink.connected ≡ true)
    (sendable : IsSendable frame limits.max_frame_bytes)
    (fits : FitsHeader frame sink.sequence sink.generation sink.target_fps monotonic wall)
    (room : limits.max_frame_bytes + header_len < u64_mod) where
  abbrev written : List ℕ
  written = encode_frame sink.sequence sink.generation sink.target_fps monotonic wall frame

  sent :
      send_spool sink file (ok tt) monotonic wall frame
      ≡ (record sink { sequence = wrapping_add64 sink.sequence 1 }, some written, ok tt)
  unfolding send_spool write_frame
  sent = ground (
    arith,
    connected,
    one_format frame.pixel_format,
    (is_canonical_bgra_iff frame.contract frame.width frame.height).1 sendable.canonical,
  )

  read :
      read_latest_frame limits (some (length written, written))
      ≡ ok (some (spooled frame sink.sequence sink.generation sink.target_fps monotonic wall))
  unfolding read_latest_frame
  read =
      let total =
        exact frame sink.sequence sink.generation sink.target_fps monotonic wall limits sendable
          fits in
      let whole : take (min (limits.max_frame_bytes + header_len + 1) u64_max) written ≡ written =
        take_all _ written (omega (arith, total, sendable.fits)) in
      ground (
        arith,
        total,
        sendable.fits,
        whole,
        parse_frame-encoded frame sink.sequence sink.generation sink.target_fps monotonic wall
            limits sendable fits,
      )

  -- A connected sink sends a frame that the transports accept, if the file system takes it and its
  -- numbers fit the header; whoever reads the file then gets the same frame, with the sequence and
  -- the generation of the sink, and the sink goes on to the next sequence.
  pub send_spool_delivers :
      let out = send_spool sink file (ok tt) monotonic wall frame in
      (bytes : List ℕ) × (out.1 ≡ some bytes)
      × (out.2 ≡ ok tt)
      × (out.0 ≡ record sink { sequence = wrapping_add64 sink.sequence 1 })
      × (read_latest_frame limits (some (length bytes, bytes))
          ≡ ok (some (spooled frame sink.sequence sink.generation sink.target_fps monotonic wall)))
  send_spool_delivers = rw sent (written, refl, refl, refl, read)
