-- ===== src/Spool/Sink.antt =====
-- src/frame_transport.rs: `FrameSpoolSink` and `read_latest_frame`. The file is `none` while there is
-- none at the path, else its bytes; the file system's answers are arguments.
pub mod Delivery
use camera_man.Base.{
  ℕ, ◌+◌, max, Bool, true, false, not, Option, none, some, Result, ok, err, ◌>>=◌, ltb,
  if◌then◌else◌, List, length, wrapping_add64, checked_add64, u64_max, min, take, ok_or,
}
use camera_man.Error.{CameraManError, virtual_camera_unavailable, buffer_too_large, Checked}
use camera_man.Media.Formats.{virtual_camera_default_fps}
use camera_man.Frame.Limits.{FrameLimits}
use camera_man.Frame.Buffer.{Frame}
use camera_man.Shm.Channel.Reader.{TransportFrame}
use camera_man.Spool.Codec.{header_len, write_frame, parse_frame}

pub record FrameSpoolSink : Type 0 where
  pub connected : Bool
  pub sequence : ℕ
  pub generation : ℕ
  pub target_fps : ℕ

-- `generation` is a new generation id.
unfoldable pub new_spool_sink : ℕ → FrameSpoolSink
new_spool_sink generation = record {
  connected = false;
  sequence = 0;
  generation = generation;
  target_fps = virtual_camera_default_fps;
}

unfoldable pub set_spool_fps : FrameSpoolSink → ℕ → FrameSpoolSink
set_spool_fps sink fps = record sink { target_fps = max fps 1 }

-- `created` is the answer of `create_dir_all`, or success where the path has no parent.
unfoldable pub connect_spool :
    FrameSpoolSink → Checked (Unit {0}) → FrameSpoolSink × Checked (Unit {0})
connect_spool sink created = elim created [
  | err e ↦ (sink, err e)
  | ok done ↦ (record sink { connected = true }, ok done)
]

unfoldable pub disconnect_spool : FrameSpoolSink → FrameSpoolSink
disconnect_spool sink = record sink { connected = false }

abbrev after_write :
    FrameSpoolSink
    → Option (List ℕ) × Checked (Unit {0})
    → FrameSpoolSink × Option (List ℕ) × Checked (Unit {0})
after_write sink (file, err e) = (sink, file, err e)
after_write sink (file, ok done) =
    (record sink { sequence = wrapping_add64 sink.sequence 1 }, file, ok done)

unfoldable pub send_spool :
    FrameSpoolSink
    → Option (List ℕ)
    → Checked (Unit {0})
    → (monotonic wall : ℕ) → Frame
    → FrameSpoolSink × Option (List ℕ) × Checked (Unit {0})
send_spool sink file stored monotonic wall frame =
    if not sink.connected
    then (sink, file, err (virtual_camera_unavailable "frame spool sink is not connected"))
    else after_write sink
        (write_frame file stored sink.sequence sink.generation sink.target_fps monotonic wall frame)

-- The bytes that the length reported by the file's metadata lets the reader take. The file may grow
-- between the two: `bytes` is what is read, at most one byte past the limit.
abbrev checked_bytes : ℕ → (metadata_len : ℕ) → List ℕ → Checked (List ℕ)
checked_bytes max_file_bytes metadata_len bytes =
    if ltb max_file_bytes metadata_len
    then err (buffer_too_large metadata_len)
    else (let read = take (min (max_file_bytes + 1) u64_max) bytes in
        if ltb max_file_bytes (length read) then err (buffer_too_large (length read)) else ok read)

unfoldable pub read_latest_frame :
    FrameLimits → Option (ℕ × List ℕ) → Checked (Option TransportFrame)
read_latest_frame limits none = ok none
read_latest_frame limits (some (metadata_len, bytes)) = do
  max_file_bytes ←
      ok_or (checked_add64 limits.max_frame_bytes header_len) (buffer_too_large u64_max)
  read ← checked_bytes max_file_bytes metadata_len bytes
  parse_frame limits read
