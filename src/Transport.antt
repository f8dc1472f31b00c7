-- ===== src/Transport.antt =====
-- src/transport.rs: the sink and the reader that are either the shared memory or the spool file.
-- An `Instant` is a number of nanoseconds. What the operating system answers is an argument: whether
-- the writer's process lives, the endpoint that could be opened, the file's stamp and contents.
pub mod Poll
use camera_man.Base.{
  ℕ, ◌+◌, ◌-◌, Bool, true, false, not, ◌&&◌, ◌||◌, Option, none, some, Result, ok, err, ◌>>=◌, ltb,
  ◌==◌, if◌then◌else◌, List,
}
use camera_man.Error.{CameraManError, Checked}
use camera_man.Frame.Limits.{FrameLimits}
use camera_man.Frame.Buffer.{Frame}
use camera_man.Shm.Channel.{Region}
use camera_man.Shm.Channel.Writer.{
  SharedFrameSink, ProducerProgress, ConsumerProgress, set_target_fps, producer_progress,
  consumer_progress,
}
use camera_man.Shm.Channel.Reader.{
  SharedFrameReader, BorrowedTransportFrame, TransportFrame, into_owned, read_latest_borrowed,
}
use camera_man.Spool.Sink.{FrameSpoolSink, set_spool_fps}

abbrev pub shared_reopen_interval : ℕ
shared_reopen_interval = 250000000

abbrev pub writer_liveness_interval : ℕ
writer_liveness_interval = 500000000

pub data FrameTransportMode : Type 0 where
  shared_memory file : FrameTransportMode

pub data FrameTransportSink : Type 0 where
  to_shared : SharedFrameSink → FrameTransportSink
  to_file : FrameSpoolSink → FrameTransportSink

unfoldable pub sink_mode : FrameTransportSink → FrameTransportMode
sink_mode (to_shared sink) = shared_memory
sink_mode (to_file sink) = file

unfoldable pub set_sink_fps : FrameTransportSink → ℕ → FrameTransportSink
unfolding set_target_fps set_spool_fps
set_sink_fps (to_shared sink) fps = to_shared (set_target_fps sink fps)
set_sink_fps (to_file sink) fps = to_file (set_spool_fps sink fps)

unfoldable pub sink_producer_progress : FrameTransportSink → Option ProducerProgress
sink_producer_progress (to_shared sink) = producer_progress sink
sink_producer_progress (to_file sink) = none

unfoldable pub sink_consumer_progress : FrameTransportSink → Option ConsumerProgress
sink_consumer_progress (to_shared sink) = consumer_progress sink
sink_consumer_progress (to_file sink) = none

pub record FileStamp : Type 0 where
  pub len : ℕ
  pub modified : Option ℕ
  pub inode : ℕ

abbrev option_eq : Option ℕ → Option ℕ → Bool
option_eq none none = true
option_eq none (some b) = false
option_eq (some a) none = false
option_eq (some a) (some b) = a == b

abbrev pub stamp_eq : Option FileStamp → Option FileStamp → Bool
stamp_eq none none = true
stamp_eq none (some b) = false
stamp_eq (some a) none = false
stamp_eq (some a) (some b) =
    a.len == b.len && (option_eq a.modified b.modified && a.inode == b.inode)

abbrev pub identity_eq : Option (ℕ × ℕ) → ℕ × ℕ → Bool
identity_eq none i = false
identity_eq (some (g, s)) (g', s') = g == g' && s == s'

-- The new `last`, and whether the interval is due.
unfoldable pub interval_due : Option ℕ → (now interval : ℕ) → Option ℕ × Bool
interval_due none now interval = (some now, true)
interval_due (some last) now interval =
    if ltb (now - last) interval then (some last, false) else (some now, true)

pub record SharedReaderState : Type 0 where
  pub reader : Option SharedFrameReader
  pub last_open_attempt : Option ℕ
  pub last_liveness_check : Option ℕ

pub record FileReaderState : Type 0 where
  pub last_identity : Option (ℕ × ℕ)
  pub last_stamp : Option FileStamp

pub data TransportFrameRef : Type 0 where
  shared : BorrowedTransportFrame → TransportFrameRef
  owned : TransportFrame → TransportFrameRef

unfoldable pub ref_into_owned : FrameLimits → TransportFrameRef → Checked TransportFrame
unfolding into_owned
ref_into_owned limits (shared frame) = into_owned limits frame
ref_into_owned limits (owned frame) = ok frame

unfoldable pub ref_sequence : TransportFrameRef → ℕ
ref_sequence (shared frame) = frame.sequence
ref_sequence (owned frame) = frame.sequence

unfoldable pub ref_generation : TransportFrameRef → ℕ
ref_generation (shared frame) = frame.generation
ref_generation (owned frame) = frame.generation

-- The liveness test of a reader that is open: a reader whose writer is gone is closed, and may be
-- opened again at once.
unfoldable pub check_writer :
    SharedReaderState → (now : ℕ) → (writer_is_alive : Bool) → SharedReaderState
unfolding interval_due
check_writer state now writer_is_alive = elim state.reader [
  | none ↦ state
  | some reader ↦
      let (last, due) = interval_due state.last_liveness_check now writer_liveness_interval in
      let checked = record state { last_liveness_check = last } in
      if due && not writer_is_alive
      then record checked { reader = none; last_open_attempt = none }
      else checked
]

abbrev pub opened_state :
    SharedReaderState
    → (now : ℕ) → Checked (Option SharedFrameReader)
    → SharedReaderState × Checked (Unit {0})
opened_state state now (err e) = (state, err e)
opened_state state now (ok none) = (record state { reader = none }, ok tt)
opened_state state now (ok (some reader)) =
    (record state { reader = some reader; last_liveness_check = some now }, ok tt)

-- An attempt to open the endpoint, if there is no reader and the last attempt is long enough ago.
unfoldable pub reopen :
    SharedReaderState
    → (now : ℕ) → Checked (Option SharedFrameReader)
    → SharedReaderState × Checked (Unit {0})
unfolding interval_due
reopen state now opened = elim state.reader [
  | some reader ↦ (state, ok tt)
  | none ↦
      let (last, due) = interval_due state.last_open_attempt now shared_reopen_interval in
      let attempted = record state { last_open_attempt = last } in
      if due then opened_state attempted now opened else (attempted, ok tt)
]

abbrev pub SharedPoll : Type 0
SharedPoll = SharedReaderState × Region × Checked (Option TransportFrameRef)

abbrev pub read_shared :
    SharedReaderState
    → Region
    → Region × SharedFrameReader × Checked (Option BorrowedTransportFrame)
    → SharedPoll
read_shared state r (r', reader, err e) = (record state { reader = some reader }, r', err e)
read_shared state r (r', reader, ok none) = (record state { reader = some reader }, r', ok none)
read_shared state r (r', reader, ok (some frame)) =
    (record state { reader = some reader }, r', ok (some (shared frame)))

abbrev pub poll_reader :
    SharedReaderState → Region → (pid stamp : ℕ) → Option SharedFrameReader → SharedPoll
poll_reader state r pid stamp none = (state, r, ok none)
poll_reader state r pid stamp (some reader) =
    read_shared state r (read_latest_borrowed r reader pid stamp)

abbrev pub poll_opened :
    Region → (pid stamp : ℕ) → SharedReaderState × Checked (Unit {0}) → SharedPoll
poll_opened r pid stamp (state, err e) = (state, r, err e)
poll_opened r pid stamp (state, ok done) = poll_reader state r pid stamp state.reader

-- `poll_borrowed` of the shared memory. `stamp` is the time that the reader acknowledges with.
unfoldable pub poll_shared :
    SharedReaderState
    → Region
    → (now pid stamp : ℕ) → (writer_is_alive : Bool) → Checked (Option SharedFrameReader)
    → SharedPoll
unfolding check_writer reopen
poll_shared state r now pid stamp writer_is_alive opened =
    poll_opened r pid stamp (reopen (check_writer state now writer_is_alive) now opened)

abbrev pub FilePoll : Type 0
FilePoll = FileReaderState × Checked (Option TransportFrameRef)

abbrev pub poll_contents : FileReaderState → Checked (Option TransportFrame) → FilePoll
poll_contents state (err e) = (state, err e)
poll_contents state (ok none) = (state, ok none)
poll_contents state (ok (some frame)) =
    if identity_eq state.last_identity (frame.generation, frame.sequence)
    then (state, ok none)
    else (
      record state { last_identity = some (frame.generation, frame.sequence) },
      ok (some (owned frame)),
    )

-- `poll_borrowed` of the file: `contents` is what `read_latest_frame` answers.
unfoldable pub poll_file :
    FileReaderState → Checked (Option FileStamp) → Checked (Option TransportFrame) → FilePoll
poll_file state stamp contents = elim stamp [
  | err e ↦ (state, err e)
  | ok found ↦
      if stamp_eq state.last_stamp found
      then (state, ok none)
      else poll_contents (record state { last_stamp = found }) contents
]
