-- ===== src/Transport/Poll.antt =====
-- What polling promises: no frame twice from the file, no reader of a dead writer, and no hurry.
use camera_man.Base.{ℕ, ◌≡◌, ◌≢◌, refl, true, false, Option, none, some, ok, err, arith}
use camera_man.Error.{Checked}
use camera_man.Shm.Channel.{Region}
use camera_man.Shm.Channel.Reader.{SharedFrameReader, TransportFrame}
use camera_man.Transport.{
  FileStamp, FileReaderState, SharedReaderState, owned, poll_file, poll_shared, check_writer,
  interval_due, writer_liveness_interval,
}

-- What a poll delivers becomes the identity that the reader remembers.
poll_file_remembers :
    (state : FileReaderState) (stamp : Checked (Option FileStamp))
    (contents : Checked (Option TransportFrame)) (t : TransportFrame)
    → (poll_file state stamp contents).1 ≡ ok (some (owned t))
    → (poll_file state stamp contents).0.last_identity ≡ some (t.generation, t.sequence)
unfolding poll_file
poll_file_remembers state (err e) contents t = ground arith
poll_file_remembers state (ok found) (err e) t = ground arith
poll_file_remembers state (ok found) (ok none) t = ground arith
poll_file_remembers state (ok found) (ok (some frame)) t = ground arith

-- A reader that remembers an identity does not deliver it.
poll_file_same :
    (state : FileReaderState) (stamp : Checked (Option FileStamp)) (t : TransportFrame)
    → state.last_identity ≡ some (t.generation, t.sequence)
    → ((poll_file state stamp (ok (some t))).1 ≢ ok (some (owned t)))
      × ((poll_file state stamp (ok (some t))).0.last_identity ≡ some (t.generation, t.sequence))
unfolding poll_file
poll_file_same state (err e) t h = (ground arith, ground arith)
poll_file_same state (ok found) t h = (ground arith, ground arith)

-- After a poll of the file has delivered a frame, no later poll delivers a frame of the same
-- generation and sequence, however the file was touched, until another frame is delivered.
pub poll_file_once :
    (state : FileReaderState) (stamp stamp' : Checked (Option FileStamp))
    (contents : Checked (Option TransportFrame)) (t t' : TransportFrame)
    → (poll_file state stamp contents).1 ≡ ok (some (owned t))
    → t'.generation ≡ t.generation
    → t'.sequence ≡ t.sequence
    → ((poll_file (poll_file state stamp contents).0 stamp' (ok (some t'))).1
        ≢ ok (some (owned t')))
      × ((poll_file (poll_file state stamp contents).0 stamp' (ok (some t'))).0.last_identity
          ≡ some (t.generation, t.sequence))
poll_file_once state stamp stamp' contents t t' h g s =
    let remembered : (poll_file state stamp contents).0.last_identity
        ≡ some (t'.generation, t'.sequence) =
      let kept = poll_file_remembers state stamp contents t h in cc in
    let same = poll_file_same (poll_file state stamp contents).0 stamp' t' remembered in
    (same.0, let kept = same.1 in cc)

-- A test that is due, of a writer that is dead, closes the reader.
check_writer_dead :
    (state : SharedReaderState) (now : ℕ) (reader : SharedFrameReader)
    → state.reader ≡ some reader
    → (interval_due state.last_liveness_check now writer_liveness_interval).1 ≡ true
    → check_writer state now false
      ≡ record { reader = none; last_open_attempt = none; last_liveness_check = some now }
unfolding check_writer interval_due
check_writer_dead state now reader h d = rw h (ground arith)

-- A poll of the shared memory that finds the writer dead, when the test is due, closes the reader and
-- tries at once to open the endpoint again: what it then reads is what was opened, if anything.
pub poll_shared_dead :
    (state : SharedReaderState) (r : Region) (now pid stamp : ℕ) (reader : SharedFrameReader)
    (opened : Checked (Option SharedFrameReader))
    → state.reader ≡ some reader
    → (interval_due state.last_liveness_check now writer_liveness_interval).1 ≡ true
    → poll_shared state r now pid stamp false opened
      ≡ poll_shared
          (record { reader = none; last_open_attempt = none; last_liveness_check = some now })
          r
          now
          pid
          stamp
          false
          opened
unfolding poll_shared
poll_shared_dead state r now pid stamp reader opened h d =
    rw (check_writer_dead state now reader h d) refl
