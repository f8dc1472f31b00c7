-- ===== src/Worker/Machine.antt =====
-- src/render_worker.rs, `run_worker`: one turn of the loop, cut where the lock is taken or the sink is
-- called, so that the calls of the user interface fall between. The events of both threads stand in
-- the order in which they take place. What the sink and the compositor answer is part of the event.
mod Action
pub mod Invariant
pub mod Counters
pub mod Quiet
use camera_man.Base.{
  ℕ, ◌+◌, Bool, true, false, ◌&&◌, ◌||◌, if◌then◌else◌, Option, none, some, Result, ok, err, List,
  [], ◌∷◌, All,
}
use camera_man.Error.{CameraManError, Checked}
use camera_man.Frame.Buffer.{Frame}
use camera_man.Shm.Channel.Writer.{ProducerProgress, ConsumerProgress}
use camera_man.Worker.{
  RenderJob, RenderResult, WorkerState, WorkerAction, render, disconnect, stop, submit,
  disconnect_output, take_result, recycle_frame, stop_worker, next_action, is_current, is_some,
  idle_state,
}
use camera_man.Worker.Publish.{take_recycled_frame, job_result, publish_result, rendered, count}

-- Where the worker stands in its loop. `reused` tells that the output was a recycled one.
pub data Phase : Type 0 where
  ready : Phase
  composing : RenderJob → Phase
  composed : RenderJob → (frame : Checked Frame) → (reused : Bool) → Phase
  connecting : RenderJob → (frame : Checked Frame) → (reused : Bool) → Phase
  checking : RenderJob → (frame : Checked Frame) → (reused : Bool) → Phase
  sending : RenderJob → (frame : Checked Frame) → (reused : Bool) → Phase
  finishing :
      RenderJob
      → (frame : Checked Frame) → (reused : Bool) → Option CameraManError
      → (sent : Bool) → Phase
  finished : Phase

pub record Answers (Image : Type 0) : Type 0 where
  pub composition : Checked Frame
  pub connection : Checked (Unit {0})
  pub delivery : Checked (Unit {0})
  pub preview : Option Image
  pub producer : Option ProducerProgress
  pub consumer : Option ConsumerProgress

-- The last four fields are counts that only the theorems read: the jobs rendered and the frames sent,
-- and how many of them the results that were taken have reported.
pub record World (Image : Type 0) : Type 0 where
  pub state : WorkerState Image
  pub phase : Phase
  pub connected : Bool
  pub jobs : ℕ
  pub sends : ℕ
  pub reported_jobs : ℕ
  pub reported_sends : ℕ

pub data Event (Image : Type 0) : Type 0 where
  submitted : RenderJob → Event Image
  disconnected : Event Image
  result_taken : Event Image
  frame_recycled : Frame → Event Image
  stopped : Event Image
  worked : Answers Image → Event Image

module _ {Image : Type 0} where
  abbrev pub start : World Image
  start = record {
    state = idle_state;
    phase = ready;
    connected = false;
    jobs = 0;
    sends = 0;
    reported_jobs = 0;
    reported_sends = 0;
  }

  abbrev act : World Image → Option (WorkerState Image × WorkerAction) → World Image
  act w none = w
  act w (some (s, render job)) = record w { state = s; phase = composing job }
  act w (some (s, disconnect)) = record w { state = s; connected = false }
  act w (some (s, stop)) = record w { state = s; phase = finished; connected = false }

  abbrev connect_sink :
      World Image → RenderJob → Checked Frame → Bool → Checked (Unit {0}) → World Image
  connect_sink w job frame reused (ok done) = record w {
    connected = true;
    phase = checking job frame reused;
  }
  connect_sink w job frame reused (err e) = record w {
    phase = finishing job frame reused (some e) false;
  }

  abbrev send_frame :
      World Image → RenderJob → Checked Frame → Bool → Checked (Unit {0}) → World Image
  send_frame w job frame reused (ok done) = record w {
    sends = w.sends + 1;
    phase = finishing job frame reused none true;
  }
  send_frame w job frame reused (err e) = record w {
    connected = false;
    phase = finishing job frame reused (some e) false;
  }

  -- The work from one lock or call of the sink to the next.
  unfoldable pub advance : Answers Image → World Image → Phase → World Image
  advance a w ready = act w (next_action w.state)
  advance a w (composing job) =
      let (s, recycled) = take_recycled_frame w.state job.format in
      record w { state = s; phase = composed job a.composition (is_some recycled) }
  advance a w (composed job frame reused) =
      if is_current w.state job
      then record w { phase = connecting job frame reused }
      else record w {
        connected = w.connected && w.state.output_enabled;
        phase = finishing job frame reused none false;
      }
  advance a w (connecting job frame reused) =
      if w.connected
      then record w { phase = checking job frame reused }
      else connect_sink w job frame reused a.connection
  advance a w (checking job frame reused) =
      if rendered frame && is_current w.state job
      then record w { phase = sending job frame reused }
      else record w { phase = finishing job frame reused none false }
  advance a w (sending job frame reused) = send_frame w job frame reused a.delivery
  advance a w (finishing job frame reused e sent) = record w {
    state =
        publish_result w.state (job_result job frame reused sent a.preview e a.producer a.consumer);
    phase = ready;
    jobs = w.jobs + count (rendered frame);
  }
  advance a w finished = w

  abbrev pub reports : Option (RenderResult Image) → ℕ × ℕ
  reports none = (0, 0)
  reports (some r) = (r.rendered_jobs, r.virtual_frames_sent)

  unfoldable pub happen : World Image → Event Image → World Image
  unfolding submit disconnect_output take_result recycle_frame stop_worker advance
  happen w (submitted job) = record w { state = submit w.state job }
  happen w disconnected = record w { state = disconnect_output w.state }
  happen w result_taken = record w {
    state = (take_result w.state).0;
    reported_jobs = w.reported_jobs + (reports w.state.result).0;
    reported_sends = w.reported_sends + (reports w.state.result).1;
  }
  happen w (frame_recycled frame) = record w { state = recycle_frame w.state frame }
  happen w stopped = record w { state = stop_worker w.state }
  happen w (worked a) = advance a w w.phase

  -- The world after the events, from the first to the last.
  unfoldable pub history : World Image → List (Event Image) → World Image
  unfolding happen
  history w [] = w
  history w (e ∷ es) = history (happen w e) es

  -- A property that every event of a kind keeps holds after events of that kind.
  pub history-keeps {κ} :
      (Q : Event Image → Type 0) (P : World Image → Type κ) (w : World Image)
      (es : List (Event Image))
      → ((v : World Image) (e : Event Image) → Q e → P v → P (happen v e))
      → All Q es
      → P w
      → P (history w es)
  unfolding history
  history-keeps Q P w [] h q p = p
  history-keeps Q P w (e ∷ es) h q p = history-keeps Q P (happen w e) es h q.1 (h w e q.0 p)

  pub history-keeps_always {κ} :
      (P : World Image → Type κ) (w : World Image) (es : List (Event Image))
      → ((v : World Image) (e : Event Image) → P v → P (happen v e))
      → P w
      → P (history w es)
  unfolding history
  history-keeps_always P w [] h p = p
  history-keeps_always P w (e ∷ es) h p = history-keeps_always P (happen w e) es h (h w e p)
