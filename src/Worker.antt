-- ===== src/Worker.antt =====
-- src/render_worker.rs: the worker that composes jobs off the thread of the user interface. Each
-- critical section of the shared state is one function. What the compositor and the sink answer is an
-- argument, as is the preview that the toolkit holds. The counters of 64 bits are added plainly.
pub mod Publish
pub mod Machine
use camera_man.Base.{
  ℕ, zero, suc, ◌+◌, Bool, true, false, not, ◌&&◌, ◌||◌, ◌==◌, ltb, if◌then◌else◌, Option, none,
  some, Result, ok, err, List, [], ◌∷◌, ◌++◌, length,
}
use camera_man.Error.{CameraManError, Checked}
use camera_man.Frame.Buffer.{Frame}
use camera_man.Layout.{CompositionLayout}
use camera_man.Media.Formats.{VideoFormat}
use camera_man.Media.Transform.{SourceTransform}
use camera_man.Shm.Channel.Writer.{ProducerProgress, ConsumerProgress}

pub data ScalingFilter : Type 0 where
  nearest bilinear : ScalingFilter

-- The frames are those of the captured frames; their metadata is not looked at.
pub record RenderJob : Type 0 where
  pub frames : List (Option Frame)
  pub layout : CompositionLayout
  pub format : VideoFormat
  pub epoch : ℕ
  pub live : Bool
  pub publish_virtual : Bool
  pub force_preview : Bool
  pub scaling_filter : ScalingFilter
  pub preview_size : Option (ℕ × ℕ)
  pub source_transforms : List SourceTransform

pub record RenderResult (Image : Type 0) : Type 0 where
  pub epoch : ℕ
  pub frame : Checked Frame
  pub force_preview : Bool
  pub rendered_jobs : ℕ
  pub live_rendered_jobs : ℕ
  pub virtual_frames_sent : ℕ
  pub output_allocations : ℕ
  pub output_reuses : ℕ
  pub preview_image : Option Image
  pub transport_error : Option CameraManError
  pub producer_progress : Option ProducerProgress
  pub consumer_progress : Option ConsumerProgress

pub record WorkerState (Image : Type 0) : Type 0 where
  pub pending : Option RenderJob
  pub result : Option (RenderResult Image)
  pub output_enabled : Bool
  pub latest_epoch : ℕ
  pub disconnect_requested : Bool
  pub processing : Bool
  pub stopping : Bool
  pub recycled_frames : List Frame

-- At most three frames wait to be drawn on again.
abbrev pub push_recycled : List Frame → Frame → List Frame
push_recycled frames frame = if ltb (length frames) 3 then frames ++ (frame ∷ []) else frames

abbrev pub is_some {ℓ} : {A : Type ℓ} → Option A → Bool
is_some none = false
is_some (some a) = true

module _ {Image : Type 0} where
  abbrev pub idle_state : WorkerState Image
  idle_state = record {
    pending = none;
    result = none;
    output_enabled = false;
    latest_epoch = 0;
    disconnect_requested = false;
    processing = false;
    stopping = false;
    recycled_frames = [];
  }

  -- The newest job replaces one that waits.
  unfoldable pub submit : WorkerState Image → RenderJob → WorkerState Image
  submit state job = record state {
    disconnect_requested =
        if job.publish_virtual then false else (state.output_enabled || state.disconnect_requested);
    output_enabled = job.publish_virtual;
    latest_epoch = job.epoch;
    pending = some job;
  }

  unfoldable pub disconnect_output : WorkerState Image → WorkerState Image
  disconnect_output state = record state { output_enabled = false; disconnect_requested = true }

  unfoldable pub take_result : WorkerState Image → WorkerState Image × Option (RenderResult Image)
  take_result state = (record state { result = none }, state.result)

  unfoldable pub recycle_frame : WorkerState Image → Frame → WorkerState Image
  recycle_frame state frame = record state {
    recycled_frames = push_recycled state.recycled_frames frame;
  }

  unfoldable pub has_work : WorkerState Image → Bool
  has_work state =
      state.processing
      || (is_some state.pending || (state.disconnect_requested || is_some state.result))

  -- What `drop` does before it waits for the thread.
  unfoldable pub stop_worker : WorkerState Image → WorkerState Image
  stop_worker state = record state { stopping = true; pending = none }

pub data WorkerAction : Type 0 where
  render : RenderJob → WorkerAction
  disconnect : WorkerAction
  stop : WorkerAction

module _ {Image : Type 0} where
  abbrev pub take_pending :
      WorkerState Image → Option RenderJob → Option (WorkerState Image × WorkerAction)
  take_pending state none = none
  take_pending state (some job) =
      some (record state { processing = true; pending = none }, render job)

  -- `none` while the worker waits.
  unfoldable pub next_action : WorkerState Image → Option (WorkerState Image × WorkerAction)
  next_action state =
      if state.stopping
      then some (state, stop)
      else if state.disconnect_requested
      then some (record state { disconnect_requested = false }, disconnect)
      else take_pending state state.pending

  -- The test that a result may be published, before and after the sink is connected.
  unfoldable pub is_current : WorkerState Image → RenderJob → Bool
  is_current state job = state.output_enabled && job.epoch == state.latest_epoch
