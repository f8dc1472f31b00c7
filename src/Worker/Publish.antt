-- ===== src/Worker/Publish.antt =====
-- src/render_worker.rs, `run_worker` and `take_recycled_frame`: the output a job is drawn on, whether
-- it is published, and how its result joins one that nobody has read.
use camera_man.Base.{
  ℕ, ◌+◌, Bool, true, false, not, ◌&&◌, ◌||◌, ◌==◌, if◌then◌else◌, Option, none, some, ok, err,
  List, [], ◌∷◌,
}
use camera_man.Error.{CameraManError, Checked}
use camera_man.Frame.Buffer.{Frame}
use camera_man.Media.Formats.{VideoFormat, pixel_format_eq}
use camera_man.Shm.Channel.Writer.{ProducerProgress, ConsumerProgress}
use camera_man.Worker.{RenderJob, RenderResult, WorkerState, push_recycled}

abbrev pub matches_format : VideoFormat → Frame → Bool
matches_format format frame =
    frame.width == format.width
    && (frame.height == format.height && pixel_format_eq frame.pixel_format format.pixel_format)

abbrev pub last_of : Frame → List Frame → Frame
last_of frame [] = frame
last_of frame (next ∷ frames) = last_of next frames

abbrev pub without_last : Frame → List Frame → List Frame
without_last frame [] = []
without_last frame (next ∷ frames) = frame ∷ without_last next frames

-- `swap_remove` of the first frame: the last one takes its place.
abbrev pub swap_first : List Frame → List Frame
swap_first [] = []
swap_first (next ∷ frames) = last_of next frames ∷ without_last next frames

-- `rposition` and `swap_remove`: the last frame that matches, and the others.
unfoldable pub take_matching : VideoFormat → List Frame → Option (Frame × List Frame)
take_matching format [] = none
take_matching format (frame ∷ frames) = elim (take_matching format frames) [
  | some (found, others) ↦ some (found, frame ∷ others)
  | none ↦ if matches_format format frame then some (frame, swap_first frames) else none
]

abbrev pub count : Bool → ℕ
count true = 1
count false = 0

abbrev pub rendered : Checked Frame → Bool
rendered (ok frame) = true
rendered (err e) = false

abbrev pub or_else {ℓ} : {A : Type ℓ} → Option A → Option A → Option A
or_else none other = other
or_else (some a) other = some a

abbrev pub recycle_result : List Frame → Checked Frame → List Frame
recycle_result frames (ok frame) = push_recycled frames frame
recycle_result frames (err e) = frames

module _ {Image : Type 0} where
  unfoldable pub take_recycled_frame :
      WorkerState Image → VideoFormat → WorkerState Image × Option Frame
  take_recycled_frame state format = elim (take_matching format state.recycled_frames) [
    | none ↦ (state, none)
    | some (found, others) ↦ (record state { recycled_frames = others }, some found)
  ]

  unfoldable pub job_result :
      RenderJob
      → Checked Frame
      → (reused_output virtual_frame_sent : Bool) → Option Image
      → Option CameraManError
      → Option ProducerProgress
      → Option ConsumerProgress
      → RenderResult Image
  job_result job frame reused_output virtual_frame_sent preview_image transport_error producer
        consumer =
      record {
        epoch = job.epoch;
        frame = frame;
        force_preview = job.force_preview;
        rendered_jobs = count (rendered frame);
        live_rendered_jobs = count (rendered frame && job.live);
        virtual_frames_sent = count virtual_frame_sent;
        output_allocations = count (rendered frame && not reused_output);
        output_reuses = count (rendered frame && reused_output);
        preview_image = preview_image;
        transport_error = transport_error;
        producer_progress = producer;
        consumer_progress = consumer;
      }

  abbrev add_counters : RenderResult Image → RenderResult Image → RenderResult Image
  add_counters previous r = record r {
    rendered_jobs = r.rendered_jobs + previous.rendered_jobs;
    live_rendered_jobs = r.live_rendered_jobs + previous.live_rendered_jobs;
    virtual_frames_sent = r.virtual_frames_sent + previous.virtual_frames_sent;
    output_allocations = r.output_allocations + previous.output_allocations;
    output_reuses = r.output_reuses + previous.output_reuses;
  }

  -- A result of the same epoch passes on what the newer one has not.
  abbrev keep_epoch : RenderResult Image → RenderResult Image → RenderResult Image
  keep_epoch previous r = record r {
    transport_error = or_else r.transport_error previous.transport_error;
    force_preview = r.force_preview || previous.force_preview;
    preview_image = or_else r.preview_image previous.preview_image;
    producer_progress = or_else r.producer_progress previous.producer_progress;
    consumer_progress = or_else r.consumer_progress previous.consumer_progress;
  }

  abbrev pub join_results : RenderResult Image → RenderResult Image → RenderResult Image
  join_results previous r =
      let added = add_counters previous r in
      if previous.epoch == r.epoch then keep_epoch previous added else added

  unfoldable pub publish_result : WorkerState Image → RenderResult Image → WorkerState Image
  publish_result state r = elim state.result [
    | none ↦ record state { processing = false; result = some r }
    | some previous ↦ record state {
      processing = false;
      result = some (join_results previous r);
      recycled_frames = recycle_result state.recycled_frames previous.frame;
    }
  ]
