-- ===== src/Media/Negotiation.antt =====
-- src/format_negotiation.rs: which stream requests are accepted, and the coordinator that commits a
-- new format together with its epoch.
pub mod Accepts
pub mod Epochs
use camera_man.Base.{
  ℕ, String, ◌+◌, max, Bool, true, false, not, ◌&&◌, ◌||◌, ◌!=◌, leb, Option, none, some, Result,
  ok, err, ◌>>=◌, ◌>>◌, fail_if, map_err, wrapping_add64, if◌then◌else◌,
}
use camera_man.Error.{CameraManError, invalid_media_contract, Checked}
use camera_man.Media.Formats.{
  PixelFormat, bgra8, pixel_format_eq, VideoFormat, video_format_eq, virtual_camera_width,
  virtual_camera_height, virtual_camera_min_fps, virtual_camera_max_fps, hd_1080p_bgra,
}
use camera_man.Media.Colorimetry.{Colorimetry, bt709_full_opaque, colorimetry_eq}
use camera_man.Media.Contract.{FrameContract, canonical_bgra}

pub data LatencyMode : Type 0 where
  interactive_latest_frame buffered_quality : LatencyMode

pub data FrameOwnershipMode : Type 0 where
  borrowed_until_release owned : FrameOwnershipMode

abbrev latency_eq : LatencyMode → LatencyMode → Bool
latency_eq interactive_latest_frame interactive_latest_frame = true
latency_eq buffered_quality buffered_quality = true
latency_eq _ _ = false

abbrev ownership_eq : FrameOwnershipMode → FrameOwnershipMode → Bool
ownership_eq borrowed_until_release borrowed_until_release = true
ownership_eq owned owned = true
ownership_eq _ _ = false

pub record StreamCapability : Type 0 where
  pub width : ℕ
  pub height : ℕ
  pub pixel_format : PixelFormat
  pub min_fps : ℕ
  pub max_fps : ℕ
  pub colorimetry : Colorimetry
  pub latency_mode : LatencyMode
  pub ownership : FrameOwnershipMode

abbrev pub fixed_output_capability : StreamCapability
fixed_output_capability = record {
  width = virtual_camera_width;
  height = virtual_camera_height;
  pixel_format = bgra8;
  min_fps = virtual_camera_min_fps;
  max_fps = virtual_camera_max_fps;
  colorimetry = bt709_full_opaque;
  latency_mode = interactive_latest_frame;
  ownership = borrowed_until_release;
}

pub record StreamRequest : Type 0 where
  pub format : VideoFormat
  pub colorimetry : Colorimetry
  pub latency_mode : LatencyMode
  pub ownership : FrameOwnershipMode

pub record NegotiatedStream : Type 0 where
  pub format : VideoFormat
  pub contract : FrameContract
  pub latency_mode : LatencyMode
  pub ownership : FrameOwnershipMode

pub data CapabilityRejection : Type 0 where
  dimensions pixel_format frame_rate colorimetry latency_mode ownership : CapabilityRejection

abbrev pub reason : CapabilityRejection → String
reason dimensions = "requested dimensions are not advertised"
reason pixel_format = "requested pixel format is not advertised"
reason frame_rate = "requested frame rate is outside the advertised range"
reason colorimetry = "requested color interpretation is not advertised"
reason latency_mode = "requested latency mode is not implemented"
reason ownership = "requested frame ownership mode is not implemented"

unfoldable pub negotiate_stream : StreamRequest → Result CapabilityRejection NegotiatedStream
unfolding colorimetry_eq
negotiate_stream request = do
  let capability = fixed_output_capability
  fail_if (request.format.width != capability.width || request.format.height != capability.height)
      dimensions
  fail_if (not (pixel_format_eq request.format.pixel_format capability.pixel_format)) pixel_format
  fail_if
      (not (leb capability.min_fps request.format.fps && leb request.format.fps capability.max_fps))
      frame_rate
  fail_if (not (colorimetry_eq request.colorimetry capability.colorimetry)) colorimetry
  fail_if (not (latency_eq request.latency_mode capability.latency_mode)) latency_mode
  fail_if (not (ownership_eq request.ownership capability.ownership)) ownership
  let base = canonical_bgra request.format.width request.format.height
  ok (record {
    format = request.format;
    contract = record base { colorimetry = request.colorimetry };
    latency_mode = request.latency_mode;
    ownership = request.ownership;
  })

-- `.map(|_| ())`.
abbrev discard {ℓ κ} : {E : Type ℓ} {A : Type κ} → Result E A → Result E (Unit {0})
discard (ok a) = ok tt
discard (err e) = err e

unfoldable pub validate_advertised_format : VideoFormat → Checked (Unit {0})
unfolding negotiate_stream
validate_advertised_format format =
    map_err (λ rejection. invalid_media_contract (reason rejection))
      (discard (
        negotiate_stream (record {
          format = format;
          colorimetry = fixed_output_capability.colorimetry;
          latency_mode = fixed_output_capability.latency_mode;
          ownership = fixed_output_capability.ownership;
        })))

pub record FormatSnapshot : Type 0 where
  pub epoch : ℕ
  pub format : VideoFormat

pub record FormatTransition : Type 0 where
  pub previous : FormatSnapshot
  pub current : FormatSnapshot

-- `FormatEpochCoordinator::new`: the coordinator's state is the snapshot behind its mutex.
abbrev pub new_coordinator : VideoFormat → FormatSnapshot
new_coordinator format = record { epoch = 1; format = format }

abbrev pub default_coordinator : FormatSnapshot
default_coordinator = new_coordinator hd_1080p_bgra

-- The snapshot that a renegotiation to `next` proposes.
abbrev pub candidate : FormatSnapshot → VideoFormat → FormatSnapshot
candidate state next = record { epoch = max (wrapping_add64 state.epoch 1) 1; format = next }

-- `reset_resources` is the caller's closure; the state returned with an error is the old one, since
-- the source writes it only after the reset succeeded.
unfoldable pub renegotiate :
    FormatSnapshot
    → VideoFormat
    → (FormatSnapshot → Checked (Unit {0}))
    → FormatSnapshot × Checked (Option FormatTransition)
renegotiate state next reset_resources = elim (validate_advertised_format next) [
  | err e ↦ (state, err e)
  | ok _ ↦
      if video_format_eq state.format next
      then (state, ok none)
      else elim (reset_resources (candidate state next)) [
        | err e ↦ (state, err e)
        | ok _ ↦ (
          candidate state next,
          ok (some (record { previous = state; current = candidate state next })),
        )
      ]
]
