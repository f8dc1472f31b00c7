-- ===== src/Render/Compose.antt =====
-- src/render.rs, `Compositor`: the frames of all sources, drawn into the cells of one output. The
-- cache that the compositor shares and the bytes of the output are passed on as a `Canvas`, kept also
-- where an error ends the work. A panic is `none`. `PixelFormat` has one variant, so that its tests
-- never fail and are left out; the counters of copies are left out.
pub mod Cells
pub mod Safe
pub mod Fit
pub mod Whole
use camera_man.Base.{
  ℕ, ◌+◌, ◌-◌, ◌*◌, ◌/◌, min, max, Bool, true, false, not, ◌&&◌, ◌||◌, ◌==◌, ◌!=◌, if◌then◌else◌,
  Option, none, some, Result, ok, err, List, [], ◌∷◌, get_elem?, enumerate_from,
}
use camera_man.Base.Options.{◌>>=◌}
use camera_man.Error.{Checked, empty_frame, empty_input, invalid_dimensions}
use camera_man.Frame.Buffer.{Frame, Bgra, pixel_bytes, solid_bgra_with_limits}
use camera_man.Frame.Limits.{FrameLimits}
use camera_man.Layout.{Cell, CompositionLayout, cells, whole_output}
use camera_man.Media.Colorimetry.{bt709_full_opaque, colorimetry_eq}
use camera_man.Media.Contract.{FrameContract, validate_contract, is_canonical_bgra}
use camera_man.Media.Coordinates.{display_dimensions}
use camera_man.Media.Formats.{VideoFormat}
use camera_man.Media.Transform.{
  SourceTransform, default_transform, is_identity, validate_transform, apply_to_contract,
}
use camera_man.Pipeline.{CapturedFrame}
use camera_man.Render.Bilinear.{paste_transformed_bilinear}
use camera_man.Render.Bilinear.Upright.{paste_bilinear}
use camera_man.Render.Cache.{
  SamplingCache, SamplingKey, SamplingMap, TransformedSamplingKey, nearest_map, bilinear_map,
  get_map, get_transformed,
}
use camera_man.Render.Paste.{
  cells_cover_output, fill_cell, paste_unscaled, paste_nearest, paste_transformed_nearest,
}
use camera_man.Render.Placement.{
  Fitted, TransformedPlacement, transformed_placement, frame_fully_overwrites_cell,
}
use camera_man.Render.Premultiplied.{Floats, paste_contract_transformed_generic}
use camera_man.Worker.{ScalingFilter, nearest}

pub record Compositor : Type 0 where
  pub format : VideoFormat
  pub background : Bgra
  pub empty_cell : Bgra
  pub scaling_filter : ScalingFilter

pub record Canvas : Type 0 where
  pub cache : SamplingCache
  pub bytes : List ℕ

abbrev pub new_compositor : VideoFormat → Compositor
new_compositor format = record {
  format = format;
  background = record { blue = 0; green = 0; red = 0; alpha = 255 };
  empty_cell = record { blue = 32; green = 32; red = 32; alpha = 255 };
  scaling_filter = nearest;
}

abbrev pub set_scaling_filter : Compositor → ScalingFilter → Compositor
set_scaling_filter compositor scaling_filter = record compositor { scaling_filter = scaling_filter }

unfoldable pub validate_output : Compositor → Frame → Checked (Unit {0})
validate_output compositor output =
    if (output.width != compositor.format.width) || (output.height != compositor.format.height)
    then err (invalid_dimensions output.width output.height)
    else ok tt

-- The process-wide limits are an argument.
abbrev pub allocate_output : FrameLimits → Compositor → Checked Frame
allocate_output limits compositor =
    solid_bgra_with_limits compositor.format.width compositor.format.height compositor.background
      limits

abbrev pub Drawing : Type 0
Drawing = Option (Canvas × Checked (Unit {0}))

-- A drawing that writes bytes and ends without an error.
abbrev pub written : SamplingCache → Option (List ℕ) → Drawing
written cache drawn = do bytes ← drawn; some (record { cache = cache; bytes = bytes }, ok tt)

abbrev pub centred : (start space size : ℕ) → ℕ
centred start space size = start + (space - size) / 2

-- The test of the pixel aspect ratio.
abbrev is_square : FrameContract → Bool
is_square c = c.pixel_aspect_ratio.horizontal == 1 && c.pixel_aspect_ratio.vertical == 1

-- What is validated before anything is drawn.
abbrev pub drawable : Frame → SourceTransform → Checked (Unit {0})
drawable input transform = elim (validate_transform transform) [
  | err e ↦ err e
  | ok done ↦ validate_contract input.contract input.width input.height
]

module _ (f : Floats) (fitted : Fitted)
    (eq : TransformedSamplingKey → TransformedSamplingKey → Bool) where
  unfoldable pub paste_opaque_contract :
      (output_width : ℕ)
      → Frame
      → ScalingFilter
      → FrameContract
      → (opacity_per_mille : ℕ) → TransformedPlacement
      → Canvas
      → Drawing
  paste_opaque_contract output_width input filter contract opacity p canvas =
      let key : TransformedSamplingKey = record {
        contract = contract;
        source_x = p.source_x;
        source_y = p.source_y;
        source_width = p.source_width;
        source_height = p.source_height;
        dest_width = p.dest_width;
        dest_height = p.dest_height;
        scaling_filter = filter;
      } in
      let found = get_transformed eq f.position canvas.cache key in
      elim found.1 [
        | nearest_map xs ys ↦ written found.0 (
            paste_transformed_nearest output_width input.width input.bytes contract opacity p xs ys
              canvas.bytes)
        | bilinear_map xs ys ↦ written found.0 (
            paste_transformed_bilinear output_width input.width input.bytes contract opacity p xs ys
              canvas.bytes)
      ]

  unfoldable pub paste_contract_transformed :
      (output_width : ℕ)
      → Frame
      → Cell
      → ScalingFilter
      → FrameContract
      → SourceTransform
      → Canvas
      → Drawing
  unfolding paste_opaque_contract
  paste_contract_transformed output_width input cell filter contract transform canvas =
      let p =
        transformed_placement (fitted (display_dimensions contract) cell) contract cell transform in
      if colorimetry_eq contract.colorimetry bt709_full_opaque && is_square contract
      then paste_opaque_contract output_width input filter contract transform.opacity_per_mille p
          canvas
      else written canvas.cache (
          paste_contract_transformed_generic f output_width input filter contract
            transform.opacity_per_mille p canvas.bytes)

  -- The map of the size, from the cache, and the loop that it is for.
  unfoldable pub paste_scaled :
      (output_width : ℕ)
      → Frame
      → (dest_x dest_y dest_width dest_height : ℕ) → ScalingFilter
      → Canvas
      → Drawing
  paste_scaled output_width input dest_x dest_y dest_width dest_height filter canvas =
      let key : SamplingKey = record {
        source_width = input.width;
        source_height = input.height;
        dest_width = dest_width;
        dest_height = dest_height;
        scaling_filter = filter;
      } in
      let found = get_map f.position canvas.cache key in
      elim found.1 [
        | nearest_map xs ys ↦
            written found.0
              (paste_nearest output_width input.bytes dest_x dest_y dest_height xs ys canvas.bytes)
        | bilinear_map xs ys ↦ written found.0 (
            paste_bilinear output_width input.width input.bytes dest_x dest_y dest_height xs ys
              canvas.bytes)
      ]

  -- A frame that is neither cropped nor turned, in the middle of its cell.
  unfoldable pub paste_upright :
      (output_width : ℕ) → Frame → Cell → ScalingFilter → Canvas → Drawing
  unfolding paste_scaled
  paste_upright output_width input cell filter canvas =
      let size = fitted (input.width, input.height) cell in
      let dest_width = min (max size.0 1) cell.width in
      let dest_height = min (max size.1 1) cell.height in
      let dest_x = centred cell.x cell.width dest_width in
      let dest_y = centred cell.y cell.height dest_height in
      if dest_width == input.width && dest_height == input.height
      then written canvas.cache (
          paste_unscaled output_width input.width input.bytes dest_x dest_y dest_width dest_height
            canvas.bytes)
      else paste_scaled output_width input dest_x dest_y dest_width dest_height filter canvas

  unfoldable pub paste_transformed :
      (output_width : ℕ) → Frame → Cell → ScalingFilter → SourceTransform → Canvas → Drawing
  unfolding paste_contract_transformed
  paste_transformed output_width input cell filter transform canvas =
      elim (apply_to_contract transform input.contract input.width input.height) [
        | err e ↦ some (canvas, err e)
        | ok contract ↦
            paste_contract_transformed output_width input cell filter contract transform canvas
      ]

  unfoldable pub paste_aspect_fit :
      (output_width : ℕ) → Frame → Cell → ScalingFilter → SourceTransform → Canvas → Drawing
  unfolding paste_transformed paste_upright
  paste_aspect_fit output_width input cell filter transform canvas =
      if input.width == 0 || input.height == 0
      then some (canvas, err empty_frame)
      else if cell.width == 0 || cell.height == 0
      then some (canvas, ok tt)
      else elim (drawable input transform) [
        | err e ↦ some (canvas, err e)
        | ok done ↦
            if not (is_identity transform)
              || not (is_canonical_bgra input.contract input.width input.height)
            then paste_transformed output_width input cell filter transform canvas
            else paste_upright output_width input cell filter canvas
      ]
