-- ===== src/Render/Compose/Cells.antt =====
-- src/render.rs, `Compositor::compose_with` and the operations that call it: the cells one after the
-- other, until one fails. The function that answers the frame of a cell may panic: `none`.
pub mod Safe
use camera_man.Base.{
  ℕ, ◌==◌, Bool, true, false, Option, none, some, Result, ok, err, List, [], ◌∷◌, get_elem?,
  enumerate_from, length, if◌then◌else◌,
}
use camera_man.Base.Options.{◌>>=◌}
use camera_man.Error.{Checked, empty_input}
use camera_man.Frame.Buffer.{Frame, Bgra, pixel_bytes, solid_bgra_with_limits}
use camera_man.Frame.Limits.{FrameLimits}
use camera_man.Layout.{Cell, CompositionLayout, cells, whole_output}
use camera_man.Media.Transform.{SourceTransform, default_transform}
use camera_man.Pipeline.{CapturedFrame}
use camera_man.Render.Cache.{SamplingCache, TransformedSamplingKey}
use camera_man.Render.Compose.{
  Compositor, Canvas, Drawing, validate_output, allocate_output, paste_aspect_fit, written,
}
use camera_man.Render.Paste.{cells_cover_output, fill_cell}
use camera_man.Render.Placement.{Fitted, frame_fully_overwrites_cell}
use camera_man.Render.Premultiplied.{Floats}

-- What a cell shows: nothing, or a frame with its transform.
abbrev pub Source : Type 0
Source = Option (Frame × SourceTransform)

-- A step that is taken unless the one before failed.
abbrev pub then_draw : Drawing → (Canvas → Drawing) → Drawing
then_draw none rest = none
then_draw (some (canvas, ok done)) rest = rest canvas
then_draw (some (canvas, err e)) rest = some (canvas, err e)

abbrev pub fill : (output_width : ℕ) → Cell → Bgra → Canvas → Drawing
fill output_width cell bgra canvas =
    written canvas.cache (fill_cell output_width cell (pixel_bytes bgra) canvas.bytes)

-- `transforms.get(index).copied().unwrap_or_default()`.
abbrev pub transform_at : List SourceTransform → ℕ → SourceTransform
transform_at transforms index = elim (get_elem? transforms index) [
  | none ↦ default_transform
  | some transform ↦ transform
]

abbrev pub with_transform : SourceTransform → Option Frame → Source
with_transform transform none = none
with_transform transform (some frame) = some (frame, transform)

abbrev pub captured_frame : Option CapturedFrame → Option Frame
captured_frame none = none
captured_frame (some captured) = some captured.frame

-- `frames[index]` with the transform of its place.
abbrev pub source_at : List (Option Frame) → List SourceTransform → ℕ → Option Source
source_at frames transforms index = do
  frame ← get_elem? frames index
  some (with_transform (transform_at transforms index) frame)

abbrev pub captured_source_at :
    List (Option CapturedFrame) → List SourceTransform → ℕ → Option Source
captured_source_at frames transforms index = do
  captured ← get_elem? frames index
  some (with_transform (transform_at transforms index) (captured_frame captured))

-- The output that is allocated, or the error of its size or of the drawing.
abbrev composed_frame :
    Option ((SamplingCache × Frame) × Checked (Unit {0})) → Option (SamplingCache × Checked Frame)
composed_frame none = none
composed_frame (some ((cache, output), ok done)) = some (cache, ok output)
composed_frame (some ((cache, output), err e)) = some (cache, err e)

module _ (f : Floats) (fitted : Fitted)
    (eq : TransformedSamplingKey → TransformedSamplingKey → Bool) where
  unfoldable pub draw_frame :
      Compositor → (input : Frame) → SourceTransform → Cell → Canvas → Drawing
  draw_frame compositor input transform cell canvas =
      elim (frame_fully_overwrites_cell fitted input cell transform) [
        | err e ↦ some (canvas, err e)
        | ok overwrites ↦
            then_draw
              (if overwrites
                then some (canvas, ok tt)
                else fill compositor.format.width cell compositor.empty_cell canvas)
              (paste_aspect_fit f fitted eq compositor.format.width input cell
                compositor.scaling_filter transform)
      ]

  unfoldable pub draw_source : Compositor → Source → Cell → Canvas → Drawing
  unfolding draw_frame
  draw_source compositor none cell canvas =
      fill compositor.format.width cell compositor.empty_cell canvas
  draw_source compositor (some (input, transform)) cell canvas =
      draw_frame compositor input transform cell canvas

  unfoldable pub draw_cells :
      Compositor → (frame_at : ℕ → Option Source) → List (ℕ × Cell) → Canvas → Drawing
  unfolding draw_source
  draw_cells compositor frame_at [] canvas = some (canvas, ok tt)
  draw_cells compositor frame_at ((index, cell) ∷ rest) canvas =
      then_draw (frame_at index >>= λ source. draw_source compositor source cell canvas)
        (draw_cells compositor frame_at rest)

  -- The background, where the cells leave a part of the output open.
  unfoldable pub draw_background : Compositor → List Cell → Canvas → Drawing
  draw_background compositor all canvas =
      if cells_cover_output all compositor.format.width compositor.format.height
      then some (canvas, ok tt)
      else fill compositor.format.width
          (whole_output compositor.format.width compositor.format.height) compositor.background
          canvas

  unfoldable pub draw_all :
      Compositor
      → (frame_count : ℕ) → CompositionLayout
      → (frame_at : ℕ → Option Source) → Canvas
      → Drawing
  unfolding draw_background draw_cells
  draw_all compositor frame_count layout frame_at canvas =
      let all = cells compositor.format.width compositor.format.height frame_count layout in
      then_draw (draw_background compositor all canvas)
        (draw_cells compositor frame_at (enumerate_from 0 all))

  -- The output and the cache are those that the caller finds after the call.
  unfoldable pub compose_with :
      Compositor
      → (frame_count : ℕ) → CompositionLayout
      → (frame_at : ℕ → Option Source) → SamplingCache
      → (output : Frame) → Option ((SamplingCache × Frame) × Checked (Unit {0}))
  unfolding draw_all
  compose_with compositor frame_count layout frame_at cache output =
      if frame_count == 0
      then some ((cache, output), err empty_input)
      else elim (validate_output compositor output) [
        | err e ↦ some ((cache, output), err e)
        | ok done ↦ (do
          drawn ←
              draw_all compositor frame_count layout frame_at
                (record { cache = cache; bytes = output.bytes })
          some ((drawn.0.cache, record output { bytes = drawn.0.bytes }), drawn.1))
      ]

  unfoldable pub compose_into_with_transforms :
      Compositor
      → List (Option Frame)
      → List SourceTransform
      → CompositionLayout
      → SamplingCache
      → (output : Frame) → Option ((SamplingCache × Frame) × Checked (Unit {0}))
  unfolding compose_with
  compose_into_with_transforms compositor frames transforms layout =
      compose_with compositor (length frames) layout (source_at frames transforms)

  unfoldable pub compose_into :
      Compositor
      → List (Option Frame)
      → CompositionLayout
      → SamplingCache
      → (output : Frame) → Option ((SamplingCache × Frame) × Checked (Unit {0}))
  unfolding compose_with
  compose_into compositor frames layout =
      compose_with compositor (length frames) layout (source_at frames [])

  unfoldable pub compose_captured_into_with_transforms :
      Compositor
      → List (Option CapturedFrame)
      → List SourceTransform
      → CompositionLayout
      → SamplingCache
      → (output : Frame) → Option ((SamplingCache × Frame) × Checked (Unit {0}))
  unfolding compose_with
  compose_captured_into_with_transforms compositor frames transforms layout =
      compose_with compositor (length frames) layout (captured_source_at frames transforms)

  unfoldable pub compose_captured_with_transforms :
      FrameLimits
      → Compositor
      → List (Option CapturedFrame)
      → List SourceTransform
      → CompositionLayout
      → SamplingCache
      → Option (SamplingCache × Checked Frame)
  unfolding compose_captured_into_with_transforms
  compose_captured_with_transforms limits compositor frames transforms layout cache =
      elim (allocate_output limits compositor) [
        | err e ↦ some (cache, err e)
        | ok output ↦
            composed_frame (
              compose_captured_into_with_transforms compositor frames transforms layout cache
                output)
      ]
