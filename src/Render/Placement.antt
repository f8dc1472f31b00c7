-- ===== src/Render/Placement.antt =====
-- src/render.rs, `transformed_placement` and `frame_fully_overwrites_cell`: where in its cell a frame
-- is drawn, and which part of its display. The size that a display fits its cell with is rounded from
-- a product in single precision: `fitted` is what it rounds to, and nothing is assumed of it.
pub mod Inside
use camera_man.Base.{
  ℕ, ◌+◌, ◌-◌, ◌*◌, ◌/◌, min, max, Bool, true, false, not, ◌&&◌, ◌||◌, ◌==◌, ◌!=◌, ltb,
  if◌then◌else◌, Result, ok, err, ◌>>=◌, ◌>>◌,
}
use camera_man.Error.{Checked}
use camera_man.Frame.Buffer.{Frame}
use camera_man.Layout.{Cell}
use camera_man.Media.Colorimetry.{AlphaMode, opaque, straight, premultiplied}
use camera_man.Media.Contract.{FrameContract, validate_contract}
use camera_man.Media.Coordinates.{display_dimensions}
use camera_man.Media.Transform.{
  SourceTransform, fit, fill, validate_transform, apply_to_contract, transform_scale,
}
use camera_man.Render.Sampling.{positioned_offset}

pub record TransformedPlacement : Type 0 where
  pub dest_width : ℕ
  pub dest_height : ℕ
  pub dest_x : ℕ
  pub dest_y : ℕ
  pub source_x : ℕ
  pub source_y : ℕ
  pub source_width : ℕ
  pub source_height : ℕ

-- `SourceFit::Fit`: the whole display, in a part of the cell.
unfoldable pub fit_placement :
    (fitted display : ℕ × ℕ) → Cell → SourceTransform → TransformedPlacement
fit_placement (fitted_width, fitted_height) (display_width, display_height) cell transform =
    let dest_width = min (max fitted_width 1) cell.width in
    let dest_height = min (max fitted_height 1) cell.height in
    record {
      dest_width = dest_width;
      dest_height = dest_height;
      dest_x = cell.x + positioned_offset (cell.width - dest_width) transform.position_x_per_mille;
      dest_y =
          cell.y + positioned_offset (cell.height - dest_height) transform.position_y_per_mille;
      source_x = 0;
      source_y = 0;
      source_width = display_width;
      source_height = display_height;
    }

-- The part of the display that has the shape of the cell.
unfoldable pub fill_window : (display : ℕ × ℕ) → Cell → ℕ × ℕ
fill_window (display_width, display_height) cell =
    if ltb (display_height * cell.width) (display_width * cell.height)
    then (min (max (display_height * cell.width / cell.height) 1) display_width, display_height)
    else (display_width, min (max (display_width * cell.height / cell.width) 1) display_height)

-- `SourceFit::Fill`: a part of the display, in the whole cell.
unfoldable pub fill_placement : (display : ℕ × ℕ) → Cell → SourceTransform → TransformedPlacement
unfolding fill_window
fill_placement (display_width, display_height) cell transform =
    let (source_width, source_height) = fill_window (display_width, display_height) cell in
    record {
      dest_width = cell.width;
      dest_height = cell.height;
      dest_x = cell.x;
      dest_y = cell.y;
      source_x = positioned_offset (display_width - source_width) transform.position_x_per_mille;
      source_y = positioned_offset (display_height - source_height) transform.position_y_per_mille;
      source_width = source_width;
      source_height = source_height;
    }

unfoldable pub transformed_placement :
    (fitted : ℕ × ℕ) → FrameContract → Cell → SourceTransform → TransformedPlacement
unfolding fit_placement fill_placement
transformed_placement fitted contract cell transform = elim transform.source_fit [
  | fit ↦ fit_placement fitted (display_dimensions contract) cell transform
  | fill ↦ fill_placement (display_dimensions contract) cell transform
]

abbrev pub fills_cell : TransformedPlacement → Cell → Bool
fills_cell p cell =
    p.dest_x == cell.x
    && (p.dest_y == cell.y && (p.dest_width == cell.width && p.dest_height == cell.height))

abbrev pub is_opaque : AlphaMode → Bool
is_opaque opaque = true
is_opaque straight = false
is_opaque premultiplied = false

-- What the size of a display rounds to, fitted into a cell.
abbrev pub Fitted : Type 0
Fitted = (display : ℕ × ℕ) → Cell → ℕ × ℕ

unfoldable pub frame_fully_overwrites_cell : Fitted → Frame → Cell → SourceTransform → Checked Bool
frame_fully_overwrites_cell fitted input cell transform =
    if cell.width == 0 || cell.height == 0 then ok true else (do
      validate_transform transform
      validate_contract input.contract input.width input.height
      if not (is_opaque input.contract.colorimetry.alpha)
            || (transform.opacity_per_mille != transform_scale)
          then ok false
          else (do
            contract ← apply_to_contract transform input.contract input.width input.height
            ok (
                fills_cell
                  (transformed_placement (fitted (display_dimensions contract) cell) contract cell
                    transform)
                  cell)))
