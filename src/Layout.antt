-- ===== src/Layout.antt =====
-- How the composition divides the output into cells (src/layout.rs). The square root of the source
-- is taken in double precision, which is exact enough for every count of 32 bits: here it is the
-- least number whose square is not smaller. The number of columns is 0 only for a count that is a
-- positive multiple of 2 ^ 32, where the source divides by zero.
pub mod Edges
pub mod Inside
use camera_man.Base.{
  ℕ, zero, suc, ◌+◌, ◌-◌, ◌*◌, ◌/◌, ◌%◌, min, max, List, [], ◌∷◌, map, ltb, leb, ◌==◌,
  if◌then◌else◌, indices, u32_mod, u32_max, saturating_mul32,
}

pub data CompositionLayout : Type 0 where
  row : CompositionLayout
  column : CompositionLayout
  grid : CompositionLayout
  picture_in_picture : CompositionLayout

pub record GridLayout : Type 0 where
  pub columns : ℕ
  pub rows : ℕ

pub record Cell : Type 0 where
  pub x : ℕ
  pub y : ℕ
  pub width : ℕ
  pub height : ℕ

-- The least number whose square is not below `n`.
unfoldable pub ceil_sqrt : ℕ → ℕ
ceil_sqrt zero = 0
ceil_sqrt (suc n) = let root = ceil_sqrt n in if leb (suc n) (root * root) then root else suc root

abbrev pub div_ceil : ℕ → ℕ → ℕ
div_ceil a b = if a % b == 0 then a / b else a / b + 1

-- `max(1) as u32`.
abbrev pub source_count : ℕ → ℕ
source_count count = max count 1 % u32_mod

unfoldable pub grid_size : (count : ℕ) → CompositionLayout → GridLayout
grid_size count row = record { columns = source_count count; rows = 1 }
grid_size count column = record { columns = 1; rows = source_count count }
grid_size count grid =
    let columns = ceil_sqrt (source_count count) in
    record { columns = columns; rows = div_ceil (source_count count) columns }
grid_size count picture_in_picture = record { columns = 1; rows = 1 }

-- The grid line number `index` of `divisions` over `total` pixels.
unfoldable pub edge : (total divisions index : ℕ) → ℕ
edge total divisions index = index * total / max divisions 1 % u32_mod

unfoldable pub grid_cell : (output_width output_height : ℕ) → GridLayout → (index : ℕ) → Cell
unfolding edge
grid_cell output_width output_height g index =
    let column = index % u32_mod % g.columns in
    let row = index % u32_mod / g.columns in
    let x = edge output_width g.columns column in
    let y = edge output_height g.rows row in
    record {
      x = x;
      y = y;
      width = edge output_width g.columns (column + 1) - x;
      height = edge output_height g.rows (row + 1) - y;
    }

abbrev pub overlay_margin : (output_width output_height : ℕ) → ℕ
overlay_margin output_width output_height =
    min (min (min output_width output_height / 50) (output_width / 4)) (output_height / 4)

-- The overlay number `index` of a picture in picture, counted from the bottom.
unfoldable pub overlay_cell : (output_width output_height overlay_count index : ℕ) → Cell
overlay_cell output_width output_height overlay_count index =
    let margin = overlay_margin output_width output_height in
    let available_height = output_height - saturating_mul32 margin 2 in
    let available_width = output_width - saturating_mul32 margin 2 in
    let overlay_width = min (max (output_width / 4) 1) available_width in
    let slot_from_top = overlay_count - index - 1 in
    let slot_top = margin + edge available_height overlay_count slot_from_top in
    let slot_bottom = margin + edge available_height overlay_count (slot_from_top + 1) in
    let height = min (max (output_height / 4) 1) (slot_bottom - slot_top) in
    record {
      x = output_width - margin - overlay_width;
      y = slot_bottom - height;
      width = overlay_width;
      height = height;
    }

abbrev pub whole_output : (output_width output_height : ℕ) → Cell
whole_output output_width output_height = record {
  x = 0;
  y = 0;
  width = output_width;
  height = output_height;
}

-- For one source there is no overlay. `min` is the conversion to 32 bits that stops at the top.
unfoldable pub picture_in_picture_cells : (output_width output_height count : ℕ) → List Cell
picture_in_picture_cells output_width output_height count =
    let overlay_count = min (max count 1 - 1) u32_max in
    whole_output output_width output_height
    ∷ map (overlay_cell output_width output_height overlay_count) (indices 0 overlay_count)

abbrev pub grid_cells : (output_width output_height count : ℕ) → GridLayout → List Cell
grid_cells output_width output_height count g =
    map (grid_cell output_width output_height g) (indices 0 (max count 1))

unfoldable pub cells : (output_width output_height count : ℕ) → CompositionLayout → List Cell
cells output_width output_height count row =
    grid_cells output_width output_height count (grid_size count row)
cells output_width output_height count column =
    grid_cells output_width output_height count (grid_size count column)
cells output_width output_height count grid =
    grid_cells output_width output_height count (grid_size count grid)
cells output_width output_height count picture_in_picture =
    picture_in_picture_cells output_width output_height count
