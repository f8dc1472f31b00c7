-- ===== src/Render/Paste.antt =====
-- src/render.rs: the loops that write pixels, on the bytes of an output of a given width. A slice out
-- of range panics: the answer is `none`. The parallel loop of the nearest filter writes the same rows.
pub mod Safe
pub mod Upright
use camera_man.Base.{
  ℕ, ◌+◌, ◌-◌, ◌*◌, ◌≡◌, min, Bool, true, false, ◌&&◌, ◌||◌, ◌==◌, if◌then◌else◌, Option, none,
  some, List, [], ◌∷◌, ◌++◌, map, length, indices, get_elem?, get_range, copy_at, try_fold,
  enumerate_from,
}
use camera_man.Base.Options.{◌>>=◌}
use camera_man.Layout.{Cell}
use camera_man.Media.Contract.{FrameContract}
use camera_man.Media.Transform.{transform_scale}
use camera_man.Render.Placement.{TransformedPlacement}
use camera_man.Render.Sampling.{
  nearest_source_coordinate, transformed_source_offset, blend_weighted_channel,
}

abbrev is_whole : (width height : ℕ) → Cell → Bool
is_whole width height cell =
    cell.x == 0 && (cell.y == 0 && (cell.width == width && cell.height == height))

abbrev any_whole : (width height : ℕ) → List Cell → Bool
any_whole width height [] = false
any_whole width height (cell ∷ cells) = is_whole width height cell || any_whole width height cells

abbrev area_sum : List Cell → ℕ
area_sum [] = 0
area_sum (cell ∷ cells) = cell.width * cell.height + area_sum cells

unfoldable pub cells_cover_output : List Cell → (width height : ℕ) → Bool
cells_cover_output cells width height =
    any_whole width height cells || area_sum cells == width * height

-- The offset of the byte that a pixel begins at.
abbrev pub pixel_offset : (width x y : ℕ) → ℕ
pixel_offset width x y = (y * width + x) * 4

-- The row that `fill_cell` copies from, pixel by pixel.
unfoldable pub fill_first_row :
    (output_width : ℕ) → Cell → (bgra : List ℕ) → List ℕ → Option (List ℕ)
fill_first_row output_width cell bgra bytes =
    try_fold (λ x row. copy_at row (pixel_offset output_width cell.x cell.y + x * 4) bgra)
      (indices 0 cell.width) bytes

unfoldable pub copy_first_row : (output_width : ℕ) → Cell → (y : ℕ) → List ℕ → Option (List ℕ)
copy_first_row output_width cell y bytes = do
  row ← get_range bytes (pixel_offset output_width cell.x cell.y) (cell.width * 4)
  copy_at bytes (pixel_offset output_width cell.x y) row

unfoldable pub fill_cell : (output_width : ℕ) → Cell → (bgra : List ℕ) → List ℕ → Option (List ℕ)
fill_cell output_width cell bgra bytes =
    if cell.width == 0 || cell.height == 0 then some bytes else (do
      filled ← fill_first_row output_width cell bgra bytes
      try_fold (copy_first_row output_width cell) (indices (cell.y + 1) (cell.height - 1)) filled)

unfoldable pub paste_unscaled :
    (output_width input_width : ℕ)
    → (input : List ℕ) → (dest_x dest_y dest_width dest_height : ℕ) → List ℕ
    → Option (List ℕ)
paste_unscaled output_width input_width input dest_x dest_y dest_width dest_height bytes =
    try_fold
      (λ row output. do
        source ← get_range input (row * (input_width * 4)) (dest_width * 4)
        copy_at output ((dest_y + row) * (output_width * 4) + dest_x * 4) source)
      (indices 0 dest_height) bytes

-- The offsets that `SamplingCache::get` prepares for the nearest filter.
unfoldable pub x_offsets : (source_width dest_width : ℕ) → List ℕ
x_offsets source_width dest_width =
    map (λ x. nearest_source_coordinate x source_width dest_width * 4) (indices 0 dest_width)

unfoldable pub y_rows : (source_width source_height dest_height : ℕ) → List ℕ
y_rows source_width source_height dest_height =
    map (λ y. nearest_source_coordinate y source_height dest_height * source_width * 4)
      (indices 0 dest_height)

-- A pixel of one row of the output, from the row of the source at `source_row_offset`.
unfoldable pub paste_nearest_pixel :
    (input : List ℕ) (source_row_offset dest_x : ℕ) → ℕ × ℕ → List ℕ → Option (List ℕ)
paste_nearest_pixel input source_row_offset dest_x (x, source_x_offset) row = do
  source ← get_range input (source_row_offset + source_x_offset) 4
  copy_at row ((dest_x + x) * 4) source

unfoldable pub paste_nearest_row :
    (input : List ℕ) (source_row_offset dest_x : ℕ) (source_x_offsets : List ℕ)
    → List ℕ
    → Option (List ℕ)
unfolding paste_nearest_pixel
paste_nearest_row input source_row_offset dest_x source_x_offsets row =
    try_fold (paste_nearest_pixel input source_row_offset dest_x)
      (enumerate_from 0 source_x_offsets) row

-- The rows of the destination are cut out, written and put back.
unfoldable pub paste_nearest :
    (output_width : ℕ) (input : List ℕ) (dest_x dest_y dest_height : ℕ)
    (source_x_offsets source_rows : List ℕ)
    → List ℕ
    → Option (List ℕ)
unfolding paste_nearest_row
paste_nearest output_width input dest_x dest_y dest_height source_x_offsets source_rows bytes =
    try_fold
      (λ y output. do
        row ← get_range output ((dest_y + y) * (output_width * 4)) (output_width * 4)
        source_row ← get_elem? source_rows y
        pasted ← paste_nearest_row input source_row dest_x source_x_offsets row
        copy_at output ((dest_y + y) * (output_width * 4)) pasted)
      (indices 0 dest_height) bytes

-- The three channels of a pixel, blended with what is there.
abbrev blend_pixel : (opacity : ℕ) → (source destination : List ℕ) → List ℕ
blend_pixel opacity [] destination = []
blend_pixel opacity (s ∷ source) [] = []
blend_pixel opacity (s ∷ source) (d ∷ destination) =
    blend_weighted_channel (s * 65536) d opacity ∷ blend_pixel opacity source destination

unfoldable pub transformed_pixel : (opacity_per_mille : ℕ) → (source destination : List ℕ) → List ℕ
transformed_pixel opacity_per_mille source destination =
    (if opacity_per_mille == transform_scale
      then source
      else blend_pixel (min opacity_per_mille transform_scale) source destination)
    ++ (255 ∷ [])

-- One pixel of the nearest filter: the pixel of the source, in the pixel of the destination.
unfoldable pub paste_transformed_pixel :
    (output_width input_width : ℕ) (input : List ℕ)
    → FrameContract
    → (opacity_per_mille : ℕ) → TransformedPlacement
    → (y source_y : ℕ) → ℕ × ℕ
    → List ℕ
    → Option (List ℕ)
paste_transformed_pixel output_width input_width input c opacity p y source_y (x, source_x) output =
    do
      let destination_offset = (p.dest_y + y) * output_width * 4 + (p.dest_x + x) * 4
      destination ← get_range output destination_offset 4
      source ← get_range input (transformed_source_offset c input_width source_x source_y) 3
      copy_at output destination_offset (transformed_pixel opacity source destination)

unfoldable pub paste_transformed_row :
    (output_width input_width : ℕ) (input : List ℕ)
    → FrameContract
    → (opacity_per_mille : ℕ) → TransformedPlacement
    → (x_coordinates : List ℕ) → ℕ × ℕ
    → List ℕ
    → Option (List ℕ)
unfolding paste_transformed_pixel
paste_transformed_row output_width input_width input c opacity p x_coordinates (y, source_y)
      output =
    try_fold (paste_transformed_pixel output_width input_width input c opacity p y source_y)
      (enumerate_from 0 x_coordinates) output

unfoldable pub paste_transformed_nearest :
    (output_width input_width : ℕ) (input : List ℕ)
    → FrameContract
    → (opacity_per_mille : ℕ) → TransformedPlacement
    → (x_coordinates y_coordinates : List ℕ) → List ℕ
    → Option (List ℕ)
unfolding paste_transformed_row
paste_transformed_nearest output_width input_width input c opacity p x_coordinates y_coordinates
      output =
    try_fold (paste_transformed_row output_width input_width input c opacity p x_coordinates)
      (enumerate_from 0 y_coordinates) output
