-- ===== src/Tests/Picture.antt =====
-- Five cells, and a frame of two pixels drawn in one of them.
use camera_man.Base.{ℕ, ◌≡◌, ◌≢◌, inl, refl, arith, List, [], replicate}
use camera_man.Layout.{Cell, grid, picture_in_picture, cells, grid_size, ceil_sqrt, grid_cell, edge}
use camera_man.Layout.Inside.{cells-Apart}
use camera_man.Layout.Inside.Grid.{Inside, Apart}
use camera_man.Media.Contract.{canonical_bgra}
use camera_man.Media.Contract.Validity.{Fits}
use camera_man.Media.Coordinates.{display_dimensions}
use camera_man.Media.Transform.{default_transform}
use camera_man.Render.Bilinear.{Position}
use camera_man.Render.Cache.{SamplingCache, SamplingKey, get_map, sampling_map}
use camera_man.Render.Cache.Transparent.{IsSound, get_map-IsSound}
use camera_man.Render.Placement.{TransformedPlacement, transformed_placement}
use camera_man.Render.Placement.Inside.{IsPlaced, transformed_placement-IsPlaced}
use camera_man.Worker.{nearest}

not_overlaid : grid ≢ picture_in_picture
not_overlaid e = absurd (ground arith)

cells-Apart_example :
    Apart
      (record { x = 2; y = 0; width = 2; height = 2 })
      (record { x = 2; y = 2; width = 2; height = 3 })
unfolding cells grid_size ceil_sqrt grid_cell edge
cells-Apart_example =
    cells-Apart 7 5 5 (omega arith) (omega arith) (omega arith) grid 1 4
      (record { x = 2; y = 0; width = 2; height = 2 })
      (record { x = 2; y = 2; width = 2; height = 3 }) (omega arith) (omega arith)
      (inl not_overlaid) refl refl

abbrev wide_cell : Cell
wide_cell = record { x = 1; y = 0; width = 3; height = 2 }

abbrev placement : TransformedPlacement
placement = transformed_placement (3, 2) (canonical_bgra 2 1) wide_cell default_transform

placed : IsPlaced wide_cell (display_dimensions (canonical_bgra 2 1)) placement
unfolding display_dimensions canonical_bgra
placed =
    transformed_placement-IsPlaced (3, 2) (canonical_bgra 2 1) wide_cell default_transform
      (omega arith) (omega arith) (omega arith) (omega arith) (omega arith) (omega arith)
      (omega arith) (omega arith)

whole_frame : Fits (canonical_bgra 2 1).clean_aperture 2 1
unfolding canonical_bgra
whole_frame = record {
  wide = omega arith;
  high = omega arith;
  right = omega arith;
  bottom = omega arith;
}

in_output : Inside 4 2 wide_cell
in_output = (omega arith, omega arith)

abbrev black : List ℕ
black = replicate 32 0

abbrev positions : Position
positions dest source_size dest_size = (dest, 128)

abbrev empty_cache : SamplingCache
empty_cache = record { maps = []; transformed_maps = [] }

abbrev some_key : SamplingKey
some_key = record {
  source_width = 2;
  source_height = 1;
  dest_width = 3;
  dest_height = 2;
  scaling_filter = nearest;
}

get_map-IsSound_example :
    ((get_map positions empty_cache some_key).1 ≡ sampling_map positions some_key)
    × IsSound positions (get_map positions empty_cache some_key).0
get_map-IsSound_example =
    get_map-IsSound positions empty_cache some_key
      (record { small = omega arith; maps = tt; transformed = tt })
