-- ===== src/Render/Cache.antt =====
-- src/render.rs, `SamplingCache`: the sampling maps that are kept from one frame to the next, in two
-- stores that are emptied together. A hash map is a list of entries; two entries never have one key.
pub mod Transparent
pub mod Keys
use camera_man.Base.{
  ℕ, ◌+◌, ◌*◌, Bool, true, false, ◌&&◌, ◌==◌, leb, if◌then◌else◌, Option, none, some, List, [], ◌∷◌,
  map, length, indices,
}
use camera_man.Media.Contract.{FrameContract}
use camera_man.Render.Bilinear.{Position, linear_sample, sample_at}
use camera_man.Render.Paste.{x_offsets, y_rows}
use camera_man.Render.Sampling.{LinearSample, x_coordinates, y_coordinates}
use camera_man.Media.Coordinates.{display_dimensions}
use camera_man.Worker.{ScalingFilter, nearest, bilinear}

pub record SamplingKey : Type 0 where
  pub source_width : ℕ
  pub source_height : ℕ
  pub dest_width : ℕ
  pub dest_height : ℕ
  pub scaling_filter : ScalingFilter

pub data SamplingMap : Type 0 where
  nearest_map : (xs ys : List ℕ) → SamplingMap
  bilinear_map : (xs ys : List LinearSample) → SamplingMap

pub record TransformedSamplingKey : Type 0 where
  pub contract : FrameContract
  pub source_x : ℕ
  pub source_y : ℕ
  pub source_width : ℕ
  pub source_height : ℕ
  pub dest_width : ℕ
  pub dest_height : ℕ
  pub scaling_filter : ScalingFilter

abbrev pub max_sampling_maps : ℕ
max_sampling_maps = 64

abbrev pub filter_eq : ScalingFilter → ScalingFilter → Bool
filter_eq nearest nearest = true
filter_eq nearest bilinear = false
filter_eq bilinear nearest = false
filter_eq bilinear bilinear = true

abbrev pub sampling_key_eq : SamplingKey → SamplingKey → Bool
sampling_key_eq a b =
    a.source_width == b.source_width
    && (a.source_height == b.source_height
        && (a.dest_width == b.dest_width
            && (a.dest_height == b.dest_height && filter_eq a.scaling_filter b.scaling_filter)))

-- The map that a miss computes.
unfoldable pub sampling_map : Position → SamplingKey → SamplingMap
sampling_map position k = elim k.scaling_filter [
  | nearest ↦
      nearest_map (x_offsets k.source_width k.dest_width)
        (y_rows k.source_width k.source_height k.dest_height)
  | bilinear ↦
      bilinear_map
        (map (λ x. linear_sample position x k.source_width k.dest_width) (indices 0 k.dest_width))
        (map (λ y. linear_sample position y k.source_height k.dest_height)
          (indices 0 k.dest_height))
]

unfoldable pub transformed_sampling_map : Position → TransformedSamplingKey → SamplingMap
transformed_sampling_map position k =
    let (display_width, display_height) = display_dimensions k.contract in
    elim k.scaling_filter [
      | nearest ↦
          nearest_map (x_coordinates k.contract k.source_x k.source_width k.dest_width)
            (y_coordinates k.contract k.source_y k.source_height k.dest_height)
      | bilinear ↦
          bilinear_map
            (map
              (sample_at position k.source_x k.source_width k.dest_width display_width
                k.contract.transform.mirror_horizontal)
              (indices 0 k.dest_width))
            (map
              (sample_at position k.source_y k.source_height k.dest_height display_height
                k.contract.transform.mirror_vertical)
              (indices 0 k.dest_height))
    ]

pub record SamplingCache : Type 0 where
  pub maps : List (SamplingKey × SamplingMap)
  pub transformed_maps : List (TransformedSamplingKey × SamplingMap)

module _ {ℓ κ} {K : Type ℓ} {V : Type κ} (eq : K → K → Bool) where
  unfoldable pub lookup : List (K × V) → K → Option V
  lookup [] key = none
  lookup ((k, v) ∷ entries) key = if eq k key then some v else lookup entries key

abbrev pub cleared : SamplingCache → SamplingCache
cleared cache =
    if leb max_sampling_maps (length cache.maps + length cache.transformed_maps)
    then record { maps = []; transformed_maps = [] }
    else cache

abbrev insert_map : SamplingCache → SamplingKey → SamplingMap → SamplingCache
insert_map cache key value = record cache { maps = (key, value) ∷ cache.maps }

abbrev insert_transformed : SamplingCache → TransformedSamplingKey → SamplingMap → SamplingCache
insert_transformed cache key value = record cache {
  transformed_maps = (key, value) ∷ cache.transformed_maps;
}

unfoldable pub get_map : Position → SamplingCache → SamplingKey → SamplingCache × SamplingMap
unfolding lookup sampling_map
get_map position cache key = elim (lookup sampling_key_eq cache.maps key) [
  | some value ↦ (cache, value)
  | none ↦ (insert_map (cleared cache) key (sampling_map position key), sampling_map position key)
]

-- `eq` is the equality of keys that the compiler derives.
unfoldable pub get_transformed :
    (eq : TransformedSamplingKey → TransformedSamplingKey → Bool)
    → Position
    → SamplingCache
    → TransformedSamplingKey
    → SamplingCache × SamplingMap
unfolding lookup transformed_sampling_map
get_transformed eq position cache key = elim (lookup eq cache.transformed_maps key) [
  | some value ↦ (cache, value)
  | none ↦ (
    insert_transformed (cleared cache) key (transformed_sampling_map position key),
    transformed_sampling_map position key,
  )
]
