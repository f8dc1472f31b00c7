-- ===== src/Render/Cache/Transparent.antt =====
-- A map from the cache is the map that would be computed.
use mathlib.Core.Option.{some_inj}
use camera_man.Base.{
  ◌+◌, ◌≤◌, ◌≡◌, refl, sym, ◌∙◌, ap, arith, Bool, true, leb, Bool-cases, inl, inr, some,
  Option-cases, List, [], ◌∷◌, length,
}
use camera_man.Render.Bilinear.{Position}
use camera_man.Render.Cache.{
  SamplingCache, SamplingKey, TransformedSamplingKey, sampling_key_eq, filter_eq, sampling_map,
  transformed_sampling_map, lookup, get_map, get_transformed, cleared, max_sampling_maps,
}
use camera_man.Worker.{ScalingFilter, nearest, bilinear}

-- Each entry holds what its key computes to.
abbrev pub Computed {ℓ κ} : {K : Type ℓ} {V : Type κ} → (K → V) → List (K × V) → Type κ
Computed compute [] = Unit
Computed compute ((k, v) ∷ entries) = (v ≡ compute k) × Computed compute entries

lookup-Computed {ℓ κ} :
    {K : Type ℓ} {V : Type κ} (eq : K → K → Bool) (compute : K → V)
    → ((a b : K) → eq a b ≡ true → a ≡ b)
    → (entries : List (K × V)) (key : K) (v : V) → Computed compute entries
    → lookup eq entries key ≡ some v
    → v ≡ compute key
unfolding lookup
lookup-Computed eq compute exact [] key v c e = absurd (ground arith)
lookup-Computed eq compute exact ((k, v') ∷ entries) key v c e = elim (Bool-cases (eq k key)) [
  | inl same ↦
      let found : v' ≡ v = some_inj.0 (rw same at e) in
      sym found ∙ (c.0 ∙ ap compute (exact k key same))
  | inr other ↦ lookup-Computed eq compute exact entries key v c.1 (rw other at e)
]

pub filter_eq_exact : (a b : ScalingFilter) → filter_eq a b ≡ true → a ≡ b
filter_eq_exact nearest nearest e = refl
filter_eq_exact nearest bilinear e = absurd (ground arith)
filter_eq_exact bilinear nearest e = absurd (ground arith)
filter_eq_exact bilinear bilinear e = refl

sampling_key_eq_exact : (a b : SamplingKey) → sampling_key_eq a b ≡ true → a ≡ b
sampling_key_eq_exact a b e =
    let w : a.source_width ≡ b.source_width = ground arith in
    let h : a.source_height ≡ b.source_height = ground arith in
    let dw : a.dest_width ≡ b.dest_width = ground arith in
    let dh : a.dest_height ≡ b.dest_height = ground arith in
    let same : filter_eq a.scaling_filter b.scaling_filter ≡ true = ground arith in
    let filter = filter_eq_exact a.scaling_filter b.scaling_filter same in
    λ i. record {
      source_width = w i;
      source_height = h i;
      dest_width = dw i;
      dest_height = dh i;
      scaling_filter = filter i;
    }

-- The cache is small, and each of its maps is the one that its key computes to.
pub record IsSound (position : Position) (cache : SamplingCache) : Type 0 where
  pub small : length cache.maps + length cache.transformed_maps ≤ max_sampling_maps
  pub maps : Computed (sampling_map position) cache.maps
  pub transformed : Computed (transformed_sampling_map position) cache.transformed_maps

cleared-IsSound :
    (position : Position) (cache : SamplingCache)
    → IsSound position cache
    → IsSound position (cleared cache)
      × (length (cleared cache).maps + length (cleared cache).transformed_maps + 1
          ≤ max_sampling_maps)
cleared-IsSound position cache s =
    elim (Bool-cases (leb max_sampling_maps (length cache.maps + length cache.transformed_maps))) [
      | inl full ↦
          rw full (record { small = omega arith; maps = tt; transformed = tt }, omega arith)
      | inr room ↦ rw room (s, ground arith)
    ]

-- A cache whose maps are those that their keys compute to answers the map that the key computes to, found or
-- not, stays such a cache, and never holds more than 64 maps.
pub get_map-IsSound :
    (position : Position) (cache : SamplingCache) (key : SamplingKey)
    → IsSound position cache
    → ((get_map position cache key).1 ≡ sampling_map position key)
      × IsSound position (get_map position cache key).0
unfolding get_map sampling_map
get_map-IsSound position cache key s = elim (Option-cases (lookup sampling_key_eq cache.maps key)) [
  | inl missing ↦
      let empty = cleared-IsSound position cache s in
      rw (missing, get_map)
        (
          refl,
          record {
            small = omega (arith, empty.1);
            maps = (refl, empty.0.maps);
            transformed = empty.0.transformed;
          },
        )
  | inr (value, found) ↦
      rw (found, get_map)
        (
          lookup-Computed sampling_key_eq (sampling_map position) sampling_key_eq_exact cache.maps
              key value s.maps found,
          s,
        )
]

-- So does the store of the transformed frames, if the test of its keys is exact.
pub get_transformed-IsSound :
    (position : Position) (eq : TransformedSamplingKey → TransformedSamplingKey → Bool)
    (exact : (a b : TransformedSamplingKey) → eq a b ≡ true → a ≡ b) (cache : SamplingCache)
    (key : TransformedSamplingKey)
    → IsSound position cache
    → ((get_transformed eq position cache key).1 ≡ transformed_sampling_map position key)
      × IsSound position (get_transformed eq position cache key).0
unfolding get_transformed transformed_sampling_map
get_transformed-IsSound position eq exact cache key s =
    elim (Option-cases (lookup eq cache.transformed_maps key)) [
      | inl missing ↦
          let empty = cleared-IsSound position cache s in
          rw (missing, get_transformed)
            (
              refl,
              record {
                small = omega (arith, empty.1);
                maps = empty.0.maps;
                transformed = (refl, empty.0.transformed);
              },
            )
      | inr (value, found) ↦
          rw (found, get_transformed)
            (
              lookup-Computed eq (transformed_sampling_map position) exact cache.transformed_maps
                  key value s.transformed found,
              s,
            )
    ]
