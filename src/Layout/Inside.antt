-- ===== src/Layout/Inside.antt =====
-- The cells of a layout: how many there are, and that they stay inside the output and apart.
pub mod Grid
pub mod Overlay
use mathlib.Core.Option.{some_inj}
use native.Mathlib.Nat.{mod-eq_of_lt, mod-lt, div-add-mod'}
use camera_man.Base.{
  ℕ, zero, suc, ◌+◌, ◌-◌, ◌*◌, ◌/◌, ◌%◌, ◌≤◌, ◌<◌, ◌≡◌, ◌≢◌, ◌⊎◌, inl, inr, refl, ◌∙◌, ap, min, max,
  arith, ◌==◌, if◌then◌else◌, u32_mod, u32_max, Bool-cases, Option, some, length, get_elem?,
  indices, map, length-map, length-indices, get_elem?-map-indices, length-map-indices, sym, subst,
}
use camera_man.Layout.{
  Cell, GridLayout, CompositionLayout, row, column, grid, picture_in_picture, cells, grid_size,
  grid_cell, grid_cells, overlay_cell, picture_in_picture_cells, whole_output, ceil_sqrt, div_ceil,
  source_count,
}
use camera_man.Layout.Edges.{ceil_sqrt_least}
use camera_man.Layout.Inside.Grid.{Inside, Apart, Holds, grid_cell-Inside, grid_cell-Apart}
use camera_man.Layout.Inside.Overlay.{overlay_cell-Inside, overlay_cell-Apart}

next_multiple : (a q r b : ℕ) → q * b + r ≡ a → r < b → a ≤ (q + 1) * b
next_multiple a q r b e h = grind arith

div_ceil_le : (a b : ℕ) → 0 < b → a ≤ div_ceil a b * b
div_ceil_le a b p =
    let whole = div-add-mod' a b in
    let rest : a % b < b = mod-lt a p in
    elim (Bool-cases (a % b == 0)) [
      | inl even ↦ rw even (ground arith)
      | inr odd ↦ rw odd (next_multiple a (a / b) (a % b) b whole rest)
    ]

positive_of_mul : (a b n : ℕ) → n ≤ a * b → 0 < n → (0 < a) × (0 < b)
positive_of_mul zero b n h p = absurd (omega arith)
positive_of_mul (suc a) zero n h p = absurd (omega arith)
positive_of_mul (suc a) (suc b) n h p = (omega arith, omega arith)

-- Every layout that is a grid has room for its cells.
grid_size-Holds :
    (count : ℕ) (layout : CompositionLayout)
    → max count 1 < u32_mod
    → layout ≢ picture_in_picture
    → Holds (grid_size count layout) (max count 1)
unfolding grid_size
grid_size-Holds count row f h =
    let same : source_count count ≡ max count 1 = mod-eq_of_lt f in
    rw same (omega arith, (omega arith, omega arith))
grid_size-Holds count column f h =
    let same : source_count count ≡ max count 1 = mod-eq_of_lt f in
    rw same (omega arith, (omega arith, omega arith))
grid_size-Holds count grid f h =
    let same : source_count count ≡ max count 1 = mod-eq_of_lt f in
    let n = max count 1 in
    let square =
      positive_of_mul (ceil_sqrt n) (ceil_sqrt n) n (ceil_sqrt_least n).0 (omega arith) in
    let full = div_ceil_le n (ceil_sqrt n) square.0 in
    rw same (
      square.0,
      ((positive_of_mul (div_ceil n (ceil_sqrt n)) (ceil_sqrt n) n full (omega arith)).0, full),
    )
grid_size-Holds count picture_in_picture f h = absurd (h refl)

-- The cell number `index` of each layout.
abbrev cell_at : (w h count : ℕ) → CompositionLayout → ℕ → Cell
cell_at w h count row index = grid_cell w h (grid_size count row) index
cell_at w h count column index = grid_cell w h (grid_size count column) index
cell_at w h count grid index = grid_cell w h (grid_size count grid) index
cell_at w h count picture_in_picture zero = whole_output w h
cell_at w h count picture_in_picture (suc index) =
    overlay_cell w h (min (max count 1 - 1) u32_max) index

cells-cell_at :
    (w h count : ℕ) (layout : CompositionLayout) (i : ℕ)
    → max count 1 < u32_mod
    → i < max count 1
    → get_elem? (cells w h count layout) i ≡ some (cell_at w h count layout i)
unfolding cells picture_in_picture_cells
cells-cell_at w h count row i f k =
    get_elem?-map-indices (grid_cell w h (grid_size count row)) (max count 1) i k
cells-cell_at w h count column i f k =
    get_elem?-map-indices (grid_cell w h (grid_size count column)) (max count 1) i k
cells-cell_at w h count grid i f k =
    get_elem?-map-indices (grid_cell w h (grid_size count grid)) (max count 1) i k
cells-cell_at w h count picture_in_picture zero f k = refl
cells-cell_at w h count picture_in_picture (suc i) f k =
    let n = min (max count 1 - 1) u32_max in
    get_elem?-map-indices (overlay_cell w h n) n i (omega arith)

-- There is one cell for each source, and one where there is none.
pub length-cells :
    (w h count : ℕ) (layout : CompositionLayout)
    → max count 1 < u32_mod
    → length (cells w h count layout) ≡ max count 1
unfolding cells picture_in_picture_cells
length-cells w h count row f =
    length-map-indices (grid_cell w h (grid_size count row)) (max count 1)
length-cells w h count column f =
    length-map-indices (grid_cell w h (grid_size count column)) (max count 1)
length-cells w h count grid f =
    length-map-indices (grid_cell w h (grid_size count grid)) (max count 1)
length-cells w h count picture_in_picture f =
    let n = min (max count 1 - 1) u32_max in
    let counted = length-map-indices (overlay_cell w h n) n in omega (arith, counted)

module _ (w h count : ℕ) (fw : w < u32_mod) (fh : h < u32_mod) (fn : max count 1 < u32_mod) where
  cell_at-Inside :
      (layout : CompositionLayout) (i : ℕ)
      → i < max count 1
      → Inside w h (cell_at w h count layout i)
  cell_at-Inside row i k =
      grid_cell-Inside w h (max count 1) (grid_size count row) fw fh fn
        (grid_size-Holds count row fn (λ e. absurd (ground arith))) i k
  cell_at-Inside column i k =
      grid_cell-Inside w h (max count 1) (grid_size count column) fw fh fn
        (grid_size-Holds count column fn (λ e. absurd (ground arith))) i k
  cell_at-Inside grid i k =
      grid_cell-Inside w h (max count 1) (grid_size count grid) fw fh fn
        (grid_size-Holds count grid fn (λ e. absurd (ground arith))) i k
  cell_at-Inside picture_in_picture zero k = (omega arith, omega arith)
  cell_at-Inside picture_in_picture (suc i) k =
      overlay_cell-Inside w h (min (max count 1 - 1) u32_max) fw fh i (omega arith)

  cell_at-Apart :
      (layout : CompositionLayout) (i j : ℕ)
      → i < j
      → j < max count 1
      → (layout ≢ picture_in_picture) ⊎ (0 < i)
      → Apart (cell_at w h count layout i) (cell_at w h count layout j)
  cell_at-Apart row i j l k o =
      grid_cell-Apart w h (max count 1) (grid_size count row) fw fh fn
        (grid_size-Holds count row fn (λ e. absurd (ground arith))) i j l k
  cell_at-Apart column i j l k o =
      grid_cell-Apart w h (max count 1) (grid_size count column) fw fh fn
        (grid_size-Holds count column fn (λ e. absurd (ground arith))) i j l k
  cell_at-Apart grid i j l k o =
      grid_cell-Apart w h (max count 1) (grid_size count grid) fw fh fn
        (grid_size-Holds count grid fn (λ e. absurd (ground arith))) i j l k
  cell_at-Apart picture_in_picture i zero l k o = absurd (omega arith)
  cell_at-Apart picture_in_picture zero (suc j) l k (inl o) = absurd (o refl)
  cell_at-Apart picture_in_picture zero (suc j) l k (inr o) = absurd (omega arith)
  cell_at-Apart picture_in_picture (suc i) (suc j) l k o =
      overlay_cell-Apart w h (min (max count 1 - 1) u32_max) fw fh i j (omega arith) (omega arith)

  -- Each cell of a layout lies inside the output, for sizes and counts of 32 bits.
  pub cells-Inside :
      (layout : CompositionLayout) (i : ℕ) (c : Cell)
      → i < max count 1
      → get_elem? (cells w h count layout) i ≡ some c
      → Inside w h c
  cells-Inside layout i c k e =
      let same = some_inj.0 (sym (cells-cell_at w h count layout i fn k) ∙ e) in
      subst (λ c. Inside w h c) same (cell_at-Inside layout i k)

  -- No pixel belongs to two cells of a row, a column or a grid, nor to two overlays of a picture in
  -- picture, for sizes and counts of 32 bits.
  pub cells-Apart :
      (layout : CompositionLayout) (i j : ℕ) (a b : Cell)
      → i < j
      → j < max count 1
      → (layout ≢ picture_in_picture) ⊎ (0 < i)
      → get_elem? (cells w h count layout) i ≡ some a
      → get_elem? (cells w h count layout) j ≡ some b
      → Apart a b
  cells-Apart layout i j a b l k o e e' =
      let same = some_inj.0 (sym (cells-cell_at w h count layout i fn (omega arith)) ∙ e) in
      let same' = some_inj.0 (sym (cells-cell_at w h count layout j fn k) ∙ e') in
      subst (λ b. Apart a b) same'
        (subst (λ a. Apart a (cell_at w h count layout j)) same (cell_at-Apart layout i j l k o))
