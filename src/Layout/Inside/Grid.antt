-- ===== src/Layout/Inside/Grid.antt =====
-- The cells of a grid stay inside the output, and no two of them share a pixel.
use native.Mathlib.Nat.{mod-lt, mod-eq_of_lt, div-lt_iff_lt-mul, div-add-mod'}
use camera_man.Base.{
  ℕ, ◌+◌, ◌*◌, ◌/◌, ◌%◌, ◌≤◌, ◌<◌, ◌≡◌, ◌⊎◌, inl, inr, sym, ◌∙◌, arith, u32_mod, trichotomy,
}
use camera_man.Layout.{Cell, GridLayout, grid_cell}
use camera_man.Layout.Edges.{span_le, span_before}

abbrev pub Inside : (output_width output_height : ℕ) → Cell → Type 0
Inside output_width output_height c =
    (c.x + c.width ≤ output_width) × (c.y + c.height ≤ output_height)

-- One of the cells lies to the left of the other, or above it.
abbrev pub Apart : Cell → Cell → Type 0
Apart a b =
    ((a.x + a.width ≤ b.x) ⊎ (b.x + b.width ≤ a.x))
    ⊎ ((a.y + a.height ≤ b.y) ⊎ (b.y + b.height ≤ a.y))

-- A grid of `n` cells has a column_of and a row_of for each.
abbrev pub Holds : GridLayout → ℕ → Type 0
Holds g n = (0 < g.columns) × ((0 < g.rows) × (n ≤ g.rows * g.columns))

module _ (w h n : ℕ) (g : GridLayout) (fw : w < u32_mod) (fh : h < u32_mod) (fn : n < u32_mod)
    (room : Holds g n) where
  abbrev column_of : ℕ → ℕ
  column_of i = i % u32_mod % g.columns

  abbrev row_of : ℕ → ℕ
  row_of i = i % u32_mod / g.columns

  column_lt : (i : ℕ) → i < n → column_of i + 1 ≤ g.columns
  column_lt i k = let below = mod-lt (i % u32_mod) room.0 in omega (arith, below)

  row_lt : (i : ℕ) → i < n → row_of i + 1 ≤ g.rows
  row_lt i k =
      let small : i % u32_mod ≡ i = mod-eq_of_lt (omega arith) in
      let below : i / g.columns < g.rows = (div-lt_iff_lt-mul room.0).1 (omega (arith, room.1.1)) in
      rw small (omega (arith, below))

  pub grid_cell-Inside : (i : ℕ) → i < n → Inside w h (grid_cell w h g i)
  unfolding grid_cell
  grid_cell-Inside i k = (
    span_le w g.columns room.0 fw (i % u32_mod % g.columns) (column_lt i k),
    span_le h g.rows room.1.0 fh (i % u32_mod / g.columns) (row_lt i k),
  )

  differ : (i j : ℕ) → i < j → j < n → column_of i ≡ column_of j → row_of i ≡ row_of j → ⊥
  differ i j k l same also =
      let small : i % u32_mod ≡ i = mod-eq_of_lt (omega arith) in
      let small' : j % u32_mod ≡ j = mod-eq_of_lt (omega arith) in
      let whole = div-add-mod' (i % u32_mod) g.columns in
      let whole' = div-add-mod' (j % u32_mod) g.columns in
      let equal : i % u32_mod ≡ j % u32_mod = sym whole ∙ (rw (same, also) whole') in
      omega (arith, small, small', equal)

  pub grid_cell-Apart : (i j : ℕ) → i < j → j < n → Apart (grid_cell w h g i) (grid_cell w h g j)
  unfolding grid_cell
  grid_cell-Apart i j k l = elim (trichotomy (column_of i) (column_of j)) [
    | inl less ↦
        inl
          (inl (span_before w g.columns room.0 fw (column_of i) (column_of j) less (column_lt j l)))
    | inr (inl more) ↦ inl (
        inr (
          span_before w g.columns room.0 fw (column_of j) (column_of i) more
            (column_lt i (omega arith))))
    | inr (inr same) ↦ elim (trichotomy (row_of i) (row_of j)) [
      | inl less ↦
          inr (inl (span_before h g.rows room.1.0 fh (row_of i) (row_of j) less (row_lt j l)))
      | inr (inl more) ↦ inr (
          inr
            (span_before h g.rows room.1.0 fh (row_of j) (row_of i) more (row_lt i (omega arith))))
      | inr (inr also) ↦ absurd (differ i j k l same also)
    ]
  ]
