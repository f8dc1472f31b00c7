-- ===== src/Layout/Inside/Overlay.antt =====
-- The overlays of a picture in picture stay inside the output, one above the other.
use camera_man.Base.{ℕ, ◌+◌, ◌-◌, ◌*◌, ◌<◌, inr, min, arith, u32_mod}
use camera_man.Layout.{overlay_cell, overlay_margin}
use camera_man.Layout.Edges.{edge_le, edge_mono}
use camera_man.Layout.Inside.Grid.{Inside, Apart}

module _ (w h n : ℕ) (fw : w < u32_mod) (fh : h < u32_mod) where
  abbrev available : ℕ
  available = h - min (overlay_margin w h * 2) 4294967295

  available_lt : available < u32_mod
  available_lt = omega arith

  pub overlay_cell-Inside : (i : ℕ) → i < n → Inside w h (overlay_cell w h n i)
  unfolding overlay_cell
  overlay_cell-Inside i k =
      let bottom = edge_le available n (n - i - 1 + 1) (omega arith) available_lt (omega arith) in
      (omega arith, omega (arith, bottom))

  pub overlay_cell-Apart :
      (i j : ℕ) → i < j → j < n → Apart (overlay_cell w h n i) (overlay_cell w h n j)
  unfolding overlay_cell
  overlay_cell-Apart i j k l =
      let above =
        edge_mono available n (n - j - 1 + 1) (n - i - 1) (omega arith) available_lt (omega arith)
          (omega arith) in
      let own =
        edge_mono available n (n - i - 1) (n - i - 1 + 1) (omega arith) available_lt (omega arith)
          (omega arith) in
      inr (inr (omega (arith, above, own)))
