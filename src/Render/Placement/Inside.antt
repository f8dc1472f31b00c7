-- ===== src/Render/Placement/Inside.antt =====
-- A frame is drawn inside its cell, from inside its display.
use native.Mathlib.Nat.{div-le_of_le-mul}
use camera_man.Base.{ℕ, ◌+◌, ◌-◌, ◌*◌, ◌/◌, ◌≤◌, ◌<◌, ◌≡◌, min, max, arith, u32_mod, refl}
use camera_man.Base.Int.{ℤ, pos, negsuc}
use camera_man.Layout.{Cell}
use camera_man.Media.Contract.{FrameContract}
use camera_man.Media.Coordinates.{display_dimensions}
use camera_man.Media.Transform.{SourceTransform, SourceFit, fit, fill}
use camera_man.Render.Placement.{
  TransformedPlacement, transformed_placement, fit_placement, fill_placement, fill_window,
}
use camera_man.Render.Sampling.{positioned_offset, normalized_position}

pub record IsPlaced (cell : Cell) (display : ℕ × ℕ) (p : TransformedPlacement) : Type 0 where
  pub left : cell.x ≤ p.dest_x
  pub right : p.dest_x + p.dest_width ≤ cell.x + cell.width
  pub top : cell.y ≤ p.dest_y
  pub bottom : p.dest_y + p.dest_height ≤ cell.y + cell.height
  pub wide : 0 < p.dest_width
  pub high : 0 < p.dest_height
  pub source_right : p.source_x + p.source_width ≤ display.0
  pub source_bottom : p.source_y + p.source_height ≤ display.1
  pub source_wide : 0 < p.source_width
  pub source_high : 0 < p.source_height

normalized_le : (position : ℤ) → normalized_position position ≤ 2000
normalized_le (pos n) = ground arith
normalized_le (negsuc n) = ground arith

scaled_le : (space n : ℕ) → n ≤ 2000 → space * n / 2000 ≤ space
scaled_le space n h = div-le_of_le-mul 2000 (grind arith)

-- Whatever the position, the offset leaves the space that it divides.
pub positioned_offset_le :
    (space : ℕ) (position : ℤ) → space < u32_mod → positioned_offset space position ≤ space
unfolding positioned_offset
positioned_offset_le space position h =
    let inside = scaled_le space (normalized_position position) (normalized_le position) in
    omega (arith, inside)

fit_placement-IsPlaced :
    (fitted display : ℕ × ℕ) (cell : Cell) (t : SourceTransform)
    → 0 < cell.width
    → 0 < cell.height
    → cell.width < u32_mod
    → cell.height < u32_mod
    → 0 < display.0
    → 0 < display.1
    → IsPlaced cell display (fit_placement fitted display cell t)
unfolding fit_placement
fit_placement-IsPlaced (fw, fh) (dw, dh) cell t wide high cw ch px py =
    let x =
      positioned_offset_le (cell.width - min (max fw 1) cell.width) t.position_x_per_mille
        (omega arith) in
    let y =
      positioned_offset_le (cell.height - min (max fh 1) cell.height) t.position_y_per_mille
        (omega arith) in
    record {
      left = omega arith;
      right = omega (arith, x);
      top = omega arith;
      bottom = omega (arith, y);
      wide = omega arith;
      high = omega arith;
      source_right = omega arith;
      source_bottom = omega arith;
      source_wide = px;
      source_high = py;
    }

abbrev Window : (display window : ℕ × ℕ) → Type 0
Window display window =
    ((0 < window.0) × (window.0 ≤ display.0)) × ((0 < window.1) × (window.1 ≤ display.1))

fill_window-Window :
    (display : ℕ × ℕ) (cell : Cell)
    → 0 < display.0
    → 0 < display.1
    → Window display (fill_window display cell)
unfolding fill_window
fill_window-Window (dw, dh) cell px py = ground arith

fill_placement-IsPlaced :
    (display : ℕ × ℕ) (cell : Cell) (t : SourceTransform)
    → 0 < cell.width
    → 0 < cell.height
    → display.0 < u32_mod
    → display.1 < u32_mod
    → 0 < display.0
    → 0 < display.1
    → IsPlaced cell display (fill_placement display cell t)
unfolding fill_placement
fill_placement-IsPlaced (dw, dh) cell t wide high bw bh px py =
    let window = fill_window-Window (dw, dh) cell px py in
    let x =
      positioned_offset_le (dw - (fill_window (dw, dh) cell).0) t.position_x_per_mille
        (omega arith) in
    let y =
      positioned_offset_le (dh - (fill_window (dw, dh) cell).1) t.position_y_per_mille
        (omega arith) in
    record {
      left = omega arith;
      right = omega arith;
      top = omega arith;
      bottom = omega arith;
      wide = wide;
      high = high;
      source_right = omega (arith, x, window);
      source_bottom = omega (arith, y, window);
      source_wide = window.0.0;
      source_high = window.1.0;
    }

module _ (fitted : ℕ × ℕ) (contract : FrameContract) (cell : Cell) (transform : SourceTransform)
    (wide : 0 < cell.width) (high : 0 < cell.height) (cw : cell.width < u32_mod)
    (ch : cell.height < u32_mod) (dw : (display_dimensions contract).0 < u32_mod)
    (dh : (display_dimensions contract).1 < u32_mod) (some_x : 0 < (display_dimensions contract).0)
    (some_y : 0 < (display_dimensions contract).1) where
  placed :
      (f : SourceFit)
      → transform.source_fit ≡ f
      → IsPlaced cell
          (display_dimensions contract)
          (transformed_placement fitted contract cell transform)
  unfolding transformed_placement
  placed fit e = rw e (
      fit_placement-IsPlaced fitted (display_dimensions contract) cell transform wide high cw ch
        some_x some_y)
  placed fill e = rw e (
      fill_placement-IsPlaced (display_dimensions contract) cell transform wide high dw dh some_x
        some_y)

  -- A frame with a display that is not empty is drawn with some size inside its cell, from a part of
  -- some size of its display, with either fit, at any position, and whatever size the fit rounds to.
  pub transformed_placement-IsPlaced :
      IsPlaced cell
        (display_dimensions contract)
        (transformed_placement fitted contract cell transform)
  transformed_placement-IsPlaced = placed transform.source_fit refl
