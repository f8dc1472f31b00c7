-- ===== src/Base/Int.antt =====
-- Signed numbers over the native ℕ: what the source's `i16` fields need.
use Prim.Native.Nat.{ℕ}
use mathlib.Core.Bool.{Bool, true, false, ◌&&◌}
use camera_man.Base.Tests.{leb, if◌then◌else◌}

-- `negsuc n` is -(n + 1).
pub data ℤ : Type 0 where
  pos : ℕ → ℤ
  negsuc : ℕ → ℤ

abbrev pub leb_ℤ : ℤ → ℤ → Bool
leb_ℤ (pos a) (pos b) = leb a b
leb_ℤ (pos a) (negsuc b) = false
leb_ℤ (negsuc a) (pos b) = true
leb_ℤ (negsuc a) (negsuc b) = leb b a

-- `(lo..=hi).contains(&x)`.
abbrev pub contains_ℤ : ℤ → ℤ → ℤ → Bool
contains_ℤ lo hi x = leb_ℤ lo x && leb_ℤ x hi

-- `Ord::clamp`.
abbrev pub clamp_ℤ : ℤ → ℤ → ℤ → ℤ
clamp_ℤ x lo hi = if leb_ℤ lo x then (if leb_ℤ x hi then x else hi) else lo
