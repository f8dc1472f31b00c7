-- ===== src/Layout/Edges.antt =====
-- The grid lines: they grow with their number, and the last one is the end of the output.
use native.Mathlib.Nat.{div-le_of_le-mul, mod-eq_of_lt, le-div_iff_mul-le, div-mul-le_self}
use camera_man.Base.{
  ℕ, zero, suc, ◌+◌, ◌-◌, ◌*◌, ◌/◌, ◌≤◌, ◌<◌, ◌≡◌, max, arith, leb, inl, inr, u32_mod, Bool-cases,
}
use camera_man.Layout.{edge, ceil_sqrt}

mul_mono : (i j t : ℕ) → i ≤ j → i * t ≤ j * t
mul_mono i j t h = grind arith

share_le : (total d index : ℕ) → 0 < d → index ≤ d → index * total / d ≤ total
share_le total d index p h = div-le_of_le-mul d (grind arith)

share_mono : (total d i j : ℕ) → 0 < d → i ≤ j → i * total / d ≤ j * total / d
share_mono total d i j p h =
    (le-div_iff_mul-le p).1 (omega (arith, div-mul-le_self (i * total) d, mul_mono i j total h))

pub edge_exact :
    (total divisions index : ℕ)
    → 0 < divisions
    → total < u32_mod
    → index ≤ divisions
    → edge total divisions index ≡ index * total / divisions
unfolding edge
edge_exact total divisions index p t h =
    let one : max divisions 1 ≡ divisions = omega arith in
    let bound = share_le total divisions index p h in rw one (mod-eq_of_lt (omega (arith, bound)))

pub edge_le :
    (total divisions index : ℕ)
    → 0 < divisions
    → total < u32_mod
    → index ≤ divisions
    → edge total divisions index ≤ total
edge_le total divisions index p t h =
    rw (edge_exact total divisions index p t h) (share_le total divisions index p h)

pub edge_mono :
    (total divisions i j : ℕ)
    → 0 < divisions
    → total < u32_mod
    → i ≤ j
    → j ≤ divisions
    → edge total divisions i ≤ edge total divisions j
edge_mono total divisions i j p t h k =
    rw (edge_exact total divisions i p t (omega arith), edge_exact total divisions j p t k)
      (share_mono total divisions i j p h)

-- The part between two neighbouring lines ends inside the output, and where a later one begins.
module _ (total d : ℕ) (p : 0 < d) (t : total < u32_mod) where
  pub span_le :
      (k : ℕ) → k + 1 ≤ d → edge total d k + (edge total d (k + 1) - edge total d k) ≤ total
  span_le k h =
      let grows = edge_mono total d k (k + 1) p t (omega arith) h in
      let last = edge_le total d (k + 1) p t h in omega (arith, grows, last)

  pub span_before :
      (k l : ℕ)
      → k < l
      → l + 1 ≤ d
      → edge total d k + (edge total d (k + 1) - edge total d k) ≤ edge total d l
  span_before k l h m =
      let grows = edge_mono total d k (k + 1) p t (omega arith) (omega arith) in
      let next = edge_mono total d (k + 1) l p t (omega arith) (omega arith) in
      omega (arith, grows, next)

square_step : (n root : ℕ) → n ≤ root * root → suc n ≤ suc root * suc root
square_step n root h = grind arith

square_mono : (a b : ℕ) → a ≤ b → a * a ≤ b * b
square_mono a b h = grind arith

-- The square of the root that is rounded up is not smaller than the number, and that of any smaller
-- number is.
pub ceil_sqrt_least :
    (n : ℕ) → (n ≤ ceil_sqrt n * ceil_sqrt n) × ((c : ℕ) → c < ceil_sqrt n → c * c < n)
unfolding ceil_sqrt
ceil_sqrt_least zero = (omega arith, λ c h. absurd (omega arith))
ceil_sqrt_least (suc n) =
    let before = ceil_sqrt_least n in
    let step = square_step n (ceil_sqrt n) before.0 in
    elim (Bool-cases (leb (suc n) (ceil_sqrt n * ceil_sqrt n))) [
      | inl enough ↦ rw enough (ground arith, λ c h. let smaller = before.1 c h in omega arith)
      | inr short ↦
          rw short
            (step, λ c h. let smaller = square_mono c (ceil_sqrt n) (omega arith) in ground arith)
    ]
