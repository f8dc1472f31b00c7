-- ===== src/Render/Sampling/Blend.antt =====
-- The blend of a channel: the fast path agrees with the general one, and no channel overflows.
use camera_man.Base.{ℕ, ◌+◌, ◌-◌, ◌*◌, ◌/◌, ◌%◌, ◌≤◌, ◌≡◌, arith, min, max, ap, ◌∙◌}
use camera_man.Render.Sampling.{blend_opaque_bilinear_channel, blend_weighted_channel}

-- At full opacity the general blend is the opaque one, whatever the destination.
pub blend_weighted_channel-blend_opaque_bilinear_channel :
    (w d : ℕ) → blend_weighted_channel w d 1000 ≡ blend_opaque_bilinear_channel w
unfolding blend_weighted_channel blend_opaque_bilinear_channel
blend_weighted_channel-blend_opaque_bilinear_channel w d = omega arith

mul_mono : (a b o : ℕ) → a ≤ b → a * o ≤ b * o
mul_mono a b o h = grind arith

distribute : (m o p : ℕ) → m * o + m * p ≡ m * (o + p)
distribute m o p = grind arith

scale_sum : (m o : ℕ) → o ≤ 1000 → m * o + m * (1000 - o) ≡ m * 1000
scale_sum m o h =
    let whole : o + (1000 - o) ≡ 1000 = omega arith in
    distribute m o (1000 - o) ∙ ap (λ k. m * k) whole

mixed_le : (a b m o : ℕ) → a ≤ m → b ≤ m → o ≤ 1000 → a * o + b * (1000 - o) ≤ m * 1000
mixed_le a b m o h k p = omega (arith, mul_mono a m o h, mul_mono b m (1000 - o) k, scale_sum m o p)

le_mixed : (a b m o : ℕ) → m ≤ a → m ≤ b → o ≤ 1000 → m * 1000 ≤ a * o + b * (1000 - o)
le_mixed a b m o h k p = omega (arith, mul_mono m a o h, mul_mono m b (1000 - o) k, scale_sum m o p)

weights : (s d o p : ℕ) → s * 65536 * o + d * 65536 * p ≡ 65536 * (s * o + d * p)
weights s d o p = grind arith

rounded :
    (x lo hi : ℕ)
    → lo * 1000 ≤ x
    → x ≤ hi * 1000
    → hi ≤ 255
    → (lo ≤ (65536 * x + 65536 * 1000 / 2) / (65536 * 1000) % 256)
      × ((65536 * x + 65536 * 1000 / 2) / (65536 * 1000) % 256 ≤ hi)
rounded x lo hi h k b = (omega arith, omega arith)

-- A channel that is blended lies between the source and the destination.
pub blend_weighted_channel_between :
    (source destination opacity : ℕ)
    → source ≤ 255
    → destination ≤ 255
    → opacity ≤ 1000
    → (min source destination ≤ blend_weighted_channel (source * 65536) destination opacity)
      × (blend_weighted_channel (source * 65536) destination opacity ≤ max source destination)
unfolding blend_weighted_channel
blend_weighted_channel_between s d o hs hd ho = rw (weights s d o (1000 - o)) (
    rounded (s * o + d * (1000 - o)) (min s d) (max s d)
      (le_mixed s d (min s d) o (omega arith) (omega arith) ho)
      (mixed_le s d (max s d) o (omega arith) (omega arith) ho) (omega arith))
