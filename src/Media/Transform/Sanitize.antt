-- ===== src/Media/Transform/Sanitize.antt =====
-- A sanitized transform is always valid, and sanitizing changes only what was invalid.
use camera_man.Base.{◌≡◌, ok, arith}
use camera_man.Base.Int.{ℤ, pos, negsuc, clamp_ℤ, contains_ℤ}
use camera_man.Base.{true}
use camera_man.Media.Transform.{SourceTransform, validate_transform, sanitized}

clamp_in_range :
    (p : ℤ) → contains_ℤ (negsuc 999) (pos 1000) (clamp_ℤ p (negsuc 999) (pos 1000)) ≡ true
clamp_in_range (pos n) = ground arith
clamp_in_range (negsuc n) = ground arith

clamp_of_range :
    (p : ℤ) → contains_ℤ (negsuc 999) (pos 1000) p ≡ true → clamp_ℤ p (negsuc 999) (pos 1000) ≡ p
clamp_of_range (pos n) h = ground arith
clamp_of_range (negsuc n) h = ground arith

-- Whatever the fields hold, the sanitized transform passes validation.
pub sanitized-valid : (t : SourceTransform) → validate_transform (sanitized t) ≡ ok tt
unfolding validate_transform sanitized
sanitized-valid t =
    ground (arith, clamp_in_range t.position_x_per_mille, clamp_in_range t.position_y_per_mille)

-- A transform that passes validation is left as it is.
pub sanitized_of_valid : (t : SourceTransform) → validate_transform t ≡ ok tt → sanitized t ≡ t
unfolding validate_transform sanitized
sanitized_of_valid t h =
    ground (arith, clamp_of_range t.position_x_per_mille, clamp_of_range t.position_y_per_mille)

-- So sanitizing twice is sanitizing once.
pub sanitized-sanitized : (t : SourceTransform) → sanitized (sanitized t) ≡ sanitized t
sanitized-sanitized t = sanitized_of_valid (sanitized t) (sanitized-valid t)
