-- ===== src/Capture/Pixels.antt =====
-- src/capture.rs, `rgba_to_bgra_in_place`: the decoder's pixels, with red and blue swapped. What is
-- left after the last whole pixel stays.
use camera_man.Base.{ℕ, ◌≡◌, refl, ap, List, [], ◌∷◌, length}

unfoldable pub rgba_to_bgra_in_place : List ℕ → List ℕ
rgba_to_bgra_in_place (r ∷ g ∷ b ∷ a ∷ rest) = b ∷ g ∷ r ∷ a ∷ rgba_to_bgra_in_place rest
rgba_to_bgra_in_place rest = rest

-- Swapping twice gives the pixels back, and swapping keeps their number.
pub rgba_to_bgra-twice :
    (pixels : List ℕ)
    → (rgba_to_bgra_in_place (rgba_to_bgra_in_place pixels) ≡ pixels)
      × (length (rgba_to_bgra_in_place pixels) ≡ length pixels)
unfolding rgba_to_bgra_in_place
rgba_to_bgra-twice [] = (refl, refl)
rgba_to_bgra-twice (r ∷ []) = (refl, refl)
rgba_to_bgra-twice (r ∷ g ∷ []) = (refl, refl)
rgba_to_bgra-twice (r ∷ g ∷ b ∷ []) = (refl, refl)
rgba_to_bgra-twice (r ∷ g ∷ b ∷ a ∷ rest) =
    let (twice, same) = rgba_to_bgra-twice rest in
    (ap (λ xs. r ∷ g ∷ b ∷ a ∷ xs) twice, rw same refl)
