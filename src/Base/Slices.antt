-- ===== src/Base/Slices.antt =====
-- Slices of bytes that panic out of range, and loops that stop at the first panic. `none` is a panic.
use Prim.Native.Nat.{ℕ, zero, suc, ◌+◌, ◌≤◌, ◌<◌}
use mathlib.Core.Path.{◌≡◌, refl, ◌∙◌}
use mathlib.Core.List.{List, [], ◌∷◌, ◌++◌, map}
use mathlib.Core.Option.{Option, none, some}
use mathlib.Core.Bool.{true}
use native.Mathlib.Omega.{arith}
use camera_man.Base.Tests.{leb, if◌then◌else◌}
use camera_man.Base.Options.{◌>>=◌}
use camera_man.Base.Lists.{
  length, take, drop, indices, All, get_elem?, length-append, length-take, length-drop,
}

-- `bytes.get(offset..offset + len)`.
abbrev pub get_range : List ℕ → (offset len : ℕ) → Option (List ℕ)
get_range bytes offset len =
    if leb (offset + len) (length bytes) then some (take len (drop offset bytes)) else none

-- `bytes[offset..offset + source.len()].copy_from_slice(source)`.
abbrev pub copy_at : List ℕ → (offset : ℕ) → List ℕ → Option (List ℕ)
copy_at bytes offset source =
    if leb (offset + length source) (length bytes)
    then some (take offset bytes ++ (source ++ drop (offset + length source) bytes))
    else none

module _ {ℓ κ} {A : Type ℓ} {X : Type κ} where
  -- A `for` loop over the elements of a list.
  abbrev pub try_fold : (X → A → Option A) → List X → A → Option A
  try_fold step [] a = some a
  try_fold step (x ∷ xs) a = step x a >>= λ next. try_fold step xs next

abbrev pub enumerate_from {ℓ} : {A : Type ℓ} → ℕ → List A → List (ℕ × A)
enumerate_from i [] = []
enumerate_from i (x ∷ xs) = (i, x) ∷ enumerate_from (suc i) xs

-- A result that is no panic and keeps a property.
abbrev pub Keeps {ℓ κ} : {A : Type ℓ} → (A → Type κ) → Option A → Type (ℓ ⊔ κ)
Keeps {A = A} P m = (a : A) × ((m ≡ some a) × P a)

pub Keeps-bind {ℓ κ μ ν} :
    {A : Type ℓ} {B : Type μ} (P : A → Type κ) (Q : B → Type ν) (m : Option A) (f : A → Option B)
    → Keeps P m
    → ((a : A) → P a → Keeps Q (f a))
    → Keeps Q (m >>= f)
Keeps-bind P Q m f (a, (e, p)) h = let next = h a p in (next.0, (rw e next.1.0, next.1.1))

pub try_fold-Keeps {ℓ κ μ} :
    {A : Type ℓ} {X : Type κ} (P : A → Type μ) (step : X → A → Option A) (xs : List X) (a : A)
    → All (λ x. (a : A) → P a → Keeps P (step x a)) xs
    → P a
    → Keeps P (try_fold step xs a)
try_fold-Keeps P step [] a h p = (a, (refl, p))
try_fold-Keeps P step (x ∷ xs) a h p =
    Keeps-bind P P (step x a) (try_fold step xs) (h.0 a p)
      (λ next q. try_fold-Keeps P step xs next h.1 q)

pub All-indices {κ} :
    (P : ℕ → Type κ) (start n : ℕ)
    → ((i : ℕ) → start ≤ i → i < start + n → P i)
    → All P (indices start n)
All-indices P start zero h = tt
All-indices P start (suc n) h = (
  h start (omega arith) (omega arith),
  All-indices P (suc start) n (λ i k l. h i (omega arith) (omega arith)),
)

pub All-enumerate_map {ℓ κ} :
    {X : Type ℓ} (f : ℕ → X) (P : ℕ × X → Type κ) (start n : ℕ)
    → ((i : ℕ) → i < start + n → P (i, f i))
    → All P (enumerate_from start (map f (indices start n)))
All-enumerate_map f P start zero h = tt
All-enumerate_map f P start (suc n) h =
    (h start (omega arith), All-enumerate_map f P (suc start) n (λ i l. h i (omega arith)))

pub All-enumerate_from {ℓ κ} :
    {X : Type ℓ} (P : ℕ × X → Type κ) (start : ℕ) (xs : List X)
    → ((i j : ℕ) (x : X) → start + i ≡ j → get_elem? xs i ≡ some x → P (j, x))
    → All P (enumerate_from start xs)
All-enumerate_from P start [] h = tt
All-enumerate_from P start (x ∷ xs) h = (
  h 0 start x (omega arith) refl,
  All-enumerate_from P (suc start) xs (λ i j y k e. h (suc i) j y (omega (arith, k)) e),
)

abbrev pub Long : ℕ → List ℕ → Type 0
Long n bytes = length bytes ≡ n

pub get_range-Keeps :
    (bytes : List ℕ) (offset len : ℕ)
    → offset + len ≤ length bytes
    → Keeps (Long len) (get_range bytes offset len)
get_range-Keeps bytes offset len h =
    let all : leb (offset + len) (length bytes) ≡ true = ground arith in
    let rest = length-drop offset bytes in
    (
      take len (drop offset bytes),
      (rw all refl, length-take len (drop offset bytes) ∙ omega (arith, rest)),
    )

pub copy_at-Keeps :
    (n : ℕ) (bytes : List ℕ) (offset : ℕ) (source : List ℕ)
    → offset + length source ≤ n
    → Long n bytes
    → Keeps (Long n) (copy_at bytes offset source)
copy_at-Keeps n bytes offset source h e =
    let all : leb (offset + length source) (length bytes) ≡ true = ground arith in
    let front = length-take offset bytes in
    let back = length-drop (offset + length source) bytes in
    let inner = length-append source (drop (offset + length source) bytes) in
    let outer = length-append (take offset bytes) (source ++ drop (offset + length source) bytes) in
    (
      take offset bytes ++ (source ++ drop (offset + length source) bytes),
      (rw all refl, omega (arith, front, back, inner, outer, e, h)),
    )
