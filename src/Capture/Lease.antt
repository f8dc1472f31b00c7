-- ===== src/Capture/Lease.antt =====
-- src/capture.rs, `ACTIVE_CAMERA_IDS` and `CameraLease`: the cameras that a worker holds. The set is a
-- list; a lease that is dropped takes its camera out.
use text.Mathlib.Text.{◌==◌}
use text.Mathlib.TextEquality.{eq_iff}
use camera_man.Base.{
  ℕ, ◌+◌, ◌≡◌, refl, ap, arith, String, Bool, true, false, Bool-cases, inl, inr, if◌then◌else◌,
  List, [], ◌∷◌,
}

abbrev pub same_id : (a b : String) → Bool
same_id a b = a == b

pub same_id_refl : (a : String) → same_id a a ≡ true
same_id_refl a = (eq_iff a a).1 refl

abbrev pub contains : String → List String → Bool
contains id [] = false
contains id (other ∷ ids) = if same_id other id then true else contains id ids

-- The set, and whether the camera was free.
unfoldable pub try_acquire_camera_lease :
    (id : String) → (active : List String) → List String × Bool
try_acquire_camera_lease id active =
    if contains id active then (active, false) else (id ∷ active, true)

unfoldable pub drop_lease : (id : String) → (active : List String) → List String
drop_lease id [] = []
drop_lease id (other ∷ ids) =
    let rest = drop_lease id ids in if same_id other id then rest else other ∷ rest

-- How often a camera stands in the set.
abbrev pub occurs : (id : String) → (active : List String) → ℕ
occurs id [] = 0
occurs id (other ∷ ids) = if same_id other id then 1 + occurs id ids else occurs id ids

pub contains-false :
    (id : String) (active : List String) → contains id active ≡ false → occurs id active ≡ 0
contains-false id [] e = refl
contains-false id (other ∷ ids) e = elim (Bool-cases (same_id other id)) [
  | inl same ↦ absurd (ground arith)
  | inr apart ↦ rw apart (contains-false id ids (rw apart at e))
]

pub occurs-drop_same : (id : String) (active : List String) → occurs id (drop_lease id active) ≡ 0
unfolding drop_lease
occurs-drop_same id [] = refl
occurs-drop_same id (other ∷ ids) = elim (Bool-cases (same_id other id)) [
  | inl same ↦ rw (same, drop_lease) (occurs-drop_same id ids)
  | inr apart ↦ rw (apart, drop_lease, occurs) (rw apart (occurs-drop_same id ids))
]

pub occurs-drop_other :
    (id other : String) (active : List String)
    → same_id other id ≡ false
    → occurs id (drop_lease other active) ≡ occurs id active
unfolding drop_lease
occurs-drop_other id other [] apart = refl
occurs-drop_other id other (x ∷ ids) apart = elim (Bool-cases (same_id x other)) [
  | inl same ↦
      let e : x ≡ other = (eq_iff x other).0 same in
      let gone : same_id x id ≡ false = rw e apart in
      rw (same, drop_lease) (rw gone (occurs-drop_other id other ids apart))
  | inr kept ↦
      let rest = occurs-drop_other id other ids apart in
      elim (Bool-cases (same_id x id)) [
        | inl here ↦ rw (kept, drop_lease) (rw here (ap (λ n. 1 + n) rest))
        | inr away ↦ rw (kept, drop_lease) (rw away rest)
      ]
]
