-- ===== src/Limits/Envelope.antt =====
-- The envelope that is accepted: the test that stops early agrees with the whole reading of the input.
use camera_man.Base.{
  ℕ, ◌-◌, ◌≤◌, ◌≡◌, ◌↔◌, ◌⊎◌, refl, arith, Bool, true, false, ◌==◌, ◌||◌, ltb, if◌then◌else◌,
  Bool-cases, inl, inr, ok, err, if_true, if_false, subst, sym, List, [], ◌∷◌, length,
  saturating_add64, saturating_mul64,
}
use camera_man.Limits.{
  ParserLimits, ParserLimitError, Limited, Scan, first_scan, scan_byte, scan_bytes,
  validate_input_size, validate_json_envelope, string_byte, is_open, is_close, quote, comma,
  bound_string, structure_byte, count_element, string_bytes_error, element_count, nesting_depth,
}

-- A byte outside strings, which no limit stops.
abbrev pub read_structure : Scan → ℕ → Scan
read_structure s byte =
    if byte == quote
    then record s { in_string = true }
    else if is_open byte
    then record s { depth = saturating_add64 s.depth 1; elements = saturating_add64 s.elements 1 }
    else if is_close byte
    then record s { depth = s.depth - 1 }
    else if byte == comma
    then record s { elements = saturating_add64 s.elements 1 }
    else s

-- The whole reading.
unfoldable pub read_byte : Scan → ℕ → Scan
read_byte s byte = if s.in_string then string_byte s byte else read_structure s byte

pub record Within (limits : ParserLimits) (s : Scan) : Type 0 where
  pub nesting : s.depth ≤ limits.max_nesting_depth
  pub counted : s.elements ≤ limits.max_elements
  pub strings : s.string_bytes ≤ limits.max_string_bytes

-- The limits hold after each byte.
unfoldable pub AlwaysWithin : ParserLimits → Scan → List ℕ → Type 0
AlwaysWithin limits s [] = Unit {0}
AlwaysWithin limits s (byte ∷ bytes) =
    Within limits (read_byte s byte) × AlwaysWithin limits (read_byte s byte) bytes

-- Either the limits still hold, or one of them is named.
abbrev Decides : ParserLimits → Scan → Limited Scan → Type 0
Decides limits s r =
    ((r ≡ ok s) × Within limits s)
    ⊎ ((e : ParserLimitError) × ((r ≡ err e) × (Within limits s → ⊥)))

string_byte_keeps :
    (s : Scan) (byte : ℕ)
    → ((string_byte s byte).depth ≡ s.depth) × ((string_byte s byte).elements ≡ s.elements)
unfolding string_byte
string_byte_keeps s byte = (ground arith, ground arith)

bound_string-Decides :
    (limits : ParserLimits) (s : Scan)
    → s.depth ≤ limits.max_nesting_depth
    → s.elements ≤ limits.max_elements
    → Decides limits s (bound_string limits s)
bound_string-Decides limits s d n = elim (Bool-cases (ltb limits.max_string_bytes s.string_bytes)) [
  | inl long ↦ inr (string_bytes_error, (rw long refl, λ w. let l = w.strings in ground arith))
  | inr short ↦ inl (rw short refl, record { nesting = d; counted = n; strings = ground arith })
]

count_element-Decides :
    (limits : ParserLimits) (s : Scan)
    → s.depth ≤ limits.max_nesting_depth
    → s.string_bytes ≤ limits.max_string_bytes
    → Decides limits s (count_element limits s)
count_element-Decides limits s d n = elim (Bool-cases (ltb limits.max_elements s.elements)) [
  | inl many ↦ inr (element_count, (rw many refl, λ w. let l = w.counted in ground arith))
  | inr few ↦ inl (rw few refl, record { nesting = d; counted = ground arith; strings = n })
]

open-Decides :
    (limits : ParserLimits) (s : Scan)
    → s.string_bytes ≤ limits.max_string_bytes
    → Decides limits s
        (if ltb limits.max_nesting_depth s.depth then err nesting_depth else count_element limits s)
open-Decides limits s n = elim (Bool-cases (ltb limits.max_nesting_depth s.depth)) [
  | inl deep ↦ inr (nesting_depth, (if_true _ _ _ deep, λ w. let l = w.nesting in ground arith))
  | inr flat ↦
      subst (Decides limits s) (sym (if_false _ _ _ flat))
        (count_element-Decides limits s (ground arith) n)
]

structure_byte-Decides :
    (limits : ParserLimits) (s : Scan) (byte : ℕ)
    → Within limits s
    → Decides limits (read_structure s byte) (structure_byte limits s byte)
structure_byte-Decides limits s byte w = elim (Bool-cases (byte == quote)) [
  | inl text ↦
      rw text (inl (refl, record { nesting = w.nesting; counted = w.counted; strings = w.strings }))
  | inr other ↦ elim (Bool-cases (is_open byte)) [
    | inl opens ↦
        rw (other, opens)
          (open-Decides limits
            (record s {
              depth = saturating_add64 s.depth 1;
              elements = saturating_add64 s.elements 1;
            })
            w.strings)
    | inr flat ↦ elim (Bool-cases (is_close byte)) [
      | inl closes ↦
          rw (other, flat, closes)
            (inl (
              refl,
              record {
                nesting = omega (arith, w.nesting);
                counted = w.counted;
                strings = w.strings;
              },
            ))
      | inr plain ↦ elim (Bool-cases (byte == comma)) [
        | inl separates ↦
            rw (other, flat, plain, separates)
              (count_element-Decides limits (record s { elements = saturating_add64 s.elements 1 })
                w.nesting w.strings)
        | inr nothing ↦ rw (other, flat, plain, nothing) (inl (refl, w))
      ]
    ]
  ]
]

scan_byte-Decides :
    (limits : ParserLimits) (s : Scan) (byte : ℕ)
    → Within limits s
    → Decides limits (read_byte s byte) (scan_byte limits s byte)
unfolding scan_byte read_byte
scan_byte-Decides limits s byte w = elim (Bool-cases s.in_string) [
  | inl inside ↦
      let kept = string_byte_keeps s byte in
      subst (λ t. Decides limits t (scan_byte limits s byte)) (sym (if_true _ _ _ inside))
        (subst (Decides limits (string_byte s byte)) (sym (if_true _ _ _ inside)) (
          bound_string-Decides limits (string_byte s byte) (omega (arith, kept, w.nesting))
            (omega (arith, kept, w.counted))))
  | inr outside ↦
      subst (λ t. Decides limits t (scan_byte limits s byte)) (sym (if_false _ _ _ outside))
        (subst (Decides limits (read_structure s byte)) (sym (if_false _ _ _ outside))
          (structure_byte-Decides limits s byte w))
]

scan_bytes_iff :
    (limits : ParserLimits) (s : Scan) (bytes : List ℕ)
    → Within limits s
    → (scan_bytes limits s bytes ≡ ok tt) ↔ AlwaysWithin limits s bytes
unfolding scan_bytes AlwaysWithin
scan_bytes_iff limits s [] w = (λ _. tt, λ _. refl)
scan_bytes_iff limits s (byte ∷ bytes) w = elim (scan_byte-Decides limits s byte w) [
  | inl (e, next) ↦
      let rest = scan_bytes_iff limits (read_byte s byte) bytes next in
      (λ h. (next, rest.0 (rw (e, scan_bytes) at h)), λ a. rw (e, scan_bytes) (rest.1 a.1))
  | inr (e, (stops, beyond)) ↦
      (λ h. let no = rw (stops, scan_bytes) at h in absurd (ground arith), λ a. absurd (beyond a.0))
]

-- A reading of the input that is written apart from the loop. A string is open or not; while it is,
-- what counts is its length so far and whether the byte before was a backslash that escapes the
-- next.
pub data Place : Type 0 where
  outside : Place
  inside : (size : ℕ) → Place
  after_backslash : (size : ℕ) → Place

pub record Document : Type 0 where
  pub depth : ℕ
  pub elements : ℕ
  pub place : Place

abbrev pub blank : Document
blank = record { depth = 0; elements = 0; place = outside }

abbrev pub string_size : Place → ℕ
string_size outside = 0
string_size (inside size) = size
string_size (after_backslash size) = size

abbrev pub read_at : Place → (depth elements byte : ℕ) → Document
read_at outside depth elements byte =
    if byte == 34
    then record { depth = depth; elements = elements; place = inside 0 }
    else if byte == 123 || byte == 91
    then record {
      depth = saturating_add64 depth 1;
      elements = saturating_add64 elements 1;
      place = outside;
    }
    else if byte == 125 || byte == 93
    then record { depth = depth - 1; elements = elements; place = outside }
    else if byte == 44
    then record { depth = depth; elements = saturating_add64 elements 1; place = outside }
    else record { depth = depth; elements = elements; place = outside }
read_at (after_backslash size) depth elements byte = record {
  depth = depth;
  elements = elements;
  place = inside (saturating_add64 size 1);
}
read_at (inside size) depth elements byte =
    if byte == 92
    then record {
      depth = depth;
      elements = elements;
      place = after_backslash (saturating_add64 size 1);
    }
    else if byte == 34
    then record { depth = depth; elements = elements; place = outside }
    else record { depth = depth; elements = elements; place = inside (saturating_add64 size 1) }

abbrev pub read : Document → ℕ → Document
read d byte = read_at d.place d.depth d.elements byte

pub record Small (limits : ParserLimits) (d : Document) : Type 0 where
  pub nesting : d.depth ≤ limits.max_nesting_depth
  pub counted : d.elements ≤ limits.max_elements
  pub strings : string_size d.place ≤ limits.max_string_bytes

-- The limits hold after each byte.
unfoldable pub AlwaysSmall : ParserLimits → Document → List ℕ → Type 0
AlwaysSmall limits d [] = Unit {0}
AlwaysSmall limits d (byte ∷ bytes) =
    Small limits (read d byte) × AlwaysSmall limits (read d byte) bytes

abbrev is_inside : Place → Bool
is_inside outside = false
is_inside (inside size) = true
is_inside (after_backslash size) = true

abbrev is_escaped : Place → Bool
is_escaped outside = false
is_escaped (inside size) = false
is_escaped (after_backslash size) = true

-- The loop's variables for a reading.
abbrev scan_of : Document → Scan
scan_of d = record {
  depth = d.depth;
  in_string = is_inside d.place;
  escaped = is_escaped d.place;
  string_bytes = string_size d.place;
  elements = d.elements;
}

read_byte-scan_of :
    (p : Place) (depth elements byte : ℕ)
    → read_byte (scan_of (record { depth = depth; elements = elements; place = p })) byte
      ≡ scan_of (read_at p depth elements byte)
unfolding read_byte string_byte
read_byte-scan_of outside depth elements byte = elim (Bool-cases (byte == 34)) [
  | inl text ↦ rw text refl
  | inr other ↦ elim (Bool-cases (byte == 123 || byte == 91)) [
    | inl opens ↦ rw (other, opens) refl
    | inr flat ↦ elim (Bool-cases (byte == 125 || byte == 93)) [
      | inl closes ↦ rw (other, flat, closes) refl
      | inr plain ↦ elim (Bool-cases (byte == 44)) [
        | inl separates ↦ rw (other, flat, plain, separates) refl
        | inr nothing ↦ rw (other, flat, plain, nothing) refl
      ]
    ]
  ]
]
read_byte-scan_of (after_backslash size) depth elements byte = refl
read_byte-scan_of (inside size) depth elements byte = elim (Bool-cases (byte == 92)) [
  | inl escapes ↦ rw escapes refl
  | inr other ↦ elim (Bool-cases (byte == 34)) [
    | inl closes ↦ rw (other, closes) refl
    | inr plain ↦ rw (other, plain) refl
  ]
]

AlwaysWithin-AlwaysSmall :
    (limits : ParserLimits) (d : Document) (bytes : List ℕ)
    → AlwaysWithin limits (scan_of d) bytes ↔ AlwaysSmall limits d bytes
unfolding AlwaysWithin AlwaysSmall
AlwaysWithin-AlwaysSmall limits d [] = (λ _. tt, λ _. tt)
AlwaysWithin-AlwaysSmall limits d (byte ∷ bytes) =
    let same = read_byte-scan_of d.place d.depth d.elements byte in
    let rest = AlwaysWithin-AlwaysSmall limits (read d byte) bytes in
    (
      λ a.
          let w = subst (Within limits) same a.0 in
          (
            record { nesting = w.nesting; counted = w.counted; strings = w.strings },
            rest.0 (subst (λ s. AlwaysWithin limits s bytes) same a.1),
          ),
      λ a.
          let w = a.0 in
          (
            subst (Within limits) (sym same)
                (record { nesting = w.nesting; counted = w.counted; strings = w.strings }),
            subst (λ s. AlwaysWithin limits s bytes) (sym same) (rest.1 a.1),
          ),
    )

-- An input is accepted exactly when its length is within both budgets and, read to its end, it never
-- nests deeper, counts more elements or holds a longer string than the limits allow, where a byte
-- after a backslash belongs to its string, and an unescaped quote ends the string and its length.
pub validate_json_envelope_iff :
    (bytes : List ℕ) (limits : ParserLimits)
    → (validate_json_envelope bytes limits ≡ ok tt) ↔ (
        (length bytes ≤ limits.max_input_bytes)
        × ((saturating_mul64 (length bytes) 2 ≤ limits.max_allocation_bytes)
            × AlwaysSmall limits blank bytes))
unfolding validate_json_envelope validate_input_size
validate_json_envelope_iff bytes limits =
    let scanned =
      scan_bytes_iff limits first_scan bytes
        (record { nesting = omega arith; counted = omega arith; strings = omega arith }) in
    let small = AlwaysWithin-AlwaysSmall limits blank bytes in
    elim (Bool-cases (ltb limits.max_input_bytes (length bytes))) [
      | inl long ↦ rw long (λ h. absurd (ground arith), λ a. absurd (ground arith))
      | inr short ↦
          elim (Bool-cases (ltb limits.max_allocation_bytes (saturating_mul64 (length bytes) 2))) [
            | inl dear ↦ rw (short, dear) (λ h. absurd (ground arith), λ a. absurd (ground arith))
            | inr cheap ↦
                rw (short, cheap)
                  (
                    λ h. (ground arith, (ground arith, small.0 (scanned.0 h))),
                    λ a. scanned.1 (small.1 a.1.1),
                  )
          ]
    ]
