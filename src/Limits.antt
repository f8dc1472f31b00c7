-- ===== src/Limits.antt =====
-- src/parser_limits.rs: what is checked of an input before a structured parser may allocate for it.
pub mod Envelope
use camera_man.Base.{
  ℕ, ◌+◌, ◌-◌, ◌*◌, Bool, true, false, ◌&&◌, ◌||◌, ◌==◌, ltb, if◌then◌else◌, Result, ok, err, ◌>>=◌,
  ◌>>◌, fail_if, List, [], ◌∷◌, length, saturating_add64, saturating_mul64,
}

pub record ParserLimits : Type 0 where
  pub max_input_bytes : ℕ
  pub max_nesting_depth : ℕ
  pub max_elements : ℕ
  pub max_string_bytes : ℕ
  pub max_allocation_bytes : ℕ

-- `MAX_SOURCE_KEY_BYTES` of src/scene_schema.rs is an argument.
abbrev pub scene_parser_limits : (max_source_key_bytes : ℕ) → ParserLimits
scene_parser_limits max_source_key_bytes = record {
  max_input_bytes = 1024 * 1024;
  max_nesting_depth = 64;
  max_elements = 64;
  max_string_bytes = max_source_key_bytes;
  max_allocation_bytes = 2 * 1024 * 1024;
}

abbrev pub profile_parser_limits : ParserLimits
profile_parser_limits = record {
  max_input_bytes = 4 * 1024 * 1024;
  max_nesting_depth = 64;
  max_elements = 256;
  max_string_bytes = 4 * 1024;
  max_allocation_bytes = 8 * 1024 * 1024;
}

pub data ParserLimitError : Type 0 where
  input_bytes : ParserLimitError
  allocation_budget : ParserLimitError
  nesting_depth : ParserLimitError
  element_count : ParserLimitError
  string_bytes_error : ParserLimitError

abbrev pub Limited : Type 0 → Type 0
Limited A = Result ParserLimitError A

unfoldable pub validate_input_size : List ℕ → ParserLimits → Limited (Unit {0})
validate_input_size bytes limits = do
  fail_if (ltb limits.max_input_bytes (length bytes)) input_bytes
  fail_if (ltb limits.max_allocation_bytes (saturating_mul64 (length bytes) 2)) allocation_budget
  ok tt

-- The variables of the loop.
pub record Scan : Type 0 where
  pub depth : ℕ
  pub in_string : Bool
  pub escaped : Bool
  pub string_bytes : ℕ
  pub elements : ℕ

abbrev pub first_scan : Scan
first_scan = record {
  depth = 0;
  in_string = false;
  escaped = false;
  string_bytes = 0;
  elements = 0;
}

abbrev pub quote : ℕ
quote = 34

abbrev pub backslash : ℕ
backslash = 92

abbrev pub is_open : ℕ → Bool
is_open byte = byte == 123 || byte == 91

abbrev pub is_close : ℕ → Bool
is_close byte = byte == 125 || byte == 93

abbrev pub comma : ℕ
comma = 44

-- A byte of a string, before the length is tested.
unfoldable pub string_byte : Scan → ℕ → Scan
string_byte s byte =
    if s.escaped
    then record s { escaped = false; string_bytes = saturating_add64 s.string_bytes 1 }
    else if byte == backslash
    then record s { escaped = true; string_bytes = saturating_add64 s.string_bytes 1 }
    else if byte == quote
    then record s { in_string = false; string_bytes = 0 }
    else record s { string_bytes = saturating_add64 s.string_bytes 1 }

abbrev pub count_element : ParserLimits → Scan → Limited Scan
count_element limits s = if ltb limits.max_elements s.elements then err element_count else ok s

-- A byte outside strings.
abbrev pub structure_byte : ParserLimits → Scan → ℕ → Limited Scan
structure_byte limits s byte =
    if byte == quote
    then ok (record s { in_string = true })
    else if is_open byte
    then (let depth = saturating_add64 s.depth 1 in
        let next = record s { depth = depth; elements = saturating_add64 s.elements 1 } in
        if ltb limits.max_nesting_depth depth then err nesting_depth else count_element limits next)
    else if is_close byte
    then ok (record s { depth = s.depth - 1 })
    else if byte == comma
    then count_element limits (record s { elements = saturating_add64 s.elements 1 })
    else ok s

abbrev pub bound_string : ParserLimits → Scan → Limited Scan
bound_string limits s =
    if ltb limits.max_string_bytes s.string_bytes then err string_bytes_error else ok s

unfoldable pub scan_byte : ParserLimits → Scan → ℕ → Limited Scan
unfolding string_byte
scan_byte limits s byte =
    if s.in_string then bound_string limits (string_byte s byte) else structure_byte limits s byte

unfoldable pub scan_bytes : ParserLimits → Scan → List ℕ → Limited (Unit {0})
unfolding scan_byte
scan_bytes limits s [] = ok tt
scan_bytes limits s (byte ∷ bytes) = elim (scan_byte limits s byte) [
  | ok next ↦ scan_bytes limits next bytes
  | err e ↦ err e
]

unfoldable pub validate_json_envelope : List ℕ → ParserLimits → Limited (Unit {0})
unfolding validate_input_size scan_bytes
validate_json_envelope bytes limits = do
  validate_input_size bytes limits
  scan_bytes limits first_scan bytes
