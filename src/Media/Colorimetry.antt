-- ===== src/Media/Colorimetry.antt =====
-- src/media_contract.rs, `Colorimetry`: the interpretation of the colour channels and its packed
-- 32-bit wire code. `x & (2^k - 1)` is written `x % 2 ^ k`, `x >> k` is `x / 2 ^ k`.
pub mod WireCode
use camera_man.Base.{
  ℕ, ◌*◌, ◌/◌, ◌%◌, ◌^◌, bit_or, Bool, true, false, ◌&&◌, ◌==◌, ◌!=◌, ◌||◌, if◌then◌else◌, Option,
  none, some,
}
use camera_man.Base.Options.{◌>>=◌, ◌>>◌}

abbrev pub color_contract_schema_version : ℕ
color_contract_schema_version = 1

pub data ColorPrimaries : Type 0 where
  bt709 : ColorPrimaries

pub data TransferFunction : Type 0 where
  bt709 : TransferFunction

pub data MatrixCoefficients : Type 0 where
  bt709 : MatrixCoefficients

pub data ColorRange : Type 0 where
  full limited : ColorRange

pub data AlphaMode : Type 0 where
  opaque straight premultiplied : AlphaMode

pub record Colorimetry : Type 0 where
  pub schema_version : ℕ
  pub bit_depth : ℕ
  pub primaries : ColorPrimaries
  pub transfer : TransferFunction
  pub matrix : MatrixCoefficients
  pub range : ColorRange
  pub alpha : AlphaMode

abbrev pub bt709_full_opaque : Colorimetry
bt709_full_opaque = record {
  schema_version = color_contract_schema_version;
  bit_depth = 8;
  primaries = ColorPrimaries.bt709;
  transfer = TransferFunction.bt709;
  matrix = MatrixCoefficients.bt709;
  range = full;
  alpha = opaque;
}

abbrev range_eq : ColorRange → ColorRange → Bool
range_eq full full = true
range_eq limited limited = true
range_eq _ _ = false

abbrev alpha_eq : AlphaMode → AlphaMode → Bool
alpha_eq opaque opaque = true
alpha_eq straight straight = true
alpha_eq premultiplied premultiplied = true
alpha_eq _ _ = false

-- The derived `PartialEq`. The three enums with one variant are always equal.
unfoldable pub colorimetry_eq : Colorimetry → Colorimetry → Bool
colorimetry_eq a b =
    a.schema_version == b.schema_version
    && (a.bit_depth == b.bit_depth && (range_eq a.range b.range && alpha_eq a.alpha b.alpha))

abbrev primaries_code : ColorPrimaries → ℕ
primaries_code ColorPrimaries.bt709 = 1

abbrev transfer_code : TransferFunction → ℕ
transfer_code TransferFunction.bt709 = 1

abbrev matrix_code : MatrixCoefficients → ℕ
matrix_code MatrixCoefficients.bt709 = 1

abbrev range_code : ColorRange → ℕ
range_code full = 1
range_code limited = 2

abbrev alpha_code : AlphaMode → ℕ
alpha_code opaque = 1
alpha_code straight = 2
alpha_code premultiplied = 3

infixl 60 ◌|||◌
abbrev ◌|||◌ : ℕ → ℕ → ℕ
a ||| b = bit_or a b

unfoldable pub wire_code : Colorimetry → ℕ
wire_code c =
    c.schema_version
    ||| c.bit_depth * 2 ^ 8
    ||| primaries_code c.primaries * 2 ^ 16
    ||| transfer_code c.transfer * 2 ^ 19
    ||| matrix_code c.matrix * 2 ^ 22
    ||| range_code c.range * 2 ^ 25
    ||| alpha_code c.alpha * 2 ^ 27

abbrev primaries_from : ℕ → Option ColorPrimaries
primaries_from n = if n == 1 then some ColorPrimaries.bt709 else none

abbrev transfer_from : ℕ → Option TransferFunction
transfer_from n = if n == 1 then some TransferFunction.bt709 else none

abbrev matrix_from : ℕ → Option MatrixCoefficients
matrix_from n = if n == 1 then some MatrixCoefficients.bt709 else none

abbrev range_from : ℕ → Option ColorRange
range_from n = if n == 1 then some full else if n == 2 then some limited else none

abbrev alpha_from : ℕ → Option AlphaMode
alpha_from n =
    if n == 1
    then some opaque
    else if n == 2
    then some straight
    else if n == 3
    then some premultiplied
    else none

-- `return None` under a test.
abbrev none_if : Bool → Option (Unit {0})
none_if true = none
none_if false = some tt

-- `code & 0xC000_0000` keeps the top two bits of the word.
unfoldable pub from_wire_code : ℕ → Option Colorimetry
from_wire_code code = do
  none_if (code / 2 ^ 30 % 4 != 0)
  let schema_version = code % 256
  let bit_depth = code / 2 ^ 8 % 256
  primaries ← primaries_from (code / 2 ^ 16 % 8)
  transfer ← transfer_from (code / 2 ^ 19 % 8)
  matrix ← matrix_from (code / 2 ^ 22 % 8)
  range ← range_from (code / 2 ^ 25 % 4)
  alpha ← alpha_from (code / 2 ^ 27 % 8)
  none_if (schema_version != color_contract_schema_version || bit_depth != 8)
  some (record {
    schema_version = schema_version;
    bit_depth = bit_depth;
    primaries = primaries;
    transfer = transfer;
    matrix = matrix;
    range = range;
    alpha = alpha;
  })
