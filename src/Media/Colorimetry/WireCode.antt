-- ===== src/Media/Colorimetry/WireCode.antt =====
-- The wire code of a colorimetry is read back exactly, and each accepted code has one colorimetry.
use camera_man.Base.{ℕ, ◌<◌, ◌≡◌, refl, sym, subst, some, arith, u32_mod}
use camera_man.Media.Colorimetry.{
  Colorimetry, ColorPrimaries, TransferFunction, MatrixCoefficients, ColorRange, AlphaMode, full,
  limited, opaque, straight, premultiplied, wire_code, from_wire_code,
  color_contract_schema_version,
}

abbrev supported :
    ColorPrimaries → TransferFunction → MatrixCoefficients → ColorRange → AlphaMode → Colorimetry
supported p t m r a = record {
  schema_version = 1;
  bit_depth = 8;
  primaries = p;
  transfer = t;
  matrix = m;
  range = r;
  alpha = a;
}

supported_round_trip :
    (p : ColorPrimaries) (t : TransferFunction) (m : MatrixCoefficients) (r : ColorRange)
    (a : AlphaMode)
    → from_wire_code (wire_code (supported p t m r a)) ≡ some (supported p t m r a)
unfolding wire_code from_wire_code
supported_round_trip ColorPrimaries.bt709 TransferFunction.bt709 MatrixCoefficients.bt709 full
      opaque =
    refl
supported_round_trip ColorPrimaries.bt709 TransferFunction.bt709 MatrixCoefficients.bt709 full
      straight =
    refl
supported_round_trip ColorPrimaries.bt709 TransferFunction.bt709 MatrixCoefficients.bt709 full
      premultiplied =
    refl
supported_round_trip ColorPrimaries.bt709 TransferFunction.bt709 MatrixCoefficients.bt709 limited
      opaque =
    refl
supported_round_trip ColorPrimaries.bt709 TransferFunction.bt709 MatrixCoefficients.bt709 limited
      straight =
    refl
supported_round_trip ColorPrimaries.bt709 TransferFunction.bt709 MatrixCoefficients.bt709 limited
      premultiplied =
    refl

-- A supported colorimetry (schema 1, eight bits) survives the wire: decoding its code gives it back.
pub from_wire_code-wire_code :
    (c : Colorimetry)
    → c.schema_version ≡ color_contract_schema_version
    → c.bit_depth ≡ 8
    → from_wire_code (wire_code c) ≡ some c
from_wire_code-wire_code c v d =
    let e : c ≡ supported c.primaries c.transfer c.matrix c.range c.alpha = ground arith in
    subst (λ x. from_wire_code (wire_code x) ≡ some x) (sym e)
      (supported_round_trip c.primaries c.transfer c.matrix c.range c.alpha)

-- A 32-bit code that decodes is the code of what it decodes to: no two codes mean the same.
pub wire_code-from_wire_code :
    (code : ℕ) {c : Colorimetry}
    → code < u32_mod
    → from_wire_code code ≡ some c
    → wire_code c ≡ code
unfolding wire_code from_wire_code
wire_code-from_wire_code code {c} small e = ground arith
