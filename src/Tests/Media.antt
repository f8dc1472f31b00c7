-- ===== src/Tests/Media.antt =====
-- Media contracts, coordinates, transforms and negotiation on concrete inputs.
use camera_man.Base.{true, ◌<◌, ◌≡◌, ◌↔◌, refl, ok, some, arith}
use camera_man.Error.{Checked}
use camera_man.Media.Formats.{VideoFormat, bgra8, hd_1080p_bgra}
use camera_man.Media.Colorimetry.{bt709_full_opaque, wire_code, from_wire_code}
use camera_man.Media.Colorimetry.WireCode.{from_wire_code-wire_code}
use camera_man.Media.Contract.{FrameContract, validate_contract}
use camera_man.Media.Contract.Validity.{IsValidContract, validate_contract_iff}
use camera_man.Media.Coordinates.{source_coordinate, display_dimensions}
use camera_man.Media.Coordinates.Bijection.{
  display_coordinate, display_coordinate-source_coordinate,
}
use camera_man.Media.Transform.{
  validate_transform, apply_to_contract, is_identity, default_transform,
}
use camera_man.Media.Transform.Compose.{Narrows, apply_to_contract-Narrows}
use camera_man.Media.Negotiation.{
  StreamRequest, interactive_latest_frame, borrowed_until_release, FormatSnapshot, FormatTransition,
  default_coordinator, renegotiate, validate_advertised_format,
}
use camera_man.Media.Negotiation.Epochs.{IsCurrent}
use camera_man.Tests.Samples.{turned, quarter_crop}

from_wire_code-wire_code_example :
    from_wire_code (wire_code bt709_full_opaque) ≡ some bt709_full_opaque
from_wire_code-wire_code_example = from_wire_code-wire_code bt709_full_opaque refl refl

decodes : from_wire_code (wire_code bt709_full_opaque) ≡ some bt709_full_opaque
decodes = from_wire_code-wire_code bt709_full_opaque refl refl

validate_contract_iff_example : (validate_contract turned 4 2 ≡ ok tt) ↔ IsValidContract turned 4 2
validate_contract_iff_example = validate_contract_iff turned 4 2 (omega arith) (omega arith)

turned-valid : validate_contract turned 4 2 ≡ ok tt
unfolding validate_contract
turned-valid = refl

turned_width : 1 < (display_dimensions turned).0
unfolding display_dimensions
turned_width = omega arith

turned_height : 0 < (display_dimensions turned).1
unfolding display_dimensions
turned_height = omega arith

display_coordinate-source_coordinate_example :
    display_coordinate turned (source_coordinate turned 1 0) ≡ (1, 0)
display_coordinate-source_coordinate_example =
    display_coordinate-source_coordinate turned 4 2 1 0 (omega arith) (omega arith) refl
      turned-valid turned_width turned_height

quarter_crop-valid : validate_transform quarter_crop ≡ ok tt
unfolding validate_transform
quarter_crop-valid = refl

apply_to_contract-Narrows_example :
    (d : FrameContract) × (apply_to_contract quarter_crop turned 4 2 ≡ ok d)
    × (validate_contract d 4 2 ≡ ok tt)
    × Narrows turned.clean_aperture d.clean_aperture
apply_to_contract-Narrows_example =
    apply_to_contract-Narrows quarter_crop turned 4 2 (omega arith) (omega arith) quarter_crop-valid
      turned-valid

default-identity : is_identity default_transform ≡ true
unfolding is_identity
default-identity = refl

abbrev hd_request : StreamRequest
hd_request = record {
  format = hd_1080p_bgra;
  colorimetry = bt709_full_opaque;
  latency_mode = interactive_latest_frame;
  ownership = borrowed_until_release;
}

abbrev hd_60 : VideoFormat
hd_60 = record { width = 1920; height = 1080; fps = 60; pixel_format = bgra8 }

abbrev willing : FormatSnapshot → Checked (Unit {0})
willing s = ok tt

default-IsCurrent : IsCurrent default_coordinator
default-IsCurrent = record {
  format = record { width = refl; height = refl; slowest = omega arith; fastest = omega arith };
  positive = omega arith;
  word = omega arith;
}

abbrev to_60 : FormatTransition
to_60 = record { previous = default_coordinator; current = record { epoch = 2; format = hd_60 } }

to_60_commits : (renegotiate default_coordinator hd_60 willing).1 ≡ ok (some to_60)
unfolding renegotiate validate_advertised_format
to_60_commits = refl
