-- ===== src/Media/Negotiation/Accepts.antt =====
-- The requests that negotiation accepts, and what it promises for them.
use camera_man.Base.{◌≤◌, ◌≡◌, ◌↔◌, ok, arith}
use camera_man.Media.Formats.{VideoFormat}
use camera_man.Media.Colorimetry.{bt709_full_opaque}
use camera_man.Media.Contract.{canonical_bgra}
use camera_man.Media.Negotiation.{
  StreamRequest, NegotiatedStream, negotiate_stream, validate_advertised_format,
  interactive_latest_frame, borrowed_until_release,
}

-- The format is the advertised geometry at an advertised rate.
pub record IsAdvertised (f : VideoFormat) : Type 0 where
  pub width : f.width ≡ 1920
  pub height : f.height ≡ 1080
  pub slowest : 15 ≤ f.fps
  pub fastest : f.fps ≤ 60

-- The complete advertised contract, of a request.
pub record IsOffered (r : StreamRequest) : Type 0 where
  pub format : IsAdvertised r.format
  pub color : r.colorimetry ≡ bt709_full_opaque
  pub latency : r.latency_mode ≡ interactive_latest_frame
  pub ownership : r.ownership ≡ borrowed_until_release

-- What a stream is granted: the request, under the canonical contract of its size.
abbrev pub grant : StreamRequest → NegotiatedStream
grant r = record {
  format = r.format;
  contract = canonical_bgra r.format.width r.format.height;
  latency_mode = r.latency_mode;
  ownership = r.ownership;
}

-- A request is granted exactly if it asks for 1920x1080 at 15 to 60 frames per second in full-range
-- opaque BT.709, latest-frame latency and borrowed frames; it then gets the canonical contract.
pub negotiate_stream_iff : (r : StreamRequest) → (negotiate_stream r ≡ ok (grant r)) ↔ IsOffered r
unfolding negotiate_stream canonical_bgra
negotiate_stream_iff r = (λ e. ground arith, λ o. ground arith)

-- Nothing else is ever granted to a request.
pub negotiate_stream-grant :
    (r : StreamRequest) {s : NegotiatedStream} → negotiate_stream r ≡ ok s → s ≡ grant r
unfolding negotiate_stream canonical_bgra
negotiate_stream-grant r e = ground arith

pub validate_advertised_format_iff :
    (f : VideoFormat) → (validate_advertised_format f ≡ ok tt) ↔ IsAdvertised f
unfolding validate_advertised_format
validate_advertised_format_iff f = (λ e. ground arith, λ a. ground arith)
