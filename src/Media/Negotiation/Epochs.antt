-- ===== src/Media/Negotiation/Epochs.antt =====
-- The format and its epoch change together, and only when the resources were reset.
use camera_man.Base.{◌<◌, ◌≡◌, ◌≢◌, some, ok, err, arith, u64_mod}
use camera_man.Error.{CameraManError, Checked}
use camera_man.Media.Formats.{VideoFormat}
use camera_man.Media.Negotiation.{FormatSnapshot, FormatTransition, renegotiate}
use camera_man.Media.Negotiation.Accepts.{IsAdvertised, validate_advertised_format_iff}

-- The coordinator's format is advertised and its epoch is a non-zero word.
pub record IsCurrent (s : FormatSnapshot) : Type 0 where
  pub format : IsAdvertised s.format
  pub positive : 0 < s.epoch
  pub word : s.epoch < u64_mod

module _ (s : FormatSnapshot) (next : VideoFormat)
    (reset : FormatSnapshot → Checked (Unit {0})) where
  -- Whatever the reset does, a current coordinator stays current.
  pub renegotiate-IsCurrent : IsCurrent s → IsCurrent (renegotiate s next reset).0
  unfolding renegotiate
  renegotiate-IsCurrent v = ground (arith, (validate_advertised_format_iff next).0)

  -- An error leaves the coordinator as it was.
  pub renegotiate_error :
      {e : CameraManError} → (renegotiate s next reset).1 ≡ err e → (renegotiate s next reset).0 ≡ s
  unfolding renegotiate
  renegotiate_error h = ground arith

  -- A current coordinator reports a transition as it was made: from the state before to the
  -- state after, which has the new format and another epoch; and the reset had succeeded for
  -- that state.
  pub renegotiate_transition :
      {t : FormatTransition}
      → IsCurrent s
      → (renegotiate s next reset).1 ≡ ok (some t)
      → (t.previous ≡ s)
        × (t.current ≡ (renegotiate s next reset).0)
        × (t.current.format ≡ next)
        × (t.current.epoch ≢ s.epoch)
        × (reset t.current ≡ ok tt)
  unfolding renegotiate
  renegotiate_transition {t} v h = ground arith
