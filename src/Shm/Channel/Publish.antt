-- ===== src/Shm/Channel/Publish.antt =====
-- What a reader finds in a slot that holds a published frame.
pub mod Delivery
pub mod Sending
use camera_man.Base.{
  ℕ, zero, suc, ◌+◌, ◌-◌, ◌*◌, ◌%◌, ◌≤◌, ◌<◌, ◌≡◌, ◌≢◌, ◌⊎◌, inl, inr, refl, sym, ap, ◌∙◌, subst,
  min, max, Bool, true, false, Option, none, some, ok, err, arith, List, length, take, drop, ◌++◌,
  take-append_length, wrapping_add64, u64_max, u64_mod, u32_mod, if◌then◌else◌,
}
use camera_man.Media.Formats.{bgra8, PixelFormat, bytes_per_pixel}
use camera_man.Media.Colorimetry.{bt709_full_opaque, wire_code, from_wire_code}
use camera_man.Media.Colorimetry.WireCode.{from_wire_code-wire_code}
use camera_man.Media.Contract.{FrameContract, canonical_bgra, is_canonical_bgra, validate_contract}
use camera_man.Media.Contract.Validity.{is_canonical_bgra_iff, canonical_bgra-valid}
use camera_man.Frame.Limits.{FrameLimits}
use camera_man.Frame.Buffer.{Frame}
use camera_man.Frame.Buffer.Valid.{IsValidFrame}
use camera_man.Frame.View.{
  FrameView, as_view, new_checked_view, new_checked_view_with_contract,
  to_owned_tightly_packed_with_limits,
}
use camera_man.Frame.View.Tight.{to_owned-as_view}
use camera_man.Shm.Slot.{
  slot_ready, slot_reading, slot_state, slot_owner, reading_slot_state, publish_ready,
  try_claim_for_read,
}
use camera_man.Shm.Slot.Words.{reading_slot_state_parts, try_claim_for_read_lem}
use camera_man.Shm.Mapping.{slot_count}
use camera_man.Shm.Validation.{
  SharedSlotMetadata, validate_shared_slot_metadata, pixel_format_bgra8,
}
use camera_man.Shm.Validation.Accepts.{IsPublished, validate_shared_slot_metadata_iff}
use camera_man.Shm.Channel.{
  SharedSlot, SharedHeader, Region, with_state, with_slot, with_bytes, store_at,
}
use camera_man.Shm.Channel.Writer.{SharedFrameSink, publish}
use camera_man.Shm.Channel.Reader.{
  SharedFrameReader, TransportFrame, borrow_frame, read_leased, read_round, read_latest_borrowed,
  read_latest, follow_writer,
}

-- A frame that `send` accepts: valid, canonical, with 32-bit sides, and no longer than a slot.
pub record IsSendable (f : Frame) (slot_capacity : ℕ) : Type 0 where
  pub valid : IsValidFrame f
  pub canonical : f.contract ≡ canonical_bgra f.width f.height
  pub narrow : f.width < u32_mod
  pub low : f.height < u32_mod
  pub fits : length f.bytes ≤ slot_capacity

-- The slot holds the frame, and a reader has it leased.
pub record Holds (slot : SharedSlot) (f : Frame) (pid : ℕ) : Type 0 where
  pub state : slot.state ≡ reading_slot_state pid
  pub width : slot.width ≡ f.width
  pub height : slot.height ≡ f.height
  pub pixels : slot.pixel_format ≡ pixel_format_bgra8
  pub color : slot.color_contract ≡ wire_code f.contract.colorimetry
  pub generation : 0 < slot.generation
  pub exact : slot.data_len ≡ length f.bytes

pub bt709_wire : from_wire_code (wire_code bt709_full_opaque) ≡ some bt709_full_opaque
bt709_wire = from_wire_code-wire_code bt709_full_opaque refl refl

pub canonical_color :
    (f : Frame)
    → f.contract ≡ canonical_bgra f.width f.height
    → f.contract.colorimetry ≡ bt709_full_opaque
unfolding canonical_bgra
canonical_color f e = ap (λ (c : FrameContract). c.colorimetry) e

area :
    (slot : SharedSlot) (f : Frame) (pid : ℕ)
    → Holds slot f pid
    → slot.width * slot.height ≡ f.width * f.height
area slot f pid h = λ i. h.width i * h.height i

held_valid :
    (slot : SharedSlot) (f : Frame) (pid capacity : ℕ)
    → 0 < pid
    → pid < u32_mod
    → IsSendable f capacity
    → Holds slot f pid
    → validate_shared_slot_metadata
        (record {
          state = slot.state;
          width = slot.width;
          height = slot.height;
          pixel_format = slot.pixel_format;
          fps = max slot.fps 1;
          color_contract = slot.color_contract;
          generation = slot.generation;
          data_len = slot.data_len;
        })
        capacity
      ≡ ok tt
held_valid slot f pid capacity p b s h =
    let (st, ow, known, small) = reading_slot_state_parts pid b in
    (validate_shared_slot_metadata_iff _ capacity (inr (ap slot_state h.state ∙ st))).1 (
      λ _. omega (arith, ap slot_owner h.state, ow),
      record {
        wide = omega (arith, h.width, s.valid.wide);
        high = omega (arith, h.height, s.valid.high);
        pixels = h.pixels;
        rate = omega arith;
        color =
            ap from_wire_code (h.color ∙ ap wire_code (canonical_color f s.canonical)) ∙ bt709_wire;
        generation = h.generation;
        exact = omega (arith, h.exact, s.valid.exact, area slot f pid h);
        word = omega (arith, s.valid.word, area slot f pid h);
        fits = omega (arith, h.exact, s.fits);
      },
    )

rows_total : (h w : ℕ) → 0 < h → (h - 1) * (w * 4) + w * 4 ≡ w * h * 4
rows_total zero w p = absurd (omega arith)
rows_total (suc k) w p = let e : suc k - 1 ≡ k = omega arith in rw e (omega arith)

pub canonical_valid :
    (f : Frame) (capacity : ℕ)
    → IsSendable f capacity
    → validate_contract f.contract f.width f.height ≡ ok tt
canonical_valid f capacity s =
    subst (λ (c : FrameContract). validate_contract c f.width f.height ≡ ok tt) (sym s.canonical)
      (canonical_bgra-valid f.width f.height s.valid.wide s.valid.high s.narrow s.low)

pub one_format : (p : PixelFormat) → p ≡ bgra8
one_format bgra8 = refl

-- The view that the reader builds is the frame's own.
view_ok :
    (f : Frame) (capacity : ℕ)
    → IsSendable f capacity
    → new_checked_view_with_contract f.width f.height bgra8 f.contract (f.width * 4) f.bytes
      ≡ ok (as_view f)
unfolding new_checked_view_with_contract new_checked_view as_view bytes_per_pixel
view_ok f capacity s = ground (
  arith,
  canonical_valid f capacity s,
  rows_total f.height f.width s.valid.high,
  s.valid.exact,
  s.valid.word,
  one_format f.pixel_format,
)

pub same_contract :
    (f : Frame)
    → f.contract ≡ canonical_bgra f.width f.height
    → record (canonical_bgra f.width f.height) { colorimetry = bt709_full_opaque } ≡ f.contract
unfolding canonical_bgra
same_contract f e = sym e

pub borrow_frame_held :
    (r : Region) (i capacity pid : ℕ) (f : Frame)
    → 0 < pid
    → pid < u32_mod
    → IsSendable f capacity
    → Holds (r.header.slots i) f pid
    → take (length f.bytes) (r.slot_bytes i) ≡ f.bytes
    → borrow_frame r i capacity ≡ ok (as_view f)
unfolding borrow_frame
borrow_frame_held r i capacity pid f p b s h t = ground (
  arith,
  held_valid (r.header.slots i) f pid capacity p b s h,
  ap from_wire_code (h.color ∙ ap wire_code (canonical_color f s.canonical)) ∙ bt709_wire,
  view_ok f capacity s,
  same_contract f s.canonical,
  ap (λ (n : ℕ). take n (r.slot_bytes i)) h.exact ∙ t,
  s.narrow,
  h.width,
  h.height,
)
