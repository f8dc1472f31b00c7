-- ===== src/Tests/Shm.antt =====
-- The shared-memory channel on concrete inputs.
use camera_man.Base.{
  ℕ, ◌+◌, ◌%◌, ◌<◌, ◌≤◌, ◌≡◌, ◌≢◌, ◌⊎◌, ◌↔◌, inl, refl, ok, some, Bool, true, false, [], ◌∷◌, arith,
}
use camera_man.Media.Colorimetry.{bt709_full_opaque, wire_code}
use camera_man.Shm.Slot.{
  slot_free, slot_ready, slot_reading, slot_state, slot_owner, reading_slot_state,
  try_claim_for_write, reset_for_new_writer,
}
use camera_man.Shm.Slot.Words.{is_claimable, reset_for_new_writer_undisturbed}
use camera_man.Shm.Ownership.{
  System, Reach, resting, leasing, dead, outside, owning, fresh, load, find_claimable, claim, store,
  publish, lease, die, here, next, update,
}
use camera_man.Shm.Ownership.Exclusion.{mutual_exclusion, lease_stable}
use camera_man.Shm.Ownership.Solo.{after_claim, try_claim_for_write_runs}
use camera_man.Shm.Mapping.{
  magic, version, slot_count, invalid_slot, aligned_header_len, checked_mapped_len,
  checked_slot_offset, cache_line,
}
use camera_man.Shm.Mapping.Bounds.{slot_in_mapping}
use camera_man.Shm.Validation.{
  SharedHeaderMetadata, SharedSlotMetadata, validate_shared_header_metadata,
  validate_shared_slot_metadata,
}
use camera_man.Shm.Validation.Accepts.{
  IsPublished, validate_shared_header_metadata_iff, validate_shared_slot_metadata_iff,
}
use camera_man.Shm.Channel.{Region}
use camera_man.Shm.Channel.Reader.{SharedFrameReader}
use camera_man.Shm.Channel.Writer.{send}
use camera_man.Shm.Channel.Claim.{state_at}
use camera_man.Shm.Channel.Publish.{IsSendable}
use camera_man.Shm.Channel.Publish.Sending.{
  Spares, Receives, Connected, send-Spares, send_succeeds, send_delivers,
}
use camera_man.Tests.Samples.{megabyte, small_frame, idle_slot, quiet_region, open_sink, new_reader}

abbrev everyone : ℕ → Bool
everyone p = true

zero_free : slot_state 0 ≡ slot_free
unfolding slot_state
zero_free = refl

-- The writer claims, fills and publishes the slot, and process 42 leases it.
abbrev leased : System
leased = record {
  word = reading_slot_state 42;
  payload = 9;
  writer = outside;
  readers = update (λ _. resting) 42 leasing;
}

run : Reach (fresh 5) leased
run =
    next
      (next
        (next
          (next (next (next here (load refl refl)) (find_claimable 0 refl (inl zero_free) refl))
            (claim 0 refl refl refl))
          (store 9 refl refl))
        (publish refl refl))
      (lease 42 (omega arith) refl refl refl)

mutual_exclusion_example :
    ((p : ℕ) → leased.writer ≡ owning → leased.readers p ≢ leasing)
    × ((p q : ℕ) → leased.readers p ≡ leasing → leased.readers q ≡ leasing → p ≡ q)
mutual_exclusion_example = mutual_exclusion 5 leased run

abbrev abandoned : System
abandoned = record leased { readers = update leased.readers 42 dead }

lease_stable_example : abandoned.payload ≡ leased.payload
lease_stable_example = lease_stable 5 42 leased abandoned run (die 42 refl) refl

nobody_dead : (p : ℕ) → (everyone p ≡ false) ↔ (resting ≡ dead)
nobody_dead p = (λ e. cc, λ e. cc)

try_claim_for_write_runs_example :
    Reach (fresh 5) (after_claim (fresh 5) (try_claim_for_write slot_free everyone))
try_claim_for_write_runs_example = try_claim_for_write_runs (fresh 5) everyone refl nobody_dead

reset_for_new_writer_undisturbed_example :
    (word' : ℕ) × (reset_for_new_writer ((slot_ready, slot_ready) ∷ []) everyone ≡ some word')
    × ((slot_state slot_ready ≡ slot_reading)
        → (everyone (slot_owner slot_ready) ≡ true)
        → word' ≡ slot_ready)
    × ((slot_state slot_ready ≢ slot_reading) → slot_state word' ≡ slot_free)
    × ((everyone (slot_owner slot_ready) ≡ false) → slot_state word' ≡ slot_free)
reset_for_new_writer_undisturbed_example = reset_for_new_writer_undisturbed slot_ready [] everyone

-- Three slots of a megabyte after a header of 448 bytes, in pages of 16 KiB.
maps : checked_mapped_len 448 1048576 16384 ≡ some 3162112
unfolding checked_mapped_len aligned_header_len
maps = refl

slot_in_mapping_example :
    (offset : ℕ) × (checked_slot_offset 448 2 1048576 ≡ some offset)
    × (448 ≤ offset)
    × (aligned_header_len 448 ≤ offset)
    × (aligned_header_len 448 % cache_line ≡ 0)
    × (offset + 1048576 ≤ 3162112)
slot_in_mapping_example = slot_in_mapping 448 1048576 16384 2 maps (omega arith)

first_offset : checked_slot_offset 448 0 1048576 ≡ some 448
unfolding checked_slot_offset aligned_header_len
first_offset = refl

last_offset : checked_slot_offset 448 2 1048576 ≡ some 2097600
unfolding checked_slot_offset aligned_header_len
last_offset = refl

abbrev sound_header : SharedHeaderMetadata
sound_header = record {
  magic_word = magic;
  version_word = version;
  slot_count_word = slot_count;
  active_slot = 1;
  slot_capacity = 1048576;
  mapping_len = 3162112;
  page_size = 16384;
}

validate_shared_header_metadata_iff_example :
    (validate_shared_header_metadata 448 sound_header ≡ ok tt) ↔ (
      (sound_header.magic_word ≡ magic)
      × (sound_header.version_word ≡ version)
      × (sound_header.slot_count_word ≡ slot_count)
      × ((sound_header.active_slot ≡ invalid_slot) ⊎ (sound_header.active_slot < slot_count))
      × (checked_mapped_len 448 sound_header.slot_capacity sound_header.page_size
          ≡ some sound_header.mapping_len))
validate_shared_header_metadata_iff_example = validate_shared_header_metadata_iff 448 sound_header

abbrev ready_slot : SharedSlotMetadata
ready_slot = record {
  state = slot_ready;
  width = 2;
  height = 1;
  pixel_format = 1;
  fps = 30;
  color_contract = wire_code bt709_full_opaque;
  generation = 7;
  data_len = 8;
}

ready_state : slot_state slot_ready ≡ slot_ready
unfolding slot_state
ready_state = refl

validate_shared_slot_metadata_iff_example :
    (validate_shared_slot_metadata ready_slot 64 ≡ ok tt) ↔ (
      (slot_state slot_ready ≡ slot_reading → 0 < slot_owner slot_ready)
      × IsPublished ready_slot 64)
validate_shared_slot_metadata_iff_example =
    validate_shared_slot_metadata_iff ready_slot 64 (inl ready_state)

sendable : IsSendable small_frame 64
sendable = record {
  valid = record { wide = omega arith; high = omega arith; exact = refl; word = omega arith };
  canonical = refl;
  narrow = omega arith;
  low = omega arith;
  fits = omega arith;
}

connected : Connected open_sink quiet_region new_reader small_frame 43
connected = record {
  mapped = refl;
  capacity = refl;
  writer = omega arith;
  rate = omega arith;
  process = omega arith;
  narrow = omega arith;
  sendable = sendable;
  fresh = refl;
}

idle_claimable : is_claimable everyone (state_at quiet_region 0) ≡ true
unfolding slot_state
idle_claimable = refl

send_succeeds_example : (send open_sink everyone 100 200 small_frame).1 ≡ ok tt
send_succeeds_example =
    send_succeeds open_sink quiet_region small_frame everyone 100 200 0 refl sendable (omega arith)
      idle_claimable

send-Spares_example :
    Spares everyone quiet_region (send open_sink everyone 100 200 small_frame).0.mapping
send-Spares_example = send-Spares open_sink quiet_region small_frame everyone 100 200 refl

sent : (send open_sink everyone 100 200 small_frame).1 ≡ ok tt
sent =
    send_succeeds open_sink quiet_region small_frame everyone 100 200 0 refl sendable (omega arith)
      idle_claimable

send_delivers_example :
    Receives megabyte new_reader 43 300
      (send open_sink everyone 100 200 small_frame).0.mapping
      small_frame
      0
      7
send_delivers_example =
    send_delivers megabyte open_sink quiet_region new_reader small_frame 43 300 everyone 100 200
      connected (omega arith) sent

-- A published slot of generation 7 in a region whose reader has its frame already.
abbrev seen_region : Region
seen_region = record quiet_region {
  header = record (quiet_region.header) {
    active_slot = 2;
    slots = λ _. record idle_slot { state = slot_ready; generation = 7; sequence = 12 };
  };
}

abbrev caught_up : SharedFrameReader
caught_up = record new_reader { last_sequence = some 12 }
