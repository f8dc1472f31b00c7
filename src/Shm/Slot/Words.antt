-- ===== src/Shm/Slot/Words.antt =====
-- The state words and what the operations do to them, with nobody else at work.
use camera_man.Base.{
  ℕ, ◌<◌, ◌≡◌, ◌≢◌, Bool, true, false, arith, List, ◌∷◌, some, u32_mod, u64_mod, not, ◌&&◌, ◌||◌,
  ◌==◌, if◌then◌else◌,
}
use camera_man.Shm.Slot.{
  slot_free, slot_ready, slot_reading, slot_writing, reading_slot_state, slot_state, slot_owner,
  is_known_state, try_claim_for_write, try_claim_for_read, release_read, reset_round,
  reset_for_new_writer,
}

-- A reader's state word holds its 32-bit process id and the reading state, and fits 64 bits.
pub reading_slot_state_parts :
    (pid : ℕ)
    → pid < u32_mod
    → (slot_state (reading_slot_state pid) ≡ slot_reading)
      × (slot_owner (reading_slot_state pid) ≡ pid)
      × (is_known_state (reading_slot_state pid) ≡ true)
      × (reading_slot_state pid < u64_mod)
unfolding reading_slot_state slot_state slot_owner is_known_state
reading_slot_state_parts pid h = (omega arith, omega arith, ground arith, omega arith)

-- Two readers never have the same word.
pub reading_slot_state_injective : (p q : ℕ) → reading_slot_state p ≡ reading_slot_state q → p ≡ q
unfolding reading_slot_state
reading_slot_state_injective p q e = omega arith

-- What the writer may take: a free or a ready slot, and one whose reader is dead.
abbrev pub is_claimable : (ℕ → Bool) → ℕ → Bool
is_claimable alive word =
    slot_state word == slot_free
    || (slot_state word == slot_ready
        || (slot_state word == slot_reading && not (alive (slot_owner word))))

-- With nobody else at work the writer's claim takes exactly the claimable slots, marks them as
-- writing, and leaves any other slot as it is.
pub try_claim_for_write_lem :
    (word : ℕ) (alive : ℕ → Bool)
    → try_claim_for_write word alive
      ≡ (if is_claimable alive word then (slot_writing, true) else (word, false))
unfolding try_claim_for_write
try_claim_for_write_lem word alive = ground arith

-- A reader's claim takes exactly the published slots, and its release publishes them again.
pub try_claim_for_read_lem :
    (word pid : ℕ)
    → ((word ≡ slot_ready)
        → (try_claim_for_read word pid ≡ (reading_slot_state pid, true))
          × (release_read (try_claim_for_read word pid).0 ≡ word))
      × ((word ≢ slot_ready) → try_claim_for_read word pid ≡ (word, false))
unfolding try_claim_for_read release_read
try_claim_for_read_lem word pid = (λ e. (ground arith, ground arith), λ n. ground arith)

-- A round of the reset that nobody disturbs ends the loop. A slot that a live process reads is
-- unchanged, and any other slot is free.
pub reset_for_new_writer_undisturbed :
    (word : ℕ) (rounds : List (ℕ × ℕ)) (alive : ℕ → Bool)
    → (word' : ℕ) × (reset_for_new_writer ((word, word) ∷ rounds) alive ≡ some word')
      × ((slot_state word ≡ slot_reading) → (alive (slot_owner word) ≡ true) → word' ≡ word)
      × ((slot_state word ≢ slot_reading) → slot_state word' ≡ slot_free)
      × ((alive (slot_owner word) ≡ false) → slot_state word' ≡ slot_free)
unfolding reset_for_new_writer slot_state slot_owner
reset_for_new_writer_undisturbed word rounds alive = (
  (reset_round word word alive).0,
  ground arith,
  λ reading living. ground arith,
  λ other. ground arith,
  λ dead. ground arith,
)
