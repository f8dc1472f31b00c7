-- ===== src/Shm/Slot.antt =====
-- src/shared_memory_transport/slot_state_machine.rs: the state word of a slot and the operations on
-- it, when nobody else accesses the word meanwhile. `x & 0xff` is `x % 256`; `pid << 32 | READING`
-- is a sum, since the low bits of the first part are zero.
pub mod Words
use camera_man.Base.{
  ℕ, ◌+◌, ◌*◌, ◌/◌, ◌%◌, ◌^◌, Bool, true, false, not, ◌&&◌, ◌||◌, ◌==◌, if◌then◌else◌, List, [],
  ◌∷◌, Option, none, some, u32_mod,
}

abbrev pub slot_free : ℕ
slot_free = 0

abbrev pub slot_ready : ℕ
slot_ready = 1

abbrev pub slot_reading : ℕ
slot_reading = 2

abbrev pub slot_writing : ℕ
slot_writing = 3

unfoldable pub reading_slot_state : ℕ → ℕ
reading_slot_state pid = pid * 2 ^ 32 + slot_reading

unfoldable pub slot_state : ℕ → ℕ
slot_state state = state % 256

unfoldable pub slot_owner : ℕ → ℕ
slot_owner state = state / 2 ^ 32 % u32_mod

unfoldable pub is_known_state : ℕ → Bool
unfolding slot_state
is_known_state state =
    let s = slot_state state in
    s == slot_free || (s == slot_ready || (s == slot_reading || s == slot_writing))

-- `compare_exchange`: the new word, and whether it was exchanged.
abbrev pub compare_exchange : ℕ → ℕ → ℕ → ℕ × Bool
compare_exchange word current new = if word == current then (new, true) else (word, false)

-- The second half of `try_claim_for_write`, from `current` on.
abbrev claim_current : ℕ → ℕ → ℕ × Bool
claim_current word current =
    if slot_state current == slot_free || slot_state current == slot_ready
    then compare_exchange word current slot_writing
    else (word, false)

-- `reader_is_alive` asks the operating system.
unfoldable pub try_claim_for_write : ℕ → (ℕ → Bool) → ℕ × Bool
unfolding slot_state slot_owner
try_claim_for_write word reader_is_alive =
    let current = word in
    if slot_state current == slot_reading && not (reader_is_alive (slot_owner current))
    then (let (word', reclaimed) = compare_exchange word current slot_free in
        if reclaimed then claim_current word' slot_free else (word', false))
    else claim_current word current

unfoldable pub publish_ready : ℕ → ℕ
publish_ready word = slot_ready

unfoldable pub try_claim_for_read : ℕ → ℕ → ℕ × Bool
unfolding reading_slot_state
try_claim_for_read word pid = compare_exchange word slot_ready (reading_slot_state pid)

unfoldable pub release_read : ℕ → ℕ
release_read word = slot_ready

-- One round of the loop of `reset_for_new_writer`: `loaded` is the word read at its head, `word` the
-- word at the time of the exchange. The result is the new word, and whether the loop returns.
unfoldable pub reset_round : ℕ → ℕ → (ℕ → Bool) → ℕ × Bool
unfolding slot_state slot_owner
reset_round loaded word reader_is_alive =
    let s = slot_state loaded in
    if s == slot_free
    then (word, true)
    else if s == slot_reading && reader_is_alive (slot_owner loaded)
    then (word, true)
    else if s == slot_ready || (s == slot_reading || s == slot_writing)
    then compare_exchange word loaded slot_free
    else (slot_free, true)

-- The loop over what other processes make it see in each round: the pairs (`loaded`, `word`). `none`
-- if it still runs after those rounds.
unfoldable pub reset_for_new_writer : List (ℕ × ℕ) → (ℕ → Bool) → Option ℕ
unfolding reset_round
reset_for_new_writer [] reader_is_alive = none
reset_for_new_writer ((loaded, word) ∷ rounds) reader_is_alive =
    let (word', done) = reset_round loaded word reader_is_alive in
    let rest = reset_for_new_writer rounds reader_is_alive in if done then some word' else rest
