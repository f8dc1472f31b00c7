-- ===== src/Shm/Ownership.antt =====
-- src/shared_memory_transport/slot_state_machine.rs with everybody at work: one writer and any
-- number of readers, interleaved at their atomic accesses to the state word. A reader may die at any
-- point; no process takes over the id of a dead one. `payload` stands for the slot's bytes and
-- metadata, which only the owner of a writing slot stores.
pub mod Exclusion
pub mod Solo
use camera_man.Base.{ℕ, ◌<◌, ◌≡◌, ◌≢◌, ◌⊎◌, ◌==◌, if◌then◌else◌, u32_mod}
use camera_man.Shm.Slot.{
  slot_free, slot_ready, slot_reading, slot_writing, slot_state, slot_owner, reading_slot_state,
}

-- Where a reader stands: between calls, between its claim and its release, or gone.
pub data ReaderPc : Type 0 where
  resting leasing dead : ReaderPc

-- Where the writer stands in `try_claim_for_write`, and between a claim and `publish_ready`.
pub data WriterPc : Type 0 where
  outside : WriterPc
  loaded : (current : ℕ) → WriterPc  -- before the tests on `current`
  reclaiming : (current : ℕ) → WriterPc  -- before the exchange that frees a dead reader's slot
  claiming : (current : ℕ) → WriterPc  -- before the exchange to `WRITING`
  owning : WriterPc

pub record System : Type 0 where
  pub word : ℕ
  pub payload : ℕ
  pub writer : WriterPc
  pub readers : ℕ → ReaderPc

abbrev pub update : (ℕ → ReaderPc) → ℕ → ReaderPc → ℕ → ReaderPc
update f p r q = if q == p then r else f q

-- One atomic access, a test of the writer, or a death.
pub data Step (s t : System) : Type 0 where
  load : s.writer ≡ outside → t ≡ record s { writer = loaded s.word } → Step s t
  find_orphan :
      (w : ℕ)
      → s.writer ≡ loaded w
      → slot_state w ≡ slot_reading
      → s.readers (slot_owner w) ≡ dead
      → t ≡ record s { writer = reclaiming w }
      → Step s t
  find_claimable :
      (w : ℕ)
      → s.writer ≡ loaded w
      → (slot_state w ≡ slot_free) ⊎ (slot_state w ≡ slot_ready)
      → t ≡ record s { writer = claiming w }
      → Step s t
  find_busy :
      (w : ℕ)
      → s.writer ≡ loaded w
      → slot_state w ≢ slot_free
      → slot_state w ≢ slot_ready
      → t ≡ record s { writer = outside }
      → Step s t
  reclaim :
      (w : ℕ)
      → s.writer ≡ reclaiming w
      → s.word ≡ w
      → t ≡ record s { word = slot_free; writer = claiming slot_free }
      → Step s t
  reclaim_lost :
      (w : ℕ) → s.writer ≡ reclaiming w → s.word ≢ w → t ≡ record s { writer = outside } → Step s t
  claim :
      (w : ℕ)
      → s.writer ≡ claiming w
      → s.word ≡ w
      → t ≡ record s { word = slot_writing; writer = owning }
      → Step s t
  claim_lost :
      (w : ℕ) → s.writer ≡ claiming w → s.word ≢ w → t ≡ record s { writer = outside } → Step s t
  store : (v : ℕ) → s.writer ≡ owning → t ≡ record s { payload = v } → Step s t
  publish : s.writer ≡ owning → t ≡ record s { word = slot_ready; writer = outside } → Step s t
  lease :
      (p : ℕ)
      → p < u32_mod
      → s.readers p ≡ resting
      → s.word ≡ slot_ready
      → t ≡ record s { word = reading_slot_state p; readers = update s.readers p leasing }
      → Step s t
  lease_lost : (p : ℕ) → s.readers p ≡ resting → s.word ≢ slot_ready → t ≡ s → Step s t
  release :
      (p : ℕ)
      → s.readers p ≡ leasing
      → t ≡ record s { word = slot_ready; readers = update s.readers p resting }
      → Step s t
  die : (p : ℕ) → t ≡ record s { readers = update s.readers p dead } → Step s t

pub data Reach (s : System) : System → Type 0 where
  here : Reach s s
  next : {t u : System} → Reach s t → Step t u → Reach s u

-- A free slot, a writer outside, and every reader at rest.
abbrev pub fresh : ℕ → System
fresh payload = record {
  word = slot_free;
  payload = payload;
  writer = outside;
  readers = λ _. resting;
}
