-- ===== src/Shm/Channel/Claim.antt =====
-- Which slot the writer claims, and what a claim leaves alone.
use camera_man.Base.{
  ℕ, zero, suc, ◌+◌, ◌-◌, ◌%◌, ◌<◌, ◌≡◌, ◌≢◌, inl, inr, refl, ◌∙◌, Bool, true, false, Option, none,
  some, arith, if◌then◌else◌, Bool-cases, ◌==◌, ==_iff, ==_refl, subst,
}
use camera_man.Shm.Slot.{slot_writing}
use camera_man.Shm.Slot.Words.{is_claimable, try_claim_for_write_lem}
use camera_man.Shm.Mapping.{slot_count}
use camera_man.Shm.Channel.{SharedSlot, Region, with_state}
use camera_man.Shm.Channel.Writer.{claim_from}

abbrev index_of : ℕ → ℕ → ℕ
index_of next_slot offset = (next_slot + offset) % slot_count

abbrev pub state_at : Region → ℕ → ℕ
state_at r j = (r.header.slots j).state

-- One round of the loop, through the specification of the claim.
claim_from_step :
    (rounds offset next : ℕ) (alive : ℕ → Bool) (r : Region)
    → let i = index_of next offset in
      claim_from (suc rounds) offset next alive r ≡ (
        if is_claimable alive (state_at r i)
        then (with_state r i slot_writing, some i)
        else claim_from rounds (offset + 1) next alive (with_state r i (state_at r i)))
unfolding claim_from
claim_from_step rounds offset next alive r =
    elim (Bool-cases (is_claimable alive (state_at r (index_of next offset)))) [
      | inl c ↦ rw (try_claim_for_write_lem, c) refl
      | inr c ↦ rw (try_claim_for_write_lem, c) refl
    ]

-- The second region differs from the first at most in the named slot.
pub record SameBut (i : ℕ) (r r' : Region) : Type 0 where
  pub slots : (j : ℕ) → j ≢ i → r'.header.slots j ≡ r.header.slots j
  pub bytes : r'.slot_bytes ≡ r.slot_bytes
  pub generation : r'.header.writer_generation ≡ r.header.writer_generation
  pub sequence : r'.header.next_sequence ≡ r.header.next_sequence

pub data Claims (alive : ℕ → Bool) (r : Region) (out : Region × Option ℕ) : Type 0 where
  busy :
      out.1 ≡ none
      → out.0.slot_bytes ≡ r.slot_bytes
      → ((j : ℕ) → out.0.header.slots j ≡ r.header.slots j)
      → Claims alive r out
  won :
      (i : ℕ)
      → out.1 ≡ some i
      → i < slot_count
      → is_claimable alive (state_at r i) ≡ true
      → state_at out.0 i ≡ slot_writing
      → SameBut i r out.0
      → Claims alive r out

unchanged :
    (r : Region) (i j : ℕ) → (with_state r i (state_at r i)).header.slots j ≡ r.header.slots j
unchanged r i j = elim (Bool-cases (j == i)) [
  | inl y ↦ rw y (ground (arith, (==_iff j i).0 y))
  | inr n ↦ rw n refl
]

Claims-of_step :
    (alive : ℕ → Bool) (r : Region) (i : ℕ) (out : Region × Option ℕ)
    → Claims alive (with_state r i (state_at r i)) out
    → Claims alive r out
Claims-of_step alive r i out (busy n b s) = busy n b (λ j. s j ∙ unchanged r i j)
Claims-of_step alive r i out (won k o b c w s) =
    won k o b
      (subst (λ (slot : SharedSlot). is_claimable alive slot.state ≡ true) (unchanged r i k) c) w
      (record {
        slots = λ j n. s.slots j n ∙ unchanged r i j;
        bytes = s.bytes;
        generation = s.generation;
        sequence = s.sequence;
      })

claim_from_end :
    (offset next : ℕ) (alive : ℕ → Bool) (r : Region)
    → claim_from zero offset next alive r ≡ (r, none)
unfolding claim_from
claim_from_end offset next alive r = refl

claimed :
    (r : Region) (i : ℕ)
    → i < slot_count
    → (alive : ℕ → Bool) → is_claimable alive (state_at r i) ≡ true
    → Claims alive r (with_state r i slot_writing, some i)
claimed r i b alive c = won i refl b c (ground (arith, ==_refl i)) (record {
  slots = λ j n. ground (arith, ==_iff j i);
  bytes = refl;
  generation = refl;
  sequence = refl;
})

-- The loop claims a claimable slot and changes nothing but its state, or changes nothing.
pub claim_from-Claims :
    (rounds offset next : ℕ) (alive : ℕ → Bool) (r : Region)
    → Claims alive r (claim_from rounds offset next alive r)
claim_from-Claims zero offset next alive r =
    rw (claim_from_end offset next alive r) (busy refl refl (λ j. refl))
claim_from-Claims (suc rounds) offset next alive r =
    let i = index_of next offset in
    elim (Bool-cases (is_claimable alive (state_at r i))) [
      | inl c ↦
          rw (claim_from_step rounds offset next alive r, c) (claimed r i (omega arith) alive c)
      | inr c ↦
          rw (claim_from_step rounds offset next alive r, c)
            (Claims-of_step alive r i _
              (claim_from-Claims rounds (offset + 1) next alive (with_state r i (state_at r i))))
    ]

-- A busy answer means that no slot of the rounds was claimable.
claim_from_busy :
    (rounds offset next : ℕ) (alive : ℕ → Bool) (r : Region)
    → (claim_from rounds offset next alive r).1 ≡ none
    → (k : ℕ) → k < rounds
    → is_claimable alive (state_at r (index_of next (offset + k))) ≡ false
claim_from_busy zero offset next alive r n k h = elim h [ ]
claim_from_busy (suc rounds) offset next alive r n zero h =
    let z : offset + 0 ≡ offset = omega arith in
    rw z (elim (Bool-cases (is_claimable alive (state_at r (index_of next offset)))) [
      | inl c ↦ absurd (cc (rw (claim_from_step rounds offset next alive r, c) at n))
      | inr c ↦ c
    ])
claim_from_busy (suc rounds) offset next alive r n (suc k) h =
    let i = index_of next offset in
    let r' = with_state r i (state_at r i) in
    let z : (offset + 1) + k ≡ offset + suc k = omega arith in
    elim (Bool-cases (is_claimable alive (state_at r i))) [
      | inl c ↦ absurd (cc (rw (claim_from_step rounds offset next alive r, c) at n))
      | inr c ↦
          subst (λ (m : ℕ). is_claimable alive (state_at r (index_of next m)) ≡ false) z
            (subst (λ (slot : SharedSlot). is_claimable alive slot.state ≡ false)
              (unchanged r i (index_of next ((offset + 1) + k)))
              (claim_from_busy rounds (offset + 1) next alive r'
                (rw (claim_from_step rounds offset next alive r, c) at n) k (omega arith)))
    ]

-- From any starting slot the three rounds try all three slots.
round_of : (next j : ℕ) → j < 3 → (k : ℕ) × (k < 3) × (index_of next (0 + k) ≡ j)
round_of next j h = ((j + 3 - next % 3) % 3, omega arith, omega arith)

-- The writer finds no slot only if every slot is being written, or read by a live process.
pub claim_from-none :
    (next : ℕ) (alive : ℕ → Bool) (r : Region)
    → (claim_from slot_count 0 next alive r).1 ≡ none
    → (j : ℕ) → j < slot_count
    → is_claimable alive (state_at r j) ≡ false
claim_from-none next alive r n j h =
    let (k, b, e) = round_of next j h in
    subst (λ (m : ℕ). is_claimable alive (state_at r m) ≡ false) e
      (claim_from_busy slot_count 0 next alive r n k b)
