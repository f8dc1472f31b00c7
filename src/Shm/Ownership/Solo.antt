-- ===== src/Shm/Ownership/Solo.antt =====
-- The undisturbed operations of the slot state machine are runs of the interleaving model.
use camera_man.Base.{ℕ, ◌≡◌, ◌≢◌, ◌⊎◌, ◌↔◌, inl, inr, refl, true, false, Bool, arith, if◌then◌else◌}
use camera_man.Shm.Slot.{
  slot_free, slot_ready, slot_reading, slot_writing, slot_state, slot_owner, try_claim_for_write,
}
use camera_man.Shm.Slot.Words.{is_claimable, try_claim_for_write_lem}
use camera_man.Shm.Ownership.{
  System, Reach, outside, loaded, owning, dead, load, find_orphan, find_claimable, find_busy,
  reclaim, claim, here, next,
}

-- What the writer's claim leaves behind, as a system.
abbrev pub after_claim : System → ℕ × Bool → System
after_claim s (word, won) = record s { word = word; writer = if won then owning else outside }

module _ (s : System) (alive : ℕ → Bool) (at_rest : s.writer ≡ outside)
    (oracle : (p : ℕ) → (alive p ≡ false) ↔ (s.readers p ≡ dead)) where
  first : System
  first = record s { writer = loaded s.word }

  loads : Reach s first
  unfolding first
  loads = next here (load at_rest refl)

  claims :
      (slot_state s.word ≡ slot_free) ⊎ (slot_state s.word ≡ slot_ready)
      → Reach s (after_claim s (slot_writing, true))
  unfolding first
  claims h = next (next loads (find_claimable s.word refl h refl)) (claim s.word refl refl refl)

  reclaims :
      slot_state s.word ≡ slot_reading
      → alive (slot_owner s.word) ≡ false
      → Reach s (after_claim s (slot_writing, true))
  unfolding first
  reclaims h d =
      next
        (next (next loads (find_orphan s.word refl h ((oracle (slot_owner s.word)).0 d) refl))
          (reclaim s.word refl refl refl))
        (claim slot_free refl refl refl)

  refuses :
      slot_state s.word ≢ slot_free
      → slot_state s.word ≢ slot_ready
      → Reach s (after_claim s (s.word, false))
  unfolding first
  refuses f r = next loads (find_busy s.word refl f r refl)

  claimable_cases :
      (((slot_state s.word ≡ slot_free) ⊎ (slot_state s.word ≡ slot_ready))
        × (is_claimable alive s.word ≡ true))
      ⊎ (((slot_state s.word ≡ slot_reading)
            × (alive (slot_owner s.word) ≡ false)
            × (is_claimable alive s.word ≡ true))
          ⊎ ((slot_state s.word ≢ slot_free)
              × (slot_state s.word ≢ slot_ready)
              × (is_claimable alive s.word ≡ false)))
  claimable_cases = grind arith

  -- For a writer at rest that nobody disturbs: if `reader_is_alive` denies exactly the dead
  -- readers, the claim is a run of the interleaving model, to the same word and the same
  -- answer.
  pub try_claim_for_write_runs : Reach s (after_claim s (try_claim_for_write s.word alive))
  try_claim_for_write_runs = elim claimable_cases [
    | inl (h, c) ↦ rw (try_claim_for_write_lem, c) (claims h)
    | inr (inl (h, d, c)) ↦ rw (try_claim_for_write_lem, c) (reclaims h d)
    | inr (inr (f, r, c)) ↦ rw (try_claim_for_write_lem, c) (refuses f r)
  ]
