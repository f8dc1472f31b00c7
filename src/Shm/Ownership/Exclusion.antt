-- ===== src/Shm/Ownership/Exclusion.antt =====
-- Mutual exclusion of the writer and the readers of a slot, over every interleaving.
use camera_man.Base.{
  ℕ, ◌<◌, ◌≡◌, ◌≢◌, ◌⊎◌, inl, inr, refl, sym, ap, ◌∙◌, arith, u32_mod, Bool-cases, ==_iff, ◌==◌,
}
use camera_man.Shm.Slot.{
  slot_free, slot_ready, slot_reading, slot_writing, slot_state, slot_owner, reading_slot_state,
}
use camera_man.Shm.Slot.Words.{reading_slot_state_parts}
use camera_man.Shm.Ownership.{
  WriterPc, System, Step, Reach, leasing, dead, reclaiming, claiming, owning, fresh, load,
  find_orphan, find_claimable, find_busy, reclaim, reclaim_lost, claim, claim_lost, store, publish,
  lease, lease_lost, release, die, here, next,
}

-- The state word tells who owns the slot, and a slot about to be reclaimed belonged to a dead reader.
pub record Inv (s : System) : Type 0 where
  pub owner_word : s.writer ≡ owning → s.word ≡ slot_writing
  pub lease_word : (p : ℕ) → s.readers p ≡ leasing → (p < u32_mod) × (s.word ≡ reading_slot_state p)
  pub orphan :
      (w : ℕ)
      → s.writer ≡ reclaiming w
      → (slot_state w ≡ slot_reading) × (s.readers (slot_owner w) ≡ dead)
  pub claimable :
      (w : ℕ) → s.writer ≡ claiming w → (slot_state w ≡ slot_free) ⊎ (slot_state w ≡ slot_ready)

-- The words of readers are none of the others.
reading_word : (p : ℕ) → (slot_state (reading_slot_state p) ≡ slot_reading)
unfolding slot_state reading_slot_state
reading_word p = omega arith

-- While a lease runs, the word is in the reading state and names the reader.
lease_state :
    (s : System) (p : ℕ) → Inv s → s.readers p ≡ leasing → slot_state s.word ≡ slot_reading
lease_state s p v l = ap slot_state (v.lease_word p l).1 ∙ reading_word p

lease_owner : (s : System) (p : ℕ) → Inv s → s.readers p ≡ leasing → slot_owner s.word ≡ p
lease_owner s p v l =
    ap slot_owner (v.lease_word p l).1 ∙ (reading_slot_state_parts p (v.lease_word p l).0).1

free_state : slot_state slot_free ≡ slot_free
unfolding slot_state
free_state = refl

ready_state : slot_state slot_ready ≡ slot_ready
unfolding slot_state
ready_state = refl

writing_state : slot_state slot_writing ≡ slot_writing
unfolding slot_state
writing_state = refl

-- A move of the writer that changes neither the word nor the readers.
moved :
    (s : System) (pc : WriterPc)
    → Inv s
    → pc ≢ owning
    → ((w : ℕ)
        → pc ≡ reclaiming w
        → (slot_state w ≡ slot_reading) × (s.readers (slot_owner w) ≡ dead))
    → ((w : ℕ) → pc ≡ claiming w → (slot_state w ≡ slot_free) ⊎ (slot_state w ≡ slot_ready))
    → Inv (record s { writer = pc })
moved s pc v n o c = record {
  owner_word = λ e. absurd (n e);
  lease_word = v.lease_word;
  orphan = o;
  claimable = c;
}

-- Every atomic access keeps the invariant.
pub Step-Inv : (s t : System) → Inv s → Step s t → Inv t
Step-Inv s t v (load o e) = rw e (moved s _ v (λ o'. cc) (λ w c. cc) (λ w c. cc))
Step-Inv s t v (find_orphan w o r d e) =
    rw e (moved s _ v (λ o'. cc) (λ w' c. ground arith) (λ w c. cc))
Step-Inv s t v (find_claimable w o r e) =
    rw e (moved s _ v (λ o'. cc) (λ w c. cc) (λ w' c. ground arith))
Step-Inv s t v (find_busy w o f r e) = rw e (moved s _ v (λ o'. cc) (λ w c. cc) (λ w c. cc))
Step-Inv s t v (reclaim w o c e) = rw e (record {
  owner_word = λ o'. cc;
  lease_word = λ p l. absurd (ground (arith, v.orphan w o, lease_owner s p v l));
  orphan = λ w c. cc;
  claimable = λ w' c'. ground (arith, free_state);
})
Step-Inv s t v (reclaim_lost w o c e) = rw e (moved s _ v (λ o'. cc) (λ w c. cc) (λ w c. cc))
Step-Inv s t v (claim w o c e) = rw e (record {
  owner_word = λ o'. refl;
  lease_word = λ p l. absurd (ground (arith, v.claimable w o, lease_state s p v l));
  orphan = λ w c. cc;
  claimable = λ w c. cc;
})
Step-Inv s t v (claim_lost w o c e) = rw e (moved s _ v (λ o'. cc) (λ w c. cc) (λ w c. cc))
Step-Inv s t v (store p o e) = rw e (record {
  owner_word = v.owner_word;
  lease_word = v.lease_word;
  orphan = v.orphan;
  claimable = v.claimable;
})
Step-Inv s t v (publish o e) = rw e (record {
  owner_word = λ o'. cc;
  lease_word = λ p l. absurd (ground (arith, v.owner_word o, writing_state, lease_state s p v l));
  orphan = λ w c. cc;
  claimable = λ w c. cc;
})
Step-Inv s t v (lease p b r c e) = rw e (record {
  owner_word = λ o. absurd (ground (arith, v.owner_word o));
  lease_word = λ q l. elim (Bool-cases (q == p)) [
    | inl y ↦ ground (arith, (==_iff q p).0 y)
    | inr n ↦ absurd (ground (arith, lease_state s q v, ready_state))
  ];
  orphan = λ w o. ground (arith, v.orphan w o);
  claimable = v.claimable;
})
Step-Inv s t v (lease_lost p r c e) = rw e v
Step-Inv s t v (release p l e) = rw e (record {
  owner_word = λ o. absurd (ground (arith, v.owner_word o, writing_state, lease_state s p v l));
  lease_word = λ q k. elim (Bool-cases (q == p)) [
    | inl y ↦ absurd (ground arith)
    | inr n ↦ absurd (ground (arith, lease_owner s q v, lease_owner s p v l))
  ];
  orphan = λ w o. ground (arith, v.orphan w o);
  claimable = v.claimable;
})
Step-Inv s t v (die p e) = rw e (record {
  owner_word = v.owner_word;
  lease_word = λ q l. elim (Bool-cases (q == p)) [
    | inl y ↦ absurd (ground arith)
    | inr n ↦ ground (arith, v.lease_word q)
  ];
  orphan = λ w o. ground (arith, v.orphan w o);
  claimable = v.claimable;
})

pub Reach-Inv : (s t : System) → Inv s → Reach s t → Inv t
Reach-Inv s t v here = v
Reach-Inv s t v (next {t = u} r st) = Step-Inv u t (Reach-Inv s u v r) st

pub fresh-Inv : (payload : ℕ) → Inv (fresh payload)
fresh-Inv payload = record {
  owner_word = λ o. cc;
  lease_word = λ p l. absurd (cc);
  orphan = λ w c. absurd (cc);
  claimable = λ w c. absurd (cc);
}

-- From a fresh slot, in every interleaving and whichever readers die: while the writer owns the slot
-- no reader has a lease on it, and no two readers have leases at once.
pub mutual_exclusion :
    (payload : ℕ) (t : System)
    → Reach (fresh payload) t
    → ((p : ℕ) → t.writer ≡ owning → t.readers p ≢ leasing)
      × ((p q : ℕ) → t.readers p ≡ leasing → t.readers q ≡ leasing → p ≡ q)
mutual_exclusion payload t r =
    let v = Reach-Inv (fresh payload) t (fresh-Inv payload) r in
    (
      λ p o l. ground (arith, v.owner_word o, writing_state, lease_state t p v l),
      λ p q l k. sym (lease_owner t p v l) ∙ lease_owner t q v k,
    )

payload_kept : (t u : System) → t.writer ≢ owning → Step t u → u.payload ≡ t.payload
payload_kept t u n (load o e) = ap (λ (x : System). x.payload) e
payload_kept t u n (find_orphan w o a d e) = ap (λ (x : System). x.payload) e
payload_kept t u n (find_claimable w o a e) = ap (λ (x : System). x.payload) e
payload_kept t u n (find_busy w o a b e) = ap (λ (x : System). x.payload) e
payload_kept t u n (reclaim w o c e) = ap (λ (x : System). x.payload) e
payload_kept t u n (reclaim_lost w o c e) = ap (λ (x : System). x.payload) e
payload_kept t u n (claim w o c e) = ap (λ (x : System). x.payload) e
payload_kept t u n (claim_lost w o c e) = ap (λ (x : System). x.payload) e
payload_kept t u n (store v o e) = absurd (n o)
payload_kept t u n (publish o e) = ap (λ (x : System). x.payload) e
payload_kept t u n (lease p b r c e) = ap (λ (x : System). x.payload) e
payload_kept t u n (lease_lost p r c e) = ap (λ (x : System). x.payload) e
payload_kept t u n (release p l e) = ap (λ (x : System). x.payload) e
payload_kept t u n (die p e) = ap (λ (x : System). x.payload) e

-- While a reader has a lease, an access by anybody leaves the slot's bytes as they are.
pub lease_stable :
    (payload p : ℕ) (t u : System)
    → Reach (fresh payload) t
    → Step t u
    → t.readers p ≡ leasing
    → u.payload ≡ t.payload
lease_stable payload p t u r st l =
    payload_kept t u (λ o. (mutual_exclusion payload t r).0 p o l) st
