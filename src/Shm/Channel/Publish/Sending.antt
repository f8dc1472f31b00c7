-- ===== src/Shm/Channel/Publish/Sending.antt =====
-- src/shared_memory_transport/writer.rs, `send`: what it delivers, what it spares, and when it succeeds.
use camera_man.Base.{
  ℕ, ◌<◌, ◌≤◌, ◌≡◌, ◌≢◌, inl, inr, refl, sym, ap, ◌∙◌, Bool, true, false, Bool-cases, Option, none,
  some, ok, arith, length, ==_iff, u32_mod, not, ltb, subst, List, ◌⊎◌,
}
use camera_man.Error.{Checked}
use camera_man.Media.Formats.{bgra8, pixel_format_eq}
use camera_man.Media.Contract.{is_canonical_bgra}
use camera_man.Media.Contract.Validity.{is_canonical_bgra_iff}
use camera_man.Frame.Limits.{FrameLimits}
use camera_man.Frame.Buffer.{Frame}
use camera_man.Shm.Slot.Words.{is_claimable}
use camera_man.Shm.Mapping.{slot_count}
use camera_man.Shm.Channel.{Region}
use camera_man.Shm.Channel.Writer.{
  SharedFrameSink, claim_from, publish, send_claimed, send_to, send,
}
use camera_man.Shm.Channel.Reader.{
  SharedFrameReader, TransportFrame, is_last, follow_writer, read_latest,
}
use camera_man.Shm.Channel.Claim.{Claims, busy, won, state_at, claim_from-Claims, claim_from-none}
use camera_man.Shm.Channel.Publish.{IsSendable, one_format}
use camera_man.Shm.Channel.Publish.Delivery.{delivered, read_published}

send_sendable :
    (sink : SharedFrameSink) (r : Region) (f : Frame) (alive : ℕ → Bool) (monotonic wall : ℕ)
    → sink.mapping ≡ some r
    → IsSendable f sink.slot_capacity
    → send sink alive monotonic wall f
      ≡ send_claimed sink (claim_from slot_count 0 sink.next_slot alive r) monotonic wall f
unfolding send send_to
send_sendable sink r f alive monotonic wall m s = rw m (
    ground (
      arith,
      one_format f.pixel_format,
      (is_canonical_bgra_iff f.contract f.width f.height).1 s.canonical,
      s.fits,
    ))

-- A send is refused before it touches the region, or is the rest of the call after the claim.
send_refused_or_claimed :
    (sink : SharedFrameSink) (r : Region) (f : Frame) (alive : ℕ → Bool) (monotonic wall : ℕ)
    → sink.mapping ≡ some r
    → ((send sink alive monotonic wall f).0 ≡ sink)
      ⊎ (send sink alive monotonic wall f
          ≡ send_claimed sink (claim_from slot_count 0 sink.next_slot alive r) monotonic wall f)
unfolding send send_to
send_refused_or_claimed sink r f alive monotonic wall m =
    rw m (elim (Bool-cases (not (pixel_format_eq f.pixel_format bgra8))) [
      | inl p ↦ inl (rw p refl)
      | inr p ↦ elim (Bool-cases (not (is_canonical_bgra f.contract f.width f.height))) [
        | inl c ↦ inl (rw (p, c) refl)
        | inr c ↦ elim (Bool-cases (ltb sink.slot_capacity (length f.bytes))) [
          | inl b ↦ inl (rw (p, c, b) refl)
          | inr b ↦ inr (rw (p, c, b) refl)
        ]
      ]
    ])

publish_spares :
    (r : Region) (i j target_fps monotonic wall : ℕ) (f : Frame)
    → j ≢ i
    → ((publish r i target_fps monotonic wall f).header.slots j ≡ r.header.slots j)
      × ((publish r i target_fps monotonic wall f).slot_bytes j ≡ r.slot_bytes j)
unfolding publish
publish_spares r i j target_fps monotonic wall f n = ground (arith, ==_iff j i)

-- What a call leaves as it was in the slots the writer may not claim.
abbrev pub Spares : (ℕ → Bool) → Region → Option Region → Type 0
Spares alive r after =
    (r' : Region) × (after ≡ some r')
    × ((j : ℕ)
        → is_claimable alive (state_at r j) ≡ false
        → (r'.header.slots j ≡ r.header.slots j) × (r'.slot_bytes j ≡ r.slot_bytes j))

apart : (p : ℕ → Bool) (i j : ℕ) → p i ≡ true → p j ≡ false → j ≢ i
apart p i j a b q = cc (sym a ∙ sym (ap p q) ∙ b)

claimed-Spares :
    (sink : SharedFrameSink) (r : Region) (f : Frame) (alive : ℕ → Bool) (monotonic wall : ℕ)
    (out : Region × Option ℕ)
    → Claims alive r out
    → Spares alive r (send_claimed sink out monotonic wall f).0.mapping
unfolding send_claimed
claimed-Spares sink r f alive monotonic wall (r1, o) (busy e b s) =
    rw e (r1, refl, λ j n. (s j, ap (λ (g : ℕ → List ℕ). g j) b))
claimed-Spares sink r f alive monotonic wall (r1, o) (won i e b c w s) = rw e (
  publish r1 i sink.target_fps monotonic wall f,
  refl,
  λ j n.
      let other : j ≢ i = apart (λ (k : ℕ). is_claimable alive (state_at r k)) i j c n in
      let (slots, bytes) = publish_spares r1 i j sink.target_fps monotonic wall f other in
      (slots ∙ s.slots j other, bytes ∙ ap (λ (g : ℕ → List ℕ). g j) s.bytes),
)

-- Whatever a connected sink sends, and whether or not it succeeds, a slot that it may not
-- claim, as one that a live reader has leased, keeps its metadata, its state and its bytes.
pub send-Spares :
    (sink : SharedFrameSink) (r : Region) (f : Frame) (alive : ℕ → Bool) (monotonic wall : ℕ)
    → sink.mapping ≡ some r
    → Spares alive r (send sink alive monotonic wall f).0.mapping
send-Spares sink r f alive monotonic wall m =
    elim (send_refused_or_claimed sink r f alive monotonic wall m) [
      | inl e ↦ (r, ap (λ (k : SharedFrameSink). k.mapping) e ∙ m, λ j n. (refl, refl))
      | inr e ↦
          subst (λ (o : SharedFrameSink × Checked (Unit {0})). Spares alive r o.0.mapping) (sym e)
            (claimed-Spares sink r f alive monotonic wall _
              (claim_from-Claims slot_count 0 sink.next_slot alive r))
    ]

claimed_succeeds :
    (sink : SharedFrameSink) (r : Region) (f : Frame) (alive : ℕ → Bool) (monotonic wall : ℕ)
    (out : Region × Option ℕ)
    → Claims alive r out
    → out.1 ≢ none
    → (send_claimed sink out monotonic wall f).1 ≡ ok tt
unfolding send_claimed
claimed_succeeds sink r f alive monotonic wall (r1, o) (busy e b s) n = absurd (n e)
claimed_succeeds sink r f alive monotonic wall (r1, o) (won i e b c w s) n = rw e refl

-- A connected sink sends a sendable frame if one of the three slots may be claimed.
pub send_succeeds :
    (sink : SharedFrameSink) (r : Region) (f : Frame) (alive : ℕ → Bool) (monotonic wall j : ℕ)
    → sink.mapping ≡ some r
    → IsSendable f sink.slot_capacity
    → j < slot_count
    → is_claimable alive (state_at r j) ≡ true
    → (send sink alive monotonic wall f).1 ≡ ok tt
send_succeeds sink r f alive monotonic wall j m s b c =
    rw (send_sendable sink r f alive monotonic wall m s) (
      claimed_succeeds sink r f alive monotonic wall _
        (claim_from-Claims slot_count 0 sink.next_slot alive r)
        (λ none_left. cc (c, claim_from-none sink.next_slot alive r none_left j b)))

-- What a reader gets from the region after the call: the frame, with its sequence and generation.
abbrev pub Receives :
    FrameLimits
    → SharedFrameReader
    → (pid now : ℕ) → Option Region
    → Frame
    → (sequence generation : ℕ) → Type 0
Receives limits reader pid now after f sequence generation =
    (r' : Region) × (t : TransportFrame) × (after ≡ some r')
    × ((read_latest limits r' reader pid now).2 ≡ ok (some t))
    × (t.frame ≡ f)
    × (t.sequence ≡ sequence)
    × (t.generation ≡ generation)

-- What the two ends agree on for a frame to get from one to the other.
pub record Connected (sink : SharedFrameSink) (r : Region) (reader : SharedFrameReader) (f : Frame)
    (pid : ℕ) : Type 0 where
  pub mapped : sink.mapping ≡ some r
  pub capacity : sink.slot_capacity ≡ reader.slot_capacity
  pub writer : 0 < r.header.writer_generation
  pub rate : 0 < sink.target_fps
  pub process : 0 < pid
  pub narrow : pid < u32_mod
  pub sendable : IsSendable f sink.slot_capacity
  pub fresh :
      is_last (follow_writer reader r.header.writer_generation).last_sequence r.header.next_sequence
      ≡ false

claimed-Receives :
    (limits : FrameLimits) (sink : SharedFrameSink) (r : Region) (reader : SharedFrameReader)
    (f : Frame) (pid now : ℕ) (alive : ℕ → Bool) (monotonic wall : ℕ) (out : Region × Option ℕ)
    → Connected sink r reader f pid
    → length f.bytes ≤ limits.max_frame_bytes
    → Claims alive r out
    → (send_claimed sink out monotonic wall f).1 ≡ ok tt
    → Receives limits reader pid now
        (send_claimed sink out monotonic wall f).0.mapping
        f
        r.header.next_sequence
        r.header.writer_generation
unfolding send_claimed
claimed-Receives limits sink r reader f pid now alive monotonic wall (r1, o) c l (busy e b s) k =
    absurd (cc (rw e at k))
claimed-Receives limits sink r reader f pid now alive monotonic wall (r1, o) c l (won i e b q w s)
      k =
    let p : 0 < r1.header.writer_generation = omega (arith, c.writer, s.generation) in
    let send_able = subst (λ (n : ℕ). IsSendable f n) c.capacity c.sendable in
    rw e (
      publish r1 i sink.target_fps monotonic wall f,
      delivered r1 i sink.target_fps monotonic wall f reader pid now b p c.rate c.process c.narrow
          send_able,
      refl,
      ap (λ (x : Region × SharedFrameReader × Checked (Option TransportFrame)). x.2)
          (read_published r1 i sink.target_fps monotonic wall f reader pid now b p c.rate c.process
            c.narrow send_able limits l (rw s.generation (rw s.sequence c.fresh))),
      refl,
      s.sequence,
      s.generation,
    )

-- A frame whose `send` succeeds and whose bytes are within the memory limit is what a connected
-- reader, which has not seen its sequence yet, gets from its next `read_latest`: the same
-- frame, with the sequence and the generation the writer had.
pub send_delivers :
    (limits : FrameLimits) (sink : SharedFrameSink) (r : Region) (reader : SharedFrameReader)
    (f : Frame) (pid now : ℕ) (alive : ℕ → Bool) (monotonic wall : ℕ)
    → Connected sink r reader f pid
    → length f.bytes ≤ limits.max_frame_bytes
    → (send sink alive monotonic wall f).1 ≡ ok tt
    → Receives limits reader pid now
        (send sink alive monotonic wall f).0.mapping
        f
        r.header.next_sequence
        r.header.writer_generation
send_delivers limits sink r reader f pid now alive monotonic wall c l k =
    let e = send_sendable sink r f alive monotonic wall c.mapped c.sendable in
    rw e (
      claimed-Receives limits sink r reader f pid now alive monotonic wall _ c l
        (claim_from-Claims slot_count 0 sink.next_slot alive r) (rw e at k))
