-- ===== src/Outgoing/Partial.antt =====
-- src/outqueue.cpp: `setPartial`.
use ccrtp.Prelude.{
  ℕ, ◌+◌, ◌-◌, ◌≤◌, ◌<◌, ◌≡◌, refl, ◌∙◌, ap, inl, inr, List, [], ◌∷◌, ◌++◌, true, false, none, some,
  length, take, length-take, min, ltb, lt→ltb, ◌==◌, if◌then◌else◌, arith, Bool-cases, Option-cases,
}
use mathlib.Core.Option.{some-injective}
use ccrtp.Packet.Memory.{setbuffer_before, setbuffer_after, slice, slice-setbuffer}
use ccrtp.Outgoing.{
  SendQueue, OutgoingPacket, purge_outgoing_queue, enqueue, after_segment, put_from, put_data,
  dispatch_data_packet, Selected, select, write_partial, copy_partial, set_partial,
}

-- Every packet of the list has an earlier timestamp.
unfoldable pub Earlier : List OutgoingPacket → ℕ → Type 0
Earlier [] stamp = Unit
Earlier (p ∷ ps) stamp = (p.timestamp < stamp) × Earlier ps stamp

-- What `select` finds.
pub record Found (ps : List OutgoingPacket) (stamp : ℕ) (s : Selected) : Type 0 where
  pub parts : ps ≡ s.before ++ (s.chosen ∷ s.behind)
  pub stamped : s.chosen.timestamp ≡ stamp
  pub earlier : Earlier s.before stamp

select-Found :
    (ps : List OutgoingPacket) (stamp : ℕ) (s : Selected)
    → select ps stamp ≡ some s
    → Found ps stamp s
unfolding select Earlier
select-Found [] stamp s e = absurd (ground arith)
select-Found (p ∷ ps) stamp s e = elim (Bool-cases (ltb stamp p.timestamp)) [
  | inl l ↦ (let no : none ≡ some s = rw l at e in absurd (ground arith))
  | inr l ↦ elim (Bool-cases (p.timestamp == stamp)) [
    | inl m ↦
        (let it : some (record { before = []; chosen = p; behind = ps }) ≡ some s =
            rw (l, m) at e in
          rw (← some-injective _ s it)
            (record { parts = refl; stamped = ground arith; earlier = tt }))
    | inr m ↦ elim (Option-cases (select ps stamp)) [
      | inl o ↦ (let no : none ≡ some s = rw (l, m, o) at e in absurd (ground arith))
      | inr o ↦
          (let it : some (record (o.0) { before = p ∷ o.0.before }) ≡ some s =
              rw (l, m, o.1) at e in
            let f = select-Found ps stamp o.0 o.1 in
            rw (← some-injective _ s it) (record {
              parts = ap (λ rest. p ∷ rest) f.parts;
              stamped = f.stamped;
              earlier = (ground arith, f.earlier);
            }))
    ]
  ]
]

-- What a call of `setPartial` that copies `n` bytes leaves.
pub record Written (q q' : SendQueue) (stamp : ℕ) (content : List ℕ) (offset n : ℕ) : Type 0 where
  pub selected : Selected
  pub found : Found q.queue stamp selected
  pub written : OutgoingPacket
  pub queue : q' ≡ record q { queue = selected.before ++ (written ∷ selected.behind) }
  pub inside : offset + n ≤ selected.chosen.packet.payload_size
  pub copied :
      slice written.packet.buffer.bytes (selected.chosen.packet.hdr_size + offset) n
      ≡ take n content
  pub low :
      (j : ℕ)
      → j < selected.chosen.packet.hdr_size + offset
      → written.packet.buffer.bytes j ≡ selected.chosen.packet.buffer.bytes j
  pub high :
      (j : ℕ)
      → selected.chosen.packet.hdr_size + offset + n ≤ j
      → written.packet.buffer.bytes j ≡ selected.chosen.packet.buffer.bytes j

module _ (q : SendQueue) (stamp : ℕ) (content : List ℕ) (offset max : ℕ) (s : Selected)
    (free : q.locked ≡ false) (found : select q.queue stamp ≡ some s) where
  count : ℕ
  count = min max (s.chosen.packet.payload_size - offset)

  after : SendQueue
  after = record q {
    queue = s.before ++ (write_partial s.chosen (take count content) offset ∷ s.behind);
    locked = false;
  }

  set_partial-free :
      set_partial q stamp content offset max
      ≡ some (copy_partial (record q { locked = true }) (select q.queue stamp) content offset max)
  unfolding set_partial
  set_partial-free = rw free refl

  set_partial-some :
      offset < s.chosen.packet.payload_size
      → set_partial q stamp content offset max ≡ some (count, after)
  unfolding copy_partial count after
  set_partial-some lt =
      let size = s.chosen.packet.payload_size in
      let same : (if ltb (size - offset) max then size - offset else max)
          ≡ min max (size - offset) =
        ground arith in
      set_partial-free ∙ rw found (rw (lt→ltb offset size lt, same) refl)

  -- `setPartial` copies into the first waiting packet with the given timestamp, if all before it
  -- have earlier ones and `offset` lies inside its payload: as many bytes as were offered and as
  -- fit, at `offset` of its payload. It never writes outside the payload, changes no other
  -- packet, and returns how many bytes it copied. The lock is free before and after.
  pub set_partial-Written :
      offset < s.chosen.packet.payload_size
      → max ≤ length content
      → (n : ℕ) × (q' : SendQueue) × (set_partial q stamp content offset max ≡ some (n, q'))
        × (n ≡ min max (s.chosen.packet.payload_size - offset))
        × Written q q' stamp content offset n
  unfolding count after
  set_partial-Written lt room =
      let size : length (take count content) ≡ count = omega (arith, length-take count content) in
      let bytes = s.chosen.packet.buffer.bytes in
      let at = s.chosen.packet.hdr_size + offset in
      (
        count,
        after,
        set_partial-some lt,
        refl,
        record {
          selected = s;
          found = select-Found q.queue stamp s found;
          written = write_partial s.chosen (take count content) offset;
          queue = rw free refl;
          inside = omega arith;
          copied = rw size at (slice-setbuffer bytes (take count content) at);
          low = λ j h. setbuffer_before bytes (take count content) at j h;
          high = λ j h. setbuffer_after bytes (take count content) at j (omega (arith, size));
        },
      )

  -- Where `offset` lies behind the payload, `setPartial` returns 0 with the lock of the queue
  -- still held: from then on `putData` of any data, `dispatchDataPacket`,
  -- `purgeOutgoingQueue` and `setPartial` itself wait without end.
  pub set_partial-keeps_lock :
      s.chosen.packet.payload_size ≤ offset
      → (mem : ℕ → ℕ → ℕ) → (b : ℕ) → (bytes : List ℕ)
      → (q' : SendQueue) × (set_partial q stamp content offset max ≡ some (0, q'))
        × (put_data mem q' stamp (b ∷ bytes) ≡ none)
        × (dispatch_data_packet q' ≡ none)
        × (purge_outgoing_queue q' ≡ none)
        × (set_partial q' stamp content offset max ≡ none)
  unfolding copy_partial set_partial put_data put_from after_segment enqueue dispatch_data_packet
      purge_outgoing_queue
  set_partial-keeps_lock h mem b bytes =
      let out : ltb offset s.chosen.packet.payload_size ≡ false = ground arith in
      let some_data : ltb 0 (length (b ∷ bytes)) ≡ true = ground arith in
      (
        record q { locked = true },
        set_partial-free ∙ rw found (rw out refl),
        rw some_data refl,
        refl,
        refl,
        refl,
      )
