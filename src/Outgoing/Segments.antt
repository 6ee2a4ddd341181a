-- ===== src/Outgoing/Segments.antt =====
-- src/outqueue.cpp: the packets that `putData` queues.
use ccrtp.Prelude.{
  ℕ, zero, suc, ◌+◌, ◌%◌, ◌^◌, ◌≤◌, ◌<◌, ◌≡◌, refl, sym, ◌∙◌, inl, inr, List, [], ◌∷◌, ◌++◌, Bool,
  false, ◌&&◌, some, length, take, drop, length-take, length-drop, take-append-drop, drop-add,
  append_assoc, append-nil, drop-length, ltb, ltb→lt, lt→ltb, ◌==◌, if◌then◌else◌, arith,
  Bool-cases,
}
use ccrtp.Packet.RoundTrip.{Taken}
use ccrtp.Outgoing.{
  SendQueue, OutgoingPacket, segment_fields, segment_packet, after_segment, segment_step, enqueue,
  put_from, put_data,
}
use ccrtp.Outgoing.Stream.{Ready, source_count, segment_packet-Taken, stream_of, Carries}

abbrev pub mark_after : SendQueue → ℕ → List ℕ → Bool
mark_after q offset bytes =
    if offset == 0 then (if length bytes == 0 then q.marked else false) else q.marked

-- The packets behind those that wait already.
abbrev pub queued : SendQueue → List OutgoingPacket → Bool → SendQueue
queued q sent mark = record q {
  queue = q.queue ++ sent;
  locked = false;
  send_seq = (q.send_seq + length sent) % 2 ^ 16;
  marked = mark;
}

queued_congr :
    (q : SendQueue) (xs ys : List OutgoingPacket) (k l : Bool) (m n : ℕ) (a b : Bool)
    → xs ≡ ys
    → k ≡ l
    → m ≡ n
    → a ≡ b
    → record q { queue = xs; locked = k; send_seq = m; marked = a }
      ≡ record q { queue = ys; locked = l; send_seq = n; marked = b }
queued_congr q xs ys k l m n a b e d f g = rw (e, d, f, g)

-- What `put_from` adds from `offset` on.
pub record Queued (q q' : SendQueue) (stamp offset : ℕ) (content : List ℕ) : Type 0 where
  pub sent : List OutgoingPacket
  pub state : q' ≡ queued q sent (mark_after q offset content)
  pub carries :
      Carries (stream_of q stamp) q.send_seq (offset == 0 && q.marked) sent (drop offset content)

finished-Queued :
    (q : SendQueue) (stamp offset : ℕ) (content : List ℕ)
    → Ready q
    → length content ≤ offset
    → Queued q q stamp offset content
unfolding Carries
finished-Queued q stamp offset content r h =
    let mark : mark_after q offset content ≡ q.marked = ground arith in
    record {
      sent = [];
      state =
          queued_congr q q.queue (q.queue ++ []) q.locked false q.send_seq
            ((q.send_seq + 0) % 2 ^ 16) q.marked (mark_after q offset content)
            (sym (append-nil q.queue)) r.free (omega (arith, r.seq)) (sym mark);
      carries = drop-length offset content h;
    }

enqueue-free :
    (q : SendQueue) (p : OutgoingPacket)
    → q.locked ≡ false
    → enqueue q p ≡ some (record q { queue = q.queue ++ (p ∷ []); locked = false })
unfolding enqueue
enqueue-free q p e = rw e refl

-- The queue after one segment.
abbrev one_more : SendQueue → ℕ → OutgoingPacket → SendQueue
one_more q offset p = record q {
  queue = q.queue ++ (p ∷ []);
  locked = false;
  send_seq = (q.send_seq + 1) % 2 ^ 16;
  marked = if offset == 0 then false else q.marked;
}

one_more-Ready :
    (q : SendQueue) (offset : ℕ) (p : OutgoingPacket) → Ready q → Ready (one_more q offset p)
one_more-Ready q offset p r = record {
  payload_type = r.payload_type;
  not_rtcp = r.not_rtcp;
  ssrc = r.ssrc;
  seq = omega arith;
  padding = r.padding;
  some_room = r.some_room;
  small = r.small;
  free = refl;
}

segment_step-le :
    (q : SendQueue) (content : List ℕ) (offset : ℕ)
    → Ready q
    → offset < length content
    → (1 ≤ segment_step q content offset)
      × (segment_step q content offset ≤ q.max_send_segment_size)
      × (offset + segment_step q content offset ≤ length content)
unfolding segment_step
segment_step-le q content offset r lt = (ground (arith, r.some_room), ground arith, ground arith)

module _ (mem : ℕ → ℕ → ℕ) (stamp : ℕ) (content : List ℕ) (q : SendQueue) (offset : ℕ) (r : Ready q)
    (lt : offset < length content) where
  step : ℕ
  step = segment_step q content offset

  part : List ℕ
  part = take step (drop offset content)

  made : OutgoingPacket
  made = segment_packet (mem offset) q stamp offset part

  step-le : (1 ≤ step) × (step ≤ q.max_send_segment_size) × (offset + step ≤ length content)
  unfolding step
  step-le = segment_step-le q content offset r lt

  length-part : length part ≡ step
  unfolding part step
  length-part =
      omega (arith, length-take step (drop offset content), length-drop offset content, step-le.2)

  made-Taken :
      Taken made.packet.buffer made.packet.total
        (record {
          payload_type = q.payload_type;
          seq_num = q.send_seq;
          timestamp = (stamp + q.initial_timestamp) % 2 ^ 32;
          ssrc = q.local_ssrc;
          marker = offset == 0 && q.marked;
        })
        (source_count q)
        part
  unfolding made segment_fields
  made-Taken =
      segment_packet-Taken (mem offset) q stamp offset part r
        (omega (arith, length-part, step-le.1))

  more-Queued :
      (q' : SendQueue)
      → Queued (one_more q offset made) q' stamp (offset + step) content
      → Queued q q' stamp offset content
  unfolding Carries part
  more-Queued q' later =
      let positive = step-le in
      let mark : mark_after (one_more q offset made) (offset + step) content
          ≡ mark_after q offset content =
        ground (arith, positive.0) in
      let unmarked : (offset + step == 0 && (one_more q offset made).marked) ≡ false =
        ground (arith, positive.0) in
      let here = rw unmarked at later.carries in
      let following : Carries (stream_of q stamp) ((q.send_seq + 1) % 2 ^ 16) false later.sent
          (drop step (drop offset content)) =
        rw (drop-add offset step content) here in
      let delivered = made-Taken in
      record {
        sent = made ∷ later.sent;
        state =
            later.state
            ∙ queued_congr q ((q.queue ++ (made ∷ [])) ++ later.sent)
                (q.queue ++ (made ∷ later.sent)) false false _ _ _ _
                (append_assoc q.queue (made ∷ []) later.sent) refl (omega arith) mark;
        carries = (
          part,
          drop step (drop offset content),
          take-append-drop step (drop offset content),
          omega (arith, length-part, positive.0),
          omega (arith, length-part, positive.1),
          delivered,
          following,
        );
      }

  put_from-more :
      (fuel : ℕ)
      → put_from mem stamp content (suc fuel) offset q
        ≡ put_from mem stamp content fuel (offset + step) (one_more q offset made)
  unfolding put_from after_segment made part step
  put_from-more fuel =
      rw (lt→ltb offset (length content) lt, enqueue-free (after_segment q offset) made r.free) refl

-- Fuel for each byte that is left is enough.
put_from-Queued :
    (mem : ℕ → ℕ → ℕ) (stamp : ℕ) (content : List ℕ) (fuel offset : ℕ) (q : SendQueue)
    → Ready q
    → length content ≤ offset + fuel
    → (q' : SendQueue) × (put_from mem stamp content fuel offset q ≡ some q')
      × Queued q q' stamp offset content
unfolding put_from
put_from-Queued mem stamp content zero offset q r h =
    (q, ground arith, finished-Queued q stamp offset content r (omega arith))
put_from-Queued mem stamp content (suc fuel) offset q r h =
    elim (Bool-cases (ltb offset (length content))) [
      | inl e ↦
          (let lt : offset < length content = ltb→lt offset (length content) e in
            let ahead = step-le mem stamp content q offset r lt in
            let made = made mem stamp content q offset r lt in
            let next = offset + step mem stamp content q offset r lt in
            let later =
              put_from-Queued mem stamp content fuel next (one_more q offset made)
                (one_more-Ready q offset made r) (omega arith) in
            (
              later.0,
              put_from-more mem stamp content q offset r lt fuel ∙ later.1,
              more-Queued mem stamp content q offset r lt later.0 later.2,
            ))
      | inr e ↦ (q, rw e refl, finished-Queued q stamp offset content r (ground (arith, e)))
    ]

-- In a session without padding and crypto contexts whose settings fit the packets, `putData`
-- returns: it queues packets behind those that wait and changes nothing but the next sequence
-- number and the mark. Empty data queues none and leaves the mark. The packets pass the first part
-- of a receiver's takeInDataPacket, up to the call of onRTPPacketRecv, which gets the data from them
-- in order, in parts of 1 to the maximal segment size, with one timestamp, consecutive sequence
-- numbers that wrap at 2^16, and the mark on the first one alone.
pub put_data-Queued :
    (mem : ℕ → ℕ → ℕ) (stamp : ℕ) (content : List ℕ) (q : SendQueue)
    → Ready q
    → (q' : SendQueue) × (sent : List OutgoingPacket) × (put_data mem q stamp content ≡ some q')
      × (q' ≡ queued q sent (if length content == 0 then q.marked else false))
      × Carries (stream_of q stamp) q.send_seq q.marked sent content
unfolding put_data
put_data-Queued mem stamp content q r =
    let all = put_from-Queued mem stamp content (length content) 0 q r (omega arith) in
    (all.0, all.2.sent, all.1, all.2.state, all.2.carries)
