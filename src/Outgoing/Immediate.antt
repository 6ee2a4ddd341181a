-- ===== src/Outgoing/Immediate.antt =====
-- src/outqueue.cpp: `sendImmediate` against `putData` and `dispatchDataPacket`.
use ccrtp.Prelude.{
  ℕ, zero, suc, ◌+◌, ◌%◌, ◌^◌, ◌≤◌, ◌<◌, ◌≡◌, refl, sym, ◌∙◌, ap, inl, inr, List, [], ◌∷◌, ◌++◌,
  Bool, false, Option, some, length, take, drop, append_assoc, append-nil, ltb, ltb→lt, lt→ltb,
  ◌==◌, if◌then◌else◌, ◌>>=◌, arith, Bool-cases,
}
use ccrtp.Packet.{RtpPacket}
use ccrtp.Outgoing.{
  SendQueue, OutgoingPacket, segment_fields, segment_packet, after_segment, segment_step, enqueue,
  put_from, put_data, send_to, immediate_from, send_immediate,
}
use ccrtp.Outgoing.Dispatch.{
  wire_of, octets, drain, drained, drain-fifo, waiting_congr, dispatch_immediate-wire,
}

-- The two loops side by side, on queues that differ in what waits and what has been sent.
record Parallel (put sent_now : Option SendQueue) (q : SendQueue) (u : List OutgoingPacket)
    (w : List (ℕ × ℕ × RtpPacket)) : Type 0 where
  sent : List OutgoingPacket
  seq : ℕ
  mark : Bool
  queued :
      put ≡ some (record q { queue = u ++ sent; locked = false; send_seq = seq; marked = mark })
  wired :
      sent_now
      ≡ some (record q { wire = w ++ wire_of q.destinations sent; send_seq = seq; marked = mark })

module _ (mem : ℕ → ℕ → ℕ) (stamp : ℕ) (content : List ℕ) where
  finished-Parallel :
      (q : SendQueue) (u : List OutgoingPacket) (w : List (ℕ × ℕ × RtpPacket))
      → Parallel
          (some (record q { queue = u; locked = false }))
          (some (record q { wire = w }))
          q
          u
          w
  unfolding wire_of
  finished-Parallel q u w = record {
    sent = [];
    seq = q.send_seq;
    mark = q.marked;
    queued = rw (append-nil u) refl;
    wired = rw (append-nil w) refl;
  }

  made : SendQueue → ℕ → OutgoingPacket
  made q offset =
      segment_packet (mem offset) q stamp offset
        (take (segment_step q content offset) (drop offset content))

  next : SendQueue → ℕ → SendQueue
  next q offset = record q {
    send_seq = (q.send_seq + 1) % 2 ^ 16;
    marked = if offset == 0 then false else q.marked;
  }

  put_from-next :
      (fuel offset : ℕ) (q : SendQueue) (u : List OutgoingPacket)
      → offset < length content
      → put_from mem stamp content (suc fuel) offset (record q { queue = u; locked = false })
        ≡ put_from mem stamp content fuel
            (offset + segment_step q content offset)
            (record (next q offset) { queue = u ++ (made q offset ∷ []); locked = false })
  unfolding put_from enqueue after_segment segment_step segment_packet segment_fields made next
  put_from-next fuel offset q u lt = rw (lt→ltb offset (length content) lt) refl

  immediate_from-next :
      (fuel offset : ℕ) (q : SendQueue) (w : List (ℕ × ℕ × RtpPacket))
      → offset < length content
      → immediate_from mem stamp content (suc fuel) offset (record q { wire = w })
        ≡ immediate_from mem stamp content fuel
            (offset + segment_step q content offset)
            (record (next q offset) { wire = w ++ send_to q.destinations (made q offset).packet })
  unfolding immediate_from after_segment segment_step segment_packet segment_fields made next
  immediate_from-next fuel offset q w lt =
      rw
        (
          lt→ltb offset (length content) lt,
          dispatch_immediate-wire
              (record q {
                wire = w;
                send_seq = (q.send_seq + 1) % 2 ^ 16;
                marked = if offset == 0 then false else q.marked;
              })
              (made q offset).packet,
        )
        refl

  more-Parallel :
      (put sent_now : Option SendQueue) (q : SendQueue) (offset : ℕ) (u : List OutgoingPacket)
      (w : List (ℕ × ℕ × RtpPacket))
      → Parallel put sent_now
          (next q offset)
          (u ++ (made q offset ∷ []))
          (w ++ send_to q.destinations (made q offset).packet)
      → Parallel put sent_now q u w
  unfolding wire_of next
  more-Parallel put sent_now q offset u w p = record {
    sent = made q offset ∷ p.sent;
    seq = p.seq;
    mark = p.mark;
    queued =
        p.queued
        ∙ ap (λ l. some (record q { queue = l; locked = false; send_seq = p.seq; marked = p.mark }))
            (append_assoc u (made q offset ∷ []) p.sent);
    wired =
        p.wired
        ∙ ap (λ l. some (record q { wire = l; send_seq = p.seq; marked = p.mark }))
            (append_assoc w (send_to q.destinations (made q offset).packet)
              (wire_of q.destinations p.sent));
  }

  stopped-Parallel :
      (fuel offset : ℕ) (q : SendQueue) (u : List OutgoingPacket) (w : List (ℕ × ℕ × RtpPacket))
      → ltb offset (length content) ≡ false
      → Parallel
          (put_from mem stamp content fuel offset (record q { queue = u; locked = false }))
          (immediate_from mem stamp content fuel offset (record q { wire = w }))
          q
          u
          w
  unfolding put_from immediate_from
  stopped-Parallel zero offset q u w e = rw e (finished-Parallel q u w)
  stopped-Parallel (suc fuel) offset q u w e = rw e (finished-Parallel q u w)

  segment_step-positive :
      (q : SendQueue) (offset : ℕ)
      → 1 ≤ q.max_send_segment_size
      → offset < length content
      → 1 ≤ segment_step q content offset
  unfolding segment_step
  segment_step-positive q offset low lt = ground arith

  loops-Parallel :
      (fuel offset : ℕ) (q : SendQueue) (u : List OutgoingPacket) (w : List (ℕ × ℕ × RtpPacket))
      → 1 ≤ q.max_send_segment_size
      → length content ≤ offset + fuel
      → Parallel
          (put_from mem stamp content fuel offset (record q { queue = u; locked = false }))
          (immediate_from mem stamp content fuel offset (record q { wire = w }))
          q
          u
          w
  unfolding next
  loops-Parallel zero offset q u w low h = stopped-Parallel zero offset q u w (ground arith)
  loops-Parallel (suc fuel) offset q u w low h = elim (Bool-cases (ltb offset (length content))) [
    | inl e ↦
        (let lt : offset < length content = ltb→lt offset (length content) e in
          let ahead = segment_step-positive q offset low lt in
          rw (put_from-next fuel offset q u lt, immediate_from-next fuel offset q w lt)
            (more-Parallel _ _ q offset u w (
              loops-Parallel fuel (offset + segment_step q content offset) (next q offset)
                (u ++ (made q offset ∷ [])) (w ++ send_to q.destinations (made q offset).packet) low
                (omega arith))))
    | inr e ↦ stopped-Parallel (suc fuel) offset q u w e
  ]

-- On an empty queue that nobody holds the lock of, and with a segment size of at least 1,
-- `sendImmediate` returns and hands the network the same datagrams in the same order, and leaves
-- the same next sequence number and mark, as `putData` followed by the calls of
-- `dispatchDataPacket` that empty the queue. But it does not count them: the packet and octet
-- counts of the sender stay as they were, where the other way adds the packets and their octets.
pub send_immediate-put_data :
    (mem : ℕ → ℕ → ℕ) (stamp : ℕ) (content : List ℕ) (q : SendQueue)
    → q.locked ≡ false
    → q.queue ≡ []
    → 1 ≤ q.max_send_segment_size
    → q.packet_count < 2 ^ 32
    → q.octet_count < 2 ^ 32
    → (sent : List OutgoingPacket) × (one : SendQueue) × (two : SendQueue) × (send_immediate mem q
          stamp content
        ≡ some one)
      × (put_data mem q stamp content >>= drain (length sent) ≡ some two)
      × (two ≡ record one {
        packet_count = (one.packet_count + length sent) % 2 ^ 32;
        octet_count = (one.octet_count + octets sent) % 2 ^ 32;
      })
      × (one.packet_count ≡ q.packet_count)
      × (one.octet_count ≡ q.octet_count)
unfolding send_immediate put_data
send_immediate-put_data mem stamp content q free empty low h k =
    let p = loops-Parallel mem stamp content (length content) 0 q [] q.wire low (omega arith) in
    let same : q ≡ record q { queue = []; locked = false } =
      waiting_congr q q.queue [] q.locked false empty free in
    let filled : SendQueue = record q {
      queue = p.sent;
      locked = false;
      send_seq = p.seq;
      marked = p.mark;
    } in
    let put : put_from mem stamp content (length content) 0 q ≡ some filled =
      ap (put_from mem stamp content (length content) 0) same ∙ p.queued in
    let one : SendQueue = record q {
      wire = q.wire ++ wire_of q.destinations p.sent;
      send_seq = p.seq;
      marked = p.mark;
    } in
    (
      p.sent,
      one,
      drained filled p.sent [],
      p.wired,
      rw put (drain-fifo filled p.sent [] refl (sym (append-nil p.sent)) h k),
      waiting_congr
          (record one {
            packet_count = (one.packet_count + length p.sent) % 2 ^ 32;
            octet_count = (one.octet_count + octets p.sent) % 2 ^ 32;
          })
          [] q.queue false q.locked (sym empty) (sym free),
      refl,
      refl,
    )
