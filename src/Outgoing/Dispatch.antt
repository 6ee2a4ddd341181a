-- ===== src/Outgoing/Dispatch.antt =====
-- src/outqueue.cpp: what `dispatchDataPacket` and `sendImmediate` hand to the network.
use ccrtp.Prelude.{
  ℕ, zero, suc, ◌+◌, ◌%◌, ◌^◌, ◌<◌, ◌≡◌, refl, sym, ◌∙◌, ap, List, [], ◌∷◌, ◌++◌, Bool, true, false,
  Option, some, length, append_assoc, append-nil, ◌==◌, ◌>>=◌, arith,
}
use ccrtp.Packet.{RtpPacket}
use ccrtp.Outgoing.{
  SendQueue, Destination, OutgoingPacket, send_to, dispatch_immediate, dispatch_data_packet,
}

-- The datagrams of a list of packets: each packet to each destination.
unfoldable pub wire_of : List Destination → List OutgoingPacket → List (ℕ × ℕ × RtpPacket)
wire_of ds [] = []
wire_of ds (p ∷ ps) = send_to ds p.packet ++ wire_of ds ps

unfoldable pub octets : List OutgoingPacket → ℕ
octets [] = 0
octets (p ∷ ps) = p.packet.payload_size + octets ps

-- The two branches, for one destination and for any other number, agree.
dispatch_immediate-by :
    (ds : List Destination) (q : SendQueue) (p : RtpPacket)
    → dispatch_immediate (record q { destinations = ds }) p
      ≡ record q { destinations = ds; wire = q.wire ++ send_to ds p }
unfolding dispatch_immediate send_to
dispatch_immediate-by [] q p = refl
dispatch_immediate-by (d ∷ []) q p = refl
dispatch_immediate-by (d ∷ c ∷ ds) q p =
    let many : (suc (suc (length ds)) == 1) ≡ false = ground arith in rw many refl

pub dispatch_immediate-wire :
    (q : SendQueue) (p : RtpPacket)
    → dispatch_immediate q p ≡ record q { wire = q.wire ++ send_to q.destinations p }
dispatch_immediate-wire q p = dispatch_immediate-by q.destinations q p

-- `n` calls of `dispatchDataPacket`.
unfoldable pub drain : ℕ → SendQueue → Option SendQueue
drain zero q = some q
drain (suc n) q = dispatch_data_packet q >>= (λ r. drain n r.1)

-- The queue `q` when it has sent `ps` and still holds `rest`.
abbrev pub drained : SendQueue → List OutgoingPacket → List OutgoingPacket → SendQueue
drained q ps rest = record q {
  queue = rest;
  locked = false;
  wire = q.wire ++ wire_of q.destinations ps;
  packet_count = (q.packet_count + length ps) % 2 ^ 32;
  octet_count = (q.octet_count + octets ps) % 2 ^ 32;
}

drained_congr :
    (q : SendQueue) (rest : List OutgoingPacket) (v w : List (ℕ × ℕ × RtpPacket)) (a b c d : ℕ)
    → v ≡ w
    → a ≡ b
    → c ≡ d
    → record q { queue = rest; locked = false; wire = v; packet_count = a; octet_count = c }
      ≡ record q { queue = rest; locked = false; wire = w; packet_count = b; octet_count = d }
drained_congr q rest v w a b c d e f g = rw (e, f, g)

dispatch_data_packet-first :
    (q : SendQueue) (p : OutgoingPacket) (ps : List OutgoingPacket)
    → dispatch_data_packet (record q { queue = p ∷ ps; locked = false })
      ≡ some (
        p.packet.payload_size,
        record q {
          queue = ps;
          locked = false;
          wire = q.wire ++ send_to q.destinations p.packet;
          packet_count = (q.packet_count + 1) % 2 ^ 32;
          octet_count = (q.octet_count + p.packet.payload_size) % 2 ^ 32;
        },
      )
unfolding dispatch_data_packet
dispatch_data_packet-first q p ps =
    rw (dispatch_immediate-wire (record q { queue = p ∷ ps; locked = true }) p.packet) refl

drain-sent :
    (q : SendQueue) (ps rest : List OutgoingPacket)
    → q.packet_count < 2 ^ 32
    → q.octet_count < 2 ^ 32
    → drain (length ps) (record q { queue = ps ++ rest; locked = false }) ≡ some (drained q ps rest)
unfolding drain wire_of octets
drain-sent q [] rest h k = ap some (
    drained_congr q rest q.wire (q.wire ++ []) q.packet_count _ q.octet_count _
      (sym (append-nil q.wire)) (omega arith) (omega arith))
drain-sent q (p ∷ ps) rest h k = rw (dispatch_data_packet-first q p (ps ++ rest)) (
    drain-sent
      (record q {
        wire = q.wire ++ send_to q.destinations p.packet;
        packet_count = (q.packet_count + 1) % 2 ^ 32;
        octet_count = (q.octet_count + p.packet.payload_size) % 2 ^ 32;
      })
      ps rest (omega arith) (omega arith)
    ∙ ap some (
        drained_congr q rest _ _ _ _ _ _
          (append_assoc q.wire (send_to q.destinations p.packet) (wire_of q.destinations ps))
          (omega arith) (omega arith)))

pub waiting_congr :
    (q : SendQueue) (xs ys : List OutgoingPacket) (k l : Bool)
    → xs ≡ ys
    → k ≡ l
    → record q { queue = xs; locked = k } ≡ record q { queue = ys; locked = l }
waiting_congr q xs ys k l e f = rw (e, f)

-- The service thread's calls of `dispatchDataPacket` send the queued packets in the order in
-- which they were queued, each to every destination, and add their number and the octets of
-- their payload to the counters of the sender, modulo 2^32. This holds for any front part of a
-- queue that nobody holds the lock of.
pub drain-fifo :
    (q : SendQueue) (ps rest : List OutgoingPacket)
    → q.locked ≡ false
    → q.queue ≡ ps ++ rest
    → q.packet_count < 2 ^ 32
    → q.octet_count < 2 ^ 32
    → drain (length ps) q ≡ some (drained q ps rest)
drain-fifo q ps rest free e h k =
    let same : q ≡ record q { queue = ps ++ rest; locked = false } =
      waiting_congr q q.queue (ps ++ rest) q.locked false e free in
    ap (drain (length ps)) same ∙ drain-sent q ps rest h k
