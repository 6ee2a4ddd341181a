-- ===== src/Outgoing.antt =====
-- src/outqueue.cpp and src/ccrtp/oqueue.h: the list of destinations and the queue of outgoing
-- data packets, in a session without crypto contexts.
pub mod Destinations
pub mod Stream
pub mod Segments
pub mod Dispatch
pub mod Immediate
pub mod Partial
pub mod Schedule
mod Tests
use ccrtp.Prelude.{
  ℕ, zero, suc, ◌+◌, ◌-◌, ◌*◌, ◌%◌, ◌^◌, List, [], ◌∷◌, ◌++◌, Bool, true, false, ◌&&◌, Option, none,
  some, length, take, drop, ltb, ◌==◌, if◌then◌else◌, ◌>>=◌,
}
use ccrtp.Packet.{RtpPacket, set_bytes, setbuffer, outgoing_plain, outgoing_sources}
use ccrtp.Packet.Fields.{Fields, set_fields}

-- TransportAddress, the network address as a number.
pub record Destination : Type 0 where
  pub network_address : ℕ
  pub data_port : ℕ
  pub control_port : ℕ

-- A link of the queue: the packet and its cachedTimestamp.
pub record OutgoingPacket : Type 0 where
  pub packet : RtpPacket
  pub timestamp : ℕ

-- OutgoingDataQueue. `queue` is the list from sendFirst to sendLast, `locked` whether sendLock is
-- held, and `wire` the calls of sendData so far with the address and port set by setDataPeer.
pub record SendQueue : Type 0 where
  pub queue : List OutgoingPacket
  pub locked : Bool
  pub destinations : List Destination
  pub wire : List (ℕ × ℕ × RtpPacket)
  pub packet_count : ℕ
  pub octet_count : ℕ
  pub send_seq : ℕ
  pub send_sources : List ℕ
  pub send_cc : ℕ
  pub paddinglen : ℕ
  pub marked : Bool
  pub initial_timestamp : ℕ
  pub local_ssrc : ℕ
  pub payload_type : ℕ
  pub max_send_segment_size : ℕ

-- Destinations.
unfoldable pub add_destination_to_list : SendQueue → Destination → SendQueue
add_destination_to_list q d = record q { destinations = q.destinations ++ (d ∷ []) }

unfoldable pub same_destination : Destination → Destination → Bool
same_destination d e =
    d.network_address == e.network_address
    && (d.data_port == e.data_port && d.control_port == e.control_port)

unfoldable pub remove_first : List Destination → Destination → Bool × List Destination
remove_first [] d = (false, [])
remove_first (e ∷ es) d =
    let rest = remove_first es d in
    if same_destination d e then (true, es) else (rest.0, e ∷ rest.1)

unfoldable pub remove_destination_from_list : SendQueue → Destination → Bool × SendQueue
remove_destination_from_list q d =
    let removed = remove_first q.destinations d in
    (removed.0, record q { destinations = removed.1 })

-- A control port of 0 stands for the one behind the data port; ports are uint16.
abbrev pub with_control_port : Destination → Destination
with_control_port d =
    if d.control_port == 0 then record d { control_port = (d.data_port + 1) % 2 ^ 16 } else d

unfoldable pub add_destination : SendQueue → Destination → SendQueue
add_destination q d = add_destination_to_list q (with_control_port d)

unfoldable pub forget_destination : SendQueue → Destination → Bool × SendQueue
forget_destination q d = remove_destination_from_list q (with_control_port d)

-- sendLock.writeLock(): it waits for a lock that is held and not released, `none`.
abbrev pub write_lock : SendQueue → Option SendQueue
write_lock q = if q.locked then none else some (record q { locked = true })

abbrev pub unlock : SendQueue → SendQueue
unlock q = record q { locked = false }

unfoldable pub purge_outgoing_queue : SendQueue → Option SendQueue
purge_outgoing_queue q = do held ← write_lock q; some (unlock (record held { queue = [] }))

abbrev pub is_sending : SendQueue → Bool
is_sending q = elim q.queue [ [] ↦ false | p ∷ ps ↦ true ]

-- The packet of one segment, its fields set; `mem` is what its memory holds before.
unfoldable pub segment_fields : SendQueue → ℕ → ℕ → Fields
segment_fields q stamp offset = record {
  payload_type = q.payload_type;
  seq_num = q.send_seq;
  timestamp = (stamp + q.initial_timestamp) % 2 ^ 32;
  ssrc = q.local_ssrc;
  marker = offset == 0 && q.marked;
}

unfoldable pub segment_packet : (ℕ → ℕ) → SendQueue → ℕ → ℕ → List ℕ → OutgoingPacket
segment_packet mem q stamp offset segment =
    let packet =
      if q.send_cc == 0
      then outgoing_plain mem segment q.paddinglen none
      else outgoing_sources mem (take 15 q.send_sources) segment q.paddinglen none in
    record {
      packet = set_fields packet (segment_fields q stamp offset);
      timestamp = (stamp + q.initial_timestamp) % 2 ^ 32;
    }

-- sendSeq and the mark after that packet.
unfoldable pub after_segment : SendQueue → ℕ → SendQueue
after_segment q offset = record q {
  send_seq = (q.send_seq + 1) % 2 ^ 16;
  marked = if offset == 0 then false else q.marked;
}

-- How many bytes the segment at `offset` takes.
unfoldable pub segment_step : SendQueue → List ℕ → ℕ → ℕ
segment_step q content offset =
    let remainder = length content - offset in
    if ltb q.max_send_segment_size remainder then q.max_send_segment_size else remainder

-- The insertion at the tail, under the lock.
unfoldable pub enqueue : SendQueue → OutgoingPacket → Option SendQueue
enqueue q p = do held ← write_lock q; some (unlock (record held { queue = held.queue ++ (p ∷ []) }))

-- The loops of `putData` and `sendImmediate` on fuel, which stop at `none` without it.
unfoldable pub put_from : (ℕ → ℕ → ℕ) → ℕ → List ℕ → ℕ → ℕ → SendQueue → Option SendQueue
put_from mem stamp content zero offset q = if ltb offset (length content) then none else some q
put_from mem stamp content (suc fuel) offset q =
    let step = segment_step q content offset in
    let packet = segment_packet (mem offset) q stamp offset (take step (drop offset content)) in
    let rest =
      enqueue (after_segment q offset) packet >>= put_from mem stamp content fuel (offset + step) in
    if ltb offset (length content) then rest else some q

unfoldable pub put_data : (ℕ → ℕ → ℕ) → SendQueue → ℕ → List ℕ → Option SendQueue
put_data mem q stamp content = put_from mem stamp content (length content) 0 q

-- One call of sendData for each destination.
unfoldable pub send_to : List Destination → RtpPacket → List (ℕ × ℕ × RtpPacket)
send_to [] p = []
send_to (d ∷ ds) p = (d.network_address, d.data_port, p) ∷ send_to ds p

unfoldable pub dispatch_immediate : SendQueue → RtpPacket → SendQueue
dispatch_immediate q p =
    if length q.destinations == 1
    then elim q.destinations [
      | [] ↦ q
      | d ∷ ds ↦ record q { wire = q.wire ++ ((d.network_address, d.data_port, p) ∷ []) }
    ]
    else record q { wire = q.wire ++ send_to q.destinations p }

unfoldable pub immediate_from : (ℕ → ℕ → ℕ) → ℕ → List ℕ → ℕ → ℕ → SendQueue → Option SendQueue
immediate_from mem stamp content zero offset q =
    if ltb offset (length content) then none else some q
immediate_from mem stamp content (suc fuel) offset q =
    let step = segment_step q content offset in
    let packet = segment_packet (mem offset) q stamp offset (take step (drop offset content)) in
    let rest =
      immediate_from mem stamp content fuel (offset + step)
        (dispatch_immediate (after_segment q offset) packet.packet) in
    if ltb offset (length content) then rest else some q

unfoldable pub send_immediate : (ℕ → ℕ → ℕ) → SendQueue → ℕ → List ℕ → Option SendQueue
send_immediate mem q stamp content = immediate_from mem stamp content (length content) 0 q

-- dispatchDataPacket: the payload size of the packet that was sent, 0 where there is none.
unfoldable pub dispatch_data_packet : SendQueue → Option (ℕ × SendQueue)
dispatch_data_packet q = do
  held ← write_lock q
  elim held.queue [
    | [] ↦ some (0, unlock held)
    | p ∷ ps ↦
        (let sent = dispatch_immediate held p.packet in
          some (
            p.packet.payload_size,
            unlock (record sent {
              queue = ps;
              packet_count = (sent.packet_count + 1) % 2 ^ 32;
              octet_count = (sent.octet_count + p.packet.payload_size) % 2 ^ 32;
            }),
          ))
  ]

-- Of setPartial: the packets up to the one that is written, it, and the packets behind it.
pub record Selected : Type 0 where
  pub before : List OutgoingPacket
  pub chosen : OutgoingPacket
  pub behind : List OutgoingPacket

unfoldable pub select : List OutgoingPacket → ℕ → Option Selected
select [] stamp = none
select (p ∷ ps) stamp =
    let later = select ps stamp in
    if ltb stamp p.timestamp
    then none
    else (if p.timestamp == stamp
        then some (record { before = []; chosen = p; behind = ps })
        else later >>= (λ s. some (record s { before = p ∷ s.before })))

abbrev pub write_partial : OutgoingPacket → List ℕ → ℕ → OutgoingPacket
write_partial p bytes offset = record p {
  packet = set_bytes p.packet (setbuffer p.packet.buffer.bytes bytes (p.packet.hdr_size + offset));
}

-- setPartial under the lock. `content` holds the bytes at the pointer, at least `max` of them.
-- Where `offset` is not inside the payload the source returns without `unlock`.
unfoldable pub copy_partial : SendQueue → Option Selected → List ℕ → ℕ → ℕ → ℕ × SendQueue
copy_partial q none content offset max = (0, unlock q)
copy_partial q (some s) content offset max =
    let size = s.chosen.packet.payload_size in
    let count = if ltb (size - offset) max then size - offset else max in
    let written = write_partial s.chosen (take count content) offset in
    if ltb offset size
    then (count, unlock (record q { queue = s.before ++ (written ∷ s.behind) }))
    else (0, q)

unfoldable pub set_partial : SendQueue → ℕ → List ℕ → ℕ → ℕ → Option (ℕ × SendQueue)
set_partial q stamp content offset max = do
  held ← write_lock q
  some (copy_partial held (select held.queue stamp) content offset max)
