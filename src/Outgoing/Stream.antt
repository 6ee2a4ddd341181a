-- ===== src/Outgoing/Stream.antt =====
-- src/outqueue.cpp: what the packets of one call of `putData` deliver to a receiver.
use ccrtp.Prelude.{
  ℕ, ◌+◌, ◌%◌, ◌^◌, ◌≤◌, ◌<◌, ◌≡◌, inl, inr, List, [], ◌∷◌, ◌++◌, Bool, false, length, take,
  length-take, ◌==◌, if◌then◌else◌, arith, Bool-cases,
}
use ccrtp.Packet.Incoming.{is_rtcp_type}
use ccrtp.Packet.RoundTrip.{Fits, Taken}
use ccrtp.Packet.Delivery.{outgoing_plain-Taken, outgoing_sources-Taken}
use ccrtp.Outgoing.{SendQueue, OutgoingPacket, segment_fields, segment_packet}

-- A session whose settings fit the fields of a packet, without padding.
pub record Ready (q : SendQueue) : Type 0 where
  pub payload_type : q.payload_type < 2 ^ 7
  pub not_rtcp : is_rtcp_type q.payload_type ≡ false
  pub ssrc : q.local_ssrc < 2 ^ 32
  pub seq : q.send_seq < 2 ^ 16
  pub padding : q.paddinglen ≡ 0
  pub some_room : 1 ≤ q.max_send_segment_size
  pub small : q.max_send_segment_size + 328 ≤ 2 ^ 32
  pub free : q.locked ≡ false

-- How many contributing sources a packet lists.
abbrev pub source_count : SendQueue → ℕ
source_count q = if q.send_cc == 0 then 0 else length (take 15 q.send_sources)

segment_fields-Fits :
    (q : SendQueue) (stamp offset : ℕ) → Ready q → Fits (segment_fields q stamp offset)
unfolding segment_fields
segment_fields-Fits q stamp offset r = record {
  payload_type = r.payload_type;
  not_rtcp = r.not_rtcp;
  seq_num = r.seq;
  timestamp = omega arith;
  ssrc = r.ssrc;
}

pub segment_packet-Taken :
    (mem : ℕ → ℕ) (q : SendQueue) (stamp offset : ℕ) (part : List ℕ)
    → Ready q
    → length part ≤ q.max_send_segment_size
    → Taken
        (segment_packet mem q stamp offset part).packet.buffer
        (segment_packet mem q stamp offset part).packet.total
        (segment_fields q stamp offset)
        (source_count q)
        part
unfolding segment_packet segment_fields
segment_packet-Taken mem q stamp offset part r small =
    let fits = segment_fields-Fits q stamp offset r in
    let few : length (take 15 q.send_sources) < 16 = omega (arith, length-take 15 q.send_sources) in
    elim (Bool-cases (q.send_cc == 0)) [
      | inl e ↦
          rw (e, r.padding)
            (outgoing_plain-Taken mem [] part (segment_fields q stamp offset) fits
              (omega (arith, r.small)))
      | inr e ↦
          rw (e, r.padding)
            (outgoing_sources-Taken mem (take 15 q.send_sources) part
              (segment_fields q stamp offset) fits few (omega (arith, r.small)))
    ]

-- What all the packets of a stream have in common.
pub record Stream : Type 0 where
  pub payload_type : ℕ
  pub timestamp : ℕ
  pub ssrc : ℕ
  pub sources : ℕ
  pub limit : ℕ

abbrev pub stream_of : SendQueue → ℕ → Stream
stream_of q stamp = record {
  payload_type = q.payload_type;
  timestamp = (stamp + q.initial_timestamp) % 2 ^ 32;
  ssrc = q.local_ssrc;
  sources = source_count q;
  limit = q.max_send_segment_size;
}

-- A receiver takes the bytes from the packets in order, in parts of 1 to `limit` bytes, with consecutive
-- sequence numbers, and the mark on the first one alone.
unfoldable pub Carries : Stream → ℕ → Bool → List OutgoingPacket → List ℕ → Type 0
Carries s seq mark [] bytes = bytes ≡ []
Carries s seq mark (p ∷ ps) bytes =
    (part : List ℕ) × (rest : List ℕ) × (part ++ rest ≡ bytes)
    × (1 ≤ length part)
    × (length part ≤ s.limit)
    × Taken p.packet.buffer p.packet.total
        (record {
          payload_type = s.payload_type;
          seq_num = seq;
          timestamp = s.timestamp;
          ssrc = s.ssrc;
          marker = mark;
        })
        s.sources part
    × Carries s ((seq + 1) % 2 ^ 16) false ps rest
