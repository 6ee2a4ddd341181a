-- ===== src/Rtcp/TakeIn/Ends.antt =====
-- src/control.cpp: the walk of `takeInControlPacket` over a compound that passed the check.
use ccrtp.Prelude.{
  ℕ, zero, suc, ◌+◌, ◌*◌, ◌%◌, ◌^◌, ◌≤◌, ◌<◌, ◌≡◌, ◌≢◌, ◌⊎◌, inl, inr, refl, Bool, true, false,
  Option, none, some, ltb, lt→ltb, ◌==◌, if◌then◌else◌, arith, Bool-cases,
}
use ccrtp.Packet.{Buffer, read}
use ccrtp.Rtcp.{block_count_of, packet_length, packet_ssrc}
use ccrtp.Rtcp.Compound.{
  Received, Packets, size_at, packet_length-at, Inversion, invert,
  check_compound_rtcp_header-decides,
}
use ccrtp.Rtcp.TakeIn.{
  Handlers, each_packet, get_bye, each_bye, first_packet, take_in_packets, is_rr, is_sdes_or_app,
  act_rr, act_sdes_or_app, take_in_control_packet,
}

-- At a packet, or behind the last one.
At : Buffer → ℕ → ℕ → Type 0
At block len pointer = Packets block len pointer ⊎ (pointer ≡ len)

-- A datagram in a buffer that has room for one more word.
pub record Roomy (block : Buffer) (len : ℕ) : Type 0 where
  pub received : Received block len
  pub room : len + 4 ≤ block.size

before_end : (block : Buffer) (len pointer : ℕ) → Packets block len pointer → pointer < len
unfolding Inversion
before_end block len pointer p = elim (invert block len p) [
  | inl e ↦ omega arith
  | inr more ↦ omega (arith, more.1)
]

passed_by :
    (block : Buffer) (len pointer : ℕ)
    → Packets block len pointer
    → At block len (pointer + size_at block pointer)
unfolding Inversion At
passed_by block len pointer p = elim (invert block len p) [ inl e ↦ inr e | inr more ↦ inl more.2 ]

-- The reads of a round.
record Read (block : Buffer) (len pointer : ℕ) : Type 0 where
  byte : read block pointer ≡ some (block.bytes pointer)
  type : read block (pointer + 1) ≡ some (block.bytes (pointer + 1))
  ssrc : ℕ
  named : packet_ssrc block pointer ≡ some ssrc
  size : packet_length block pointer ≡ some (size_at block pointer)

reads :
    (block : Buffer) (len pointer : ℕ)
    → Roomy block len
    → pointer % 4 ≡ 0
    → pointer < len
    → Read block len pointer
reads block len pointer r aligned lt =
    let inside : pointer + 8 ≤ block.size = omega (arith, r.room, r.received.words) in
    record {
      byte = ground (arith, inside);
      type = ground (arith, inside);
      ssrc =
          (block.bytes (pointer + 4) * 256 + block.bytes (pointer + 5)) * 2 ^ 16
          + (block.bytes (pointer + 6) * 256 + block.bytes (pointer + 7));
      named = ground (arith, inside);
      size = packet_length-at block len pointer r.received aligned (omega (arith, inside));
    }

-- Where a loop stops.
record Stops {S : Type 0} (block : Buffer) (len : ℕ) (answer : Option (S × ℕ)) : Type 0 where
  state : S
  pointer : ℕ
  ends : answer ≡ some (state, pointer)
  at : At block len pointer
  aligned : pointer % 4 ≡ 0

module _ {S : Type 0} (h : Handlers S) (block : Buffer) (len : ℕ) (r : Roomy block len) where
  each_packet-Stops :
      (wanted : ℕ → Bool) (act : S → ℕ → ℕ → S) (fuel : ℕ) (s : S) (pointer : ℕ)
      → At block len pointer
      → pointer % 4 ≡ 0
      → 1 ≤ fuel
      → len < pointer + fuel
      → Stops block len (each_packet h block len wanted act fuel s pointer)
  unfolding each_packet At
  each_packet-Stops wanted act zero s pointer at aligned low enough = absurd (omega arith)
  each_packet-Stops wanted act (suc fuel) s pointer at aligned low enough = elim at [
    | inr e ↦
        (let stop : ltb pointer len ≡ false = ground arith in
          record {
            state = s;
            pointer = pointer;
            ends = rw stop refl;
            at = inr e;
            aligned = aligned;
          })
    | inl p ↦
        (let lt = before_end block len pointer p in
          let go : ltb pointer len ≡ true = lt→ltb pointer len lt in
          let d = reads block len pointer r aligned lt in
          elim (Bool-cases (wanted (block.bytes (pointer + 1)))) [
            | inr other ↦ record {
              state = s;
              pointer = pointer;
              ends = rw go (rw d.type (rw other refl));
              at = inl p;
              aligned = aligned;
            }
            | inl taken ↦ rw go (
                rw d.type (
                  rw taken (
                    rw d.named (
                      rw d.size (
                        each_packet-Stops wanted act fuel _ (pointer + size_at block pointer)
                          (passed_by block len pointer p) (omega arith) (omega arith)
                          (omega arith))))))
          ])
  ]

  module _ (no_bye : (p : ℕ) → Packets block len p → block.bytes (p + 1) ≢ 203) where
    bye_loop-ends :
        (s : S) (pointer : ℕ)
        → At block len pointer
        → pointer % 4 ≡ 0
        → (r : S × ℕ) × (each_bye h block len (suc len) s pointer pointer ≡ some r)
    unfolding each_bye At
    bye_loop-ends s pointer at aligned = elim at [
      | inr e ↦ (let stop : ltb pointer len ≡ false = ground arith in ((s, pointer), rw stop refl))
      | inl p ↦
          (let lt = before_end block len pointer p in
            let go : ltb pointer len ≡ true = lt→ltb pointer len lt in
            let d = reads block len pointer r aligned lt in
            let other : (block.bytes (pointer + 1) == 203) ≡ false =
              ground (arith, no_bye pointer p) in
            ((s, pointer), rw go (rw d.type (rw other refl))))
    ]

    first_packet-Stops :
        (s : S) → Packets block len 0 → Stops block len (first_packet h block len s)
    unfolding first_packet At
    first_packet-Stops s p =
        let lt = before_end block len 0 p in
        let d = reads block len 0 r (omega arith) lt in
        let zero_add : 0 + size_at block 0 ≡ size_at block 0 = omega arith in
        let type : read block 1 ≡ some (block.bytes 1) = d.type in
        elim (Bool-cases (block.bytes 1 == 200)) [
          | inl sr ↦ rw type (
              rw d.named (
                rw sr (
                  rw d.size (record {
                    state = h.got_sr (h.check_first (h.arrival s d.ssrc) d.ssrc) 0;
                    pointer = size_at block 0;
                    ends = refl;
                    at = rw zero_add at (passed_by block len 0 p);
                    aligned = omega arith;
                  }))))
          | inr other ↦ rw type (
              rw d.named (
                rw other (record {
                  state = h.arrival s d.ssrc;
                  pointer = 0;
                  ends = refl;
                  at = inl p;
                  aligned = refl;
                })))
        ]

    walk-ends : (s : S) → Packets block len 0 → (s' : S) × (take_in_packets h block len s ≡ some s')
    unfolding take_in_packets
    walk-ends s p =
        let a = first_packet-Stops s p in
        let b =
          each_packet-Stops (is_rr h block len) (act_rr h block len) (suc len) a.state a.pointer
            a.at a.aligned (omega arith) (omega arith) in
        let c =
          each_packet-Stops (is_sdes_or_app h block len) (act_sdes_or_app h block len) (suc len)
            b.state b.pointer b.at b.aligned (omega arith) (omega arith) in
        let d = bye_loop-ends c.state c.pointer c.at c.aligned in
        (
          h.update_avg_size (if d.0.1 == len then d.0.0 else h.extension d.0.0 d.0.1) len,
          rw a.ends (rw b.ends (rw c.ends (rw d.1 refl))),
        )

    -- Whatever the handlers do, sources that they reject included, the processing of a received
    -- datagram ends, if no packet of type BYE stands where packets fill the rest of the datagram, and
    -- the datagram is at most as long as leaves a word of the buffer free.
    pub take_in_control_packet-ends :
        (s : S) → (s' : S) × (take_in_control_packet h block len s ≡ some s')
    unfolding take_in_control_packet
    take_in_control_packet-ends s =
        let answer = check_compound_rtcp_header-decides block len r.received in
        elim (Bool-cases answer.0) [
          | inl e ↦
              (let walked = walk-ends s (answer.2.0 e).1 in (walked.0, rw answer.1 (rw e walked.1)))
          | inr e ↦ (s, rw answer.1 (rw e refl))
        ]

-- When the BYE packet that the loop of `takeInControlPacket` comes to names no source, the loop is
-- stuck there: however often it goes round, it does not end, whatever the handlers answer.
pub each_bye-stuck :
    {S : Type 0} (h : Handlers S) (block : Buffer) (len pkt fuel : ℕ) (s : S)
    → Roomy block len
    → pkt % 4 ≡ 0
    → pkt < len
    → block.bytes (pkt + 1) ≡ 203
    → block_count_of (block.bytes pkt) ≡ 0
    → each_bye h block len fuel s pkt pkt ≡ none
unfolding each_bye get_bye
each_bye-stuck h block len pkt zero s r aligned lt bye empty = refl
each_bye-stuck h block len pkt (suc fuel) s r aligned lt bye empty =
    let d = reads block len pkt r aligned lt in
    let go : ltb pkt len ≡ true = lt→ltb pkt len lt in
    let again = each_bye-stuck h block len pkt fuel (h.accept s d.ssrc).1 r aligned lt bye empty in
    rw go (
      rw d.type (
        rw bye (
          rw d.named (elim (Bool-cases (h.accept s d.ssrc).0) [
            | inl ok ↦ rw ok (rw d.byte (rw empty again))
            | inr ko ↦ rw ko again
          ]))))
