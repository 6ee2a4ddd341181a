-- ===== src/Rtcp/TakeIn.antt =====
-- src/control.cpp: `takeInControlPacket`, the walk over a compound packet, in a session without
-- crypto contexts, and the loop of `getBYE`.
pub mod Ends
pub mod Goodbye
use ccrtp.Prelude.{
  List, ℕ, zero, suc, ◌+◌, ◌-◌, ◌*◌, ◌%◌, ◌^◌, Bool, true, false, ◌||◌, Option, none, some, ltb,
  ◌==◌, if◌then◌else◌, ◌>>=◌,
}
use ccrtp.Packet.{Buffer, read}
use ccrtp.Members.{Unset, Members, get_source_by_ssrc, bye_source}
use ccrtp.Control.{Reconsider, reverse_reconsideration}
use ccrtp.Rtcp.{block_count_of, packet_length, packet_ssrc, check_compound_rtcp_header}
use ccrtp.Rtcp.Bye.{reason_from}

-- What the walk calls, on the state `S` of the session, which may be one that has faulted; a pointer
-- names a packet. `arrival` obtains the source of the first packet and records its address and time,
-- `check_first` is checkSSRCInRTCPPkt of that source, whose result is not used, `accept` is
-- getSourceBySSRC with checkSSRCInRTCPPkt, which may reject the source, and `goodbye` one round of the
-- loop in getBYE: look-up, onGotGoodbye with the reason, BYESource, setState and
-- reverseReconsideration. The rest are virtual functions.
pub record Handlers (S : Type 0) : Type 0 where
  pub arrival : S → ℕ → S
  pub check_first : S → ℕ → S
  pub accept : S → ℕ → Bool × S
  pub got_sr : S → ℕ → S
  pub got_rr : S → ℕ → S
  pub got_sdes : S → ℕ → S
  pub got_app : S → ℕ → S
  pub goodbye : S → ℕ → List ℕ → S
  pub extension : S → ℕ → S
  pub update_avg_size : S → ℕ → S

module _ {S : Type 0} (h : Handlers S) (block : Buffer) (len : ℕ) where
  -- The loop over the packets of some types, on fuel: an accepted packet is handled, and any is
  -- passed by.
  unfoldable pub each_packet : (ℕ → Bool) → (S → ℕ → ℕ → S) → ℕ → S → ℕ → Option (S × ℕ)
  each_packet wanted act zero s pointer = none
  each_packet wanted act (suc fuel) s pointer =
      let rest = λ (t : S) (p : ℕ). each_packet wanted act fuel t p in
      if ltb pointer len
      then read block (pointer + 1) >>= (λ type.
        if wanted type
        then packet_ssrc block pointer >>= (λ ssrc. packet_length block pointer >>= (λ size.
          (let r = h.accept s ssrc in
            rest (if r.0 then act r.1 type pointer else r.1) (pointer + size))))
        else some (s, pointer))
      else some (s, pointer)

  -- The loop of getBYE, with the first SSRC of the packet in each round.
  unfoldable pub goodbye_rounds : (count : ℕ) → S → (ssrc : ℕ) → List ℕ → S
  goodbye_rounds zero s ssrc reason = s
  goodbye_rounds (suc count) s ssrc reason =
      goodbye_rounds count (h.goodbye s ssrc reason) ssrc reason

  -- getBYE of the packet at `pkt`: the pointer moves on only if the packet names a source.
  unfoldable pub get_bye : S → (pkt pointer : ℕ) → Option (S × ℕ)
  get_bye s pkt pointer = read block pkt >>= (λ b.
      if block_count_of b == 0
      then some (s, pointer)
      else reason_from block pkt pointer >>= (λ reason. packet_ssrc block pkt >>= (λ ssrc.
        packet_length block pkt
        >>= (λ size. some (goodbye_rounds (block_count_of b) s ssrc reason, pointer + size)))))

  -- The loop over the BYE packets, on fuel. The pointer moves on, the packet that is read stays
  -- the first one.
  unfoldable pub each_bye : ℕ → S → (pkt pointer : ℕ) → Option (S × ℕ)
  each_bye zero s pkt pointer = none
  each_bye (suc fuel) s pkt pointer =
      let rest = λ (r : S × ℕ). each_bye fuel r.0 pkt r.1 in
      if ltb pointer len
      then read block (pkt + 1) >>= (λ type.
        if type == 203
        then packet_ssrc block pkt >>= (λ ssrc.
          (let r = h.accept s ssrc in
            (if r.0 then get_bye r.1 pkt pointer else some (r.1, pointer)) >>= rest))
        else some (s, pointer))
      else some (s, pointer)

  abbrev pub is_rr : ℕ → Bool
  is_rr type = type == 201

  abbrev pub is_sdes_or_app : ℕ → Bool
  is_sdes_or_app type = type == 202 || type == 204

  abbrev pub act_rr : S → ℕ → ℕ → S
  act_rr s type pointer = h.got_rr s pointer

  abbrev pub act_sdes_or_app : S → ℕ → ℕ → S
  act_sdes_or_app s type pointer = if type == 202 then h.got_sdes s pointer else h.got_app s pointer

  -- The first packet: an SR is handled whatever the check of its source says, and passed by.
  unfoldable pub first_packet : S → Option (S × ℕ)
  first_packet s = do
    type ← read block 1
    ssrc ← packet_ssrc block 0
    let arrived = h.arrival s ssrc
    if type == 200
        then packet_length block 0
          >>= (λ size. some (h.got_sr (h.check_first arrived ssrc) 0, size))
        else some (arrived, 0)

  unfoldable pub take_in_packets : S → Option S
  take_in_packets s = do
    a ← first_packet s
    b ← each_packet is_rr act_rr (suc len) a.0 a.1
    c ← each_packet is_sdes_or_app act_sdes_or_app (suc len) b.0 b.1
    d ← each_bye (suc len) c.0 c.1 c.1
    let last = if d.1 == len then d.0 else h.extension d.0 d.1
    some (h.update_avg_size last len)

  unfoldable pub take_in_control_packet : S → Option S
  take_in_control_packet s =
      check_compound_rtcp_header block len >>= (λ ok. if ok then take_in_packets s else some s)

-- The loop of getBYE over the sources of a packet: each round looks the packet's first SSRC up
-- again.
unfoldable pub bye_sources : Unset → ℕ → ℕ → Members → Reconsider → Option (Members × Reconsider)
bye_sources u zero ssrc m r = some (m, r)
bye_sources u (suc count) ssrc m r = do
  found ← get_source_by_ssrc u m ssrc
  left ← bye_source found.1 ssrc
  bye_sources u count ssrc left.1 (reverse_reconsideration left.1.members r)
