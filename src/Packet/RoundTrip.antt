-- ===== src/Packet/RoundTrip.antt =====
-- src/rtppkt.cpp: what IncomingRTPPkt reads of the bytes that OutgoingRTPPkt wrote.
use ccrtp.Prelude.{
  ℕ, ◌+◌, ◌-◌, ◌*◌, ◌^◌, ◌≤◌, ◌<◌, ◌≡◌, ◌≢◌, ◌⊎◌, ◌==◌, inl, inr, refl, ◌∙◌, ap, List, false, some,
  length, arith,
}
use ccrtp.Packet.{
  RtpPacket, Buffer, set_marker, set_payload, to_nat, marker_of, payload_of, cc_of, padding_of,
  read,
}
use ccrtp.Packet.Fields.{Fields, write_fields}
use ccrtp.Packet.Incoming.{
  header_size, unpadded_size, received_packet, IncomingPacket, Cached, is_rtcp_type, incoming,
  take_in,
}
use ccrtp.Packet.Memory.{slice, slice_congr}
use ccrtp.Packet.Build.{flag, write_fields-facts}

-- Values that fit the header, and a payload type that is not taken for RTCP.
pub record Fits (f : Fields) : Type 0 where
  pub payload_type : f.payload_type < 2 ^ 7
  pub not_rtcp : is_rtcp_type f.payload_type ≡ false
  pub seq_num : f.seq_num < 2 ^ 16
  pub timestamp : f.timestamp < 2 ^ 32
  pub ssrc : f.ssrc < 2 ^ 32

-- What memory `g` holds before the fields are set: `n` contributing sources, the extension flag
-- `e` with `words` words, a header of `hdr` bytes, the payload, and the padding.
pub record Image (g : ℕ → ℕ) (n e words hdr : ℕ) (payload : List ℕ) (padding total : ℕ)
    : Type 0 where
  pub sources : n < 16
  pub extended : e < 2
  pub padded : padding < 256
  pub first : g 0 ≡ 128 + 32 * flag padding + 16 * e + n
  pub second : g 1 ≡ 0
  pub plain_header : e ≡ 0 → hdr ≡ 12 + n * 4
  pub long_header : e ≡ 1 → hdr ≡ 12 + n * 4 + 4 + words * 4
  pub words_high : e ≡ 1 → g (12 + n * 4 + 2) * 256 + g (12 + n * 4 + 3) ≡ words
  pub body : slice g hdr (length payload) ≡ payload
  pub tail : padding ≢ 0 → g (total - 1) ≡ padding
  pub sum : total ≡ hdr + length payload + padding
  pub small : total < 2 ^ 32

module _ (g : ℕ → ℕ) (n e words hdr : ℕ) (payload : List ℕ) (padding total : ℕ)
    (im : Image g n e words hdr payload padding total) (f : Fields) (b : Buffer)
    (written : b.bytes ≡ write_fields g f) (size : total ≤ b.size) where
  flags : (e ≡ 0) ⊎ (e ≡ 1)
  flags = omega arith

  hdr-le : 12 + n * 4 ≤ hdr
  hdr-le = elim flags [
    | inl z ↦ omega (arith, im.plain_header z)
    | inr o ↦ omega (arith, im.long_header o)
  ]

  at_first : b.bytes 0 ≡ 128 + 32 * flag padding + 16 * e + n
  at_first = rw written ((write_fields-facts g f).0 ∙ im.first)

  at_later : (j : ℕ) → 12 ≤ j → b.bytes j ≡ g j
  at_later j h = rw written ((write_fields-facts g f).2 j h)

  header_size-Image : header_size b ≡ some hdr
  unfolding header_size
  header_size-Image = elim flags [
    | inl z ↦ ground (arith, at_first, im.plain_header z, hdr-le)
    | inr o ↦ ground (
      arith,
      at_first,
      im.long_header o,
      im.words_high o,
      hdr-le,
      at_later (12 + n * 4 + 2),
      at_later (12 + n * 4 + 3),
    )
  ]

  unpadded_size-Image : unpadded_size b total ≡ some (total - padding)
  unfolding unpadded_size
  unpadded_size-Image = ground (arith, at_first, hdr-le, at_later (total - 1), im.tail)

  at_second : b.bytes 1 ≡ set_marker (to_nat f.marker) (set_payload f.payload_type 0)
  at_second = rw written (
      (write_fields-facts g f).1
      ∙ ap (λ x. set_marker (to_nat f.marker) (set_payload f.payload_type x)) im.second)

  type-second : Fits f → payload_of (b.bytes 1) ≡ f.payload_type
  type-second ok = omega (arith, at_second, ok.payload_type)

  seq_num-Image : Fits f → b.bytes 2 * 256 + b.bytes 3 ≡ f.seq_num
  unfolding write_fields
  seq_num-Image ok = rw written (omega (arith, ok.seq_num))

  timestamp-Image :
      Fits f → (b.bytes 4 * 256 + b.bytes 5) * 2 ^ 16 + (b.bytes 6 * 256 + b.bytes 7) ≡ f.timestamp
  unfolding write_fields
  timestamp-Image ok = rw written (omega (arith, ok.timestamp))

  ssrc-Image :
      Fits f → (b.bytes 8 * 256 + b.bytes 9) * 2 ^ 16 + (b.bytes 10 * 256 + b.bytes 11) ≡ f.ssrc
  unfolding write_fields
  ssrc-Image ok = rw written (omega (arith, ok.ssrc))

  received : RtpPacket
  received = record {
    buffer = b;
    hdr_size = hdr;
    payload_size = length payload;
    total = total;
    srtp_length = 0;
    srtp_data_offset = 0;
  }

  received_packet-Image : received_packet b total ≡ some received
  unfolding received_packet received
  received_packet-Image =
      rw (header_size-Image, unpadded_size-Image) (ground (arith, im.sum, im.small, im.padded))

  cached : Cached
  cached = record { seq_num = f.seq_num; timestamp = f.timestamp; ssrc = f.ssrc }

  incoming-Image :
      Fits f → incoming b total ≡ some (record { packet = received; cached = some cached })
  unfolding incoming received cached
  incoming-Image ok =
      let bound : 12 ≤ b.size = omega (arith, im.sum, hdr-le) in
      ground (
        arith,
        received_packet-Image,
        at_first,
        at_second,
        type-second ok,
        seq_num-Image ok,
        timestamp-Image ok,
        ssrc-Image ok,
        ok.not_rtcp,
      )

-- What the constructor IncomingRTPPkt reads of a packet.
pub record Delivers (b : Buffer) (total : ℕ) (f : Fields) (sources : ℕ) (payload : List ℕ)
    : Type 0 where
  pub packet : IncomingPacket
  pub parsed : incoming b total ≡ some packet
  pub cached :
      packet.cached ≡ some (record { seq_num = f.seq_num; timestamp = f.timestamp; ssrc = f.ssrc })
  pub payload_type : payload_of (b.bytes 1) ≡ f.payload_type
  pub marker : marker_of (b.bytes 1) ≡ to_nat f.marker
  pub csrc_count : cc_of (b.bytes 0) ≡ sources
  pub size : packet.packet.payload_size ≡ length payload
  pub body :
      slice packet.packet.buffer.bytes packet.packet.hdr_size packet.packet.payload_size ≡ payload

module _ (g : ℕ → ℕ) (n e words hdr : ℕ) (payload : List ℕ) (padding total : ℕ)
    (im : Image g n e words hdr payload padding total) (f : Fields) (b : Buffer)
    (written : b.bytes ≡ write_fields g f) (size : total ≤ b.size) where
  pub Image-Delivers : Fits f → Delivers b total f n payload
  unfolding received cached
  Image-Delivers ok =
      let first = at_first g n e words hdr payload padding total im f b written size in
      let later = at_later g n e words hdr payload padding total im f b written size in
      let low = hdr-le g n e words hdr payload padding total im f b written size in
      let second = at_second g n e words hdr payload padding total im f b written size in
      record {
        packet = record {
          packet = received g n e words hdr payload padding total im f b written size;
          cached = some (cached g n e words hdr payload padding total im f b written size);
        };
        parsed = incoming-Image g n e words hdr payload padding total im f b written size ok;
        cached = refl;
        payload_type = type-second g n e words hdr payload padding total im f b written size ok;
        marker = ground (arith, second, ok.payload_type);
        csrc_count = ground (arith, first, im.sources, im.extended);
        size = refl;
        body = slice_congr b.bytes g hdr (length payload) (λ j h. later j (omega arith)) ∙ im.body;
      }

-- What a receiver gets of a packet: `takeInDataPacket` hands what the constructor has read to
-- `onRTPPacketRecv`.
pub record Taken (b : Buffer) (total : ℕ) (f : Fields) (sources : ℕ) (payload : List ℕ)
    : Type 0 where
  pub read_as : Delivers b total f sources payload
  pub taken : take_in b total ≡ some (some read_as.packet.packet)

pub Delivers-Taken :
    (b : Buffer) (total : ℕ) (f : Fields) (sources : ℕ) (payload : List ℕ)
    → Delivers b total f sources payload
    → 1 ≤ b.size
    → padding_of (b.bytes 0) ≡ 0
    → Taken b total f sources payload
unfolding take_in
Delivers-Taken b total f sources payload d size plain =
    let first : read b 0 ≡ some (b.bytes 0) = ground arith in
    let unset : (padding_of (b.bytes 0) == 1) ≡ false = ground arith in
    record { read_as = d; taken = rw first (rw unset (rw d.parsed (rw d.cached (rw unset refl)))) }
