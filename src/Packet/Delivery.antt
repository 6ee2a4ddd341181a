-- ===== src/Packet/Delivery.antt =====
-- src/rtppkt.cpp: the packets of the three constructors of OutgoingRTPPkt, with their fields set,
-- as IncomingRTPPkt reads them.
use ccrtp.Prelude.{
  ℕ, ◌+◌, ◌-◌, ◌*◌, ◌%◌, ◌^◌, ◌≤◌, ◌<◌, ◌≡◌, ◌≢◌, refl, ◌∙◌, List, none, length, get_or, arith,
}
use ccrtp.Packet.{
  setbuffer, padding_for, initial_bytes, new_packet, set_csrc_array, set_header_extension,
  outgoing_extended, outgoing_sources, outgoing_plain,
}
use ccrtp.Packet.Fields.{Fields, set_fields, write_fields}
use ccrtp.Packet.Memory.{setbuffer_before, setbuffer_after, slice-setbuffer}
use ccrtp.Packet.Build.{
  flag, padding_for-le, initial_bytes-facts, set_csrc_array-facts, set_header_extension-facts,
  write_fields-facts,
}
use ccrtp.Packet.RoundTrip.{Fits, Image, Image-Delivers, Delivers, Taken, Delivers-Taken}

-- The payload is copied behind a finished header.
copied-Image :
    (h : ℕ → ℕ) (n e words hdr : ℕ) (payload : List ℕ) (padding total : ℕ)
    → n < 16
    → e < 2
    → padding < 256
    → h 0 ≡ 128 + 32 * flag padding + 16 * e + n
    → h 1 ≡ 0
    → (e ≡ 0 → hdr ≡ 12 + n * 4)
    → (e ≡ 1 → hdr ≡ 12 + n * 4 + 4 + words * 4)
    → (e ≡ 1 → h (12 + n * 4 + 2) * 256 + h (12 + n * 4 + 3) ≡ words)
    → (padding ≢ 0 → h (total - 1) ≡ padding)
    → 12 ≤ hdr
    → total ≡ hdr + length payload + padding
    → total < 2 ^ 32
    → Image (setbuffer h payload hdr) n e words hdr payload padding total
copied-Image h n e words hdr payload padding total n_lt e_lt p_lt first second plain long high tail
      low sum small =
    record {
      sources = n_lt;
      extended = e_lt;
      padded = p_lt;
      first = setbuffer_before h payload hdr 0 (omega arith) ∙ first;
      second = setbuffer_before h payload hdr 1 (omega arith) ∙ second;
      plain_header = plain;
      long_header = long;
      words_high = λ one.
          rw
            (
              setbuffer_before h payload hdr (12 + n * 4 + 2) (omega (arith, long one)),
              setbuffer_before h payload hdr (12 + n * 4 + 3) (omega (arith, long one)),
            )
            (high one);
      body = slice-setbuffer h payload hdr;
      tail = λ ne. setbuffer_after h payload hdr (total - 1) (omega arith) ∙ tail ne;
      sum = sum;
      small = small;
    }

-- The length of the whole packet does not wrap.
total-sum :
    (hdr plen paddinglen : ℕ)
    → paddinglen < 256
    → hdr + plen + 256 ≤ 2 ^ 32
    → ((hdr + plen) % 2 ^ 32 + padding_for paddinglen ((hdr + plen) % 2 ^ 32)) % 2 ^ 32
      ≡ hdr + plen + padding_for paddinglen ((hdr + plen) % 2 ^ 32)
total-sum hdr plen paddinglen h small =
    omega (arith, padding_for-le paddinglen ((hdr + plen) % 2 ^ 32))

module _ (mem : ℕ → ℕ) (csrcs payload : List ℕ) (paddinglen : ℕ) (f : Fields) (ok : Fits f)
    (padded : paddinglen < 256) where
  -- The constructor IncomingRTPPkt reads the fields and the payload of a packet without contributing
  -- sources of less than 2^32 - 255 bytes, whatever its padding and whatever its memory held before.
  pub outgoing_plain-Delivers :
      12 + length payload + 256 ≤ 2 ^ 32
      → Delivers
          (set_fields (outgoing_plain mem payload paddinglen none) f).buffer
          (set_fields (outgoing_plain mem payload paddinglen none) f).total
          f
          0
          payload
  unfolding outgoing_plain new_packet set_fields
  outgoing_plain-Delivers small =
      let unpadded = (12 + length payload) % 2 ^ 32 in
      let padding = padding_for paddinglen unpadded in
      let total = (unpadded + padding) % 2 ^ 32 in
      let le : padding ≤ paddinglen = padding_for-le paddinglen unpadded in
      let sum : total ≡ 12 + length payload + padding =
        total-sum 12 (length payload) paddinglen padded small in
      let made = initial_bytes-facts mem total padding (omega arith) in
      Image-Delivers (setbuffer (initial_bytes mem total padding) payload 12) 0 0 0 12 payload
        padding total
        (copied-Image (initial_bytes mem total padding) 0 0 0 12 payload padding total (omega arith)
          (omega arith) (omega arith) (omega (arith, made.0)) made.1 (λ z. refl)
          (λ o. absurd (omega arith)) (λ o. absurd (omega arith)) made.2 (omega arith) sum
          (omega arith))
        f _ refl (omega arith) ok

  -- The same of a packet with up to 15 contributing sources, and their count.
  pub outgoing_sources-Delivers :
      length csrcs < 16
      → 12 + 4 * length csrcs + length payload + 256 ≤ 2 ^ 32
      → Delivers
          (set_fields (outgoing_sources mem csrcs payload paddinglen none) f).buffer
          (set_fields (outgoing_sources mem csrcs payload paddinglen none) f).total
          f
          (length csrcs)
          payload
  unfolding outgoing_sources new_packet set_fields
  outgoing_sources-Delivers few small =
      let hdr = 12 + 4 * length csrcs in
      let unpadded = (hdr + length payload) % 2 ^ 32 in
      let padding = padding_for paddinglen unpadded in
      let total = (unpadded + padding) % 2 ^ 32 in
      let le : padding ≤ paddinglen = padding_for-le paddinglen unpadded in
      let sum : total ≡ hdr + length payload + padding =
        total-sum hdr (length payload) paddinglen padded small in
      let fresh = initial_bytes mem total padding in
      let made = initial_bytes-facts mem total padding (omega arith) in
      let listed = set_csrc_array-facts fresh csrcs in
      Image-Delivers (setbuffer (set_csrc_array fresh csrcs) payload hdr) (length csrcs) 0 0 hdr
        payload padding total
        (copied-Image (set_csrc_array fresh csrcs) (length csrcs) 0 0 hdr payload padding total few
          (omega arith) (omega arith) (ground (arith, listed.0, made.0)) (listed.1 ∙ made.1)
          (λ z. omega arith) (λ o. absurd (omega arith)) (λ o. absurd (omega arith))
          (λ ne. listed.2 (total - 1) (ground arith) ∙ made.2 ne) (omega arith) sum (omega arith))
        f _ refl (omega arith) ok

  -- The same of a packet with a header extension whose length field counts its 32-bit words.
  pub outgoing_extended-Delivers :
      (hdrext : List ℕ) (words : ℕ)
      → length csrcs < 16
      → length hdrext ≡ 4 + words * 4
      → get_or hdrext 2 0 * 256 + get_or hdrext 3 0 ≡ words
      → 12 + 4 * length csrcs + length hdrext + length payload + 256 ≤ 2 ^ 32
      → Delivers
          (set_fields (outgoing_extended mem csrcs hdrext payload paddinglen none) f).buffer
          (set_fields (outgoing_extended mem csrcs hdrext payload paddinglen none) f).total
          f
          (length csrcs)
          payload
  unfolding outgoing_extended new_packet set_fields
  outgoing_extended-Delivers hdrext words few len high small =
      let behind = 12 + 4 * length csrcs in
      let hdr = behind + length hdrext in
      let unpadded = (hdr + length payload) % 2 ^ 32 in
      let padding = padding_for paddinglen unpadded in
      let total = (unpadded + padding) % 2 ^ 32 in
      let le : padding ≤ paddinglen = padding_for-le paddinglen unpadded in
      let sum : total ≡ hdr + length payload + padding =
        total-sum hdr (length payload) paddinglen padded small in
      let fresh = initial_bytes mem total padding in
      let made = initial_bytes-facts mem total padding (omega arith) in
      let listed = set_csrc_array-facts fresh csrcs in
      let h = set_header_extension (set_csrc_array fresh csrcs) hdrext behind in
      let ext =
        set_header_extension-facts (set_csrc_array fresh csrcs) hdrext behind (omega arith) in
      let at2 : h (12 + length csrcs * 4 + 2) ≡ get_or hdrext 2 0 =
        ground (arith, ext.2 2 (omega arith)) in
      let at3 : h (12 + length csrcs * 4 + 3) ≡ get_or hdrext 3 0 =
        ground (arith, ext.2 3 (omega arith)) in
      Image-Delivers (setbuffer h payload hdr) (length csrcs) 1 words hdr payload padding total
        (copied-Image h (length csrcs) 1 words hdr payload padding total few (omega arith)
          (omega arith) (ground (arith, ext.0, listed.0, made.0)) (ext.1 ∙ listed.1 ∙ made.1)
          (λ z. absurd (omega arith)) (λ o. omega arith) (λ o. rw (at2, at3) high)
          (λ ne.
            ext.3 (total - 1) (ground arith) ∙ (listed.2 (total - 1) (ground arith) ∙ made.2 ne))
          (omega arith) sum (omega arith))
        f _ refl (omega arith) ok

-- What the payload and the setters leave of the first byte.
first_byte :
    (h : ℕ → ℕ) (payload : List ℕ) (hdr : ℕ) (f : Fields)
    → 12 ≤ hdr
    → write_fields (setbuffer h payload hdr) f 0 ≡ h 0
first_byte h payload hdr f low =
    (write_fields-facts (setbuffer h payload hdr) f).0
    ∙ setbuffer_before h payload hdr 0 (omega arith)

-- Packets without padding.
module _ (mem : ℕ → ℕ) (csrcs payload : List ℕ) (f : Fields) (ok : Fits f) where
  -- A packet without padding and contributing sources, of less than 2^32 - 255 bytes, passes the
  -- first part of takeInDataPacket with the fields and the payload it was sent with.
  pub outgoing_plain-Taken :
      12 + length payload + 256 ≤ 2 ^ 32
      → Taken
          (set_fields (outgoing_plain mem payload 0 none) f).buffer
          (set_fields (outgoing_plain mem payload 0 none) f).total
          f
          0
          payload
  unfolding outgoing_plain new_packet set_fields padding_for
  outgoing_plain-Taken small =
      let total = ((12 + length payload) % 2 ^ 32 + 0) % 2 ^ 32 in
      let made = initial_bytes-facts mem total 0 (omega arith) in
      Delivers-Taken _ _ f 0 payload
        (outgoing_plain-Delivers mem csrcs payload 0 f ok (omega arith) small) (omega arith)
        (ground (arith, first_byte (initial_bytes mem total 0) payload 12 f, made.0))

  -- The same for a packet with up to 15 contributing sources, whose count the receiver gets too.
  pub outgoing_sources-Taken :
      length csrcs < 16
      → 12 + 4 * length csrcs + length payload + 256 ≤ 2 ^ 32
      → Taken
          (set_fields (outgoing_sources mem csrcs payload 0 none) f).buffer
          (set_fields (outgoing_sources mem csrcs payload 0 none) f).total
          f
          (length csrcs)
          payload
  unfolding outgoing_sources new_packet set_fields padding_for
  outgoing_sources-Taken few small =
      let hdr = 12 + 4 * length csrcs in
      let total = ((hdr + length payload) % 2 ^ 32 + 0) % 2 ^ 32 in
      let made = initial_bytes-facts mem total 0 (omega arith) in
      let listed = set_csrc_array-facts (initial_bytes mem total 0) csrcs in
      Delivers-Taken _ _ f (length csrcs) payload
        (outgoing_sources-Delivers mem csrcs payload 0 f ok (omega arith) few small) (omega arith)
        (ground (
          arith,
          first_byte (set_csrc_array (initial_bytes mem total 0) csrcs) payload hdr f,
          listed.0,
          made.0,
        ))

  -- A packet without padding, of less than 2^32 - 255 bytes, with up to 15 contributing sources and
  -- a header extension whose length field counts its 32-bit words, built in whatever memory, passes
  -- the first part of takeInDataPacket, up to the call of onRTPPacketRecv, in a session without crypto
  -- contexts. What is handed over has the fields, the count of sources and the payload that were
  -- sent.
  pub outgoing_extended-Taken :
      (hdrext : List ℕ) (words : ℕ)
      → length csrcs < 16
      → length hdrext ≡ 4 + words * 4
      → get_or hdrext 2 0 * 256 + get_or hdrext 3 0 ≡ words
      → 12 + 4 * length csrcs + length hdrext + length payload + 256 ≤ 2 ^ 32
      → Taken
          (set_fields (outgoing_extended mem csrcs hdrext payload 0 none) f).buffer
          (set_fields (outgoing_extended mem csrcs hdrext payload 0 none) f).total
          f
          (length csrcs)
          payload
  unfolding outgoing_extended new_packet set_fields padding_for
  outgoing_extended-Taken hdrext words few len high small =
      let behind = 12 + 4 * length csrcs in
      let hdr = behind + length hdrext in
      let total = ((hdr + length payload) % 2 ^ 32 + 0) % 2 ^ 32 in
      let made = initial_bytes-facts mem total 0 (omega arith) in
      let listed = set_csrc_array-facts (initial_bytes mem total 0) csrcs in
      let h = set_csrc_array (initial_bytes mem total 0) csrcs in
      let ext = set_header_extension-facts h hdrext behind (omega arith) in
      Delivers-Taken _ _ f (length csrcs) payload
        (outgoing_extended-Delivers mem csrcs payload 0 f ok (omega arith) hdrext words few len high
          small)
        (omega arith)
        (ground (
          arith,
          first_byte (set_header_extension h hdrext behind) payload hdr f,
          ext.0,
          listed.0,
          made.0,
        ))
