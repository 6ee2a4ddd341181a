-- ===== src/Packet.antt =====
-- src/rtppkt.cpp and src/ccrtp/rtppkt.h: RTP packets in memory, as they are built for sending and
-- as they are read on reception.
pub mod Fields
pub mod Incoming
pub mod Memory
pub mod Build
pub mod RoundTrip
pub mod Delivery
pub mod Received
mod Tests
use ccrtp.Prelude.{
  ℕ, zero, suc, ◌+◌, ◌-◌, ◌*◌, ◌/◌, ◌%◌, ◌^◌, List, [], ◌∷◌, ◌++◌, Bool, true, false, ◌||◌, Option,
  none, some, ltb, ◌==◌, if◌then◌else◌, ◌>>=◌, length, bit_and,
}

-- An array of unsigned chars, and a read of it; `none` is a read behind its end.
pub record Buffer : Type 0 where
  pub size : ℕ
  pub bytes : ℕ → ℕ

abbrev pub read : Buffer → ℕ → Option ℕ
read b i = if ltb i b.size then some (b.bytes i) else none

abbrev pub write : (ℕ → ℕ) → ℕ → ℕ → ℕ → ℕ
write mem i v j = if j == i then v else mem j

-- memcpy: `setbuffer(src, len, pos)`.
unfoldable pub setbuffer : (ℕ → ℕ) → List ℕ → ℕ → ℕ → ℕ
setbuffer mem [] pos j = mem j
setbuffer mem (x ∷ xs) pos j = if j == pos then x else setbuffer mem xs (pos + 1) j

-- memset of `n` bytes from `pos` on to 0.
abbrev pub clear : (ℕ → ℕ) → ℕ → ℕ → ℕ → ℕ
clear mem pos n j = if ltb j pos then mem j else if ltb j (pos + n) then 0 else mem j

-- Numbers in network order.
abbrev pub be16 : ℕ → List ℕ
be16 x = (x / 2 ^ 8 % 256) ∷ (x % 256) ∷ []

abbrev pub be32 : ℕ → List ℕ
be32 x = (x / 2 ^ 24 % 256) ∷ (x / 2 ^ 16 % 256) ∷ (x / 2 ^ 8 % 256) ∷ (x % 256) ∷ []

abbrev pub to_nat : Bool → ℕ
to_nat true = 1
to_nat false = 0

-- The bit fields of the first two bytes of RTPFixedHeader, most significant first: version (2),
-- padding (1), extension (1), cc (4); marker (1), payload (7).
abbrev pub version_of : ℕ → ℕ
version_of b = b / 64

abbrev pub padding_of : ℕ → ℕ
padding_of b = b / 32 % 2

abbrev pub extension_of : ℕ → ℕ
extension_of b = b / 16 % 2

abbrev pub cc_of : ℕ → ℕ
cc_of b = b % 16

abbrev pub marker_of : ℕ → ℕ
marker_of b = b / 128

abbrev pub payload_of : ℕ → ℕ
payload_of b = b % 128

abbrev pub set_version : ℕ → ℕ → ℕ
set_version v b = v % 4 * 64 + b % 64

abbrev pub set_padding : ℕ → ℕ → ℕ
set_padding p b = b / 64 * 64 + p % 2 * 32 + b % 32

abbrev pub set_extension : ℕ → ℕ → ℕ
set_extension e b = b / 32 * 32 + e % 2 * 16 + b % 16

abbrev pub set_cc : ℕ → ℕ → ℕ
set_cc c b = b / 16 * 16 + c % 16

abbrev pub set_marker : ℕ → ℕ → ℕ
set_marker k b = k % 2 * 128 + b % 128

abbrev pub set_payload : ℕ → ℕ → ℕ
set_payload t b = b / 128 * 128 + t % 128

abbrev pub fixed_header : ℕ
fixed_header = 12

-- RTPPacket. `duplicated` is false for every packet that the library makes.
pub record RtpPacket : Type 0 where
  pub buffer : Buffer
  pub hdr_size : ℕ
  pub payload_size : ℕ
  pub total : ℕ
  pub srtp_length : ℕ
  pub srtp_data_offset : ℕ

abbrev pub set_bytes : RtpPacket → (ℕ → ℕ) → RtpPacket
set_bytes p mem = record p { buffer = record (p.buffer) { bytes = mem } }

-- The lengths that a crypto context adds: tag and MKI.
abbrev pub srtp_size : Option (ℕ × ℕ) → ℕ
srtp_size none = 0
srtp_size (some (tag, mki)) = tag + mki

-- How many bytes of padding the packet gets: `paddinglen - (total % paddinglen)`.
unfoldable pub padding_for : ℕ → ℕ → ℕ
padding_for paddinglen total = if paddinglen == 0 then 0 else paddinglen - total % paddinglen

-- The writes of RTPPacket(hdrlen, plen, paddinglen, pcc) to the new buffer, `mem` before.
unfoldable pub initial_bytes : (ℕ → ℕ) → ℕ → ℕ → ℕ → ℕ
initial_bytes mem total padding =
    let zeroed = clear mem 0 4 in
    let versioned = write zeroed 0 (set_version 2 (zeroed 0)) in
    if padding == 0
    then write versioned 0 (set_padding 0 (versioned 0))
    else (let cleared = clear versioned (total - padding) (padding - 1) in
        let counted = write cleared (total - 1) padding in
        write counted 0 (set_padding 1 (counted 0)))

-- RTPPacket(hdrlen, plen, paddinglen, pcc).
unfoldable pub new_packet : (ℕ → ℕ) → ℕ → ℕ → ℕ → Option (ℕ × ℕ) → RtpPacket
new_packet mem hdrlen plen paddinglen pcc =
    let unpadded = (hdrlen + plen) % 2 ^ 32 in
    let padding = padding_for paddinglen unpadded in
    let total = (unpadded + padding) % 2 ^ 32 in
    record {
      buffer = record { size = total + srtp_size pcc; bytes = initial_bytes mem total padding };
      hdr_size = hdrlen % 2 ^ 32;
      payload_size = plen % 2 ^ 32;
      total = total;
      srtp_length = srtp_size pcc;
      srtp_data_offset = elim pcc [ none ↦ 0 | some c ↦ total ];
    }

unfoldable pub csrc_bytes : List ℕ → List ℕ
csrc_bytes [] = []
csrc_bytes (c ∷ cs) = be32 c ++ csrc_bytes cs

-- setCSRCArray: the identifiers in network order, and their count.
unfoldable pub set_csrc_array : (ℕ → ℕ) → List ℕ → ℕ → ℕ
set_csrc_array mem csrcs =
    let copied = setbuffer mem (csrc_bytes csrcs) fixed_header in
    write copied 0 (set_cc (length csrcs) (copied 0))

-- The header extension, and its flag.
unfoldable pub set_header_extension : (ℕ → ℕ) → List ℕ → ℕ → ℕ → ℕ
set_header_extension mem hdrext pos =
    let copied = setbuffer mem hdrext pos in
    write copied 0 (set_extension (if length hdrext == 0 then 0 else 1) (copied 0))

-- OutgoingRTPPkt(csrcs, numcsrc, hdrext, hdrextlen, data, datalen, paddinglen, pcc).
unfoldable pub outgoing_extended :
    (ℕ → ℕ) → List ℕ → List ℕ → List ℕ → ℕ → Option (ℕ × ℕ) → RtpPacket
outgoing_extended mem csrcs hdrext payload paddinglen pcc =
    let behind = fixed_header + 4 * length csrcs in
    let hdrlen = behind + length hdrext in
    let p = new_packet mem hdrlen (length payload) paddinglen pcc in
    let sources = set_csrc_array p.buffer.bytes csrcs in
    let extended = set_header_extension sources hdrext behind in
    set_bytes p (setbuffer extended payload hdrlen)

-- OutgoingRTPPkt(csrcs, numcsrc, data, datalen, paddinglen, pcc).
unfoldable pub outgoing_sources : (ℕ → ℕ) → List ℕ → List ℕ → ℕ → Option (ℕ × ℕ) → RtpPacket
outgoing_sources mem csrcs payload paddinglen pcc =
    let hdrlen = fixed_header + 4 * length csrcs in
    let p = new_packet mem hdrlen (length payload) paddinglen pcc in
    let sources = set_csrc_array p.buffer.bytes csrcs in
    set_bytes p (setbuffer sources payload hdrlen)

-- OutgoingRTPPkt(data, datalen, paddinglen, pcc).
unfoldable pub outgoing_plain : (ℕ → ℕ) → List ℕ → ℕ → Option (ℕ × ℕ) → RtpPacket
outgoing_plain mem payload paddinglen pcc =
    let p = new_packet mem fixed_header (length payload) paddinglen pcc in
    set_bytes p (setbuffer p.buffer.bytes payload fixed_header)
