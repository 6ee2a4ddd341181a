-- ===== src/Packet/Incoming.antt =====
-- src/rtppkt.cpp: the constructors RTPPacket(block, len) and IncomingRTPPkt(block, len), and
-- `reComputePayLength`.
use ccrtp.Prelude.{
  ℕ, ◌+◌, ◌-◌, ◌*◌, ◌%◌, ◌^◌, Bool, ◌||◌, not, Option, none, some, ◌==◌, if◌then◌else◌, ◌>>=◌,
  bit_and,
}
use ccrtp.Packet.{
  Buffer, read, RtpPacket, set_bytes, write, set_padding, version_of, padding_of, extension_of,
  cc_of, payload_of, fixed_header,
}

-- The length of the header, with the contributing sources and the extension.
unfoldable pub header_size : Buffer → Option ℕ
header_size block = do
  b ← read block 0
  let fixed = fixed_header + cc_of b * 4
  if extension_of b == 0
      then some fixed
      else read block (fixed + 2)
        >>= (λ hi. read block (fixed + 3) >>= (λ lo. some (fixed + 4 + (hi * 256 + lo) * 4)))

-- The length without the padding, a size_t.
unfoldable pub unpadded_size : Buffer → ℕ → Option ℕ
unpadded_size block len = do
  b ← read block 0
  if padding_of b == 0
      then some len
      else read block ((len + 2 ^ 64 - 1) % 2 ^ 64)
        >>= (λ last. some ((len + 2 ^ 64 - last) % 2 ^ 64))

unfoldable pub received_packet : Buffer → ℕ → Option RtpPacket
received_packet block len = do
  hdr ← header_size block
  unpadded ← unpadded_size block len
  some (record {
    buffer = block;
    hdr_size = hdr;
    payload_size = (unpadded + 2 ^ 64 - hdr) % 2 ^ 32;
    total = len % 2 ^ 32;
    srtp_length = 0;
    srtp_data_offset = 0;
  })

-- A number in network order.
abbrev pub read16 : Buffer → ℕ → Option ℕ
read16 b i = read b i >>= (λ x. read b (i + 1) >>= (λ y. some (x * 256 + y)))

abbrev pub read32 : Buffer → ℕ → Option ℕ
read32 b i = read16 b i >>= (λ x. read16 b (i + 2) >>= (λ y. some (x * 2 ^ 16 + y)))

pub record Cached : Type 0 where
  pub seq_num : ℕ
  pub timestamp : ℕ
  pub ssrc : ℕ

-- An IncomingRTPPkt. `cached` is `none` where the header is not valid.
pub record IncomingPacket : Type 0 where
  pub packet : RtpPacket
  pub cached : Option Cached

-- The payload types of RTCP SR and RR, by the masks of the source.
abbrev pub is_rtcp_type : ℕ → Bool
is_rtcp_type pt = bit_and pt 0x7e == 0x48

unfoldable pub incoming : Buffer → ℕ → Option IncomingPacket
incoming block len = do
  p ← received_packet block len
  b₀ ← read block 0
  b₁ ← read block 1
  if not (version_of b₀ == 2) || is_rtcp_type (payload_of b₁)
      then some (record { packet = p; cached = none })
      else read32 block 4 >>= (λ ts. read16 block 2 >>= (λ seq. read32 block 8 >>= (λ ssrc.
        some (record {
          packet = p;
          cached = some (record { seq_num = seq; timestamp = ts; ssrc = ssrc });
        }))))

-- `reComputePayLength(true)`: `len` is 0 minus the padding count, so its subtraction adds.
unfoldable pub recompute_payload_length : RtpPacket → Option RtpPacket
recompute_payload_length p = do
  let marked = write p.buffer.bytes 0 (set_padding 1 (p.buffer.bytes 0))
  let q = set_bytes p marked
  count ← read q.buffer ((p.payload_size + 2 ^ 32 - 1) % 2 ^ 32)
  let len = (2 ^ 64 - count) % 2 ^ 64
  some (record q { payload_size = (p.payload_size + 2 ^ 64 - len) % 2 ^ 32 })

abbrev pub clear_padding : Buffer → Buffer
clear_padding block = record block { bytes = write block.bytes 0 (set_padding 0 (block.bytes 0)) }

-- `takeInDataPacket` from the arrived bytes to the call of `onRTPPacketRecv`, for a session
-- without crypto contexts: the padding bit is cleared first and put back at the end. A packet
-- that is not valid is discarded, `some none`.
unfoldable pub take_in : Buffer → ℕ → Option (Option RtpPacket)
take_in block len = do
  b ← read block 0
  let padded = padding_of b == 1
  p ← incoming (if padded then clear_padding block else block) len
  elim p.cached [
    | none ↦ some none
    | some c ↦
        if padded
        then recompute_payload_length p.packet >>= (λ q. some (some q))
        else some (some p.packet)
  ]
