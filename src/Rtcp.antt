-- ===== src/Rtcp.antt =====
-- src/rtcppkt.cpp and src/ccrtp/rtcppkt.h: RTCP packets in a buffer, and the check of a compound
-- packet.
pub mod Compound
pub mod Bye
pub mod TakeIn
mod Tests
use ccrtp.Prelude.{
  ℕ, zero, suc, ◌+◌, ◌-◌, ◌*◌, ◌/◌, ◌%◌, ◌^◌, List, [], ◌∷◌, Bool, true, false, ◌&&◌, Option, none,
  some, ltb, ◌==◌, if◌then◌else◌, ◌>>=◌, bit_and,
}
use ccrtp.Packet.{Buffer, read}
use ccrtp.Packet.Incoming.{read16, read32}

-- RTCPPacket::Type.
pub data RtcpType : Type 0 where
  sr rr sdes bye app fir nack xr : RtcpType

-- `tXR` has no value of its own, so it is the one behind tNACK.
abbrev pub type_code : RtcpType → ℕ
type_code RtcpType.sr = 200
type_code RtcpType.rr = 201
type_code RtcpType.sdes = 202
type_code RtcpType.bye = 203
type_code RtcpType.app = 204
type_code RtcpType.fir = 192
type_code RtcpType.nack = 193
type_code RtcpType.xr = 194

-- The first byte of RTCPFixedHeader, most significant bits first: version (2), padding (1),
-- block_count (5).
abbrev pub version_of : ℕ → ℕ
version_of b = b / 64

abbrev pub block_count_of : ℕ → ℕ
block_count_of b = b % 32

abbrev pub set_header_byte : (version padding block_count : ℕ) → ℕ
set_header_byte version padding block_count = version % 4 * 64 + padding % 2 * 32 + block_count % 32

abbrev pub rtcp_header : ℕ
rtcp_header = 4

-- RTCPPacket::getLength of the packet at `pointer`.
unfoldable pub packet_length : Buffer → ℕ → Option ℕ
packet_length block pointer = read16 block (pointer + 2) >>= (λ words. some ((words + 1) * 4))

-- RTCPPacket::getSSRC.
abbrev pub packet_ssrc : Buffer → ℕ → Option ℕ
packet_ssrc block pointer = read32 block (pointer + 4)

-- RTCP_VALID_MASK and RTCP_VALID_VALUE on the first two bytes, as a little-endian machine reads
-- them: version 2, no padding, SR or RR.
abbrev pub valid_first : ℕ → ℕ → Bool
valid_first b₀ b₁ = bit_and (b₀ + b₁ * 256) 0xfee0 == 0xc880

-- The loop of `checkCompoundRTCPHeader`, on fuel.
unfoldable pub check_packets : Buffer → ℕ → ℕ → ℕ → Option Bool
check_packets block len zero pointer = none
check_packets block len (suc fuel) pointer = packet_length block pointer >>= (λ size.
    read block pointer >>= (λ b.
      (let next = (pointer + size) % 2 ^ 32 in
        let rest = check_packets block len fuel next in
        if ltb next len && version_of b == 2 then rest else some (next == len))))

unfoldable pub check_compound_rtcp_header : Buffer → ℕ → Option Bool
check_compound_rtcp_header block len = do
  b₀ ← read block 0
  b₁ ← read block 1
  if valid_first b₀ b₁ then check_packets block len (suc len) 0 else some false
