-- ===== src/Rtcp/Bye.antt =====
-- src/control.cpp: the BYE packet that `dispatchBYE` builds, and the reason that `getBYE` reads.
pub mod Layout
pub mod RoundTrip
use ccrtp.Prelude.{
  ℕ, zero, suc, ◌+◌, ◌-◌, ◌*◌, ◌/◌, ◌%◌, ◌^◌, List, [], ◌∷◌, ◌++◌, Bool, true, false, Option, none,
  some, length, take, ltb, ◌==◌, if◌then◌else◌, ◌>>=◌,
}
use ccrtp.Packet.{Buffer, read, write, setbuffer, clear, be16, be32}
use ccrtp.Packet.Memory.{slice}
use ccrtp.Rtcp.{version_of, block_count_of, set_header_byte, packet_length}

-- `char buffer[BYE_BUFFER_LENGTH]`
abbrev pub bye_buffer_length : ℕ
bye_buffer_length = 500

-- The writes of the version and the block count leave the padding bit of the byte as it was.
abbrev pub set_version_and_count : ℕ → ℕ → ℕ → ℕ
set_version_and_count version count b = version % 4 * 64 + b / 32 % 2 * 32 + count % 32

-- The empty RR in front.
unfoldable pub put_empty_rr : (ℕ → ℕ) → ℕ → ℕ → ℕ
put_empty_rr mem ssrc = setbuffer mem (set_header_byte 2 0 0 ∷ 201 ∷ 0 ∷ 1 ∷ be32 ssrc) 0

-- Header, SSRC and reason of the BYE packet behind it: the length of the reason as a uint8, and as
-- many bytes of it.
unfoldable pub put_reason : (ℕ → ℕ) → ℕ → List ℕ → ℕ → ℕ
put_reason mem ssrc reason =
    let size = length reason % 256 in
    let named = setbuffer mem (set_version_and_count 2 1 (mem 8) ∷ 203 ∷ []) 8 in
    let sized = setbuffer named (be32 ssrc ++ (size ∷ [])) 12 in
    setbuffer sized (take size reason) 17

-- How many zero bytes follow the reason.
abbrev pub bye_padlen : ℕ → ℕ
bye_padlen size = 4 - (9 + size) % 4

abbrev pub bye_length : List ℕ → ℕ
bye_length reason = let size = length reason % 256 in 17 + size + bye_padlen size

-- The compound of `dispatchBYE`: the zero bytes, which the length of the reason counts too, and
-- the length of the packet in words.
unfoldable pub build_bye : (ℕ → ℕ) → ℕ → List ℕ → Buffer
build_bye mem ssrc reason =
    let size = length reason % 256 in
    let said = put_reason (put_empty_rr mem ssrc) ssrc reason in
    let filled = clear said (17 + size) (bye_padlen size) in
    let counted = write filled 16 ((size + bye_padlen size) % 256) in
    record {
      size = bye_buffer_length;
      bytes = setbuffer counted (be16 ((bye_length reason - 8) / 4 - 1)) 10;
    }

-- A C string: the bytes up to the first 0.
unfoldable pub c_string : List ℕ → List ℕ
c_string [] = []
c_string (x ∷ xs) = if x == 0 then [] else x ∷ c_string xs

-- The reason that getBYE reads, empty where the header of the packet at `pkt` leaves no room for one.
-- It is looked for behind that header, counted from `pointer`.
abbrev pub reason_from : Buffer → (pkt pointer : ℕ) → Option (List ℕ)
reason_from block pkt pointer = do
  b ← read block pkt
  size ← packet_length block pkt
  let head = 4 + block_count_of b * 4
  let place = (pointer + head) % 2 ^ 16
  if ltb head size
      then read block place >>= (λ len.
        if ltb block.size (place + 1 + len)
        then none
        else some (c_string (slice block.bytes (place + 1) len)))
      else some []

-- The reason of the BYE packet at `pointer`.
unfoldable pub get_reason : Buffer → ℕ → Option (List ℕ)
get_reason block pointer = reason_from block pointer pointer
