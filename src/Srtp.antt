-- ===== src/Srtp.antt =====
-- src/CryptoContext.cpp (srtpEncrypt, srtpAuthenticate) and src/rtppkt.cpp (OutgoingRTPPkt::protect,
-- IncomingRTPPkt::unprotect): RTP packets are enciphered and authenticated in place.
pub mod Sealed
pub mod RoundTrip
pub mod Delivery
pub mod Clear
mod Tests
use ccrtp.Prelude.{
  ℕ, ◌+◌, ◌-◌, ◌*◌, ◌/◌, ◌%◌, ◌^◌, List, [], ◌∷◌, ◌++◌, Bool, true, false, Option, none, some, ltb,
  ◌==◌, if◌then◌else◌, ◌>>=◌, take, drop,
}
use ccrtp.Crypto.{
  Encryption, null, aes_cm, aes_f8, two_cm, two_f8, CryptoContext, check_replay, guess_index,
}
use ccrtp.Crypto
use ccrtp.Packet.{Buffer, RtpPacket, set_bytes, setbuffer, be32, padding_of}
use ccrtp.Packet.Incoming.{Cached}
use ccrtp.Packet.Memory.{slice}
use ccrtp.Cipher.{SymCrypto, xor_bytes, ctr_encrypt, f8_encrypt}
use ccrtp.Session.{SessionKeys, be}
use ccrtp.Srtcp.{with_f8, mac_tag, Verdict, replayed, forged, accepted, equal_bytes}

-- A context with its keys.
pub record SrtpContext : Type 0 where
  pub state : CryptoContext
  pub keys : SessionKeys

-- The IV of counter mode: k_s xored with the SSRC and the 48 bits of the index.
abbrev pub srtp_cm_iv : List ℕ → ℕ → ℕ → List ℕ
srtp_cm_iv k_s ssrc index =
    take 4 k_s
    ++ (xor_bytes (be32 ssrc) (drop 4 k_s) ++ (xor_bytes (be 6 index) (drop 8 k_s) ++ (0 ∷ 0 ∷ [])))

-- The IV of f8 mode: the fixed header without its first byte, and the context's own rollover
-- counter.
abbrev pub srtp_f8_iv : (ℕ → ℕ) → ℕ → List ℕ
srtp_f8_iv mem roc = 0 ∷ (slice mem 1 11 ++ be32 roc)

-- isPadded and getPaddingSize.
abbrev pub pad_of : RtpPacket → ℕ
pad_of p = if padding_of (p.buffer.bytes 0) == 0 then 0 else p.buffer.bytes (p.total - 1)

-- How many bytes from the payload on are enciphered.
abbrev pub body_size : RtpPacket → ℕ
body_size p = (p.payload_size + pad_of p) % 2 ^ 32

unfoldable pub srtp_encrypt :
    Encryption → SessionKeys → ℕ → List ℕ → RtpPacket → ℕ → ℕ → Option (ℕ → ℕ)
srtp_encrypt ealg keys roc junk p index ssrc =
    let mem = p.buffer.bytes in
    let counter = keys.cipher >>= λ c.
    ctr_encrypt c mem p.hdr_size (body_size p) (srtp_cm_iv keys.k_s ssrc index) in
    let feedback = keys.cipher >>= λ c.
    with_f8 keys.f8_cipher
      (λ f8. f8_encrypt c f8 junk mem p.hdr_size (body_size p) (srtp_f8_iv mem roc)) in
    elim ealg [
      | null ↦ some mem
      | aes_cm ↦ counter
      | two_cm ↦ counter
      | aes_f8 ↦ feedback
      | two_f8 ↦ feedback
    ]

-- srtpAuthenticate: the MAC covers the raw packet and a rollover counter.
abbrev pub srtp_authenticate : SrtpContext → RtpPacket → ℕ → List ℕ → Option (List ℕ)
srtp_authenticate c p roc old =
    mac_tag c.state.aalg c.keys c.state.tag_length (slice p.buffer.bytes 0 p.total ++ be32 roc) old

-- OutgoingRTPPkt::protect, for a packet with the sequence number `seq`.
unfoldable pub protect : SrtpContext → List ℕ → RtpPacket → ℕ → ℕ → Option (RtpPacket × SrtpContext)
protect c junk p seq ssrc = do
  let index = c.state.roc * 2 ^ 16 + seq
  enciphered ← srtp_encrypt c.state.ealg c.keys c.state.roc junk p index ssrc
  let q = set_bytes p enciphered
  tag ← srtp_authenticate c q c.state.roc (slice enciphered p.srtp_data_offset c.state.tag_length)
  let signed = set_bytes p (setbuffer enciphered tag p.srtp_data_offset)
  let next_roc = if seq == 65535 then (c.state.roc + 1) % 2 ^ 32 else c.state.roc
  some (signed, record c { state = record (c.state) { roc = next_roc } })

-- The packet without its tag and MKI: a uint32 wraps, as in the source.
abbrev pub strip : CryptoContext → RtpPacket → RtpPacket
strip c p = record p {
  total = (p.total + 2 ^ 32 - (c.tag_length + c.mki_length)) % 2 ^ 32;
  payload_size = (p.payload_size + 2 ^ 32 - (c.tag_length + c.mki_length)) % 2 ^ 32;
}

pub record Unprotected : Type 0 where
  pub verdict : Verdict
  pub packet : RtpPacket
  pub context : SrtpContext

-- The statements behind the tag's test; the result 1 is `accepted 1`.
abbrev pub open_packet : SrtpContext → List ℕ → RtpPacket → ℕ → ℕ → ℕ → Option Unprotected
open_packet c junk p guessed seq ssrc = do
  deciphered ← srtp_encrypt c.state.ealg c.keys c.state.roc junk p guessed ssrc
  updated ← Crypto.update c.state seq
  some (record {
    verdict = accepted 1;
    packet = set_bytes p deciphered;
    context = record c { state = updated };
  })

-- IncomingRTPPkt::unprotect with a context. The new `mac` array holds what `mac` does before. A
-- packet that is shorter than its tag and MKI is read behind its buffer, `none`.
unfoldable pub unprotect : SrtpContext → List ℕ → List ℕ → RtpPacket → Cached → Option Unprotected
unprotect c junk mac p cached =
    let q = strip c.state p in
    let tag_length = c.state.tag_length in
    check_replay c.state cached.seq_num >>= λ checked.
    if checked.0
    then (let (guessed, state) = guess_index checked.1 cached.seq_num in
        let d : SrtpContext = record c { state = state } in
        if ltb p.total (tag_length + c.state.mki_length)
        then none
        else srtp_authenticate d q (guessed / 2 ^ 16 % 2 ^ 32) (take tag_length mac) >>= λ tag.
            if equal_bytes (slice q.buffer.bytes (q.total + c.state.mki_length) tag_length) tag
            then open_packet d junk q guessed cached.seq_num cached.ssrc
            else some (record { verdict = forged; packet = q; context = d }))
    else some (record { verdict = replayed; packet = q; context = record c { state = checked.1 } })
