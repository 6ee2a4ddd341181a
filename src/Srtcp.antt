-- ===== src/Srtcp.antt =====
-- src/CryptoContextCtrl.cpp (srtcpEncrypt, srtcpAuthenticate) and src/control.cpp (protect,
-- unprotect): RTCP packets are enciphered and authenticated in place.
pub mod Enciphering
pub mod Sealed
pub mod RoundTrip
pub mod Delivery
pub mod Refusal
pub mod Manager
pub mod Samples
mod Tests
use ccrtp.Prelude.{
  ℕ, ◌+◌, ◌-◌, ◌*◌, ◌/◌, ◌%◌, ◌^◌, List, [], ◌∷◌, ◌++◌, Bool, true, false, ◌&&◌, not, Option, none,
  some, ltb, leb, ◌==◌, if◌then◌else◌, ◌>>=◌, length, take, drop,
}
use ccrtp.Crypto.{
  Encryption, null, aes_cm, aes_f8, two_cm, two_f8, Authentication, sha1_hmac, skein_hmac,
}
use ccrtp.CryptoCtrl
use ccrtp.CryptoCtrl.{CryptoContextCtrl, check_replay}
use ccrtp.Packet.{setbuffer, be32}
use ccrtp.Packet.Memory.{slice}
use ccrtp.Cipher.{SymCrypto, xor_bytes, ctr_encrypt, f8_encrypt}
use ccrtp.Session.{SessionKeys}

-- A context with its keys, the length of the MKI and the lengths of the keys to derive.
pub record SrtcpContext : Type 0 where
  pub control : CryptoContextCtrl
  pub keys : SessionKeys
  pub mki_length : ℕ
  pub ekeyl : ℕ
  pub akeyl : ℕ
  pub skeyl : ℕ

-- A number in network order in memory.
abbrev pub load32 : (ℕ → ℕ) → ℕ → ℕ
load32 mem i = mem i * 2 ^ 24 + mem (i + 1) * 2 ^ 16 + mem (i + 2) * 2 ^ 8 + mem (i + 3)

-- The IV of counter mode: k_s xored with the SSRC and the index.
abbrev pub srtcp_cm_iv : List ℕ → ℕ → ℕ → List ℕ
srtcp_cm_iv k_s ssrc index =
    take 4 k_s
    ++ (xor_bytes (be32 ssrc) (drop 4 k_s)
        ++ (take 2 (drop 8 k_s) ++ (xor_bytes (be32 index) (drop 10 k_s) ++ (0 ∷ 0 ∷ []))))

-- `index | 0x80000000` and `index & ~0x80000000` of a uint32, and the test of the flag.
abbrev pub set_flag : ℕ → ℕ
set_flag index = index % 2 ^ 31 + 2 ^ 31

abbrev pub clear_flag : ℕ → ℕ
clear_flag index = index % 2 ^ 31

abbrev pub is_flagged : ℕ → Bool
is_flagged index = leb (2 ^ 31) (index % 2 ^ 32)

-- The IV of f8 mode: `header` are the first eight bytes that the caller passes.
abbrev pub srtcp_f8_iv : List ℕ → ℕ → List ℕ
srtcp_f8_iv header index = 0 ∷ 0 ∷ 0 ∷ 0 ∷ (be32 (set_flag index) ++ header)

-- A call on a NULL cipher is `none`.
abbrev pub with_f8 : Option SymCrypto → (SymCrypto → ℕ → ℕ) → Option (ℕ → ℕ)
with_f8 none run = none
with_f8 (some f8) run = some (run f8)

-- srtcpEncrypt of the `len` bytes from `pos` on.
unfoldable pub srtcp_encrypt :
    Encryption → SessionKeys → List ℕ → (ℕ → ℕ) → ℕ → ℕ → ℕ → ℕ → Option (ℕ → ℕ)
srtcp_encrypt ealg keys junk mem pos len index ssrc =
    let counter =
      keys.cipher >>= λ c. ctr_encrypt c mem pos (len % 2 ^ 32) (srtcp_cm_iv keys.k_s ssrc index) in
    let feedback = keys.cipher >>= λ c.
    with_f8 keys.f8_cipher
      (λ f8. f8_encrypt c f8 junk mem pos (len % 2 ^ 32) (srtcp_f8_iv (slice mem pos 8) index)) in
    elim ealg [
      | null ↦ some mem
      | aes_cm ↦ counter
      | two_cm ↦ counter
      | aes_f8 ↦ feedback
      | two_f8 ↦ feedback
    ]

-- The result of a MAC stands in 20 bytes on the stack, `tag_length` of which are copied; more are
-- read behind them. `old` is what stands where the tag goes.
unfoldable pub mac_tag : Authentication → SessionKeys → ℕ → List ℕ → List ℕ → Option (List ℕ)
mac_tag aalg keys tag_length message old =
    let tag = keys.mac >>= λ mac.
    if ltb 20 tag_length then none else some (take tag_length (mac message)) in
    elim aalg [ null ↦ some old | sha1_hmac ↦ tag | skein_hmac ↦ tag ]

-- srtcpAuthenticate of the first `len` bytes.
abbrev pub srtcp_authenticate : SrtcpContext → (ℕ → ℕ) → ℕ → ℕ → List ℕ → Option (List ℕ)
srtcp_authenticate c mem len index old =
    mac_tag c.control.aalg c.keys c.control.tag_length (slice mem 0 len ++ be32 index) old

-- What protect leaves: the packet, its length and the manager's next index.
pub record Protected : Type 0 where
  pub mem : ℕ → ℕ
  pub len : ℕ
  pub srtcp_index : ℕ

-- The first eight bytes stay in clear; a shorter length wraps, as a size_t does.
abbrev pub behind_header : ℕ → ℕ
behind_header len = (len + 2 ^ 64 - 8) % 2 ^ 64

unfoldable pub protect : SrtcpContext → ℕ → List ℕ → (ℕ → ℕ) → ℕ → Option Protected
protect c srtcp_index junk mem len = do
  let ssrc = load32 mem 4
  enciphered ← srtcp_encrypt c.control.ealg c.keys junk mem 8 (behind_header len) srtcp_index ssrc
  let index = set_flag srtcp_index
  let indexed = setbuffer enciphered (be32 index) len
  tag ← srtcp_authenticate c indexed len index (slice indexed (len + 4) c.control.tag_length)
  some (record {
    mem = setbuffer indexed tag (len + 4);
    len = len + c.control.tag_length + 4;
    srtcp_index = clear_flag (srtcp_index + 1);
  })

-- What unprotect returns: -2, -1, or the length of the packet.
pub data Verdict : Type 0 where
  replayed forged : Verdict
  accepted : ℕ → Verdict

pub record Unprotected : Type 0 where
  pub verdict : Verdict
  pub mem : ℕ → ℕ
  pub context : SrtcpContext

-- memcmp
abbrev pub equal_bytes : List ℕ → List ℕ → Bool
equal_bytes [] [] = true
equal_bytes [] (y ∷ ys) = false
equal_bytes (x ∷ xs) [] = false
equal_bytes (x ∷ xs) (y ∷ ys) = (x == y) && equal_bytes xs ys

-- The statements behind the tag's test. `payload_len` is a uint32.
abbrev pub open_packet : SrtcpContext → List ℕ → (ℕ → ℕ) → ℕ → ℕ → Option Unprotected
open_packet c junk mem payload_len index = do
  let ssrc = load32 mem 4
  let remote = clear_flag index
  deciphered ←
      if is_flagged index
      then srtcp_encrypt c.control.ealg c.keys junk mem 8 (behind_header payload_len) remote ssrc
      else some mem
  updated ← CryptoCtrl.update c.control remote
  some (record {
    verdict = accepted payload_len;
    mem = deciphered;
    context = record c { control = updated };
  })

-- unprotect with a context; `mac` is what the 20 bytes on the stack hold before. Nothing checks
-- that the packet is as long as what is taken off: the index and the tag of a shorter one are read
-- outside the buffer, `none`.
unfoldable pub unprotect : SrtcpContext → List ℕ → List ℕ → (ℕ → ℕ) → ℕ → Option Unprotected
unprotect c junk mac mem len =
    let tag_length = c.control.tag_length in
    let payload_len = (len + 2 ^ 64 - (tag_length + c.mki_length + 4)) % 2 ^ 32 in
    let index = load32 mem payload_len in
    let kept : Verdict → Unprotected = λ v. record { verdict = v; mem = mem; context = c } in
    if ltb len (tag_length + c.mki_length + 4)
    then none
    else if not (check_replay c.control (clear_flag index))
    then some (kept replayed)
    else srtcp_authenticate c mem payload_len index (take tag_length mac) >>= λ tag.
        if equal_bytes (slice mem (len - tag_length) tag_length) tag
        then open_packet c junk mem payload_len index
        else some (kept forged)
