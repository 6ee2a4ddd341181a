-- ===== src/Srtp/Clear.antt =====
-- CryptoContext::deriveSrtpKeys ignores the result of setNewKey: an AES session key of another
-- length than 16 or 32 bytes leaves the cipher without a key.
use ccrtp.Prelude.{ℕ, ◌<◌, ◌≡◌, refl, ap, ◌∙◌, List, some, none, true, false, length}
use ccrtp.Crypto.{aes_cm, Authentication}
use ccrtp.Packet.{RtpPacket}
use ccrtp.Cipher.{BlockCiphers, SymCrypto, set_new_key, aes_key, is_aes_length, ctr_encrypt}
use ccrtp.Cipher.Counter.{keyed}
use ccrtp.Cipher.Stream.{max_ctr_len}
use ccrtp.Session.{Library, SessionKeys, derive_keys}
use ccrtp.Session.Derive.{derive_keys-Derived}
use ccrtp.Srtp.{srtp_encrypt}

set_new_key-refused :
    (lib : BlockCiphers) (e : List ℕ → List ℕ) (k : List ℕ)
    → is_aes_length (length k) ≡ false
    → (set_new_key lib (keyed aes_cm e) k).1 ≡ record { key = none; algorithm = aes_cm }
unfolding set_new_key aes_key
set_new_key-refused lib e k h = rw (set_new_key, aes_key, h) refl

keyless :
    (keys : SessionKeys) (roc : ℕ) (junk : List ℕ) (p : RtpPacket) (index ssrc : ℕ)
    → keys.cipher ≡ some (record { key = none; algorithm = aes_cm })
    → srtp_encrypt aes_cm keys roc junk p index ssrc ≡ some p.buffer.bytes
unfolding srtp_encrypt ctr_encrypt
keyless keys roc junk p index ssrc h = rw (srtp_encrypt, h) refl

-- With an AES cipher, a valid master key and blocks of 16 bytes, but a session key that is neither 16
-- nor 32 bytes long, the derivation ends without an error, and srtpEncrypt in counter mode then
-- leaves every packet as it is.
pub derive_keys-clear :
    (lib : Library) (aalg : Authentication) (tag_length : ℕ) (temp : List ℕ) (iv : ℕ → List ℕ)
    (keys : SessionKeys) (c : SymCrypto)
    → keys.cipher ≡ some c
    → c.algorithm ≡ aes_cm
    → is_aes_length (length keys.master_key) ≡ true
    → is_aes_length (length keys.k_e) ≡ false
    → ((k b : List ℕ) → length (lib.ciphers.aes k b) ≡ 16)
    → length keys.k_e < max_ctr_len
    → length keys.k_a < max_ctr_len
    → length keys.k_s < max_ctr_len
    → (after : SessionKeys) × (derive_keys lib aalg tag_length temp iv keys ≡ some after)
      × ((roc : ℕ) (junk : List ℕ) (p : RtpPacket) (index ssrc : ℕ)
          → srtp_encrypt aes_cm after roc junk p index ssrc ≡ some p.buffer.bytes)
derive_keys-clear lib aalg tag_length temp iv keys c p a h bad blocks he ha hs =
    let (after, ran, d) =
      derive_keys-Derived lib aalg tag_length temp iv keys c p a h blocks he ha hs in
    (
      after,
      ran,
      λ roc junk p index ssrc. keyless after roc junk p index ssrc (
          d.cipher
          ∙ ap some (
              set_new_key-refused lib.ciphers (lib.ciphers.aes keys.master_key) d.encryption_key
                (ap is_aes_length d.size ∙ bad))),
    )
