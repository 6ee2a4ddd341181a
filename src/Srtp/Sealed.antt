-- ===== src/Srtp/Sealed.antt =====
-- src/CryptoContext.cpp: srtpEncrypt as a mask of the payload.
use ccrtp.Prelude.{ℕ, ◌+◌, ◌<◌, ◌≡◌, ◌∙◌, inl, inr, List, some, arith}
use ccrtp.Crypto.{Encryption, null, aes_cm, aes_f8, two_cm, two_f8}
use ccrtp.Packet.{RtpPacket, setbuffer}
use ccrtp.Packet.Memory.{slice, setbuffer_before, slice_congr_within}
use ccrtp.Cipher.Mask.{masked, masked-zero, IsMask}
use ccrtp.Cipher.Stream.{ctr_encrypt-Masks, max_ctr_len}
use ccrtp.Session.{SessionKeys}
use ccrtp.Srtcp.Enciphering.{CanEncipher, Masks-none}
use ccrtp.Srtp.{srtp_encrypt, srtp_cm_iv, body_size}

-- One mask for all packets with this header and body.
pub record BodyMask (ealg : Encryption) (keys : SessionKeys) (hdr n index ssrc : ℕ) : Type 0 where
  pub mask : ℕ → ℕ
  pub only : IsMask mask hdr n
  pub encrypts :
      (roc : ℕ) (junk : List ℕ) (p : RtpPacket)
      → p.hdr_size ≡ hdr
      → body_size p ≡ n
      → srtp_encrypt ealg keys roc junk p index ssrc ≡ some (masked p.buffer.bytes mask)

no_mask : (keys : SessionKeys) (hdr n index ssrc : ℕ) → BodyMask null keys hdr n index ssrc
unfolding srtp_encrypt
no_mask keys hdr n index ssrc =
    let k = Masks-none hdr n in
    record { mask = k.mask; only = k.only; encrypts = λ roc junk p e f. k.encrypts p.buffer.bytes }

pub srtp_encrypt-BodyMask :
    (ealg : Encryption) (keys : SessionKeys) (hdr n index ssrc : ℕ)
    → CanEncipher ealg keys
    → n < max_ctr_len
    → BodyMask ealg keys hdr n index ssrc
unfolding srtp_encrypt
srtp_encrypt-BodyMask ealg keys hdr n index ssrc (inl p) h = rw p (no_mask keys hdr n index ssrc)
srtp_encrypt-BodyMask null keys hdr n index ssrc (inr q) h = no_mask keys hdr n index ssrc
srtp_encrypt-BodyMask aes_cm keys hdr n index ssrc (inr (p, (c, q))) h =
    let k = ctr_encrypt-Masks c hdr n (srtp_cm_iv keys.k_s ssrc index) h in
    record {
      mask = k.mask;
      only = k.only;
      encrypts = λ roc junk p e f. rw (srtp_encrypt, q, e, f) (k.encrypts p.buffer.bytes);
    }
srtp_encrypt-BodyMask two_cm keys hdr n index ssrc (inr (p, (c, q))) h =
    let k = ctr_encrypt-Masks c hdr n (srtp_cm_iv keys.k_s ssrc index) h in
    record {
      mask = k.mask;
      only = k.only;
      encrypts = λ roc junk p e f. rw (srtp_encrypt, q, e, f) (k.encrypts p.buffer.bytes);
    }
srtp_encrypt-BodyMask aes_f8 keys hdr n index ssrc (inr (p, q)) h = absurd (cc p)
srtp_encrypt-BodyMask two_f8 keys hdr n index ssrc (inr (p, q)) h = absurd (cc p)

-- The memory of a protected packet without padding.
module _ (mem mask : ℕ → ℕ) (hdr n : ℕ) (tag : List ℕ) (only : IsMask mask hdr n) where
  abbrev pub sealed : ℕ → ℕ
  sealed = setbuffer (masked mem mask) tag (hdr + n)

  pub sealed_before : (j : ℕ) → j < hdr + n → sealed j ≡ masked mem mask j
  sealed_before j h = setbuffer_before (masked mem mask) tag (hdr + n) j h

  pub sealed_header : (j : ℕ) → j < hdr → sealed j ≡ mem j
  sealed_header j h = sealed_before j (omega arith) ∙ masked-zero mem mask j (only.before j h)

  pub sealed_message : slice sealed 0 (hdr + n) ≡ slice (masked mem mask) 0 (hdr + n)
  sealed_message =
      slice_congr_within sealed (masked mem mask) 0 (hdr + n)
        (λ j le lt. sealed_before j (omega arith))
