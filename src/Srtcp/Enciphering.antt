-- ===== src/Srtcp/Enciphering.antt =====
-- src/CryptoContextCtrl.cpp: srtcpEncrypt as a mask, and the tag as a function of the message.
use ccrtp.Prelude.{
  ℕ, ◌%◌, ◌^◌, ◌≤◌, ◌<◌, ◌≡◌, ◌≢◌, refl, sym, ap, ◌⊎◌, inl, inr, List, [], ◌∷◌, Bool, true, false,
  some, ltb, length, take, length-take, arith,
}
use ccrtp.Crypto.{
  Encryption, null, aes_cm, aes_f8, two_cm, two_f8, Authentication, sha1_hmac, skein_hmac,
}
use ccrtp.Cipher.{SymCrypto}
use ccrtp.Cipher.Xor.{bit_xor-zero}
use ccrtp.Cipher.Mask.{ext}
use ccrtp.Cipher.Stream.{Masks, ctr_encrypt-Masks, max_ctr_len}
use ccrtp.Session.{SessionKeys}
use ccrtp.Srtcp.{srtcp_encrypt, srtcp_cm_iv, mac_tag}

-- No encryption, or counter mode with a cipher.
abbrev pub is_counter_mode : Encryption → Bool
is_counter_mode null = false
is_counter_mode aes_cm = true
is_counter_mode aes_f8 = false
is_counter_mode two_cm = true
is_counter_mode two_f8 = false

abbrev pub CanEncipher : Encryption → SessionKeys → Type 0
CanEncipher ealg keys =
    (ealg ≡ null) ⊎ ((is_counter_mode ealg ≡ true) × ((c : SymCrypto) × (keys.cipher ≡ some c)))

-- Nothing is changed.
pub Masks-none : (pos n : ℕ) → Masks (λ mem. some mem) pos n
Masks-none pos n = record {
  mask = λ j. 0;
  only = record { before = λ j h. refl; behind = λ j h. refl };
  encrypts = λ mem. ap some (ext (λ j. sym (bit_xor-zero (mem j))));
}

pub srtcp_encrypt-Masks :
    (ealg : Encryption) (keys : SessionKeys) (junk : List ℕ) (pos len index ssrc : ℕ)
    → CanEncipher ealg keys
    → len < max_ctr_len
    → Masks (λ mem. srtcp_encrypt ealg keys junk mem pos len index ssrc) pos len
unfolding srtcp_encrypt
srtcp_encrypt-Masks ealg keys junk pos len index ssrc (inl p) h = rw p (Masks-none pos len)
srtcp_encrypt-Masks null keys junk pos len index ssrc (inr (p, (c, q))) h = Masks-none pos len
srtcp_encrypt-Masks aes_cm keys junk pos len index ssrc (inr (p, (c, q))) h =
    let fits : len % 2 ^ 32 ≡ len = omega arith in
    rw (srtcp_encrypt, q, fits) (ctr_encrypt-Masks c pos len (srtcp_cm_iv keys.k_s ssrc index) h)
srtcp_encrypt-Masks two_cm keys junk pos len index ssrc (inr (p, (c, q))) h =
    let fits : len % 2 ^ 32 ≡ len = omega arith in
    rw (srtcp_encrypt, q, fits) (ctr_encrypt-Masks c pos len (srtcp_cm_iv keys.k_s ssrc index) h)
srtcp_encrypt-Masks aes_f8 keys junk pos len index ssrc (inr (p, (c, q))) h = absurd (cc p)
srtcp_encrypt-Masks two_f8 keys junk pos len index ssrc (inr (p, (c, q))) h = absurd (cc p)

-- No authentication and no tag, or a MAC of 20 bytes of which the tag is the first part.
abbrev pub CanAuthenticate : Authentication → SessionKeys → ℕ → Type 0
CanAuthenticate aalg keys n =
    ((aalg ≡ null) × (n ≡ 0))
    ⊎ ((aalg ≢ null)
        × (n ≤ 20)
        × ((mac : List ℕ → List ℕ) × (keys.mac ≡ some mac) × ((m : List ℕ) → length (mac m) ≡ 20)))

-- The tag as a function of the message.
pub record Tags (aalg : Authentication) (keys : SessionKeys) (n : ℕ) : Type 0 where
  pub tag : List ℕ → List ℕ
  pub tag_size : (m : List ℕ) → length (tag m) ≡ n
  pub computes : (m old : List ℕ) → length old ≤ n → mac_tag aalg keys n m old ≡ some (tag m)

empty : (xs : List ℕ) → length xs ≤ 0 → xs ≡ []
empty [] h = refl
empty (x ∷ xs) h = absurd (omega arith)

mac_tag-first :
    (aalg : Authentication) (keys : SessionKeys) (n : ℕ) (mac : List ℕ → List ℕ) (m old : List ℕ)
    → aalg ≢ null
    → n ≤ 20
    → keys.mac ≡ some mac
    → mac_tag aalg keys n m old ≡ some (take n (mac m))
unfolding mac_tag
mac_tag-first null keys n mac m old p h q = absurd (p refl)
mac_tag-first sha1_hmac keys n mac m old p h q =
    let short : ltb 20 n ≡ false = ground arith in rw (mac_tag, q, short)
mac_tag-first skein_hmac keys n mac m old p h q =
    let short : ltb 20 n ≡ false = ground arith in rw (mac_tag, q, short)

pub CanAuthenticate-Tags :
    (aalg : Authentication) (keys : SessionKeys) (n : ℕ)
    → CanAuthenticate aalg keys n
    → Tags aalg keys n
unfolding mac_tag
CanAuthenticate-Tags aalg keys n (inl (p, q)) = record {
  tag = λ m. [];
  tag_size = λ m. sym q;
  computes = λ m old h. rw p (ap some (empty old (omega arith)));
}
CanAuthenticate-Tags aalg keys n (inr (p, h, (mac, q, l))) = record {
  tag = λ m. take n (mac m);
  tag_size = λ m. omega (arith, length-take n (mac m), l m);
  computes = λ m old b. mac_tag-first aalg keys n mac m old p h q;
}
