-- ===== src/Session/Derive.antt =====
-- CryptoContext::deriveSrtpKeys and CryptoContextCtrl::deriveSrtcpKeys.
use ccrtp.Prelude.{
  ℕ, ◌/◌, ◌%◌, ◌<◌, ◌≡◌, refl, ap, List, none, some, true, length, replicate, arith, ◌>>=◌, get_or,
}
use ccrtp.Crypto.{Encryption, null, aes_cm, Authentication}
use ccrtp.Packet.Memory.{slice, length-slice}
use ccrtp.Cipher.{
  BlockCiphers, SymCrypto, set_new_key, aes_key, is_aes_length, get_ctr_cipher_stream,
}
use ccrtp.Cipher.Counter.{keyed, over, key_stream}
use ccrtp.Cipher.Stream.{max_ctr_len}
use ccrtp.Session.{
  Library, SessionKeys, new_session, fill_key, erased, derive_keys, derive_srtp_keys,
  derive_srtcp_keys, create_mac, derive_f8,
}

-- The stream fills a buffer whose length the counter can count, and nothing else.
fill_key-some :
    (a : Encryption) (e : List ℕ → List ℕ) (temp buffer iv : List ℕ)
    → ((b : List ℕ) → length (e b) ≡ 16)
    → length buffer < max_ctr_len
    → (k : List ℕ) × (fill_key (keyed a e) temp buffer iv ≡ some k) × (length k ≡ length buffer)
unfolding fill_key get_ctr_cipher_stream
fill_key-some a e temp buffer iv f h =
    let n = length buffer in
    let s =
      key_stream a e temp (n / 16) iv 0 (n / 16) (n % 16) 0 0 n (omega arith) (omega arith)
        (omega arith) (omega arith) (omega arith) in
    let out : ℕ → ℕ = λ i. get_or buffer i 0 in
    (
      slice (over s.mask 0 n out) 0 n,
      ap (λ o. o >>= λ filled. some (slice filled 0 n)) (s.streams f out),
      length-slice (over s.mask 0 n out) 0 n,
    )

set_new_key-aes :
    (lib : BlockCiphers) (c : SymCrypto) (k : List ℕ)
    → c.algorithm ≡ aes_cm
    → is_aes_length (length k) ≡ true
    → (set_new_key lib c k).1 ≡ keyed aes_cm (lib.aes k)
unfolding set_new_key aes_key
set_new_key-aes lib c k a h = rw (set_new_key, a, aes_key, h) (ap (λ x. new_key lib k x) a)
  where
    new_key : BlockCiphers → List ℕ → Encryption → SymCrypto
    new_key lib k x = record { key = some (lib.aes k); algorithm = x }

-- What the derivation leaves behind. The master key and salt and the buffers of the encryption
-- and the authentication key hold nothing but zeros.
pub record Derived (lib : Library) (aalg : Authentication) (tag_length : ℕ) (temp : List ℕ)
    (iv : ℕ → List ℕ) (master : SymCrypto) (before after : SessionKeys) : Type 0 where
  pub encryption_key : List ℕ
  pub authentication_key : List ℕ
  pub size : length encryption_key ≡ length before.k_e
  pub first : fill_key master temp before.k_e (iv 0) ≡ some encryption_key
  pub second : fill_key master temp before.k_a (iv 1) ≡ some authentication_key
  pub third : fill_key master temp before.k_s (iv 2) ≡ some after.k_s
  pub cipher : after.cipher ≡ some (set_new_key lib.ciphers master encryption_key).1
  pub mac : after.mac ≡ create_mac lib aalg tag_length authentication_key before.mac
  pub no_master_key : after.master_key ≡ erased before.master_key
  pub no_master_salt : after.master_salt ≡ erased before.master_salt
  pub no_encryption_key : after.k_e ≡ erased before.k_e
  pub no_authentication_key : after.k_a ≡ erased before.k_a

erased_same : (k l : List ℕ) → length k ≡ length l → erased k ≡ erased l
erased_same k l h = ap (λ n. replicate n 0) h

-- With an AES cipher, a master key of 16 or 32 bytes, blocks of 16 bytes, and buffers of fewer than
-- 2 ^ 20 bytes, the key derivation ends. The three session keys are the streams of the master
-- key for the three IVs, the cipher and the MAC are set up with the first two, and of the master
-- key, the master salt and those two keys only zeros are left.
pub derive_keys-Derived :
    (lib : Library) (aalg : Authentication) (tag_length : ℕ) (temp : List ℕ) (iv : ℕ → List ℕ)
    (keys : SessionKeys) (c : SymCrypto)
    → keys.cipher ≡ some c
    → c.algorithm ≡ aes_cm
    → is_aes_length (length keys.master_key) ≡ true
    → ((k b : List ℕ) → length (lib.ciphers.aes k b) ≡ 16)
    → length keys.k_e < max_ctr_len
    → length keys.k_a < max_ctr_len
    → length keys.k_s < max_ctr_len
    → (after : SessionKeys) × (derive_keys lib aalg tag_length temp iv keys ≡ some after)
      × Derived lib aalg tag_length temp iv
          (keyed aes_cm (lib.ciphers.aes keys.master_key))
          keys
          after
unfolding derive_keys
derive_keys-Derived lib aalg tag_length temp iv keys c p a h blocks he ha hs =
    let e = lib.ciphers.aes keys.master_key in
    let master : (set_new_key lib.ciphers c keys.master_key).1 ≡ keyed aes_cm e =
      set_new_key-aes lib.ciphers c keys.master_key a h in
    let (k_e, fe, le) = fill_key-some aes_cm e temp keys.k_e (iv 0) (blocks keys.master_key) he in
    let (k_a, fa, la) = fill_key-some aes_cm e temp keys.k_a (iv 1) (blocks keys.master_key) ha in
    let (k_s, fs, ls) = fill_key-some aes_cm e temp keys.k_s (iv 2) (blocks keys.master_key) hs in
    (
      record keys {
        master_key = erased keys.master_key;
        master_salt = erased keys.master_salt;
        k_e = erased k_e;
        k_a = erased k_a;
        k_s = k_s;
        cipher = some (set_new_key lib.ciphers (keyed aes_cm e) k_e).1;
        f8_cipher = derive_f8 lib.ciphers keys.f8_cipher k_e k_s;
        mac = create_mac lib aalg tag_length k_a keys.mac;
      },
      rw (derive_keys, p, master, fe, fa, fs) refl,
      record {
        encryption_key = k_e;
        authentication_key = k_a;
        size = le;
        first = fe;
        second = fa;
        third = fs;
        cipher = refl;
        mac = refl;
        no_master_key = refl;
        no_master_salt = refl;
        no_encryption_key = erased_same k_e keys.k_e le;
        no_authentication_key = erased_same k_a keys.k_a la;
      },
    )

-- For a context with authentication but without encryption the constructor makes no cipher, and the
-- derivation of either kind calls a method of the missing one.
pub new_session-derives_null :
    (lib : Library) (aalg : Authentication) (tag_length index kdv : ℕ) (temp : List ℕ)
    (heap : ℕ → ℕ) (key salt : List ℕ) (ekeyl akeyl skeyl : ℕ)
    → let keys = new_session heap null aalg key salt ekeyl akeyl skeyl in
      (derive_srtp_keys lib aalg tag_length index kdv temp keys ≡ none)
      × (derive_srtcp_keys lib aalg tag_length temp keys ≡ none)
unfolding new_session derive_srtp_keys derive_srtcp_keys derive_keys
new_session-derives_null lib aalg tag_length index kdv temp heap key salt ekeyl akeyl skeyl =
    (refl, refl)
