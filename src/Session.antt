-- ===== src/Session.antt =====
-- src/CryptoContext.cpp and src/CryptoContextCtrl.cpp: the session keys of an SRTP and an SRTCP
-- context, as the constructors set them up and the key derivation fills them.
pub mod Derive
pub mod Samples
mod Tests
use Prim.Native.Nat.{bit_xor, bit_or}
use ccrtp.Prelude.{
  ℕ, zero, suc, ◌+◌, ◌*◌, ◌/◌, ◌%◌, ◌^◌, List, [], ◌∷◌, ◌++◌, Bool, Option, none, some, ltb, ◌==◌,
  if◌then◌else◌, ◌>>=◌, length, get_or, set, take, drop, replicate,
}
use ccrtp.Crypto.{
  Encryption, null, aes_cm, aes_f8, two_cm, two_f8, Authentication, sha1_hmac, skein_hmac,
}
use ccrtp.Packet.Memory.{slice}
use ccrtp.Cipher.{
  BlockCiphers, SymCrypto, set_new_key, get_ctr_cipher_stream, f8_derive_for_iv, xor_bytes,
}

-- The calls of the cipher libraries and of the MACs. A MAC is a function of its key and the
-- message; Skein's also of its length in bits.
pub record Library : Type 0 where
  pub ciphers : BlockCiphers
  pub hmac_sha1 : List ℕ → List ℕ → List ℕ
  pub skein_mac : List ℕ → ℕ → List ℕ → List ℕ

-- The keys, the ciphers and the MAC of a context. `none` is a pointer that is NULL.
pub record SessionKeys : Type 0 where
  pub master_key : List ℕ
  pub master_salt : List ℕ
  pub k_e : List ℕ
  pub k_a : List ℕ
  pub k_s : List ℕ
  pub cipher : Option SymCrypto
  pub f8_cipher : Option SymCrypto
  pub mac : Option (List ℕ → List ℕ)

-- The sizes and the ciphers that a constructor chooses. The new buffers hold what `heap` does.
abbrev pub new_cipher : Encryption → SymCrypto
new_cipher a = record { key = none; algorithm = a }

abbrev pub auth_size : Authentication → ℕ → ℕ
auth_size null akeyl = 0
auth_size sha1_hmac akeyl = akeyl
auth_size skein_hmac akeyl = akeyl

-- `elen` and `slen` are n_e and n_s.
abbrev with_ciphers :
    (ℕ → ℕ) → List ℕ → List ℕ → ℕ → ℕ → ℕ → Option SymCrypto → Option SymCrypto → SessionKeys
with_ciphers heap master_key master_salt elen alen slen cipher f8_cipher = record {
  master_key = master_key;
  master_salt = master_salt;
  k_e = slice heap 0 elen;
  k_a = slice heap 0 alen;
  k_s = slice heap 0 slen;
  cipher = cipher;
  f8_cipher = f8_cipher;
  mac = none;
}

-- The part of both constructors that sets up the keys.
unfoldable pub new_session :
    (ℕ → ℕ) → Encryption → Authentication → List ℕ → List ℕ → ℕ → ℕ → ℕ → SessionKeys
new_session heap ealg aalg master_key master_salt ekeyl akeyl skeyl =
    let build = with_ciphers heap master_key master_salt in
    let alen = auth_size aalg akeyl in
    elim ealg [
      | null ↦ build 0 alen 0 none none
      | aes_cm ↦ build ekeyl alen skeyl (some (new_cipher aes_cm)) none
      | aes_f8 ↦ build ekeyl alen skeyl (some (new_cipher aes_cm)) (some (new_cipher aes_f8))
      | two_cm ↦ build ekeyl alen skeyl (some (new_cipher two_cm)) none
      | two_f8 ↦ build ekeyl alen skeyl (some (new_cipher two_cm)) (some (new_cipher two_f8))
    ]

-- The `n` lowest bytes of a number, in network order.
abbrev pub be : ℕ → ℕ → List ℕ
be zero x = []
be (suc n) x = (x / 256 ^ n % 256) ∷ be n x

-- computeIv of CryptoContext.cpp. `kdv` is not negative.
unfoldable pub srtp_iv : ℕ → ℕ → ℕ → List ℕ → List ℕ
srtp_iv label index kdv salt =
    let key_id =
      if kdv == 0
      then label * 2 ^ 48 % 2 ^ 64
      else bit_or (label * 2 ^ 48 % 2 ^ 64) (index / kdv) in
    take 7 salt ++ (xor_bytes (be 7 key_id) (drop 7 salt) ++ (0 ∷ 0 ∷ []))

-- computeIv of CryptoContextCtrl.cpp.
unfoldable pub srtcp_iv : ℕ → List ℕ → List ℕ
srtcp_iv label salt =
    let copied = take 14 salt in set copied 7 (bit_xor (get_or copied 7 0) label) ++ (0 ∷ 0 ∷ [])

-- get_ctr_cipher_stream over a whole key buffer.
unfoldable pub fill_key : SymCrypto → List ℕ → List ℕ → List ℕ → Option (List ℕ)
fill_key c temp buffer iv =
    get_ctr_cipher_stream c temp (λ i. get_or buffer i 0) 0 (length buffer) iv >>= λ filled.
    some (slice filled 0 (length buffer))

-- The MAC context under the authentication key.
abbrev pub create_mac :
    Library → Authentication → ℕ → List ℕ → Option (List ℕ → List ℕ) → Option (List ℕ → List ℕ)
create_mac lib aalg tag_length k_a old = elim aalg [
  | null ↦ old
  | sha1_hmac ↦ some (lib.hmac_sha1 k_a)
  | skein_hmac ↦ some (lib.skein_mac k_a (tag_length * 8))
]

abbrev pub erased : List ℕ → List ℕ
erased k = replicate (length k) 0

-- A cipher object that may be missing gets its key.
abbrev pub derive_f8 : BlockCiphers → Option SymCrypto → List ℕ → List ℕ → Option SymCrypto
derive_f8 lib none k_e k_s = none
derive_f8 lib (some f8) k_e k_s = some (f8_derive_for_iv lib f8 k_e k_s)

-- The statements that deriveSrtpKeys and deriveSrtcpKeys share; `iv` gives the IV for the
-- encryption key, the authentication key and the salt. A call on a NULL cipher is `none`.
unfoldable pub derive_keys :
    Library → Authentication → ℕ → List ℕ → (ℕ → List ℕ) → SessionKeys → Option SessionKeys
derive_keys lib aalg tag_length temp iv keys = do
  c ← keys.cipher
  let master = (set_new_key lib.ciphers c keys.master_key).1
  k_e ← fill_key master temp keys.k_e (iv 0)
  k_a ← fill_key master temp keys.k_a (iv 1)
  k_s ← fill_key master temp keys.k_s (iv 2)
  some (record keys {
    master_key = erased keys.master_key;
    master_salt = erased keys.master_salt;
    k_e = erased k_e;
    k_a = erased k_a;
    k_s = k_s;
    cipher = some (set_new_key lib.ciphers master k_e).1;
    f8_cipher = derive_f8 lib.ciphers keys.f8_cipher k_e k_s;
    mac = create_mac lib aalg tag_length k_a keys.mac;
  })

unfoldable pub derive_srtp_keys :
    Library → Authentication → ℕ → ℕ → ℕ → List ℕ → SessionKeys → Option SessionKeys
derive_srtp_keys lib aalg tag_length index kdv temp keys =
    derive_keys lib aalg tag_length temp (λ n. srtp_iv n index kdv keys.master_salt) keys

unfoldable pub derive_srtcp_keys :
    Library → Authentication → ℕ → List ℕ → SessionKeys → Option SessionKeys
derive_srtcp_keys lib aalg tag_length temp keys =
    derive_keys lib aalg tag_length temp (λ n. srtcp_iv (n + 3) keys.master_salt) keys
