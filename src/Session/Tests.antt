-- ===== src/Session/Tests.antt =====
-- The key derivation with a small library.
use ccrtp.Prelude.{◌≡◌, refl, none, some, replicate, arith}
use ccrtp.Crypto.{Encryption, Authentication}
use ccrtp.Cipher.Counter.{keyed}
use ccrtp.Session.{
  SessionKeys, new_session, derive_keys, derive_srtp_keys, derive_srtcp_keys, srtcp_iv,
}
use ccrtp.Session.Samples.{toy_library}
use ccrtp.Session.Derive.{Derived, derive_keys-Derived, new_session-derives_null}
use ccrtp.Cipher.Samples.{toy_block}

abbrev keys : SessionKeys
keys = record {
  master_key = replicate 16 9;
  master_salt = replicate 14 3;
  k_e = replicate 16 200;
  k_a = replicate 20 201;
  k_s = replicate 14 202;
  cipher = some (record { key = none; algorithm = Encryption.aes_cm });
  f8_cipher = none;
  mac = none;
}

derive_keys-Derived_example :
    (after : SessionKeys) × (derive_keys toy_library Authentication.sha1_hmac 10
        (replicate 16 0)
        (λ n. srtcp_iv n (replicate 14 3))
        keys
      ≡ some after)
    × Derived toy_library Authentication.sha1_hmac 10
        (replicate 16 0)
        (λ n. srtcp_iv n (replicate 14 3))
        (keyed Encryption.aes_cm (toy_block (replicate 16 9)))
        keys
        after
derive_keys-Derived_example =
    derive_keys-Derived toy_library Authentication.sha1_hmac 10 (replicate 16 0)
      (λ n. srtcp_iv n (replicate 14 3)) keys (record { key = none; algorithm = Encryption.aes_cm })
      refl refl refl (λ k b. refl) (omega arith) (omega arith) (omega arith)

new_session-derives_null_example :
    let keys =
      new_session
        (λ j. 170)
        Encryption.null
        Authentication.sha1_hmac
        (replicate 16 9)
        (replicate 14 3)
        0
        20
        0 in
    (derive_srtp_keys toy_library Authentication.sha1_hmac 10 0 0 (replicate 16 0) keys ≡ none)
    × (derive_srtcp_keys toy_library Authentication.sha1_hmac 10 (replicate 16 0) keys ≡ none)
new_session-derives_null_example =
    new_session-derives_null toy_library Authentication.sha1_hmac 10 0 0 (replicate 16 0) (λ j. 170)
      (replicate 16 9) (replicate 14 3) 0 20 0
