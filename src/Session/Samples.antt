-- ===== src/Session/Samples.antt =====
-- Small libraries, keys and contexts for the tests.
use ccrtp.Prelude.{ℕ, ◌+◌, ◌*◌, ◌%◌, List, [], ◌∷◌, none, some, get_or, replicate}
use ccrtp.Crypto.{Encryption}
use ccrtp.Cipher.Counter.{keyed}
use ccrtp.Cipher.Samples.{toy_block, sample_key}
use ccrtp.Session.{Library, SessionKeys}

-- A sum over the message in 20 bytes.
abbrev checksum : List ℕ → ℕ
checksum [] = 1
checksum (x ∷ xs) = (x + checksum xs * 3) % 256

abbrev pub toy_mac : List ℕ → List ℕ → List ℕ
toy_mac k m = checksum m ∷ replicate 19 ((get_or k 0 0 + checksum m * 5) % 256)

abbrev pub toy_library : Library
toy_library = record {
  ciphers = record { aes = toy_block; twofish = toy_block };
  hmac_sha1 = toy_mac;
  skein_mac = λ k bits. toy_mac k;
}

-- The keys of a session after the derivation.
abbrev pub sample_keys : SessionKeys
sample_keys = record {
  master_key = replicate 16 0;
  master_salt = replicate 14 0;
  k_e = replicate 16 0;
  k_a = replicate 20 0;
  k_s = 1 ∷ 2 ∷ 3 ∷ 4 ∷ 5 ∷ 6 ∷ 7 ∷ 8 ∷ 9 ∷ 10 ∷ 11 ∷ 12 ∷ 13 ∷ 14 ∷ [];
  cipher = some (keyed Encryption.aes_cm (toy_block sample_key));
  f8_cipher = none;
  mac = some (toy_mac sample_key);
}
