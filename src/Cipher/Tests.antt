-- ===== src/Cipher/Tests.antt =====
-- The modes of SrtpSymCrypto on a small block cipher.
use ccrtp.Prelude.{ℕ, ◌/◌, ◌%◌, ◌^◌, ◌≡◌, refl, List, none, some, [], ◌∷◌, ◌>>=◌, replicate, arith}
use ccrtp.Crypto.{Encryption}
use ccrtp.Packet.Memory.{slice}
use ccrtp.Cipher.{SymCrypto, ctr_encrypt, get_ctr_cipher_stream, ctr_from, f8_encrypt, f8_from}
use ccrtp.Cipher.Mask.{masked}
use ccrtp.Cipher.Counter.{keyed}
use ccrtp.Cipher.Stream.{ctr_encrypt-get_ctr_cipher_stream, ctr_encrypt_endless}
use ccrtp.Cipher.Feedback.{f8_encrypt-f8_encrypt}
use ccrtp.Cipher.Samples.{toy_block, sample_key, sample_memory}

abbrev cipher : SymCrypto
cipher = keyed Encryption.aes_cm (toy_block sample_key)

abbrev iv : List ℕ
iv = replicate 16 5

-- 35 bytes are two blocks and three bytes.
ctr_encrypt-get_ctr_cipher_stream_example : ctr_encrypt cipher sample_memory 12 35 iv ≡ (
    get_ctr_cipher_stream cipher [] (λ j. 0) 12 35 iv >>= λ stream.
    some (masked sample_memory stream))
ctr_encrypt-get_ctr_cipher_stream_example =
    ctr_encrypt-get_ctr_cipher_stream Encryption.aes_cm (toy_block sample_key) [] iv sample_memory
      12 35 (λ b. refl) (omega arith)

ctr_encrypt_endless_example :
    ctr_from 1000 (toy_block sample_key) iv 0 (2 ^ 20 / 16) (2 ^ 20 % 16) sample_memory 12 ≡ none
ctr_encrypt_endless_example =
    ctr_encrypt_endless 1000 (2 ^ 20) (toy_block sample_key) iv sample_memory 12 (omega arith)

f8_encrypt-f8_encrypt_example :
    f8_encrypt cipher cipher [] (f8_encrypt cipher cipher [] sample_memory 12 35 iv) 12 35 iv
    ≡ sample_memory
f8_encrypt-f8_encrypt_example = f8_encrypt-f8_encrypt cipher cipher [] sample_memory 12 35 iv

-- The bytes around the data stay, and the data changes.
ctr_run :
    (ctr_encrypt cipher sample_memory 4 3 iv >>= λ m. some (slice m 2 6))
    ≡ some (17 ∷ 24 ∷ 77 ∷ 35 ∷ 40 ∷ 52 ∷ [])
unfolding ctr_encrypt ctr_from slice
ctr_run = refl

f8_run :
    slice (f8_encrypt cipher cipher [] sample_memory 4 3 iv) 2 6 ≡ 17 ∷ 24 ∷ 146 ∷ 50 ∷ 57 ∷ 52 ∷ []
unfolding f8_encrypt f8_from slice
f8_run = refl
