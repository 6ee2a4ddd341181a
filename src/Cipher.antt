-- ===== src/Cipher.antt =====
-- src/ccrtp/crypto/gcrypt/gcryptSrtpSymCrypto.cpp: counter mode and f8 mode over a block cipher.
-- The modes stand with the same text in crypto/openssl/SrtpSymCrypto.cpp. AES is libgcrypt's and
-- Twofish a library that the repository carries a copy of; both are parameters.
pub mod Xor
pub mod Mask
pub mod Counter
pub mod Stream
pub mod Feedback
pub mod Samples
mod Tests
use Prim.Native.Nat.{bit_xor}
use ccrtp.Prelude.{
  ℕ, zero, suc, ◌+◌, ◌-◌, ◌*◌, ◌/◌, ◌%◌, ◌^◌, List, [], ◌∷◌, ◌++◌, Bool, true, false, ◌&&◌, Option,
  none, some, ltb, leb, ◌==◌, if◌then◌else◌, length, get_or, set, take, drop, replicate,
}
use ccrtp.Crypto.{Encryption, null, aes_cm, aes_f8, two_cm, two_f8}
use ccrtp.Packet.{setbuffer, be32}
use ccrtp.Packet.Memory.{slice}

abbrev pub block_size : ℕ
block_size = 16

-- What the class calls of the cipher libraries: a block cipher for each key.
pub record BlockCiphers : Type 0 where
  pub aes : List ℕ → List ℕ → List ℕ
  pub twofish : List ℕ → List ℕ → List ℕ

-- The class's members. A key that is not NULL is the block cipher under that key.
pub record SymCrypto : Type 0 where
  pub key : Option (List ℕ → List ℕ)
  pub algorithm : Encryption

-- The two key lengths that AES has.
abbrev pub is_aes_length : ℕ → Bool
is_aes_length n = if n == 16 then true else n == 32

unfoldable pub aes_key : BlockCiphers → SymCrypto → List ℕ → Bool × SymCrypto
aes_key lib c k =
    if is_aes_length (length k)
    then (true, record c { key = some (lib.aes k) })
    else (false, record c { key = none })

unfoldable pub set_new_key : BlockCiphers → SymCrypto → List ℕ → Bool × SymCrypto
set_new_key lib c k = elim c.algorithm [
  | null ↦ (false, c)
  | aes_cm ↦ aes_key lib c k
  | aes_f8 ↦ aes_key lib c k
  | two_cm ↦ (true, record c { key = some (lib.twofish k) })
  | two_f8 ↦ (true, record c { key = some (lib.twofish k) })
]

-- `output` is what stands in the output block before.
abbrev pub encrypt : SymCrypto → List ℕ → List ℕ → List ℕ
encrypt c input output = elim c.key [ none ↦ output | some e ↦ e input ]

-- `iv` with the counter in its last two bytes.
abbrev pub counted : List ℕ → ℕ → List ℕ
counted iv ctr = set (set iv 14 (ctr / 256 % 256)) 15 (ctr % 256)

-- Is `j` one of the `n` bytes from `pos` on?
abbrev pub within : ℕ → ℕ → ℕ → Bool
within pos n j = leb pos j && ltb j (pos + n)

-- `n` bytes from `pos` on, each xored with its byte of `temp`.
abbrev pub xor_at : (ℕ → ℕ) → ℕ → ℕ → List ℕ → ℕ → ℕ
xor_at mem pos n temp j =
    if within pos n j then bit_xor (mem j) (get_or temp (j - pos) 0) else mem j

-- The rest of get_ctr_cipher_stream from counter `ctr` on, of `l` whole blocks and `r` bytes. The
-- counter is a uint16. `temp` is the block on the stack. Out of fuel is `none`.
unfoldable pub stream_from :
    ℕ → SymCrypto → List ℕ → List ℕ → ℕ → ℕ → ℕ → (ℕ → ℕ) → ℕ → Option (ℕ → ℕ)
stream_from zero c temp iv ctr l r out pos = none
stream_from (suc fuel) c temp iv ctr l r out pos =
    let iv' = counted iv ctr in
    let here = pos + ctr * block_size in
    elim (ltb ctr l) [
      | true ↦
          stream_from fuel c temp iv' ((ctr + 1) % 2 ^ 16) l r
            (setbuffer out (encrypt c iv' (slice out here block_size)) here) pos
      | false ↦ some (if ltb 0 r then setbuffer out (take r (encrypt c iv' temp)) here else out)
    ]

-- One step of fuel for each block and one for the rest: where the blocks outnumber the counter's
-- values, the loop has no end.
unfoldable pub get_ctr_cipher_stream :
    SymCrypto → List ℕ → (ℕ → ℕ) → ℕ → ℕ → List ℕ → Option (ℕ → ℕ)
get_ctr_cipher_stream c temp out pos len iv =
    stream_from (suc (len / block_size)) c temp iv 0 (len / block_size) (len % block_size) out pos

-- The rest of ctr_encrypt in place. `pos` is where `data` points to.
unfoldable pub ctr_from : ℕ → (List ℕ → List ℕ) → List ℕ → ℕ → ℕ → ℕ → (ℕ → ℕ) → ℕ → Option (ℕ → ℕ)
ctr_from zero e iv ctr l r mem pos = none
ctr_from (suc fuel) e iv ctr l r mem pos =
    let iv' = counted iv ctr in
    elim (ltb ctr l) [
      | true ↦
          ctr_from fuel e iv' ((ctr + 1) % 2 ^ 16) l r (xor_at mem pos block_size (e iv'))
            (pos + block_size)
      | false ↦ some (if ltb 0 r then xor_at mem pos r (e iv') else mem)
    ]

unfoldable pub ctr_encrypt : SymCrypto → (ℕ → ℕ) → ℕ → ℕ → List ℕ → Option (ℕ → ℕ)
ctr_encrypt c mem pos len iv = elim c.key [
  | none ↦ some mem
  | some e ↦ ctr_from (suc (len / block_size)) e iv 0 (len / block_size) (len % block_size) mem pos
]

-- Byte by byte, as far as both go.
abbrev pub xor_bytes : List ℕ → List ℕ → List ℕ
xor_bytes [] ys = []
xor_bytes (x ∷ xs) [] = []
xor_bytes (x ∷ xs) (y ∷ ys) = bit_xor x y ∷ xor_bytes xs ys

-- F8_CIPHER_CTX: IV', the key stream block and the counter.
pub record F8Context : Type 0 where
  pub iv_accent : List ℕ
  pub s : List ℕ
  pub j : ℕ

-- The key stream block that processBlock computes, and the counter behind it.
abbrev pub next_block : (List ℕ → List ℕ) → F8Context → F8Context
next_block e x =
    let masked = xor_bytes x.s x.iv_accent in
    let numbered = take 12 masked ++ xor_bytes (drop 12 masked) (be32 x.j) in
    record x { s = e numbered; j = (x.j + 1) % 2 ^ 32 }

-- processBlock in place.
abbrev pub process_block : (List ℕ → List ℕ) → F8Context → (ℕ → ℕ) → ℕ → ℕ → F8Context × (ℕ → ℕ)
process_block e x mem pos n = let x' = next_block e x in (x', xor_at mem pos n x'.s)

-- The loop of f8_encrypt over `l` whole blocks, and the `r` bytes behind.
unfoldable pub f8_from : ℕ → (List ℕ → List ℕ) → F8Context → ℕ → (ℕ → ℕ) → ℕ → ℕ → ℕ
f8_from zero e x r mem pos = if ltb 0 r then (process_block e x mem pos r).1 else mem
f8_from (suc l) e x r mem pos =
    let (x', mem') = process_block e x mem pos block_size in
    f8_from l e x' r mem' (pos + block_size)

-- f8_encrypt in place. `junk` is the block on the stack that IV' goes to.
unfoldable pub f8_encrypt : SymCrypto → SymCrypto → List ℕ → (ℕ → ℕ) → ℕ → ℕ → List ℕ → ℕ → ℕ
f8_encrypt c f8 junk mem pos len iv = elim c.key [
  | none ↦ mem
  | some e ↦
      f8_from (len / block_size) e
        (record { iv_accent = encrypt f8 iv junk; s = replicate block_size 0; j = 0 })
        (len % block_size) mem pos
]

-- The longest key that f8_deriveForIV takes.
abbrev max_keylen : ℕ
max_keylen = 32

-- f8_deriveForIV: the cipher for IV' gets the key xored with the salt and bytes 0x55.
unfoldable pub f8_derive_for_iv : BlockCiphers → SymCrypto → List ℕ → List ℕ → SymCrypto
f8_derive_for_iv lib f8 k salt =
    if ltb max_keylen (length k)
    then f8
    else if ltb (length k) (length salt)
    then f8
    else (set_new_key lib f8 (xor_bytes k (salt ++ replicate (length k - length salt) 0x55))).1
