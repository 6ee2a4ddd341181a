-- ===== src/Cipher/Stream.antt =====
-- SrtpSymCrypto::ctr_encrypt: its key stream, deciphering, and the lengths for which it ends.
use ccrtp.Prelude.{
  ℕ, zero, suc, ◌+◌, ◌/◌, ◌%◌, ◌^◌, ◌≤◌, ◌<◌, ◌≡◌, refl, sym, ap, ◌∙◌, List, Option, none, some,
  true, ltb, length, arith, ◌>>=◌, Option-cases, inl, inr,
}
use ccrtp.Crypto.{Encryption}
use ccrtp.Cipher.{SymCrypto, counted, ctr_from, ctr_encrypt, get_ctr_cipher_stream, xor_at}
use ccrtp.Cipher.Xor.{bit_xor-zero}
use ccrtp.Cipher.Mask.{
  masked, ext, masked_involutive, place, within_before, within_behind, within_inside, IsMask,
}
use ccrtp.Cipher.Counter.{keyed, over, KeyStream, key_stream}

-- Encryption in place as a mask that does not depend on the data.
pub record Masks (run : (ℕ → ℕ) → Option (ℕ → ℕ)) (pos n : ℕ) : Type 0 where
  pub mask : ℕ → ℕ
  pub only : IsMask mask pos n
  pub encrypts : (mem : ℕ → ℕ) → run mem ≡ some (masked mem mask)

-- The counter has enough values for the blocks.
abbrev pub max_ctr_len : ℕ
max_ctr_len = 2 ^ 20

whole :
    (a : Encryption) (e : List ℕ → List ℕ) (temp iv : List ℕ) (pos len : ℕ)
    → len < max_ctr_len
    → KeyStream (keyed a e) e temp iv (suc (len / 16)) 0 (len / 16) (len % 16) pos pos len
whole a e temp iv pos len h =
    key_stream a e temp (len / 16) iv 0 (len / 16) (len % 16) pos pos len (omega arith)
      (omega arith) (omega arith) (omega arith) (omega arith)

pub ctr_encrypt-Masks :
    (c : SymCrypto) (pos len : ℕ) (iv : List ℕ)
    → len < max_ctr_len
    → Masks (λ mem. ctr_encrypt c mem pos len iv) pos len
unfolding ctr_encrypt
ctr_encrypt-Masks c pos len iv h = elim (Option-cases c.key) [
  | inl p ↦ record {
    mask = λ j. 0;
    only = record { before = λ j h. refl; behind = λ j h. refl };
    encrypts = λ mem. rw (ctr_encrypt, p) (ap some (ext (λ j. sym (bit_xor-zero (mem j)))));
  }
  | inr (e, p) ↦
      let k = whole c.algorithm e iv iv pos len h in
      record {
        mask = k.mask;
        only = k.only;
        encrypts = λ mem. rw (ctr_encrypt, p) (k.encrypts mem);
      }
]

over-zero : (k : ℕ → ℕ) (pos n : ℕ) → IsMask k pos n → over k pos n (λ j. 0) ≡ k
over-zero k pos n f = ext (λ j. elim (place pos n j) [
  | inl h ↦ rw (within_before pos n j h) (sym (f.before j h))
  | inr (inl h) ↦ rw (within_behind pos n j h) (sym (f.behind j h))
  | inr (inr (p, q)) ↦ rw (within_inside pos n j p q)
])

-- With a block cipher of 16-byte blocks and fewer than 2 ^ 20 bytes, ctr_encrypt in place xors the
-- data with the stream that get_ctr_cipher_stream writes for the same IV.
pub ctr_encrypt-get_ctr_cipher_stream :
    (a : Encryption) (e : List ℕ → List ℕ) (temp iv : List ℕ) (mem : ℕ → ℕ) (pos len : ℕ)
    → ((b : List ℕ) → length (e b) ≡ 16)
    → len < max_ctr_len
    → ctr_encrypt (keyed a e) mem pos len iv ≡ (
        get_ctr_cipher_stream (keyed a e) temp (λ j. 0) pos len iv >>= λ stream.
        some (masked mem stream))
unfolding ctr_encrypt get_ctr_cipher_stream
ctr_encrypt-get_ctr_cipher_stream a e temp iv mem pos len f h =
    let k = whole a e temp iv pos len h in
    k.encrypts mem
    ∙ ap (λ o. o >>= λ stream. some (masked mem stream))
        (sym (k.streams f (λ j. 0) ∙ ap some (over-zero k.mask pos len k.only)))

-- For fewer than 2 ^ 20 bytes ctr_encrypt ends, and a second run with the same key and IV gives back
-- the memory, whatever the cipher; without a key it changes nothing.
pub ctr_encrypt-ctr_encrypt :
    (c : SymCrypto) (mem : ℕ → ℕ) (pos len : ℕ) (iv : List ℕ)
    → len < max_ctr_len
    → (ctr_encrypt c mem pos len iv >>= λ m. ctr_encrypt c m pos len iv) ≡ some mem
ctr_encrypt-ctr_encrypt c mem pos len iv h =
    let k = ctr_encrypt-Masks c pos len iv h in
    rw (k.encrypts mem) (k.encrypts (masked mem k.mask) ∙ ap some (masked_involutive mem k.mask))

-- From 2 ^ 20 bytes on the counter never reaches the number of blocks.
ctr_from-diverges :
    (fuel : ℕ) (e : List ℕ → List ℕ) (iv : List ℕ) (ctr l r : ℕ) (mem : ℕ → ℕ) (pos : ℕ)
    → 65536 ≤ l
    → ctr < 65536
    → ctr_from fuel e iv ctr l r mem pos ≡ none
unfolding ctr_from
ctr_from-diverges zero e iv ctr l r mem pos h q = refl
ctr_from-diverges (suc fuel) e iv ctr l r mem pos h q =
    let less : ltb ctr l ≡ true = ground arith in
    rw (ctr_from, less)
      (ctr_from-diverges fuel e (counted iv ctr) ((ctr + 1) % 65536) l r
        (xor_at mem pos 16 (e (counted iv ctr))) (pos + 16) h (omega arith))

-- From 2 ^ 20 bytes on the loop of ctr_encrypt has no end: no number of turns is enough.
pub ctr_encrypt_endless :
    (fuel len : ℕ) (e : List ℕ → List ℕ) (iv : List ℕ) (mem : ℕ → ℕ) (pos : ℕ)
    → max_ctr_len ≤ len
    → ctr_from fuel e iv 0 (len / 16) (len % 16) mem pos ≡ none
ctr_encrypt_endless fuel len e iv mem pos h =
    ctr_from-diverges fuel e iv 0 (len / 16) (len % 16) mem pos (omega arith) (omega arith)
