-- ===== src/Cipher/Feedback.antt =====
-- SrtpSymCrypto::f8_encrypt: f8 mode, and its deciphering.
use ccrtp.Prelude.{
  ℕ, zero, suc, ◌+◌, ◌*◌, ◌/◌, ◌%◌, ◌≡◌, refl, sym, ap, ◌∙◌, List, true, ltb, arith, Option-cases,
  inl, inr, replicate,
}
use ccrtp.Cipher.{SymCrypto, F8Context, next_block, xor_at, f8_from, f8_encrypt, encrypt}
use ccrtp.Cipher.Xor.{bit_xor-zero}
use ccrtp.Cipher.Mask.{
  masked, block_mask, ext, masked_involutive, masked-masked, xor_at-masked, IsMask,
  block_mask-IsMask, masked-IsMask,
}

-- The two loops' mask does not depend on the data: the key stream feeds back into itself only.
pub record F8Mask (run : (ℕ → ℕ) → ℕ → ℕ) (pos n : ℕ) : Type 0 where
  pub mask : ℕ → ℕ
  pub only : IsMask mask pos n
  pub encrypts : (mem : ℕ → ℕ) → run mem ≡ masked mem mask

f8_from-F8Mask :
    (l : ℕ) (e : List ℕ → List ℕ) (x : F8Context) (r pos n : ℕ)
    → n ≡ l * 16 + r
    → F8Mask (λ mem. f8_from l e x r mem pos) pos n
unfolding f8_from
f8_from-F8Mask zero e x zero pos n h = record {
  mask = λ j. 0;
  only = record { before = λ j h. refl; behind = λ j h. refl };
  encrypts = λ mem. ext (λ j. sym (bit_xor-zero (mem j)));
}
f8_from-F8Mask zero e x (suc r) pos n h =
    let s' = (next_block e x).s in
    let some_left : ltb 0 (suc r) ≡ true = ground arith in
    let same : n ≡ suc r = omega arith in
    record {
      mask = block_mask pos (suc r) s';
      only = rw same (block_mask-IsMask pos (suc r) s');
      encrypts = λ mem. rw (f8_from, some_left) (xor_at-masked mem pos (suc r) s');
    }
f8_from-F8Mask (suc l) e x r pos n h =
    let x' = next_block e x in
    let here = block_mask pos 16 x'.s in
    let first = block_mask-IsMask pos 16 x'.s in
    let rest = f8_from-F8Mask l e x' r (pos + 16) (l * 16 + r) refl in
    record {
      mask = masked here rest.mask;
      only = masked-IsMask here rest.mask pos 16 (l * 16 + r) n (omega arith) first rest.only;
      encrypts = λ mem.
          rest.encrypts (xor_at mem pos 16 x'.s)
          ∙ ap (λ m. masked m rest.mask) (xor_at-masked mem pos 16 x'.s)
          ∙ masked-masked mem here rest.mask;
    }

pub f8_encrypt-F8Mask :
    (c f8 : SymCrypto) (junk : List ℕ) (pos len : ℕ) (iv : List ℕ)
    → F8Mask (λ mem. f8_encrypt c f8 junk mem pos len iv) pos len
unfolding f8_encrypt
f8_encrypt-F8Mask c f8 junk pos len iv = elim (Option-cases c.key) [
  | inl p ↦ record {
    mask = λ j. 0;
    only = record { before = λ j h. refl; behind = λ j h. refl };
    encrypts = λ mem. rw (f8_encrypt, p) (ext (λ j. sym (bit_xor-zero (mem j))));
  }
  | inr (e, p) ↦
      let start : F8Context = record {
        iv_accent = encrypt f8 iv junk;
        s = replicate 16 0;
        j = 0;
      } in
      let k = f8_from-F8Mask (len / 16) e start (len % 16) pos len (omega arith) in
      record { mask = k.mask; only = k.only; encrypts = λ mem. rw (f8_encrypt, p) (k.encrypts mem) }
]

-- A second run of f8_encrypt with the same keys and IV gives back the memory, for every length.
pub f8_encrypt-f8_encrypt :
    (c f8 : SymCrypto) (junk : List ℕ) (mem : ℕ → ℕ) (pos len : ℕ) (iv : List ℕ)
    → f8_encrypt c f8 junk (f8_encrypt c f8 junk mem pos len iv) pos len iv ≡ mem
f8_encrypt-f8_encrypt c f8 junk mem pos len iv =
    let k = f8_encrypt-F8Mask c f8 junk pos len iv in
    rw (k.encrypts mem) (k.encrypts (masked mem k.mask) ∙ masked_involutive mem k.mask)
