-- ===== src/Cipher/Counter.antt =====
-- SrtpSymCrypto::ctr_encrypt and get_ctr_cipher_stream: one key stream, and where the loops end.
use ccrtp.Prelude.{
  ℕ, zero, suc, ◌+◌, ◌-◌, ◌*◌, ◌%◌, ◌^◌, ◌≤◌, ◌<◌, ◌≡◌, refl, sym, ap, ◌∙◌, List, some, true, false,
  ltb, if◌then◌else◌, length, take, length-take, get_or-take, arith, Bool-cases, inl, inr,
}
use ccrtp.Crypto.{Encryption}
use ccrtp.Packet.{setbuffer}
use ccrtp.Cipher.{SymCrypto, counted, within, xor_at, stream_from, ctr_from}
use ccrtp.Cipher.Xor.{bit_xor-zero, zero-bit_xor}
use ccrtp.Cipher.Mask.{
  masked, block_mask, ext, masked-masked, xor_at-masked, place, within_before, within_behind,
  within_inside, IsMask, block_mask-IsMask, masked-IsMask, setbuffer-within,
}

-- What a mask leaves of a buffer that its bytes are written to.
abbrev pub over : (ℕ → ℕ) → ℕ → ℕ → (ℕ → ℕ) → ℕ → ℕ
over k pos n out j = if within pos n j then k j else out j

setbuffer-over :
    (out : ℕ → ℕ) (xs : List ℕ) (pos n : ℕ)
    → length xs ≡ n
    → setbuffer out xs pos ≡ over (block_mask pos n xs) pos n out
setbuffer-over out xs pos n h = ext (λ j. elim (Bool-cases (within pos n j)) [
  | inl p ↦ setbuffer-within out xs pos j ∙ rw (h, p)
  | inr q ↦ setbuffer-within out xs pos j ∙ rw (h, q)
])

setbuffer-over-take :
    (out : ℕ → ℕ) (xs : List ℕ) (pos n : ℕ)
    → n ≤ length xs
    → setbuffer out (take n xs) pos ≡ over (block_mask pos n xs) pos n out
setbuffer-over-take out xs pos n h =
    setbuffer-over out (take n xs) pos n (omega (arith, length-take n xs))
    ∙ ext (λ j. elim (place pos n j) [
      | inl b ↦ rw (within_before pos n j b)
      | inr (inl b) ↦ rw (within_behind pos n j b)
      | inr (inr (p, q)) ↦
          rw (within_inside pos n j p q) (get_or-take n xs (j - pos) 0 (omega arith))
    ])

over-over :
    (k l out : ℕ → ℕ) (pos n m t : ℕ)
    → t ≡ n + m
    → IsMask k pos n
    → IsMask l (pos + n) m
    → over l (pos + n) m (over k pos n out) ≡ over (masked k l) pos t out
over-over k l out pos n m t s f g = ext (λ j. elim (place pos n j) [
  | inl h ↦
      rw (
        within_before (pos + n) m j (omega arith),
        within_before pos n j h,
        within_before pos t j h,
      )
  | inr (inl h) ↦ elim (place (pos + n) m j) [
    | inl h' ↦ absurd (omega arith)
    | inr (inl h') ↦ rw (
      within_behind (pos + n) m j h',
      within_behind pos n j h,
      within_behind pos t j (omega arith),
    )
    | inr (inr (p, q)) ↦ rw (
      within_inside (pos + n) m j p q,
      within_inside pos t j (omega arith) (omega arith),
      f.behind j h,
      zero-bit_xor (l j),
    )
  ]
  | inr (inr (p, q)) ↦ rw (
    within_before (pos + n) m j q,
    within_inside pos n j p q,
    within_inside pos t j p (omega arith),
    g.before j q,
    bit_xor-zero (k j),
  )
])

over-empty : (k out : ℕ → ℕ) (pos : ℕ) → over k pos 0 out ≡ out
over-empty k out pos = ext (λ j. ground arith)

abbrev pub keyed : Encryption → (List ℕ → List ℕ) → SymCrypto
keyed a e = record { key = some e; algorithm = a }

-- One turn of each loop, and its last turn.
module _ (fuel : ℕ) (iv : List ℕ) (ctr l r : ℕ) (mem : ℕ → ℕ) (start pos : ℕ) where
  ctr_from_more :
      (e : List ℕ → List ℕ)
      → ltb ctr l ≡ true
      → (ctr + 1) % 2 ^ 16 ≡ ctr + 1
      → ctr_from (suc fuel) e iv ctr l r mem pos
        ≡ ctr_from fuel e
            (counted iv ctr)
            (ctr + 1)
            l
            r
            (xor_at mem pos 16 (e (counted iv ctr)))
            (pos + 16)
  unfolding ctr_from
  ctr_from_more e h h' = rw (ctr_from, h, h')

  ctr_from_last :
      (e : List ℕ → List ℕ)
      → ltb ctr l ≡ false
      → ctr_from (suc fuel) e iv ctr l r mem pos
        ≡ some (if ltb 0 r then xor_at mem pos r (e (counted iv ctr)) else mem)
  unfolding ctr_from
  ctr_from_last e h = rw (ctr_from, h)

  stream_from_more :
      (a : Encryption) (e : List ℕ → List ℕ) (temp : List ℕ)
      → pos ≡ start + ctr * 16
      → ltb ctr l ≡ true
      → (ctr + 1) % 2 ^ 16 ≡ ctr + 1
      → stream_from (suc fuel) (keyed a e) temp iv ctr l r mem start
        ≡ stream_from fuel
            (keyed a e)
            temp
            (counted iv ctr)
            (ctr + 1)
            l
            r
            (setbuffer mem (e (counted iv ctr)) pos)
            start
  unfolding stream_from
  stream_from_more a e temp p h h' = rw (stream_from, h, h', p)

  stream_from_last :
      (a : Encryption) (e : List ℕ → List ℕ) (temp : List ℕ)
      → pos ≡ start + ctr * 16
      → ltb ctr l ≡ false
      → stream_from (suc fuel) (keyed a e) temp iv ctr l r mem start
        ≡ some (if ltb 0 r then setbuffer mem (take r (e (counted iv ctr))) pos else mem)
  unfolding stream_from
  stream_from_last a e temp p h = rw (stream_from, h, p)

-- From counter `ctr` on, `n` bytes: the mask of both loops.
pub record KeyStream (c : SymCrypto) (e : List ℕ → List ℕ) (temp iv : List ℕ)
    (fuel ctr l r start pos n : ℕ) : Type 0 where
  pub mask : ℕ → ℕ
  pub only : IsMask mask pos n
  pub encrypts : (mem : ℕ → ℕ) → ctr_from fuel e iv ctr l r mem pos ≡ some (masked mem mask)
  pub streams :
      ((b : List ℕ) → length (e b) ≡ 16)
      → (out : ℕ → ℕ) → stream_from fuel c temp iv ctr l r out start ≡ some (over mask pos n out)

module _ (a : Encryption) (e : List ℕ → List ℕ) (temp : List ℕ) where
  last_bytes :
      (iv : List ℕ) (ctr l r start pos : ℕ)
      → l ≡ ctr
      → pos ≡ start + ctr * 16
      → r < 16
      → KeyStream (keyed a e) e temp iv 1 ctr l r start pos r
  last_bytes iv ctr l zero start pos h p q =
      let not_less : ltb ctr l ≡ false = ground arith in
      record {
        mask = λ j. 0;
        only = record { before = λ j h. refl; behind = λ j h. refl };
        encrypts = λ mem.
            ctr_from_last 0 iv ctr l 0 mem start pos e not_less
            ∙ ap some (ext (λ j. sym (bit_xor-zero (mem j))));
        streams = λ length-block out.
            stream_from_last 0 iv ctr l 0 out start pos a e temp p not_less
            ∙ ap some (sym (over-empty (λ j. 0) out pos));
      }
  last_bytes iv ctr l (suc r) start pos h p q =
      let not_less : ltb ctr l ≡ false = ground arith in
      let some_left : ltb 0 (suc r) ≡ true = ground arith in
      let last = e (counted iv ctr) in
      record {
        mask = block_mask pos (suc r) last;
        only = block_mask-IsMask pos (suc r) last;
        encrypts = λ mem.
            ctr_from_last 0 iv ctr l (suc r) mem start pos e not_less
            ∙ rw some_left (ap some (xor_at-masked mem pos (suc r) last));
        streams = λ length-block out.
            stream_from_last 0 iv ctr l (suc r) out start pos a e temp p not_less
            ∙ rw some_left (
                ap some (
                  setbuffer-over-take out last pos (suc r)
                    (omega (arith, length-block (counted iv ctr)))));
      }

  pub key_stream :
      (k : ℕ) (iv : List ℕ) (ctr l r start pos n : ℕ)
      → l ≡ ctr + k
      → pos ≡ start + ctr * 16
      → n ≡ k * 16 + r
      → l < 65536
      → r < 16
      → KeyStream (keyed a e) e temp iv (suc k) ctr l r start pos n
  key_stream zero iv ctr l r start pos n h p s b q =
      let same : n ≡ r = omega arith in rw same (last_bytes iv ctr l r start pos (omega arith) p q)
  key_stream (suc k) iv ctr l r start pos n h p s b q =
      let less : ltb ctr l ≡ true = ground arith in
      let unwrapped : (ctr + 1) % 2 ^ 16 ≡ ctr + 1 = omega arith in
      let iv' = counted iv ctr in
      let here = block_mask pos 16 (e iv') in
      let first = block_mask-IsMask pos 16 (e iv') in
      let rest =
        key_stream k iv' (ctr + 1) l r start (pos + 16) (k * 16 + r) (omega arith) (omega arith)
          refl b q in
      record {
        mask = masked here rest.mask;
        only = masked-IsMask here rest.mask pos 16 (k * 16 + r) n (omega arith) first rest.only;
        encrypts = λ mem.
            ctr_from_more (suc k) iv ctr l r mem start pos e less unwrapped
            ∙ rest.encrypts (xor_at mem pos 16 (e iv'))
            ∙ ap (λ m. some (masked m rest.mask)) (xor_at-masked mem pos 16 (e iv'))
            ∙ ap some (masked-masked mem here rest.mask);
        streams = λ length-block out.
            stream_from_more (suc k) iv ctr l r out start pos a e temp p less unwrapped
            ∙ rest.streams length-block (setbuffer out (e iv') pos)
            ∙ ap (λ m. some (over rest.mask (pos + 16) (k * 16 + r) m))
                (setbuffer-over out (e iv') pos 16 (length-block iv'))
            ∙ ap some
                (over-over here rest.mask out pos 16 (k * 16 + r) n (omega arith) first rest.only);
      }
