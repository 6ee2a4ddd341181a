-- ===== src/Cipher/Mask.antt =====
-- A mode of a cipher as a mask: memory xored with bytes that do not depend on it.
use Prim.Native.Nat.{bit_xor}
use ccrtp.Prelude.{
  ℕ, ◌+◌, ◌-◌, ◌≤◌, ◌<◌, ◌≡◌, List, true, false, if◌then◌else◌, get_or, Bool-cases, inl, inr, arith,
  sym, ap, ◌∙◌, length, ◌⊎◌,
}
use ccrtp.Cipher.{xor_at, within}
use ccrtp.Cipher.Xor.{bit_xor_assoc, bit_xor-zero, bit_xor_involutive}
use ccrtp.Packet.{setbuffer}
use ccrtp.Packet.Memory.{setbuffer_before, setbuffer_after, setbuffer_at}

abbrev pub masked : (ℕ → ℕ) → (ℕ → ℕ) → ℕ → ℕ
masked mem k j = bit_xor (mem j) (k j)

-- The mask of one block.
abbrev pub block_mask : ℕ → ℕ → List ℕ → ℕ → ℕ
block_mask pos n temp j = if within pos n j then get_or temp (j - pos) 0 else 0

pub ext : {f g : ℕ → ℕ} → ((j : ℕ) → f j ≡ g j) → f ≡ g
ext h = λ i. λ j. h j i

pub masked_involutive : (mem k : ℕ → ℕ) → masked (masked mem k) k ≡ mem
masked_involutive mem k = ext (λ j. bit_xor_involutive (mem j) (k j))

pub masked-masked : (mem k l : ℕ → ℕ) → masked (masked mem k) l ≡ masked mem (masked k l)
masked-masked mem k l = ext (λ j. bit_xor_assoc (mem j) (k j) (l j))

pub masked-zero : (mem k : ℕ → ℕ) (j : ℕ) → k j ≡ 0 → masked mem k j ≡ mem j
masked-zero mem k j h = rw h (bit_xor-zero (mem j))

pub xor_at-masked :
    (mem : ℕ → ℕ) (pos n : ℕ) (temp : List ℕ)
    → xor_at mem pos n temp ≡ masked mem (block_mask pos n temp)
xor_at-masked mem pos n temp = ext (λ j. elim (Bool-cases (within pos n j)) [
  | inl p ↦ rw p
  | inr q ↦ rw q (sym (bit_xor-zero (mem j)))
])

pub place : (pos n j : ℕ) → (j < pos) ⊎ (pos + n ≤ j) ⊎ ((pos ≤ j) × (j < pos + n))
place pos n j = omega arith

pub within_before : (pos n j : ℕ) → j < pos → within pos n j ≡ false
within_before pos n j h = ground arith

pub within_behind : (pos n j : ℕ) → pos + n ≤ j → within pos n j ≡ false
within_behind pos n j h = ground arith

pub within_inside : (pos n j : ℕ) → pos ≤ j → j < pos + n → within pos n j ≡ true
within_inside pos n j p q = ground arith

-- A mask that changes the `n` bytes from `pos` on at most.
pub record IsMask (k : ℕ → ℕ) (pos n : ℕ) : Type 0 where
  pub before : (j : ℕ) → j < pos → k j ≡ 0
  pub behind : (j : ℕ) → pos + n ≤ j → k j ≡ 0

pub block_mask-IsMask : (pos n : ℕ) (temp : List ℕ) → IsMask (block_mask pos n temp) pos n
block_mask-IsMask pos n temp = record {
  before = λ j h. rw (within_before pos n j h);
  behind = λ j h. rw (within_behind pos n j h);
}

-- A block's mask and the mask of what follows.
pub masked-IsMask :
    (k l : ℕ → ℕ) (pos n m t : ℕ)
    → t ≡ n + m
    → IsMask k pos n
    → IsMask l (pos + n) m
    → IsMask (masked k l) pos t
masked-IsMask k l pos n m t s f g = record {
  before = λ j h. rw (f.before j h, g.before j (omega arith));
  behind = λ j h. rw (f.behind j (omega arith), g.behind j (omega arith));
}

pub setbuffer-within :
    (mem : ℕ → ℕ) (xs : List ℕ) (pos j : ℕ)
    → setbuffer mem xs pos j ≡ (if within pos (length xs) j then get_or xs (j - pos) 0 else mem j)
setbuffer-within mem xs pos j = elim (place pos (length xs) j) [
  | inl h ↦ rw (within_before pos (length xs) j h) (setbuffer_before mem xs pos j h)
  | inr (inl h) ↦ rw (within_behind pos (length xs) j h) (setbuffer_after mem xs pos j h)
  | inr (inr (p, q)) ↦ rw (within_inside pos (length xs) j p q) (at p q)
]
  where
    at : pos ≤ j → j < pos + length xs → setbuffer mem xs pos j ≡ get_or xs (j - pos) 0
    at p q =
        let e : pos + (j - pos) ≡ j = omega arith in
        ap (setbuffer mem xs pos) (sym e) ∙ setbuffer_at mem xs pos (j - pos) (omega arith)
