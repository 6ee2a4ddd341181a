-- ===== src/Packet/Memory.antt =====
-- What memcpy leaves in memory.
use ccrtp.Prelude.{
  ℕ, zero, suc, ◌+◌, ◌*◌, ◌≤◌, ◌<◌, ◌≡◌, refl, ap, List, [], ◌∷◌, length, get_or, replicate, ◌++◌,
  arith,
}
use ccrtp.Packet.{setbuffer, csrc_bytes}

pub setbuffer_before :
    (mem : ℕ → ℕ) (xs : List ℕ) (pos j : ℕ) → j < pos → setbuffer mem xs pos j ≡ mem j
unfolding setbuffer
setbuffer_before mem [] pos j h = refl
setbuffer_before mem (x ∷ xs) pos j h = ground (arith, setbuffer_before mem xs (pos + 1) j)

pub setbuffer_after :
    (mem : ℕ → ℕ) (xs : List ℕ) (pos j : ℕ) → pos + length xs ≤ j → setbuffer mem xs pos j ≡ mem j
unfolding setbuffer
setbuffer_after mem [] pos j h = refl
setbuffer_after mem (x ∷ xs) pos j h = ground (arith, setbuffer_after mem xs (pos + 1) j)

pub setbuffer_at :
    (mem : ℕ → ℕ) (xs : List ℕ) (pos k : ℕ)
    → k < length xs
    → setbuffer mem xs pos (pos + k) ≡ get_or xs k 0
unfolding setbuffer
setbuffer_at mem [] pos k h = absurd (omega arith)
setbuffer_at mem (x ∷ xs) pos zero h = ground arith
setbuffer_at mem (x ∷ xs) pos (suc k) h =
    let e : pos + suc k ≡ pos + 1 + k = omega arith in
    rw e (ground (arith, setbuffer_at mem xs (pos + 1) k))

-- `n` bytes from `pos` on.
unfoldable pub slice : (ℕ → ℕ) → ℕ → ℕ → List ℕ
slice mem pos zero = []
slice mem pos (suc n) = mem pos ∷ slice mem (pos + 1) n

pub length-slice : (mem : ℕ → ℕ) (pos n : ℕ) → length (slice mem pos n) ≡ n
unfolding slice
length-slice mem pos zero = refl
length-slice mem pos (suc n) = ap suc (length-slice mem (pos + 1) n)

pub slice_congr :
    (mem mem' : ℕ → ℕ) (pos n : ℕ)
    → ((j : ℕ) → pos ≤ j → mem j ≡ mem' j)
    → slice mem pos n ≡ slice mem' pos n
unfolding slice
slice_congr mem mem' pos zero h = refl
slice_congr mem mem' pos (suc n) h =
    rw (h pos (omega arith), slice_congr mem mem' (pos + 1) n (λ j le. h j (omega arith)))

pub slice-setbuffer :
    (mem : ℕ → ℕ) (xs : List ℕ) (pos : ℕ) → slice (setbuffer mem xs pos) pos (length xs) ≡ xs
unfolding slice setbuffer
slice-setbuffer mem [] pos = refl
slice-setbuffer mem (x ∷ xs) pos =
    rw
      (slice_congr (setbuffer mem (x ∷ xs) pos) (setbuffer mem xs (pos + 1)) (pos + 1) (length xs)
        (λ j h. ground arith))
      (rw (slice-setbuffer mem xs (pos + 1)) (ap (λ y. y ∷ xs) (ground arith)))

pub length-csrc_bytes : (cs : List ℕ) → length (csrc_bytes cs) ≡ 4 * length cs
unfolding csrc_bytes
length-csrc_bytes [] = refl
length-csrc_bytes (c ∷ cs) = omega (arith, length-csrc_bytes cs)

pub slice_congr_within :
    (mem mem' : ℕ → ℕ) (pos n : ℕ)
    → ((j : ℕ) → pos ≤ j → j < pos + n → mem j ≡ mem' j)
    → slice mem pos n ≡ slice mem' pos n
unfolding slice
slice_congr_within mem mem' pos zero h = refl
slice_congr_within mem mem' pos (suc n) h = rw (
  h pos (omega arith) (omega arith),
  slice_congr_within mem mem' (pos + 1) n (λ j le lt. h j (omega arith) (omega arith)),
)

pub slice-append :
    (mem : ℕ → ℕ) (pos m n : ℕ) → slice mem pos (m + n) ≡ slice mem pos m ++ slice mem (pos + m) n
unfolding slice
slice-append mem pos zero n =
    let e : 0 + n ≡ n = omega arith in let f : pos + 0 ≡ pos = omega arith in rw (e, f)
slice-append mem pos (suc m) n =
    let e : suc m + n ≡ suc (m + n) = omega arith in
    let f : pos + suc m ≡ pos + 1 + m = omega arith in
    rw (e, f) (rw (slice-append mem (pos + 1) m n))

pub slice-replicate :
    (mem : ℕ → ℕ) (pos n v : ℕ)
    → ((j : ℕ) → pos ≤ j → j < pos + n → mem j ≡ v)
    → slice mem pos n ≡ replicate n v
unfolding slice
slice-replicate mem pos zero v h = refl
slice-replicate mem pos (suc n) v h = rw (
  h pos (omega arith) (omega arith),
  slice-replicate mem (pos + 1) n v (λ j le lt. h j (omega arith) (omega arith)),
)
