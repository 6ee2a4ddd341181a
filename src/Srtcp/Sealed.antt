-- ===== src/Srtcp/Sealed.antt =====
-- The memory of a protected RTCP packet: the enciphered packet, its index and its tag.
use ccrtp.Prelude.{
  ℕ, ◌+◌, ◌^◌, ◌≤◌, ◌<◌, ◌≡◌, refl, sym, ap, ◌∙◌, List, [], ◌∷◌, true, ==_iff, length, arith,
}
use ccrtp.Packet.{setbuffer, be32}
use ccrtp.Packet.Memory.{slice, setbuffer_before, setbuffer_at, slice_congr_within, slice-setbuffer}
use ccrtp.Cipher.Mask.{masked}
use ccrtp.Srtcp.{load32, set_flag, equal_bytes}

pub equal_bytes_refl : (xs : List ℕ) → equal_bytes xs xs ≡ true
equal_bytes_refl [] = refl
equal_bytes_refl (x ∷ xs) = rw ((==_iff x x).1 refl) (equal_bytes_refl xs)

pub load32-setbuffer :
    (mem : ℕ → ℕ) (x i : ℕ) → x < 2 ^ 32 → load32 (setbuffer mem (be32 x) i) i ≡ x
load32-setbuffer mem x i h =
    let a = setbuffer_at mem (be32 x) i 0 (omega arith) in
    let b = setbuffer_at mem (be32 x) i 1 (omega arith) in
    let c = setbuffer_at mem (be32 x) i 2 (omega arith) in
    let d = setbuffer_at mem (be32 x) i 3 (omega arith) in
    let e : i + 0 ≡ i = omega arith in
    rw (sym (ap (setbuffer mem (be32 x) i) e) ∙ a, b, c, d) (omega arith)

pub load32_congr :
    (mem mem' : ℕ → ℕ) (i : ℕ)
    → ((j : ℕ) → i ≤ j → j < i + 4 → mem j ≡ mem' j)
    → load32 mem i ≡ load32 mem' i
load32_congr mem mem' i h = rw (
  h i (omega arith) (omega arith),
  h (i + 1) (omega arith) (omega arith),
  h (i + 2) (omega arith) (omega arith),
  h (i + 3) (omega arith) (omega arith),
)

abbrev pub indexed : (ℕ → ℕ) → (ℕ → ℕ) → ℕ → ℕ → ℕ → ℕ
indexed mem mask len index = setbuffer (masked mem mask) (be32 (set_flag index)) len

module _ (mem mask : ℕ → ℕ) (len index : ℕ) (tag : List ℕ) where
  abbrev pub sealed : ℕ → ℕ
  sealed = setbuffer (indexed mem mask len index) tag (len + 4)

  pub sealed_before : (j : ℕ) → j < len → sealed j ≡ masked mem mask j
  sealed_before j h =
      setbuffer_before (indexed mem mask len index) tag (len + 4) j (omega arith)
      ∙ setbuffer_before (masked mem mask) (be32 (set_flag index)) len j h

  pub sealed-index : load32 sealed len ≡ set_flag index
  sealed-index =
      load32_congr sealed (indexed mem mask len index) len
        (λ j le lt. setbuffer_before (indexed mem mask len index) tag (len + 4) j (omega arith))
      ∙ load32-setbuffer (masked mem mask) (set_flag index) len (omega arith)

  pub sealed_message : slice sealed 0 len ≡ slice (indexed mem mask len index) 0 len
  sealed_message =
      slice_congr_within sealed (indexed mem mask len index) 0 len
        (λ j le lt. setbuffer_before (indexed mem mask len index) tag (len + 4) j (omega arith))

  pub sealed_tag : slice sealed (len + 4) (length tag) ≡ tag
  sealed_tag = slice-setbuffer (indexed mem mask len index) tag (len + 4)
