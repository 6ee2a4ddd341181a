-- ===== src/Cipher/Xor.antt =====
-- Laws of the exclusive or that the ciphers apply to bytes.
use Prim.Native.Nat.{
  ℕ, zero, suc, ◌+◌, ◌*◌, ◌/◌, ◌%◌, ◌≤◌, ◌<◌, bit_xor, digits, differ, bit_xor-bitwise,
}
use mathlib.Core.Path.{◌≡◌, refl, ap, ◌∙◌}
use mathlib.Core.Logic.{◌⊎◌, inl, inr}
use native.Mathlib.Omega.{arith}

-- The digits' recursion with more fuel than it needs.
abbrev xor_digits : ℕ → ℕ → ℕ → ℕ
xor_digits n a b = digits (λ b. b) differ n a b

xor_digits_fuel : (n m a b : ℕ) → a ≤ n → a ≤ m → xor_digits n a b ≡ xor_digits m a b
xor_digits_fuel zero zero a b p q = refl
xor_digits_fuel zero (suc m) zero b p q = refl
xor_digits_fuel zero (suc m) (suc a) b p q = absurd (omega arith)
xor_digits_fuel (suc n) zero zero b p q = refl
xor_digits_fuel (suc n) zero (suc a) b p q = absurd (omega arith)
xor_digits_fuel (suc n) (suc m) zero b p q = refl
xor_digits_fuel (suc n) (suc m) (suc a) b p q =
    omega (arith, xor_digits_fuel n m (suc a / 2) (b / 2) (omega arith) (omega arith))

pub zero-bit_xor : (b : ℕ) → bit_xor 0 b ≡ b
zero-bit_xor b = bit_xor-bitwise 0 b

-- The lowest digit, and the others.
bit_xor_step : (a b : ℕ) → bit_xor a b ≡ bit_xor (a / 2) (b / 2) * 2 + differ (a % 2) (b % 2)
bit_xor_step zero b = omega (arith, zero-bit_xor b, zero-bit_xor (b / 2))
bit_xor_step (suc a) b = omega (
  arith,
  bit_xor-bitwise (suc a) b,
  bit_xor-bitwise (suc a / 2) (b / 2),
  xor_digits_fuel a (suc a / 2) (suc a / 2) (b / 2) (omega arith) (omega arith),
)

two_digits : (a : ℕ) → (a % 2 ≡ 0) ⊎ (a % 2 ≡ 1)
two_digits a = omega arith

differ-lt : (a b : ℕ) → differ (a % 2) (b % 2) < 2
differ-lt a b = elim (two_digits a) [
  | inl p ↦ elim (two_digits b) [
    | inl q ↦ rw (p, q) (omega arith)
    | inr q ↦ rw (p, q) (omega arith)
  ]
  | inr p ↦ elim (two_digits b) [
    | inl q ↦ rw (p, q) (omega arith)
    | inr q ↦ rw (p, q) (omega arith)
  ]
]

differ_assoc :
    (a b c : ℕ) → differ (differ (a % 2) (b % 2)) (c % 2) ≡ differ (a % 2) (differ (b % 2) (c % 2))
differ_assoc a b c = elim (two_digits a) [
  | inl p ↦ elim (two_digits b) [
    | inl q ↦ elim (two_digits c) [ inl r ↦ rw (p, q, r) | inr r ↦ rw (p, q, r) ]
    | inr q ↦ elim (two_digits c) [ inl r ↦ rw (p, q, r) | inr r ↦ rw (p, q, r) ]
  ]
  | inr p ↦ elim (two_digits b) [
    | inl q ↦ elim (two_digits c) [ inl r ↦ rw (p, q, r) | inr r ↦ rw (p, q, r) ]
    | inr q ↦ elim (two_digits c) [ inl r ↦ rw (p, q, r) | inr r ↦ rw (p, q, r) ]
  ]
]

differ_self : (a : ℕ) → differ (a % 2) (a % 2) ≡ 0
differ_self a = elim (two_digits a) [ inl p ↦ rw p | inr p ↦ rw p ]

bit_xor-half : (a b : ℕ) → bit_xor a b / 2 ≡ bit_xor (a / 2) (b / 2)
bit_xor-half a b = omega (arith, bit_xor_step a b, differ-lt a b)

bit_xor-digit : (a b : ℕ) → bit_xor a b % 2 ≡ differ (a % 2) (b % 2)
bit_xor-digit a b = omega (arith, bit_xor_step a b, differ-lt a b)

assoc_fuel :
    (n a b c : ℕ) → a ≤ n → b ≤ n → c ≤ n → bit_xor (bit_xor a b) c ≡ bit_xor a (bit_xor b c)
assoc_fuel zero zero zero zero p q r = refl
assoc_fuel zero (suc a) b c p q r = absurd (omega arith)
assoc_fuel zero zero (suc b) c p q r = absurd (omega arith)
assoc_fuel zero zero zero (suc c) p q r = absurd (omega arith)
assoc_fuel (suc n) a b c p q r = rw (
  bit_xor_step (bit_xor a b) c,
  bit_xor_step a (bit_xor b c),
  bit_xor-half a b,
  bit_xor-half b c,
  bit_xor-digit a b,
  bit_xor-digit b c,
  assoc_fuel n (a / 2) (b / 2) (c / 2) (omega arith) (omega arith) (omega arith),
  differ_assoc a b c,
)

pub bit_xor_assoc : (a b c : ℕ) → bit_xor (bit_xor a b) c ≡ bit_xor a (bit_xor b c)
bit_xor_assoc a b c = assoc_fuel (a + b + c) a b c (omega arith) (omega arith) (omega arith)

self_fuel : (n a : ℕ) → a ≤ n → bit_xor a a ≡ 0
self_fuel zero zero h = refl
self_fuel zero (suc a) h = absurd (omega arith)
self_fuel (suc n) a h = rw (bit_xor_step a a, differ_self a, self_fuel n (a / 2) (omega arith)) refl

zero_fuel : (n a : ℕ) → a ≤ n → bit_xor a 0 ≡ a
zero_fuel zero zero h = refl
zero_fuel zero (suc a) h = absurd (omega arith)
zero_fuel (suc n) a h = omega (arith, bit_xor_step a 0, zero_fuel n (a / 2) (omega arith), last a)
  where
    last : (a : ℕ) → differ (a % 2) (0 % 2) ≡ a % 2
    last a = elim (two_digits a) [ inl p ↦ rw p | inr p ↦ rw p ]

pub bit_xor-zero : (a : ℕ) → bit_xor a 0 ≡ a
bit_xor-zero a = zero_fuel a a (omega arith)

-- What is xored twice with one number is as it was.
pub bit_xor_involutive : (a b : ℕ) → bit_xor (bit_xor a b) b ≡ a
bit_xor_involutive a b =
    bit_xor_assoc a b b ∙ ap (bit_xor a) (self_fuel b b (omega arith)) ∙ bit_xor-zero a
