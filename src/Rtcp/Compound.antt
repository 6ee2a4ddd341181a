-- ===== src/Rtcp/Compound.antt =====
-- src/rtcppkt.cpp: `checkCompoundRTCPHeader` decides whether packets fill a compound.
use ccrtp.Prelude.{
  ℕ, zero, suc, ◌+◌, ◌*◌, ◌%◌, ◌^◌, ◌≤◌, ◌<◌, ◌≡◌, ◌↔◌, ◌⊎◌, inl, inr, refl, Bool, true, false,
  ◌&&◌, some, ltb, ◌==◌, if◌then◌else◌, arith, Bool-cases,
}
use ccrtp.Packet.{Buffer, read}
use ccrtp.Rtcp.{version_of, packet_length, valid_first, check_packets, check_compound_rtcp_header}

-- The bytes are bytes, and the buffer of `pathMTU` bytes holds whole words.
pub record Received (block : Buffer) (len : ℕ) : Type 0 where
  pub byte : (j : ℕ) → block.bytes j < 256
  pub words : block.size % 4 ≡ 0
  pub some_word : 4 ≤ block.size
  pub fits : len ≤ block.size
  pub small : block.size < 2 ^ 31

-- The length that a packet's header gives.
abbrev pub size_at : Buffer → ℕ → ℕ
size_at block pointer = (block.bytes (pointer + 2) * 256 + block.bytes (pointer + 3) + 1) * 4

-- Packets, each behind the one before it, from `pointer` to `len`. All but the last have version
-- 2.
pub data Packets (block : Buffer) (len : ℕ) : ℕ → Type 0 where
  last : (pointer : ℕ) → pointer + size_at block pointer ≡ len → Packets block len pointer
  next :
      (pointer : ℕ)
      → version_of (block.bytes pointer) ≡ 2
      → pointer + size_at block pointer < len
      → Packets block len (pointer + size_at block pointer)
      → Packets block len pointer

pub packet_length-at :
    (block : Buffer) (len pointer : ℕ)
    → Received block len
    → pointer % 4 ≡ 0
    → pointer < block.size
    → packet_length block pointer ≡ some (size_at block pointer)
unfolding packet_length
packet_length-at block len pointer r aligned lt =
    let inside : pointer + 3 < block.size = omega (arith, r.words) in ground (arith, inside)

-- What one round goes on with.
unfoldable pub Inversion : Buffer → ℕ → ℕ → Type 0
Inversion block len pointer =
    (pointer + size_at block pointer ≡ len)
    ⊎ ((version_of (block.bytes pointer) ≡ 2)
        × (pointer + size_at block pointer < len)
        × Packets block len (pointer + size_at block pointer))

pub invert :
    (block : Buffer) (len : ℕ) {pointer : ℕ}
    → Packets block len pointer
    → Inversion block len pointer
unfolding Inversion
invert block len (last pointer e) = inl e
invert block len (next pointer v lt rest) = inr (v, lt, rest)

check_packets-step :
    (block : Buffer) (len fuel pointer : ℕ)
    → Received block len
    → pointer % 4 ≡ 0
    → pointer < block.size
    → check_packets block len (suc fuel) pointer ≡ (
        if ltb (pointer + size_at block pointer) len && version_of (block.bytes pointer) == 2
        then check_packets block len fuel (pointer + size_at block pointer)
        else some (pointer + size_at block pointer == len))
unfolding check_packets
check_packets-step block len fuel pointer r aligned lt =
    let here : read block pointer ≡ some (block.bytes pointer) = ground arith in
    let whole : (pointer + size_at block pointer) % 2 ^ 32 ≡ pointer + size_at block pointer =
      omega (arith, r.byte (pointer + 2), r.byte (pointer + 3), r.small) in
    rw (packet_length-at block len pointer r aligned lt) (rw here (rw whole refl))

-- What a round that is not the last one says about all of it.
continue_iff :
    (block : Buffer) (len pointer : ℕ)
    → (ltb (pointer + size_at block pointer) len && version_of (block.bytes pointer) == 2) ≡ true
    → Packets block len (pointer + size_at block pointer) ↔ Packets block len pointer
unfolding Inversion
continue_iff block len pointer test = (
  λ rest. next pointer (ground arith) (ground arith) rest,
  λ p. elim (invert block len p) [ inl e ↦ absurd (ground arith) | inr more ↦ more.2 ],
)

stop_iff :
    (block : Buffer) (len pointer : ℕ)
    → (ltb (pointer + size_at block pointer) len && version_of (block.bytes pointer) == 2) ≡ false
    → ((pointer + size_at block pointer == len) ≡ true) ↔ Packets block len pointer
unfolding Inversion
stop_iff block len pointer test = (
  λ e. last pointer (ground arith),
  λ p. elim (invert block len p) [
    | inl e ↦ ground arith
    | inr more ↦ absurd (ground (arith, more.0, more.1))
  ],
)

-- The loop ends and its answer says whether packets fill the rest.
check_packets-decides :
    (block : Buffer) (len fuel pointer : ℕ)
    → Received block len
    → pointer % 4 ≡ 0
    → pointer < block.size
    → 1 ≤ fuel
    → len < pointer + fuel
    → (b : Bool) × (check_packets block len fuel pointer ≡ some b)
      × ((b ≡ true) ↔ Packets block len pointer)
check_packets-decides block len zero pointer r aligned lt some_fuel enough = absurd (omega arith)
check_packets-decides block len (suc fuel) pointer r aligned lt some_fuel enough =
    let step = check_packets-step block len fuel pointer r aligned lt in
    elim (Bool-cases
      (ltb (pointer + size_at block pointer) len && version_of (block.bytes pointer) == 2)) [
        | inl test ↦
            (let ahead : pointer + size_at block pointer < len = ground arith in
              let later =
                check_packets-decides block len fuel (pointer + size_at block pointer) r
                  (omega arith) (omega (arith, r.fits)) (omega arith) (omega arith) in
              let both = continue_iff block len pointer test in
              (
                later.0,
                rw (step, test) later.1,
                (λ t. both.0 (later.2.0 t), λ p. later.2.1 (both.1 p)),
              ))
        | inr test ↦ (
          pointer + size_at block pointer == len,
          rw (step, test) refl,
          stop_iff block len pointer test,
        )
      ]

-- On every received datagram of at most `pathMTU` bytes, a multiple of 4, the check ends, reads
-- nothing behind the buffer, and accepts exactly those that begin with the header of an SR or RR
-- of version 2 without padding and are filled by packets, one behind the other up to the last
-- byte, of which all but the last have version 2.
pub check_compound_rtcp_header-decides :
    (block : Buffer) (len : ℕ)
    → Received block len
    → (b : Bool) × (check_compound_rtcp_header block len ≡ some b)
      × ((b ≡ true) ↔ ((valid_first (block.bytes 0) (block.bytes 1) ≡ true) × Packets block len 0))
unfolding check_compound_rtcp_header
check_compound_rtcp_header-decides block len r =
    let b₀ : read block 0 ≡ some (block.bytes 0) = ground (arith, r.some_word) in
    let b₁ : read block 1 ≡ some (block.bytes 1) = ground (arith, r.some_word) in
    elim (Bool-cases (valid_first (block.bytes 0) (block.bytes 1))) [
      | inl v ↦
          (let all =
              check_packets-decides block len (suc len) 0 r (omega arith)
                (omega (arith, r.some_word)) (omega arith) (omega arith) in
            (all.0, rw b₀ (rw b₁ (rw v all.1)), (λ t. (v, all.2.0 t), λ p. all.2.1 p.1)))
      | inr v ↦ (
        false,
        rw b₀ (rw b₁ (rw v refl)),
        (λ t. absurd (ground arith), λ p. absurd (ground (arith, p.0))),
      )
    ]
