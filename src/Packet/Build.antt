-- ===== src/Packet/Build.antt =====
-- src/rtppkt.cpp: the memory that the constructors of OutgoingRTPPkt and the setters leave.
use ccrtp.Prelude.{
  ℕ, ◌+◌, ◌-◌, ◌*◌, ◌≤◌, ◌<◌, ◌≡◌, ◌≢◌, refl, List, length, get_or, ◌==◌, if◌then◌else◌, arith,
  Bool-cases, inl, inr,
}
use ccrtp.Packet.{
  set_cc, set_extension, set_marker, set_payload, to_nat, padding_for, initial_bytes, csrc_bytes,
  set_csrc_array, set_header_extension,
}
use ccrtp.Packet.Fields.{Fields, write_fields}
use ccrtp.Packet.Memory.{setbuffer_before, setbuffer_after, setbuffer_at, length-csrc_bytes}

abbrev pub flag : ℕ → ℕ
flag n = if n == 0 then 0 else 1

pub padding_for-le : (paddinglen total : ℕ) → padding_for paddinglen total ≤ paddinglen
unfolding padding_for
padding_for-le paddinglen total = ground arith

-- The new buffer: the first byte, the second byte, and the count of padding bytes at the end.
pub initial_bytes-facts :
    (mem : ℕ → ℕ) (total padding : ℕ)
    → 12 + padding ≤ total
    → (initial_bytes mem total padding 0 ≡ 128 + 32 * flag padding)
      × (initial_bytes mem total padding 1 ≡ 0)
      × (padding ≢ 0 → initial_bytes mem total padding (total - 1) ≡ padding)
unfolding initial_bytes
initial_bytes-facts mem total padding h = elim (Bool-cases (padding == 0)) [
  | inl e ↦ rw e (refl, refl, λ ne. absurd (ne (ground arith)))
  | inr e ↦ rw e (ground arith, ground arith, λ ne. ground arith)
]

pub set_csrc_array-facts :
    (mem : ℕ → ℕ) (csrcs : List ℕ)
    → (set_csrc_array mem csrcs 0 ≡ set_cc (length csrcs) (mem 0))
      × (set_csrc_array mem csrcs 1 ≡ mem 1)
      × ((j : ℕ) → 12 + 4 * length csrcs ≤ j → set_csrc_array mem csrcs j ≡ mem j)
unfolding set_csrc_array
set_csrc_array-facts mem csrcs = (
  rw (setbuffer_before mem (csrc_bytes csrcs) 12 0 (omega arith)),
  rw (setbuffer_before mem (csrc_bytes csrcs) 12 1 (omega arith)),
  λ j h. ground (arith, setbuffer_after mem (csrc_bytes csrcs) 12 j, length-csrc_bytes csrcs),
)

pub set_header_extension-facts :
    (mem : ℕ → ℕ) (hdrext : List ℕ) (pos : ℕ)
    → 12 ≤ pos
    → (set_header_extension mem hdrext pos 0 ≡ set_extension (flag (length hdrext)) (mem 0))
      × (set_header_extension mem hdrext pos 1 ≡ mem 1)
      × ((k : ℕ)
          → k < length hdrext
          → set_header_extension mem hdrext pos (pos + k) ≡ get_or hdrext k 0)
      × ((j : ℕ) → pos + length hdrext ≤ j → set_header_extension mem hdrext pos j ≡ mem j)
unfolding set_header_extension
set_header_extension-facts mem hdrext pos h = (
  rw (setbuffer_before mem hdrext pos 0 (omega arith)),
  ground (arith, setbuffer_before mem hdrext pos 1 (omega arith)),
  λ k lt. ground (arith, setbuffer_at mem hdrext pos k),
  λ j le. ground (arith, setbuffer_after mem hdrext pos j),
)

-- The setters touch the bytes 1 to 11 alone.
pub write_fields-facts :
    (mem : ℕ → ℕ) (f : Fields)
    → (write_fields mem f 0 ≡ mem 0)
      × (write_fields mem f 1 ≡ set_marker (to_nat f.marker) (set_payload f.payload_type (mem 1)))
      × ((j : ℕ) → 12 ≤ j → write_fields mem f j ≡ mem j)
unfolding write_fields
write_fields-facts mem f = (refl, refl, λ j h. ground arith)
