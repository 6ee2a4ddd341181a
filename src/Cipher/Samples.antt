-- ===== src/Cipher/Samples.antt =====
-- A small block cipher and data for the tests.
use ccrtp.Prelude.{ℕ, ◌+◌, ◌*◌, ◌%◌, ◌∷◌, List, get_or, replicate}

-- It mixes the first byte of the key with three bytes of the block.
abbrev pub toy_block : List ℕ → List ℕ → List ℕ
toy_block k b =
    ((get_or k 0 0 + get_or b 4 0 + get_or b 15 0 * 31) % 256)
    ∷ replicate 15 (get_or b 15 0 % 256 + get_or b 7 0 % 16)

abbrev pub sample_key : List ℕ
sample_key = 77 ∷ replicate 15 1

abbrev pub sample_memory : ℕ → ℕ
sample_memory j = (j * 7 + 3) % 256
