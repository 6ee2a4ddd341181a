-- ===== src/Crypto/Index.antt =====
-- src/CryptoContext.cpp, `guessIndex`: the packet index that it returns, against the choice that
-- RFC 3711, section 3.3.1, asks for.
use ccrtp.Prelude.{ℕ, ◌+◌, ◌-◌, ◌*◌, ◌%◌, ◌^◌, ◌≤◌, ◌<◌, ◌≡◌, true, length, arith}
use ccrtp.Crypto.{CryptoContext, local_index, init_seq, guess_roc, guess_index}

-- The distance of two indices.
abbrev pub distance : ℕ → ℕ → ℕ
distance a b = (a - b) + (b - a)

-- A context whose fields lie in their C types.
pub record IsContext (c : CryptoContext) : Type 0 where
  pub roc : c.roc < 2 ^ 32
  pub s_l : c.s_l < 2 ^ 16
  pub started : c.seq_num_set ≡ true
  pub window : length c.replay_window ≡ 64

-- No carry out of the rollover counter.
pub record HasRoom (c : CryptoContext) : Type 0 where
  pub low : 0 < c.roc
  pub high : c.roc + 1 < 2 ^ 32

guess_roc-near :
    (roc s seq : ℕ)
    → 0 < roc
    → roc + 1 < 2 ^ 32
    → s < 2 ^ 16
    → seq < 2 ^ 16
    → distance (guess_roc roc s seq * 2 ^ 16 + seq) (roc * 2 ^ 16 + s) ≤ 2 ^ 15
unfolding guess_roc
guess_roc-near roc s seq low high hs hq = ground arith

-- Of two indices with the same low 16 bits, one within 2 ^ 15 of a third is the nearer one.
nearest :
    (a b h : ℕ) → a % 2 ^ 16 ≡ b % 2 ^ 16 → distance a h ≤ 2 ^ 15 → distance a h ≤ distance b h
nearest a b h e d = omega arith

pub guess_index-init : (c : CryptoContext) (seq : ℕ) → IsContext c → init_seq c seq ≡ c
guess_index-init c seq v = ground arith

-- While the rollover counter has room on both sides, the index that `guessIndex` returns has the
-- packet's sequence number as its low 16 bits, lies within 2 ^ 15 of the context's own index, and
-- no other index with those low bits lies nearer.
pub guess_index-nearest :
    (c : CryptoContext) (seq other : ℕ)
    → IsContext c
    → HasRoom c
    → seq < 2 ^ 16
    → other % 2 ^ 16 ≡ seq
    → let guessed = (guess_index c seq).0 in
      (guessed % 2 ^ 16 ≡ seq)
      × (distance guessed (local_index c) ≤ 2 ^ 15)
      × (distance guessed (local_index c) ≤ distance other (local_index c))
unfolding guess_index
guess_index-nearest c seq other v r hq e =
    let near = guess_roc-near c.roc c.s_l seq r.low r.high v.s_l hq in
    rw (guess_index-init c seq v) (omega arith, near, nearest _ other _ (omega arith) near)

pub guess_index-context :
    (c : CryptoContext) (seq : ℕ)
    → IsContext c
    → guess_index c seq ≡ (
      guess_roc c.roc c.s_l seq * 2 ^ 16 + seq,
      record c { guessed_roc = guess_roc c.roc c.s_l seq },
    )
unfolding guess_index
guess_index-context c seq v = rw (guess_index-init c seq v)
