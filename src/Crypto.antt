-- ===== src/Crypto.antt =====
-- src/CryptoContext.cpp and src/ccrtp/CryptoContext.h: the SRTP cryptographic context, its packet
-- index and its replay window.
pub mod Index
pub mod Replay
pub mod History
mod Tests
use ccrtp.Prelude.{
  ℕ, suc, ◌+◌, ◌-◌, ◌*◌, ◌/◌, ◌%◌, ◌^◌, List, [], ◌∷◌, ◌++◌, Bool, true, false, ◌&&◌, Option, none,
  some, ltb, ◌==◌, if◌then◌else◌, get_or, replicate, take,
}

-- SrtpEncryption* and SrtpAuthentication*.
pub data Encryption : Type 0 where
  null aes_cm aes_f8 two_cm two_f8 : Encryption

pub data Authentication : Type 0 where
  null sha1_hmac skein_hmac : Authentication

-- The state of the class that the packet index and the replay check read and write. A uint64 used
-- as a bit field, `replay_window`, is the list of its bits, the least significant first.
pub record CryptoContext : Type 0 where
  pub ssrc : ℕ
  pub roc : ℕ
  pub guessed_roc : ℕ
  pub s_l : ℕ
  pub seq_num_set : Bool
  pub replay_window : List Bool
  pub ealg : Encryption
  pub aalg : Authentication
  pub tag_length : ℕ
  pub mki_length : ℕ
  pub key_deriv_rate : ℕ
  pub ekeyl : ℕ
  pub akeyl : ℕ
  pub skeyl : ℕ

abbrev pub window_size : ℕ
window_size = 64

-- The index of the packet with the highest sequence number: `roc << 16 | s_l`.
abbrev pub local_index : CryptoContext → ℕ
local_index c = c.roc * 2 ^ 16 + c.s_l

-- The first use of a sequence number sets `s_l`.
abbrev pub init_seq : CryptoContext → ℕ → CryptoContext
init_seq c seq = if c.seq_num_set then c else record c { seq_num_set = true; s_l = seq }

-- The rollover counter that `guessIndex` takes. The differences are those of C `int`s; only
-- `roc - 1` and `roc + 1` wrap.
unfoldable pub guess_roc : ℕ → ℕ → ℕ → ℕ
guess_roc roc s_l seq =
    if ltb s_l 32768
    then (if ltb (s_l + 32768) seq then (roc + 2 ^ 32 - 1) % 2 ^ 32 else roc)
    else (if ltb seq (s_l - 32768) then (roc + 1) % 2 ^ 32 else roc)

unfoldable pub guess_index : CryptoContext → ℕ → ℕ × CryptoContext
guess_index c seq =
    let c' = init_seq c seq in
    let g = guess_roc c'.roc c'.s_l seq in (g * 2 ^ 16 + seq, record c' { guessed_roc = g })

abbrev pub is_null_policy : CryptoContext → Bool
is_null_policy c = elim c.aalg [ null ↦ elim c.ealg [ null ↦ true | _ ↦ false ] | _ ↦ false ]

-- `window << d` for d < 64
unfoldable pub shift_left : ℕ → List Bool → List Bool
shift_left d w = take window_size (replicate d false ++ w)

-- `window | 1`
abbrev pub set_low : List Bool → List Bool
set_low [] = []
set_low (b ∷ w) = true ∷ w

-- Both indices are below 2 ^ 49, so the int64 `delta` is their difference. `none` is a shift by
-- 64, which C leaves undefined: the guard lets -delta = 64 through.
unfoldable pub check_replay : CryptoContext → ℕ → Option (Bool × CryptoContext)
check_replay c seq =
    if is_null_policy c
    then some (true, c)
    else (let (guessed, c') = guess_index (init_seq c seq) seq in
        let here = local_index c' in
        if ltb here guessed
        then some (true, c')
        else if ltb window_size (here - guessed)
        then some (false, c')
        else if here - guessed == 64
        then none
        else some ((if get_or c'.replay_window (here - guessed) false then false else true), c'))

-- The last statements of `update`: the highest sequence number and the rollover counter.
abbrev pub advance : CryptoContext → ℕ → CryptoContext
advance c seq =
    let s = if ltb c.s_l seq then seq else c.s_l in
    if ltb c.roc c.guessed_roc
    then record c { roc = c.guessed_roc; s_l = seq }
    else record c { s_l = s }

-- `none` is a shift that C leaves undefined: `window << delta` for delta ≥ 64, and `1 << delta`
-- for delta < 0.
unfoldable pub update : CryptoContext → ℕ → Option CryptoContext
update c seq =
    let (guessed, c') = guess_index c seq in
    let here = local_index c' in
    if ltb here guessed
    then (if ltb (guessed - here) 64
        then some (
            advance
              (record c' { replay_window = set_low (shift_left (guessed - here) c'.replay_window) })
              seq)
        else none)
    else if here == guessed
    then some (advance (record c' { replay_window = set_low c'.replay_window }) seq)
    else none
