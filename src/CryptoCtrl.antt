-- ===== src/CryptoCtrl.antt =====
-- src/CryptoContextCtrl.cpp and src/ccrtp/CryptoContextCtrl.h: the SRTCP cryptographic context and
-- its replay check, over the 31-bit SRTCP index that each packet carries.
pub mod Replay
mod Tests
use ccrtp.Prelude.{
  ℕ, ◌+◌, ◌-◌, ◌%◌, ◌^◌, List, Bool, true, false, Option, none, some, ltb, ◌==◌, if◌then◌else◌,
  get_or,
}
use ccrtp.Crypto.{Encryption, Authentication, null, shift_left, set_low}

-- The state that the check and the update read and write.
pub record CryptoContextCtrl : Type 0 where
  pub ssrc : ℕ
  pub s_l : ℕ
  pub replay_window : List Bool
  pub ealg : Encryption
  pub aalg : Authentication
  pub tag_length : ℕ

abbrev pub is_null_policy : CryptoContextCtrl → Bool
is_null_policy c = elim c.aalg [ null ↦ elim c.ealg [ null ↦ true | _ ↦ false ] | _ ↦ false ]

-- The difference of two uint32 values wraps before it becomes the int64 `delta`.
abbrev pub sub32 : ℕ → ℕ → ℕ
sub32 a b = (a + 2 ^ 32 - b) % 2 ^ 32

-- `delta` is never negative, so the age guard compares 0 with the window's size.
unfoldable pub check_replay : CryptoContextCtrl → ℕ → Bool
check_replay c index =
    if is_null_policy c
    then true
    else if ltb 0 (sub32 c.s_l index)
    then true
    else if get_or c.replay_window 0 false
    then false
    else true

-- `none` is a shift by 64 or more, which C leaves undefined.
unfoldable pub update : CryptoContextCtrl → ℕ → Option CryptoContextCtrl
update c index =
    let delta = sub32 index c.s_l in
    if ltb 0 delta
    then (if ltb delta 64
        then some
            (record c { replay_window = set_low (shift_left delta c.replay_window); s_l = index })
        else none)
    else some (record c { replay_window = set_low c.replay_window; s_l = index })
