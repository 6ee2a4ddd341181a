-- ===== src/CryptoCtrl/Replay.antt =====
-- src/CryptoContextCtrl.cpp, `checkReplay` after `update`.
use ccrtp.Prelude.{ℕ, ◌^◌, ◌<◌, ◌≡◌, ◌≢◌, ◌↔◌, true, false, some, length, arith}
use ccrtp.Crypto.{shift_left}
use ccrtp.Crypto.Replay.{length-shift_left, get_or-set_low}
use ccrtp.CryptoCtrl.{CryptoContextCtrl, is_null_policy, sub32, check_replay, update}

-- A context whose fields lie in their C types.
pub record IsContext (c : CryptoContextCtrl) : Type 0 where
  pub s_l : c.s_l < 2 ^ 32
  pub window : length c.replay_window ≡ 64

-- After an update by one index the check refuses that index alone: every other index, however
-- old and whether it was received before or not, is accepted.
pub check_replay-update :
    (c : CryptoContextCtrl) (index other : ℕ) {c' : CryptoContextCtrl}
    → IsContext c
    → is_null_policy c ≡ false
    → index < 2 ^ 32
    → other < 2 ^ 32
    → update c index ≡ some c'
    → (check_replay c' other ≡ true) ↔ (other ≢ index)
unfolding check_replay update
check_replay-update c index other v p hi ho e =
    let d = sub32 index c.s_l in
    let facts = get_or-set_low (shift_left d c.replay_window) 0 in
    (
      ground (arith, facts, length-shift_left d c.replay_window, get_or-set_low c.replay_window 0),
      ground (arith, facts, length-shift_left d c.replay_window, get_or-set_low c.replay_window 0),
    )
