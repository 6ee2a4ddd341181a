-- ===== src/CryptoCtrl/Tests.antt =====
-- The SRTCP check on a concrete context.
use ccrtp.Prelude.{ℕ, ◌≡◌, ◌≢◌, ◌↔◌, refl, true, false, some, ◌∷◌, replicate, arith}
use ccrtp.Crypto.{Encryption, Authentication, shift_left}
use ccrtp.CryptoCtrl.{CryptoContextCtrl, check_replay, update}
use ccrtp.CryptoCtrl.Replay.{check_replay-update}

abbrev context : CryptoContextCtrl
context = record {
  ssrc = 7;
  s_l = 100;
  replay_window = true ∷ replicate 63 false;
  ealg = Encryption.aes_cm;
  aalg = Authentication.sha1_hmac;
  tag_length = 10;
}

abbrev moved : CryptoContextCtrl
moved = record context { s_l = 102; replay_window = true ∷ false ∷ true ∷ replicate 61 false }

moves : update context 102 ≡ some moved
unfolding update shift_left
moves = refl

-- Index 100 has been received.
check_replay-update_example : (check_replay moved 100 ≡ true) ↔ (◌≢◌ {A = ℕ} 100 102)
check_replay-update_example =
    check_replay-update context 102 100 (record { s_l = omega arith; window = refl }) refl
      (omega arith) (omega arith) moves
