-- ===== src/Srtcp/Samples.antt =====
-- Two SRTCP contexts with the same keys for the tests.
use ccrtp.Prelude.{ℕ, ◌≡◌, ◌≢◌, refl, ◌∷◌, some, true, false, replicate}
use ccrtp.Crypto.{Encryption, Authentication, shift_left}
use ccrtp.CryptoCtrl
use ccrtp.CryptoCtrl.{CryptoContextCtrl, check_replay}
use ccrtp.Session.Samples.{sample_keys}
use ccrtp.Srtcp.{SrtcpContext}

abbrev pub control : CryptoContextCtrl
control = record {
  ssrc = 7;
  s_l = 5;
  replay_window = true ∷ replicate 63 false;
  ealg = Encryption.aes_cm;
  aalg = Authentication.sha1_hmac;
  tag_length = 10;
}

abbrev pub sender : SrtcpContext
sender = record {
  control = record control { s_l = 0 };
  keys = sample_keys;
  mki_length = 0;
  ekeyl = 16;
  akeyl = 20;
  skeyl = 14;
}

abbrev pub receiver : SrtcpContext
receiver = record {
  control = control;
  keys = sample_keys;
  mki_length = 0;
  ekeyl = 16;
  akeyl = 20;
  skeyl = 14;
}

-- The receiver after the packet with index 6.
abbrev pub moved : CryptoContextCtrl
moved = record control { s_l = 6; replay_window = true ∷ true ∷ replicate 62 false }

pub moves :
    (s : ℕ) → CryptoCtrl.update (record control { ssrc = s }) 6 ≡ some (record moved { ssrc = s })
unfolding CryptoCtrl.update shift_left
moves s = refl

pub fresh : (s : ℕ) → check_replay (record control { ssrc = s }) 6 ≡ true
unfolding check_replay
fresh s = refl

pub keyed : ◌≢◌ {A = Authentication} Authentication.sha1_hmac Authentication.null
keyed h = absurd (cc h)
