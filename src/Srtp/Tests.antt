-- ===== src/Srtp/Tests.antt =====
-- Protected RTP packets with a small cipher and MAC.
use ccrtp.Prelude.{
  ℕ, ◌+◌, ◌≡◌, ◌≢◌, refl, inr, List, [], ◌∷◌, none, some, true, false, replicate, ◌>>=◌, arith,
}
use ccrtp.Crypto
use ccrtp.Crypto.{
  CryptoContext, Encryption, Authentication, check_replay, guess_index, guess_roc, shift_left,
}
use ccrtp.Packet.{RtpPacket}
use ccrtp.Packet.Memory.{slice}
use ccrtp.Cipher.Samples.{sample_key, sample_memory}
use ccrtp.Session.{SessionKeys, derive_keys, srtcp_iv}
use ccrtp.Session.Samples.{sample_keys, toy_mac, toy_library}
use ccrtp.Srtcp.{accepted}
use ccrtp.Srtp.{SrtpContext, protect, unprotect, srtp_encrypt}
use ccrtp.Srtp.RoundTrip.{built}
use ccrtp.Srtp.Delivery.{delivered, on_wire, unprotect-protect}
use ccrtp.Srtp.Clear.{derive_keys-clear}

-- The receiver has seen the packet 65535 under the rollover counter 5.
abbrev state : CryptoContext
state = record {
  ssrc = 7;
  roc = 5;
  guessed_roc = 5;
  s_l = 65535;
  seq_num_set = true;
  replay_window = true ∷ replicate 63 false;
  ealg = Encryption.aes_cm;
  aalg = Authentication.sha1_hmac;
  tag_length = 10;
  mki_length = 0;
  key_deriv_rate = 0;
  ekeyl = 16;
  akeyl = 20;
  skeyl = 14;
}

abbrev receiver : SrtpContext
receiver = record { state = state; keys = sample_keys }

-- The sender's counter has been raised behind 65535.
abbrev sender : SrtpContext
sender = record { state = record state { roc = 6 }; keys = sample_keys }

-- Behind the packet 1 of the next cycle.
abbrev moved : CryptoContext
moved = record state {
  roc = 6;
  guessed_roc = 6;
  s_l = 1;
  replay_window = true ∷ false ∷ true ∷ replicate 61 false;
}

moves : Crypto.update (record state { guessed_roc = 6 }) 1 ≡ some moved
unfolding Crypto.update guess_index guess_roc shift_left
moves = refl

fresh : check_replay state 1 ≡ some (true, record state { guessed_roc = 6 })
unfolding check_replay guess_index guess_roc
fresh = refl

guesses : guess_roc 5 65535 1 ≡ 6
unfolding guess_roc
guesses = refl

signed : ◌≢◌ {A = Authentication} Authentication.sha1_hmac Authentication.null
signed h = absurd (cc h)

-- Twenty bytes behind a header of twelve; `sample_memory 32` has no padding bit.
abbrev packet_memory : ℕ → ℕ
packet_memory j = sample_memory (j + 18)

unprotect-protect_example :
    (protect sender [] (built packet_memory 42 12 20 10) 1 99 >>= λ t.
    unprotect receiver [] [] (on_wire t.0 10) (record { seq_num = 1; timestamp = 1000; ssrc = 99 })
    >>= λ r. some (delivered r))
    ≡ some (record {
      verdict = accepted 1;
      bytes = slice packet_memory 0 32;
      total = 32;
      payload_size = 20;
      context = record receiver { state = moved };
    })
unprotect-protect_example =
    unprotect-protect sender receiver [] [] [] packet_memory 42 12 20 10 1 99 1000
      (record state { guessed_roc = 6 }) moved
      (record { ealg = refl; aalg = refl; tag_length = refl; keys = refl }) (inr (refl, (_, refl)))
      (inr (signed, omega arith, (toy_mac sample_key, refl, λ m. refl))) refl refl (omega arith)
      (omega arith) (omega arith) (omega arith)
      (record { roc = omega arith; s_l = omega arith; started = refl; window = refl }) refl guesses
      fresh moves

-- Session keys of 24 bytes.
abbrev odd_keys : SessionKeys
odd_keys = record sample_keys {
  master_key = replicate 16 9;
  k_e = replicate 24 200;
  cipher = some (record { key = none; algorithm = Encryption.aes_cm });
}

derive_keys-clear_example :
    (after : SessionKeys) × (derive_keys toy_library Authentication.sha1_hmac 10
        (replicate 16 0)
        (λ n. srtcp_iv n (replicate 14 3))
        odd_keys
      ≡ some after)
    × ((roc : ℕ) (junk : List ℕ) (p : RtpPacket) (index ssrc : ℕ)
        → srtp_encrypt Encryption.aes_cm after roc junk p index ssrc ≡ some p.buffer.bytes)
derive_keys-clear_example =
    derive_keys-clear toy_library Authentication.sha1_hmac 10 (replicate 16 0)
      (λ n. srtcp_iv n (replicate 14 3)) odd_keys
      (record { key = none; algorithm = Encryption.aes_cm }) refl refl refl refl (λ k b. refl)
      (omega arith) (omega arith) (omega arith)
