-- ===== src/Crypto/Tests.antt =====
-- Runs of the SRTP context on concrete packets.
use ccrtp.Prelude.{
  ◌+◌, ◌*◌, ◌^◌, ◌≤◌, ◌<◌, ◌%◌, ◌≡◌, ◌↔◌, ◌⊎◌, refl, [], ◌∷◌, true, false, ◌||◌, none, some, ◌==◌,
  replicate, arith,
}
use mathlib.Core.Option
use mathlib.Core.List.Memᴰ.{head, tail}
use ccrtp.Crypto.{
  CryptoContext, Encryption, Authentication, local_index, guess_roc, guess_index, check_replay,
  shift_left, update,
}
use ccrtp.Crypto.Index.{IsContext, distance, guess_index-nearest}
use ccrtp.Crypto.Replay.{seen, update-seen, check_replay-decides}
use ccrtp.Crypto.History.{Accepts, start, next, Accepts-refuses}

-- Rollover counter 5, sequence number 10; the packets 10 and 8 have been seen.
abbrev context : CryptoContext
context = record {
  ssrc = 7;
  roc = 5;
  guessed_roc = 5;
  s_l = 10;
  seq_num_set = true;
  replay_window = true ∷ false ∷ true ∷ replicate 61 false;
  ealg = Encryption.aes_cm;
  aalg = Authentication.sha1_hmac;
  tag_length = 10;
  mki_length = 0;
  key_deriv_rate = 0;
  ekeyl = 16;
  akeyl = 20;
  skeyl = 14;
}

context-IsContext : IsContext context
context-IsContext = record { roc = omega arith; s_l = omega arith; started = refl; window = refl }

runs : Unit {0}
unfolding guess_roc guess_index check_replay shift_left update
runs = tt

-- The packet before the rollover is taken for an old one.
guess_rolls_back : (guess_index context 65535).0 ≡ 4 * 2 ^ 16 + 65535
unfolding runs
guess_rolls_back = refl

replay_refused : Option.map (λ r. r.0) (check_replay context 8) ≡ some false
unfolding runs
replay_refused = refl

late_accepted : check_replay context 9 ≡ some (true, context)
unfolding runs
late_accepted = refl

guess_index-nearest_example :
    let guessed = (guess_index context 65535).0 in
    (guessed % 2 ^ 16 ≡ 65535)
    × (distance guessed (local_index context) ≤ 2 ^ 15)
    × (distance guessed (local_index context) ≤ distance 65535 (local_index context))
guess_index-nearest_example =
    guess_index-nearest context 65535 65535 context-IsContext
      (record { low = omega arith; high = omega arith }) (omega arith) (omega arith)

-- The context after packet 12.
abbrev moved : CryptoContext
moved = record context {
  s_l = 12;
  replay_window = true ∷ false ∷ true ∷ false ∷ true ∷ replicate 59 false;
}

moves : update context 12 ≡ some moved
unfolding runs
moves = refl

update-seen_example :
    (local_index moved ≡ (guess_index context 12).0)
    × (seen moved (5 * 2 ^ 16 + 10)
        ≡ (5 * 2 ^ 16 + 10 == (guess_index context 12).0 || seen context (5 * 2 ^ 16 + 10)))
update-seen_example =
    update-seen context 12 (5 * 2 ^ 16 + 10) context-IsContext
      (record { low = omega arith; high = omega arith }) (omega arith) moves (omega arith)
      (omega arith)

check_replay-decides_example :
    let guessed = (guess_index context 9).0 in
    ((check_replay context 9 ≡ none) ↔ (guessed + 64 ≡ local_index context))
    × ((Option.map (λ r. r.0) (check_replay context 9) ≡ some true) ↔ (
        (local_index context < guessed)
        ⊎ ((local_index context < guessed + 64) × (seen context guessed ≡ false))))
check_replay-decides_example = check_replay-decides context 9 context-IsContext refl

checks : check_replay context 12 ≡ some (true, context)
unfolding runs
checks = refl

abbrev last : CryptoContext
last = record moved {
  s_l = 14;
  replay_window = true ∷ false ∷ true ∷ false ∷ true ∷ false ∷ true ∷ replicate 57 false;
}

checks_next : check_replay moved 14 ≡ some (true, moved)
unfolding runs
checks_next = refl

moves_next : update moved 14 ≡ some last
unfolding runs
moves_next = refl

two_packets : Accepts context ((guess_index moved 14).0 ∷ (guess_index context 12).0 ∷ []) last
two_packets =
    next 14
      (next 12 start (record { low = omega arith; high = omega arith }) (omega arith) checks moves)
      (record { low = omega arith; high = omega arith }) (omega arith) checks_next moves_next

packet_twice : (guess_index last 12).0 ≡ (guess_index context 12).0
unfolding runs
packet_twice = refl

-- Packet 12 comes again, late.
Accepts-refuses_example :
    (Option.map (λ r. r.0) (check_replay last 12) ≡ some false)
    ⊎ ((check_replay last 12 ≡ none) × ((guess_index last 12).0 + 64 ≡ local_index last))
Accepts-refuses_example =
    Accepts-refuses 12 context-IsContext refl two_packets (tail (head packet_twice))
