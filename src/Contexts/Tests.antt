-- ===== src/Contexts/Tests.antt =====
-- Lists of crypto contexts on concrete contexts.
use ccrtp.Prelude.{ℕ, ◌≡◌, ◌≢◌, refl, inl, arith, List, [], ◌∷◌, true, none, some, replicate}
use ccrtp.Crypto.{CryptoContext, Encryption, Authentication}
use ccrtp.Session.{SessionKeys, new_session}
use ccrtp.Session.Samples.{toy_library}
use ccrtp.Srtp.{SrtpContext}
use ccrtp.Contexts.{ssrc_of, find, get_in_queue_crypto_context}
use ccrtp.Contexts.Create.{CanDerive, MadeFrom, context_for_packet, context_for_packet-learns}
use ccrtp.Contexts.Lookup.{OnePerSource}

abbrev state : ℕ → ℕ → CryptoContext
state ssrc roc = record {
  ssrc = ssrc;
  roc = roc;
  guessed_roc = 0;
  s_l = 0;
  seq_num_set = true;
  replay_window = replicate 64 true;
  ealg = Encryption.aes_cm;
  aalg = Authentication.sha1_hmac;
  tag_length = 10;
  mki_length = 0;
  key_deriv_rate = 0;
  ekeyl = 16;
  akeyl = 20;
  skeyl = 14;
}

-- Before the derivation.
abbrev keys : SessionKeys
keys =
    new_session (λ j. 170) Encryption.aes_cm Authentication.sha1_hmac (replicate 16 9)
      (replicate 14 3) 16 20 14

abbrev context : ℕ → ℕ → SrtpContext
context ssrc roc = record { state = state ssrc roc; keys = keys }

-- A list with the context for SSRC 0.
abbrev templates : List SrtpContext
templates = context 7 3 ∷ context 0 5 ∷ []

templates-OnePerSource : OnePerSource ssrc_of templates
unfolding OnePerSource find
templates-OnePerSource = (refl, (refl, tt))

templates-missing : get_in_queue_crypto_context templates 9 ≡ none
unfolding get_in_queue_crypto_context find
templates-missing = refl

templates-base : get_in_queue_crypto_context templates 0 ≡ some (context 0 5)
unfolding get_in_queue_crypto_context find
templates-base = refl

template-CanDerive : CanDerive toy_library (context 0 5)
unfolding new_session
template-CanDerive = record {
  cipher = inl refl;
  key = refl;
  blocks = λ k b. refl;
  encryption = omega arith;
  authentication = omega arith;
  salt = omega arith;
}

context_for_packet-learns_example :
    (made : SrtpContext) × (after : List SrtpContext) × (context_for_packet toy_library
        (λ j. 85)
        (replicate 16 0)
        templates
        9
      ≡ some (some made, after))
    × (made.state.ssrc ≡ 9)
    × MadeFrom toy_library (λ j. 85) (replicate 16 0) (context 0 5) made
    × OnePerSource ssrc_of after
    × (context_for_packet toy_library (λ j. 85) (replicate 16 0) after 9 ≡ some (some made, after))
    × ((k : ℕ)
        → k ≢ 9
        → get_in_queue_crypto_context after k ≡ get_in_queue_crypto_context templates k)
context_for_packet-learns_example =
    context_for_packet-learns toy_library (λ j. 85) (replicate 16 0) templates 9 (context 0 5)
      templates-OnePerSource templates-missing templates-base template-CanDerive
