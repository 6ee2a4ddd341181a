-- ===== src/Contexts/Create.antt =====
-- src/CryptoContext.cpp: the constructor of CryptoContext and `newCryptoContextForSSRC`, and the
-- look-up of `takeInDataPacket` in src/incqueue.cpp that makes contexts from the one of SSRC 0.
use ccrtp.Prelude.{
  ℕ, ◌<◌, ◌≡◌, ◌≢◌, ◌⊎◌, inl, inr, refl, List, false, true, Option, none, some, ◌>>=◌, replicate,
  length, arith,
}
use ccrtp.Crypto.{Encryption, Authentication, aes_cm, aes_f8, window_size}
use ccrtp.Packet.Memory.{length-slice}
use ccrtp.Cipher.{is_aes_length}
use ccrtp.Cipher.Counter.{keyed}
use ccrtp.Cipher.Stream.{max_ctr_len}
use ccrtp.Session.{
  Library, SessionKeys, new_session, auth_size, new_cipher, srtp_iv, derive_srtp_keys,
}
use ccrtp.Session.Derive.{Derived, derive_keys-Derived}
use ccrtp.Srtp.{SrtpContext}
use ccrtp.Contexts.{ssrc_of, set_in_queue_crypto_context, get_in_queue_crypto_context}
use ccrtp.Contexts.Lookup.{OnePerSource, set_in_queue_crypto_context-get}

-- The length of the authentication tag: null authentication has none.
unfoldable pub tag_length_for : Authentication → ℕ → ℕ
tag_length_for Authentication.null tag_length = 0
tag_length_for Authentication.sha1_hmac tag_length = tag_length
tag_length_for Authentication.skein_hmac tag_length = tag_length

-- The constructor. `heap` is what new memory holds.
unfoldable pub new_crypto_context :
    (heap : ℕ → ℕ) (ssrc roc key_deriv_rate : ℕ)
    → Encryption
    → Authentication
    → (master_key master_salt : List ℕ) → (ekeyl akeyl skeyl tag_length : ℕ) → SrtpContext
new_crypto_context heap ssrc roc key_deriv_rate ealg aalg master_key master_salt ekeyl akeyl skeyl
      tag_length =
    record {
      state = record {
        ssrc = ssrc;
        roc = roc;
        guessed_roc = 0;
        s_l = 0;
        seq_num_set = false;
        replay_window = replicate window_size false;
        ealg = ealg;
        aalg = aalg;
        tag_length = tag_length_for aalg tag_length;
        mki_length = 0;
        key_deriv_rate = key_deriv_rate;
        ekeyl = ekeyl;
        akeyl = akeyl;
        skeyl = skeyl;
      };
      keys = new_session heap ealg aalg master_key master_salt ekeyl akeyl skeyl;
    }

unfoldable pub new_crypto_context_for_ssrc : (ℕ → ℕ) → SrtpContext → ℕ → ℕ → ℕ → SrtpContext
new_crypto_context_for_ssrc heap c ssrc roc key_deriv_rate =
    new_crypto_context heap ssrc roc key_deriv_rate c.state.ealg c.state.aalg c.keys.master_key
      c.keys.master_salt c.state.ekeyl c.state.akeyl c.state.skeyl c.state.tag_length

-- The call deriveSrtpKeys(0) of a context; `temp` is what its stack holds. A call of a NULL cipher
-- is `none`.
unfoldable pub derived : Library → List ℕ → SrtpContext → Option SrtpContext
derived lib temp c =
    derive_srtp_keys lib c.state.aalg c.state.tag_length 0 c.state.key_deriv_rate temp c.keys
    >>= λ keys. some (record c { keys = keys })

module _ (lib : Library) (heap : ℕ → ℕ) (temp : List ℕ) where
  -- The context for a packet, by the one of its SSRC and the one of SSRC 0, and the list behind it.
  unfoldable pub choose_context :
      List SrtpContext
      → ℕ
      → Option SrtpContext
      → Option SrtpContext
      → Option (Option SrtpContext × List SrtpContext)
  choose_context contexts ssrc (some c) base = some (some c, contexts)
  choose_context contexts ssrc none none = some (none, contexts)
  choose_context contexts ssrc none (some template) =
      derived lib temp (new_crypto_context_for_ssrc heap template ssrc 0 0) >>= λ made.
      some (some made, set_in_queue_crypto_context contexts made)

  unfoldable pub context_for_packet :
      List SrtpContext → ℕ → Option (Option SrtpContext × List SrtpContext)
  context_for_packet contexts ssrc =
      choose_context contexts ssrc (get_in_queue_crypto_context contexts ssrc)
        (get_in_queue_crypto_context contexts 0)

-- A context from which new ones can derive keys by AES.
pub record CanDerive (lib : Library) (template : SrtpContext) : Type 0 where
  pub cipher : (template.state.ealg ≡ aes_cm) ⊎ (template.state.ealg ≡ aes_f8)
  pub key : is_aes_length (length template.keys.master_key) ≡ true
  pub blocks : (k b : List ℕ) → length (lib.ciphers.aes k b) ≡ 16
  pub encryption : template.state.ekeyl < max_ctr_len
  pub authentication : auth_size template.state.aalg template.state.akeyl < max_ctr_len
  pub salt : template.state.skeyl < max_ctr_len

-- The keys of a new context before the derivation.
abbrev pub keys_for : (ℕ → ℕ) → SrtpContext → SessionKeys
keys_for heap t =
    new_session heap t.state.ealg t.state.aalg t.keys.master_key t.keys.master_salt t.state.ekeyl
      t.state.akeyl t.state.skeyl

-- What a new context has of the one it is made from: its algorithms, and keys derived from its
-- master key and salt, which are erased in the new one.
pub record MadeFrom (lib : Library) (heap : ℕ → ℕ) (temp : List ℕ) (template made : SrtpContext)
    : Type 0 where
  pub roc : made.state.roc ≡ 0
  pub ealg : made.state.ealg ≡ template.state.ealg
  pub aalg : made.state.aalg ≡ template.state.aalg
  pub keys :
      Derived lib template.state.aalg
        (tag_length_for template.state.aalg template.state.tag_length)
        temp
        (λ n. srtp_iv n 0 0 template.keys.master_salt)
        (keyed aes_cm (lib.ciphers.aes template.keys.master_key))
        (keys_for heap template)
        made.keys

-- The keys that the constructor sets up for AES.
record FreshKeys (t : SrtpContext) (keys : SessionKeys) : Type 0 where
  cipher : keys.cipher ≡ some (new_cipher aes_cm)
  master_key : keys.master_key ≡ t.keys.master_key
  master_salt : keys.master_salt ≡ t.keys.master_salt
  k_e : length keys.k_e ≡ t.state.ekeyl
  k_a : length keys.k_a ≡ auth_size t.state.aalg t.state.akeyl
  k_s : length keys.k_s ≡ t.state.skeyl

keys_for-FreshKeys :
    (heap : ℕ → ℕ) (t : SrtpContext)
    → (t.state.ealg ≡ aes_cm) ⊎ (t.state.ealg ≡ aes_f8)
    → FreshKeys t (keys_for heap t)
unfolding new_session
keys_for-FreshKeys heap t (inl e) = rw e (record {
  cipher = refl;
  master_key = refl;
  master_salt = refl;
  k_e = length-slice heap 0 t.state.ekeyl;
  k_a = length-slice heap 0 (auth_size t.state.aalg t.state.akeyl);
  k_s = length-slice heap 0 t.state.skeyl;
})
keys_for-FreshKeys heap t (inr e) = rw e (record {
  cipher = refl;
  master_key = refl;
  master_salt = refl;
  k_e = length-slice heap 0 t.state.ekeyl;
  k_a = length-slice heap 0 (auth_size t.state.aalg t.state.akeyl);
  k_s = length-slice heap 0 t.state.skeyl;
})

Derived-from :
    {lib : Library} {temp k k' salt salt' : List ℕ} (a : Authentication) (tag : ℕ)
    (before after : SessionKeys)
    → k ≡ k'
    → salt ≡ salt'
    → Derived lib a tag temp
        (λ n. srtp_iv n 0 0 salt)
        (keyed aes_cm (lib.ciphers.aes k))
        before
        after
    → Derived lib a tag temp
        (λ n. srtp_iv n 0 0 salt')
        (keyed aes_cm (lib.ciphers.aes k'))
        before
        after
Derived-from a tag before after e e' d = rw (e, e') at d

derived-MadeFrom :
    (lib : Library) (heap : ℕ → ℕ) (temp : List ℕ) (template : SrtpContext) (s : ℕ)
    → CanDerive lib template
    → (made : SrtpContext) × (derived lib temp (new_crypto_context_for_ssrc heap template s 0 0)
        ≡ some made)
      × (made.state.ssrc ≡ s)
      × MadeFrom lib heap temp template made
unfolding derived new_crypto_context_for_ssrc new_crypto_context derive_srtp_keys
derived-MadeFrom lib heap temp template s can =
    let t = template in
    let fresh = keys_for-FreshKeys heap t can.cipher in
    let tag = tag_length_for t.state.aalg t.state.tag_length in
    let (keys, e, d) =
      derive_keys-Derived lib t.state.aalg tag temp
        (λ n. srtp_iv n 0 0 (keys_for heap t).master_salt) (keys_for heap t) (new_cipher aes_cm)
        fresh.cipher refl (rw fresh.master_key can.key) can.blocks
        (omega (arith, fresh.k_e, can.encryption)) (omega (arith, fresh.k_a, can.authentication))
        (omega (arith, fresh.k_s, can.salt)) in
    (
      record (new_crypto_context_for_ssrc heap t s 0 0) { keys = keys },
      rw e refl,
      refl,
      record {
        roc = refl;
        ealg = refl;
        aalg = refl;
        keys =
            Derived-from t.state.aalg tag (keys_for heap t) keys fresh.master_key fresh.master_salt
              d;
      },
    )

-- The first packet of an unknown SSRC, in a list with a context for SSRC 0 that uses AES, with a
-- master key of 16 or 32 bytes and keys of fewer than 2 ^ 20 bytes to derive, gets a context of
-- that SSRC with rollover counter 0 and the algorithms of the one for SSRC 0. Its session keys are
-- derived from the master key and salt of that one, of which it keeps only zeros. The list still
-- has one context per SSRC, the next packet gets the same context from it with the list unchanged,
-- and no other SSRC gets another context than before.
pub context_for_packet-learns :
    (lib : Library) (heap : ℕ → ℕ) (temp : List ℕ) (cs : List SrtpContext) (s : ℕ)
    (template : SrtpContext)
    → OnePerSource ssrc_of cs
    → get_in_queue_crypto_context cs s ≡ none
    → get_in_queue_crypto_context cs 0 ≡ some template
    → CanDerive lib template
    → (made : SrtpContext) × (after : List SrtpContext) × (context_for_packet lib heap temp cs s
        ≡ some (some made, after))
      × (made.state.ssrc ≡ s)
      × MadeFrom lib heap temp template made
      × OnePerSource ssrc_of after
      × (context_for_packet lib heap temp after s ≡ some (some made, after))
      × ((k : ℕ) → k ≢ s → get_in_queue_crypto_context after k ≡ get_in_queue_crypto_context cs k)
unfolding context_for_packet choose_context
context_for_packet-learns lib heap temp cs s template one missing base can =
    let (made, e, named, from) = derived-MadeFrom lib heap temp template s can in
    let stored = set_in_queue_crypto_context-get cs made one in
    let found : get_in_queue_crypto_context (set_in_queue_crypto_context cs made) s ≡ some made =
      rw named at stored.1 in
    (
      made,
      set_in_queue_crypto_context cs made,
      rw (missing, base) (rw e refl),
      named,
      from,
      stored.0,
      rw found refl,
      rw named at stored.2,
    )
