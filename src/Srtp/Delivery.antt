-- ===== src/Srtp/Delivery.antt =====
-- OutgoingRTPPkt::protect and IncomingRTPPkt::unprotect between two contexts with the same keys.
use ccrtp.Prelude.{
  ℕ, ◌+◌, ◌*◌, ◌^◌, ◌≤◌, ◌<◌, ◌≡◌, refl, sym, ap, ◌∙◌, List, Bool, Option, true, false, some, arith,
  ◌>>=◌,
}
use ccrtp.Crypto
use ccrtp.Crypto.{
  Encryption, Authentication, CryptoContext, check_replay, guess_roc, guess_index, is_null_policy,
}
use ccrtp.Crypto.Index.{IsContext, guess_index-context}
use ccrtp.Crypto.Replay.{check_replay-context}
use ccrtp.Packet.{RtpPacket, padding_of}
use ccrtp.Packet.Memory.{slice}
use ccrtp.Cipher.Stream.{max_ctr_len}
use ccrtp.Session.{SessionKeys}
use ccrtp.Srtcp.{Verdict, accepted}
use ccrtp.Srtcp.Enciphering.{CanEncipher, CanAuthenticate, CanAuthenticate-Tags, Tags}
use ccrtp.Srtcp.Delivery.{tag_limit}
use ccrtp.Srtp.{SrtpContext, protect, unprotect, Unprotected}
use ccrtp.Srtp.Sealed.{BodyMask, srtp_encrypt-BodyMask}
use ccrtp.Srtp.RoundTrip.{built, arrived, protect-built, unprotect-arrived, opened-sent}

-- The two ends of a session: the same algorithms, tag length and keys. What they have received
-- and the rollover counters may differ.
pub record IsPeer (p q : SrtpContext) : Type 0 where
  pub ealg : p.state.ealg ≡ q.state.ealg
  pub aalg : p.state.aalg ≡ q.state.aalg
  pub tag_length : p.state.tag_length ≡ q.state.tag_length
  pub keys : p.keys ≡ q.keys

-- The sender's mask and tags are the receiver's.
abbrev peer_mask :
    (e e' : Encryption) (k k' : SessionKeys) (hdr n index ssrc : ℕ)
    → e' ≡ e
    → k' ≡ k
    → BodyMask e k hdr n index ssrc
    → BodyMask e' k' hdr n index ssrc
peer_mask e e' k k' hdr n index ssrc f g b = record {
  mask = b.mask;
  only = b.only;
  encrypts = λ roc junk p h i. rw (f, g) (b.encrypts roc junk p h i);
}

abbrev peer_tags :
    (a a' : Authentication) (k k' : SessionKeys) (n n' : ℕ)
    → a' ≡ a
    → k' ≡ k
    → n' ≡ n
    → Tags a k n
    → Tags a' k' n'
peer_tags a a' k k' n n' f g h t = record {
  tag = t.tag;
  tag_size = λ m. rw h (t.tag_size m);
  computes = λ m old l. rw (f, g, h) (t.computes m old (omega arith));
}

-- What the receiver has of an unprotected packet: the verdict, the bytes without the tag, their
-- number and that of the payload, and the context.
pub record Delivered : Type 0 where
  pub verdict : Verdict
  pub bytes : List ℕ
  pub total : ℕ
  pub payload_size : ℕ
  pub context : SrtpContext

abbrev pub delivered : Unprotected → Delivered
delivered r = record {
  verdict = r.verdict;
  bytes = slice r.packet.buffer.bytes 0 r.packet.total;
  total = r.packet.total;
  payload_size = r.packet.payload_size;
  context = r.context;
}

-- What arrives of a packet that was sent with `m` bytes of tag.
abbrev pub on_wire : RtpPacket → ℕ → RtpPacket
on_wire p m = arrived p.buffer.bytes p.buffer.size p.hdr_size (p.payload_size + m)

-- A packet without padding, shorter than 2 ^ 20 bytes, that protect has enciphered and signed is
-- accepted by unprotect, with its bytes, length and payload size as before protect, and the replay
-- window is updated. The contexts have the same algorithms, keys and tag length, counter mode or no
-- encryption, a MAC of 20 bytes or no tag, and no MKI; the receiver guesses the sender's rollover
-- counter, its replay check accepts the number, and the update has a result.
pub unprotect-protect :
    (p q : SrtpContext) (junk junk' mac : List ℕ) (mem : ℕ → ℕ)
    (size hdr n extra seq ssrc timestamp : ℕ) (s updated : CryptoContext)
    → IsPeer p q
    → CanEncipher q.state.ealg q.keys
    → CanAuthenticate q.state.aalg q.keys q.state.tag_length
    → q.state.mki_length ≡ 0
    → padding_of (mem 0) ≡ 0
    → 1 ≤ hdr
    → hdr + n < max_ctr_len
    → seq < 2 ^ 16
    → p.state.roc < 2 ^ 32
    → IsContext q.state
    → is_null_policy q.state ≡ false
    → guess_roc q.state.roc q.state.s_l seq ≡ p.state.roc
    → check_replay q.state seq ≡ some (true, s)
    → Crypto.update s seq ≡ some updated
    → (protect p junk (built mem size hdr n extra) seq ssrc >>= λ t.
        unprotect q junk' mac
          (on_wire t.0 q.state.tag_length)
          (record { seq_num = seq; timestamp = timestamp; ssrc = ssrc })
        >>= λ r. some (delivered r))
      ≡ some (record {
        verdict = accepted 1;
        bytes = slice mem 0 (hdr + n);
        total = hdr + n;
        payload_size = n;
        context = record q { state = updated };
      })
unprotect-protect p q junk junk' mac mem size hdr n extra seq ssrc timestamp s updated f e a k plain
      h small b t v policy g r u =
    let roc = p.state.roc in
    let state : CryptoContext = record (q.state) { guessed_roc = roc } in
    let c : SrtpContext = record q { state = state } in
    let body =
      srtp_encrypt-BodyMask q.state.ealg q.keys hdr n (roc * 2 ^ 16 + seq) ssrc e (omega arith) in
    let tags = CanAuthenticate-Tags q.state.aalg q.keys q.state.tag_length a in
    let body' =
      peer_mask q.state.ealg p.state.ealg q.keys p.keys hdr n (roc * 2 ^ 16 + seq) ssrc f.ealg
        f.keys body in
    let tags' =
      peer_tags q.state.aalg p.state.aalg q.keys p.keys q.state.tag_length p.state.tag_length f.aalg
        f.keys f.tag_length tags in
    let short = tag_limit q.state.aalg q.keys q.state.tag_length a in
    let guessed : s ≡ state =
      check_replay-context q.state seq v policy r
      ∙ ap (λ x. record (q.state) { guessed_roc = x }) g in
    let found : CryptoContext → Option (Bool × CryptoContext) = λ x. some (true, x) in
    let guess : ℕ → ℕ × CryptoContext =
      λ x. (x * 2 ^ 16 + seq, record (q.state) { guessed_roc = x }) in
    let guesses : guess_index state seq ≡ (roc * 2 ^ 16 + seq, state) =
      guess_index-context state seq
        (record { roc = v.roc; s_l = v.s_l; started = v.started; window = v.window })
      ∙ ap guess g in
    let received =
      unprotect-arrived c junk' mac mem size hdr n seq ssrc roc body tags plain small q.state state
        updated h b t refl k short (r ∙ ap found guessed) guesses
        (sym (ap (λ x. Crypto.update x seq) guessed) ∙ u)
        (record { seq_num = seq; timestamp = timestamp; ssrc = ssrc }) refl refl in
    let receive : RtpPacket × SrtpContext → Option Delivered = λ t.
      unprotect q junk' mac (on_wire t.0 q.state.tag_length)
        (record { seq_num = seq; timestamp = timestamp; ssrc = ssrc })
      >>= λ r. some (delivered r) in
    let outcome : List ℕ → Option Delivered = λ l. some (record {
      verdict = accepted 1;
      bytes = l;
      total = hdr + n;
      payload_size = n;
      context = record q { state = updated };
    }) in
    ap (λ o. o >>= receive)
      (protect-built p junk mac mem size hdr n seq ssrc roc body' tags' plain small extra refl)
    ∙ ap (λ o. o >>= λ r. some (delivered r)) received
    ∙ ap outcome (opened-sent c junk' mac mem size hdr n seq ssrc roc body tags plain small)
