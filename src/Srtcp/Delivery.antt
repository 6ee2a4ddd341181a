-- ===== src/Srtcp/Delivery.antt =====
-- QueueRTCPManager::protect and unprotect between two contexts with the same session keys.
use ccrtp.Prelude.{ℕ, ◌∙◌, ◌+◌, ◌^◌, ◌≤◌, ◌<◌, ◌≡◌, refl, inl, inr, List, some, true, arith, ◌>>=◌}
use ccrtp.Crypto.{Encryption, Authentication, null, aes_cm, aes_f8, two_cm, two_f8}
use ccrtp.CryptoCtrl
use ccrtp.CryptoCtrl.{CryptoContextCtrl, check_replay}
use ccrtp.Packet.Memory.{slice}
use ccrtp.Cipher.Stream.{max_ctr_len}
use ccrtp.Session.{SessionKeys}
use ccrtp.Srtcp.{
  Protected, SrtcpContext, load32, clear_flag, behind_header, srtcp_encrypt, protect, Unprotected,
  Verdict, accepted, unprotect,
}
use ccrtp.Srtcp.Enciphering.{
  CanEncipher, srtcp_encrypt-Masks, CanAuthenticate, CanAuthenticate-Tags,
}
use ccrtp.Cipher.Mask.{masked}
use ccrtp.Srtcp.RoundTrip.{sent, same_source, protect-sealed, unprotect-sealed, opened-sent}

-- The two ends of a session: the same algorithms, tag length and keys. What they have received
-- and the master keys may differ.
pub record IsPeer (p q : SrtcpContext) : Type 0 where
  pub ealg : p.control.ealg ≡ q.control.ealg
  pub aalg : p.control.aalg ≡ q.control.aalg
  pub tag_length : p.control.tag_length ≡ q.control.tag_length
  pub keys : p.keys ≡ q.keys

-- Counter mode does not read the block on the stack.
srtcp_encrypt-junk :
    (ealg : Encryption) (keys : SessionKeys) (junk junk' : List ℕ) (mem : ℕ → ℕ)
    (pos len index ssrc : ℕ)
    → CanEncipher ealg keys
    → srtcp_encrypt ealg keys junk mem pos len index ssrc
      ≡ srtcp_encrypt ealg keys junk' mem pos len index ssrc
unfolding srtcp_encrypt
srtcp_encrypt-junk ealg keys junk junk' mem pos len index ssrc (inl p) = rw p
srtcp_encrypt-junk null keys junk junk' mem pos len index ssrc (inr h) = refl
srtcp_encrypt-junk aes_cm keys junk junk' mem pos len index ssrc (inr h) = refl
srtcp_encrypt-junk two_cm keys junk junk' mem pos len index ssrc (inr h) = refl
srtcp_encrypt-junk aes_f8 keys junk junk' mem pos len index ssrc (inr (p, q)) = absurd (cc p)
srtcp_encrypt-junk two_f8 keys junk junk' mem pos len index ssrc (inr (p, q)) = absurd (cc p)

protect-IsPeer :
    (p q : SrtcpContext) (junk junk' : List ℕ) (mem : ℕ → ℕ) (len index : ℕ)
    → IsPeer p q
    → CanEncipher q.control.ealg q.keys
    → protect p index junk mem len ≡ protect q index junk' mem len
unfolding protect
protect-IsPeer p q junk junk' mem len index f h = rw (
  protect,
  f.ealg,
  f.aalg,
  f.tag_length,
  f.keys,
  srtcp_encrypt-junk q.control.ealg q.keys junk junk' mem 8 (behind_header len) index (load32 mem 4)
      h,
)

pub tag_limit :
    (aalg : Authentication) (keys : SessionKeys) (n : ℕ) → CanAuthenticate aalg keys n → n ≤ 20
tag_limit aalg keys n (inl (p, q)) = omega arith
tag_limit aalg keys n (inr (p, h, m)) = h

-- A packet of `len` bytes, the memory `mem` that it was protected in, and what a receiver makes of
-- it.
pub record Exchanged (p q : SrtcpContext) (junk junk' mac : List ℕ) (mem : ℕ → ℕ) (len index : ℕ)
    (updated : CryptoContextCtrl) : Type 0 where
  pub sent : Protected
  pub opened : ℕ → ℕ
  pub protects : protect p index junk mem len ≡ some sent
  pub next_index : sent.srtcp_index ≡ clear_flag (index + 1)
  pub source : load32 sent.mem 4 ≡ load32 mem 4
  pub opens :
      unprotect q junk' mac sent.mem sent.len
      ≡ some (record {
        verdict = accepted len;
        mem = opened;
        context = record q { control = updated };
      })
  pub same : slice opened 0 len ≡ slice mem 0 len

pub protect-Exchanged :
    (p q : SrtcpContext) (junk junk' mac : List ℕ) (mem : ℕ → ℕ) (len index : ℕ)
    (updated : CryptoContextCtrl)
    → IsPeer p q
    → CanEncipher q.control.ealg q.keys
    → CanAuthenticate q.control.aalg q.keys q.control.tag_length
    → q.mki_length ≡ 0
    → 8 ≤ len
    → len < max_ctr_len
    → index < 2 ^ 31
    → check_replay q.control index ≡ true
    → CryptoCtrl.update q.control index ≡ some updated
    → Exchanged p q junk junk' mac mem len index updated
protect-Exchanged p q junk junk' mac mem len index updated f e a k h h' b r u =
    let masks =
      srtcp_encrypt-Masks q.control.ealg q.keys junk' 8 (behind_header len) index (load32 mem 4) e
        (omega arith) in
    let tags = CanAuthenticate-Tags q.control.aalg q.keys q.control.tag_length a in
    let short = tag_limit q.control.aalg q.keys q.control.tag_length a in
    record {
      sent = record {
        mem = sent q junk' mac mem len index masks tags;
        len = len + q.control.tag_length + 4;
        srtcp_index = clear_flag (index + 1);
      };
      opened = masked (sent q junk' mac mem len index masks tags) masks.mask;
      protects =
          protect-IsPeer p q junk junk' mem len index f e
          ∙ protect-sealed q junk' mac mem len index masks tags;
      next_index = refl;
      source = same_source q junk' mac mem len index masks tags h;
      opens = unprotect-sealed q junk' mac mem len index masks tags updated h h' b short k r u;
      same = opened-sent q junk' mac mem len index masks tags;
    }

-- What the receiver has of an unprotected packet of `len` bytes.
abbrev pub delivered : ℕ → Unprotected → Verdict × (List ℕ × SrtcpContext)
delivered len r = (r.verdict, (slice r.mem 0 len, r.context))

-- An RTCP packet of at least 8 and fewer than 2 ^ 20 bytes that protect has enciphered and signed is
-- accepted by unprotect, with the bytes and the length as before protect, and the context is
-- updated with the index. The contexts have the same algorithms, keys and tag length, counter mode
-- or no encryption, a MAC of 20 bytes or no tag, and no MKI; the replay check accepts the index, and
-- the update has a result.
pub unprotect-protect_control :
    (p q : SrtcpContext) (junk junk' mac : List ℕ) (mem : ℕ → ℕ) (len index : ℕ)
    (updated : CryptoContextCtrl)
    → IsPeer p q
    → CanEncipher q.control.ealg q.keys
    → CanAuthenticate q.control.aalg q.keys q.control.tag_length
    → q.mki_length ≡ 0
    → 8 ≤ len
    → len < max_ctr_len
    → index < 2 ^ 31
    → check_replay q.control index ≡ true
    → CryptoCtrl.update q.control index ≡ some updated
    → (protect p index junk mem len >>= λ s.
        unprotect q junk' mac s.mem s.len >>= λ r. some (delivered len r))
      ≡ some (accepted len, (slice mem 0 len, record q { control = updated }))
unprotect-protect_control p q junk junk' mac mem len index updated f e a k h h' b r u =
    let x = protect-Exchanged p q junk junk' mac mem len index updated f e a k h h' b r u in
    rw (x.protects, x.opens, x.same) refl
