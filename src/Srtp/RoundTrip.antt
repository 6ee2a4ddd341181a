-- ===== src/Srtp/RoundTrip.antt =====
-- OutgoingRTPPkt::protect and IncomingRTPPkt::unprotect, over one mask and one tag.
use Prim.Native.Nat.{bit_xor}
use ccrtp.Prelude.{
  ℕ, ◌+◌, ◌-◌, ◌*◌, ◌/◌, ◌%◌, ◌^◌, ◌≤◌, ◌<◌, ◌≡◌, refl, sym, ap, ◌∙◌, List, ◌++◌, true, false, some,
  ltb, ◌==◌, take, length-take, arith, if◌then◌else◌,
}
use ccrtp.Crypto
use ccrtp.Crypto.{CryptoContext, check_replay, guess_index}
use ccrtp.Packet.{RtpPacket, be32, padding_of}
use ccrtp.Packet.Incoming.{Cached}
use ccrtp.Packet.Memory.{length-slice, slice, slice_congr_within, slice-setbuffer}
use ccrtp.Cipher.Mask.{masked}
use ccrtp.Cipher.Xor.{bit_xor_involutive}
use ccrtp.Cipher.Stream.{max_ctr_len}
use ccrtp.Srtcp.{accepted}
use ccrtp.Srtcp.Enciphering.{Tags}
use ccrtp.Srtcp.Sealed.{equal_bytes_refl}
use ccrtp.Srtp.{SrtpContext, body_size, protect, unprotect, open_packet}
use ccrtp.Srtp.Sealed.{BodyMask, sealed, sealed_before, sealed_header, sealed_message}

-- A packet without padding, as new_packet makes it in a session with a crypto context, ...
abbrev pub built : (ℕ → ℕ) → ℕ → ℕ → ℕ → ℕ → RtpPacket
built mem size hdr n extra = record {
  buffer = record { size = size; bytes = mem };
  hdr_size = hdr;
  payload_size = n;
  total = hdr + n;
  srtp_length = extra;
  srtp_data_offset = hdr + n;
}

-- ... and one of the same bytes, as the constructor makes it for reception.
abbrev pub arrived : (ℕ → ℕ) → ℕ → ℕ → ℕ → RtpPacket
arrived mem size hdr n = record {
  buffer = record { size = size; bytes = mem };
  hdr_size = hdr;
  payload_size = n;
  total = hdr + n;
  srtp_length = 0;
  srtp_data_offset = 0;
}

-- What protect does to the rollover counter.
abbrev pub rolled : CryptoContext → ℕ → CryptoContext
rolled c seq = record c { roc = if seq == 65535 then (c.roc + 1) % 2 ^ 32 else c.roc }

module _ (c : SrtpContext) (junk mac : List ℕ) (mem : ℕ → ℕ) (size hdr n seq ssrc roc : ℕ)
    (body : BodyMask c.state.ealg c.keys hdr n (roc * 2 ^ 16 + seq) ssrc)
    (tags : Tags c.state.aalg c.keys c.state.tag_length) (plain : padding_of (mem 0) ≡ 0)
    (small : hdr + n < max_ctr_len) where
  abbrev message : List ℕ
  message = slice (masked mem body.mask) 0 (hdr + n) ++ be32 roc

  abbrev pub sent : ℕ → ℕ
  sent = sealed mem body.mask hdr n (tags.tag message) body.only

  pub protect-built :
      (extra : ℕ)
      → c.state.roc ≡ roc
      → protect c junk (built mem size hdr n extra) seq ssrc
        ≡ some (built sent size hdr n extra, record c { state = rolled c.state seq })
  unfolding protect
  protect-built extra r =
      let whole : body_size (built mem size hdr n extra) ≡ n = rw plain (omega arith) in
      rw
        (
          protect,
          r,
          body.encrypts roc junk (built mem size hdr n extra) refl whole,
          tags.computes message (slice (masked mem body.mask) (hdr + n) c.state.tag_length)
              (omega (arith, length-slice (masked mem body.mask) (hdr + n) c.state.tag_length)),
        )
        refl

  same_header : sent 0 ≡ mem 0 → padding_of (sent 0) ≡ 0
  same_header h = rw h plain

  open_packet-arrived :
      (updated : CryptoContext)
      → 1 ≤ hdr
      → Crypto.update c.state seq ≡ some updated
      → open_packet c junk (arrived sent size hdr n) (roc * 2 ^ 16 + seq) seq ssrc
        ≡ some (record {
          verdict = accepted 1;
          packet = arrived (masked sent body.mask) size hdr n;
          context = record c { state = updated };
        })
  open_packet-arrived updated h u =
      let first : sent 0 ≡ mem 0 =
        sealed_header mem body.mask hdr n (tags.tag message) body.only 0 h in
      let whole : body_size (arrived sent size hdr n) ≡ n = rw (same_header first) (omega arith) in
      rw (body.encrypts c.state.roc junk (arrived sent size hdr n) refl whole, u) refl

  pub unprotect-arrived :
      (s s' updated : CryptoContext)
      → 1 ≤ hdr
      → seq < 2 ^ 16
      → roc < 2 ^ 32
      → s.tag_length ≡ c.state.tag_length
      → s.mki_length ≡ 0
      → c.state.tag_length ≤ 20
      → check_replay s seq ≡ some (true, s')
      → guess_index s' seq ≡ (roc * 2 ^ 16 + seq, c.state)
      → Crypto.update c.state seq ≡ some updated
      → (cached : Cached) → cached.seq_num ≡ seq
      → cached.ssrc ≡ ssrc
      → unprotect
          (record c { state = s })
          junk
          mac
          (arrived sent size hdr (n + c.state.tag_length))
          cached
        ≡ some (record {
          verdict = accepted 1;
          packet = arrived (masked sent body.mask) size hdr n;
          context = record c { state = updated };
        })
  unfolding unprotect
  unprotect-arrived s s' updated h q b t k l r g u cached e f =
      let m = c.state.tag_length in
      let tag = tags.tag message in
      let whole : (hdr + (n + m) + 2 ^ 32 - (m + 0)) % 2 ^ 32 ≡ hdr + n = omega arith in
      let body_left : (n + m + 2 ^ 32 - (m + 0)) % 2 ^ 32 ≡ n = omega arith in
      let counter : (roc * 2 ^ 16 + seq) / 2 ^ 16 % 2 ^ 32 ≡ roc = omega arith in
      let long : ltb (hdr + (n + m)) (m + 0) ≡ false = ground arith in
      let place : hdr + n + 0 ≡ hdr + n = omega arith in
      let stored : slice sent (hdr + n) m ≡ tag =
        ap (slice sent (hdr + n)) (sym (tags.tag_size message))
        ∙ slice-setbuffer (masked mem body.mask) tag (hdr + n) in
      let signed : slice sent 0 (hdr + n) ++ be32 roc ≡ message =
        ap (λ l. l ++ be32 roc) (sealed_message mem body.mask hdr n tag body.only) in
      rw (unprotect, e, f, r)
        (rw (g, t, k)
          (rw (whole, body_left, counter, long, place)
            (rw (signed, tags.computes message (take m mac) (omega (arith, length-take m mac)))
              (rw (stored, equal_bytes_refl tag) (open_packet-arrived updated h u)))))

  -- The bytes of the packet, deciphered.
  pub opened-sent : slice (masked sent body.mask) 0 (hdr + n) ≡ slice mem 0 (hdr + n)
  opened-sent = slice_congr_within (masked sent body.mask) mem 0 (hdr + n) (λ j le lt.
      ap (λ x. bit_xor x (body.mask j))
        (sealed_before mem body.mask hdr n (tags.tag message) body.only j (omega arith))
      ∙ bit_xor_involutive (mem j) (body.mask j))
