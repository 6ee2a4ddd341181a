-- ===== src/Srtcp/RoundTrip.antt =====
-- QueueRTCPManager::protect and unprotect: a protected packet is accepted and comes out unchanged.
use Prim.Native.Nat.{bit_xor}
use ccrtp.Prelude.{
  ℕ, ◌+◌, ◌-◌, ◌%◌, ◌^◌, ◌≤◌, ◌<◌, ◌≡◌, refl, sym, ap, ◌∙◌, List, ◌++◌, true, false, some, ltb,
  take, length-take, arith,
}
use ccrtp.CryptoCtrl
use ccrtp.CryptoCtrl.{CryptoContextCtrl, check_replay}
use ccrtp.Packet.{be32}
use ccrtp.Packet.Memory.{length-slice, slice, slice_congr_within}
use ccrtp.Cipher.Mask.{masked, masked-zero}
use ccrtp.Cipher.Xor.{bit_xor_involutive}
use ccrtp.Cipher.Stream.{Masks, max_ctr_len}
use ccrtp.Srtcp.{
  SrtcpContext, load32, set_flag, clear_flag, is_flagged, behind_header, srtcp_encrypt, protect,
  accepted, unprotect, open_packet,
}
use ccrtp.Srtcp.Enciphering.{Tags}
use ccrtp.Srtcp.Sealed.{
  equal_bytes_refl, load32_congr, indexed, sealed, sealed_before, sealed-index, sealed_message,
  sealed_tag,
}

module _ (c : SrtcpContext) (junk mac : List ℕ) (mem : ℕ → ℕ) (len index : ℕ)
    (masks : Masks
      (λ m. srtcp_encrypt c.control.ealg c.keys junk m 8 (behind_header len) index (load32 mem 4))
      8
      (behind_header len))
    (tags : Tags c.control.aalg c.keys c.control.tag_length) where
  abbrev pub message : List ℕ
  message = slice (indexed mem masks.mask len index) 0 len ++ be32 (set_flag index)

  abbrev pub sent : ℕ → ℕ
  sent = sealed mem masks.mask len index (tags.tag message)

  pub protect-sealed :
      protect c index junk mem len
      ≡ some (record {
        mem = sent;
        len = len + c.control.tag_length + 4;
        srtcp_index = clear_flag (index + 1);
      })
  unfolding protect
  protect-sealed =
      rw
        (
          protect,
          masks.encrypts mem,
          tags.computes message
              (slice (indexed mem masks.mask len index) (len + 4) c.control.tag_length)
              (omega (
                arith,
                length-slice (indexed mem masks.mask len index) (len + 4) c.control.tag_length,
              )),
        )
        refl

  -- The SSRC stands in clear.
  pub same_source : 8 ≤ len → load32 sent 4 ≡ load32 mem 4
  same_source h = load32_congr sent mem 4 (λ j le lt.
      sealed_before mem masks.mask len index (tags.tag message) j (omega arith)
      ∙ masked-zero mem masks.mask j (masks.only.before j (omega arith)))

  open_packet-sealed :
      (updated : CryptoContextCtrl)
      → 8 ≤ len
      → len < max_ctr_len
      → index < 2 ^ 31
      → CryptoCtrl.update c.control index ≡ some updated
      → open_packet c junk sent len (set_flag index)
        ≡ some (record {
          verdict = accepted len;
          mem = masked sent masks.mask;
          context = record c { control = updated };
        })
  open_packet-sealed updated h h' b u =
      let flagged : is_flagged (set_flag index) ≡ true = ground arith in
      let cleared : clear_flag (set_flag index) ≡ index = omega arith in
      rw (flagged, cleared, same_source h, masks.encrypts sent, u) refl

  pub unprotect-sealed :
      (updated : CryptoContextCtrl)
      → 8 ≤ len
      → len < max_ctr_len
      → index < 2 ^ 31
      → c.control.tag_length ≤ 20
      → c.mki_length ≡ 0
      → check_replay c.control index ≡ true
      → CryptoCtrl.update c.control index ≡ some updated
      → unprotect c junk mac sent (len + c.control.tag_length + 4)
        ≡ some (record {
          verdict = accepted len;
          mem = masked sent masks.mask;
          context = record c { control = updated };
        })
  unfolding unprotect
  unprotect-sealed updated h h' b t k r u =
      let n = c.control.tag_length in
      let long : ltb (len + n + 4) (n + c.mki_length + 4) ≡ false = ground arith in
      let payload : (len + n + 4 + 2 ^ 64 - (n + c.mki_length + 4)) % 2 ^ 32 ≡ len = omega arith in
      let cleared : clear_flag (set_flag index) ≡ index = omega arith in
      let fresh : check_replay c.control (clear_flag (set_flag index)) ≡ true = rw cleared r in
      let tag = tags.tag message in
      let place : len + n + 4 - n ≡ len + 4 = omega arith in
      let stored : slice sent (len + 4) n ≡ tag =
        ap (slice sent (len + 4)) (sym (tags.tag_size message))
        ∙ sealed_tag mem masks.mask len index tag in
      let signed : slice sent 0 len ++ be32 (set_flag index) ≡ message =
        ap (λ l. l ++ be32 (set_flag index)) (sealed_message mem masks.mask len index tag) in
      rw (unprotect, long, payload, sealed-index mem masks.mask len index tag, fresh)
        (rw (signed, tags.computes message (take n mac) (omega (arith, length-take n mac)))
          (rw (place, stored, equal_bytes_refl tag) (open_packet-sealed updated h h' b u)))

  -- The bytes of the packet, deciphered.
  pub opened-sent : slice (masked sent masks.mask) 0 len ≡ slice mem 0 len
  opened-sent = slice_congr_within (masked sent masks.mask) mem 0 len (λ j le lt.
      ap (λ x. bit_xor x (masks.mask j))
        (sealed_before mem masks.mask len index (tags.tag message) j (omega arith))
      ∙ bit_xor_involutive (mem j) (masks.mask j))
