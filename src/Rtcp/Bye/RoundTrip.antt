-- ===== src/Rtcp/Bye/RoundTrip.antt =====
-- src/control.cpp: the BYE compound of `dispatchBYE` as `takeInControlPacket` and `getBYE` read it.
use ccrtp.Prelude.{
  ℕ, zero, suc, ◌+◌, ◌-◌, ◌^◌, ◌≤◌, ◌<◌, ◌≡◌, refl, ◌∙◌, ap, List, [], ◌∷◌, ◌++◌, true, false, some,
  length, replicate, ltb, ◌==◌, arith,
}
use ccrtp.Packet.{Buffer}
use ccrtp.Rtcp.{packet_length, packet_ssrc, check_compound_rtcp_header, valid_first}
use ccrtp.Rtcp.Compound.{Received, Packets, size_at, check_compound_rtcp_header-decides}
use ccrtp.Rtcp.Bye.{bye_buffer_length, bye_padlen, bye_length, build_bye, c_string, get_reason}
use ccrtp.Rtcp.Bye.Layout.{Bytes, Built, build_bye-Built}

-- The bytes of a C string.
unfoldable pub Text : List ℕ → Type 0
Text [] = Unit
Text (x ∷ xs) = (1 ≤ x) × (x < 256) × Text xs

Text-Bytes : (xs : List ℕ) → Text xs → Bytes xs
unfolding Text Bytes
Text-Bytes [] h = tt
Text-Bytes (x ∷ xs) h = (h.1, Text-Bytes xs h.2)

c_string-Text : (xs : List ℕ) (n : ℕ) → Text xs → 1 ≤ n → c_string (xs ++ replicate n 0) ≡ xs
unfolding Text c_string
c_string-Text [] zero h low = absurd (omega arith)
c_string-Text [] (suc n) h low = refl
c_string-Text (x ∷ xs) n h low =
    let some_byte : (x == 0) ≡ false = ground (arith, h.0) in
    rw some_byte (ap (λ l. x ∷ l) (c_string-Text xs n h.2 low))

module _ (g : ℕ → ℕ) (ssrc : ℕ) (reason : List ℕ) (built : Built g ssrc reason) (text : Text reason)
    (short : length reason ≤ 254) where
  block : Buffer
  block = record { size = bye_buffer_length; bytes = g }

  block-Received : Received block (bye_length reason)
  unfolding block
  block-Received = record {
    byte = built.byte;
    words = refl;
    some_word = omega arith;
    fits = omega arith;
    small = omega arith;
  }

  block-Packets : Packets block (bye_length reason) 0
  unfolding block
  block-Packets =
      let rr : 0 + size_at block 0 ≡ 8 = rw (built.report.2, built.report.3) refl in
      let bye : 8 + size_at block 8 ≡ bye_length reason = omega (arith, built.words) in
      Packets.next 0 (rw built.report.0 refl) (omega (arith, rr)) (rw rr (Packets.last 8 bye))

  checked : check_compound_rtcp_header block (bye_length reason) ≡ some true
  unfolding block
  checked =
      let answer = check_compound_rtcp_header-decides block (bye_length reason) block-Received in
      let valid : valid_first (g 0) (g 1) ≡ true = rw (built.report.0, built.report.1) refl in
      answer.1 ∙ ap some (answer.2.1 (valid, block-Packets))

  spoken : get_reason block 8 ≡ some reason
  unfolding block get_reason packet_length
  spoken =
      let size = length reason in
      let padlen = bye_padlen size in
      let positive : 1 ≤ padlen = omega arith in
      let room : ltb 8 (bye_length reason - 8) ≡ true = ground arith in
      let inside : ltb 500 (17 + (size + padlen)) ≡ false = ground arith in
      rw (built.first.1, built.words)
        (rw (room, built.count)
          (rw inside (ap some (rw built.text (c_string-Text reason padlen text positive)))))

  named : packet_ssrc block 8 ≡ some ssrc
  unfolding block
  named = ap some built.source

-- The compound that `dispatchBYE` builds in whatever its buffer held before, with a reason of at
-- most 254 bytes, none of them 0, passes the check of a receiver, and its second packet gives the
-- receiver the sender's SSRC and the same reason.
pub build_bye-received :
    (mem : ℕ → ℕ) (ssrc : ℕ) (reason : List ℕ)
    → ((j : ℕ) → mem j < 256)
    → ssrc < 2 ^ 32
    → Text reason
    → length reason ≤ 254
    → (check_compound_rtcp_header (build_bye mem ssrc reason) (bye_length reason) ≡ some true)
      × (packet_ssrc (build_bye mem ssrc reason) 8 ≡ some ssrc)
      × (get_reason (build_bye mem ssrc reason) 8 ≡ some reason)
unfolding block build_bye
build_bye-received mem ssrc reason byte fits text short =
    let g = (build_bye mem ssrc reason).bytes in
    let built = build_bye-Built mem ssrc reason fits byte (Text-Bytes reason text) short in
    (
      checked g ssrc reason built text short,
      named g ssrc reason built text short,
      spoken g ssrc reason built text short,
    )
