-- ===== src/Rtcp/Bye/Layout.antt =====
-- src/control.cpp: the bytes that `dispatchBYE` leaves in its buffer.
use ccrtp.Prelude.{
  ℕ, zero, suc, ◌+◌, ◌-◌, ◌*◌, ◌/◌, ◌%◌, ◌^◌, ◌≤◌, ◌<◌, ◌≡◌, refl, ◌∙◌, List, [], ◌∷◌, ◌++◌, length,
  take, take-length, replicate, arith,
}
use ccrtp.Packet.{write, setbuffer, clear, be16, be32}
use ccrtp.Packet.Memory.{
  setbuffer_before, slice, slice_congr_within, slice-append, slice-replicate, slice-setbuffer,
}
use ccrtp.Rtcp.Bye.{
  put_empty_rr, put_reason, bye_padlen, bye_length, build_bye, set_version_and_count,
}

-- Every element is a byte.
unfoldable pub Bytes : List ℕ → Type 0
Bytes [] = Unit
Bytes (x ∷ xs) = (x < 256) × Bytes xs

setbuffer_byte :
    (mem : ℕ → ℕ) (xs : List ℕ) (pos : ℕ)
    → ((j : ℕ) → mem j < 256)
    → Bytes xs
    → (j : ℕ) → setbuffer mem xs pos j < 256
unfolding setbuffer Bytes
setbuffer_byte mem [] pos h b j = h j
setbuffer_byte mem (x ∷ xs) pos h b j = ground (arith, setbuffer_byte mem xs (pos + 1) h b.1 j)

Bytes-take : (n : ℕ) (xs : List ℕ) → Bytes xs → Bytes (take n xs)
unfolding Bytes
Bytes-take zero xs h = tt
Bytes-take (suc n) [] h = tt
Bytes-take (suc n) (x ∷ xs) h = (h.0, Bytes-take n xs h.1)

-- The memory with the reason written.
record Said (g : ℕ → ℕ) (ssrc : ℕ) (reason : List ℕ) : Type 0 where
  byte : (j : ℕ) → g j < 256
  report : (g 0 ≡ 128) × (g 1 ≡ 201) × (g 2 ≡ 0) × (g 3 ≡ 1)
  first : (g 8 / 64 ≡ 2) × (g 8 % 32 ≡ 1)
  kind : g 9 ≡ 203
  source : (g 12 * 256 + g 13) * 2 ^ 16 + (g 14 * 256 + g 15) ≡ ssrc
  text : slice g 17 (length reason) ≡ reason

put_empty_rr-facts :
    (mem : ℕ → ℕ) (ssrc : ℕ)
    → ((j : ℕ) → mem j < 256)
    → ((j : ℕ) → put_empty_rr mem ssrc j < 256)
      × (put_empty_rr mem ssrc 0 ≡ 128)
      × (put_empty_rr mem ssrc 1 ≡ 201)
      × (put_empty_rr mem ssrc 2 ≡ 0)
      × (put_empty_rr mem ssrc 3 ≡ 1)
unfolding put_empty_rr Bytes setbuffer
put_empty_rr-facts mem ssrc h =
    (setbuffer_byte mem (128 ∷ 201 ∷ 0 ∷ 1 ∷ be32 ssrc) 0 h (omega arith), refl, refl, refl, refl)

put_reason-Said :
    (mem : ℕ → ℕ) (ssrc : ℕ) (reason : List ℕ)
    → ssrc < 2 ^ 32
    → ((j : ℕ) → mem j < 256)
    → Bytes reason
    → length reason ≤ 254
    → Said (put_reason (put_empty_rr mem ssrc) ssrc reason) ssrc reason
unfolding put_reason Bytes setbuffer
put_reason-Said mem ssrc reason fits h b short =
    let rr = put_empty_rr-facts mem ssrc h in
    let below : length reason % 256 ≡ length reason = omega arith in
    let whole : take (length reason % 256) reason ≡ reason = take-length _ reason (omega arith) in
    let old = put_empty_rr mem ssrc in
    let head = set_version_and_count 2 1 (old 8) ∷ 203 ∷ [] in
    let named = setbuffer old head 8 in
    let sized = setbuffer named (be32 ssrc ++ (length reason ∷ [])) 12 in
    let named_byte = setbuffer_byte old head 8 rr.0 (omega arith) in
    let sized_byte =
      setbuffer_byte named (be32 ssrc ++ (length reason ∷ [])) 12 named_byte (omega arith) in
    let before = λ (j : ℕ) (lt : j < 17). setbuffer_before sized reason 17 j lt in
    rw (whole, below)
      (record {
        byte = setbuffer_byte sized reason 17 sized_byte b;
        report = (
          before 0 (omega arith) ∙ rr.1,
          before 1 (omega arith) ∙ rr.2,
          before 2 (omega arith) ∙ rr.3,
          before 3 (omega arith) ∙ rr.4,
        );
        first =
            (rw (before 8 (omega arith)) (omega arith), rw (before 8 (omega arith)) (omega arith));
        kind = before 9 (omega arith);
        source =
            rw
              (
                before 12 (omega arith),
                before 13 (omega arith),
                before 14 (omega arith),
                before 15 (omega arith),
              )
              (omega arith);
        text = slice-setbuffer _ reason 17;
      })

-- The finished compound.
pub record Built (g : ℕ → ℕ) (ssrc : ℕ) (reason : List ℕ) : Type 0 where
  pub byte : (j : ℕ) → g j < 256
  pub report : (g 0 ≡ 128) × (g 1 ≡ 201) × (g 2 ≡ 0) × (g 3 ≡ 1)
  pub first : (g 8 / 64 ≡ 2) × (g 8 % 32 ≡ 1)
  pub kind : g 9 ≡ 203
  pub source : (g 12 * 256 + g 13) * 2 ^ 16 + (g 14 * 256 + g 15) ≡ ssrc
  pub words : (g 10 * 256 + g 11 + 1) * 4 ≡ bye_length reason - 8
  pub count : g 16 ≡ length reason + bye_padlen (length reason)
  pub text :
      slice g 17 (length reason + bye_padlen (length reason))
      ≡ reason ++ replicate (bye_padlen (length reason)) 0

-- The statements of `dispatchBYE` behind the copy of the reason, on any memory.
finish : (ℕ → ℕ) → (size : ℕ) → ℕ → ℕ
finish said size =
    setbuffer (write (clear said (17 + size) (bye_padlen size)) 16 ((size + bye_padlen size) % 256))
      (be16 ((9 + size + bye_padlen size) / 4 - 1)) 10

finish-before : (said : ℕ → ℕ) (size j : ℕ) → j < 10 → finish said size j ≡ said j
unfolding finish setbuffer
finish-before said size j lt = ground arith

finish-source : (said : ℕ → ℕ) (size j : ℕ) → 12 ≤ j → j < 16 → finish said size j ≡ said j
unfolding finish setbuffer
finish-source said size j low high = ground arith

finish-after : (said : ℕ → ℕ) (size j : ℕ) → 17 ≤ j → j < 17 + size → finish said size j ≡ said j
unfolding finish setbuffer
finish-after said size j low high = ground arith

finish-zero :
    (said : ℕ → ℕ) (size j : ℕ)
    → 17 + size ≤ j
    → j < 17 + size + bye_padlen size
    → finish said size j ≡ 0
unfolding finish setbuffer
finish-zero said size j low high = ground arith

finish-byte :
    (said : ℕ → ℕ) (size : ℕ) → ((j : ℕ) → said j < 256) → (j : ℕ) → finish said size j < 256
unfolding finish setbuffer
finish-byte said size h j = ground (arith, h j)

finish-lengths :
    (said : ℕ → ℕ) (size : ℕ)
    → size ≤ 254
    → ((finish said size 10 * 256 + finish said size 11 + 1) * 4 ≡ 9 + size + bye_padlen size)
      × (finish said size 16 ≡ size + bye_padlen size)
unfolding finish setbuffer
finish-lengths said size short = (omega arith, omega arith)

finish-Built :
    (said : ℕ → ℕ) (ssrc : ℕ) (reason : List ℕ)
    → Said said ssrc reason
    → length reason ≤ 254
    → Built (finish said (length reason)) ssrc reason
finish-Built said ssrc reason s short =
    let size = length reason in
    let g = finish said size in
    let lengths = finish-lengths said size short in
    let spoken : slice g 17 size ≡ reason =
      slice_congr_within g said 17 size (λ j low high. finish-after said size j low high)
      ∙ s.text in
    let zeros : slice g (17 + size) (bye_padlen size) ≡ replicate (bye_padlen size) 0 =
      slice-replicate g (17 + size) (bye_padlen size) 0
        (λ j low high. finish-zero said size j low high) in
    let both : slice g 17 size ++ slice g (17 + size) (bye_padlen size)
        ≡ reason ++ replicate (bye_padlen size) 0 =
      rw (spoken, zeros) refl in
    record {
      byte = finish-byte said size s.byte;
      report = (
        finish-before said size 0 (omega arith) ∙ s.report.0,
        finish-before said size 1 (omega arith) ∙ s.report.1,
        finish-before said size 2 (omega arith) ∙ s.report.2,
        finish-before said size 3 (omega arith) ∙ s.report.3,
      );
      first = (
        rw (finish-before said size 8 (omega arith)) s.first.0,
        rw (finish-before said size 8 (omega arith)) s.first.1,
      );
      kind = finish-before said size 9 (omega arith) ∙ s.kind;
      source =
          rw
            (
              finish-source said size 12 (omega arith) (omega arith),
              finish-source said size 13 (omega arith) (omega arith),
              finish-source said size 14 (omega arith) (omega arith),
              finish-source said size 15 (omega arith) (omega arith),
            )
            s.source;
      words = lengths.0 ∙ omega arith;
      count = lengths.1;
      text = slice-append g 17 size (bye_padlen size) ∙ both;
    }

-- The buffer of `dispatchBYE`, for a reason of at most 254 bytes.
pub build_bye-Built :
    (mem : ℕ → ℕ) (ssrc : ℕ) (reason : List ℕ)
    → ssrc < 2 ^ 32
    → ((j : ℕ) → mem j < 256)
    → Bytes reason
    → length reason ≤ 254
    → Built (build_bye mem ssrc reason).bytes ssrc reason
unfolding build_bye finish
build_bye-Built mem ssrc reason fits h b short =
    let below : length reason % 256 ≡ length reason = omega arith in
    let words : (bye_length reason - 8) / 4 - 1
        ≡ (9 + length reason + bye_padlen (length reason)) / 4 - 1 =
      omega arith in
    rw words (
      rw below (
        finish-Built (put_reason (put_empty_rr mem ssrc) ssrc reason) ssrc reason
          (put_reason-Said mem ssrc reason fits h b short) short))
