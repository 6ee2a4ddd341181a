-- ===== src/Srtcp/Refusal.antt =====
-- QueueRTCPManager::unprotect: what it does with packets that it does not accept.
use ccrtp.Prelude.{
  ℕ, ◌+◌, ◌-◌, ◌%◌, ◌^◌, ◌≡◌, refl, sym, ap, ◌⊎◌, inl, inr, List, [], ◌∷◌, Option, none, some, Bool,
  true, false, arith, ◌>>=◌, take, Bool-cases, ltb, not, if◌then◌else◌,
}
use ccrtp.CryptoCtrl
use ccrtp.CryptoCtrl.{CryptoContextCtrl, check_replay}
use ccrtp.Packet.Memory.{slice}
use ccrtp.Srtcp.{
  SrtcpContext, load32, clear_flag, Unprotected, replayed, forged, accepted, unprotect, open_packet,
  srtcp_authenticate, equal_bytes, is_flagged, srtcp_encrypt, behind_header,
}

equal_bytes_sound : (xs ys : List ℕ) → equal_bytes xs ys ≡ true → xs ≡ ys
equal_bytes_sound [] [] h = refl
equal_bytes_sound [] (y ∷ ys) h = absurd (cc h)
equal_bytes_sound (x ∷ xs) [] h = absurd (cc h)
equal_bytes_sound (x ∷ xs) (y ∷ ys) h = ground (arith, equal_bytes_sound xs ys)

abbrev pub payload_length : SrtcpContext → ℕ → ℕ
payload_length c len = (len + 2 ^ 64 - (c.control.tag_length + c.mki_length + 4)) % 2 ^ 32

-- The last bytes of the packet are the tag that the context's key gives for it.
abbrev pub IsSigned : SrtcpContext → List ℕ → (ℕ → ℕ) → ℕ → Type 0
IsSigned c mac mem len =
    let n = payload_length c len in
    srtcp_authenticate c mem n (load32 mem n) (take c.control.tag_length mac)
    ≡ some (slice mem (len - c.control.tag_length) c.control.tag_length)

pub data IsJudged (c : SrtcpContext) (mac : List ℕ) (mem : ℕ → ℕ) (len : ℕ)
    : Unprotected → Type 0 where
  is_replayed :
      check_replay c.control (clear_flag (load32 mem (payload_length c len))) ≡ false
      → IsJudged c mac mem len (record { verdict = replayed; mem = mem; context = c })
  is_forged : IsJudged c mac mem len (record { verdict = forged; mem = mem; context = c })
  is_accepted :
      (r : Unprotected)
      → r.verdict ≡ accepted (payload_length c len)
      → IsSigned c mac mem len
      → IsJudged c mac mem len r

-- The three ends of a body of this shape.
judge :
    (short fresh : Bool) (o : Option (List ℕ)) (s : List ℕ) (O : Option Unprotected)
    (R F r : Unprotected)
    → (if short
        then none
        else if not fresh
        then some R
        else o >>= λ t. if equal_bytes s t then O else some F)
      ≡ some r
    → ((fresh ≡ false) × (R ≡ r)) ⊎ (F ≡ r) ⊎ ((o ≡ some s) × (O ≡ some r))
judge true fresh o s O R F r h = absurd (cc h)
judge false false o s O R F r h = inl (refl, cc h)
judge false true none s O R F r h = absurd (cc h)
judge false true (some t) s O R F r h = elim (Bool-cases (equal_bytes s t)) [
  | inl p ↦ inr (inr (ap some (sym (equal_bytes_sound s t p)), rw p at h))
  | inr p ↦ inr (inl (cc (rw p at h)))
]

both_ran :
    (c : SrtcpContext) (n : ℕ) (o : Option (ℕ → ℕ)) (u : Option CryptoContextCtrl) (r : Unprotected)
    → (o >>= λ d. u >>= λ up.
        some (record { verdict = accepted n; mem = d; context = record c { control = up } }))
      ≡ some r
    → r.verdict ≡ accepted n
both_ran c n none u r h = absurd (cc h)
both_ran c n (some d) none r h = absurd (cc h)
both_ran c n (some d) (some up) r h =
    let e : record { verdict = accepted n; mem = d; context = record c { control = up } } ≡ r =
      cc h in
    sym (ap (λ x. x.verdict) e)

opened_verdict :
    (c : SrtcpContext) (junk : List ℕ) (mem : ℕ → ℕ) (n index : ℕ) (r : Unprotected)
    → open_packet c junk mem n index ≡ some r
    → r.verdict ≡ accepted n
opened_verdict c junk mem n index r h =
    both_ran c n
      (if is_flagged index
        then srtcp_encrypt c.control.ealg c.keys junk mem 8 (behind_header n) (clear_flag index)
            (load32 mem 4)
        else some mem)
      (CryptoCtrl.update c.control (clear_flag index)) r h

-- Where unprotect has a result, it is one of three: refused as replayed, where the check refuses the
-- index, or as forged, both with the memory and the context as they were; or accepted with the length
-- of the packet without index and tag, and then the last bytes are the tag that the context computes
-- for it.
pub unprotect-IsJudged :
    (c : SrtcpContext) (junk mac : List ℕ) (mem : ℕ → ℕ) (len : ℕ) (r : Unprotected)
    → unprotect c junk mac mem len ≡ some r
    → IsJudged c mac mem len r
unfolding unprotect
unprotect-IsJudged c junk mac mem len r h =
    let n = payload_length c len in
    let index = load32 mem n in
    let tag_length = c.control.tag_length in
    elim (judge (ltb len (tag_length + c.mki_length + 4))
      (check_replay c.control (clear_flag index))
      (srtcp_authenticate c mem n index (take tag_length mac))
      (slice mem (len - tag_length) tag_length) (open_packet c junk mem n index)
      (record { verdict = replayed; mem = mem; context = c })
      (record { verdict = forged; mem = mem; context = c }) r h) [
        | inl (p, q) ↦ rw (← q) (is_replayed p)
        | inr (inl q) ↦ rw (← q) is_forged
        | inr (inr (p, q)) ↦ is_accepted r (opened_verdict c junk mem n index r q) p
      ]
