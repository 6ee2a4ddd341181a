-- ===== src/Reception/Sequence.antt =====
-- src/incqueue.cpp, `recordReception`: the extended sequence number of a valid source follows the
-- sender's own count of packets.
use ccrtp.Prelude.{
  ℕ, ◌+◌, ◌%◌, ◌^◌, ◌<◌, ◌≡◌, refl, ◌∙◌, ◌&&◌, List, [], ◌∷◌, Bool, true, false, length, Bool-cases,
  inl, inr, arith,
}
use native.Mathlib.Nat.{add-zero, add_assoc}
use ccrtp.Source.{Timeval, SyncSourceLink}
use ccrtp.Reception.{Packet, Limits, validate, track, record_sequence, account, record_reception}

-- What the validation and the tracking of a sequence number leave alone.
pub record Untouched (s s' : SyncSourceLink) : Type 0 where
  pub packets : s'.obs_packet_count ≡ s.obs_packet_count
  pub octets : s'.obs_octet_count ≡ s.obs_octet_count
  pub time : s'.last_packet_time ≡ s.last_packet_time
  pub jitter : s'.jitter ≡ s.jitter
  pub source : s'.source ≡ s.source
  pub base : s'.base_seq_num ≡ s.base_seq_num

pub record_sequence-Untouched :
    (l : Limits) (s : SyncSourceLink) (seq : ℕ) → Untouched s (record_sequence l s seq).1
unfolding record_sequence track validate
record_sequence-Untouched l s seq = ground arith

-- A packet that is not accepted leaves the counts, the time of the last packet, the jitter, the
-- source and the base sequence number alone.
pub record_reception-rejected :
    (smooth : ℕ → ℕ → ℕ) (l : Limits) (s : SyncSourceLink) (pkt : Packet) (now : Timeval)
    → (record_reception smooth l s pkt now).0 ≡ false
    → Untouched s (record_reception smooth l s pkt now).1
unfolding record_reception
record_reception-rejected smooth l s pkt now =
    elim (Bool-cases (record_sequence l s pkt.seq_num).0) [
      | inl e ↦ rw e (λ h. cc)
      | inr e ↦ rw e (λ h. record_sequence-Untouched l s pkt.seq_num)
    ]

-- The source stands at packet number `n` of the sender, up to the offset `c`.
pub record At (n c : ℕ) (s : SyncSourceLink) : Type 0 where
  pub valid : s.probation ≡ 0
  pub low : s.max_seq_num ≡ n % 2 ^ 16
  pub extended : (s.max_seq_num + s.seq_num_accum) % 2 ^ 32 ≡ (n + c) % 2 ^ 32

track-At :
    (l : Limits) (s : SyncSourceLink) (n c k : ℕ)
    → At n c s
    → k < l.max_packet_dropout
    → l.max_packet_dropout < 2 ^ 16
    → let (result, s') = record_sequence l s ((n + k) % 2 ^ 16) in (result ≡ true) × At (n + k) c s'
unfolding record_sequence track
track-At l s n c k a h d = ground arith

-- `recordReception` for each packet of a list, with the verdicts.
unfoldable pub receive :
    (ℕ → ℕ → ℕ) → Limits → SyncSourceLink → List (Packet × Timeval) → List Bool × SyncSourceLink
receive smooth l s [] = ([], s)
receive smooth l s ((pkt, now) ∷ pkts) =
    let (result, s') = record_reception smooth l s pkt now in
    let rest = receive smooth l s' pkts in (result ∷ rest.0, rest.1)

unfoldable pub sum : List ℕ → ℕ
sum [] = 0
sum (k ∷ ks) = k + sum ks

-- The sender has numbered the packets n + k₁, n + k₁ + k₂ and so on, where each gap is shorter
-- than the dropout limit, and sent each number modulo 2 ^ 16.
abbrev pub InOrder : ℕ → ℕ → List ℕ → List (Packet × Timeval) → Type 0
InOrder dropout n [] [] = Unit
InOrder dropout n (k ∷ ks) ((pkt, now) ∷ pkts) =
    (k < dropout) × (pkt.seq_num ≡ (n + k) % 2 ^ 16) × InOrder dropout (n + k) ks pkts
InOrder dropout n _ _ = ⊥

abbrev pub all_true : List Bool → Bool
all_true [] = true
all_true (b ∷ bs) = b && all_true bs

pub account-At :
    (smooth : ℕ → ℕ → ℕ) (l : Limits) (s : SyncSourceLink) (pkt : Packet) (now : Timeval) {n c : ℕ}
    → At n c s
    → At n c (account smooth l s pkt now)
unfolding account
account-At smooth l s pkt now a = record { valid = a.valid; low = a.low; extended = a.extended }

pub obs-account :
    (smooth : ℕ → ℕ → ℕ) (l : Limits) (s : SyncSourceLink) (pkt : Packet) (now : Timeval)
    → ((account smooth l s pkt now).obs_packet_count ≡ (s.obs_packet_count + 1) % 2 ^ 32)
      × ((account smooth l s pkt now).base_seq_num ≡ s.base_seq_num)
unfolding account
obs-account smooth l s pkt now = (refl, refl)

step-At :
    (smooth : ℕ → ℕ → ℕ) (l : Limits) (s : SyncSourceLink) (pkt : Packet) (now : Timeval)
    (n c k : ℕ)
    → At n c s
    → k < l.max_packet_dropout
    → l.max_packet_dropout < 2 ^ 16
    → pkt.seq_num ≡ (n + k) % 2 ^ 16
    → let (result, s') = record_reception smooth l s pkt now in
      (result ≡ true)
      × At (n + k) c s'
      × (s'.obs_packet_count ≡ (s.obs_packet_count + 1) % 2 ^ 32)
      × (s'.base_seq_num ≡ s.base_seq_num)
unfolding record_reception account
step-At smooth l s pkt now n c k a h d e =
    let t = track-At l s n c k a h d in
    let u = record_sequence-Untouched l s ((n + k) % 2 ^ 16) in
    let s' = (record_sequence l s ((n + k) % 2 ^ 16)).1 in
    let o = obs-account smooth l s' pkt now in
    rw (e, t.0) (refl, account-At smooth l s' pkt now t.1, rw (o.0, u.packets), rw (o.1, u.base))

-- From a valid source that stands at packet `n`, every packet of an in-order run is accepted and
-- counted, across any number of wraps of the 16-bit sequence number: the extended sequence number
-- grows by exactly the sender's own count.
pub receive-InOrder :
    (smooth : ℕ → ℕ → ℕ) (l : Limits) (s : SyncSourceLink) (n c : ℕ) (ks : List ℕ)
    (pkts : List (Packet × Timeval))
    → At n c s
    → l.max_packet_dropout < 2 ^ 16
    → InOrder l.max_packet_dropout n ks pkts
    → s.obs_packet_count < 2 ^ 32
    → let (results, s') = receive smooth l s pkts in
      (all_true results ≡ true)
      × At (n + sum ks) c s'
      × (s'.obs_packet_count ≡ (s.obs_packet_count + length ks) % 2 ^ 32)
      × (s'.base_seq_num ≡ s.base_seq_num)
unfolding receive sum
receive-InOrder smooth l s n c [] [] a d o b = (
  refl,
  record { valid = a.valid; low = rw add-zero a.low; extended = rw add-zero a.extended },
  omega arith,
  refl,
)
receive-InOrder smooth l s n c [] (p ∷ pkts) a d o b = absurd o
receive-InOrder smooth l s n c (k ∷ ks) [] a d o b = absurd o
receive-InOrder smooth l s n c (k ∷ ks) ((pkt, now) ∷ pkts) a d o b =
    let t = step-At smooth l s pkt now n c k a o.0 d o.1 in
    let s' = (record_reception smooth l s pkt now).1 in
    let r = receive-InOrder smooth l s' (n + k) c ks pkts t.1 d o.2 (omega (arith, t.2)) in
    (rw (t.0, r.0), rw (← add_assoc) r.1, omega (arith, t.2, r.2), r.3 ∙ t.3)
