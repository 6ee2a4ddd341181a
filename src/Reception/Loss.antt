-- ===== src/Reception/Loss.antt =====
-- src/members.cpp, `computeStats`: the loss figures that go into receiver reports.
use native.Mathlib.Nat.{
  mod-eq_of_lt, zero-div, div-lt_iff_lt-mul, div-mul-le_self, lt-div-mul-add, mul-div_cancel_left,
}
use ccrtp.Prelude.{
  ℕ, zero, suc, ◌+◌, ◌-◌, ◌*◌, ◌/◌, ◌%◌, ◌^◌, ◌≤◌, ◌<◌, ◌≡◌, refl, ◌∙◌, List, ◌∷◌, true, length,
  arith,
}
use ccrtp.Source.{Timeval, SyncSourceLink, init_stats}
use ccrtp.Reception.{
  Packet, Limits, sub32, fraction, track, record_sequence, record_reception, compute_stats,
}
use ccrtp.Reception.Sequence.{
  At, InOrder, receive, receive-InOrder, sum, record_sequence-Untouched, account-At, obs-account,
}

fraction_lem : (e lost : ℕ) → lost < e → e < 2 ^ 24 → fraction e lost ≡ lost * 256 / e
unfolding fraction
fraction_lem e zero h small = ground (arith, zero-div e)
fraction_lem e (suc lost) h small =
    let q : suc lost * 256 / e < 256 = (div-lt_iff_lt-mul (omega arith)).1 (omega arith) in
    ground (arith, mod-eq_of_lt {n = suc lost * 256} {m = 2 ^ 32} (omega arith))

fraction-bounds :
    (e lost : ℕ)
    → lost < e
    → e < 2 ^ 24
    → (fraction e lost * e ≤ lost * 256) × (lost * 256 < (fraction e lost + 1) * e)
fraction-bounds e lost h small = rw (fraction_lem e lost h small) (
  div-mul-le_self (lost * 256) e,
  omega (arith, lt-div-mul-add {a = lost * 256} {b = e} (omega arith)),
)

fraction-all_lost : (e : ℕ) → e < 2 ^ 24 → fraction e e ≡ 0
unfolding fraction
fraction-all_lost zero small = refl
fraction-all_lost (suc e) small = ground (
  arith,
  mod-eq_of_lt {n = suc e * 256} {m = 2 ^ 32} (omega arith),
  mul-div_cancel_left 256 {n = suc e} (omega arith),
)

sub32-le : (e r : ℕ) → r ≤ e → e < 2 ^ 32 → sub32 e r ≡ e - r
sub32-le e r h k = omega arith

sub32-zero : (e : ℕ) → e < 2 ^ 32 → sub32 e 0 ≡ e
sub32-zero e h = omega arith

-- Packets that the interval since the last report expected, and those that it received.
abbrev pub expected_interval : SyncSourceLink → ℕ
expected_interval s = sub32 (compute_stats s).expected_prior s.expected_prior

abbrev pub received_interval : SyncSourceLink → ℕ
received_interval s = sub32 s.obs_packet_count s.received_prior

-- Where some packets of the interval arrived and none twice, the reported fraction is the share
-- of lost packets in units of 1/256, rounded down.
pub compute_stats-fraction :
    (s : SyncSourceLink)
    → received_interval s ≤ expected_interval s
    → 0 < received_interval s
    → expected_interval s < 2 ^ 24
    → let lost = expected_interval s - received_interval s in
      let f = (compute_stats s).fraction_lost in
      (f * expected_interval s ≤ lost * 256) × (lost * 256 < (f + 1) * expected_interval s)
unfolding compute_stats
compute_stats-fraction s le pos small =
    let e = expected_interval s in
    let r = received_interval s in
    rw (sub32-le e r le (omega arith)) (fraction-bounds e (e - r) (omega arith) small)

-- Where every packet of the interval was lost, the reported fraction is 0.
pub compute_stats-all_lost :
    (s : SyncSourceLink)
    → received_interval s ≡ 0
    → expected_interval s < 2 ^ 24
    → (compute_stats s).fraction_lost ≡ 0
unfolding compute_stats
compute_stats-all_lost s r small =
    let e = expected_interval s in rw (r, sub32-zero e (omega arith)) (fraction-all_lost e small)

first_seq-At :
    (l : Limits) (s : SyncSourceLink) (q : ℕ)
    → l.max_packet_misorder + q ≤ 2 ^ 16
    → q < 2 ^ 16
    → let (result, s') = record_sequence l (init_stats s) q in (result ≡ true) × At q 0 s'
unfolding record_sequence track init_stats
first_seq-At l s q m h = ground arith

fresh :
    (s : SyncSourceLink) → ((init_stats s).obs_packet_count ≡ 0) × ((init_stats s).base_seq_num ≡ 0)
unfolding init_stats
fresh s = (refl, refl)

-- The first packet of a source that is valid from the start.
first-At :
    (smooth : ℕ → ℕ → ℕ) (l : Limits) (s : SyncSourceLink) (pkt : Packet) (now : Timeval)
    → l.max_packet_misorder + pkt.seq_num ≤ 2 ^ 16
    → pkt.seq_num < 2 ^ 16
    → let (result, s') = record_reception smooth l (init_stats s) pkt now in
      (result ≡ true) × At pkt.seq_num 0 s' × (s'.obs_packet_count ≡ 1) × (s'.base_seq_num ≡ 0)
unfolding record_reception
first-At smooth l s pkt now m h =
    let t = first_seq-At l s pkt.seq_num m h in
    let u = record_sequence-Untouched l (init_stats s) pkt.seq_num in
    let s' = (record_sequence l (init_stats s) pkt.seq_num).1 in
    let o = obs-account smooth l s' pkt now in
    rw (t.0) (
      refl,
      account-At smooth l s' pkt now t.1,
      omega (arith, o.0, u.packets, (fresh s).0),
      o.1 ∙ (u.base ∙ (fresh s).1),
    )

lost-compute_stats :
    (s : SyncSourceLink) (n : ℕ)
    → (s.max_seq_num + s.seq_num_accum) % 2 ^ 32 ≡ n
    → s.base_seq_num ≡ 0
    → 0 < s.obs_packet_count
    → s.obs_packet_count ≤ n + 1
    → n + 1 < 2 ^ 32
    → (compute_stats s).cumulative_packet_lost + s.obs_packet_count ≡ n + 1
unfolding compute_stats
lost-compute_stats s n e b pos le small = ground arith

-- A source whose first packet has the number `q`, followed by an in-order run in which the sender
-- counted `sum ks` further packets and `length ks` of them arrived: the cumulative loss that is
-- reported is the number of missing packets plus `q`, since the base of the sequence stays 0.
pub compute_stats-lost :
    (smooth : ℕ → ℕ → ℕ) (l : Limits) (s : SyncSourceLink) (pkt : Packet) (now : Timeval)
    (ks : List ℕ) (pkts : List (Packet × Timeval))
    → l.max_packet_misorder + pkt.seq_num ≤ 2 ^ 16
    → pkt.seq_num < 2 ^ 16
    → l.max_packet_dropout < 2 ^ 16
    → InOrder l.max_packet_dropout pkt.seq_num ks pkts
    → length ks ≤ sum ks
    → sum ks < 2 ^ 31
    → let s' = (receive smooth l (init_stats s) ((pkt, now) ∷ pkts)).1 in
      (compute_stats s').cumulative_packet_lost + length ks ≡ pkt.seq_num + sum ks
unfolding receive
compute_stats-lost smooth l s pkt now ks pkts m h d o le small =
    let f = first-At smooth l s pkt now m h in
    let s₁ = (record_reception smooth l (init_stats s) pkt now).1 in
    let r = receive-InOrder smooth l s₁ pkt.seq_num 0 ks pkts f.1 d o (omega (arith, f.2)) in
    let s' = (receive smooth l s₁ pkts).1 in
    let t =
      lost-compute_stats s' (pkt.seq_num + sum ks) (omega (arith, r.1.extended)) (r.3 ∙ f.3)
        (omega (arith, r.2, f.2)) (omega (arith, r.2, f.2)) (omega arith) in
    omega (arith, t, r.2, f.2)
