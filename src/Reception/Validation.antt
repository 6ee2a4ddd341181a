-- ===== src/Reception/Validation.antt =====
-- src/incqueue.cpp, `recordReception`: a source on probation becomes valid by a run of packets
-- with consecutive sequence numbers.
use ccrtp.Prelude.{
  ℕ, zero, suc, ◌+◌, ◌^◌, ◌%◌, ◌<◌, ◌≡◌, ◌≢◌, refl, List, [], ◌∷◌, ◌++◌, Bool, true, false,
  replicate, arith,
}
use ccrtp.Source.{SyncSourceLink}
use ccrtp.Reception.{Limits, validate, record_sequence}

-- Feeds `n` packets, each with the number after the highest one seen.
pub feed : Limits → ℕ → SyncSourceLink → List Bool × SyncSourceLink
feed l zero s = ([], s)
feed l (suc n) s =
    let (result, s') = record_sequence l s (s.max_seq_num + 1) in
    let rest = feed l n s' in (result ∷ rest.0, rest.1)

-- One packet in sequence while more than one is wanted.
validate-step :
    (l : Limits) (s : SyncSourceLink) (p : ℕ)
    → s.probation ≡ suc (suc p)
    → suc (suc p) < 2 ^ 8
    → record_sequence l s (s.max_seq_num + 1)
      ≡ (false, record s { probation = suc p; max_seq_num = s.max_seq_num + 1 })
unfolding record_sequence validate
validate-step l s p e h = ground arith

validate-last :
    (l : Limits) (s : SyncSourceLink)
    → s.probation ≡ 1
    → let (result, s') = record_sequence l s (s.max_seq_num + 1) in
      (result ≡ true)
      × (s'.probation ≡ 0)
      × (s'.max_seq_num ≡ s.max_seq_num + 1)
      × (s'.seq_num_accum ≡ s.max_seq_num + 1)
unfolding record_sequence validate
validate-last l s e = ground arith

-- A source that wants `p + 1` packets in sequence rejects the first `p` of them, accepts the next
-- one, and is valid from then on, with its highest and its accumulated sequence number set to
-- that packet's.
pub feed-validates :
    (l : Limits) (s : SyncSourceLink) (p : ℕ)
    → s.probation ≡ suc p
    → suc p < 2 ^ 8
    → let (results, s') = feed l (suc p) s in
      (results ≡ replicate p false ++ true ∷ [])
      × (s'.probation ≡ 0)
      × (s'.max_seq_num ≡ s.max_seq_num + suc p)
      × (s'.seq_num_accum ≡ s.max_seq_num + suc p)
unfolding feed
feed-validates l s zero e h = let t = validate-last l s e in (rw t.0, t.1, t.2, t.3)
feed-validates l s (suc p) e h =
    let s' = record s { probation = suc p; max_seq_num = s.max_seq_num + 1 } in
    let r = feed-validates l s' p refl (omega arith) in
    rw (validate-step l s p e h) (rw r.0, r.1, omega (arith, r.2), omega (arith, r.3))

validate-gap :
    (l : Limits) (s : SyncSourceLink) (seq : ℕ)
    → s.probation ≢ 0
    → seq ≢ s.max_seq_num + 1
    → let (result, s') = record_sequence l s seq in
      (result ≡ false) × (s'.probation ≡ (l.min_valid_packet_sequence + 255) % 256)
unfolding record_sequence validate
validate-gap l s seq v ne = ground arith

-- A gap on probation rejects the packet, and the source wants one packet less than the minimum
-- from there on: it becomes valid by exactly so many packets in sequence, and by no fewer.
pub feed-gap :
    (l : Limits) (s : SyncSourceLink) (seq p : ℕ)
    → s.probation ≢ 0
    → seq ≢ s.max_seq_num + 1
    → l.min_valid_packet_sequence ≡ suc (suc p)
    → suc (suc p) < 2 ^ 8
    → let (result, s') = record_sequence l s seq in
      (result ≡ false)
      × ((feed l (suc p) s').0 ≡ replicate p false ++ true ∷ [])
      × ((feed l (suc p) s').1.probation ≡ 0)
feed-gap l s seq p v ne m h =
    let t = validate-gap l s seq v ne in
    let r = feed-validates l (record_sequence l s seq).1 p (omega (arith, t.1)) (omega arith) in
    (t.0, r.0, r.1)
