-- ===== src/Reception.antt =====
-- src/incqueue.cpp, `recordReception`, and src/members.cpp, `computeStats`: source validation,
-- sequence number tracking and loss statistics for the packets of one source.
pub mod Sequence
pub mod Validation
pub mod Loss
mod Tests
use ccrtp.Prelude.{
  ℕ, ◌+◌, ◌-◌, ◌*◌, ◌/◌, ◌%◌, ◌^◌, Bool, true, false, ◌||◌, ltb, leb, ◌==◌, if◌then◌else◌,
}
use ccrtp.Source.{Timeval, SyncSource, SyncSourceLink, seq_num_mod}

-- What `recordReception` reads of an IncomingRTPPkt.
pub record Packet : Type 0 where
  pub seq_num : ℕ
  pub timestamp : ℕ
  pub payload_size : ℕ

-- The members of IncomingDataQueue that it reads, with the clock rate of the payload format.
pub record Limits : Type 0 where
  pub min_valid_packet_sequence : ℕ
  pub max_packet_dropout : ℕ
  pub max_packet_misorder : ℕ
  pub clock_rate : ℕ

abbrev pub sub16 : ℕ → ℕ → ℕ
sub16 a b = (a + 2 ^ 16 - b) % 2 ^ 16

abbrev pub sub32 : ℕ → ℕ → ℕ
sub32 a b = (a + 2 ^ 32 - b) % 2 ^ 32

abbrev pub is_valid : SyncSourceLink → Bool
is_valid s = 0 == s.probation

abbrev pub init_sequence : ℕ → SyncSourceLink → SyncSourceLink
init_sequence seq s = record s { max_seq_num = seq; seq_num_accum = seq }

-- The branch for a source that is not valid yet. `getMaxSeqNum() + 1` is an `int` and does not
-- wrap; `decProbation` and `getMinValidPacketSequence() - 1` are uint8 values.
unfoldable pub validate : Limits → SyncSourceLink → ℕ → Bool × SyncSourceLink
validate l s seq =
    if seq == s.max_seq_num + 1
    then (let s' = record s { probation = (s.probation + 255) % 256 } in
        if is_valid s'
        then (true, record (init_sequence seq s') { max_seq_num = seq })
        else (false, record s' { max_seq_num = seq }))
    else (
      false,
      record s { probation = (l.min_valid_packet_sequence + 255) % 256; max_seq_num = seq },
    )

-- The branch for a valid source.
unfoldable pub track : Limits → SyncSourceLink → ℕ → Bool × SyncSourceLink
track l s seq =
    let step = sub16 seq s.max_seq_num in
    if ltb step l.max_packet_dropout
    then (if ltb seq s.max_seq_num
        then (
          true,
          record s { seq_num_accum = (s.seq_num_accum + seq_num_mod) % 2 ^ 32; max_seq_num = seq },
        )
        else (true, record s { max_seq_num = seq }))
    else if leb step (seq_num_mod - l.max_packet_misorder)
    then (if seq == s.bad_seq_num
        then (true, init_sequence seq s)
        else (let s' = record s { bad_seq_num = (seq + 1) % seq_num_mod } in
            if ltb 0 s.obs_packet_count
            then (false, s')
            else (true, record s' { max_seq_num = seq })))
    else (true, s)

unfoldable pub record_sequence : Limits → SyncSourceLink → ℕ → Bool × SyncSourceLink
record_sequence l s seq = if is_valid s then track l s seq else validate l s seq

-- `timersub`, then `timeval2microtimeout`: microseconds modulo 2 ^ 32.
abbrev pub micros_between : Timeval → Timeval → ℕ
micros_between a b =
    ((a.sec * 1000000 + a.usec) % 2 ^ 32 + 2 ^ 32 - (b.sec * 1000000 + b.usec) % 2 ^ 32) % 2 ^ 32

-- The absolute value of a uint32 read as an int32.
abbrev pub abs32 : ℕ → ℕ
abs32 d = if ltb d (2 ^ 31) then d else 2 ^ 32 - d

-- The last block of `recordReception`, for a packet that is considered valid. `smooth` is the
-- floating-point expression of the jitter, over the old jitter and the transit difference.
unfoldable pub account : (ℕ → ℕ → ℕ) → Limits → SyncSourceLink → Packet → Timeval → SyncSourceLink
account smooth l s pkt now =
    let count = (s.obs_packet_count + 1) % 2 ^ 32 in
    let initial = if count == 1 then pkt.timestamp else s.initial_data_timestamp in
    let sender = if count == 1 then true else s.source.active_sender in
    let arrival = (micros_between now s.initial_data_time * l.clock_rate) % 2 ^ 32 in
    let transit = sub32 arrival pkt.timestamp in
    let delta = abs32 (sub32 transit s.last_packet_transit_time) in
    record s {
      source = record (s.source) { active_sender = sender };
      obs_packet_count = count;
      obs_octet_count = (s.obs_octet_count + pkt.payload_size) % 2 ^ 32;
      last_packet_time = now;
      initial_data_timestamp = initial;
      last_packet_transit_time = transit;
      jitter = smooth s.jitter delta;
    }

unfoldable pub record_reception :
    (ℕ → ℕ → ℕ) → Limits → SyncSourceLink → Packet → Timeval → Bool × SyncSourceLink
record_reception smooth l s pkt now =
    let (result, s') = record_sequence l s pkt.seq_num in
    if result then (true, account smooth l s' pkt now) else (false, s')

-- The fraction lost, from the uint32 values `expectedDelta` and `lostDelta`: the comparison
-- `lostDelta <= 0` and the shift by 8 are on a uint32, and the quotient is cut to a uint8.
unfoldable pub fraction : ℕ → ℕ → ℕ
fraction expected_delta lost_delta =
    if expected_delta == 0 || leb lost_delta 0
    then 0
    else ((lost_delta * 256) % 2 ^ 32 / expected_delta) % 256

-- `computeStats`.
unfoldable pub compute_stats : SyncSourceLink → SyncSourceLink
compute_stats s =
    let extended = (s.max_seq_num + s.seq_num_accum) % 2 ^ 32 in
    let expected = (sub32 extended s.base_seq_num + 1) % 2 ^ 32 in
    let lost = if s.obs_packet_count == 0 then 0 else sub32 expected s.obs_packet_count in
    let expected_delta = sub32 expected s.expected_prior in
    let received_delta = sub32 s.obs_packet_count s.received_prior in
    record s {
      extended_max_seq_num = extended;
      cumulative_packet_lost = lost;
      expected_prior = expected;
      received_prior = s.obs_packet_count;
      fraction_lost = fraction expected_delta (sub32 expected_delta received_delta);
    }
