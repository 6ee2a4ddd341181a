-- ===== src/Reception/Tests.antt =====
-- Sources on concrete packets.
use ccrtp.Prelude.{ℕ, ◌+◌, ◌%◌, ◌^◌, ◌≡◌, refl, List, [], ◌∷◌, true, none, arith}
use ccrtp.Source.{State, zero_time, Timeval, SyncSourceLink, init_stats}
use ccrtp.Reception.{
  Packet, Limits, record_sequence, track, validate, account, record_reception, fraction,
  compute_stats,
}
use ccrtp.Reception.Sequence.{At, receive, sum, all_true, receive-InOrder}

abbrev limits : Limits
limits = record {
  min_valid_packet_sequence = 2;
  max_packet_dropout = 3000;
  max_packet_misorder = 0;
  clock_rate = 8000;
}

abbrev no_jitter : ℕ → ℕ → ℕ
no_jitter j d = j

-- A valid source that stands at packet 65534.
abbrev source : SyncSourceLink
source = record {
  source = record {
    state = State.active;
    id = 7;
    active_sender = true;
    network_address = 1;
    data_transport_port = 5004;
    control_transport_port = 5005;
  };
  prev_conflict = none;
  sender_info = none;
  receiver_info = none;
  last_packet_time = zero_time;
  last_rtcp_packet_time = zero_time;
  last_rtcp_sr_time = zero_time;
  obs_packet_count = 10;
  obs_octet_count = 1600;
  max_seq_num = 65534;
  extended_max_seq_num = 0;
  cumulative_packet_lost = 0;
  fraction_lost = 0;
  last_packet_transit_time = 0;
  jitter = 0;
  initial_data_timestamp = 0;
  initial_data_time = zero_time;
  flag = true;
  bad_seq_num = 65537;
  probation = 0;
  base_seq_num = 0;
  expected_prior = 0;
  received_prior = 0;
  seq_num_accum = 0;
}

abbrev packet : ℕ → Packet
packet q = record { seq_num = q; timestamp = 160; payload_size = 160 }

runs : Unit {0}
unfolding record_sequence track validate account record_reception fraction compute_stats init_stats
    receive sum
runs = tt

-- The sender's packets 65535, 65537 and 65538: the number sent wraps after the first one.
abbrev arrivals : List (Packet × Timeval)
arrivals = (packet 65535, zero_time) ∷ (packet 1, zero_time) ∷ (packet 2, zero_time) ∷ []

receive-InOrder_example :
    let (results, s') = receive no_jitter limits source arrivals in
    (all_true results ≡ true)
    × At (65534 + sum (1 ∷ 2 ∷ 1 ∷ [])) 0 s'
    × (s'.obs_packet_count ≡ (10 + 3) % 2 ^ 32)
    × (s'.base_seq_num ≡ 0)
receive-InOrder_example =
    receive-InOrder no_jitter limits source 65534 0 (1 ∷ 2 ∷ 1 ∷ []) arrivals
      (record { valid = refl; low = refl; extended = refl }) (omega arith)
      (omega arith, refl, (omega arith, refl, (omega arith, refl, tt))) (omega arith)

-- 110 packets expected since the last report, 100 received.
abbrev lossy : SyncSourceLink
lossy = record source {
  max_seq_num = 209;
  expected_prior = 100;
  received_prior = 90;
  obs_packet_count = 190;
}
