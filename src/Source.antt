-- ===== src/Source.antt =====
-- src/ccrtp/sources.h (SyncSource) and src/ccrtp/iqueue.h (SyncSourceLink): what the queue keeps of
-- each synchronization source. The links between these objects are modelled in Members.
use ccrtp.Prelude.{ℕ, ◌+◌, ◌^◌, List, Bool, false, Option, none}

-- `timeval`: seconds and microseconds.
pub record Timeval : Type 0 where
  pub sec : ℕ
  pub usec : ℕ

abbrev pub zero_time : Timeval
zero_time = record { sec = 0; usec = 0 }

-- SyncSource::State.
pub data State : Type 0 where
  unknown prevalid active inactive leaving : State

-- A transport address that has collided with a source. Network addresses are numbers.
pub record ConflictingTransportAddress : Type 0 where
  pub network_address : ℕ
  pub data_transport_port : ℕ
  pub control_transport_port : ℕ
  pub last_packet_time : Timeval

pub record SyncSource : Type 0 where
  pub state : State
  pub id : ℕ
  pub active_sender : Bool
  pub network_address : ℕ
  pub data_transport_port : ℕ
  pub control_transport_port : ℕ

-- The statistics and the validation state of a source, with the source itself. `jitter` is the
-- bit pattern of a `float`.
pub record SyncSourceLink : Type 0 where
  pub source : SyncSource
  pub prev_conflict : Option ConflictingTransportAddress
  pub sender_info : Option (List ℕ)
  pub receiver_info : Option (List ℕ)
  pub last_packet_time : Timeval
  pub last_rtcp_packet_time : Timeval
  pub last_rtcp_sr_time : Timeval
  pub obs_packet_count : ℕ
  pub obs_octet_count : ℕ
  pub max_seq_num : ℕ
  pub extended_max_seq_num : ℕ
  pub cumulative_packet_lost : ℕ
  pub fraction_lost : ℕ
  pub last_packet_transit_time : ℕ
  pub jitter : ℕ
  pub initial_data_timestamp : ℕ
  pub initial_data_time : Timeval
  pub flag : Bool
  pub bad_seq_num : ℕ
  pub probation : ℕ
  pub base_seq_num : ℕ
  pub expected_prior : ℕ
  pub received_prior : ℕ
  pub seq_num_accum : ℕ

abbrev pub seq_num_mod : ℕ
seq_num_mod = 2 ^ 16

-- `SyncSourceLink::initStats`. The last transit time keeps its value.
unfoldable pub init_stats : SyncSourceLink → SyncSourceLink
init_stats s = record s {
  last_packet_time = zero_time;
  last_rtcp_packet_time = zero_time;
  last_rtcp_sr_time = zero_time;
  sender_info = none;
  receiver_info = none;
  obs_packet_count = 0;
  obs_octet_count = 0;
  max_seq_num = 0;
  extended_max_seq_num = 0;
  cumulative_packet_lost = 0;
  fraction_lost = 0;
  jitter = 0;
  initial_data_timestamp = 0;
  initial_data_time = zero_time;
  flag = false;
  bad_seq_num = seq_num_mod + 1;
  probation = 0;
  base_seq_num = 0;
  expected_prior = 0;
  received_prior = 0;
  seq_num_accum = 0;
}
