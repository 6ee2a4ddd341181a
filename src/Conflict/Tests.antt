-- ===== src/Conflict/Tests.antt =====
-- Collisions of transport addresses on a concrete session.
use ccrtp.Prelude.{◌+◌, ◌≡◌, refl, inl, [], ◌∷◌, true, false, none, some, arith}
use ccrtp.Source.{State, zero_time, ConflictingTransportAddress, SyncSourceLink}
use ccrtp.Conflict.{Session, Surroundings, update_conflict, check_ssrc_in_incoming_rtp_pkt}
use ccrtp.Conflict.Collision.{recorded, check_ssrc_in_incoming_rtp_pkt-own}

abbrev source : SyncSourceLink
source = record {
  source = record {
    state = State.active;
    id = 7;
    active_sender = true;
    network_address = 1;
    data_transport_port = 5004;
    control_transport_port = 5005;
  };
  prev_conflict = none;
  sender_info = none;
  receiver_info = none;
  last_packet_time = zero_time;
  last_rtcp_packet_time = zero_time;
  last_rtcp_sr_time = zero_time;
  obs_packet_count = 10;
  obs_octet_count = 1600;
  max_seq_num = 65534;
  extended_max_seq_num = 0;
  cumulative_packet_lost = 0;
  fraction_lost = 0;
  last_packet_transit_time = 0;
  jitter = 0;
  initial_data_timestamp = 0;
  initial_data_time = zero_time;
  flag = true;
  bad_seq_num = 65537;
  probation = 0;
  base_seq_num = 0;
  expected_prior = 0;
  received_prior = 0;
  seq_num_accum = 0;
}

abbrev surroundings : Surroundings
surroundings = record {
  random = λ i. i + 100;
  is_registered = λ ssrc. false;
  now = zero_time;
  min_valid_packet_sequence = 0;
}

-- The address at which the local source has collided once.
abbrev conflict : ConflictingTransportAddress
conflict = record {
  network_address = 3;
  data_transport_port = 5004;
  control_transport_port = 5005;
  last_packet_time = zero_time;
}

abbrev remote : Session
remote = record { link = source; conflicts = []; local_ssrc = 1; byes = 0 }

abbrev local : Session
local = record { link = source; conflicts = conflict ∷ []; local_ssrc = 7; byes = 0 }

check_ssrc_in_incoming_rtp_pkt-own_example :
    (recorded local.conflicts 2 5004 ≡ true
      → check_ssrc_in_incoming_rtp_pkt surroundings local false 2 5004
        ≡ some
            (false, record local { conflicts = update_conflict local.conflicts 2 5004 zero_time }))
    × (recorded local.conflicts 2 5004 ≡ false
        → check_ssrc_in_incoming_rtp_pkt surroundings local false 2 5004 ≡ none)
check_ssrc_in_incoming_rtp_pkt-own_example =
    check_ssrc_in_incoming_rtp_pkt-own surroundings local false 2 5004 refl (inl (omega arith))
