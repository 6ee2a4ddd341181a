-- ===== src/Outgoing/Tests.antt =====
-- The queue of outgoing packets on a concrete session.
use ccrtp.Prelude.{
  ℕ, ◌+◌, ◌%◌, ◌^◌, ◌≡◌, refl, List, [], ◌∷◌, true, false, none, some, ◌>>=◌, length, arith,
}
use ccrtp.Outgoing.{
  SendQueue, Destination, OutgoingPacket, put_data, send_immediate, dispatch_data_packet,
  purge_outgoing_queue, Selected, select, set_partial,
}
use ccrtp.Outgoing.Stream.{Ready, stream_of, Carries}
use ccrtp.Outgoing.Segments.{queued, put_data-Queued}
use ccrtp.Outgoing.Dispatch.{drain, drained, octets, drain-fifo}
use ccrtp.Outgoing.Immediate.{send_immediate-put_data}
use ccrtp.Outgoing.Partial.{Written, set_partial-Written, set_partial-keeps_lock}

abbrev dirty : ℕ → ℕ → ℕ
dirty offset j = 165

abbrev here : Destination
here = record { network_address = 1; data_port = 5004; control_port = 5005 }

abbrev there : Destination
there = record { network_address = 2; data_port = 5004; control_port = 0 }

-- Segments of two bytes, and the last sequence number before the wrap.
abbrev session : SendQueue
session = record {
  queue = [];
  locked = false;
  destinations = here ∷ [];
  wire = [];
  packet_count = 4294967295;
  octet_count = 0;
  send_seq = 65535;
  send_sources = [];
  send_cc = 0;
  paddinglen = 4;
  marked = true;
  initial_timestamp = 4294967290;
  local_ssrc = 77;
  payload_type = 0;
  max_send_segment_size = 2;
}

-- The same without padding.
abbrev plain_session : SendQueue
plain_session = record session { paddinglen = 0 }

plain_session-Ready : Ready plain_session
plain_session-Ready = record {
  payload_type = omega arith;
  not_rtcp = refl;
  ssrc = omega arith;
  seq = omega arith;
  padding = refl;
  some_room = omega arith;
  small = omega arith;
  free = refl;
}

abbrev speech : List ℕ
speech = 1 ∷ 2 ∷ 3 ∷ 4 ∷ 5 ∷ []

put_data-Queued_example :
    (q' : SendQueue) × (sent : List OutgoingPacket) × (put_data dirty plain_session 160 speech
      ≡ some q')
    × (q' ≡ queued plain_session sent false)
    × Carries (stream_of plain_session 160) 65535 true sent speech
put_data-Queued_example = put_data-Queued dirty 160 speech plain_session plain_session-Ready

send_immediate-put_data_example :
    (sent : List OutgoingPacket) × (one : SendQueue) × (two : SendQueue) × (send_immediate dirty
        session 160 speech
      ≡ some one)
    × (put_data dirty session 160 speech >>= drain (length sent) ≡ some two)
    × (two ≡ record one {
      packet_count = (one.packet_count + length sent) % 2 ^ 32;
      octet_count = (one.octet_count + octets sent) % 2 ^ 32;
    })
    × (one.packet_count ≡ 4294967295)
    × (one.octet_count ≡ 0)
send_immediate-put_data_example =
    send_immediate-put_data dirty 160 speech session refl refl (omega arith) (omega arith)
      (omega arith)

-- Packets of two bytes of payload behind a header of 12 bytes.
abbrev packet_at : ℕ → OutgoingPacket
packet_at stamp = record {
  packet = record {
    buffer = record { size = 14; bytes = λ j. 9 };
    hdr_size = 12;
    payload_size = 2;
    total = 14;
    srtp_length = 0;
    srtp_data_offset = 0;
  };
  timestamp = stamp;
}

abbrev busy : SendQueue
busy = record session {
  queue = packet_at 160 ∷ packet_at 320 ∷ packet_at 480 ∷ [];
  destinations = here ∷ there ∷ [];
}

drain-fifo_example :
    drain 2 busy ≡ some (drained busy (packet_at 160 ∷ packet_at 320 ∷ []) (packet_at 480 ∷ []))
drain-fifo_example =
    drain-fifo busy (packet_at 160 ∷ packet_at 320 ∷ []) (packet_at 480 ∷ []) refl refl
      (omega arith) (omega arith)

abbrev second : Selected
second = record { before = packet_at 160 ∷ []; chosen = packet_at 320; behind = packet_at 480 ∷ [] }

select-second : select busy.queue 320 ≡ some second
unfolding select
select-second = refl

set_partial-Written_example :
    (n : ℕ) × (q' : SendQueue) × (set_partial busy 320 (7 ∷ 8 ∷ 9 ∷ []) 1 3 ≡ some (n, q'))
    × (n ≡ 1)
    × Written busy q' 320 (7 ∷ 8 ∷ 9 ∷ []) 1 n
set_partial-Written_example =
    set_partial-Written busy 320 (7 ∷ 8 ∷ 9 ∷ []) 1 3 second refl select-second (omega arith)
      (omega arith)

set_partial-keeps_lock_example :
    (q' : SendQueue) × (set_partial busy 320 (7 ∷ []) 2 1 ≡ some (0, q'))
    × (put_data dirty q' 320 (1 ∷ []) ≡ none)
    × (dispatch_data_packet q' ≡ none)
    × (purge_outgoing_queue q' ≡ none)
    × (set_partial q' 320 (7 ∷ []) 2 1 ≡ none)
set_partial-keeps_lock_example =
    set_partial-keeps_lock busy 320 (7 ∷ []) 2 1 second refl select-second (omega arith) dirty 1 []
