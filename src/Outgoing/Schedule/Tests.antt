-- ===== src/Outgoing/Schedule/Tests.antt =====
-- The scheduling of packets at a clock rate of 8000.
use ccrtp.Prelude.{ℕ, ◌≡◌, refl, [], ◌∷◌, false, none, some, arith}
use ccrtp.Source.{Timeval}
use ccrtp.Control.{timeradd}
use ccrtp.Outgoing.{SendQueue, OutgoingPacket}
use ccrtp.Outgoing.Schedule.{
  Scheduler, stamp_time, catch_up, send_time, decide, expire_first, scheduling_from,
  get_scheduling_timeout,
}
use ccrtp.Outgoing.Schedule.Expiry.{Ended, get_scheduling_timeout-Ended, decide-future}

abbrev at : ℕ → OutgoingPacket
at stamp = record {
  packet = record {
    buffer = record { size = 12; bytes = λ j. 0 };
    hdr_size = 12;
    payload_size = 0;
    total = 12;
    srtp_length = 0;
    srtp_data_offset = 0;
  };
  timestamp = stamp;
}

-- Packets for the times 0 and 3 seconds behind the start.
abbrev waiting : SendQueue
waiting = record {
  queue = at 100 ∷ at 24100 ∷ [];
  locked = false;
  destinations = [];
  wire = [];
  packet_count = 0;
  octet_count = 0;
  send_seq = 1;
  send_sources = [];
  send_cc = 0;
  paddinglen = 0;
  marked = false;
  initial_timestamp = 100;
  local_ssrc = 77;
  payload_type = 0;
  max_send_segment_size = 1000;
}

abbrev scheduler : Scheduler
scheduler = record {
  queue = waiting;
  overflow_time = record { sec = 1000; usec = 0 };
  rate = 8000;
  scheduling_timeout = 8000;
  expire_timeout = 40000;
  expired = [];
}

-- One second behind the start.
abbrev clock : ℕ → Timeval
clock turn = record { sec = 1001; usec = 0 }

get_scheduling_timeout-Ended_example : Ended clock scheduler
get_scheduling_timeout-Ended_example =
    get_scheduling_timeout-Ended clock scheduler refl (omega arith) (omega arith)

-- The first packet has expired, the second one waits for two seconds.
run :
    get_scheduling_timeout clock scheduler
    ≡ some (
      2_000_000,
      record scheduler { queue = record waiting { queue = at 24100 ∷ [] }; expired = at 100 ∷ [] },
    )
unfolding get_scheduling_timeout scheduling_from send_time stamp_time catch_up timeradd decide
    expire_first
run = refl

-- 3000 seconds ahead.
decide-future_example :
    decide 40000 (record { sec = 4001; usec = 0 }) (record { sec = 1001; usec = 0 }) ≡ none
decide-future_example =
    decide-future 40000 (record { sec = 4001; usec = 0 }) (record { sec = 1001; usec = 0 })
      (omega arith) (omega arith) (omega arith) (omega arith) (omega arith)
