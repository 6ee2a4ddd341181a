-- ===== src/Control/Tests.antt =====
-- The times of the RTCP service on concrete values.
use ccrtp.Prelude.{ℕ, ◌+◌, ◌*◌, ◌/◌, ◌%◌, ◌≤◌, ◌<◌, ◌≡◌, ◌⊎◌, ◌↔◌, true, some, arith}
use ccrtp.Source.{Timeval}
use ccrtp.Control.{
  micros, microtimeout2_timeval, Reconsider, Pass, Service, control_transmission_service,
  next_check_from,
}
use ccrtp.Control.Clock.{microtimeout2_timeval-micros}
use ccrtp.Control.Reconsideration.{control_transmission_service-sends}
use ccrtp.Control.Reception.{next_check_from-ends}

abbrev at : ℕ → ℕ → Timeval
at sec usec = record { sec = sec; usec = usec }

microtimeout2_timeval-micros_example :
    (micros (microtimeout2_timeval 2_500_000) ≡ 2_500_000)
    ↔ (2_500_000 / 1_000_000 ≡ 2_500_000 % 1_000_000)
microtimeout2_timeval-micros_example = microtimeout2_timeval-micros 2_500_000

-- Three of five members stay.
abbrev times : Reconsider
times = record { tp = at 1 999_000; tc = at 2 0; tn = at 2 1_000; p_members = 5 }

abbrev pass : Pass
pass = record {
  before = at 6 0;
  now = at 6 10;
  interval = at 4 0;
  next_interval = at 5 0;
  members = 3;
}

abbrev service : Service
service = record {
  active = true;
  recons = record { tp = at 1 0; tc = at 1 0; tn = at 5 500; p_members = 2 };
  last_check = at 1 0;
  next_check = at 1 250_000;
  initial = true;
  dispatched = 0;
}

control_transmission_service-sends_example :
    ((control_transmission_service pass service).dispatched ≡ service.dispatched)
    ⊎ (((control_transmission_service pass service).dispatched ≡ service.dispatched + 1)
        × (service.active ≡ true)
        × (micros service.recons.tn ≤ micros pass.before)
        × (micros service.recons.tp + micros pass.interval ≤ micros pass.now)
        × ((control_transmission_service pass service).recons.tp ≡ pass.now)
        × (micros (control_transmission_service pass service).recons.tn
            ≡ micros pass.now + micros pass.next_interval)
        × ((control_transmission_service pass service).recons.p_members ≡ pass.members))
control_transmission_service-sends_example =
    control_transmission_service-sends pass service (omega arith) (omega arith) (omega arith)
      (omega arith) (omega arith)

-- The service is three seconds late.
next_check_from-ends_example :
    (last' : Timeval) × (next' : Timeval) × (next_check_from
        (2 * 12 + 2)
        (at 4 0)
        (at 1 0)
        (at 1 250_000)
      ≡ some (last', next'))
    × (micros last' ≤ micros (at 4 0))
    × (micros (at 4 0) < micros next')
    × (micros next' ≤ micros (at 4 0) + 250_000)
next_check_from-ends_example =
    next_check_from-ends 12 (at 4 0) (at 1 0) (at 1 250_000) (omega arith) (omega arith)
      (omega arith) (omega arith) (omega arith) (omega arith) (omega arith)
