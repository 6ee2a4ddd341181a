-- ===== src/Control.antt =====
-- src/control.cpp and src/rtcppkt.cpp: the times of the RTCP service (QueueRTCPManager).
pub mod Clock
pub mod Reconsideration
pub mod Reception
mod Tests
use ccrtp.Prelude.{
  ℕ, zero, suc, ◌+◌, ◌-◌, ◌*◌, ◌/◌, ◌%◌, ◌^◌, Bool, true, false, Option, none, some, ltb, leb, ◌==◌,
  if◌then◌else◌,
}
use ccrtp.Source.{Timeval}

-- timeradd and timercmp of <sys/time.h>.
unfoldable pub timeradd : Timeval → Timeval → Timeval
timeradd a b =
    if ltb (a.usec + b.usec) 1_000_000
    then record { sec = a.sec + b.sec; usec = a.usec + b.usec }
    else record { sec = a.sec + b.sec + 1; usec = a.usec + b.usec - 1_000_000 }

unfoldable pub timer_le : Timeval → Timeval → Bool
timer_le a b = if a.sec == b.sec then leb a.usec b.usec else ltb a.sec b.sec

-- A time in microseconds.
abbrev pub micros : Timeval → ℕ
micros t = t.sec * 1_000_000 + t.usec

-- microtimeout2Timeval takes the quotient for the microseconds.
unfoldable pub microtimeout2_timeval : ℕ → Timeval
microtimeout2_timeval to = record { sec = to % 1_000_000; usec = to / 1_000_000 }

-- timeval2microtimeout of one time and of a difference: uint32 values. The differences are those
-- of 64-bit integers.
unfoldable pub timeval2microtimeout : Timeval → ℕ
timeval2microtimeout t = micros t % 2 ^ 32

unfoldable pub timeval_diff2microtimeout : Timeval → Timeval → ℕ
timeval_diff2microtimeout a b = (micros a + 2 ^ 64 - micros b) % 2 ^ 32

-- timevalIntervalTo65536: an interval in units of 1/65536 of a second, as a uint32.
unfoldable pub timeval_interval_to_65536 : Timeval → ℕ
timeval_interval_to_65536 t = (t.sec * 65536 % 2 ^ 32 + t.usec * 2 ^ 12 / 125000 * 2) % 2 ^ 32

-- reconsInfo: the times of the previous packet, now, and the next packet, and the number of
-- members at the last computation.
pub record Reconsider : Type 0 where
  pub tp : Timeval
  pub tc : Timeval
  pub tn : Timeval
  pub p_members : ℕ

-- An interval scaled by members / p_members, in uint32 arithmetic.
unfoldable pub scaled : Timeval → Timeval → ℕ → ℕ → Timeval
scaled a b members p_members =
    let t = timeval_diff2microtimeout a b * members % 2 ^ 32 / p_members in
    record { sec = t / 1_000_000; usec = t % 1_000_000 }

unfoldable pub reverse_reconsideration : ℕ → Reconsider → Reconsider
reverse_reconsideration members r =
    if ltb members r.p_members
    then record r {
      tn = timeradd r.tc (scaled r.tn r.tc members r.p_members);
      tp = timeradd r.tc (scaled r.tc r.tp members r.p_members);
      p_members = members;
    }
    else record r { p_members = members }

-- timerReconsideration: `interval` is the result of computeRTCPInterval, `now` the clock.
unfoldable pub timer_reconsideration : Timeval → Timeval → Reconsider → Bool × Reconsider
timer_reconsideration interval now r =
    let next = record r { tn = timeradd r.tp interval; tc = now } in
    if timer_le next.tn now then (true, record next { tp = now }) else (false, next)

-- What a pass of controlTransmissionService is given: the clock before and in the
-- reconsideration, the two intervals, and the number of members at the end.
pub record Pass : Type 0 where
  pub before : Timeval
  pub now : Timeval
  pub interval : Timeval
  pub next_interval : Timeval
  pub members : ℕ

-- The service's times, and how many packets it has dispatched.
pub record Service : Type 0 where
  pub active : Bool
  pub recons : Reconsider
  pub last_check : Timeval
  pub next_check : Timeval
  pub initial : Bool
  pub dispatched : ℕ

unfoldable pub control_transmission_service : Pass → Service → Service
control_transmission_service w s =
    let seen = record s { recons = record (s.recons) { tc = w.before } } in
    let answer = timer_reconsideration w.interval w.now seen.recons in
    if s.active
    then (if timer_le s.recons.tn w.before
        then (if answer.0
            then record seen {
              last_check = answer.1.tc;
              dispatched = s.dispatched + 1;
              initial = false;
              recons = record (answer.1) {
                tp = answer.1.tc;
                tn = timeradd answer.1.tc w.next_interval;
                p_members = w.members;
              };
            }
            else record seen { recons = answer.1 })
        else seen)
    else s

-- The loop of controlReceptionService, on fuel; 250 ms is rtcpCheckInterval.
abbrev pub check_interval : Timeval
check_interval = record { sec = 0; usec = 250_000 }

unfoldable pub next_check_from : ℕ → Timeval → Timeval → Timeval → Option (Timeval × Timeval)
next_check_from zero now last next = none
next_check_from (suc fuel) now last next =
    let later = timeradd last check_interval in
    let rest = next_check_from fuel now next later in
    if timer_le later now then rest else some (next, later)

-- updateAvgRTCPSize, in uint16.
unfoldable pub update_avg_rtcp_size : ℕ → ℕ → ℕ → ℕ
update_avg_rtcp_size lower_headers_size avg len =
    (15 * avg / 16 + (len + lower_headers_size) / 16) % 2 ^ 16
