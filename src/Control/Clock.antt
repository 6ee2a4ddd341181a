-- ===== src/Control/Clock.antt =====
-- src/rtcppkt.cpp: times, and the average size of RTCP packets in src/control.cpp.
use ccrtp.Prelude.{ℕ, ◌+◌, ◌*◌, ◌/◌, ◌%◌, ◌^◌, ◌≤◌, ◌<◌, ◌≡◌, ◌↔◌, true, false, arith}
use ccrtp.Source.{Timeval}
use ccrtp.Control.{
  timeradd, timer_le, micros, microtimeout2_timeval, timeval_interval_to_65536,
  update_avg_rtcp_size,
}

-- The microseconds are less than a second.
abbrev pub Normal : Timeval → Type 0
Normal t = t.usec < 1_000_000

pub micros-timeradd : (a b : Timeval) → micros (timeradd a b) ≡ micros a + micros b
unfolding timeradd
micros-timeradd a b = ground arith

pub timeradd-Normal : (a b : Timeval) → Normal a → Normal b → Normal (timeradd a b)
unfolding timeradd
timeradd-Normal a b m n = ground arith

pub timer_le-true :
    (a b : Timeval) → Normal a → Normal b → micros a ≤ micros b → timer_le a b ≡ true
unfolding timer_le
timer_le-true a b m n h = ground arith

pub timer_le-false :
    (a b : Timeval) → Normal a → Normal b → micros b < micros a → timer_le a b ≡ false
unfolding timer_le
timer_le-false a b m n h = ground arith

-- The conversion of a microseconds counter gives the same time back only where its seconds and
-- its remaining microseconds are equal numbers: it swaps the two.
pub microtimeout2_timeval-micros :
    (to : ℕ) → (micros (microtimeout2_timeval to) ≡ to) ↔ (to / 1_000_000 ≡ to % 1_000_000)
unfolding microtimeout2_timeval
microtimeout2_timeval-micros to = (λ e. omega arith, λ e. omega arith)

-- For an interval of less than 2^16 seconds, the delay that a report block states is at most the
-- true one in units of 1/65536 second, and less than two units below it.
pub timeval_interval_to_65536-near :
    (t : Timeval)
    → Normal t
    → t.sec < 2 ^ 16
    → (timeval_interval_to_65536 t * 1_000_000 ≤ micros t * 65536)
      × (micros t * 65536 < (timeval_interval_to_65536 t + 2) * 1_000_000)
unfolding timeval_interval_to_65536
timeval_interval_to_65536-near t n h = (omega arith, omega arith)

-- The average packet size of the RTCP timer never leaves the range of the sizes seen, and each
-- update is the exact 15/16 average rounded down by less than 2 bytes, as long as the sizes fit
-- into 16 bits.
pub update_avg_rtcp_size-near :
    (lower avg len limit : ℕ)
    → avg ≤ limit
    → len + lower ≤ limit
    → limit < 2 ^ 16
    → (update_avg_rtcp_size lower avg len ≤ limit)
      × (16 * update_avg_rtcp_size lower avg len ≤ 15 * avg + (len + lower))
      × (15 * avg + (len + lower) < 16 * update_avg_rtcp_size lower avg len + 32)
unfolding update_avg_rtcp_size
update_avg_rtcp_size-near lower avg len limit h k l = (omega arith, omega arith, omega arith)

pub timer_le-le : (a b : Timeval) → Normal a → timer_le a b ≡ true → micros a ≤ micros b
unfolding timer_le
timer_le-le a b n h = ground arith

pub timer_le-lt : (a b : Timeval) → Normal b → timer_le a b ≡ false → micros b < micros a
unfolding timer_le
timer_le-lt a b n h = ground arith
