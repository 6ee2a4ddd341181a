-- ===== src/Control/Reception.antt =====
-- src/control.cpp: the loop of `controlReceptionService` that finds the next time to look for RTCP
-- packets.
use ccrtp.Prelude.{ℕ, zero, suc, ◌+◌, ◌*◌, ◌≤◌, ◌<◌, ◌≡◌, refl, inl, inr, some, arith, Bool-cases}
use ccrtp.Source.{Timeval}
use ccrtp.Control.{timeradd, timer_le, micros, check_interval, next_check_from}
use ccrtp.Control.Clock.{Normal, micros-timeradd, timeradd-Normal, timer_le-le, timer_le-lt}

-- What the loop leaves: the next check lies ahead, by at most one interval.
record Found (now : Timeval) (fuel : ℕ) (last next : Timeval) : Type 0 where
  last' : Timeval
  next' : Timeval
  ends : next_check_from fuel now last next ≡ some (last', next')
  past : micros last' ≤ micros now
  ahead : micros now < micros next'
  soon : micros next' ≤ micros now + 250_000

-- Two rounds move both times on by one interval.
next_check_from-Found :
    (k fuel : ℕ) (now last next : Timeval)
    → Normal now
    → Normal last
    → Normal next
    → micros last ≤ micros now
    → micros next ≤ micros now
    → micros now < micros last + k * 250_000
    → micros now < micros next + k * 250_000
    → 2 * k ≤ fuel
    → Found now fuel last next
unfolding next_check_from
next_check_from-Found zero fuel now last next n l m past due a b enough = absurd (omega arith)
next_check_from-Found (suc k) zero now last next n l m past due a b enough = absurd (omega arith)
next_check_from-Found (suc k) (suc zero) now last next n l m past due a b enough =
    absurd (omega arith)
next_check_from-Found (suc k) (suc (suc fuel)) now last next n l m past due a b enough =
    let one = timeradd last check_interval in
    let two = timeradd next check_interval in
    let sum_one = micros-timeradd last check_interval in
    let sum_two = micros-timeradd next check_interval in
    let normal_one = timeradd-Normal last check_interval l (omega arith) in
    let normal_two = timeradd-Normal next check_interval m (omega arith) in
    elim (Bool-cases (timer_le one now)) [
      | inr stop ↦ record {
        last' = next;
        next' = one;
        ends = rw stop refl;
        past = due;
        ahead = timer_le-lt one now n stop;
        soon = omega (arith, sum_one);
      }
      | inl on ↦ elim (Bool-cases (timer_le two now)) [
        | inr stop ↦ record {
          last' = one;
          next' = two;
          ends = rw on (rw stop refl);
          past = timer_le-le one now normal_one on;
          ahead = timer_le-lt two now n stop;
          soon = omega (arith, sum_two);
        }
        | inl again ↦
            (let later =
                next_check_from-Found k fuel now one two n normal_one normal_two
                  (timer_le-le one now normal_one on) (timer_le-le two now normal_two again)
                  (omega (arith, sum_one)) (omega (arith, sum_two)) (omega arith) in
              record {
                last' = later.last';
                next' = later.next';
                ends = rw on (rw again later.ends);
                past = later.past;
                ahead = later.ahead;
                soon = later.soon;
              })
      ]
    ]

-- Once a check is due, however late the service is, the loop ends: twice as many rounds as check
-- intervals have passed, and two, are enough. The next check then lies behind the present by
-- more than nothing and at most one interval, and the last one not behind it.
pub next_check_from-ends :
    (late : ℕ) (now last next : Timeval)
    → Normal now
    → Normal last
    → Normal next
    → micros last ≤ micros now
    → micros next ≤ micros now
    → micros now ≤ micros last + late * 250_000
    → micros now ≤ micros next + late * 250_000
    → (last' : Timeval) × (next' : Timeval) × (next_check_from (2 * late + 2) now last next
        ≡ some (last', next'))
      × (micros last' ≤ micros now)
      × (micros now < micros next')
      × (micros next' ≤ micros now + 250_000)
next_check_from-ends late now last next n l m past due a b =
    let found =
      next_check_from-Found (suc late) (2 * late + 2) now last next n l m past due (omega arith)
        (omega arith) (omega arith) in
    (found.last', found.next', found.ends, found.past, found.ahead, found.soon)
