-- ===== src/Outgoing/Schedule.antt =====
-- src/outqueue.cpp, `getSchedulingTimeout`: when the first packet of the queue is due.
pub mod Expiry
mod Tests
use ccrtp.Prelude.{
  ℕ, zero, suc, ◌+◌, ◌-◌, ◌*◌, ◌/◌, ◌%◌, ◌^◌, ◌≤◌, ◌<◌, ◌≡◌, refl, List, [], ◌∷◌, ◌++◌, Bool, true,
  false, Option, none, some, ltb, leb, ◌==◌, if◌then◌else◌, ◌>>=◌, length, arith,
}
use ccrtp.Source.{Timeval}
use ccrtp.Control.{timeradd, micros}
use ccrtp.Outgoing.{SendQueue, OutgoingPacket, write_lock, unlock}

-- The queue with sendInfo.overflowTime, the clock rate, and the two timeouts. `expired` are the
-- calls of onExpireSend so far.
pub record Scheduler : Type 0 where
  pub queue : SendQueue
  pub overflow_time : Timeval
  pub rate : ℕ
  pub scheduling_timeout : ℕ
  pub expire_timeout : ℕ
  pub expired : List OutgoingPacket

-- The time of a timestamp. A division by zero, for a rate below 1000, is `none`.
unfoldable pub stamp_time : ℕ → ℕ → Option Timeval
stamp_time stamp rate =
    if ltb rate 1000
    then none
    else some (record { sec = stamp / rate; usec = 1000 * (stamp % rate) / (rate / 1000) })

-- The time that the timestamp takes to overflow.
abbrev pub overflow_step : ℕ → Timeval
overflow_step rate = record {
  sec = (2 ^ 32 - 1) / rate;
  usec = (2 ^ 32 - 1) % rate * 1_000_000 / rate;
}

-- The do-while loop on fuel, from its test on: `send` must not lie more than 5000 seconds back.
unfoldable pub catch_up : ℕ → Timeval → Timeval → Timeval → Timeval → Option (Timeval × Timeval)
catch_up zero now step send overflow = none
catch_up (suc fuel) now step send overflow = elim (ltb (send.sec + 5000) now.sec) [
  | true ↦ catch_up fuel now step (timeradd send step) (timeradd overflow step)
  | false ↦ some (send, overflow)
]

-- timersub, for a first time of at least the seconds of the second and one more.
abbrev pub timersub : Timeval → Timeval → Timeval
timersub a b =
    if ltb a.usec b.usec
    then record { sec = a.sec - b.sec - 1; usec = a.usec + 1_000_000 - b.usec }
    else record { sec = a.sec - b.sec; usec = a.usec - b.usec }

-- When the packet is due, and the new overflow time.
unfoldable pub send_time : Scheduler → OutgoingPacket → Timeval → Option (Timeval × Timeval)
send_time s p now = do
  let stamp = (p.timestamp + 2 ^ 32 - s.queue.initial_timestamp) % 2 ^ 32
  time ← stamp_time stamp s.rate
  caught ←
      catch_up (suc now.sec) now (overflow_step s.rate) (timeradd time s.overflow_time)
        s.overflow_time
  some (
    if ltb (now.sec + 20000) (caught.0).sec
        then timersub caught.0 (overflow_step s.rate)
        else caught.0,
    caught.1,
  )

-- `diff`, an int32, by its bit pattern.
abbrev pub diff_of : Timeval → Timeval → ℕ
diff_of send now = (micros send % 2 ^ 32 + 2 ^ 32 - micros now % 2 ^ 32) % 2 ^ 32

-- What the function does with the first packet: a timeout, or none and the packet is deleted.
unfoldable pub decide : ℕ → Timeval → Timeval → Option ℕ
decide expire_timeout send now =
    let diff = diff_of send now in
    if ltb (now.sec + 3600) send.sec
    then some 3_600_000_000
    else if ltb diff (2 ^ 31)
    then some diff
    else if leb (2 ^ 32 - diff) expire_timeout
    then some 0
    else none

-- The deletion of the first packet, under the lock.
unfoldable pub expire_first : Scheduler → OutgoingPacket → List OutgoingPacket → Option Scheduler
expire_first s p ps = do
  held ← write_lock s.queue
  some (record s { queue = unlock (record held { queue = ps }); expired = s.expired ++ (p ∷ []) })

-- The loop, one step of fuel for each packet and one more; `clock` gives the time of each turn.
unfoldable pub scheduling_from : ℕ → (ℕ → Timeval) → Scheduler → Option (ℕ × Scheduler)
scheduling_from zero clock s = none
scheduling_from (suc fuel) clock s = elim s.queue.queue [
  | [] ↦ some (s.scheduling_timeout, s)
  | p ∷ ps ↦ send_time s p (clock fuel) >>= λ due.
      let t = record s { overflow_time = due.1 } in
      elim (decide s.expire_timeout due.0 (clock fuel)) [
        | some timeout ↦ some (timeout, t)
        | none ↦ expire_first t p ps >>= scheduling_from fuel clock
      ]
]

unfoldable pub get_scheduling_timeout : (ℕ → Timeval) → Scheduler → Option (ℕ × Scheduler)
get_scheduling_timeout clock s = scheduling_from (suc (length s.queue.queue)) clock s
