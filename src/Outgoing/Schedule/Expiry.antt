-- ===== src/Outgoing/Schedule/Expiry.antt =====
-- getSchedulingTimeout: its end, and which packets it deletes.
use mathlib.Core.Path.{transport}
use ccrtp.Prelude.{
  ℕ, zero, suc, ◌+◌, ◌-◌, ◌*◌, ◌/◌, ◌%◌, ◌^◌, ◌≤◌, ◌<◌, ◌≡◌, refl, sym, ap, ◌∙◌, List, [], ◌∷◌,
  ◌++◌, true, false, Option, none, some, ltb, if◌then◌else◌, length, arith, Bool-cases,
  Option-cases, inl, inr, append_assoc,
}
use ccrtp.Source.{Timeval}
use ccrtp.Control.{timeradd, micros}
use ccrtp.Outgoing.{OutgoingPacket}
use ccrtp.Outgoing.Schedule.{
  Scheduler, timersub, stamp_time, overflow_step, catch_up, send_time, decide, expire_first,
  scheduling_from, get_scheduling_timeout,
}

timeradd-sec : (a b : Timeval) → a.sec + b.sec ≤ (timeradd a b).sec
unfolding timeradd
timeradd-sec a b = ground arith

catch_up-ends :
    (k : ℕ) (now step send overflow : Timeval)
    → 1 ≤ step.sec
    → now.sec ≤ k + send.sec
    → (r : Timeval × Timeval) × (catch_up (suc k) now step send overflow ≡ some r)
unfolding catch_up
catch_up-ends zero now step send overflow h f =
    let near : ltb (send.sec + 5000) now.sec ≡ false = ground arith in
    ((send, overflow), rw (catch_up, near) refl)
catch_up-ends (suc k) now step send overflow h f =
    elim (Bool-cases (ltb (send.sec + 5000) now.sec)) [
      | inl p ↦
          let later = timeradd-sec send step in
          let (r, e) =
            catch_up-ends k now step (timeradd send step) (timeradd overflow step) h
              (omega (arith, later)) in
          (r, again k p e)
      | inr p ↦ ((send, overflow), rw (catch_up, p) refl)
    ]
  where
    again :
        (k : ℕ) {r : Timeval × Timeval}
        → ltb (send.sec + 5000) now.sec ≡ true
        → catch_up (suc k) now step (timeradd send step) (timeradd overflow step) ≡ some r
        → catch_up (suc (suc k)) now step send overflow ≡ some r
    again k p e =
        ap
          (λ b. elim b [
            | true ↦ catch_up (suc k) now step (timeradd send step) (timeradd overflow step)
            | false ↦ some (send, overflow)
          ])
          p
        ∙ e

overflow_step-sec : (rate : ℕ) → 1 ≤ rate → rate < 2 ^ 32 → 1 ≤ (overflow_step rate).sec
overflow_step-sec rate h f = grind arith

send_time-ends :
    (s : Scheduler) (p : OutgoingPacket) (now : Timeval)
    → 1000 ≤ s.rate
    → s.rate < 2 ^ 32
    → (r : Timeval × Timeval) × (send_time s p now ≡ some r)
unfolding send_time stamp_time
send_time-ends s p now h f =
    let fast : ltb s.rate 1000 ≡ false = ground arith in
    let stamp = (p.timestamp + 2 ^ 32 - s.queue.initial_timestamp) % 2 ^ 32 in
    let time : Timeval = record {
      sec = stamp / s.rate;
      usec = 1000 * (stamp % s.rate) / (s.rate / 1000);
    } in
    let (r, e) =
      catch_up-ends now.sec now (overflow_step s.rate) (timeradd time s.overflow_time)
        s.overflow_time (overflow_step-sec s.rate (omega arith) f) (omega arith) in
    (
      (if ltb (now.sec + 20000) (r.0).sec then timersub r.0 (overflow_step s.rate) else r.0, r.1),
      rw (send_time, stamp_time, fast, e) refl,
    )

-- The loop ended: some packets from the front were deleted and reported, the others are left.
pub record Ended (clock : ℕ → Timeval) (s : Scheduler) : Type 0 where
  pub timeout : ℕ
  pub after : Scheduler
  pub gone : List OutgoingPacket
  pub ends : get_scheduling_timeout clock s ≡ some (timeout, after)
  pub split : s.queue.queue ≡ gone ++ after.queue.queue
  pub reported : after.expired ≡ s.expired ++ gone
  pub released : after.queue.locked ≡ false

-- A queue with an open lock and the given packets.
abbrev pub holding : Scheduler → List OutgoingPacket → Scheduler
holding s ps = record s { queue = record (s.queue) { queue = ps; locked = false } }

append_end : (xs : List OutgoingPacket) → xs ≡ xs ++ []
append_end [] = refl
append_end (x ∷ xs) = ap (λ l. x ∷ l) (append_end xs)

module _ (clock : ℕ → Timeval) where
  -- One turn with a packet, by what is decided on it.
  turn :
      (fuel : ℕ) (s : Scheduler) (p : OutgoingPacket) (ps : List OutgoingPacket)
      (due : Timeval × Timeval) (d : Option ℕ)
      → send_time (holding s (p ∷ ps)) p (clock fuel) ≡ some due
      → decide s.expire_timeout due.0 (clock fuel) ≡ d
      → scheduling_from (suc fuel) clock (holding s (p ∷ ps)) ≡ elim d [
        | some timeout ↦ some (timeout, record (holding s (p ∷ ps)) { overflow_time = due.1 })
        | none ↦
            scheduling_from fuel clock
              (holding (record s { overflow_time = due.1; expired = s.expired ++ (p ∷ []) }) ps)
      ]
  unfolding scheduling_from expire_first
  turn fuel s p ps due d e h =
      rw (scheduling_from, e)
        (ap
          (λ o. elim o [
            | some timeout ↦ some (timeout, record (holding s (p ∷ ps)) { overflow_time = due.1 })
            | none ↦
                scheduling_from fuel clock
                  (holding (record s { overflow_time = due.1; expired = s.expired ++ (p ∷ []) }) ps)
          ])
          h)

  holding-Ended :
      (ps : List OutgoingPacket) (s : Scheduler)
      → 1000 ≤ s.rate
      → s.rate < 2 ^ 32
      → Ended clock (holding s ps)
  unfolding get_scheduling_timeout scheduling_from
  holding-Ended [] s h f = record {
    timeout = s.scheduling_timeout;
    after = holding s [];
    gone = [];
    ends = refl;
    split = refl;
    reported = append_end s.expired;
    released = refl;
  }
  holding-Ended (p ∷ ps) s h f =
      let now = clock (suc (length ps)) in
      let (due, e) = send_time-ends (holding s (p ∷ ps)) p now h f in
      elim (Option-cases (decide s.expire_timeout due.0 now)) [
        | inl d ↦
            let t : Scheduler = record s {
              overflow_time = due.1;
              expired = s.expired ++ (p ∷ []);
            } in
            let rest = holding-Ended ps t h f in
            record {
              timeout = rest.timeout;
              after = rest.after;
              gone = p ∷ rest.gone;
              ends = turn (suc (length ps)) s p ps due none e d ∙ rest.ends;
              split = ap (λ l. p ∷ l) rest.split;
              reported = rest.reported ∙ append_assoc s.expired (p ∷ []) rest.gone;
              released = rest.released;
            }
        | inr (timeout, d) ↦ record {
          timeout = timeout;
          after = record (holding s (p ∷ ps)) { overflow_time = due.1 };
          gone = [];
          ends = turn (suc (length ps)) s p ps due (some timeout) e d;
          split = refl;
          reported = append_end s.expired;
          released = refl;
        }
      ]

-- With a clock rate of at least 1000 and an open lock, getSchedulingTimeout ends whatever the clock
-- says, with the lock released. What it deleted, it reported in order, and the queue is what it
-- deleted followed by what is left.
pub get_scheduling_timeout-Ended :
    (clock : ℕ → Timeval) (s : Scheduler)
    → s.queue.locked ≡ false
    → 1000 ≤ s.rate
    → s.rate < 2 ^ 32
    → Ended clock s
get_scheduling_timeout-Ended clock s free h f =
    transport (λ i. Ended clock (same s free i)) (holding-Ended clock s.queue.queue s h f)
  where
    same : (s : Scheduler) → s.queue.locked ≡ false → holding s s.queue.queue ≡ s
    same s free = ap (λ b. record s { queue = record (s.queue) { locked = b } }) (sym free)

-- For a packet that is due now or within 3600 seconds, with an expiry timeout of less than ten
-- minutes, the time to wait is its distance in microseconds where that is below 2 ^ 31; from 2 ^ 31
-- on the packet is deleted as expired, since the distance does not fit an int32.
pub decide-future :
    (expire_timeout : ℕ) (send now : Timeval)
    → micros now ≤ micros send
    → send.sec ≤ now.sec + 3600
    → send.usec < 1_000_000
    → now.usec < 1_000_000
    → expire_timeout < 600_000_000
    → decide expire_timeout send now
      ≡ (if ltb (micros send - micros now) (2 ^ 31) then some (micros send - micros now) else none)
unfolding decide
decide-future expire_timeout send now h f u v x = ground arith
