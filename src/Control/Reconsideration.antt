-- ===== src/Control/Reconsideration.antt =====
-- src/control.cpp: `reverseReconsideration` and `controlTransmissionService`.
use ccrtp.Prelude.{
  ℕ, ◌+◌, ◌-◌, ◌*◌, ◌/◌, ◌%◌, ◌^◌, ◌≤◌, ◌<◌, ◌≡◌, ◌⊎◌, inl, inr, refl, ◌∙◌, ap, true, ltb, lt→ltb,
  arith, Bool-cases,
}
use ccrtp.Source.{Timeval}
use ccrtp.Control.{
  timeradd, timer_le, micros, timeval_diff2microtimeout, Reconsider, scaled,
  reverse_reconsideration, timer_reconsideration, Pass, Service, control_transmission_service,
}
use ccrtp.Control.Clock.{Normal, micros-timeradd, timeradd-Normal, timer_le-le}

scaled-micros :
    (a b : Timeval) (members p_members : ℕ)
    → micros b ≤ micros a
    → 1 ≤ members
    → (micros a - micros b) * members < 2 ^ 32
    → micros (scaled a b members p_members) ≡ (micros a - micros b) * members / p_members
unfolding scaled timeval_diff2microtimeout
scaled-micros a b members p_members le some_member small =
    let short : micros a - micros b < 2 ^ 32 = grind arith in
    let plain : (micros a + 2 ^ 64 - micros b) % 2 ^ 32 ≡ micros a - micros b = omega arith in
    let product : (micros a - micros b) * members % 2 ^ 32 ≡ (micros a - micros b) * members =
      omega arith in
    rw plain (rw product (omega arith))

div-le : (d m p : ℕ) → m ≤ p → 1 ≤ p → d * m / p ≤ d
div-le d m p h low = grind arith

-- When members have left, the time to the next packet shrinks in proportion and the packet is
-- never put off. But the time of the previous packet, which lies before the present, is put
-- behind it by as much as it should lie before it. This holds as long as the intervals in
-- microseconds times the members stay below 2^32.
pub reverse_reconsideration-times :
    (members : ℕ) (r : Reconsider)
    → members < r.p_members
    → 1 ≤ members
    → micros r.tp ≤ micros r.tc
    → micros r.tc ≤ micros r.tn
    → (micros r.tn - micros r.tc) * members < 2 ^ 32
    → (micros r.tc - micros r.tp) * members < 2 ^ 32
    → (micros (reverse_reconsideration members r).tn
        ≡ micros r.tc + (micros r.tn - micros r.tc) * members / r.p_members)
      × (micros (reverse_reconsideration members r).tn ≤ micros r.tn)
      × (micros (reverse_reconsideration members r).tp
          ≡ micros r.tc + (micros r.tc - micros r.tp) * members / r.p_members)
      × (micros r.tc ≤ micros (reverse_reconsideration members r).tp)
      × ((reverse_reconsideration members r).p_members ≡ members)
unfolding reverse_reconsideration
reverse_reconsideration-times members r fewer some_member past future small_next small_prev =
    let left : ltb members r.p_members ≡ true = lt→ltb members r.p_members fewer in
    let next = scaled-micros r.tn r.tc members r.p_members future some_member small_next in
    let prev = scaled-micros r.tc r.tp members r.p_members past some_member small_prev in
    let next_sum = micros-timeradd r.tc (scaled r.tn r.tc members r.p_members) in
    let prev_sum = micros-timeradd r.tc (scaled r.tc r.tp members r.p_members) in
    let shrunk =
      div-le (micros r.tn - micros r.tc) members r.p_members (omega arith) (omega arith) in
    rw left (
      next_sum ∙ ap (λ (x : ℕ). micros r.tc + x) next,
      omega (arith, next_sum, next, shrunk),
      prev_sum ∙ ap (λ (x : ℕ). micros r.tc + x) prev,
      omega (arith, prev_sum),
      refl,
    )

-- A pass of the transmission service sends at most one packet. It sends one only when the clock
-- has reached both the time that was set for it and the time that the interval computed anew
-- gives from the previous packet on; the next packet is then set one new interval later and this
-- one becomes the previous one.
pub control_transmission_service-sends :
    (w : Pass) (s : Service)
    → Normal s.recons.tn
    → Normal s.recons.tp
    → Normal w.before
    → Normal w.now
    → Normal w.interval
    → ((control_transmission_service w s).dispatched ≡ s.dispatched)
      ⊎ (((control_transmission_service w s).dispatched ≡ s.dispatched + 1)
          × (s.active ≡ true)
          × (micros s.recons.tn ≤ micros w.before)
          × (micros s.recons.tp + micros w.interval ≤ micros w.now)
          × ((control_transmission_service w s).recons.tp ≡ w.now)
          × (micros (control_transmission_service w s).recons.tn
              ≡ micros w.now + micros w.next_interval)
          × ((control_transmission_service w s).recons.p_members ≡ w.members))
unfolding control_transmission_service timer_reconsideration
control_transmission_service-sends w s tn tp before now interval = elim (Bool-cases s.active) [
  | inr off ↦ rw off (inl refl)
  | inl on ↦ elim (Bool-cases (timer_le s.recons.tn w.before)) [
    | inr early ↦ rw on (rw early (inl refl))
    | inl due ↦ elim (Bool-cases (timer_le (timeradd s.recons.tp w.interval) w.now)) [
      | inr later ↦ rw on (rw due (rw later (inl refl)))
      | inl confirmed ↦
          (let sum = micros-timeradd s.recons.tp w.interval in
            let normal = timeradd-Normal s.recons.tp w.interval tp interval in
            let reached = timer_le-le (timeradd s.recons.tp w.interval) w.now normal confirmed in
            rw on (
              rw due (
                rw confirmed (
                  inr (
                    refl,
                    refl,
                    timer_le-le s.recons.tn w.before tn due,
                    omega (arith, sum, reached),
                    refl,
                    micros-timeradd w.now w.next_interval,
                    refl,
                  )))))
    ]
  ]
]
