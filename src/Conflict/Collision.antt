-- ===== src/Conflict/Collision.antt =====
-- src/incqueue.cpp: what `checkSSRCInIncomingRTPPkt` decides over runs of packets.
use ccrtp.Prelude.{
  ℕ, suc, ◌≡◌, ◌≢◌, refl, ◌⊎◌, inl, inr, List, [], ◌∷◌, ◌++◌, Bool, true, false, not, ◌&&◌, ◌||◌,
  Option, none, some, ◌==◌, if◌then◌else◌, ◌>>=◌, arith, Bool-cases, Option-cases,
}
use mathlib.Core.Option.{some-injective}
use ccrtp.Source.{ConflictingTransportAddress}
use ccrtp.Conflict.{
  search_data_conflict, update_conflict, Session, Surroundings, set_prev_conflict, repeats,
  move_source, check_remote, check_own, check_ssrc_in_incoming_rtp_pkt,
}

-- A remote source whose last recorded conflict, if any, is the address that it has now.
pub record Settled (s : Session) : Type 0 where
  pub remote : s.link.source.id ≢ s.local_ssrc
  pub current :
      (c : ConflictingTransportAddress)
      → s.link.prev_conflict ≡ some c
      → (c.network_address ≡ s.link.source.network_address)
        × (c.data_transport_port ≡ s.link.source.data_transport_port)

-- The packets of one source that is known already, by the addresses that they come from. It
-- stops at the first packet that is rejected.
unfoldable pub all_accepted :
    (ℕ → Surroundings) → ℕ → Session → List (ℕ × ℕ) → Option (Bool × Session)
all_accepted w i s [] = some (true, s)
all_accepted w i s (a ∷ rest) =
    check_ssrc_in_incoming_rtp_pkt (w i) s false a.0 a.1
    >>= (λ r. if r.0 then all_accepted w (suc i) r.1 rest else some (false, r.1))

repeats-elsewhere :
    (s : Session) (na dtp : ℕ)
    → Settled s
    → (not (s.link.source.data_transport_port == dtp) || not (s.link.source.network_address == na))
      ≡ true
    → repeats s.link.prev_conflict na dtp ≡ false
unfolding repeats
repeats-elsewhere s na dtp ok away = elim (Option-cases s.link.prev_conflict) [
  | inl e ↦ rw e refl
  | inr c ↦ rw c.1 (ground (arith, ok.current c.0 c.1))
]

moved : Session → ℕ → ℕ → Surroundings → Session
moved s na dtp w = record s { link = move_source (set_prev_conflict s.link na dtp 0 w.now) na dtp }

moved-Settled :
    (s : Session) (na dtp : ℕ) (w : Surroundings) → Settled s → Settled (moved s na dtp w)
unfolding moved move_source set_prev_conflict
moved-Settled s na dtp w ok = record {
  remote = ok.remote;
  current = λ c e. (let same = some-injective _ c e in rw (← same) (refl, refl));
}

check-accepts :
    (w : Surroundings) (s : Session) (na dtp : ℕ)
    → Settled s
    → (s' : Session) × (check_ssrc_in_incoming_rtp_pkt w s false na dtp ≡ some (true, s'))
      × Settled s'
      × (s'.link.source.network_address ≡ na)
      × (s'.link.source.data_transport_port ≡ dtp)
unfolding check_ssrc_in_incoming_rtp_pkt check_remote moved move_source set_prev_conflict
check-accepts w s na dtp ok =
    elim (Bool-cases (
      not (s.link.source.data_transport_port == dtp)
      || not (s.link.source.network_address == na))) [
        | inl away ↦
            (let other : not (s.link.source.id == s.local_ssrc) ≡ true =
                ground (arith, ok.remote) in
              (
                moved s na dtp w,
                rw away (rw (other, repeats-elsewhere s na dtp ok away) refl),
                moved-Settled s na dtp w ok,
                refl,
                refl,
              ))
        | inr same ↦ (s, rw same refl, ok, ground arith, ground arith)
      ]

-- However the data packets of a known remote source jump between transport addresses, none is
-- ever rejected as a repeated collision, and the source ends at the address of the last one. The
-- conflict that is recorded is the new address itself, so the test against it cannot succeed.
pub all_accepted-always :
    (w : ℕ → Surroundings) (i : ℕ) (s : Session) (a : ℕ × ℕ) (addresses : List (ℕ × ℕ))
    → Settled s
    → (s' : Session) × (all_accepted w i s (addresses ++ (a ∷ [])) ≡ some (true, s'))
      × (s'.link.source.network_address ≡ a.0)
      × (s'.link.source.data_transport_port ≡ a.1)
unfolding all_accepted
all_accepted-always w i s a [] ok =
    let one = check-accepts (w i) s a.0 a.1 ok in (one.0, rw one.1 refl, one.3, one.4)
all_accepted-always w i s a (b ∷ rest) ok =
    let one = check-accepts (w i) s b.0 b.1 ok in
    let later = all_accepted-always w (suc i) one.0 a rest one.2 in
    (later.0, rw one.1 later.1, later.2, later.3)

-- Whether one of the recorded addresses is the given one.
unfoldable pub recorded : List ConflictingTransportAddress → ℕ → ℕ → Bool
recorded [] na dtp = false
recorded (c ∷ cs) na dtp =
    c.network_address == na && c.data_transport_port == dtp || recorded cs na dtp

search_data_conflict-recorded :
    (cs : List ConflictingTransportAddress) (na dtp : ℕ)
    → recorded cs na dtp ≡ true
    → (c : ConflictingTransportAddress) × (search_data_conflict cs na dtp ≡ some (some c))
unfolding recorded search_data_conflict
search_data_conflict-recorded [] na dtp h = absurd (ground arith)
search_data_conflict-recorded (c ∷ cs) na dtp h =
    elim (Bool-cases (not (c.network_address == na) || not (c.data_transport_port == dtp))) [
      | inl other ↦
          (let rest : recorded cs na dtp ≡ true = ground arith in
            rw other (search_data_conflict-recorded cs na dtp rest))
      | inr same ↦ (c, rw same refl)
    ]

search_data_conflict-missing :
    (cs : List ConflictingTransportAddress) (na dtp : ℕ)
    → recorded cs na dtp ≡ false
    → search_data_conflict cs na dtp ≡ none
unfolding recorded search_data_conflict
search_data_conflict-missing [] na dtp h = refl
search_data_conflict-missing (c ∷ cs) na dtp h =
    let other : (not (c.network_address == na) || not (c.data_transport_port == dtp)) ≡ true =
      ground arith in
    let rest : recorded cs na dtp ≡ false = ground arith in
    rw other (search_data_conflict-missing cs na dtp rest)

-- A data packet with the local SSRC that comes from another address than the local one is
-- rejected, with the time of its address updated, if that address has been recorded, and else it
-- makes the search run behind the end of the list of conflicts and read through NULL: a new
-- collision with the local SSRC is never handled, whether the source is new or not.
pub check_ssrc_in_incoming_rtp_pkt-own :
    (w : Surroundings) (s : Session) (is_new : Bool) (na dtp : ℕ)
    → s.link.source.id ≡ s.local_ssrc
    → (s.link.source.network_address ≢ na) ⊎ (s.link.source.data_transport_port ≢ dtp)
    → (recorded s.conflicts na dtp ≡ true
        → check_ssrc_in_incoming_rtp_pkt w s is_new na dtp
          ≡ some (false, record s { conflicts = update_conflict s.conflicts na dtp w.now }))
      × (recorded s.conflicts na dtp ≡ false
          → check_ssrc_in_incoming_rtp_pkt w s is_new na dtp ≡ none)
unfolding check_ssrc_in_incoming_rtp_pkt check_own
check_ssrc_in_incoming_rtp_pkt-own w s is_new na dtp own away =
    let mine : (s.link.source.id == s.local_ssrc) ≡ true = ground arith in
    let early : (is_new && not (s.link.source.id == s.local_ssrc)) ≡ false = ground arith in
    let elsewhere : (not (s.link.source.data_transport_port == dtp)
          || not (s.link.source.network_address == na))
        ≡ true =
      ground arith in
    (
      λ h.
          rw (early, elsewhere)
            (rw (mine, (search_data_conflict-recorded s.conflicts na dtp h).1) refl),
      λ h.
          rw (early, elsewhere) (rw (mine, search_data_conflict-missing s.conflicts na dtp h) refl),
    )
