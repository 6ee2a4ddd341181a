-- ===== src/Conflict/Control.antt =====
-- src/control.cpp: `checkSSRCInRTCPPkt`, the check of RTCP packets for collisions and loops.
use ccrtp.Prelude.{
  ℕ, zero, suc, ◌+◌, ◌≡◌, ◌≢◌, refl, sym, ◌∙◌, ap, ◌⊎◌, inr, List, [], ◌∷◌, Bool, true, false, not,
  ◌&&◌, ◌||◌, Option, none, some, ◌==◌, if◌then◌else◌, arith,
}
use ccrtp.Source.{Timeval, ConflictingTransportAddress, init_stats}
use ccrtp.Conflict.{
  search_control_conflict, add_conflict, renew_local_ssrc, Session, Surroundings, set_prev_conflict,
}

-- updateConflict of the address that `search_control_conflict` finds.
unfoldable pub update_control_conflict :
    List ConflictingTransportAddress → ℕ → ℕ → Timeval → List ConflictingTransportAddress
update_control_conflict [] na ctp now = []
update_control_conflict (c ∷ cs) na ctp now =
    let rest = update_control_conflict cs na ctp now in
    if not (c.network_address == na) || not (c.control_transport_port == ctp)
    then c ∷ rest
    else record c { last_packet_time = now } ∷ cs

unfoldable pub repeats_control : Option ConflictingTransportAddress → ℕ → ℕ → Bool
repeats_control none na ctp = false
repeats_control (some c) na ctp = na == c.network_address && ctp == c.control_transport_port

-- A source that is not the local one, at another address than before.
unfoldable pub check_remote_control : Surroundings → Session → ℕ → ℕ → Bool × Session
check_remote_control w s na ctp =
    if repeats_control s.link.prev_conflict na ctp
    then (false, s)
    else (let noted = set_prev_conflict s.link na 0 ctp w.now in
        (
          true,
          record s {
            link = record noted {
              source = record (noted.source) { control_transport_port = ctp; network_address = na };
            };
          },
        ))

-- Packets with the local SSRC from another address. The control port is set twice, at last to 0.
unfoldable pub check_own_control :
    Surroundings → Session → ℕ → ℕ → Option ConflictingTransportAddress → Bool × Session
check_own_control w s na ctp (some c) =
    (false, record s { conflicts = update_control_conflict s.conflicts na ctp w.now })
check_own_control w s na ctp none =
    let src = s.link.source in
    let moved = record s.link {
      source = record src { network_address = na; control_transport_port = 0 };
    } in
    (
      true,
      record {
        link = init_stats moved;
        conflicts =
            add_conflict s.conflicts src.network_address src.data_transport_port
              src.control_transport_port w.now;
        local_ssrc = (renew_local_ssrc w.random w.is_registered s.local_ssrc).1;
        byes = s.byes + 1;
      },
    )

unfoldable pub check_ssrc_in_rtcp_pkt : Surroundings → Session → Bool → ℕ → ℕ → Bool × Session
check_ssrc_in_rtcp_pkt w s is_new na ctp =
    let src = s.link.source in
    if is_new && not (src.id == s.local_ssrc)
    then (true, s)
    else (if not (src.control_transport_port == ctp) || not (src.network_address == na)
        then (if not (src.id == s.local_ssrc)
            then check_remote_control w s na ctp
            else check_own_control w s na ctp (search_control_conflict s.conflicts na ctp))
        else (true, s))

-- `n` packets from one address, one after the other.
unfoldable pub repeat_control : (ℕ → Surroundings) → Session → ℕ → ℕ → ℕ → Session
repeat_control w s na ctp zero = s
repeat_control w s na ctp (suc n) =
    repeat_control w (check_ssrc_in_rtcp_pkt (w n) s false na ctp).1 na ctp n

-- No recorded conflict has the address and the control port.
unfoldable pub Unrecorded : List ConflictingTransportAddress → ℕ → ℕ → Type 0
Unrecorded [] na ctp = Unit
Unrecorded (c ∷ cs) na ctp =
    ((c.network_address ≢ na) ⊎ (c.control_transport_port ≢ ctp)) × Unrecorded cs na ctp

search_control_conflict-Unrecorded :
    (cs : List ConflictingTransportAddress) (na ctp : ℕ)
    → Unrecorded cs na ctp
    → search_control_conflict cs na ctp ≡ none
unfolding search_control_conflict Unrecorded
search_control_conflict-Unrecorded [] na ctp h = refl
search_control_conflict-Unrecorded (c ∷ cs) na ctp h =
    let other : (not (c.network_address == na) || not (c.control_transport_port == ctp)) ≡ true =
      ground arith in
    rw other (search_control_conflict-Unrecorded cs na ctp h.1)

add_conflict-Unrecorded :
    (cs : List ConflictingTransportAddress) (na ctp a d c : ℕ) (now : Timeval)
    → Unrecorded cs na ctp
    → (a ≢ na) ⊎ (c ≢ ctp)
    → Unrecorded (add_conflict cs a d c now) na ctp
unfolding add_conflict Unrecorded
add_conflict-Unrecorded [] na ctp a d c now h away = (away, tt)
add_conflict-Unrecorded (x ∷ cs) na ctp a d c now h away =
    (h.0, add_conflict-Unrecorded cs na ctp a d c now h.1 away)

-- The local source, whose SSRC collides with one at an address that is not recorded.
pub record Collides (s : Session) (na ctp : ℕ) : Type 0 where
  pub own : s.link.source.id ≡ s.local_ssrc
  pub away : (s.link.source.network_address ≢ na) ⊎ (s.link.source.control_transport_port ≢ ctp)
  pub unrecorded : Unrecorded s.conflicts na ctp

collided : Surroundings → Session → ℕ → ℕ → Session
collided w s na ctp = (check_own_control w s na ctp none).1

check-collided :
    (w : Surroundings) (s : Session) (is_new : Bool) (na ctp : ℕ)
    → Collides s na ctp
    → check_ssrc_in_rtcp_pkt w s is_new na ctp ≡ (true, collided w s na ctp)
unfolding check_ssrc_in_rtcp_pkt collided check_own_control
check-collided w s is_new na ctp c =
    let early : (is_new && not (s.link.source.id == s.local_ssrc)) ≡ false =
      ground (arith, c.own) in
    let mine : not (s.link.source.id == s.local_ssrc) ≡ false = ground (arith, c.own) in
    let elsewhere : (not (s.link.source.control_transport_port == ctp)
          || not (s.link.source.network_address == na))
        ≡ true =
      ground (arith, c.away) in
    rw (early, elsewhere)
      (rw (mine, search_control_conflict-Unrecorded s.conflicts na ctp c.unrecorded) refl)

collided-Collides :
    (w : Surroundings) (s : Session) (na ctp : ℕ)
    → ctp ≢ 0
    → Collides s na ctp
    → Collides (collided w s na ctp) na ctp
unfolding collided check_own_control renew_local_ssrc init_stats
collided-Collides w s na ctp ne c = record {
  own = c.own;
  away = inr (λ e. ne (sym e));
  unrecorded = add_conflict-Unrecorded s.conflicts na ctp _ _ _ _ c.unrecorded c.away;
}

collided-counts :
    (w : Surroundings) (s : Session) (na ctp : ℕ)
    → ((collided w s na ctp).byes ≡ s.byes + 1) × ((collided w s na ctp).local_ssrc ≡ s.local_ssrc)
unfolding collided check_own_control renew_local_ssrc
collided-counts w s na ctp = (refl, refl)

-- An RTCP packet with the local SSRC from an address that is not recorded is accepted and makes
-- the session send a BYE. But the address is not recorded, the own one is, and the local SSRC
-- stays: `n` packets from that address, with a port that is not 0, make it send `n` BYEs.
pub repeat_control-byes :
    (w : ℕ → Surroundings) (s : Session) (na ctp n : ℕ)
    → ctp ≢ 0
    → Collides s na ctp
    → ((repeat_control w s na ctp n).byes ≡ s.byes + n)
      × ((repeat_control w s na ctp n).local_ssrc ≡ s.local_ssrc)
unfolding repeat_control
repeat_control-byes w s na ctp zero ne c = (omega arith, refl)
repeat_control-byes w s na ctp (suc n) ne c =
    let after = collided (w n) s na ctp in
    let later = repeat_control-byes w after na ctp n ne (collided-Collides (w n) s na ctp ne c) in
    let step : repeat_control w s na ctp (suc n) ≡ repeat_control w after na ctp n =
      ap (λ (r : Bool × Session). repeat_control w r.1 na ctp n)
        (check-collided (w n) s false na ctp c) in
    let counts = collided-counts (w n) s na ctp in
    rw step (omega (arith, later.0, counts.0), later.1 ∙ counts.1)
