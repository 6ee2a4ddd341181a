-- ===== src/Conflict.antt =====
-- src/incqueue.cpp: the addresses that collide with the local one (ConflictHandler), and
-- `checkSSRCInIncomingRTPPkt`.
pub mod Collision
pub mod Control
mod Tests
use ccrtp.Prelude.{
  ℕ, zero, suc, ◌+◌, ◌-◌, List, [], ◌∷◌, ◌++◌, Bool, true, false, not, ◌&&◌, ◌||◌, Option, none,
  some, ◌==◌, if◌then◌else◌, ◌>>=◌,
}
use ccrtp.Source.{Timeval, ConflictingTransportAddress, SyncSource, SyncSourceLink, init_stats}

-- The NULL at the end of the list is read, `none`, where no address before it matches.
unfoldable pub search_data_conflict :
    List ConflictingTransportAddress → ℕ → ℕ → Option (Option ConflictingTransportAddress)
search_data_conflict [] na dtp = none
search_data_conflict (c ∷ cs) na dtp =
    let rest = search_data_conflict cs na dtp in
    if not (c.network_address == na) || not (c.data_transport_port == dtp)
    then rest
    else some (some c)

unfoldable pub search_control_conflict :
    List ConflictingTransportAddress → ℕ → ℕ → Option ConflictingTransportAddress
search_control_conflict [] na ctp = none
search_control_conflict (c ∷ cs) na ctp =
    let rest = search_control_conflict cs na ctp in
    if not (c.network_address == na) || not (c.control_transport_port == ctp) then rest else some c

unfoldable pub add_conflict :
    List ConflictingTransportAddress → ℕ → ℕ → ℕ → Timeval → List ConflictingTransportAddress
add_conflict cs na dtp ctp now =
    cs
    ++ (record {
      network_address = na;
      data_transport_port = dtp;
      control_transport_port = ctp;
      last_packet_time = now;
    }
        ∷ [])

-- updateConflict of the address that `search_data_conflict` finds.
unfoldable pub update_conflict :
    List ConflictingTransportAddress → ℕ → ℕ → Timeval → List ConflictingTransportAddress
update_conflict [] na dtp now = []
update_conflict (c ∷ cs) na dtp now =
    let rest = update_conflict cs na dtp now in
    if not (c.network_address == na) || not (c.data_transport_port == dtp)
    then c ∷ rest
    else record c { last_packet_time = now } ∷ cs

-- renewLocalSSRC, its loop on fuel: the number drawn last, of `random` at each try.
unfoldable pub renew_from : (ℕ → ℕ) → (ℕ → Bool) → ℕ → ℕ → ℕ
renew_from random is_registered zero tries = random tries
renew_from random is_registered (suc fuel) tries =
    let rest = renew_from random is_registered fuel (suc tries) in
    if is_registered (random tries) then rest else random tries

-- The number is a local variable: the session keeps `local_ssrc`.
unfoldable pub renew_local_ssrc : (ℕ → ℕ) → (ℕ → Bool) → ℕ → ℕ × ℕ
renew_local_ssrc random is_registered local_ssrc =
    (renew_from random is_registered 19 0, local_ssrc)

-- What the check reads and writes; `byes` counts the calls of dispatchBYE.
pub record Session : Type 0 where
  pub link : SyncSourceLink
  pub conflicts : List ConflictingTransportAddress
  pub local_ssrc : ℕ
  pub byes : ℕ

-- The random numbers, the table look-up, the clock, and getMinValidPacketSequence.
pub record Surroundings : Type 0 where
  pub random : ℕ → ℕ
  pub is_registered : ℕ → Bool
  pub now : Timeval
  pub min_valid_packet_sequence : ℕ

unfoldable pub set_prev_conflict : SyncSourceLink → ℕ → ℕ → ℕ → Timeval → SyncSourceLink
set_prev_conflict l na dtp ctp now = record l {
  prev_conflict = some (record {
    network_address = na;
    data_transport_port = dtp;
    control_transport_port = ctp;
    last_packet_time = now;
  });
}

unfoldable pub repeats : Option ConflictingTransportAddress → ℕ → ℕ → Bool
repeats none na dtp = false
repeats (some c) na dtp = na == c.network_address && dtp == c.data_transport_port

unfoldable pub move_source : SyncSourceLink → ℕ → ℕ → SyncSourceLink
move_source l na dtp = record l {
  source = record (l.source) { data_transport_port = dtp; network_address = na };
}

-- A source that is not the local one, at another address than before.
unfoldable pub check_remote : Surroundings → Session → ℕ → ℕ → Bool × Session
check_remote w s na dtp =
    if repeats s.link.prev_conflict na dtp
    then (false, s)
    else (true, record s { link = move_source (set_prev_conflict s.link na dtp 0 w.now) na dtp })

-- Packets with the local SSRC from another address.
unfoldable pub check_own :
    Surroundings → Session → ℕ → ℕ → Option ConflictingTransportAddress → Bool × Session
check_own w s na dtp (some c) =
    (false, record s { conflicts = update_conflict s.conflicts na dtp w.now })
check_own w s na dtp none =
    let src = s.link.source in
    let moved = record s.link {
      source = record src {
        network_address = na;
        data_transport_port = dtp;
        control_transport_port = 0;
      };
    } in
    (
      true,
      record {
        link = record (init_stats moved) { probation = w.min_valid_packet_sequence };
        conflicts =
            add_conflict s.conflicts src.network_address src.data_transport_port
              src.control_transport_port w.now;
        local_ssrc = (renew_local_ssrc w.random w.is_registered s.local_ssrc).1;
        byes = s.byes + 1;
      },
    )

unfoldable pub check_ssrc_in_incoming_rtp_pkt :
    Surroundings → Session → Bool → ℕ → ℕ → Option (Bool × Session)
check_ssrc_in_incoming_rtp_pkt w s is_new na dtp =
    let src = s.link.source in
    if is_new && not (src.id == s.local_ssrc)
    then some (true, s)
    else (if not (src.data_transport_port == dtp) || not (src.network_address == na)
        then (if not (src.id == s.local_ssrc)
            then some (check_remote w s na dtp)
            else (search_data_conflict s.conflicts na dtp
                >>= (λ found. some (check_own w s na dtp found))))
        else some (true, s))
