-- ===== src/Srtcp/Manager.antt =====
-- src/control.cpp: the lists of SRTCP contexts, sendControlToDestinations, and the first part of
-- takeInControlPacket, up to the check of the compound packet.
pub mod Exchange
mod Tests
use ccrtp.Prelude.{
  ℕ, ◌+◌, ◌%◌, List, [], ◌∷◌, ◌++◌, Bool, true, false, Option, none, some, ◌==◌, if◌then◌else◌,
  ◌>>=◌, length, replicate,
}
use ccrtp.Crypto.{Authentication, window_size}
use ccrtp.Contexts.{find, store, remove}
use ccrtp.Contexts.Create.{tag_length_for}
use ccrtp.Outgoing.{Destination}
use ccrtp.Session.{Library, SessionKeys, new_session, derive_srtcp_keys}
use ccrtp.Srtcp.{SrtcpContext, load32, protect, unprotect, replayed, forged, accepted}

abbrev pub control_ssrc : SrtcpContext → ℕ
control_ssrc c = c.control.ssrc

-- The outgoing queue.
unfoldable pub set_out_queue_crypto_context_ctrl :
    List SrtcpContext → SrtcpContext → List SrtcpContext
set_out_queue_crypto_context_ctrl contexts cc = store control_ssrc contexts cc

unfoldable pub remove_out_queue_crypto_context_ctrl :
    List SrtcpContext → Option SrtcpContext → List SrtcpContext
remove_out_queue_crypto_context_ctrl contexts cc = remove control_ssrc contexts cc

unfoldable pub get_out_queue_crypto_context_ctrl : List SrtcpContext → ℕ → Option SrtcpContext
get_out_queue_crypto_context_ctrl contexts ssrc = find control_ssrc contexts ssrc

-- The incoming queue.
unfoldable pub set_in_queue_crypto_context_ctrl :
    List SrtcpContext → SrtcpContext → List SrtcpContext
set_in_queue_crypto_context_ctrl contexts cc = store control_ssrc contexts cc

unfoldable pub remove_in_queue_crypto_context_ctrl :
    List SrtcpContext → Option SrtcpContext → List SrtcpContext
remove_in_queue_crypto_context_ctrl contexts cc = remove control_ssrc contexts cc

unfoldable pub get_in_queue_crypto_context_ctrl : List SrtcpContext → ℕ → Option SrtcpContext
get_in_queue_crypto_context_ctrl contexts ssrc = find control_ssrc contexts ssrc

-- What the code leaves unset: new memory, blocks on the stack, and s_l of a new context.
pub record Unset : Type 0 where
  pub heap : ℕ → ℕ
  pub temp : List ℕ
  pub mac : List ℕ
  pub s_l : ℕ

-- newCryptoContextForSSRC, by the constructor.
unfoldable pub new_control_context : Unset → SrtcpContext → ℕ → SrtcpContext
new_control_context u c ssrc = record c {
  control = record {
    ssrc = ssrc;
    s_l = u.s_l;
    replay_window = replicate window_size false;
    ealg = c.control.ealg;
    aalg = c.control.aalg;
    tag_length = tag_length_for c.control.aalg c.control.tag_length;
  };
  keys =
      new_session u.heap c.control.ealg c.control.aalg c.keys.master_key c.keys.master_salt c.ekeyl
        c.akeyl c.skeyl;
  mki_length = 0;
}

-- A new context with its keys.
unfoldable pub derived_context : Library → Unset → SrtcpContext → ℕ → Option SrtcpContext
derived_context lib u base ssrc =
    let made = new_control_context u base ssrc in
    derive_srtcp_keys lib made.control.aalg made.control.tag_length u.temp made.keys >>= λ keys.
    some (record made { keys = keys })

-- The context for an SSRC, by the one that its list has and the one of SSRC 0, and the list behind it.
unfoldable pub choose_control_context :
    Library
    → Unset
    → List SrtcpContext
    → ℕ
    → Option SrtcpContext
    → Option SrtcpContext
    → Option (Option SrtcpContext × List SrtcpContext)
choose_control_context lib u contexts ssrc (some c) base = some (some c, contexts)
choose_control_context lib u contexts ssrc none none = some (none, contexts)
choose_control_context lib u contexts ssrc none (some base) =
    derived_context lib u base ssrc >>= λ made. some (some made, store control_ssrc contexts made)

-- A datagram with the bytes of the buffer and its length.
pub record Datagram : Type 0 where
  pub mem : ℕ → ℕ
  pub len : ℕ

-- QueueRTCPManager: both lists, srtcpIndex, the list of destinations, and the calls of sendControl so
-- far with the address and port set by setControlPeer.
pub record Manager : Type 0 where
  pub out_contexts : List SrtcpContext
  pub in_contexts : List SrtcpContext
  pub srtcp_index : ℕ
  pub destinations : List Destination
  pub wire : List (ℕ × ℕ × Datagram)

-- One call of sendControl for each destination.
unfoldable pub send_control_to : List Destination → Datagram → List (ℕ × ℕ × Datagram)
send_control_to [] p = []
send_control_to (d ∷ ds) p = (d.network_address, d.control_port, p) ∷ send_control_to ds p

-- isSingleDestination: the peer is the one destination.
unfoldable pub send_control : Manager → Datagram → Manager
send_control m p =
    if length m.destinations == 1
    then elim m.destinations [
      | [] ↦ m
      | d ∷ ds ↦ record m { wire = m.wire ++ ((d.network_address, d.control_port, p) ∷ []) }
    ]
    else record m { wire = m.wire ++ send_control_to m.destinations p }

-- The packet is protected where there is a context.
unfoldable pub protect_control : Manager → Unset → Option SrtcpContext → Datagram → Option Manager
protect_control m u none p = some (send_control m p)
protect_control m u (some c) p = protect c m.srtcp_index u.temp p.mem p.len >>= λ s.
    some (
      send_control (record m { srtcp_index = s.srtcp_index }) (record { mem = s.mem; len = s.len }))

unfoldable pub send_control_to_destinations : Library → Unset → Manager → Datagram → Option Manager
send_control_to_destinations lib u m p =
    let ssrc = load32 p.mem 4 in
    choose_control_context lib u m.out_contexts ssrc
      (get_out_queue_crypto_context_ctrl m.out_contexts ssrc)
      (get_out_queue_crypto_context_ctrl m.out_contexts 0)
    >>= λ chosen. protect_control (record m { out_contexts = chosen.1 }) u chosen.0 p

-- A context is an object that the list points to: what happens to it is seen in the list.
unfoldable pub put_back : List SrtcpContext → SrtcpContext → List SrtcpContext
put_back [] c = []
put_back (d ∷ ds) c =
    let rest = put_back ds c in if control_ssrc d == control_ssrc c then c ∷ ds else d ∷ rest

-- The packet that takeInControlPacket goes on with, `none` where it returns.
unfoldable pub unprotect_control :
    Manager → Unset → Option SrtcpContext → Datagram → Option (Option Datagram × Manager)
unprotect_control m u none p = some (some p, m)
unprotect_control m u (some c) p = unprotect c u.temp u.mac p.mem p.len >>= λ r.
    let after = record m { in_contexts = put_back m.in_contexts r.context } in
    elim r.verdict [
      | replayed ↦ some (none, after)
      | forged ↦ some (none, after)
      | accepted n ↦ some (some (record { mem = r.mem; len = n }), after)
    ]

unfoldable pub receive_control :
    Library → Unset → Manager → Datagram → Option (Option Datagram × Manager)
receive_control lib u m p =
    let ssrc = load32 p.mem 4 in
    choose_control_context lib u m.in_contexts ssrc
      (get_in_queue_crypto_context_ctrl m.in_contexts ssrc)
      (get_in_queue_crypto_context_ctrl m.in_contexts 0)
    >>= λ chosen. unprotect_control (record m { in_contexts = chosen.1 }) u chosen.0 p
