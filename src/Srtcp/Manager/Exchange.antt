-- ===== src/Srtcp/Manager/Exchange.antt =====
-- QueueRTCPManager::sendControlToDestinations against the first part of takeInControlPacket.
use ccrtp.Prelude.{
  ◌+◌, ◌≡◌, refl, List, [], ◌∷◌, ◌++◌, some, true, arith, ◌==◌, Bool-cases, inl, inr,
}
use ccrtp.CryptoCtrl
use ccrtp.CryptoCtrl.{CryptoContextCtrl}
use ccrtp.Contexts.{find}
use ccrtp.Packet.Memory.{slice}
use ccrtp.Session.{Library}
use ccrtp.Srtcp.{SrtcpContext, clear_flag}
use ccrtp.Srtcp.Manager.{
  control_ssrc, Unset, Datagram, Manager, send_control_to, send_control_to_destinations, put_back,
  receive_control,
}

find-put_back :
    (cs : List SrtcpContext) (c d : SrtcpContext)
    → find control_ssrc cs (control_ssrc d) ≡ some c
    → find control_ssrc (put_back cs d) (control_ssrc d) ≡ some d
unfolding find put_back
find-put_back [] c d h = absurd (cc h)
find-put_back (e ∷ cs) c d h = elim (Bool-cases (control_ssrc e == control_ssrc d)) [
  | inl p ↦ let same : (control_ssrc d == control_ssrc d) ≡ true = ground arith in rw (p, same) refl
  | inr p ↦
      let later : find control_ssrc cs (control_ssrc d) ≡ some c = rw p at h in
      rw (p) (rw (p) (find-put_back cs c d later))
]

-- What one manager sends for the packet `p`, and another makes of it.
pub record Carried (lib : Library) (u u' : Unset) (m m' : Manager) (p : Datagram) (q : SrtcpContext)
    (updated : CryptoContextCtrl) : Type 0 where
  pub sent : Datagram
  pub opened : Datagram
  pub sends :
      send_control_to_destinations lib u m p
      ≡ some (record m {
        srtcp_index = clear_flag (m.srtcp_index + 1);
        wire = m.wire ++ send_control_to m.destinations sent;
      })
  pub receives :
      receive_control lib u' m' sent
      ≡ some (
        some opened,
        record m' { in_contexts = put_back m'.in_contexts (record q { control = updated }) },
      )
  pub length_kept : opened.len ≡ p.len
  pub bytes_kept : slice opened.mem 0 p.len ≡ slice p.mem 0 p.len
