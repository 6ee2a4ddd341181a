-- ===== src/Srtcp/Manager/Tests.antt =====
-- Two managers that exchange a protected packet.
use ccrtp.Prelude.{ℕ, [], ◌∷◌, replicate}
use ccrtp.Cipher.Samples.{sample_memory}
use ccrtp.Srtcp.{SrtcpContext, load32}
use ccrtp.Srtcp.Samples.{sender, receiver}
use ccrtp.Srtcp.Manager.{Unset, Datagram, Manager}

abbrev unset : Unset
unset = record { heap = λ j. 170; temp = replicate 16 9; mac = replicate 20 8; s_l = 77 }

-- The SSRC that stands in the packet.
abbrev source : ℕ
source = load32 sample_memory 4

abbrev with_source : SrtcpContext → SrtcpContext
with_source c = record c { control = record (c.control) { ssrc = source } }

-- Two destinations.
abbrev talker : Manager
talker = record {
  out_contexts = sender ∷ with_source sender ∷ [];
  in_contexts = [];
  srtcp_index = 6;
  destinations =
      record { network_address = 1; data_port = 5004; control_port = 5005 }
      ∷ record { network_address = 2; data_port = 6004; control_port = 6005 }
      ∷ [];
  wire = [];
}

abbrev listener : Manager
listener = record talker { in_contexts = receiver ∷ with_source receiver ∷ [] }

abbrev packet : Datagram
packet = record { mem = sample_memory; len = 28 }
