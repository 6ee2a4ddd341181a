-- ===== src/Rtcp/Tests.antt =====
-- RTCP compounds on concrete buffers: an empty RR and a BYE.
use ccrtp.Prelude.{
  ℕ, zero, suc, ◌+◌, ◌-◌, ◌<◌, ◌≡◌, ◌≢◌, ◌↔◌, refl, [], ◌∷◌, Bool, true, false, none, some, ◌==◌,
  if◌then◌else◌, get_or, arith,
}
use ccrtp.Source.{init_stats}
use ccrtp.Members.{Cell, Members, Unset, new_link, hash}
use ccrtp.Members.Chain.{contains, Ascends}
use ccrtp.Members.Table.{IsTable, registered, total}
use ccrtp.Control.{Reconsider}
use ccrtp.Packet.{Buffer}
use ccrtp.Rtcp.{valid_first, packet_ssrc, check_compound_rtcp_header}
use ccrtp.Rtcp.Compound.{Received, Packets, check_compound_rtcp_header-decides}
use ccrtp.Rtcp.Bye.{bye_length, build_bye, get_reason}
use ccrtp.Rtcp.Bye.RoundTrip.{Text, build_bye-received}
use ccrtp.Rtcp.TakeIn.{Handlers, each_bye, take_in_control_packet, bye_sources}
use ccrtp.Rtcp.TakeIn.Ends.{Roomy, take_in_control_packet-ends, each_bye-stuck}
use ccrtp.Rtcp.TakeIn.Goodbye.{bye_sources-members}

-- The BYE packet begins with the byte `first`.
abbrev compound : ℕ → ℕ → ℕ
compound first j =
    if j == 0
    then 128
    else if j == 1
    then 201
    else if j == 3
    then 1
    else if j == 8
    then first
    else if j == 9
    then 203
    else if j == 11
    then 1
    else 0

abbrev block : ℕ → Buffer
block first = record { size = 1500; bytes = compound first }

block-Received : (first : ℕ) → first < 256 → Received (block first) 16
block-Received first lt = record {
  byte = λ j. ground arith;
  words = refl;
  some_word = omega arith;
  fits = omega arith;
  small = omega arith;
}

block-Roomy : (first : ℕ) → first < 256 → Roomy (block first) 16
block-Roomy first lt = record { received = block-Received first lt; room = omega arith }

check_compound_rtcp_header-decides_example :
    (b : Bool) × (check_compound_rtcp_header (block 129) 16 ≡ some b)
    × ((b ≡ true) ↔ ((valid_first 128 201 ≡ true) × Packets (block 129) 16 0))
check_compound_rtcp_header-decides_example =
    check_compound_rtcp_header-decides (block 129) 16 (block-Received 129 (omega arith))

bye-Text : Text (98 ∷ 121 ∷ 101 ∷ [])
unfolding Text
bye-Text = (omega arith, omega arith, (omega arith, omega arith, (omega arith, omega arith, tt)))

build_bye-received_example :
    (check_compound_rtcp_header
        (build_bye (λ j. 255) 7 (98 ∷ 121 ∷ 101 ∷ []))
        (bye_length (98 ∷ 121 ∷ 101 ∷ []))
      ≡ some true)
    × (packet_ssrc (build_bye (λ j. 255) 7 (98 ∷ 121 ∷ 101 ∷ [])) 8 ≡ some 7)
    × (get_reason (build_bye (λ j. 255) 7 (98 ∷ 121 ∷ 101 ∷ [])) 8 ≡ some (98 ∷ 121 ∷ 101 ∷ []))
build_bye-received_example =
    build_bye-received (λ j. 255) 7 (98 ∷ 121 ∷ 101 ∷ []) (λ j. omega arith) (omega arith) bye-Text
      (omega arith)

-- The state counts the packets taken in. Source 9 is rejected.
abbrev handlers : Handlers ℕ
handlers = record {
  arrival = λ s ssrc. s;
  check_first = λ s ssrc. s;
  accept = λ s ssrc. (if ssrc == 9 then false else true, s);
  got_sr = λ s pointer. s + 1;
  got_rr = λ s pointer. s + 1;
  got_sdes = λ s pointer. s + 1;
  got_app = λ s pointer. s + 1;
  goodbye = λ s ssrc reason. s + 1;
  extension = λ s pointer. s;
  update_avg_size = λ s len. s;
}

-- An empty RR and an empty RR of source 9.
abbrev reports : Buffer
reports = record {
  size = 1500;
  bytes =
      λ j. get_or (128 ∷ 201 ∷ 0 ∷ 1 ∷ 0 ∷ 0 ∷ 0 ∷ 7 ∷ 128 ∷ 201 ∷ 0 ∷ 1 ∷ 0 ∷ 0 ∷ 0 ∷ 9 ∷ []) j 0;
}

reports_byte : (j : ℕ) → reports.bytes j < 256
reports_byte j = ground arith

reports-Roomy : Roomy reports 16
reports-Roomy = record {
  received = record {
    byte = reports_byte;
    words = refl;
    some_word = omega arith;
    fits = omega arith;
    small = omega arith;
  };
  room = omega arith;
}

reports_no_bye : (p : ℕ) → Packets reports 16 p → reports.bytes (p + 1) ≢ 203
reports_no_bye p packets bye = ground arith

take_in_control_packet-ends_example :
    (s' : ℕ) × (take_in_control_packet handlers reports 16 0 ≡ some s')
take_in_control_packet-ends_example =
    take_in_control_packet-ends handlers reports 16 reports-Roomy reports_no_bye 0

each_bye-stuck_example : each_bye handlers (block 128) 16 1000 0 8 8 ≡ none
each_bye-stuck_example =
    each_bye-stuck handlers (block 128) 16 8 1000 0 (block-Roomy 128 (omega arith)) refl
      (omega arith) refl refl

abbrev unset : Unset
unset = record { active_sender = false; last_packet_transit_time = 0 }

abbrev cell : ℕ → ℕ → Cell
cell ssrc serial = record { link = new_link unset ssrc; serial = serial; freed = false }

abbrev table : Members
table = record {
  source_links = (cell 2 1 ∷ cell 4 0 ∷ []) ∷ [];
  sources = false ∷ false ∷ [];
  members = 2;
  active_senders = 0;
}

table_runs : Unit {0}
unfolding new_link init_stats hash contains registered total
table_runs = tt

table_chains : (i : ℕ) → Ascends 1 i 0 (get_or table.source_links i [])
unfolding table_runs
table_chains zero = (refl, omega arith, refl, (refl, omega arith, refl, tt))
table_chains (suc i) = tt

table_sources : (i : ℕ) → get_or table.sources i false ≡ false
table_sources zero = refl
table_sources (suc zero) = refl
table_sources (suc (suc i)) = refl

table-IsTable : IsTable table
unfolding table_runs
table-IsTable = record {
  buckets = omega arith;
  chains = table_chains;
  sources = table_sources;
  counted = refl;
}

table_has : registered table 4 ≡ true
unfolding table_runs
table_has = refl

abbrev times : Reconsider
times = record {
  tp = record { sec = 1; usec = 0 };
  tc = record { sec = 2; usec = 0 };
  tn = record { sec = 5; usec = 0 };
  p_members = 2;
}

-- A BYE packet with two SSRCs, the first one 4.
bye_sources-members_example :
    (m' : Members) × (r' : Reconsider) × (bye_sources unset 2 4 table times ≡ some (m', r'))
    × (m'.members ≡ 2 - 2)
    × ((x : ℕ) → registered m' x ≡ registered table x)
bye_sources-members_example =
    bye_sources-members unset 2 4 table times table-IsTable table_has (omega arith) (omega arith)
