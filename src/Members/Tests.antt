-- ===== src/Members/Tests.antt =====
-- A table of two buckets: 2 and 4 hash to bucket 0, 3 to bucket 1.
use ccrtp.Prelude.{ℕ, zero, suc, get_or, ◌≡◌, refl, [], ◌∷◌, true, false, none, some, arith}
use ccrtp.Source.{init_stats}
use ccrtp.Members.{
  Cell, Members, Unset, new_link, new_members, hash, chain_of, search_chain, is_registered, Found,
  insert_chain, last_freed, append_source, get_source_by_ssrc, bye_source, remove_chain,
  unlink_source, remove_source,
}
use ccrtp.Members.Chain.{contains, Ascends}
use ccrtp.Members.Table.{
  IsTable, registered, total, new_members-IsTable, is_registered-registered, Obtained,
  get_source_by_ssrc-Obtained,
}
use ccrtp.Members.Remove.{remove_source-first}

abbrev unset : Unset
unset = record { active_sender = false; last_packet_transit_time = 0 }

runs : Unit {0}
unfolding new_link init_stats new_members hash search_chain is_registered insert_chain last_freed
    append_source get_source_by_ssrc bye_source remove_chain unlink_source remove_source contains
    registered total
runs = tt

get_source_by_ssrc-Obtained_example :
    (r : Found × Members) × (get_source_by_ssrc unset (new_members 2) 4 ≡ some r)
    × Obtained (new_members 2) 4 r
get_source_by_ssrc-Obtained_example =
    get_source_by_ssrc-Obtained unset (new_members 2) 4 (new_members-IsTable 2 4 (omega arith)).0

abbrev cell : ℕ → ℕ → Cell
cell ssrc serial = record { link = new_link unset ssrc; serial = serial; freed = false }

abbrev table : Members
table = record {
  source_links = (cell 2 1 ∷ cell 4 0 ∷ []) ∷ (cell 3 2 ∷ []) ∷ [];
  sources = false ∷ false ∷ false ∷ [];
  members = 3;
  active_senders = 0;
}

table_chains : (i : ℕ) → Ascends 2 i 0 (get_or table.source_links i [])
unfolding runs
table_chains zero = (refl, omega arith, refl, (refl, omega arith, refl, tt))
table_chains (suc zero) = (refl, omega arith, refl, tt)
table_chains (suc (suc i)) = tt

table_sources : (i : ℕ) → get_or table.sources i false ≡ false
table_sources zero = refl
table_sources (suc zero) = refl
table_sources (suc (suc zero)) = refl
table_sources (suc (suc (suc i))) = refl

table-IsTable : IsTable table
unfolding runs
table-IsTable = record {
  buckets = omega arith;
  chains = table_chains;
  sources = table_sources;
  counted = refl;
}

is_registered-registered_example : is_registered table 4 ≡ some (registered table 4)
is_registered-registered_example = is_registered-registered table 4 table-IsTable

table_first : chain_of table 2 ≡ cell 2 1 ∷ cell 4 0 ∷ []
unfolding runs
table_first = refl

remove_source-first_example :
    (m' : Members) × (remove_source table 2 ≡ some (true, m'))
    × (is_registered m' 2 ≡ none)
    × (get_source_by_ssrc unset m' 2 ≡ none)
remove_source-first_example =
    remove_source-first unset table 2 (cell 2 1) (cell 4 0 ∷ []) table-IsTable table_first
      (unfold new_link in refl)
