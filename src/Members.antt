-- ===== src/Members.antt =====
-- src/members.cpp and src/ccrtp/iqueue.h (MembershipBookkeeping, Members): the table of the
-- session's synchronization sources. A SyncSourceLink object is owned by the collision list in
-- which it stands; one that has been deleted stays there, marked, where the code keeps a pointer
-- to it. `none` is an access to a deleted object.
pub mod Chain
pub mod Table
pub mod Remove
mod Tests
use ccrtp.Prelude.{
  ℕ, suc, ◌+◌, ◌-◌, ◌/◌, ◌%◌, ◌^◌, List, [], ◌∷◌, ◌++◌, Bool, true, false, Option, none, some, ltb,
  ◌==◌, if◌then◌else◌, ◌>>=◌, length, get_or, set, replicate,
}
use ccrtp.Source.{State, zero_time, SyncSource, SyncSourceLink, init_stats}

-- One object of a collision list. `serial` is its place in the list of all sources.
pub record Cell : Type 0 where
  pub link : SyncSourceLink
  pub serial : ℕ
  pub freed : Bool

abbrev pub ssrc_of : Cell → ℕ
ssrc_of c = c.link.source.id

-- The hash table, the counters of class Members, and the list that starts at `first`: for each
-- source in the order of creation, whether its object has been deleted.
pub record Members : Type 0 where
  pub source_links : List (List Cell)
  pub sources : List Bool
  pub members : ℕ
  pub active_senders : ℕ

-- The members that the constructors of SyncSource and SyncSourceLink leave unset.
pub record Unset : Type 0 where
  pub active_sender : Bool
  pub last_packet_transit_time : ℕ

-- `new SyncSourceLink(this, new SyncSource(ssrc))`
unfoldable pub new_link : Unset → ℕ → SyncSourceLink
unfolding init_stats
new_link u ssrc = init_stats (record {
  source = record {
    state = State.unknown;
    id = ssrc;
    active_sender = u.active_sender;
    network_address = 0;
    data_transport_port = 0;
    control_transport_port = 0;
  };
  prev_conflict = none;
  sender_info = none;
  receiver_info = none;
  last_packet_time = zero_time;
  last_rtcp_packet_time = zero_time;
  last_rtcp_sr_time = zero_time;
  obs_packet_count = 0;
  obs_octet_count = 0;
  max_seq_num = 0;
  extended_max_seq_num = 0;
  cumulative_packet_lost = 0;
  fraction_lost = 0;
  last_packet_transit_time = u.last_packet_transit_time;
  jitter = 0;
  initial_data_timestamp = 0;
  initial_data_time = zero_time;
  flag = false;
  bad_seq_num = 0;
  probation = 0;
  base_seq_num = 0;
  expected_prior = 0;
  received_prior = 0;
  seq_num_accum = 0;
})

-- The constructor.
unfoldable pub new_members : ℕ → Members
new_members size = record {
  source_links = replicate size [];
  sources = [];
  members = 0;
  active_senders = 0;
}

-- HASH, over uint32 values.
unfoldable pub hash : ℕ → ℕ → ℕ
hash n ssrc = ((ssrc + ssrc / 256) % 2 ^ 32) % n

abbrev pub bucket_of : Members → ℕ → ℕ
bucket_of m ssrc = hash (length m.source_links) ssrc

abbrev pub chain_of : Members → ℕ → List Cell
chain_of m ssrc = get_or m.source_links (bucket_of m ssrc) []

-- The loop of `isRegistered`.
unfoldable pub search_chain : ℕ → List Cell → Option Bool
search_chain ssrc [] = some false
search_chain ssrc (c ∷ cs) =
    if c.freed
    then none
    else if ssrc == ssrc_of c
    then some true
    else if ltb ssrc (ssrc_of c)
    then some false
    else search_chain ssrc cs

unfoldable pub is_registered : Members → ℕ → Option Bool
is_registered m ssrc = search_chain ssrc (chain_of m ssrc)

-- What the search of `getSourceBySSRC` ends with: whether a source was created, the source, and
-- the collision list.
pub record Found : Type 0 where
  pub created : Bool
  pub cell : Cell
  pub chain : List Cell

abbrev pub behind : Cell → Found → Found
behind c f = record f { chain = c ∷ f.chain }

-- The loop of `getSourceBySSRC`. `fresh` is the object to insert where the SSRC is missing.
unfoldable pub insert_chain : Cell → List Cell → Option Found
insert_chain fresh [] = some (record { created = true; cell = fresh; chain = fresh ∷ [] })
insert_chain fresh (c ∷ cs) =
    if c.freed
    then none
    else if ssrc_of fresh == ssrc_of c
    then some (record { created = false; cell = c; chain = c ∷ cs })
    else if ltb (ssrc_of c) (ssrc_of fresh)
    then insert_chain fresh cs >>= (λ f. some (behind c f))
    else some (record { created = true; cell = fresh; chain = fresh ∷ c ∷ cs })

-- Whether `last` points to a deleted object.
unfoldable pub last_freed : List Bool → Bool
last_freed [] = false
last_freed (b ∷ []) = b
last_freed (b ∷ c ∷ bs) = last_freed (c ∷ bs)

-- `last->setNext(result)`, or the first source of all.
unfoldable pub append_source : List Bool → Option (List Bool)
append_source bs = if last_freed bs then none else some (bs ++ false ∷ [])

unfoldable pub get_source_by_ssrc : Unset → Members → ℕ → Option (Found × Members)
get_source_by_ssrc u m ssrc = do
  let fresh : Cell = record { link = new_link u ssrc; serial = length m.sources; freed = false }
  f ← insert_chain fresh (chain_of m ssrc)
  let links = set m.source_links (bucket_of m ssrc) f.chain
  sources ← (if f.created then append_source m.sources else some m.sources)
  let members = if f.created then (m.members + 1) % 2 ^ 32 else m.members
  some (f, record m { source_links = links; sources = sources; members = members })

-- `BYESource`: the count falls, the source stays.
unfoldable pub bye_source : Members → ℕ → Option (Bool × Members)
bye_source m ssrc = do
  found ← is_registered m ssrc
  some (found, (if found then record m { members = (m.members + 2 ^ 32 - 1) % 2 ^ 32 } else m))

-- What the search of `removeSource` ends with: the object that it deletes, and the collision
-- list. The first object of a list (`old == NULL`) is deleted and stays linked.
unfoldable pub remove_chain : Bool → ℕ → List Cell → Option (Option Cell × List Cell)
remove_chain has_old ssrc [] = some (none, [])
remove_chain has_old ssrc (c ∷ cs) =
    let rest = remove_chain true ssrc cs in
    if c.freed
    then none
    else if ssrc_of c == ssrc
    then some (some c, (if has_old then cs else record c { freed = true } ∷ cs))
    else if ltb ssrc (ssrc_of c)
    then some (none, c ∷ cs)
    else rest >>= (λ r. some (r.0, c ∷ r.1))

-- `getPrev()` is always NULL, since no code sets it; `getNext()->setPrev` writes to the object
-- that was created next. Then the object is deleted.
unfoldable pub unlink_source : List Bool → ℕ → Option (List Bool)
unlink_source bs serial = if get_or bs (suc serial) false then none else some (set bs serial true)

unfoldable pub remove_source : Members → ℕ → Option (Bool × Members)
remove_source m ssrc = do
  r ← remove_chain false ssrc (chain_of m ssrc)
  elim r.0 [
    | none ↦ some (false, m)
    | some c ↦ unlink_source m.sources c.serial >>= (λ sources. some (
      true,
      record m {
        source_links = set m.source_links (bucket_of m ssrc) r.1;
        sources = sources;
        members = (m.members + 2 ^ 32 - 1) % 2 ^ 32;
        active_senders =
            (if c.link.source.active_sender
              then (m.active_senders + 2 ^ 32 - 1) % 2 ^ 32
              else m.active_senders);
      },
    ))
  ]
