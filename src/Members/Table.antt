-- ===== src/Members/Table.antt =====
-- src/members.cpp: the whole table. `isRegistered` and `getSourceBySSRC` against the set of the
-- registered SSRCs.
use ccrtp.Prelude.{
  ℕ, zero, suc, ◌+◌, ◌%◌, ◌^◌, ◌<◌, ◌≡◌, ◌≢◌, inl, inr, refl, sym, ap, List, [], ◌∷◌, ◌++◌, Bool,
  true, false, not, ◌||◌, some, ◌==◌, ==_iff, if◌then◌else◌, length, get_or, set, replicate,
  length-set, length-replicate, get_or-set_self, get_or-set_ne, get_or-replicate, Bool-cases, arith,
}
use native.Mathlib.Nat.{mod-lt}
use native.Mathlib.Decide.{ℕ_discrete}
use ccrtp.Members.{
  Cell, ssrc_of, Members, Unset, new_link, new_members, hash, bucket_of, chain_of, is_registered,
  Found, last_freed, append_source, get_source_by_ssrc,
}
use ccrtp.Members.Chain.{Ascends, contains, search_chain-contains, Inserted, insert_chain-Inserted}

unfoldable pub total : List (List Cell) → ℕ
total [] = 0
total (cs ∷ css) = length cs + total css

-- Every collision list ascends and holds live objects of its own bucket, no object of the list of
-- all sources is deleted, and the members are counted.
pub record IsTable (m : Members) : Type 0 where
  pub buckets : 0 < length m.source_links
  pub chains : (i : ℕ) → Ascends (length m.source_links) i 0 (get_or m.source_links i [])
  pub sources : (i : ℕ) → get_or m.sources i false ≡ false
  pub counted : m.members ≡ total m.source_links % 2 ^ 32

-- The abstract view: is the SSRC in its collision list?
unfoldable pub registered : Members → ℕ → Bool
registered m ssrc = contains ssrc (chain_of m ssrc)

pub hash-lt : (n ssrc : ℕ) → 0 < n → hash n ssrc < n
unfolding hash
hash-lt n ssrc h = mod-lt _ h

total-set :
    (css : List (List Cell)) (i : ℕ) (cs : List Cell)
    → i < length css
    → total (set css i cs) + length (get_or css i []) ≡ total css + length cs
unfolding total
total-set [] i cs h = absurd (omega arith)
total-set (x ∷ css) zero cs h = omega arith
total-set (x ∷ css) (suc i) cs h = omega (arith, total-set css i cs (omega arith))

total-replicate : (n : ℕ) → total (replicate n []) ≡ 0
unfolding total
total-replicate zero = refl
total-replicate (suc n) = omega (arith, total-replicate n)

last_freed-live : (bs : List Bool) → ((i : ℕ) → get_or bs i false ≡ false) → last_freed bs ≡ false
unfolding last_freed
last_freed-live [] h = refl
last_freed-live (b ∷ []) h = h 0
last_freed-live (b ∷ c ∷ bs) h = last_freed-live (c ∷ bs) (λ i. h (suc i))

get_or-append_false :
    (bs : List Bool)
    → ((i : ℕ) → get_or bs i false ≡ false)
    → (i : ℕ) → get_or (bs ++ false ∷ []) i false ≡ false
get_or-append_false [] h zero = refl
get_or-append_false [] h (suc i) = refl
get_or-append_false (b ∷ bs) h zero = h 0
get_or-append_false (b ∷ bs) h (suc i) = get_or-append_false bs (λ j. h (suc j)) i

-- A table with buckets starts valid and empty.
pub new_members-IsTable :
    (size ssrc : ℕ)
    → 0 < size
    → IsTable (new_members size) × (registered (new_members size) ssrc ≡ false)
unfolding new_members registered contains
new_members-IsTable size ssrc h = (
  record {
    buckets = rw length-replicate h;
    chains = λ i. rw (get_or-replicate {A = List Cell} size i []) tt;
    sources = λ i. refl;
    counted = rw (total-replicate size);
  },
  rw (
      get_or-replicate {A = List Cell} size (hash (length {A = List Cell} (replicate size [])) ssrc)
        []),
)

-- In a valid table the test is the abstract view, and touches no deleted object.
pub is_registered-registered :
    (m : Members) (ssrc : ℕ) → IsTable m → is_registered m ssrc ≡ some (registered m ssrc)
unfolding is_registered registered
is_registered-registered m ssrc t =
    search_chain-contains (length m.source_links) (bucket_of m ssrc) 0 ssrc (chain_of m ssrc)
      (t.chains (bucket_of m ssrc))

-- Replacing the collision list of an SSRC by one with `f` inserted.
module _ (m : Members) (ssrc : ℕ) (t : IsTable m) (fresh : Cell) (same : ssrc_of fresh ≡ ssrc)
    (f : Found) where
  n : ℕ
  n = length m.source_links

  home : ℕ
  home = bucket_of m ssrc

  home-lt : home < length m.source_links
  unfolding home
  home-lt = hash-lt _ ssrc t.buckets

  module _ (r : Inserted n home 0 fresh (chain_of m ssrc) f) where
    chains-set :
        (i : ℕ)
        → Ascends
            (length (set m.source_links home f.chain))
            i
            0
            (get_or (set m.source_links home f.chain) i [])
    unfolding n
    chains-set i = rw (length-set m.source_links home f.chain) (elim (ℕ_discrete home i) [
      | yes e ↦ rw (← e, get_or-set_self m.source_links home f.chain [] home-lt) r.ascends
      | no ne ↦ rw (get_or-set_ne m.source_links home i f.chain [] ne) (t.chains i)
    ])

    view-set :
        (x : ℕ)
        → contains x (
            get_or
              (set m.source_links home f.chain)
              (hash (length (set m.source_links home f.chain)) x)
              [])
          ≡ (x == ssrc || registered m x)
    unfolding registered home
    view-set x =
        rw (length-set m.source_links home f.chain) (elim (ℕ_discrete home (bucket_of m x)) [
          | yes e ↦
              rw (← e, get_or-set_self m.source_links home f.chain [] home-lt)
                (ground (arith, r.members x))
          | no ne ↦
              rw (get_or-set_ne m.source_links home (bucket_of m x) f.chain [] ne) (apart x ne)
        ])
      where
        apart :
            (x : ℕ)
            → bucket_of m ssrc ≢ bucket_of m x
            → contains x (chain_of m x) ≡ (x == ssrc || contains x (chain_of m x))
        apart x ne = elim (Bool-cases (x == ssrc)) [
          | inl e ↦ absurd (ne (ap (bucket_of m) (sym ((==_iff x ssrc).0 e))))
          | inr e ↦ rw e
        ]

    counted-set :
        (members : ℕ)
        → members ≡ (if f.created then (m.members + 1) % 2 ^ 32 else m.members)
        → members ≡ total (set m.source_links home f.chain) % 2 ^ 32
    unfolding home
    counted-set members e =
        ground (arith, total-set m.source_links home f.chain home-lt, r.size, t.counted)

append_source-live :
    (m : Members) (b : Bool)
    → IsTable m
    → (bs : List Bool) × ((if b then append_source m.sources else some m.sources) ≡ some bs)
      × ((i : ℕ) → get_or bs i false ≡ false)
unfolding append_source
append_source-live m true t = (
  m.sources ++ false ∷ [],
  rw (last_freed-live m.sources t.sources),
  get_or-append_false m.sources t.sources,
)
append_source-live m false t = (m.sources, refl, t.sources)

-- What a lookup or creation leaves behind.
pub record Obtained (m : Members) (ssrc : ℕ) (r : Found × Members) : Type 0 where
  pub table : IsTable r.1
  pub created : r.0.created ≡ not (registered m ssrc)
  pub source : ssrc_of r.0.cell ≡ ssrc
  pub view : (x : ℕ) → registered r.1 x ≡ (x == ssrc || registered m x)
  pub count : r.1.members ≡ (if registered m ssrc then m.members else (m.members + 1) % 2 ^ 32)
  pub senders : r.1.active_senders ≡ m.active_senders

-- On a valid table `getSourceBySSRC` touches no deleted object and returns the source of the
-- SSRC; it creates one, and counts it, exactly if the SSRC was not registered; it registers this
-- SSRC and no other, and the table stays valid.
pub get_source_by_ssrc-Obtained :
    (u : Unset) (m : Members) (ssrc : ℕ)
    → IsTable m
    → (r : Found × Members) × (get_source_by_ssrc u m ssrc ≡ some r) × Obtained m ssrc r
unfolding get_source_by_ssrc new_link home registered n
get_source_by_ssrc-Obtained u m ssrc t =
    let fresh : Cell = record {
      link = new_link u ssrc;
      serial = length m.sources;
      freed = false;
    } in
    let i = bucket_of m ssrc in
    let (f, e, r) =
      insert_chain-Inserted (length m.source_links) i 0 fresh (chain_of m ssrc) refl (omega arith)
        refl (t.chains i) in
    let (bs, eb, live) = append_source-live m f.created t in
    let members = if f.created then (m.members + 1) % 2 ^ 32 else m.members in
    (
      (
        f,
        record m { source_links = set m.source_links i f.chain; sources = bs; members = members },
      ),
      rw (e, eb),
      record {
        table = record {
          buckets = rw length-set t.buckets;
          chains = chains-set m ssrc t fresh refl f r;
          sources = live;
          counted = counted-set m ssrc t fresh refl f r members refl;
        };
        created = r.created;
        source = r.same;
        view = view-set m ssrc t fresh refl f r;
        count = ground (arith, r.created);
        senders = refl;
      },
    )
