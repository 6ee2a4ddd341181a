-- ===== src/Members/Remove.antt =====
-- src/members.cpp, `removeSource` and `BYESource`.
use ccrtp.Prelude.{
  ℕ, suc, ◌+◌, ◌-◌, ◌%◌, ◌^◌, ◌≤◌, ◌≡◌, ◌≢◌, inl, inr, refl, sym, ◌∙◌, ap, List, [], ◌∷◌, Bool,
  true, false, not, ◌&&◌, Option, none, some, ◌==◌, ==_iff, if◌then◌else◌, ◌>>=◌, length, set,
  length-set, get_or-set_self, get_or-set_ne, Bool-cases, compare_cases, arith,
}
use native.Mathlib.Decide.{ℕ_discrete}
use ccrtp.Members.{
  Cell, ssrc_of, Members, Unset, bucket_of, chain_of, search_chain, is_registered, insert_chain,
  get_source_by_ssrc, remove_chain, unlink_source, remove_source, bye_source,
}
use ccrtp.Members.Chain.{Ascends, contains, contains-below}
use ccrtp.Members.Table.{IsTable, registered, hash-lt, is_registered-registered}

abbrev is_found : Option Cell → Bool
is_found none = false
is_found (some c) = true

-- What a removal behind the first object of a collision list leaves.
record Removed (n i k ssrc : ℕ) (cs : List Cell) (r : Option Cell × List Cell) : Type 0 where
  found : is_found r.0 ≡ contains ssrc cs
  ascends : Ascends n i k r.1
  members : (x : ℕ) → contains x r.1 ≡ (not (x == ssrc) && contains x cs)

Ascends-le : (n i j k : ℕ) (cs : List Cell) → j ≤ k → Ascends n i k cs → Ascends n i j cs
Ascends-le n i j k [] h a = tt
Ascends-le n i j k (c ∷ cs) h a = (a.0, omega arith, a.2, a.3)

remove_chain-Removed :
    (n i k ssrc : ℕ) (cs : List Cell)
    → Ascends n i k cs
    → (r : Option Cell × List Cell) × (remove_chain true ssrc cs ≡ some r) × Removed n i k ssrc cs r
unfolding remove_chain contains
remove_chain-Removed n i k ssrc [] a =
    ((none, []), refl, record { found = refl; ascends = tt; members = λ x. ground arith })
remove_chain-Removed n i k ssrc (c ∷ cs) a = elim (compare_cases (ssrc_of c) ssrc) [
  | inl e ↦ (
    (some c, cs),
    ground arith,
    record {
      found = ground arith;
      ascends = Ascends-le n i k (suc (ssrc_of c)) cs (omega arith) a.3;
      members = λ x. ground (arith, contains-below n i (suc (ssrc_of c)) x cs);
    },
  )
  | inr (inl lt) ↦
      let (r, e, q) = remove_chain-Removed n i (suc (ssrc_of c)) ssrc cs a.3 in
      (
        (r.0, c ∷ r.1),
        ground arith,
        record {
          found = ground (arith, q.found);
          ascends = (a.0, a.1, a.2, q.ascends);
          members = λ x. ground (arith, q.members x);
        },
      )
  | inr (inr gt) ↦ (
    (none, c ∷ cs),
    ground arith,
    record {
      found = ground (arith, contains-below n i (suc (ssrc_of c)) ssrc cs);
      ascends = a;
      members = λ x. ground (arith, contains-below n i (suc (ssrc_of c)) ssrc cs);
    },
  )
]

remove_first-chain :
    (ssrc : ℕ) (c : Cell) (cs : List Cell)
    → c.freed ≡ false
    → ssrc_of c ≡ ssrc
    → remove_chain false ssrc (c ∷ cs) ≡ some (some c, record c { freed = true } ∷ cs)
unfolding remove_chain
remove_first-chain ssrc c cs live same = ground arith

unlink_source-live :
    (m : Members) (serial : ℕ)
    → IsTable m
    → unlink_source m.sources serial ≡ some (set m.sources serial true)
unfolding unlink_source
unlink_source-live m serial t = rw (t.sources (suc serial))

search-freed :
    (ssrc : ℕ) (c : Cell) (cs : List Cell)
    → search_chain ssrc (record c { freed = true } ∷ cs) ≡ none
unfolding search_chain
search-freed ssrc c cs = refl

insert-freed :
    (fresh c : Cell) (cs : List Cell) → insert_chain fresh (record c { freed = true } ∷ cs) ≡ none
unfolding insert_chain
insert-freed fresh c cs = refl

-- The table after the object of `c` has been deleted, with the collision list `cs'`.
abbrev after : Members → ℕ → Cell → List Cell → Members
after m ssrc c cs' = record m {
  source_links = set m.source_links (bucket_of m ssrc) cs';
  sources = set m.sources c.serial true;
  members = (m.members + 2 ^ 32 - 1) % 2 ^ 32;
  active_senders =
      (if c.link.source.active_sender
        then (m.active_senders + 2 ^ 32 - 1) % 2 ^ 32
        else m.active_senders);
}

chain_of-after :
    (m : Members) (ssrc : ℕ) (c : Cell) (cs' : List Cell)
    → IsTable m
    → chain_of (after m ssrc c cs') ssrc ≡ cs'
chain_of-after m ssrc c cs' t =
    rw (length-set m.source_links (bucket_of m ssrc) cs')
      (get_or-set_self m.source_links (bucket_of m ssrc) cs' [] (hash-lt _ ssrc t.buckets))

-- Removing the first source of a collision list reports success and leaves a pointer to the
-- deleted object in the table: the next look-up of this SSRC, and the next attempt to obtain its
-- source, read a deleted object.
pub remove_source-first :
    (u : Unset) (m : Members) (ssrc : ℕ) (c : Cell) (cs : List Cell)
    → IsTable m
    → chain_of m ssrc ≡ c ∷ cs
    → ssrc_of c ≡ ssrc
    → (m' : Members) × (remove_source m ssrc ≡ some (true, m'))
      × (is_registered m' ssrc ≡ none)
      × (get_source_by_ssrc u m' ssrc ≡ none)
unfolding remove_source is_registered get_source_by_ssrc
remove_source-first u m ssrc c cs t e same =
    let i = bucket_of m ssrc in
    let a : Ascends (length m.source_links) i 0 (c ∷ cs) = rw e at (t.chains i) in
    let left = record c { freed = true } ∷ cs in
    let back = chain_of-after m ssrc c left t in
    (
      after m ssrc c left,
      rw (e, remove_first-chain ssrc c cs a.0 same, unlink_source-live m c.serial t),
      rw back (search-freed ssrc c cs),
      rw back (rw (insert-freed _ c cs)),
    )

-- The SSRC is not that of the first object of the list.
abbrev pub NotFirst : ℕ → List Cell → Type 0
NotFirst ssrc [] = Unit
NotFirst ssrc (c ∷ cs) = ssrc_of c ≢ ssrc

remove_chain-old :
    (ssrc : ℕ) (cs : List Cell)
    → NotFirst ssrc cs
    → remove_chain false ssrc cs ≡ remove_chain true ssrc cs
unfolding remove_chain
remove_chain-old ssrc [] h = refl
remove_chain-old ssrc (c ∷ cs) h = ground arith

registered-after :
    (m : Members) (ssrc : ℕ) (c : Cell) (cs' : List Cell)
    → IsTable m
    → ((x : ℕ) → contains x cs' ≡ (not (x == ssrc) && contains x (chain_of m ssrc)))
    → (x : ℕ) → registered (after m ssrc c cs') x ≡ (not (x == ssrc) && registered m x)
unfolding registered
registered-after m ssrc c cs' t g x =
    let home = bucket_of m ssrc in
    rw (length-set m.source_links home cs') (elim (ℕ_discrete home (bucket_of m x)) [
      | yes e ↦
          rw (← e, get_or-set_self m.source_links home cs' [] (hash-lt _ ssrc t.buckets)) (g x)
      | no ne ↦
          rw (get_or-set_ne m.source_links home (bucket_of m x) cs' [] ne)
            (elim (Bool-cases (x == ssrc)) [
              | inl e ↦ absurd (ne (ap (bucket_of m) (sym ((==_iff x ssrc).0 e))))
              | inr e ↦ rw e
            ])
    ])

-- Where the SSRC does not stand first in its collision list, `removeSource` touches no deleted
-- object, reports whether the SSRC was registered, and unregisters this SSRC and no other.
pub remove_source-behind :
    (m : Members) (ssrc : ℕ)
    → IsTable m
    → NotFirst ssrc (chain_of m ssrc)
    → (m' : Members) × (remove_source m ssrc ≡ some (registered m ssrc, m'))
      × ((x : ℕ) → registered m' x ≡ (not (x == ssrc) && registered m x))
unfolding remove_source registered
remove_source-behind m ssrc t h =
    let i = bucket_of m ssrc in
    let (r, e, q) =
      remove_chain-Removed (length m.source_links) i 0 ssrc (chain_of m ssrc) (t.chains i) in
    let e' = remove_chain-old ssrc (chain_of m ssrc) h ∙ e in finish r.0 r.1 e' q.found q.members
  where
    finish :
        (o : Option Cell) (cs' : List Cell)
        → remove_chain false ssrc (chain_of m ssrc) ≡ some (o, cs')
        → is_found o ≡ contains ssrc (chain_of m ssrc)
        → ((x : ℕ) → contains x cs' ≡ (not (x == ssrc) && contains x (chain_of m ssrc)))
        → (m' : Members) × (remove_source m ssrc ≡ some (contains ssrc (chain_of m ssrc), m'))
          × ((x : ℕ) → contains x (chain_of m' x) ≡ (not (x == ssrc) && contains x (chain_of m x)))
    finish none cs' e f g = (m, rw (e, ← f), λ x. absent x)
      where
        absent :
            (x : ℕ) → contains x (chain_of m x) ≡ (not (x == ssrc) && contains x (chain_of m x))
        absent x = elim (Bool-cases (x == ssrc)) [
          | inl s ↦ rw ((==_iff x ssrc).0 s) (ground (arith, f))
          | inr s ↦ rw s
        ]
    finish (some c) cs' e f g = (
      after m ssrc c cs',
      rw (e, ◌>>=◌, unlink_source-live m c.serial t, ← f),
      registered-after m ssrc c cs' t g,
    )

pub bye_source-registered :
    (m : Members) (ssrc k : ℕ)
    → IsTable m
    → registered m ssrc ≡ true
    → bye_source (record m { members = k }) ssrc
      ≡ some (true, record m { members = (k + 2 ^ 32 - 1) % 2 ^ 32 })
unfolding bye_source is_registered
bye_source-registered m ssrc k t h = rw (is_registered-registered m ssrc t ∙ ap some h)

-- `BYESource` does not record that a source has left: the count of members falls again for each
-- further BYE of the same source, below 0 to 2 ^ 32 - 1, while the source stays registered.
pub bye_source-twice :
    (m : Members) (ssrc : ℕ)
    → IsTable m
    → registered m ssrc ≡ true
    → (m₁ m₂ : Members) × (bye_source m ssrc ≡ some (true, m₁))
      × (bye_source m₁ ssrc ≡ some (true, m₂))
      × (registered m₂ ssrc ≡ true)
      × (m₂.members ≡ (m.members + 2 ^ 32 - 2) % 2 ^ 32)
unfolding registered
bye_source-twice m ssrc t h =
    let k = (m.members + 2 ^ 32 - 1) % 2 ^ 32 in
    (
      record m { members = k },
      record m { members = (k + 2 ^ 32 - 1) % 2 ^ 32 },
      bye_source-registered m ssrc m.members t h,
      bye_source-registered m ssrc k t h,
      h,
      omega arith,
    )
