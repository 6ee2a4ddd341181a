-- ===== src/Members/Chain.antt =====
-- src/members.cpp: one collision list, a strictly ascending list of SSRCs that all hash to its
-- bucket.
use ccrtp.Prelude.{
  ℕ, suc, ◌≤◌, ◌<◌, ◌≡◌, inl, inr, refl, List, [], ◌∷◌, Bool, true, false, not, ◌||◌, some, ◌==◌,
  if◌then◌else◌, length, compare_cases, arith,
}
use ccrtp.Members.{Cell, ssrc_of, hash, search_chain, insert_chain, Found, behind}

-- No object is deleted, the SSRCs ascend from `k` on, and all belong to bucket `i` of `n`.
abbrev pub Ascends : ℕ → ℕ → ℕ → List Cell → Type 0
Ascends n i k [] = Unit
Ascends n i k (c ∷ cs) =
    (c.freed ≡ false)
    × (k ≤ ssrc_of c)
    × (hash n (ssrc_of c) ≡ i)
    × Ascends n i (suc (ssrc_of c)) cs

unfoldable pub contains : ℕ → List Cell → Bool
contains ssrc [] = false
contains ssrc (c ∷ cs) = ssrc == ssrc_of c || contains ssrc cs

pub contains-below :
    (n i k ssrc : ℕ) (cs : List Cell) → ssrc < k → Ascends n i k cs → contains ssrc cs ≡ false
unfolding contains
contains-below n i k ssrc [] h a = refl
contains-below n i k ssrc (c ∷ cs) h a =
    ground (arith, contains-below n i (suc (ssrc_of c)) ssrc cs (omega arith) a.3)

-- The search is the membership test, and touches no deleted object.
pub search_chain-contains :
    (n i k ssrc : ℕ) (cs : List Cell)
    → Ascends n i k cs
    → search_chain ssrc cs ≡ some (contains ssrc cs)
unfolding search_chain contains
search_chain-contains n i k ssrc [] a = refl
search_chain-contains n i k ssrc (c ∷ cs) a = ground (
  arith,
  search_chain-contains n i (suc (ssrc_of c)) ssrc cs a.3,
  contains-below n i (suc (ssrc_of c)) ssrc cs,
)

-- What an insertion leaves behind.
pub record Inserted (n i k : ℕ) (fresh : Cell) (cs : List Cell) (f : Found) : Type 0 where
  pub created : f.created ≡ not (contains (ssrc_of fresh) cs)
  pub same : ssrc_of f.cell ≡ ssrc_of fresh
  pub ascends : Ascends n i k f.chain
  pub members : (ssrc : ℕ) → contains ssrc f.chain ≡ (ssrc == ssrc_of fresh || contains ssrc cs)
  pub size : length f.chain ≡ (if f.created then suc (length cs) else length cs)

pub insert_chain-Inserted :
    (n i k : ℕ) (fresh : Cell) (cs : List Cell)
    → fresh.freed ≡ false
    → k ≤ ssrc_of fresh
    → hash n (ssrc_of fresh) ≡ i
    → Ascends n i k cs
    → (f : Found) × (insert_chain fresh cs ≡ some f) × Inserted n i k fresh cs f
unfolding insert_chain contains
insert_chain-Inserted n i k fresh [] live le home a = (
  record { created = true; cell = fresh; chain = fresh ∷ [] },
  refl,
  record {
    created = refl;
    same = refl;
    ascends = (live, le, home, tt);
    members = λ x. refl;
    size = refl;
  },
)
insert_chain-Inserted n i k fresh (c ∷ cs) live le home a =
    elim (compare_cases (ssrc_of fresh) (ssrc_of c)) [
      | inl e ↦ (
        record { created = false; cell = c; chain = c ∷ cs },
        ground arith,
        record {
          created = ground arith;
          same = ground arith;
          ascends = a;
          members = λ x. ground arith;
          size = refl;
        },
      )
      | inr (inl lt) ↦ (
        record { created = true; cell = fresh; chain = fresh ∷ c ∷ cs },
        ground arith,
        record {
          created = ground (arith, contains-below n i (suc (ssrc_of c)) (ssrc_of fresh) cs);
          same = refl;
          ascends = (live, le, home, (a.0, lt, a.2, a.3));
          members = λ x. refl;
          size = refl;
        },
      )
      | inr (inr gt) ↦
          let (f, e, r) = insert_chain-Inserted n i (suc (ssrc_of c)) fresh cs live gt home a.3 in
          (
            behind c f,
            ground arith,
            record {
              created = ground (arith, r.created);
              same = r.same;
              ascends = (a.0, a.1, a.2, r.ascends);
              members = λ x. ground (arith, r.members x);
              size = ground (arith, r.size);
            },
          )
    ]
