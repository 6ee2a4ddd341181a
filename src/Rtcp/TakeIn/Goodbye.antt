-- ===== src/Rtcp/TakeIn/Goodbye.antt =====
-- src/control.cpp: the loop of `getBYE` over the sources of a packet.
use ccrtp.Prelude.{
  ℕ, zero, suc, ◌+◌, ◌-◌, ◌*◌, ◌%◌, ◌^◌, ◌≤◌, ◌<◌, ◌≡◌, refl, ◌∙◌, ap, ◌||◌, ◌==◌, ==_iff, length,
  inl, inr, Bool, true, false, Option, none, some, arith, Option-cases, Bool-cases,
}
use mathlib.Core.Option.{some-injective}
use ccrtp.Members.{
  Cell, new_link, insert_chain, chain_of, append_source, Unset, Members, Found, get_source_by_ssrc,
  bye_source,
}
use ccrtp.Members.Table.{IsTable, registered, get_source_by_ssrc-Obtained}
use ccrtp.Members.Remove.{bye_source-registered}
use ccrtp.Control.{Reconsider, reverse_reconsideration}
use ccrtp.Rtcp.TakeIn.{bye_sources}

-- The table with another count of members.
recount : Members → ℕ → Members
recount m k = record m { members = k }

-- A look-up reads no count, and changes it only for a new source.
get_source_by_ssrc-recount :
    (u : Unset) (m : Members) (k ssrc : ℕ) (f : Found) (m' : Members)
    → get_source_by_ssrc u m ssrc ≡ some (f, m')
    → f.created ≡ false
    → get_source_by_ssrc u (recount m k) ssrc ≡ some (f, recount m' k)
unfolding get_source_by_ssrc recount
get_source_by_ssrc-recount u m k ssrc f m' e old =
    let fresh : Cell = record {
      link = new_link u ssrc;
      serial = length m.sources;
      freed = false;
    } in
    elim (Option-cases (insert_chain fresh (chain_of m ssrc))) [
      | inl i ↦ (let no : none ≡ some (f, m') = rw i at e in absurd (ground arith))
      | inr found ↦ elim (Bool-cases found.0.created) [
        | inl made ↦ elim (Option-cases (append_source m.sources)) [
          | inl a ↦
              (let no : none ≡ some (f, m') = rw a at (rw made at (rw found.1 at e)) in
                absurd (ground arith))
          | inr a ↦
              (let same = some-injective _ _ (rw a.1 at (rw made at (rw found.1 at e))) in
                let no : true ≡ f.created = ap (λ (r : Found × Members). r.0.created) same in
                absurd (ground (arith, no, old)))
        ]
        | inr kept ↦
            (let same = some-injective _ _ (rw kept at (rw found.1 at e)) in
              rw found.1 (
                rw kept
                  (ap (λ (r : Found × Members). some (r.0, record (r.1) { members = k })) same)))
      ]
    ]

-- What the loop leaves: the same sources, and fewer members.
record Left (m : Members) (k count : ℕ) (answer : Option (Members × Reconsider)) : Type 0 where
  table : Members
  times : Reconsider
  ends : answer ≡ some (recount table ((k + count * (2 ^ 32 - 1)) % 2 ^ 32), times)
  valid : IsTable table
  sources : (x : ℕ) → registered table x ≡ registered m x

bye_sources-step :
    (u : Unset) (count ssrc : ℕ) (m m' : Members) (f : Found) (b : Bool) (l : Members)
    (r : Reconsider)
    → get_source_by_ssrc u m ssrc ≡ some (f, m')
    → bye_source m' ssrc ≡ some (b, l)
    → bye_sources u (suc count) ssrc m r
      ≡ bye_sources u count ssrc l (reverse_reconsideration l.members r)
unfolding bye_sources
bye_sources-step u count ssrc m m' f b l r e d = rw e (rw d)

view-registered :
    (ssrc : ℕ) (m m' : Members)
    → registered m ssrc ≡ true
    → ((x : ℕ) → registered m' x ≡ (x == ssrc || registered m x))
    → (x : ℕ) → registered m' x ≡ registered m x
view-registered ssrc m m' h view x = elim (Bool-cases (x == ssrc)) [
  | inl same ↦ rw (view x, (==_iff x ssrc).0 same, h) (ground arith)
  | inr ne ↦ rw (view x, ne)
]

falls : (k count : ℕ) → k < 2 ^ 32 → count ≤ k → (k + count * (2 ^ 32 - 1)) % 2 ^ 32 ≡ k - count
falls k count small few = omega arith

bye_sources-Left :
    (u : Unset) (count ssrc k : ℕ) (m : Members) (r : Reconsider)
    → IsTable m
    → registered m ssrc ≡ true
    → k < 2 ^ 32
    → Left m k count (bye_sources u count ssrc (recount m k) r)
unfolding bye_sources recount
bye_sources-Left u zero ssrc k m r t h small = record {
  table = m;
  times = r;
  ends = ap (λ (n : ℕ). some (recount m n, r)) (omega arith);
  valid = t;
  sources = λ x. refl;
}
bye_sources-Left u (suc count) ssrc k m r t h small =
    let one = get_source_by_ssrc-Obtained u m ssrc t in
    let got = one.2 in
    let old : one.0.0.created ≡ false = ground (arith, got.created, h) in
    let m' = one.0.1 in
    let again = get_source_by_ssrc-recount u m k ssrc one.0.0 m' one.1 old in
    let stays : registered m' ssrc ≡ true = ground (arith, got.view ssrc, h) in
    let fewer = (k + 2 ^ 32 - 1) % 2 ^ 32 in
    let bye = bye_source-registered m' ssrc k got.table stays in
    let still : (x : ℕ) → registered m' x ≡ registered m x = view-registered ssrc m m' h got.view in
    let step =
      bye_sources-step u count ssrc (recount m k) (recount m' k) one.0.0 true (recount m' fewer) r
        again bye in
    let later =
      bye_sources-Left u count ssrc fewer m' (reverse_reconsideration fewer r) got.table stays
        (omega arith) in
    record {
      table = later.table;
      times = later.times;
      ends =
          step
          ∙ (later.ends ∙ ap (λ (n : ℕ). some (recount later.table n, later.times)) (omega arith));
      valid = later.valid;
      sources = λ x. later.sources x ∙ still x;
    }

-- In a valid table, where the first SSRC of a BYE packet is registered and the packet names at
-- most as many sources as are counted, the loop of `getBYE` touches no deleted object, takes one
-- member off the count for each source that the packet names, whatever the further SSRCs are, and
-- unregisters no source.
pub bye_sources-members :
    (u : Unset) (count ssrc : ℕ) (m : Members) (r : Reconsider)
    → IsTable m
    → registered m ssrc ≡ true
    → m.members < 2 ^ 32
    → count ≤ m.members
    → (m' : Members) × (r' : Reconsider) × (bye_sources u count ssrc m r ≡ some (m', r'))
      × (m'.members ≡ m.members - count)
      × ((x : ℕ) → registered m' x ≡ registered m x)
unfolding recount registered
bye_sources-members u count ssrc m r t h small few =
    let left = bye_sources-Left u count ssrc m.members m r t h small in
    (
      recount left.table ((m.members + count * (2 ^ 32 - 1)) % 2 ^ 32),
      left.times,
      left.ends,
      falls m.members count small few,
      left.sources,
    )
