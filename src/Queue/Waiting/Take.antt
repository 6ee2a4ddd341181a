-- ===== src/Queue/Waiting/Take.antt =====
-- src/incqueue.cpp: `getWaiting` and `getData` for the first packet of all.
use ccrtp.Prelude.{
  ℕ, suc, ◌≤◌, ◌<◌, ◌≡◌, refl, ◌∙◌, ap, inl, inr, true, false, Option, none, some, ltb, ◌==◌,
  if◌then◌else◌, arith, Bool-cases, Option-cases,
}
use ccrtp.Queue.{
  Link, RecvPacket, packet_link, Ends, RecvQueue, put, edit, set_prev, set_src_prev, set_first,
  set_last, discard, is_some,
}
use ccrtp.Queue.Line.{Core, core, put_ne, put_keeps, Ahead}
use ccrtp.Queue.Step.{load-live, edit-live}
use ccrtp.Queue.Waiting.{
  discard_at, count_old, leave_source, expire_any, take_any, get_waiting_any, get_waiting, get_data,
}
use ccrtp.Queue.Waiting.Dangling.{on_time}

-- The links from `k` on, when those before it have been taken.
pub record Rest (a : ℕ → RecvPacket) (k n : ℕ) (h : ℕ → Link) : Type 0 where
  pub packets : (j : ℕ) → k ≤ j → j < n → core (h j) ≡ core (packet_link (a j))
  pub next : (j : ℕ) → k ≤ j → j < n → (h j).next ≡ (if suc j == n then none else some (suc j))
  pub ahead : (j : ℕ) → k ≤ j → j < n → Ahead j n (h j).src_next

pub Rest-live :
    (a : ℕ → RecvPacket) (k n j : ℕ) (h : ℕ → Link)
    → Rest a k n h
    → k ≤ j
    → j < n
    → (h j).freed ≡ false
unfolding core
Rest-live a k n j h t le lt = ap (λ (c : Core). c.freed) (t.packets j le lt)

Rest-put :
    (a : ℕ → RecvPacket) (k n i : ℕ) (h : ℕ → Link) (v : Link)
    → core v ≡ core (h i)
    → v.next ≡ (h i).next
    → v.src_next ≡ (h i).src_next
    → Rest a k n h
    → Rest a k n (put h i v)
Rest-put a k n i h v same_core same_next same_ahead t = record {
  packets = λ j le lt. put_keeps core h i j v same_core ∙ t.packets j le lt;
  next = λ j le lt. put_keeps (λ (l : Link). l.next) h i j v same_next ∙ t.next j le lt;
  ahead = λ j le lt. rw (put_keeps (λ (l : Link). l.src_next) h i j v same_ahead) (t.ahead j le lt);
}

Rest-past :
    (a : ℕ → RecvPacket) (k n : ℕ) (h : ℕ → Link) (v : Link)
    → Rest a k n h
    → Rest a (suc k) n (put h k v)
Rest-past a k n h v t = record {
  packets = λ j le lt. ap core (put_ne h k j v (omega arith)) ∙ t.packets j (omega arith) lt;
  next = λ j le lt.
      ap (λ (l : Link). l.next) (put_ne h k j v (omega arith)) ∙ t.next j (omega arith) lt;
  ahead = λ j le lt.
      rw (ap (λ (l : Link). l.src_next) (put_ne h k j v (omega arith)))
        (t.ahead j (omega arith) lt);
}

-- A source's queue without its first link.
record Parted (a : ℕ → RecvPacket) (k n : ℕ) (q : RecvQueue) (answer : Option RecvQueue)
    : Type 0 where
  h : ℕ → Link
  ss : ℕ → Ends
  ends : answer ≡ some (record q { links = h; sources = ss })
  rest : Rest a k n h

leave_source-Parted :
    (a : ℕ → RecvPacket) (k n : ℕ) (q : RecvQueue) (l : Link)
    → Rest a k n q.links
    → Ahead k n l.src_next
    → Parted a k n q (leave_source q l)
unfolding leave_source Ahead core
leave_source-Parted a k n q l t ahead = elim (Option-cases l.src_next) [
  | inl e ↦ record {
    h = q.links;
    ss = (set_last (set_first q l.source l.src_next) l.source none).sources;
    ends = rw e refl;
    rest = t;
  }
  | inr found ↦
      (let r = found.0 in
        let range = rw found.1 at ahead in
        let live = Rest-live a k n r q.links t (omega (arith, range.0)) range.1 in
        let v = set_src_prev none (q.links r) in
        record {
          h = put q.links r v;
          ss = (set_first q l.source (some r)).sources;
          ends = rw found.1 (edit-live (set_src_prev none) r (set_first q l.source (some r)) live);
          rest = Rest-put a k n r q.links v refl refl refl t;
        })
]

abbrev pub lit : (ℕ → Link) → ℕ → (ℕ → Ends) → Option ℕ → Option ℕ → RecvQueue
lit h n ss first last = record {
  links = h;
  used = n;
  sources = ss;
  recv_first = first;
  recv_last = last;
}

-- The first of all links leaves the queue of all packets.
record Unlinked (a : ℕ → RecvPacket) (k n : ℕ) (h : ℕ → Link) (ss : ℕ → Ends) (last : Option ℕ)
    : Type 0 where
  h' : ℕ → Link
  last' : Option ℕ
  ends :
      (let moved = lit h n ss (h k).next last in
        if is_some (h k).next
        then edit (set_prev none) (h k).next moved
        else some (record moved { recv_last = none }))
      ≡ some (lit h' n ss (if suc k == n then none else some (suc k)) last')
  rest : Rest a k n h'

unlink-Unlinked :
    (a : ℕ → RecvPacket) (k n : ℕ) (h : ℕ → Link) (ss : ℕ → Ends) (last : Option ℕ)
    → Rest a k n h
    → k < n
    → Unlinked a k n h ss last
unfolding core
unlink-Unlinked a k n h ss last t lt =
    let after = t.next k (omega arith) lt in
    elim (Bool-cases (suc k == n)) [
      | inl e ↦
          (let alone : (h k).next ≡ none = rw e at after in
            record { h' = h; last' = none; ends = rw (alone, e) refl; rest = t })
      | inr e ↦
          (let more : (h k).next ≡ some (suc k) = rw e at after in
            let live = Rest-live a k n (suc k) h t (omega arith) (ground arith) in
            let v = set_prev none (h (suc k)) in
            record {
              h' = put h (suc k) v;
              last' = last;
              ends =
                  rw (more, e)
                    (edit-live (set_prev none) (suc k) (lit h n ss (some (suc k)) last) live);
              rest = Rest-put a k n (suc k) h v refl refl refl t;
            })
    ]

abbrev pub packet_of : Link → RecvPacket
packet_of l = record { seq_num = l.seq_num; timestamp = l.timestamp; source = l.source }

pub record Round (a : ℕ → RecvPacket) (k n : ℕ) (stamp : ℕ) (q : RecvQueue) : Type 0 where
  pub link : Link
  pub h' : ℕ → Link
  pub ss' : ℕ → Ends
  pub last' : Option ℕ
  pub ends :
      get_data on_time q stamp none
      ≡ some (some link, lit h' n ss' (if suc k == n then none else some (suc k)) last')
  pub same : packet_of link ≡ a k
  pub rest : Rest a (suc k) n h'

-- A link that is not older than the timestamp asked for.
count_old-due :
    (q : RecvQueue) (stamp fuel k : ℕ)
    → (q.links k).freed ≡ false
    → ltb (q.links k).timestamp stamp ≡ false
    → count_old on_time (λ l. l.next) q stamp (suc fuel) (some k) ≡ some (0, some k)
unfolding count_old
count_old-due q stamp fuel k live due = rw (load-live k q live) (rw due refl)

get_waiting_any-due :
    (h : ℕ → Link) (n k : ℕ) (ss : ℕ → Ends) (last : Option ℕ)
    (answer : Option (Option ℕ × RecvQueue))
    → (h k).freed ≡ false
    → ltb (h k).timestamp (h k).timestamp ≡ false
    → take_any (lit h n ss (some k) last) (some k) (h k) ≡ answer
    → get_waiting_any on_time (lit h n ss (some k) last) (h k).timestamp ≡ answer
unfolding get_waiting_any expire_any
get_waiting_any-due h n k ss last answer live due e =
    let q = lit h n ss (some k) last in
    rw (count_old-due q (h k).timestamp n k live due) (rw (load-live k q live) (rw due e))

get_data-found :
    (q q' : RecvQueue) (stamp k : ℕ)
    → get_waiting_any on_time q stamp ≡ some (some k, q')
    → (q'.links k).freed ≡ false
    → get_data on_time q stamp none ≡ some (some (q'.links k), discard q' k)
unfolding get_data get_waiting discard_at
get_data-found q q' stamp k e live = rw e (rw (load-live k q' live) refl)

pub get_data-Round :
    (a : ℕ → RecvPacket) (k n : ℕ) (h : ℕ → Link) (ss : ℕ → Ends) (last : Option ℕ)
    → Rest a k n h
    → k < n
    → Round a k n (h k).timestamp (lit h n ss (some k) last)
unfolding take_any discard core
get_data-Round a k n h ss last t lt =
    let live = Rest-live a k n k h t (omega arith) lt in
    let due : ltb (h k).timestamp (h k).timestamp ≡ false = ground arith in
    let un = unlink-Unlinked a k n h ss last t lt in
    let first = if suc k == n then none else some (suc k) in
    let q₁ = lit un.h' n ss first un.last' in
    let left = leave_source-Parted a k n q₁ (h k) un.rest (t.ahead k (omega arith) lt) in
    let q₂ = lit left.h n left.ss first un.last' in
    let live' = Rest-live a k n k left.h left.rest (omega arith) lt in
    let q = lit h n ss (some k) last in
    let taken : take_any q (some k) (h k) ≡ some (some k, q₂) = rw un.ends (rw left.ends refl) in
    record {
      link = left.h k;
      h' = put left.h k (record (left.h k) { freed = true });
      ss' = left.ss;
      last' = un.last';
      ends =
          get_data-found q q₂ (h k).timestamp k
            (get_waiting_any-due h n k ss last (some (some k, q₂)) live due taken) live';
      same = ap (λ (c : Core). c.packet) (left.rest.packets k (omega arith) lt);
      rest = Rest-past a k n left.h _ left.rest;
    }
