-- ===== src/Queue/Arrival.antt =====
-- src/incqueue.cpp: `insertRecvPacket` of packets that are in order within each source.
use ccrtp.Prelude.{
  ℕ, zero, suc, ◌≤◌, ◌<◌, ◌≡◌, refl, ap, true, false, Option, none, some, ◌==◌, if◌then◌else◌,
  arith,
}
use ccrtp.Queue.{Link, RecvPacket, Ends, RecvQueue, load, insert_all, nth_pointer, new_queue}
use ccrtp.Queue.Line.{Core, core, Line}
use ccrtp.Queue.Step.{queue, LastOf, Arrived, load-live, insert_recv_packet-Grown}

pub record Filled (a : ℕ → RecvPacket) (n : ℕ) (answer : Option RecvQueue) : Type 0 where
  pub h : ℕ → Link
  pub ss : ℕ → Ends
  pub ends : answer ≡ some (queue n h ss)
  pub arrived : Arrived a n h ss

-- The packets of each source come with ascending numbers.
unfoldable pub InOrder : (ℕ → RecvPacket) → ℕ → Type 0
InOrder a n =
    (i j : ℕ) → i < j → j < n → (a i).source ≡ (a j).source → (a i).seq_num < (a j).seq_num

pub insert_all-Filled :
    (a : ℕ → RecvPacket) (n : ℕ) (links : ℕ → Link)
    → InOrder a n
    → Filled a n (insert_all a n (new_queue links))
unfolding insert_all InOrder LastOf
insert_all-Filled a zero links order = record {
  h = links;
  ss = λ s. record { first = none; last = none };
  ends = refl;
  arrived = record {
    line = record {
      ahead = λ j lt. absurd (omega arith);
      packets = λ j lt. absurd (omega arith);
      next = λ j lt. absurd (omega arith);
    };
    lasts = λ s j lt. absurd (omega arith);
  };
}
insert_all-Filled a (suc n) links order =
    let sofar = insert_all-Filled a n links (λ i j lt le. order i j lt (omega arith)) in
    let more =
      insert_recv_packet-Grown a n sofar.h sofar.ss sofar.arrived
        (λ j lt. order j n lt (omega arith)) in
    record {
      h = more.h;
      ss = more.ss;
      ends = rw sofar.ends (rw more.ends refl);
      arrived = more.arrived;
    }

nth_pointer-Line :
    (a : ℕ → RecvPacket) (m i : ℕ) (h : ℕ → Link) (ss : ℕ → Ends)
    → Line a (suc m) h
    → i ≤ suc m
    → nth_pointer (queue (suc m) h ss) i ≡ (if i == suc m then none else some i)
unfolding nth_pointer core
nth_pointer-Line a m zero h ss line le =
    (let open_end : (0 == suc m) ≡ false = ground arith in rw open_end refl)
nth_pointer-Line a m (suc i) h ss line le =
    let before = nth_pointer-Line a m i h ss line (omega arith) in
    let inside : (i == suc m) ≡ false = ground arith in
    let here : nth_pointer (queue (suc m) h ss) i ≡ some i = rw inside at before in
    let live : (h i).freed ≡ false = ap (λ (c : Core). c.freed) (line.packets i (omega arith)) in
    rw here (rw (load-live i (queue (suc m) h ss) live) (line.next i (omega arith)))

-- The link that `i` steps along the queue of all packets lead to holds the packet.
pub record Reaches (q : RecvQueue) (i : ℕ) (a : RecvPacket) : Type 0 where
  pub link : Link
  pub there : load q (nth_pointer q i) ≡ some link
  pub seq_num : link.seq_num ≡ a.seq_num
  pub timestamp : link.timestamp ≡ a.timestamp
  pub source : link.source ≡ a.source

read-Line :
    (a : ℕ → RecvPacket) (n i : ℕ) (h : ℕ → Link) (ss : ℕ → Ends)
    → Line a n h
    → i < n
    → Reaches (queue n h ss) i (a i)
unfolding core
read-Line a zero i h ss line lt = absurd (omega arith)
read-Line a (suc m) i h ss line lt =
    let inside : (i == suc m) ≡ false = ground arith in
    let here : nth_pointer (queue (suc m) h ss) i ≡ some i =
      rw inside at (nth_pointer-Line a m i h ss line (omega arith)) in
    let same = line.packets i lt in
    record {
      link = h i;
      there = rw here (load-live i (queue (suc m) h ss) (ap (λ (c : Core). c.freed) same));
      seq_num = ap (λ (c : Core). c.packet.seq_num) same;
      timestamp = ap (λ (c : Core). c.packet.timestamp) same;
      source = ap (λ (c : Core). c.packet.source) same;
    }

read-end :
    (a : ℕ → RecvPacket) (n : ℕ) (h : ℕ → Link) (ss : ℕ → Ends)
    → Line a n h
    → nth_pointer (queue n h ss) n ≡ none
unfolding nth_pointer
read-end a zero h ss line = refl
read-end a (suc m) h ss line =
    let ends : (suc m == suc m) ≡ true = ground arith in
    rw ends at (nth_pointer-Line a m (suc m) h ss line (omega arith))

-- However the packets of several sources are interleaved, if those of each source come with
-- ascending sequence numbers, `insertRecvPacket` meets no deleted link and no NULL, and keeps all
-- of them: the queue of all packets, read from its first link on, gives the packets in the order
-- of their arrival and ends behind the last one.
pub insert_all-arrival :
    (a : ℕ → RecvPacket) (n : ℕ) (links : ℕ → Link)
    → InOrder a n
    → (q : RecvQueue) × (insert_all a n (new_queue links) ≡ some q)
      × ((i : ℕ) → i < n → Reaches q i (a i))
      × (nth_pointer q n ≡ none)
insert_all-arrival a n links order =
    let all = insert_all-Filled a n links order in
    (
      queue n all.h all.ss,
      all.ends,
      λ i lt. read-Line a n i all.h all.ss all.arrived.line lt,
      read-end a n all.h all.ss all.arrived.line,
    )
