-- ===== src/Queue/Waiting/Drain.antt =====
-- src/incqueue.cpp: `getWaiting` and `getData` of packets that came in order.
use ccrtp.Prelude.{
  ℕ, zero, suc, ◌+◌, ◌<◌, ◌≡◌, refl, List, [], ◌∷◌, map, true, false, Option, none, some, ◌==◌,
  if◌then◌else◌, arith,
}
use ccrtp.Queue.{
  Link, RecvPacket, Ends, RecvQueue, insert_all, new_queue, get_first_timestamp, stamp_of,
  is_waiting,
}
use ccrtp.Queue.Step.{queue, load-live}
use ccrtp.Queue.Arrival.{InOrder, insert_all-Filled}
use ccrtp.Queue.Waiting.{with_found, drain}
use ccrtp.Queue.Waiting.Dangling.{on_time}
use ccrtp.Queue.Waiting.Take.{Rest, Rest-live, lit, packet_of, get_data-Round}

unfoldable pub arrivals_from : (ℕ → RecvPacket) → ℕ → ℕ → List RecvPacket
arrivals_from a k zero = []
arrivals_from a k (suc count) = a k ∷ arrivals_from a (suc k) count

first_timestamp-live :
    (h : ℕ → Link) (n k : ℕ) (ss : ℕ → Ends) (last : Option ℕ)
    → (h k).freed ≡ false
    → get_first_timestamp (lit h n ss (some k) last) none ≡ some (h k).timestamp
unfolding get_first_timestamp stamp_of
first_timestamp-live h n k ss last live = rw (load-live k (lit h n ss (some k) last) live) refl

record Drained (a : ℕ → RecvPacket) (k count : ℕ) (q : RecvQueue) : Type 0 where
  links : List Link
  q' : RecvQueue
  ends : drain on_time count q ≡ some (links, q')
  packets : map packet_of links ≡ arrivals_from a k count
  empty : q'.recv_first ≡ none

drain-Drained :
    (a : ℕ → RecvPacket) (count k n : ℕ) (h : ℕ → Link) (ss : ℕ → Ends) (last : Option ℕ)
    → Rest a k n h
    → k + count ≡ n
    → Drained a k count (lit h n ss (if k == n then none else some k) last)
unfolding drain arrivals_from with_found
drain-Drained a zero k n h ss last t all =
    let ended : (k == n) ≡ true = ground arith in
    record { links = []; q' = _; ends = refl; packets = refl; empty = rw ended refl }
drain-Drained a (suc count) k n h ss last t all =
    let more : (k == n) ≡ false = ground arith in
    let lt : k < n = omega arith in
    let stamped = first_timestamp-live h n k ss last (Rest-live a k n k h t (omega arith) lt) in
    let one = get_data-Round a k n h ss last t lt in
    let later = drain-Drained a count (suc k) n one.h' one.ss' one.last' one.rest (omega arith) in
    record {
      links = one.link ∷ later.links;
      q' = later.q';
      ends = rw more (rw stamped (rw one.ends (rw later.ends refl)));
      packets = rw (one.same, later.packets) refl;
      empty = later.empty;
    }

drain-queue :
    (a : ℕ → RecvPacket) (n : ℕ) (h : ℕ → Link) (ss : ℕ → Ends)
    → Rest a 0 n h
    → Drained a 0 n (queue n h ss)
drain-queue a zero h ss t = drain-Drained a 0 0 0 h ss none t refl
drain-queue a (suc m) h ss t =
    let filled : (0 == suc m) ≡ false = ground arith in
    rw filled at (drain-Drained a (suc m) 0 (suc m) h ss (some m) t (omega arith))

-- However the packets of several sources are interleaved, if those of each source come with
-- ascending sequence numbers, an application that asks as often as packets have come for the data
-- with the timestamp of the first packet in the queue gets all of them, each once, in the order of
-- their arrival, and then nothing is waiting, if no packet is delayed. No deleted link is read.
pub insert_all-drain :
    (a : ℕ → RecvPacket) (n : ℕ) (links : ℕ → Link)
    → InOrder a n
    → (q q' : RecvQueue) × (taken : List Link) × (insert_all a n (new_queue links) ≡ some q)
      × (drain on_time n q ≡ some (taken, q'))
      × (map packet_of taken ≡ arrivals_from a 0 n)
      × (is_waiting q' none ≡ false)
unfolding is_waiting
insert_all-drain a n links order =
    let all = insert_all-Filled a n links order in
    let line = all.arrived.line in
    let t : Rest a 0 n all.h = record {
      packets = λ j le lt. line.packets j lt;
      next = λ j le lt. line.next j lt;
      ahead = λ j le lt. line.ahead j lt;
    } in
    let done = drain-queue a n all.h all.ss t in
    (
      queue n all.h all.ss,
      done.q',
      done.links,
      all.ends,
      done.ends,
      done.packets,
      rw done.empty refl,
    )
