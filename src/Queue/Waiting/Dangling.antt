-- ===== src/Queue/Waiting/Dangling.antt =====
-- src/incqueue.cpp: pointers to deleted links that `getWaiting` and `purgeIncomingQueue` leave.
use ccrtp.Prelude.{
  ℕ, ◌<◌, ◌≡◌, refl, sym, Bool, true, false, none, some, ltb, lt→ltb, ◌==◌, ==_iff, arith,
  Bool-cases, inl, inr,
}
use ccrtp.Queue.{
  Link, RecvPacket, packet_link, RecvQueue, put, load, edit, set_prev, set_src_prev, allocate,
  discard, link_behind, insert_only, insert_last, insert_from, insert_recv_packet, insert_all,
  new_queue, get_first_timestamp, stamp_of, is_waiting,
}
use ccrtp.Queue.Disorder.{one_packet, revise, two_links}
use ccrtp.Queue.Waiting.{
  edit_if, discard_at, count_old, get_waiting_any, expire_source, get_waiting_source, get_waiting,
  purge_incoming_queue,
}

-- No packet is delayed.
abbrev pub on_time : Link → Bool
on_time l = false

two_queue : (ℕ → RecvPacket) → (ℕ → Link) → RecvQueue
two_queue a links = record {
  links = two_links a links;
  used = 2;
  sources = put (one_packet (a 0).source) (a 1).source (record { first = some 0; last = some 1 });
  recv_first = some 0;
  recv_last = some 1;
}

two_queue-insert :
    (a : ℕ → RecvPacket) (links : ℕ → Link)
    → (a 0).source ≡ (a 1).source
    → (a 0).seq_num < (a 1).seq_num
    → insert_all a 2 (new_queue links) ≡ some (two_queue a links)
unfolding one_packet two_queue two_links revise put load edit allocate link_behind insert_last
    insert_only insert_from insert_recv_packet insert_all
two_queue-insert a links same lt =
    let s = (a 0).source in
    let t = (a 1).source in
    let own : (s == s) ≡ true = (==_iff s s).1 refl in
    let cross : (t == s) ≡ true = (==_iff t s).1 (sym same) in
    let up : ltb (a 1).seq_num (a 0).seq_num ≡ false = ground arith in
    let up' : ((a 1).seq_num == (a 0).seq_num) ≡ false = ground arith in
    rw cross (rw own (rw up (rw up' (rw cross refl))))

-- The queue when the first packet has expired.
expired_queue : (ℕ → RecvPacket) → (ℕ → Link) → RecvQueue
expired_queue a links =
    let h₁ = revise (two_links a links) 1 (set_prev none) in
    let h₂ = revise h₁ 0 (λ l. record l { freed = true }) in
    let both =
      put (one_packet (a 0).source) (a 1).source (record { first = some 0; last = some 1 }) in
    record {
      links = revise h₂ 1 (set_src_prev none);
      used = 2;
      sources = put both (a 1).source (record { first = some 1; last = some 1 });
      recv_first = some 0;
      recv_last = some 1;
    }

-- Two packets of one source come in order, and the application asks this source for a time between
-- theirs: the first packet expires and nothing is found, but the queue of all packets still begins
-- with the deleted link. It seems to hold a packet, and any look at its first one reads a deleted
-- link.
pub get_waiting-dangling :
    (a : ℕ → RecvPacket) (links : ℕ → Link) (stamp : ℕ)
    → (a 0).source ≡ (a 1).source
    → (a 0).seq_num < (a 1).seq_num
    → (a 0).timestamp < stamp
    → stamp < (a 1).timestamp
    → (q q' : RecvQueue) × (insert_all a 2 (new_queue links) ≡ some q)
      × (get_waiting on_time q stamp (some (a 1).source) ≡ some (none, q'))
      × (is_waiting q' none ≡ true)
      × (get_first_timestamp q' none ≡ none)
      × ((later : ℕ) → get_waiting on_time q' later none ≡ none)
unfolding one_packet expired_queue two_queue two_links revise put load edit edit_if discard
    discard_at count_old expire_source get_waiting_source get_waiting_any get_waiting is_waiting
    get_first_timestamp stamp_of
get_waiting-dangling a links stamp same lt before after =
    let t = (a 1).source in
    let own : (t == t) ≡ true = (==_iff t t).1 refl in
    let old : ltb (a 0).timestamp stamp ≡ true = lt→ltb _ _ before in
    let new : ltb (a 1).timestamp stamp ≡ false = ground arith in
    let newer : ltb stamp (a 1).timestamp ≡ true = lt→ltb _ _ after in
    (
      two_queue a links,
      expired_queue a links,
      two_queue-insert a links same lt,
      rw own (rw old (rw new (rw own (rw own (rw newer refl))))),
      refl,
      refl,
      λ later. refl,
    )

-- The queue when its only packet has been purged.
purged_queue : RecvPacket → (ℕ → Link) → RecvQueue
purged_queue x links =
    let h = put links 0 (packet_link x) in
    let only = one_packet x.source in
    let first_gone = put only x.source (record { first = none; last = some 0 }) in
    record {
      links = revise h 0 (λ l. record l { freed = true });
      used = 1;
      sources = put first_gone x.source (record { first = none; last = none });
      recv_first = none;
      recv_last = some 0;
    }

-- `purgeIncomingQueue` of a queue with one packet ends, and leaves a pointer to the deleted link as
-- the last one: whatever packet comes next, `insertRecvPacket` writes to the deleted link.
pub purge_incoming_queue-dangling :
    (a : ℕ → RecvPacket) (links : ℕ → Link)
    → (q q' : RecvQueue) × (insert_all a 1 (new_queue links) ≡ some q)
      × (purge_incoming_queue 2 q ≡ some q')
      × (is_waiting q' none ≡ false)
      × ((x : RecvPacket) → insert_recv_packet q' x ≡ none)
unfolding one_packet purged_queue revise put load edit discard discard_at allocate link_behind
    insert_only insert_from insert_recv_packet insert_all purge_incoming_queue is_waiting
purge_incoming_queue-dangling a links =
    let s = (a 0).source in
    let own : (s == s) ≡ true = (==_iff s s).1 refl in
    let q : RecvQueue = record {
      links = put links 0 (packet_link (a 0));
      used = 1;
      sources = one_packet s;
      recv_first = some 0;
      recv_last = some 0;
    } in
    (
      q,
      purged_queue (a 0) links,
      rw own refl,
      rw own refl,
      refl,
      λ x. elim (Bool-cases (x.source == s)) [ inl e ↦ rw e refl | inr e ↦ rw e refl ],
    )
