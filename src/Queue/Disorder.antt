-- ===== src/Queue/Disorder.antt =====
-- src/incqueue.cpp: `insertRecvPacket` of packets that are behind the last one of their source.
use ccrtp.Prelude.{
  ℕ, ◌<◌, ◌≡◌, refl, sym, ◌∙◌, ap, true, false, Option, none, some, ltb, lt→ltb, ◌==◌, ==_iff,
  arith,
}
use ccrtp.Queue.{
  Link, RecvPacket, packet_link, Ends, RecvQueue, put, load, edit, find_place, set_prev, set_next,
  set_src_prev, set_src_next, allocate, link_behind, insert_oldest, insert_between, insert_place,
  insert_only, insert_last, insert_from, insert_recv_packet, insert_all, nth_pointer, new_queue,
  get_first_timestamp, stamp_of,
}
use ccrtp.Queue.Arrival.{Reaches}

-- The links and the queues of the sources in the end.
swapped_links : (ℕ → RecvPacket) → (ℕ → Link) → ℕ → Link
swapped_links a links =
    let h₁ = put (put links 0 (packet_link (a 0))) 1 (packet_link (a 1)) in
    let h₂ = put h₁ 0 (set_src_prev (some 1) (h₁ 0)) in
    let h₃ = put h₂ 1 (set_src_next (some 0) (h₂ 1)) in
    let h₄ = put h₃ 0 (set_prev (some 1) (h₃ 0)) in put h₄ 1 (set_next (some 0) (h₄ 1))

unfoldable pub one_packet : ℕ → ℕ → Ends
one_packet s =
    let none_yet : ℕ → Ends = λ x. record { first = none; last = none } in
    let one = put none_yet s (record { first = none; last = some 0 }) in
    put one s (record { first = some 0; last = some 0 })

swapped_queue : (ℕ → RecvPacket) → (ℕ → Link) → Option ℕ → RecvQueue
swapped_queue a links last = record {
  links = swapped_links a links;
  used = 2;
  sources = put (one_packet (a 0).source) (a 1).source (record { first = some 1; last = last });
  recv_first = some 0;
  recv_last = some 0;
}

-- The second packet of a source comes before the first one, in a queue that is empty: it is
-- accepted and is the first one in the queue of its source, but the queue of all packets still
-- begins with the other one, and ends there.
pub insert_all-swapped :
    (a : ℕ → RecvPacket) (links : ℕ → Link)
    → (a 0).source ≡ (a 1).source
    → (a 1).seq_num < (a 0).seq_num
    → (q : RecvQueue) × (insert_all a 2 (new_queue links) ≡ some q)
      × Reaches q 0 (a 0)
      × (nth_pointer q 1 ≡ none)
      × (get_first_timestamp q (some (a 1).source) ≡ some (a 1).timestamp)
unfolding swapped_links one_packet swapped_queue put load edit find_place allocate link_behind
    insert_oldest insert_place insert_only insert_from insert_recv_packet insert_all nth_pointer
    get_first_timestamp stamp_of
insert_all-swapped a links same lt =
    let s = (a 0).source in
    let t = (a 1).source in
    let own : (s == s) ≡ true = (==_iff s s).1 refl in
    let here : (t == t) ≡ true = (==_iff t t).1 refl in
    let cross : (t == s) ≡ true = (==_iff t s).1 (sym same) in
    let before : ltb (a 1).seq_num (a 0).seq_num ≡ true = lt→ltb _ _ lt in
    let differ : ((a 1).seq_num == (a 0).seq_num) ≡ false = ground arith in
    let last : (one_packet s t).last ≡ some 0 = rw cross refl in
    (
      swapped_queue a links (some 0),
      rw cross (
          rw own
            (rw before (rw differ (rw cross (ap (λ o. some (swapped_queue a links o)) last))))),
      record {
        link = swapped_links a links 0;
        there = refl;
        seq_num = refl;
        timestamp = refl;
        source = refl;
      },
      refl,
      rw here refl,
    )

unfoldable pub revise : (ℕ → Link) → ℕ → (Link → Link) → ℕ → Link
revise h i f = put h i (f (h i))

-- The links of a first packet and a second one behind it, and with a third one between them.
unfoldable pub two_links : (ℕ → RecvPacket) → (ℕ → Link) → ℕ → Link
two_links a links =
    let h₁ = put (put links 0 (packet_link (a 0))) 1 (packet_link (a 1)) in
    let h₂ = revise h₁ 0 (set_src_next (some 1)) in
    let h₃ = revise h₂ 1 (set_src_prev (some 0)) in
    let h₄ = revise h₃ 0 (set_next (some 1)) in revise h₄ 1 (set_prev (some 0))

three_links : (ℕ → RecvPacket) → (ℕ → Link) → ℕ → Link
three_links a links =
    let h₁ = put (two_links a links) 2 (packet_link (a 2)) in
    let h₂ = revise h₁ 1 (set_src_prev (some 2)) in
    let h₃ = revise h₂ 2 (set_src_next (some 1)) in
    let h₄ = revise h₃ 0 (set_next (some 2)) in
    let h₅ = revise h₄ 2 (set_prev (some 0)) in
    let h₆ = revise h₅ 1 (set_prev (some 2)) in
    let h₇ = revise h₆ 2 (set_next (some 1)) in
    let h₈ = revise h₇ 0 (set_src_next (some 2)) in revise h₈ 2 (set_src_prev (some 0))

three_queue : (ℕ → RecvPacket) → (ℕ → Link) → RecvQueue
three_queue a links = record {
  links = three_links a links;
  used = 3;
  sources = put (one_packet (a 0).source) (a 1).source (record { first = some 0; last = some 1 });
  recv_first = some 0;
  recv_last = some 1;
}

-- When the third packet of a source repeats the number of the first one, and the second one has a
-- greater number, in a queue that is empty at first, the repeated packet is kept: the queue of all
-- packets holds both packets with the same number.
pub insert_all-repeated :
    (a : ℕ → RecvPacket) (links : ℕ → Link)
    → (a 0).source ≡ (a 1).source
    → (a 0).source ≡ (a 2).source
    → (a 0).seq_num < (a 1).seq_num
    → (a 2).seq_num ≡ (a 0).seq_num
    → (q : RecvQueue) × (insert_all a 3 (new_queue links) ≡ some q)
      × Reaches q 0 (a 0)
      × Reaches q 1 (a 2)
      × Reaches q 2 (a 1)
unfolding one_packet three_queue three_links two_links revise put load edit find_place allocate
    link_behind insert_last insert_between insert_place insert_only insert_from insert_recv_packet
    insert_all nth_pointer
insert_all-repeated a links same again lt equal =
    let s = (a 0).source in
    let t = (a 1).source in
    let own : (s == s) ≡ true = (==_iff s s).1 refl in
    let cross : (t == s) ≡ true = (==_iff t s).1 (sym same) in
    let third : ((a 2).source == t) ≡ true = (==_iff (a 2).source t).1 (sym again ∙ same) in
    let up : ltb (a 1).seq_num (a 0).seq_num ≡ false = ground arith in
    let up' : ((a 1).seq_num == (a 0).seq_num) ≡ false = ground arith in
    let down : ltb (a 2).seq_num (a 1).seq_num ≡ true = lt→ltb _ _ (omega (arith, equal)) in
    let differ : ((a 2).seq_num == (a 1).seq_num) ≡ false = ground (arith, equal) in
    let stop : ltb (a 2).seq_num (a 0).seq_num ≡ false = ground (arith, equal) in
    (
      three_queue a links,
      rw cross (rw own (rw up (rw up' (rw third (rw down (rw differ (rw stop (rw cross refl)))))))),
      record {
        link = three_links a links 0;
        there = refl;
        seq_num = refl;
        timestamp = refl;
        source = refl;
      },
      record {
        link = three_links a links 2;
        there = refl;
        seq_num = refl;
        timestamp = refl;
        source = refl;
      },
      record {
        link = three_links a links 1;
        there = refl;
        seq_num = refl;
        timestamp = refl;
        source = refl;
      },
    )
