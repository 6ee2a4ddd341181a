-- ===== src/Queue/Tests.antt =====
-- The receive queue on concrete packets.
use ccrtp.Queue.Waiting.{drain}
use ccrtp.Queue.Waiting.Take.{packet_of}
use ccrtp.Queue.Waiting.Drain.{arrivals_from, insert_all-drain}
use ccrtp.Prelude.{List, map, ℕ, zero, suc, ◌≡◌, refl, true, false, none, some, arith}
use ccrtp.Queue.{
  Link, RecvPacket, packet_link, RecvQueue, insert_all, nth_pointer, new_queue, get_first_timestamp,
  is_waiting,
}
use ccrtp.Queue.Arrival.{InOrder, Reaches}
use ccrtp.Queue.Disorder.{insert_all-swapped}
use ccrtp.Queue.Waiting.{get_waiting}
use ccrtp.Queue.Waiting.Dangling.{on_time, get_waiting-dangling}

abbrev packet : ℕ → ℕ → ℕ → RecvPacket
packet seq_num timestamp source = record {
  seq_num = seq_num;
  timestamp = timestamp;
  source = source;
}

-- What memory holds before.
abbrev memory : ℕ → Link
memory i = packet_link (packet 0 0 0)

-- Two sources take turns.
abbrev mixed : ℕ → RecvPacket
mixed zero = packet 100 0 7
mixed (suc zero) = packet 9 40 8
mixed (suc (suc zero)) = packet 101 160 7
mixed (suc (suc (suc i))) = packet 11 200 8

mixed-InOrder : InOrder mixed 4
unfolding InOrder
mixed-InOrder zero zero lt small same = absurd (omega arith)
mixed-InOrder zero (suc zero) lt small same = absurd (omega arith)
mixed-InOrder zero (suc (suc zero)) lt small same = omega arith
mixed-InOrder zero (suc (suc (suc j))) lt small same = absurd (omega arith)
mixed-InOrder (suc zero) zero lt small same = absurd (omega arith)
mixed-InOrder (suc zero) (suc zero) lt small same = absurd (omega arith)
mixed-InOrder (suc zero) (suc (suc zero)) lt small same = absurd (omega arith)
mixed-InOrder (suc zero) (suc (suc (suc j))) lt small same = omega arith
mixed-InOrder (suc (suc zero)) zero lt small same = absurd (omega arith)
mixed-InOrder (suc (suc zero)) (suc zero) lt small same = absurd (omega arith)
mixed-InOrder (suc (suc zero)) (suc (suc zero)) lt small same = absurd (omega arith)
mixed-InOrder (suc (suc zero)) (suc (suc (suc j))) lt small same = absurd (omega arith)
mixed-InOrder (suc (suc (suc i))) j lt small same = absurd (omega arith)

insert_all-drain_example :
    (q q' : RecvQueue) × (taken : List Link) × (insert_all mixed 4 (new_queue memory) ≡ some q)
    × (drain on_time 4 q ≡ some (taken, q'))
    × (map packet_of taken ≡ arrivals_from mixed 0 4)
    × (is_waiting q' none ≡ false)
insert_all-drain_example = insert_all-drain mixed 4 memory mixed-InOrder

-- Number 5 comes before number 4.
abbrev late : ℕ → RecvPacket
late zero = packet 5 160 7
late (suc i) = packet 4 0 7

insert_all-swapped_example :
    (q : RecvQueue) × (insert_all late 2 (new_queue memory) ≡ some q)
    × Reaches q 0 (late 0)
    × (nth_pointer q 1 ≡ none)
    × (get_first_timestamp q (some 7) ≡ some 0)
insert_all-swapped_example = insert_all-swapped late memory refl (omega arith)

abbrev pair : ℕ → RecvPacket
pair zero = packet 5 160 7
pair (suc i) = packet 6 320 7

get_waiting-dangling_example :
    (q q' : RecvQueue) × (insert_all pair 2 (new_queue memory) ≡ some q)
    × (get_waiting on_time q 200 (some 7) ≡ some (none, q'))
    × (is_waiting q' none ≡ true)
    × (get_first_timestamp q' none ≡ none)
    × ((later : ℕ) → get_waiting on_time q' later none ≡ none)
get_waiting-dangling_example =
    get_waiting-dangling pair memory 200 refl (omega arith) (omega arith) (omega arith)
