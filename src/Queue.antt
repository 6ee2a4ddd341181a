-- ===== src/Queue.antt =====
-- src/incqueue.cpp and src/ccrtp/iqueue.h: the queue of received packets. Its links lie in memory
-- at pointers; each is in the queue of all packets and in that of its source.
pub mod Line
pub mod Step
pub mod Arrival
pub mod Disorder
pub mod Waiting
mod Tests
use ccrtp.Prelude.{
  ℕ, zero, suc, ◌+◌, Bool, true, false, Option, none, some, ltb, ◌==◌, if◌then◌else◌, ◌>>=◌,
}

-- IncomingRTPPktLink with the numbers of its packet. A deleted one is marked.
pub record Link : Type 0 where
  pub seq_num : ℕ
  pub timestamp : ℕ
  pub source : ℕ
  pub prev : Option ℕ
  pub next : Option ℕ
  pub src_prev : Option ℕ
  pub src_next : Option ℕ
  pub freed : Bool

-- What the queue needs of an IncomingRTPPkt and its source.
pub record RecvPacket : Type 0 where
  pub seq_num : ℕ
  pub timestamp : ℕ
  pub source : ℕ

-- The link that takeInDataPacket makes for a packet.
abbrev pub packet_link : RecvPacket → Link
packet_link a = record {
  seq_num = a.seq_num;
  timestamp = a.timestamp;
  source = a.source;
  prev = none;
  next = none;
  src_prev = none;
  src_next = none;
  freed = false;
}

-- The queue of one source.
pub record Ends : Type 0 where
  pub first : Option ℕ
  pub last : Option ℕ

-- `used` is the pointer that the next link gets.
pub record RecvQueue : Type 0 where
  pub links : ℕ → Link
  pub used : ℕ
  pub sources : ℕ → Ends
  pub recv_first : Option ℕ
  pub recv_last : Option ℕ

unfoldable pub put {ℓ} : {A : Type ℓ} → (ℕ → A) → ℕ → A → ℕ → A
put f i v j = if j == i then v else f j

-- A read through NULL or of a deleted link is the result none, and so is a write.
unfoldable pub load : RecvQueue → Option ℕ → Option Link
load q none = none
load q (some p) = if (q.links p).freed then none else some (q.links p)

unfoldable pub edit : (Link → Link) → Option ℕ → RecvQueue → Option RecvQueue
edit f none q = none
edit f (some p) q =
    if (q.links p).freed then none else some (record q { links = put q.links p (f (q.links p)) })

abbrev pub set_prev : Option ℕ → Link → Link
set_prev p l = record l { prev = p }

abbrev pub set_next : Option ℕ → Link → Link
set_next p l = record l { next = p }

abbrev pub set_src_prev : Option ℕ → Link → Link
set_src_prev p l = record l { src_prev = p }

abbrev pub set_src_next : Option ℕ → Link → Link
set_src_next p l = record l { src_next = p }

abbrev pub set_first : RecvQueue → ℕ → Option ℕ → RecvQueue
set_first q s p = record q { sources = put q.sources s (record (q.sources s) { first = p }) }

abbrev pub set_last : RecvQueue → ℕ → Option ℕ → RecvQueue
set_last q s p = record q { sources = put q.sources s (record (q.sources s) { last = p }) }

-- The link made for the packet, and its end when the packet is a duplicate.
unfoldable pub allocate : RecvQueue → Link → RecvQueue
allocate q l = record q { links = put q.links q.used l; used = suc q.used }

unfoldable pub discard : RecvQueue → ℕ → RecvQueue
discard q n = record q { links = put q.links n (record (q.links n) { freed = true }) }

-- The search for the place of a disordered packet, on fuel: whether the packet is a duplicate, and
-- the link that goes before it.
unfoldable pub find_place : ℕ → RecvQueue → ℕ → Option ℕ → Option (Bool × Option ℕ)
find_place zero q seq plink = none
find_place (suc fuel) q seq none = some (false, none)
find_place (suc fuel) q seq (some p) = load q (some p) >>= (λ l.
    (let rest = find_place fuel q seq l.src_prev in
      if ltb seq l.seq_num
      then (if seq == l.seq_num then some (true, some p) else rest)
      else some (false, some p)))

-- The links `n` and `first` get in the queue of all packets, where another link is before `first`.
unfoldable pub link_behind : Option ℕ → ℕ → RecvQueue → Option RecvQueue
link_behind none n q = some q
link_behind (some p) n q =
    edit (set_next (some n)) (some p) q >>= (λ q'. edit (set_prev (some p)) (some n) q')

-- The oldest packet of its source.
unfoldable pub insert_oldest : RecvQueue → ℕ → ℕ → Option RecvQueue
insert_oldest q n s = do
  let first = (q.sources s).first
  q₁ ← edit (set_src_prev (some n)) first q
  q₂ ← edit (set_src_next first) (some n) q₁
  old ← load q₂ first
  q₃ ← link_behind old.prev n q₂
  q₄ ← edit (set_prev (some n)) first q₃
  q₅ ← edit (set_next first) (some n) q₄
  some (set_first q₅ s (some n))

-- Behind the link `plink` of the same source, which is not the last one.
unfoldable pub insert_between : RecvQueue → ℕ → ℕ → Option RecvQueue
insert_between q n plink = do
  place ← load q (some plink)
  q₁ ← edit (set_src_prev (some n)) place.src_next q
  q₂ ← edit (set_src_next place.src_next) (some n) q₁
  after ← load q₂ place.src_next
  q₃ ← edit (set_next (some n)) after.prev q₂
  q₄ ← edit (set_prev after.prev) (some n) q₃
  q₅ ← edit (set_prev (some n)) place.src_next q₄
  q₆ ← edit (set_next place.src_next) (some n) q₅
  q₇ ← edit (set_src_next (some n)) (some plink) q₆
  edit (set_src_prev (some plink)) (some n) q₇

abbrev pub first_or : Option ℕ → ℕ → Option ℕ
first_or none n = some n
first_or (some p) n = some p

-- The only packet of its source.
unfoldable pub insert_only : RecvQueue → ℕ → ℕ → Option RecvQueue
insert_only q n s = do
  let ended = set_first (set_last q s (some n)) s (some n)
  linked ← link_behind q.recv_last n ended
  some (record linked { recv_last = some n; recv_first = first_or q.recv_first n })

-- Behind the last packet of its source.
unfoldable pub insert_last : RecvQueue → ℕ → ℕ → ℕ → Option RecvQueue
insert_last q n s last = do
  q₁ ← edit (set_src_next (some n)) (some last) q
  q₂ ← edit (set_src_prev (some last)) (some n) q₁
  let q₃ = set_last q₂ s (some n)
  q₄ ← edit (set_next (some n)) q₃.recv_last q₃
  q₅ ← edit (set_prev q₄.recv_last) (some n) q₄
  some (record q₅ { recv_last = some n })

unfoldable pub insert_place : RecvQueue → ℕ → ℕ → Bool × Option ℕ → Option (Bool × RecvQueue)
insert_place q n s (true, plink) = some (false, discard q n)
insert_place q n s (false, none) = insert_oldest q n s >>= (λ q'. some (true, q'))
insert_place q n s (false, some plink) = insert_between q n plink >>= (λ q'. some (true, q'))

unfoldable pub insert_from : RecvQueue → (n s seq : ℕ) → Option ℕ → Option (Bool × RecvQueue)
insert_from q n s seq none = insert_only q n s >>= (λ q'. some (true, q'))
insert_from q n s seq (some last) = load q (some last) >>= (λ l.
    if ltb seq l.seq_num
    then find_place (suc q.used) q seq (some last) >>= insert_place q n s
    else if seq == l.seq_num
    then some (false, discard q n)
    else insert_last q n s last >>= (λ q'. some (true, q')))

unfoldable pub insert_recv_packet : RecvQueue → RecvPacket → Option (Bool × RecvQueue)
insert_recv_packet q a =
    insert_from (allocate q (packet_link a)) q.used a.source a.seq_num (q.sources a.source).last

-- The first `n` packets of a sequence, one after the other.
unfoldable pub insert_all : (ℕ → RecvPacket) → ℕ → RecvQueue → Option RecvQueue
insert_all a zero q = some q
insert_all a (suc n) q =
    insert_all a n q >>= (λ q'. insert_recv_packet q' (a n) >>= (λ r. some r.1))

-- The pointer that `i` steps along the queue of all packets lead to.
unfoldable pub nth_pointer : RecvQueue → ℕ → Option ℕ
nth_pointer q zero = q.recv_first
nth_pointer q (suc i) = load q (nth_pointer q i) >>= (λ l. l.next)

-- The queue of the constructor. `links` is what memory holds before.
abbrev pub new_queue : (ℕ → Link) → RecvQueue
new_queue links = record {
  links = links;
  used = 0;
  sources = λ s. record { first = none; last = none };
  recv_first = none;
  recv_last = none;
}

abbrev pub is_some : Option ℕ → Bool
is_some none = false
is_some (some p) = true

unfoldable pub is_waiting : RecvQueue → Option ℕ → Bool
is_waiting q none = is_some q.recv_first
is_waiting q (some s) = is_some (q.sources s).first

unfoldable pub stamp_of : RecvQueue → Option ℕ → Option ℕ
stamp_of q none = some 0
stamp_of q (some p) = load q (some p) >>= (λ l. some l.timestamp)

unfoldable pub get_first_timestamp : RecvQueue → Option ℕ → Option ℕ
get_first_timestamp q none = stamp_of q q.recv_first
get_first_timestamp q (some s) = stamp_of q (q.sources s).first
