-- ===== src/Queue/Waiting.antt =====
-- src/incqueue.cpp: `getWaiting` and `getData`, which take packets out of the queue, and
-- `purgeIncomingQueue`.
pub mod Dangling
pub mod Take
pub mod Drain
use ccrtp.Prelude.{
  List, [], ◌∷◌, ℕ, zero, suc, ◌+◌, Bool, true, false, not, ◌&&◌, ◌||◌, Option, none, some, ltb,
  ◌==◌, if◌then◌else◌, ◌>>=◌,
}
use ccrtp.Queue.{
  Link, RecvQueue, load, edit, set_prev, set_next, set_src_prev, set_src_next, set_first, set_last,
  discard, is_some, get_first_timestamp,
}

-- A write to an object if there is one.
unfoldable pub edit_if : (Link → Link) → Option ℕ → RecvQueue → Option RecvQueue
edit_if f none q = some q
edit_if f (some p) q = edit f (some p) q

unfoldable pub discard_at : RecvQueue → Option ℕ → RecvQueue
discard_at q none = q
discard_at q (some p) = discard q p

-- How many packets from a pointer on are older than `stamp` or delayed, and the pointer behind
-- them; on fuel. `delayed` is end2EndDelayed, and `step` the pointer to follow.
unfoldable pub count_old :
    (Link → Bool) → (Link → Option ℕ) → RecvQueue → ℕ → ℕ → Option ℕ → Option (ℕ × Option ℕ)
count_old delayed step q stamp zero pl = none
count_old delayed step q stamp (suc fuel) none = some (0, none)
count_old delayed step q stamp (suc fuel) (some p) = load q (some p) >>= (λ l.
    (let rest = count_old delayed step q stamp fuel (step l) in
      if ltb l.timestamp stamp || delayed l
      then rest >>= (λ r. some (suc r.0, r.1))
      else some (0, some p)))

-- The link behind the first one of a source becomes its first one.
unfoldable pub leave_source : RecvQueue → Link → Option RecvQueue
leave_source q l =
    let moved = set_first q l.source l.src_next in
    if is_some l.src_next
    then edit (set_src_prev none) l.src_next moved
    else some (set_last moved l.source none)

-- The packets at the front of the queue of all packets expire.
unfoldable pub expire_any : ℕ → RecvQueue → Option RecvQueue
expire_any zero q = some q
expire_any (suc n) q = do
  l ← load q q.recv_first
  left ← leave_source (record q { recv_first = l.next }) l
  expire_any n (discard_at left q.recv_first)

-- The first packet of all leaves both queues.
unfoldable pub take_any : RecvQueue → Option ℕ → Link → Option (Option ℕ × RecvQueue)
take_any q pl l = do
  let moved = record q { recv_first = l.next }
  unlinked ←
      (if is_some l.next
        then edit (set_prev none) l.next moved
        else some (record moved { recv_last = none }))
  left ← leave_source unlinked l
  some (pl, left)

unfoldable pub get_waiting_any : (Link → Bool) → RecvQueue → ℕ → Option (Option ℕ × RecvQueue)
get_waiting_any delayed q stamp = do
  old ← count_old delayed (λ l. l.next) q stamp (suc q.used) q.recv_first
  q' ← expire_any old.0 q
  if not (is_some q'.recv_first)
      then some (none, record q' { recv_last = none })
      else load q' q'.recv_first >>= (λ l.
        if ltb stamp l.timestamp
        then edit (set_prev none) old.1 q' >>= (λ q''. some (none, q''))
        else take_any q' q'.recv_first l)

-- The packets at the front of a source's queue expire. The last of them says whether the queue of
-- all packets held another one; the ends of that queue stay.
unfoldable pub expire_source : ℕ → ℕ → Bool → RecvQueue → Option (Bool × RecvQueue)
expire_source zero s nonempty q = some (nonempty, q)
expire_source (suc n) s nonempty q = do
  let first = (q.sources s).first
  l ← load q first
  q₁ ← edit_if (set_next l.next) l.prev (set_first q s l.src_next)
  q₂ ← edit_if (set_prev l.prev) l.next q₁
  expire_source n s (is_some l.prev || is_some l.next) (discard_at q₂ first)

-- The first packet of a source leaves both queues. What is reset in the packet behind it is the
-- pointer of the queue of all packets.
unfoldable pub take_source : RecvQueue → ℕ → Link → Option (Option ℕ × RecvQueue)
take_source q s l = do
  let pl = (q.sources s).first
  q₁ ←
      (if is_some l.prev
        then edit (set_next l.next) l.prev q
        else some (record q { recv_first = l.next }))
  q₂ ←
      (if is_some l.next
        then edit (set_prev l.prev) l.next q₁
        else some (record q₁ { recv_last = l.prev }))
  let q₃ = set_first q₂ s l.src_next
  q₄ ←
      (if is_some l.src_next then edit (set_prev none) l.src_next q₃ else some (set_last q₃ s none))
  some (pl, q₄)

unfoldable pub get_waiting_source :
    (Link → Bool) → RecvQueue → ℕ → ℕ → Option (Option ℕ × RecvQueue)
get_waiting_source delayed q s stamp = do
  old ← count_old delayed (λ l. l.src_next) q stamp (suc q.used) (q.sources s).first
  r ← expire_source old.0 s false q
  let first = (r.1.sources s).first
  let emptied = set_last r.1 s none
  if not (is_some (q.sources s).first)
      then some (none, q)
      else if not (is_some first)
      then some
          (none, (if r.0 then emptied else record emptied { recv_first = none; recv_last = none }))
      else load r.1 first >>= (λ l.
        if ltb stamp l.timestamp
        then edit (set_src_prev none) first r.1 >>= (λ q'. some (none, q'))
        else take_source r.1 s l)

-- For any source, or for one source of this session.
unfoldable pub get_waiting :
    (Link → Bool) → RecvQueue → ℕ → Option ℕ → Option (Option ℕ × RecvQueue)
get_waiting delayed q stamp none = get_waiting_any delayed q stamp
get_waiting delayed q stamp (some s) = get_waiting_source delayed q s stamp

-- The packet of the link that is found, which is deleted.
unfoldable pub get_data :
    (Link → Bool) → RecvQueue → ℕ → Option ℕ → Option (Option Link × RecvQueue)
get_data delayed q stamp src = do
  found ← get_waiting delayed q stamp src
  if is_some found.0
      then load found.1 found.0 >>= (λ l. some (some l, discard_at found.1 found.0))
      else some (none, found.1)

unfoldable pub with_found : Option Link → List Link → List Link
with_found none ls = ls
with_found (some l) ls = l ∷ ls

-- An application that asks `n` times for the data with the timestamp of the first packet.
unfoldable pub drain : (Link → Bool) → ℕ → RecvQueue → Option (List Link × RecvQueue)
drain delayed zero q = some ([], q)
drain delayed (suc n) q = do
  stamp ← get_first_timestamp q none
  r ← get_data delayed q stamp none
  rest ← drain delayed n r.1
  some (with_found r.0 rest.0, rest.1)

-- On fuel. recvLast stays.
unfoldable pub purge_incoming_queue : ℕ → RecvQueue → Option RecvQueue
purge_incoming_queue zero q = none
purge_incoming_queue (suc fuel) q =
    let rest = λ (t : RecvQueue). purge_incoming_queue fuel t in
    if is_some q.recv_first
    then load q q.recv_first >>= (λ l.
      rest (record (discard_at (set_last (set_first q l.source none) l.source none) q.recv_first) {
        recv_first = l.next;
      }))
    else some q
