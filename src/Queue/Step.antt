-- ===== src/Queue/Step.antt =====
-- src/incqueue.cpp: `insertRecvPacket` of one more packet that is in order within its source.
use ccrtp.Prelude.{
  ℕ, zero, suc, ◌<◌, ◌≡◌, ◌≢◌, refl, sym, ◌∙◌, ap, inl, inr, Bool, true, false, Option, none, some,
  ltb, ◌==◌, ==_iff, arith, Bool-cases, Option-cases,
}
use ccrtp.Queue.{
  Link, RecvPacket, packet_link, Ends, RecvQueue, put, load, edit, set_prev, set_next, set_src_prev,
  set_src_next, allocate, link_behind, insert_only, insert_last, insert_from, insert_recv_packet,
}
use ccrtp.Queue.Line.{
  Core, core, put_self, put_ne, put_keeps, Line, append-Line, single-Line, Line-live, added-Ahead,
  Ahead,
}

abbrev pub first_of : ℕ → Option ℕ
first_of zero = none
first_of (suc m) = some 0

abbrev pub last_of : ℕ → Option ℕ
last_of zero = none
last_of (suc m) = some m

-- The queue behind `n` arrivals.
abbrev pub queue : ℕ → (ℕ → Link) → (ℕ → Ends) → RecvQueue
queue n h ss = record {
  links = h;
  used = n;
  sources = ss;
  recv_first = first_of n;
  recv_last = last_of n;
}

-- The last link of a source, if a packet of it has come.
unfoldable pub LastOf : (ℕ → RecvPacket) → ℕ → ℕ → Option ℕ → Type 0
LastOf a n s none = (j : ℕ) → j < n → (a j).source ≢ s
LastOf a n s (some p) = (p < n) × ((a p).source ≡ s)

pub record Arrived (a : ℕ → RecvPacket) (n : ℕ) (h : ℕ → Link) (ss : ℕ → Ends) : Type 0 where
  pub line : Line a n h
  pub lasts : (s : ℕ) → LastOf a n s (ss s).last

LastOf-suc :
    (a : ℕ → RecvPacket) (n s : ℕ) (p : Option ℕ)
    → (a n).source ≢ s
    → LastOf a n s p
    → LastOf a (suc n) s p
unfolding LastOf
LastOf-suc a n s none ne h = λ j lt e. elim (Bool-cases (j == n)) [
  | inl same ↦ ne (rw ((==_iff j n).0 same) at e)
  | inr other ↦ h j (ground arith) e
]
LastOf-suc a n s (some p) ne h = (omega (arith, h.0), h.1)

lasts_step :
    (a : ℕ → RecvPacket) (n : ℕ) (ss ss' : ℕ → Ends)
    → ((s : ℕ) → LastOf a n s (ss s).last)
    → (ss' (a n).source).last ≡ some n
    → ((s : ℕ) → s ≢ (a n).source → (ss' s).last ≡ (ss s).last)
    → (s : ℕ) → LastOf a (suc n) s (ss' s).last
unfolding LastOf
lasts_step a n ss ss' h new old s = elim (Bool-cases (s == (a n).source)) [
  | inl e ↦ rw ((==_iff s (a n).source).0 e) (rw new (omega arith, refl))
  | inr e ↦
      (let ne : s ≢ (a n).source = ground arith in
        rw (old s ne) (LastOf-suc a n s (ss s).last (λ same. ne (sym same)) (h s)))
]

pub edit-live :
    (f : Link → Link) (p : ℕ) (q : RecvQueue)
    → (q.links p).freed ≡ false
    → edit f (some p) q ≡ some (record q { links = put q.links p (f (q.links p)) })
unfolding edit
edit-live f p q live = rw live refl

pub load-live :
    (p : ℕ) (q : RecvQueue) → (q.links p).freed ≡ false → load q (some p) ≡ some (q.links p)
unfolding load
load-live p q live = rw live refl

-- What one more packet leaves.
pub record Grown (a : ℕ → RecvPacket) (n : ℕ) (answer : Option (Bool × RecvQueue)) : Type 0 where
  pub h : ℕ → Link
  pub ss : ℕ → Ends
  pub ends : answer ≡ some (true, queue (suc n) h ss)
  pub arrived : Arrived a (suc n) h ss

-- The ends of a source's queue when a link is the last one, and when it is the only one.
ended : (ℕ → Ends) → ℕ → ℕ → ℕ → Ends
ended ss s n = put ss s (record (ss s) { last = some n })

alone : (ℕ → Ends) → ℕ → ℕ → ℕ → Ends
alone ss s n = put (ended ss s n) s (record (ended ss s n s) { first = some n })

ended_lasts :
    (a : ℕ → RecvPacket) (n : ℕ) (ss : ℕ → Ends)
    → ((s : ℕ) → LastOf a n s (ss s).last)
    → (s : ℕ) → LastOf a (suc n) s (ended ss (a n).source n s).last
unfolding ended
ended_lasts a n ss h =
    let s = (a n).source in
    lasts_step a n ss (ended ss s n) h
      (ap (λ (x : Ends). x.last) (put_self ss s (record (ss s) { last = some n })))
      (λ x ne. ap (λ (x : Ends). x.last) (put_ne ss s x (record (ss s) { last = some n }) ne))

alone_lasts :
    (a : ℕ → RecvPacket) (n : ℕ) (ss : ℕ → Ends)
    → ((s : ℕ) → LastOf a n s (ss s).last)
    → (s : ℕ) → LastOf a (suc n) s (alone ss (a n).source n s).last
unfolding alone
alone_lasts a n ss h x =
    let s = (a n).source in
    let one = ended ss s n in
    let same : (alone ss s n x).last ≡ (one x).last =
      put_keeps (λ (e : Ends). e.last) one s x (record (one s) { first = some n }) refl in
    rw same (ended_lasts a n ss h x)

insert_only-first :
    (a : ℕ → RecvPacket) (h : ℕ → Link) (ss : ℕ → Ends)
    → Arrived a 0 h ss
    → (ss (a 0).source).last ≡ none
    → Grown a 0 (insert_recv_packet (queue 0 h ss) (a 0))
unfolding insert_recv_packet insert_from insert_only link_behind allocate ended alone
insert_only-first a h ss t e = record {
  h = put h 0 (packet_link (a 0));
  ss = alone ss (a 0).source 0;
  ends = rw e refl;
  arrived = record { line = single-Line a h; lasts = alone_lasts a 0 ss t.lasts };
}

-- The queue while the link `n` is put in place behind the link `m`.
abbrev open_queue : ℕ → (ℕ → Link) → (ℕ → Ends) → RecvQueue
open_queue m k ss = record {
  links = k;
  used = suc (suc m);
  sources = ss;
  recv_first = some 0;
  recv_last = some m;
}

insert_only-next :
    (a : ℕ → RecvPacket) (m : ℕ) (h : ℕ → Link) (ss : ℕ → Ends)
    → Arrived a (suc m) h ss
    → (ss (a (suc m)).source).last ≡ none
    → Grown a (suc m) (insert_recv_packet (queue (suc m) h ss) (a (suc m)))
unfolding insert_recv_packet insert_from insert_only link_behind allocate ended alone
insert_only-next a m h ss t e =
    let n = suc m in
    let l = packet_link (a n) in
    let g = put h n l in
    let b = put g m (set_next (some n) (g m)) in
    let c = put b n (set_prev (some m) (b n)) in
    let s = (a n).source in
    let live_m = Line-live a n m h t.line (omega arith) in
    let live_n : (b n).freed ≡ false =
      put_keeps (λ (k : Link). k.freed) g m n (set_next (some n) (g m)) refl
      ∙ Line-live a n n h t.line (omega arith) in
    record {
      h = c;
      ss = alone ss s n;
      ends = rw e (
          rw (edit-live (set_next (some n)) m (open_queue m g (alone ss s n)) live_m)
            (rw (edit-live (set_prev (some m)) n (open_queue m b (alone ss s n)) live_n) refl));
      arrived = record {
        line =
            append-Line a m h g t.line (λ j. refl) (λ j. refl)
              (λ j lt. added-Ahead a n j h t.line lt);
        lasts = alone_lasts a n ss t.lasts;
      };
    }

revised-Ahead :
    (n p j : ℕ) (g : ℕ → Link)
    → p < n
    → Ahead j (suc n) (g j).src_next
    → Ahead j (suc n) (put g p (set_src_next (some n) (g p)) j).src_next
unfolding Ahead
revised-Ahead n p j g lt ahead =
    let v = set_src_next (some n) (g p) in
    elim (Bool-cases (j == p)) [
      | inl e ↦
          rw ((==_iff j p).0 e)
            (rw (ap (λ (k : Link). k.src_next) (put_self g p v)) (lt, omega arith))
      | inr e ↦
          (let ne : j ≢ p = ground arith in
            rw (ap (λ (k : Link). k.src_next) (put_ne g p j v ne)) ahead)
    ]

insert_last-next :
    (a : ℕ → RecvPacket) (m p : ℕ) (h : ℕ → Link) (ss : ℕ → Ends)
    → Arrived a (suc m) h ss
    → (ss (a (suc m)).source).last ≡ some p
    → p < suc m
    → (a p).seq_num < (a (suc m)).seq_num
    → Grown a (suc m) (insert_recv_packet (queue (suc m) h ss) (a (suc m)))
unfolding insert_recv_packet insert_from insert_last allocate ended core
insert_last-next a m p h ss t e lt above =
    let n = suc m in
    let l = packet_link (a n) in
    let s = (a n).source in
    let g₀ = put h n l in
    let g₁ = put g₀ p (set_src_next (some n) (g₀ p)) in
    let g = put g₁ n (set_src_prev (some p) (g₁ n)) in
    let b = put g m (set_next (some n) (g m)) in
    let c = put b n (set_prev (some m) (b n)) in
    let freed_kept : (j : ℕ) → (g j).freed ≡ (g₀ j).freed = λ j.
      put_keeps (λ (k : Link). k.freed) g₁ n j (set_src_prev (some p) (g₁ n)) refl
      ∙ put_keeps (λ (k : Link). k.freed) g₀ p j (set_src_next (some n) (g₀ p)) refl in
    let live_p = Line-live a n p h t.line (omega arith) in
    let live_n = Line-live a n n h t.line (omega arith) in
    let live_n₁ : (g₁ n).freed ≡ false =
      put_keeps (λ (k : Link). k.freed) g₀ p n (set_src_next (some n) (g₀ p)) refl ∙ live_n in
    let live_m : (g m).freed ≡ false = freed_kept m ∙ Line-live a n m h t.line (omega arith) in
    let live_n₂ : (b n).freed ≡ false =
      put_keeps (λ (k : Link). k.freed) g m n (set_next (some n) (g m)) refl
      ∙ (freed_kept n ∙ live_n) in
    let seq : (g₀ p).seq_num ≡ (a p).seq_num =
      ap (λ (k : Link). k.seq_num) (put_ne h n p l (omega arith))
      ∙ ap (λ (k : Core). k.packet.seq_num) (t.line.packets p lt) in
    let behind : ltb (a n).seq_num (g₀ p).seq_num ≡ false = ground (arith, seq) in
    let other : ((a n).seq_num == (g₀ p).seq_num) ≡ false = ground (arith, seq) in
    record {
      h = c;
      ss = ended ss s n;
      ends = rw e (
          rw (load-live p (open_queue m g₀ ss) live_p) (
            rw (behind, other)
              (rw (edit-live (set_src_next (some n)) p (open_queue m g₀ ss) live_p) (
                rw (edit-live (set_src_prev (some p)) n (open_queue m g₁ ss) live_n₁) (
                  rw (edit-live (set_next (some n)) m (open_queue m g (ended ss s n)) live_m) (
                    rw (edit-live (set_prev (some m)) n (open_queue m b (ended ss s n)) live_n₂)
                      refl))))));
      arrived = record {
        line =
            append-Line a m h g t.line
              (λ j.
                put_keeps core g₁ n j (set_src_prev (some p) (g₁ n)) refl
                ∙ put_keeps core g₀ p j (set_src_next (some n) (g₀ p)) refl)
              (λ j.
                put_keeps (λ (k : Link). k.next) g₁ n j (set_src_prev (some p) (g₁ n)) refl
                ∙ put_keeps (λ (k : Link). k.next) g₀ p j (set_src_next (some n) (g₀ p)) refl)
              (λ j before.
                rw (put_keeps (λ (k : Link). k.src_next) g₁ n j (set_src_prev (some p) (g₁ n)) refl)
                  (revised-Ahead n p j g₀ lt (added-Ahead a n j h t.line before)));
        lasts = ended_lasts a n ss t.lasts;
      };
    }

pub insert_recv_packet-Grown :
    (a : ℕ → RecvPacket) (n : ℕ) (h : ℕ → Link) (ss : ℕ → Ends)
    → Arrived a n h ss
    → ((j : ℕ) → j < n → (a j).source ≡ (a n).source → (a j).seq_num < (a n).seq_num)
    → Grown a n (insert_recv_packet (queue n h ss) (a n))
unfolding LastOf
insert_recv_packet-Grown a zero h ss t above = elim (Option-cases (ss (a 0).source).last) [
  | inl e ↦ insert_only-first a h ss t e
  | inr found ↦ (let last = rw found.1 at (t.lasts (a 0).source) in absurd (omega (arith, last.0)))
]
insert_recv_packet-Grown a (suc m) h ss t above = elim (Option-cases (ss (a (suc m)).source).last) [
  | inl e ↦ insert_only-next a m h ss t e
  | inr found ↦
      (let last = rw found.1 at (t.lasts (a (suc m)).source) in
        insert_last-next a m found.0 h ss t found.1 last.0 (above found.0 last.0 last.1))
]
