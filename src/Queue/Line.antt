-- ===== src/Queue/Line.antt =====
-- src/incqueue.cpp: links in memory that stand in the order of their pointers.
use ccrtp.Prelude.{
  Option, ℕ, suc, ◌≤◌, ◌<◌, ◌≡◌, ◌≢◌, refl, ◌∙◌, ap, inl, inr, Bool, true, false, none, some, ◌==◌,
  ==_iff, if◌then◌else◌, arith, Bool-cases,
}
use ccrtp.Queue.{Link, RecvPacket, packet_link, put, set_prev, set_next}

-- The packet of a link, and whether it has been deleted.
pub record Core : Type 0 where
  pub packet : RecvPacket
  pub freed : Bool

unfoldable pub core : Link → Core
core l = record {
  packet = record { seq_num = l.seq_num; timestamp = l.timestamp; source = l.source };
  freed = l.freed;
}

pub put_self : {A : Type 0} (h : ℕ → A) (i : ℕ) (v : A) → put h i v i ≡ v
unfolding put
put_self h i v = (let same : (i == i) ≡ true = (==_iff i i).1 refl in rw same refl)

pub put_ne : {A : Type 0} (h : ℕ → A) (i j : ℕ) (v : A) → j ≢ i → put h i v j ≡ h j
unfolding put
put_ne h i j v ne = (let other : (j == i) ≡ false = ground arith in rw other refl)

-- A write that keeps what `f` gives.
pub put_keeps :
    {A B : Type 0} (f : A → B) (h : ℕ → A) (i j : ℕ) (v : A)
    → f v ≡ f (h i)
    → f (put h i v j) ≡ f (h j)
unfolding put
put_keeps f h i j v e = elim (Bool-cases (j == i)) [
  | inl same ↦ rw ((==_iff j i).0 same) (ap f (put_self h i v) ∙ e)
  | inr ne ↦ rw ne refl
]

-- A pointer to a later link of the first `n`, if any.
unfoldable pub Ahead : ℕ → ℕ → Option ℕ → Type 0
Ahead j n none = Unit
Ahead j n (some r) = (j < r) × (r < n)

pub Ahead-suc : (j n : ℕ) (p : Option ℕ) → Ahead j n p → Ahead j (suc n) p
unfolding Ahead
Ahead-suc j n none h = tt
Ahead-suc j n (some r) h = (h.0, omega (arith, h.1))

-- The links of the first `n` packets, each before the one that came next, and before the next one
-- of its source.
pub record Line (a : ℕ → RecvPacket) (n : ℕ) (h : ℕ → Link) : Type 0 where
  pub packets : (j : ℕ) → j < n → core (h j) ≡ core (packet_link (a j))
  pub next : (j : ℕ) → j < n → (h j).next ≡ (if suc j == n then none else some (suc j))
  pub ahead : (j : ℕ) → j < n → Ahead j n (h j).src_next

-- A line with one more link at its end, whatever else happened to the pointers of the sources.
pub append-Line :
    (a : ℕ → RecvPacket) (m : ℕ) (h g : ℕ → Link)
    → Line a (suc m) h
    → ((j : ℕ) → core (g j) ≡ core (put h (suc m) (packet_link (a (suc m))) j))
    → ((j : ℕ) → (g j).next ≡ (put h (suc m) (packet_link (a (suc m))) j).next)
    → ((j : ℕ) → j < suc (suc m) → Ahead j (suc (suc m)) (g j).src_next)
    → (let b = put g m (set_next (some (suc m)) (g m)) in
        Line a (suc (suc m)) (put b (suc m) (set_prev (some m) (b (suc m)))))
unfolding core
append-Line a m h g line same_core same_next ahead =
    let n = suc m in
    let l = packet_link (a n) in
    let b = put g m (set_next (some n) (g m)) in
    let c = put b n (set_prev (some m) (b n)) in
    let kept : (j : ℕ) → core (c j) ≡ core (put h n l j) = λ j.
      put_keeps core b n j (set_prev (some m) (b n)) refl
      ∙ (put_keeps core g m j (set_next (some n) (g m)) refl ∙ same_core j) in
    let as_before : (j : ℕ) → (c j).next ≡ (b j).next =
      λ j. put_keeps (λ (k : Link). k.next) b n j (set_prev (some m) (b n)) refl in
    let same_ahead : (j : ℕ) → (c j).src_next ≡ (g j).src_next = λ j.
      put_keeps (λ (k : Link). k.src_next) b n j (set_prev (some m) (b n)) refl
      ∙ put_keeps (λ (k : Link). k.src_next) g m j (set_next (some n) (g m)) refl in
    record {
      ahead = λ j lt. rw (same_ahead j) (ahead j lt);
      packets = λ j lt. elim (Bool-cases (j == n)) [
        | inl e ↦ rw ((==_iff j n).0 e) (kept n ∙ ap core (put_self h n l))
        | inr e ↦
            (let ne : j ≢ n = ground arith in
              kept j ∙ (ap core (put_ne h n j l ne) ∙ line.packets j (omega arith)))
      ];
      next = λ j lt. as_before j ∙ elim (Bool-cases (j == m)) [
        | inl e ↦
            (let here = (==_iff j m).0 e in
              let goes_on : (suc m == suc n) ≡ false = ground arith in
              rw here
                (rw goes_on (ap (λ (k : Link). k.next) (put_self g m (set_next (some n) (g m))))))
        | inr e ↦
            (let ne : j ≢ m = ground arith in
              ap (λ (k : Link). k.next) (put_ne g m j (set_next (some n) (g m)) ne)
              ∙ (same_next j ∙ elim (Bool-cases (j == n)) [
                | inl last ↦
                    (let ends : (suc n == suc n) ≡ true = ground arith in
                      rw ((==_iff j n).0 last)
                        (rw ends (ap (λ (k : Link). k.next) (put_self h n l))))
                | inr other ↦
                    (let away : j ≢ n = ground arith in
                      let short : (suc j == suc m) ≡ false = ground arith in
                      let long : (suc j == suc n) ≡ false = ground arith in
                      ap (λ (k : Link). k.next) (put_ne h n j l away)
                      ∙ rw long (rw short at (line.next j (omega arith))))
              ]))
      ];
    }

pub single-Line : (a : ℕ → RecvPacket) (h : ℕ → Link) → Line a 1 (put h 0 (packet_link (a 0)))
unfolding Ahead
single-Line a h = record {
  ahead = λ j lt.
      (let here : j ≡ 0 = omega arith in
        rw here (rw (ap (λ (k : Link). k.src_next) (put_self h 0 (packet_link (a 0)))) tt));
  packets = λ j lt. (let here : j ≡ 0 = omega arith in rw here (ap core (put_self h 0 _)));
  next = λ j lt.
      (let here : j ≡ 0 = omega arith in
        rw here (ap (λ (k : Link). k.next) (put_self h 0 (packet_link (a 0)))));
}

-- No link of the line, nor the one that is added to it, has been deleted.
pub Line-live :
    (a : ℕ → RecvPacket) (n j : ℕ) (h : ℕ → Link)
    → Line a n h
    → j ≤ n
    → (put h n (packet_link (a n)) j).freed ≡ false
unfolding core
Line-live a n j h line le =
    let l = packet_link (a n) in
    elim (Bool-cases (j == n)) [
      | inl e ↦ rw ((==_iff j n).0 e) (ap (λ (k : Link). k.freed) (put_self h n l))
      | inr e ↦
          (let ne : j ≢ n = ground arith in
            ap (λ (k : Link). k.freed) (put_ne h n j l ne)
            ∙ ap (λ (c : Core). c.freed) (line.packets j (ground arith)))
    ]

-- The link that is added has no next one of its source yet.
pub added-Ahead :
    (a : ℕ → RecvPacket) (n j : ℕ) (h : ℕ → Link)
    → Line a n h
    → j < suc n
    → Ahead j (suc n) (put h n (packet_link (a n)) j).src_next
unfolding Ahead
added-Ahead a n j h line lt =
    let l = packet_link (a n) in
    elim (Bool-cases (j == n)) [
      | inl e ↦ rw ((==_iff j n).0 e) (rw (ap (λ (k : Link). k.src_next) (put_self h n l)) tt)
      | inr e ↦
          (let ne : j ≢ n = ground arith in
            rw (ap (λ (k : Link). k.src_next) (put_ne h n j l ne))
              (Ahead-suc j n (h j).src_next (line.ahead j (ground arith))))
    ]
