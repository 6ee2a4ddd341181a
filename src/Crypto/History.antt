-- ===== src/Crypto/History.antt =====
-- src/CryptoContext.cpp, `checkReplay` followed by `update`, as src/rtppkt.cpp calls them for each
-- packet that authenticates: whole runs of a receiver, and the packets that C leaves undefined.
use mathlib.Core.Option
use mathlib.Core.List.{Memᴰ}
use mathlib.Core.List.Memᴰ.{head, tail}
use ccrtp.Prelude.{
  ◌⊎◌, ◌↔◌, ap, Bool-cases, Option-cases, inl, inr, ℕ, ◌+◌, ◌-◌, ◌*◌, ◌^◌, ◌≤◌, ◌<◌, ◌≡◌, ◌∙◌, ◌==◌,
  ◌||◌, List, [], ◌∷◌, true, false, none, some, arith,
}
use ccrtp.Crypto.{
  CryptoContext, local_index, guess_roc, guess_index, is_null_policy, check_replay, update,
}
use ccrtp.Crypto.Index.{IsContext, HasRoom, guess_index-context, guess_index-init}
use ccrtp.Crypto.Replay.{
  seen, check_replay-context, check_replay-decides, update-seen, update-Updated, Updated,
}

-- A receiver that started in `c₀` has accepted the packets with these indices, the last one
-- first, and stands in the given context. Each packet passed the check, then moved the window.
pub data Accepts (c₀ : CryptoContext) : List ℕ → CryptoContext → Type 0 where
  start : Accepts c₀ [] c₀
  next :
      {is : List ℕ} {c c₁ c₂ : CryptoContext} (seq : ℕ)
      → Accepts c₀ is c
      → HasRoom c
      → seq < 2 ^ 16
      → check_replay c seq ≡ some (true, c₁)
      → update c₁ seq ≡ some c₂
      → Accepts c₀ ((guess_index c seq).0 ∷ is) c₂

-- The context knows of each index: it lies behind the window, or its bit is set.
abbrev Remembers : CryptoContext → List ℕ → Type 0
Remembers c [] = Unit
Remembers c (i ∷ is) =
    (i ≤ local_index c) × (local_index c - i < 64 → seen c i ≡ true) × Remembers c is

Remembers-mono :
    (c c' : CryptoContext) (is : List ℕ)
    → local_index c ≤ local_index c'
    → ((i : ℕ) → i ≤ local_index c → local_index c' - i < 64 → seen c i ≡ true → seen c' i ≡ true)
    → Remembers c is
    → Remembers c' is
Remembers-mono c c' [] le keep r = tt
Remembers-mono c c' (i ∷ is) le keep r =
    (omega arith, λ near. keep i r.0 near (r.1 (omega arith)), Remembers-mono c c' is le keep r.2)

record Run (is : List ℕ) (c : CryptoContext) : Type 0 where
  context : IsContext c
  policy : is_null_policy c ≡ false
  memory : Remembers c is

module _ (c : CryptoContext) (seq : ℕ) (v : IsContext c) (hq : seq < 2 ^ 16) where
  guessed : CryptoContext
  guessed = record c { guessed_roc = guess_roc c.roc c.s_l seq }

  index : ℕ
  index = guess_roc c.roc c.s_l seq * 2 ^ 16 + seq

  guess_index-index : (guess_index c seq).0 ≡ index
  unfolding index
  guess_index-index = rw (guess_index-context c seq v)

  guess_index-guessed : (guess_index guessed seq).0 ≡ index
  unfolding index guessed
  guess_index-guessed = rw (
      guess_index-context guessed seq
        (record { roc = v.roc; s_l = v.s_l; started = v.started; window = v.window }))

  module _ (room : HasRoom c) {c₂ : CryptoContext} (upd : update guessed seq ≡ some c₂) where
    updated : Updated c index c₂
    unfolding index guessed
    updated =
        let u =
          update-Updated guessed seq
            (record { roc = v.roc; s_l = v.s_l; started = v.started; window = v.window })
            (record { low = room.low; high = room.high }) hq upd in
        record {
          here = u.here;
          context = u.context;
          window = u.window;
          forward = u.forward;
          near = u.near;
          policy = u.policy;
        }

    updated-seen : (i : ℕ) → i ≤ index → index - i < 64 → seen c₂ i ≡ (i == index || seen c i)
    unfolding guessed seen
    updated-seen i le near =
        let t =
          update-seen guessed seq i
            (record { roc = v.roc; s_l = v.s_l; started = v.started; window = v.window })
            (record { low = room.low; high = room.high }) hq upd (omega (arith, updated.here))
            (omega (arith, updated.here)) in
        rw (← guess_index-guessed) t.1

    accept-Run : (is : List ℕ) → Run is c → Run (index ∷ is) c₂
    accept-Run is run = record {
      context = updated.context;
      policy = updated.policy ∙ run.policy;
      memory = (
        omega (arith, updated.here),
        λ near. ground (arith, updated.here, updated-seen index),
        Remembers-mono c c₂ is (omega (arith, updated.here, updated.forward))
            (λ i le near old. ground (arith, updated.here, updated.forward, updated-seen i))
            run.memory,
      );
    }

Accepts-Run :
    {c₀ c : CryptoContext} {is : List ℕ}
    → IsContext c₀
    → is_null_policy c₀ ≡ false
    → Accepts c₀ is c
    → Run is c
unfolding guessed
Accepts-Run v p start = record { context = v; policy = p; memory = tt }
Accepts-Run v p (next {c = c} seq before room hq chk upd) =
    let run = Accepts-Run v p before in
    let e = check_replay-context c seq run.context run.policy chk in
    rw (guess_index-index c seq run.context hq)
      (accept-Run c seq run.context hq room (rw e at upd) _ run)

Remembers-Memᴰ :
    (c : CryptoContext) {i : ℕ} (is : List ℕ)
    → Remembers c is
    → Memᴰ i is
    → (i ≤ local_index c) × (local_index c - i < 64 → seen c i ≡ true)
Remembers-Memᴰ c [] r m = elim m [ ]
Remembers-Memᴰ c (j ∷ js) r (head e) = rw e (r.0, r.1)
Remembers-Memᴰ c (j ∷ js) r (tail m) = Remembers-Memᴰ c js r.2 m

-- What the check says of an index that the context knows.
refused :
    (c : CryptoContext) (seq : ℕ)
    → let guessed = (guess_index c seq).0 in
      (guessed ≤ local_index c) × (local_index c - guessed < 64 → seen c guessed ≡ true)
      → ((check_replay c seq ≡ none) ↔ (guessed + 64 ≡ local_index c))
        × ((Option.map (λ r. r.0) (check_replay c seq) ≡ some true) ↔ (
            (local_index c < guessed)
            ⊎ ((local_index c < guessed + 64) × (seen c guessed ≡ false))))
      → (Option.map (λ r. r.0) (check_replay c seq) ≡ some false)
        ⊎ ((check_replay c seq ≡ none) × (guessed + 64 ≡ local_index c))
refused c seq known decides = elim (Option-cases (check_replay c seq)) [
  | inl e ↦ inr (e, decides.0.0 e)
  | inr (r, e) ↦ elim (Bool-cases r.0) [
    | inl t ↦ absurd (ground (arith, known, decides.1.0 (rw e (ap some t))))
    | inr f ↦ inl (rw e (ap some f))
  ]
]

-- Take a receiver with a security policy that has accepted any number of packets, the rollover
-- counter having room at each, and each recorded by a shift of the window that C defines, so that none
-- came late. It refuses every packet whose index, as it guesses it, is that of one of them, however
-- far that one lies behind, or its check is undefined, exactly 64 behind.
pub Accepts-refuses :
    {c₀ c : CryptoContext} {is : List ℕ} (seq : ℕ)
    → IsContext c₀
    → is_null_policy c₀ ≡ false
    → Accepts c₀ is c
    → Memᴰ (guess_index c seq).0 is
    → (Option.map (λ r. r.0) (check_replay c seq) ≡ some false)
      ⊎ ((check_replay c seq ≡ none) × ((guess_index c seq).0 + 64 ≡ local_index c))
Accepts-refuses {c = c} seq v p a m =
    let run = Accepts-Run v p a in
    let (below, kept) = Remembers-Memᴰ c _ run.memory m in
    refused c seq (below, kept) (check_replay-decides c seq run.context run.policy)

-- A packet behind the context's own index that passes the check cannot be recorded: the shift in
-- `update` has a negative count, so the window is left undefined.
pub update-late :
    (c : CryptoContext) (seq : ℕ) {c' : CryptoContext}
    → IsContext c
    → is_null_policy c ≡ false
    → (guess_index c seq).0 < local_index c
    → check_replay c seq ≡ some (true, c')
    → update c' seq ≡ none
unfolding update
update-late c seq v p late chk =
    let v' : IsContext (record c { guessed_roc = guess_roc c.roc c.s_l seq }) = record {
      roc = v.roc;
      s_l = v.s_l;
      started = v.started;
      window = v.window;
    } in
    let e = guess_index-context (record c { guessed_roc = guess_roc c.roc c.s_l seq }) seq v' in
    rw (check_replay-context c seq v p chk) (ground (arith, e, guess_index-context c seq v))

-- With rollover counter 0, a packet that precedes sequence number 0 is guessed to have the
-- greatest counter of all: the check accepts it as newer than every packet, and recording it
-- shifts the window by an undefined count.
pub check_replay-before_first :
    (c : CryptoContext) (seq : ℕ)
    → IsContext c
    → is_null_policy c ≡ false
    → c.roc ≡ 0
    → c.s_l + 2 ^ 15 < seq
    → seq < 2 ^ 16
    → (Option.map (λ r. r.0) (check_replay c seq) ≡ some true)
      × ((guess_index c seq).0 ≡ (2 ^ 32 - 1) * 2 ^ 16 + seq)
      × (update c seq ≡ none)
unfolding check_replay update guess_roc
check_replay-before_first c seq v p r lt hq =
    rw (guess_index-init c seq v, guess_index-context c seq v)
      (ground arith, ground arith, ground arith)
