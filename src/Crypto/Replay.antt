-- ===== src/Crypto/Replay.antt =====
-- src/CryptoContext.cpp, `checkReplay` and `update`: what the replay window remembers.
use mathlib.Core.Option
use ccrtp.Prelude.{
  ℕ, zero, suc, ◌+◌, ◌-◌, ◌*◌, ◌^◌, ◌≤◌, ◌<◌, ◌≡◌, ◌↔◌, ◌⊎◌, refl, sym, ◌∙◌, ap, List, [], ◌∷◌,
  ◌++◌, Bool, true, false, ◌&&◌, ◌||◌, none, some, leb, ◌==◌, length, get_or, replicate,
  length-append, length-take, length-replicate, get_or-take, get_or-replicate-append_lt,
  get_or-replicate-append_add, arith, Bool-cases, inl, inr, leb→le, take-length,
}
use ccrtp.Crypto.{
  CryptoContext, local_index, guess_roc, guess_index, is_null_policy, shift_left, set_low,
  check_replay, update,
}
use ccrtp.Crypto.Index.{IsContext, HasRoom, guess_index-init, guess_index-context}

-- The window's bit for the packet index `i`.
unfoldable pub seen : CryptoContext → ℕ → Bool
seen c i = leb i (local_index c) && get_or c.replay_window (local_index c - i) false

length-set_low : (w : List Bool) → length (set_low w) ≡ length w
length-set_low [] = refl
length-set_low (b ∷ w) = refl

pub get_or-set_low :
    (w : List Bool) (k : ℕ)
    → 0 < length w
    → get_or (set_low w) k false ≡ (k == 0 || get_or w k false)
get_or-set_low [] k h = absurd (omega arith)
get_or-set_low (b ∷ w) zero h = refl
get_or-set_low (b ∷ w) (suc k) h = ground arith

pub length-shift_left : (d : ℕ) (w : List Bool) → length w ≡ 64 → length (shift_left d w) ≡ 64
unfolding shift_left
length-shift_left d w h = omega (
  arith,
  length-take 64 (replicate d false ++ w),
  length-append (replicate d false) w,
  length-replicate d false,
)

shift_left-lt :
    (d : ℕ) (w : List Bool) (k : ℕ) → k < 64 → k < d → get_or (shift_left d w) k false ≡ false
unfolding shift_left
shift_left-lt d w k h lt =
    get_or-take 64 (replicate d false ++ w) k false h
    ∙ get_or-replicate-append_lt d false w k false lt

shift_left-add :
    (d : ℕ) (w : List Bool) (k : ℕ)
    → d + k < 64
    → get_or (shift_left d w) (d + k) false ≡ get_or w k false
unfolding shift_left
shift_left-add d w k h =
    get_or-take 64 (replicate d false ++ w) (d + k) false h
    ∙ get_or-replicate-append_add d false w k false

-- Each bit of the shifted window, in terms of the old one.
shift_left-bit :
    (d : ℕ) (w : List Bool) (k : ℕ)
    → k < 64
    → get_or (shift_left d w) k false ≡ (leb d k && get_or w (k - d) false)
shift_left-bit d w k h = elim (Bool-cases (leb d k)) [
  | inl e ↦ rw e (
      sym (ap (λ j. get_or (shift_left d w) j false) (omega (arith, leb→le d k)))
      ∙ shift_left-add d w (k - d) (omega (arith, leb→le d k)))
  | inr e ↦ rw e (shift_left-lt d w k h (ground arith))
]

shift_left-zero : (w : List Bool) → length w ≡ 64 → shift_left 0 w ≡ w
unfolding shift_left
shift_left-zero w h = take-length 64 w (omega arith)

-- What a defined `update` leaves behind.
pub record Updated (c : CryptoContext) (guessed : ℕ) (c' : CryptoContext) : Type 0 where
  pub here : local_index c' ≡ guessed
  pub context : IsContext c'
  pub window : c'.replay_window ≡ set_low (shift_left (guessed - local_index c) c.replay_window)
  pub forward : local_index c ≤ guessed
  pub near : guessed - local_index c < 64
  pub policy : is_null_policy c' ≡ is_null_policy c

pub update-Updated :
    (c : CryptoContext) (seq : ℕ) {c' : CryptoContext}
    → IsContext c
    → HasRoom c
    → seq < 2 ^ 16
    → update c seq ≡ some c'
    → Updated c (guess_roc c.roc c.s_l seq * 2 ^ 16 + seq) c'
unfolding update guess_roc
update-Updated c seq v r hq e = ground (
  arith,
  guess_index-context c seq v,
  shift_left-zero c.replay_window,
  length-set_low c.replay_window,
  length-set_low
      (shift_left (guess_roc c.roc c.s_l seq * 2 ^ 16 + seq - local_index c) c.replay_window),
  length-shift_left (guess_roc c.roc c.s_l seq * 2 ^ 16 + seq - local_index c) c.replay_window,
)

-- While the rollover counter has room, an `update` that C defines moves the context's index to
-- the packet's, and a bit of the new window is set exactly when its index is the packet's or was
-- set before.
pub update-seen :
    (c : CryptoContext) (seq i : ℕ) {c' : CryptoContext}
    → IsContext c
    → HasRoom c
    → seq < 2 ^ 16
    → update c seq ≡ some c'
    → i ≤ local_index c'
    → local_index c' - i < 64
    → (local_index c' ≡ (guess_index c seq).0)
      × (seen c' i ≡ (i == (guess_index c seq).0 || seen c i))
unfolding seen
update-seen c seq i {c'} v r hq e le near =
    let g = guess_roc c.roc c.s_l seq * 2 ^ 16 + seq in
    let u = update-Updated c seq v r hq e in
    let d = g - local_index c in
    rw (guess_index-context c seq v) (
      u.here,
      ground (
        arith,
        u,
        get_or-set_low (shift_left d c.replay_window) (g - i),
        length-shift_left d c.replay_window,
        shift_left-bit d c.replay_window (g - i),
      ),
    )

-- The context after a check differs in the guess alone.
pub check_replay-context :
    (c : CryptoContext) (seq : ℕ) {b : Bool} {c' : CryptoContext}
    → IsContext c
    → is_null_policy c ≡ false
    → check_replay c seq ≡ some (b, c')
    → c' ≡ record c { guessed_roc = guess_roc c.roc c.s_l seq }
unfolding check_replay
check_replay-context c seq v p e =
    ground (arith, guess_index-init c seq v, guess_index-context c seq v)

-- With a security policy, the check accepts exactly the indices above the context's own and those
-- among the 64 last ones whose bit is clear, and is undefined exactly 64 below the context's own.
pub check_replay-decides :
    (c : CryptoContext) (seq : ℕ)
    → IsContext c
    → is_null_policy c ≡ false
    → let guessed = (guess_index c seq).0 in
      ((check_replay c seq ≡ none) ↔ (guessed + 64 ≡ local_index c))
      × ((Option.map (λ r. r.0) (check_replay c seq) ≡ some true) ↔ (
          (local_index c < guessed) ⊎ ((local_index c < guessed + 64) × (seen c guessed ≡ false))))
unfolding check_replay seen
check_replay-decides c seq v p =
    rw (guess_index-init c seq v, guess_index-context c seq v)
      ((ground arith, ground arith), (ground arith, ground arith))
