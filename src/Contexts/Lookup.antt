-- ===== src/Contexts/Lookup.antt =====
-- src/incqueue.cpp and src/outqueue.cpp: look-up in the lists of crypto contexts.
use ccrtp.Prelude.{
  ℕ, ◌≡◌, ◌≢◌, refl, ◌∙◌, inl, inr, List, [], ◌∷◌, ◌++◌, false, none, some, ◌==◌, arith, Bool-cases,
}
use ccrtp.Srtp.{SrtpContext}
use ccrtp.Contexts.{
  find, erase, store, remove, ssrc_of, set_in_queue_crypto_context, get_in_queue_crypto_context,
  remove_out_queue_crypto_context, get_out_queue_crypto_context,
}

module _ {ℓ} {A : Type ℓ} (ssrc_of : A → ℕ) where
  -- No SSRC has two contexts.
  unfoldable pub OnePerSource : List A → Type ℓ
  OnePerSource [] = Unit
  OnePerSource (c ∷ cs) = (find ssrc_of cs (ssrc_of c) ≡ none) × OnePerSource cs

  find-erase_ne :
      (cs : List A) (k s : ℕ) → s ≢ k → find ssrc_of (erase ssrc_of cs k) s ≡ find ssrc_of cs s
  unfolding find erase
  find-erase_ne [] k s ne = refl
  find-erase_ne (c ∷ cs) k s ne = elim (Bool-cases (ssrc_of c == k)) [
    | inl e ↦ (let other : (ssrc_of c == s) ≡ false = ground arith in rw (e, other) refl)
    | inr e ↦ rw e (rw (find-erase_ne cs k s ne) refl)
  ]

  find-erase_self :
      (cs : List A) (k : ℕ) → OnePerSource cs → find ssrc_of (erase ssrc_of cs k) k ≡ none
  unfolding find erase OnePerSource
  find-erase_self [] k one = refl
  find-erase_self (c ∷ cs) k one = elim (Bool-cases (ssrc_of c == k)) [
    | inl e ↦ (let same : ssrc_of c ≡ k = ground arith in rw e (rw same at one.0))
    | inr e ↦ rw (e, find-erase_self cs k one.1) (rw e refl)
  ]

  erase-OnePerSource : (cs : List A) (k : ℕ) → OnePerSource cs → OnePerSource (erase ssrc_of cs k)
  unfolding erase OnePerSource
  erase-OnePerSource [] k one = one
  erase-OnePerSource (c ∷ cs) k one = elim (Bool-cases (ssrc_of c == k)) [
    | inl e ↦ rw e one.1
    | inr e ↦
        (let ne : ssrc_of c ≢ k = ground arith in
          rw e (find-erase_ne cs k (ssrc_of c) ne ∙ one.0, erase-OnePerSource cs k one.1))
  ]

  find-last :
      (cs : List A) (c : A)
      → find ssrc_of cs (ssrc_of c) ≡ none
      → find ssrc_of (cs ++ (c ∷ [])) (ssrc_of c) ≡ some c
  unfolding find
  find-last [] c h = ground arith
  find-last (d ∷ cs) c h = elim (Bool-cases (ssrc_of d == ssrc_of c)) [
    | inl e ↦ (let no : some d ≡ none = rw e at h in absurd (ground arith))
    | inr e ↦
        (let rest : find ssrc_of cs (ssrc_of c) ≡ none = rw e at h in
          rw (e, find-last cs c rest) refl)
  ]

  find-last_ne :
      (cs : List A) (c : A) (s : ℕ)
      → s ≢ ssrc_of c
      → find ssrc_of (cs ++ (c ∷ [])) s ≡ find ssrc_of cs s
  unfolding find
  find-last_ne [] c s ne = ground arith
  find-last_ne (d ∷ cs) c s ne = rw (find-last_ne cs c s ne) refl

  last-OnePerSource :
      (cs : List A) (c : A)
      → OnePerSource cs
      → find ssrc_of cs (ssrc_of c) ≡ none
      → OnePerSource (cs ++ (c ∷ []))
  unfolding find OnePerSource
  last-OnePerSource [] c one h = (refl, tt)
  last-OnePerSource (d ∷ cs) c one h = elim (Bool-cases (ssrc_of d == ssrc_of c)) [
    | inl e ↦ (let no : some d ≡ none = rw e at h in absurd (ground arith))
    | inr e ↦
        (let rest : find ssrc_of cs (ssrc_of c) ≡ none = rw e at h in
          let ne : ssrc_of d ≢ ssrc_of c = ground arith in
          (find-last_ne cs c (ssrc_of d) ne ∙ one.0, last-OnePerSource cs c one.1 rest))
  ]

  -- Storing a context keeps one context per SSRC, makes it the one that its SSRC gets, and changes
  -- what no other SSRC gets.
  pub find-store :
      (cs : List A) (c : A)
      → OnePerSource cs
      → OnePerSource (store ssrc_of cs c)
        × (find ssrc_of (store ssrc_of cs c) (ssrc_of c) ≡ some c)
        × ((s : ℕ) → s ≢ ssrc_of c → find ssrc_of (store ssrc_of cs c) s ≡ find ssrc_of cs s)
  unfolding store
  find-store cs c one =
      let gone = find-erase_self cs (ssrc_of c) one in
      (
        last-OnePerSource (erase ssrc_of cs (ssrc_of c)) c (erase-OnePerSource cs (ssrc_of c) one)
            gone,
        find-last (erase ssrc_of cs (ssrc_of c)) c gone,
        λ s ne.
            find-last_ne (erase ssrc_of cs (ssrc_of c)) c s ne ∙ find-erase_ne cs (ssrc_of c) s ne,
      )

  -- Removing a context keeps one context per SSRC, leaves its SSRC without one, and changes what no
  -- other SSRC gets. Removing NULL leaves no context at all.
  pub find-remove :
      (cs : List A) (c : A)
      → OnePerSource cs
      → OnePerSource (remove ssrc_of cs (some c))
        × (find ssrc_of (remove ssrc_of cs (some c)) (ssrc_of c) ≡ none)
        × ((s : ℕ)
            → s ≢ ssrc_of c
            → find ssrc_of (remove ssrc_of cs (some c)) s ≡ find ssrc_of cs s)
        × ((s : ℕ) → find ssrc_of (remove ssrc_of cs none) s ≡ none)
  unfolding remove find
  find-remove cs c one = (
    erase-OnePerSource cs (ssrc_of c) one,
    find-erase_self cs (ssrc_of c) one,
    λ s ne. find-erase_ne cs (ssrc_of c) s ne,
    λ s. refl,
  )

-- Setting a context for incoming packets keeps one context per SSRC, makes it the one that its
-- SSRC gets, and changes what no other SSRC gets.
pub set_in_queue_crypto_context-get :
    (cs : List SrtpContext) (c : SrtpContext)
    → OnePerSource ssrc_of cs
    → OnePerSource ssrc_of (set_in_queue_crypto_context cs c)
      × (get_in_queue_crypto_context (set_in_queue_crypto_context cs c) (ssrc_of c) ≡ some c)
      × ((s : ℕ)
          → s ≢ (ssrc_of c)
          → get_in_queue_crypto_context (set_in_queue_crypto_context cs c) s
            ≡ get_in_queue_crypto_context cs s)
unfolding set_in_queue_crypto_context get_in_queue_crypto_context
set_in_queue_crypto_context-get cs c one = find-store ssrc_of cs c one

-- Removing a context for outgoing packets keeps one context per SSRC, leaves its SSRC without
-- one, and changes what no other SSRC gets. Removing NULL leaves no context at all.
pub remove_out_queue_crypto_context-get :
    (cs : List SrtpContext) (c : SrtpContext)
    → OnePerSource ssrc_of cs
    → OnePerSource ssrc_of (remove_out_queue_crypto_context cs (some c))
      × (get_out_queue_crypto_context (remove_out_queue_crypto_context cs (some c)) (ssrc_of c)
          ≡ none)
      × ((s : ℕ)
          → s ≢ (ssrc_of c)
          → get_out_queue_crypto_context (remove_out_queue_crypto_context cs (some c)) s
            ≡ get_out_queue_crypto_context cs s)
      × ((s : ℕ) → get_out_queue_crypto_context (remove_out_queue_crypto_context cs none) s ≡ none)
unfolding remove_out_queue_crypto_context get_out_queue_crypto_context
remove_out_queue_crypto_context-get cs c one = find-remove ssrc_of cs c one
