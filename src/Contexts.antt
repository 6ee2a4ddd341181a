-- ===== src/Contexts.antt =====
-- src/incqueue.cpp and src/outqueue.cpp: the lists of crypto contexts of a session.
pub mod Lookup
pub mod Create
mod Tests
use ccrtp.Prelude.{ℕ, List, [], ◌∷◌, ◌++◌, Option, none, some, ◌==◌, if◌then◌else◌}
use ccrtp.Srtp.{SrtpContext}

-- The lists, for any kind of context with its SSRC.
module _ {ℓ} {A : Type ℓ} (ssrc_of : A → ℕ) where
  -- The first context with the given SSRC.
  unfoldable pub find : List A → ℕ → Option A
  find [] ssrc = none
  find (c ∷ cs) ssrc = let rest = find cs ssrc in if ssrc_of c == ssrc then some c else rest

  -- Erases the first context with the given SSRC.
  unfoldable pub erase : List A → ℕ → List A
  erase [] ssrc = []
  erase (c ∷ cs) ssrc = let rest = erase cs ssrc in if ssrc_of c == ssrc then cs else c ∷ rest

  -- A new context takes the place of one with its SSRC.
  unfoldable pub store : List A → A → List A
  store contexts cc = erase contexts (ssrc_of cc) ++ (cc ∷ [])

  -- NULL removes all contexts.
  unfoldable pub remove : List A → Option A → List A
  remove contexts none = []
  remove contexts (some cc) = erase contexts (ssrc_of cc)

abbrev pub ssrc_of : SrtpContext → ℕ
ssrc_of c = c.state.ssrc

-- The incoming queue.
unfoldable pub set_in_queue_crypto_context : List SrtpContext → SrtpContext → List SrtpContext
set_in_queue_crypto_context contexts cc = store ssrc_of contexts cc

unfoldable pub remove_in_queue_crypto_context :
    List SrtpContext → Option SrtpContext → List SrtpContext
remove_in_queue_crypto_context contexts cc = remove ssrc_of contexts cc

unfoldable pub get_in_queue_crypto_context : List SrtpContext → ℕ → Option SrtpContext
get_in_queue_crypto_context contexts ssrc = find ssrc_of contexts ssrc

-- The outgoing queue.
unfoldable pub set_out_queue_crypto_context : List SrtpContext → SrtpContext → List SrtpContext
set_out_queue_crypto_context contexts cc = store ssrc_of contexts cc

unfoldable pub remove_out_queue_crypto_context :
    List SrtpContext → Option SrtpContext → List SrtpContext
remove_out_queue_crypto_context contexts cc = remove ssrc_of contexts cc

unfoldable pub get_out_queue_crypto_context : List SrtpContext → ℕ → Option SrtpContext
get_out_queue_crypto_context contexts ssrc = find ssrc_of contexts ssrc
