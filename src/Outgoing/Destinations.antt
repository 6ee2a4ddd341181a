-- ===== src/Outgoing/Destinations.antt =====
-- src/outqueue.cpp: the list of destinations.
use ccrtp.Prelude.{◌≡◌, refl, inl, inr, List, [], ◌∷◌, ◌++◌, true, false, arith, Bool-cases}
use ccrtp.Outgoing.{
  SendQueue, Destination, same_destination, remove_first, remove_destination_from_list,
  add_destination_to_list, with_control_port, add_destination, forget_destination,
}

same_destination_refl : (d : Destination) → same_destination d d ≡ true
unfolding same_destination
same_destination_refl d = ground arith

remove_first-last :
    (ds : List Destination) (d : Destination)
    → (remove_first ds d).0 ≡ false
    → remove_first (ds ++ (d ∷ [])) d ≡ (true, ds)
unfolding remove_first
remove_first-last [] d h = rw (same_destination_refl d) refl
remove_first-last (e ∷ ds) d h = elim (Bool-cases (same_destination d e)) [
  | inl s ↦ (let no : true ≡ false = rw s at h in absurd (ground arith))
  | inr s ↦
      (let rest : (remove_first ds d).0 ≡ false = rw s at h in
        rw s (rw (remove_first-last ds d rest) refl))
]

-- Forgetting a destination that was just added, and was not in the list before, succeeds and
-- gives back the list as it was, in its order. A control port of 0 is completed by both alike.
pub forget_destination-add_destination :
    (q : SendQueue) (d : Destination)
    → (remove_first q.destinations (with_control_port d)).0 ≡ false
    → forget_destination (add_destination q d) d ≡ (true, q)
unfolding forget_destination add_destination remove_destination_from_list add_destination_to_list
forget_destination-add_destination q d h =
    rw (remove_first-last q.destinations (with_control_port d) h) refl
