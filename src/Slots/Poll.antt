-- ===== src/Slots/Poll.antt =====
-- What a poll of the submodules keeps.
use pnet2csv.Common.{inl, inr, List, [], ◌∷◌, ◌&&◌, Bool-cases}
use pnet2csv.Slots.{Slot, Subslot, poll_subslots, cyclic_data_poll}

-- What a poll's callbacks keep of their state, the poll keeps.
module _ {ℓ} {S : Type ℓ} (callback : S → Subslot → S × Subslot) (P : S → Type 0)
    (keeps : (s : S) (x : Subslot) → P s → P (callback s x).0) where
  poll_subslots-state : (s : S) (ss : List Subslot) → P s → P (poll_subslots callback s ss).0
  unfolding poll_subslots
  poll_subslots-state s [] p = p
  poll_subslots-state s (x ∷ xs) p = elim (Bool-cases (x.plugged && x.cyclic_callback)) [
    | inl called ↦ rw called (poll_subslots-state (callback s x).0 xs (keeps s x p))
    | inr not_called ↦ rw not_called (poll_subslots-state s xs p)
  ]

  pub cyclic_data_poll-state :
      (s : S) (slots : List Slot) → P s → P (cyclic_data_poll callback s slots).0
  unfolding cyclic_data_poll
  cyclic_data_poll-state s [] p = p
  cyclic_data_poll-state s (x ∷ xs) p =
      cyclic_data_poll-state (poll_subslots callback s x.subslots).0 xs
        (poll_subslots-state s x.subslots p)
