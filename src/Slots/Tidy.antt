-- ===== src/Slots/Tidy.antt =====
-- The table stays tidy: a subslot that is not used is as `memset` left it.
use pnet2csv.Common.{
  ℕ, zero, suc, ◌≡◌, ◌⊎◌, refl, inl, inr, List, [], ◌∷◌, Bool, true, false, ◌&&◌, leb, set, All,
  Bool-cases, Option-cases, ap, ◌∙◌,
}
use pnet2csv.Pnet.{DataCfg, max_slots, max_subslots}
use pnet2csv.Slots.{
  Subslot, Slot, free_subslot, change, plug_module, pull_module, subslots_of, free_index,
  plugged_subslot, plug_submodule, pull_submodule, subslot_get, poll_subslots, cyclic_data_poll,
}
use pnet2csv.Slots.Table.{IsTidy}

-- Every slot is tidy.
abbrev pub IsTidyTable : List Slot → Type 0
IsTidyTable = All (λ s. IsTidy s.subslots)

set-IsTidy :
    (ss : List Subslot) (i : ℕ) (v : Subslot)
    → (v.used ≡ true) ⊎ (v ≡ free_subslot)
    → IsTidy ss
    → IsTidy (set ss i v)
set-IsTidy [] i v h tidy = tt
set-IsTidy (s ∷ ss) zero v h (t, tidy) = (h, tidy)
set-IsTidy (s ∷ ss) (suc i) v h (t, tidy) = (t, set-IsTidy ss i v h tidy)

change-IsTidyTable :
    (slots : List Slot) (n : ℕ) (f : Slot → Slot)
    → ((s : Slot) → IsTidy s.subslots → IsTidy (f s).subslots)
    → IsTidyTable slots
    → IsTidyTable (change slots n f)
unfolding change
change-IsTidyTable [] n f h tidy = tt
change-IsTidyTable (s ∷ slots) zero f h (t, tidy) = (h s t, tidy)
change-IsTidyTable (s ∷ slots) (suc n) f h (t, tidy) = (t, change-IsTidyTable slots n f h tidy)

module _ (slots : List Slot) (tidy : IsTidyTable slots) (n : ℕ) where
  pub plug_module-IsTidyTable : (id : ℕ) → IsTidyTable (plug_module slots n id).0
  unfolding plug_module
  plug_module-IsTidyTable id =
      let changed =
        change-IsTidyTable slots n (λ s. record s { module_id = id; plugged = true }) (λ s t. t)
          tidy in
      elim (Bool-cases (leb max_slots n)) [ inl e ↦ rw e tidy | inr e ↦ rw e changed ]

  pub pull_module-IsTidyTable : IsTidyTable (pull_module slots n).0
  unfolding pull_module
  pull_module-IsTidyTable =
      let changed =
        change-IsTidyTable slots n (λ s. record s { plugged = false }) (λ s t. t) tidy in
      elim (Bool-cases (leb max_slots n)) [ inl e ↦ rw e tidy | inr e ↦ rw e changed ]

  stored :
      (i : ℕ) (v : Subslot)
      → (v.used ≡ true) ⊎ (v ≡ free_subslot)
      → IsTidyTable (change slots n (λ s. record s { subslots = set s.subslots i v }))
  stored i v h =
      change-IsTidyTable slots n (λ s. record s { subslots = set s.subslots i v })
        (λ s t. set-IsTidy s.subslots i v h t) tidy

  pub plug_submodule-IsTidyTable :
      (m id : ℕ) (cfg : DataCfg) (cb : Bool) → IsTidyTable (plug_submodule slots n m id cfg cb).0
  unfolding plug_submodule
  plug_submodule-IsTidyTable m id cfg cb = elim (Bool-cases (leb max_slots n)) [
    | inl e ↦ rw e tidy
    | inr e ↦ elim (Option-cases (free_index (subslots_of slots n))) [
      | inl full ↦ rw (e, full) tidy
      | inr (i, found) ↦ rw (e, found) (stored i (plugged_subslot n m id cfg cb) (inl refl))
    ]
  ]

  pub pull_submodule-IsTidyTable : (m : ℕ) → IsTidyTable (pull_submodule slots n m).0
  unfolding pull_submodule
  pull_submodule-IsTidyTable m = elim (Bool-cases (leb max_subslots n)) [
    | inl e ↦ rw e tidy
    | inr e ↦ elim (Option-cases (subslot_get slots n m)) [
      | inl absent ↦ rw (e, absent) tidy
      | inr (i, found) ↦ rw (e, found) (stored i free_subslot (inr refl))
    ]
  ]

-- A poll whose callback keeps the flag `used` keeps the table tidy, since it is not called for a
-- subslot that is not plugged.
module _ {ℓ} {S : Type ℓ} (callback : S → Subslot → S × Subslot)
    (keeps : (s : S) (x : Subslot) → (callback s x).1.used ≡ x.used) where
  poll_subslots-IsTidy :
      (s : S) (ss : List Subslot) → IsTidy ss → IsTidy (poll_subslots callback s ss).1
  unfolding poll_subslots
  poll_subslots-IsTidy s [] tidy = tt
  poll_subslots-IsTidy s (x ∷ xs) (t, tidy) = elim (Bool-cases (x.plugged && x.cyclic_callback)) [
    | inl called ↦ rw called (kept called t, poll_subslots-IsTidy (callback s x).0 xs tidy)
    | inr not_called ↦ rw not_called (t, poll_subslots-IsTidy s xs tidy)
  ]
    where
      kept :
          (x.plugged && x.cyclic_callback) ≡ true
          → (x.used ≡ true) ⊎ (x ≡ free_subslot)
          → ((callback s x).1.used ≡ true) ⊎ ((callback s x).1 ≡ free_subslot)
      kept called (inl u) = inl (keeps s x ∙ u)
      kept called (inr free) = absurd (cc (called, ap (λ y. y.plugged && y.cyclic_callback) free))

  pub cyclic_data_poll-IsTidyTable :
      (s : S) (slots : List Slot)
      → IsTidyTable slots
      → IsTidyTable (cyclic_data_poll callback s slots).1
  unfolding cyclic_data_poll
  cyclic_data_poll-IsTidyTable s [] tidy = tt
  cyclic_data_poll-IsTidyTable s (x ∷ xs) (t, tidy) = (
    poll_subslots-IsTidy s x.subslots t,
    cyclic_data_poll-IsTidyTable (poll_subslots callback s x.subslots).0 xs tidy,
  )
