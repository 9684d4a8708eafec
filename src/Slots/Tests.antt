-- ===== src/Slots/Tests.antt =====
-- The table of slots at concrete inputs.
use pnet2csv.Common.{ℕ, ◌≡◌, refl, inr, List, some, true, arith, ok, error}
use pnet2csv.Pnet.{DataCfg, output}
use pnet2csv.Slots.{
  Slot, free_slots, plug_submodule, pull_submodule, subslot_get, subslots_of, free_index,
  number_index, change,
}
use pnet2csv.Slots.Table.{pull_submodule-plug_submodule, pull_submodule-plug_submodule_high}

abbrev data_cfg : DataCfg
data_cfg = record { data_dir = output; insize = 0; outsize = 128 }

-- Subslot 1 of a slot, in an empty table.
abbrev plugged_at : ℕ → List Slot
plugged_at n = (plug_submodule free_slots n 1 0x131 data_cfg true).0

pull_submodule-plug_submodule_example : pull_submodule (plugged_at 2) 2 1 ≡ (free_slots, ok)
unfolding subslots_of subslot_get plug_submodule free_index number_index change
pull_submodule-plug_submodule_example =
    pull_submodule-plug_submodule free_slots 2 1 0x131 data_cfg true {slots' = plugged_at 2} {i = 0}
      (inr refl, (inr refl, (inr refl, tt))) refl (omega arith) refl

pull_submodule-plug_submodule_high_example :
    (pull_submodule (plugged_at 3) 3 1 ≡ (plugged_at 3, error))
    × (subslot_get (plugged_at 3) 3 1 ≡ some 0)
unfolding subslots_of subslot_get plug_submodule free_index number_index change
pull_submodule-plug_submodule_high_example =
    pull_submodule-plug_submodule_high free_slots 3 1 0x131 data_cfg true {slots' = plugged_at 3}
      {i = 0} (inr refl, (inr refl, (inr refl, tt))) refl (omega arith) refl
