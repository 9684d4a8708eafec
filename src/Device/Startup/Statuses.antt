-- ===== src/Device/Startup/Statuses.antt =====
-- Which statuses are set.
use pnet2csv.Common.{
  ◌≡◌, ◌≢◌, ◌⊎◌, inl, inr, List, [], ◌∷◌, ◌++◌, none, arith, ◌==◌, All, Bool-cases,
}
use pnet2csv.Pnet.{dap_slot, ioxs_bad, ioxs_good}
use pnet2csv.AppData.{get_input_data}
use pnet2csv.Slots.{Subslot, Slot}
use pnet2csv.Device.Startup.{
  StatusCall, input_set, output_set, initial_input, initial_output, initial_subslots,
  set_initial_data_and_ioxs,
}

-- Input data is never sent, its status is good for the access point and bad for any other slot; the
-- status of output data is good.
abbrev pub IsHonest : StatusCall → Type 0
IsHonest (input_set c) =
    (c.indata ≡ none)
    × (((c.iops ≡ ioxs_good) × (c.slot_nbr ≡ dap_slot))
        ⊎ ((c.iops ≡ ioxs_bad) × (c.slot_nbr ≢ dap_slot)))
IsHonest (output_set slot subslot iocs) = iocs ≡ ioxs_good

All-append :
    (P : StatusCall → Type 0) (xs ys : List StatusCall) → All P xs → All P ys → All P (xs ++ ys)
All-append P [] ys h k = k
All-append P (x ∷ xs) ys (p, h) k = (p, All-append P xs ys h k)

initial_input-IsHonest : (s : Subslot) → All IsHonest (initial_input s)
unfolding initial_input get_input_data
initial_input-IsHonest s = elim (Bool-cases (s.slot_nbr == dap_slot)) [
  | inl e ↦ ground arith
  | inr e ↦ ground arith
]

initial_output-IsHonest : (s : Subslot) → All IsHonest (initial_output s)
unfolding initial_output
initial_output-IsHonest s = ground arith

initial_subslots-IsHonest : (ss : List Subslot) → All IsHonest (initial_subslots ss)
unfolding initial_subslots
initial_subslots-IsHonest [] = tt
initial_subslots-IsHonest (s ∷ ss) =
    let rest = initial_subslots-IsHonest ss in
    let both =
      All-append IsHonest (initial_input s) (initial_output s ++ initial_subslots ss)
        (initial_input-IsHonest s)
        (All-append IsHonest (initial_output s) (initial_subslots ss) (initial_output-IsHonest s)
          rest) in
    elim (Bool-cases s.plugged) [ inl e ↦ rw e both | inr e ↦ rw e rest ]

-- Whatever is plugged, the device sends no input data, gives its input status as good for the access
-- point only, and every status of output data as good.
pub set_initial_data_and_ioxs-IsHonest :
    (slots : List Slot) → All IsHonest (set_initial_data_and_ioxs slots)
unfolding set_initial_data_and_ioxs
set_initial_data_and_ioxs-IsHonest [] = tt
set_initial_data_and_ioxs-IsHonest (s ∷ slots) =
    All-append IsHonest (initial_subslots s.subslots) (set_initial_data_and_ioxs slots)
      (initial_subslots-IsHonest s.subslots) (set_initial_data_and_ioxs-IsHonest slots)
