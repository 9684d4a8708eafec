-- ===== src/Device/Startup.antt =====
-- `app_set_initial_data_and_ioxs` of pn_logger/logger_common.c: what P-Net is told about every
-- subslot when the controller has finished its parameters.
pub mod Statuses
use pnet2csv.Common.{
  ℕ, List, [], ◌∷◌, ◌++◌, Bool, true, false, not, ◌&&◌, ◌||◌, Option, none, some, ltb, ◌==◌,
  if◌then◌else◌,
}
use pnet2csv.Pnet.{Direction, no_io, input, output, io, DataCfg, dap_slot, ioxs_bad, ioxs_good}
use pnet2csv.AppData.{get_input_data}
use pnet2csv.Slots.{Subslot, Slot}
use pnet2csv.Device.Process.{InputCall}

-- `pnet_input_set_data_and_iops`, or `pnet_output_set_iocs` for a slot and a subslot with a status.
pub data StatusCall : Type 0 where
  input_set : InputCall → StatusCall
  output_set : ℕ → ℕ → ℕ → StatusCall

unfoldable pub is_no_io : Direction → Bool
is_no_io no_io = true
is_no_io input = false
is_no_io output = false
is_no_io io = false

-- The first half of the loop's body, for a subslot that is plugged.
unfoldable pub initial_input : Subslot → List StatusCall
unfolding is_no_io
initial_input s =
    let fetched = not (s.slot_nbr == dap_slot) && ltb 0 s.data_cfg.insize in
    if ltb 0 s.data_cfg.insize || is_no_io s.data_cfg.data_dir
    then input_set (record {
      slot_nbr = s.slot_nbr;
      subslot_nbr = s.subslot_nbr;
      indata = if fetched then get_input_data s.submodule_id else none;
      size = 0;
      iops = if fetched then ioxs_bad else if s.slot_nbr == dap_slot then ioxs_good else ioxs_bad;
    })
      ∷ []
    else []

-- The second half.
unfoldable pub initial_output : Subslot → List StatusCall
initial_output s =
    if ltb 0 s.data_cfg.outsize then output_set s.slot_nbr s.subslot_nbr ioxs_good ∷ [] else []

unfoldable pub initial_subslots : List Subslot → List StatusCall
unfolding initial_input initial_output
initial_subslots [] = []
initial_subslots (s ∷ ss) =
    let rest = initial_subslots ss in
    if s.plugged then initial_input s ++ (initial_output s ++ rest) else rest

unfoldable pub set_initial_data_and_ioxs : List Slot → List StatusCall
unfolding initial_subslots
set_initial_data_and_ioxs [] = []
set_initial_data_and_ioxs (s ∷ slots) =
    initial_subslots s.subslots ++ set_initial_data_and_ioxs slots
