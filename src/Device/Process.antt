-- ===== src/Device/Process.antt =====
-- `app_cyclic_data_callback` and `app_new_data_status_ind` of pn_logger/logger_common.c: the output
-- data of a subslot on its way to the application data.
pub mod Delivery
pub mod Sizes
use pnet2csv.Common.{
  ℕ, zero, suc, ◌+◌, ◌/◌, ◌%◌, List, [], ◌∷◌, Bool, true, false, not, ◌&&◌, ◌||◌, Option, none,
  some, ltb, ◌==◌, if◌then◌else◌, ReturnCode, ok, error,
}
use pnet2csv.Host.{Host}
use pnet2csv.Pnet.{DataCfg, dap_slot, ioxs_bad, ioxs_good}
use pnet2csv.AppData.{AppData, get_input_data, set_output_data, set_default_outputs}
use pnet2csv.Slots.{Subslot}

-- The application data and the static variable `defaults_set` of the callback, which all subslots
-- share.
pub record Process : Type 0 where
  pub app_data : AppData
  pub defaults_set : Bool

-- What `pnet_output_get_data_and_iops` leaves in its parameters, and `pnet_input_get_iocs`.
pub record CyclicAnswers : Type 0 where
  pub outdata : List ℕ
  pub outdata_length : ℕ
  pub outdata_iops : ℕ
  pub indata_iocs : ℕ

-- Outputs that are not good: default values, once.
unfoldable pub default_once : Process → Process
default_once p =
    if p.defaults_set
    then p
    else record { app_data = set_default_outputs p.app_data; defaults_set = true }

-- The part for output data.
unfoldable pub handle_output : Host → CyclicAnswers → Process → Subslot → Process
unfolding default_once
handle_output h a p s =
    if not (a.outdata_length == s.data_cfg.outsize)
    then default_once p
    else (if a.outdata_iops == ioxs_good
        then record {
          app_data =
              (set_output_data h p.app_data s.submodule_id (some a.outdata) a.outdata_length).0;
          defaults_set = false;
        }
        else default_once p)

-- `pnet_input_set_data_and_iops`: slot, subslot, data, size and provider status.
pub record InputCall : Type 0 where
  pub slot_nbr : ℕ
  pub subslot_nbr : ℕ
  pub indata : Option (List ℕ)
  pub size : ℕ
  pub iops : ℕ

-- The input data that the callback sends: `app_data_get_input_data` leaves size and status alone.
unfoldable pub input_call : Subslot → InputCall
input_call s = record {
  slot_nbr = s.slot_nbr;
  subslot_nbr = s.subslot_nbr;
  indata = get_input_data s.submodule_id;
  size = 0;
  iops = ioxs_bad;
}

-- The whole callback.
unfoldable pub cyclic_data_callback :
    Host → CyclicAnswers → Process → Subslot → Process × Subslot × List InputCall
unfolding handle_output input_call
cyclic_data_callback h a p s =
    let outputs = not (s.slot_nbr == dap_slot) && ltb 0 s.data_cfg.outsize in
    let inputs = not (s.slot_nbr == dap_slot) && ltb 0 s.data_cfg.insize in
    let s' = if outputs then record s { outdata_iops = a.outdata_iops } else s in
    (
      if outputs then handle_output h a p s else p,
      if inputs then record s' { indata_iocs = a.indata_iocs } else s',
      if inputs then input_call s ∷ [] else [],
    )

-- A sequence of callbacks for output data, with their answers.
unfoldable pub deliver : Host → Process → List (CyclicAnswers × Subslot) → Process
unfolding cyclic_data_callback
deliver h p [] = p
deliver h p ((a, s) ∷ rest) = deliver h (cyclic_data_callback h a p s).0 rest

-- A bit of the data status.
unfoldable pub has_bit : ℕ → ℕ → Bool
has_bit value zero = value % 2 == 1
has_bit value (suc bit) = has_bit (value / 2) bit

-- PNET_DATA_STATUS_BIT_DATA_VALID, PNET_DATA_STATUS_BIT_PROVIDER_STATE
abbrev pub data_valid_bit : ℕ
data_valid_bit = 2

abbrev pub provider_state_bit : ℕ
provider_state_bit = 4

-- `app_new_data_status_ind`
unfoldable pub new_data_status_ind : AppData → ℕ → AppData
unfolding has_bit
new_data_status_ind d data_status =
    if has_bit data_status provider_state_bit && has_bit data_status data_valid_bit
    then d
    else set_default_outputs d
