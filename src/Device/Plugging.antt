-- ===== src/Device/Plugging.antt =====
-- `app_exp_module_ind`, `app_exp_submodule_ind` and `app_plug_dap` of pn_logger/logger_common.c.
-- What the calls of P-Net answer is a parameter; the calls themselves are listed, in order.
pub mod Known
use pnet2csv.Common.{
  ℕ, zero, suc, ◌+◌, List, [], ◌∷◌, ◌++◌, Bool, true, false, ◌||◌, Option, none, some, leb, ltb,
  if◌then◌else◌, ReturnCode, ok, error,
}
use pnet2csv.Pnet.{
  Direction, no_io, DataCfg, max_slots, dap_slot, dap_module, dap_ident, dap_interface, dap_port,
}
use pnet2csv.Gsdml.{Submodule, get_submodule_cfg}
use pnet2csv.Slots.{Slot, plug_module, pull_module, plug_submodule, pull_submodule}

-- `pnet_pull_module`, `pnet_plug_module`, `pnet_pull_submodule`, `pnet_plug_submodule`
pub data PnetCall : Type 0 where
  module_pulled : ℕ → PnetCall
  module_plugged : ℕ → ℕ → PnetCall
  submodule_pulled : ℕ → ℕ → PnetCall
  submodule_plugged : ℕ → ℕ → ℕ → ℕ → DataCfg → PnetCall

-- What is done if a call of P-Net succeeded.
abbrev pub when_ok {ℓ} : {A : Type ℓ} → ReturnCode → A → A → A
when_ok ok done before = done
when_ok error done before = before

-- The answers to a pull and to the plug after it.
pub record PlugAnswers : Type 0 where
  pub pull : ReturnCode
  pub plug : ReturnCode

pub record Plugging : Type 0 where
  pub slots : List Slot
  pub calls : List PnetCall
  pub code : ReturnCode

unfoldable pub exp_module_ind : PlugAnswers → List Slot → ℕ → ℕ → Plugging
exp_module_ind a slots slot module_ident =
    if leb max_slots slot
    then record { slots = slots; calls = []; code = error }
    else (let pulled = when_ok a.pull ((pull_module slots slot).0) slots in
        record {
          slots = when_ok a.plug ((plug_module pulled slot module_ident).0) pulled;
          calls = module_pulled slot ∷ module_plugged slot module_ident ∷ [];
          code = a.plug;
        })

-- The configuration of a submodule, or the expected one where the device does not know it.
unfoldable pub chosen_cfg : Option Submodule → DataCfg → DataCfg
chosen_cfg none exp_data = exp_data
chosen_cfg (some s) exp_data = record {
  data_dir = s.data_dir;
  insize = s.insize;
  outsize = s.outsize;
}

-- Only a submodule with data that the device knows gets a callback.
unfoldable pub has_callback : Option Submodule → Bool
has_callback none = false
has_callback (some s) = ltb 0 s.insize || ltb 0 s.outsize

unfoldable pub exp_submodule_ind : PlugAnswers → List Slot → ℕ → ℕ → ℕ → ℕ → DataCfg → Plugging
exp_submodule_ind a slots slot subslot module_id submodule_id exp_data =
    let submod_cfg = get_submodule_cfg submodule_id in
    let data_cfg = chosen_cfg submod_cfg exp_data in
    let pulled = when_ok a.pull ((pull_submodule slots slot subslot).0) slots in
    record {
      slots =
          when_ok a.plug
            ((plug_submodule pulled slot subslot submodule_id data_cfg (has_callback submod_cfg)).0)
            pulled;
      calls =
          submodule_pulled slot subslot
          ∷ submodule_plugged slot subslot module_id submodule_id data_cfg
          ∷ [];
      code = a.plug;
    }

abbrev pub dap_data : DataCfg
dap_data = record { data_dir = no_io; insize = 0; outsize = 0 }

-- The submodules of the access point that `app_plug_dap` plugs, by their numbers, for so many ports.
unfoldable pub dap_submodules : ℕ → List ℕ
dap_submodules ports =
    dap_ident
    ∷ dap_interface
    ∷ dap_port 1
    ∷ ((if leb 2 ports then dap_port 2 ∷ [] else [])
        ++ ((if leb 3 ports then dap_port 3 ∷ [] else [])
            ++ (if leb 4 ports then dap_port 4 ∷ [] else [])))

-- The indications for a list of them; each has its answers.
unfoldable pub plug_dap_submodules :
    (ℕ → PlugAnswers) → List Slot → List ℕ → List Slot × List PnetCall
plug_dap_submodules answers slots [] = (slots, [])
plug_dap_submodules answers slots (n ∷ ns) =
    let p = exp_submodule_ind (answers n) slots dap_slot n dap_module n dap_data in
    let (slots', calls) = plug_dap_submodules answers p.slots ns in (slots', p.calls ++ calls)

-- `app_plug_dap`: the answers for the module, and for each submodule.
unfoldable pub plug_dap :
    PlugAnswers → (ℕ → PlugAnswers) → List Slot → ℕ → List Slot × List PnetCall
plug_dap module_answers answers slots number_of_ports =
    let p = exp_module_ind module_answers slots dap_slot dap_module in
    let (slots', calls) = plug_dap_submodules answers p.slots (dap_submodules number_of_ports) in
    (slots', p.calls ++ calls)
