-- ===== src/Gsdml.antt =====
-- pn_logger/app_gsdml.c: the modules, submodules and parameters of the device, and the lookups.
-- The lists that end with 0 in the source are plain lists here.
pub mod Lookup
use pnet2csv.Common.{ℕ, List, [], ◌∷◌, Option, none, some, ◌==◌, if◌then◌else◌}
use pnet2csv.Pnet.{Direction, no_io, output, dap_module, dap_ident, dap_interface, dap_port}

pub record Module : Type 0 where
  pub id : ℕ
  pub submodules : List ℕ

pub record Submodule : Type 0 where
  pub id : ℕ
  pub api : ℕ
  pub data_dir : Direction
  pub insize : ℕ
  pub outsize : ℕ
  pub parameters : List ℕ

pub record Param : Type 0 where
  pub index : ℕ
  pub length : ℕ

-- APP_GSDML_MOD_ID_LOGW64, APP_GSDML_SUBMOD_ID_LOGTS, APP_GSDML_SUBMOD_ID_LOGW64
abbrev pub logw64_module : ℕ
logw64_module = 0x30

abbrev pub logts_submodule : ℕ
logts_submodule = 0x130

abbrev pub logw64_submodule : ℕ
logw64_submodule = 0x131

-- APP_GSDML_TIMESTAMP_SIZE, APP_GSDML_VAR64_DATA_DIGITAL_SIZE
abbrev pub timestamp_size : ℕ
timestamp_size = 12

abbrev pub var64_data_size : ℕ
var64_data_size = 128

unfoldable pub modules : List Module
modules =
    record {
      id = dap_module;
      submodules = dap_ident ∷ dap_port 1 ∷ dap_port 2 ∷ dap_port 3 ∷ dap_port 4 ∷ [];
    }
    ∷ record { id = logw64_module; submodules = logw64_submodule ∷ [] }
    ∷ []

-- A submodule of the access point: no data, no parameters.
abbrev pub dap_submodule : ℕ → Submodule
dap_submodule id = record {
  id = id;
  api = 0;
  data_dir = no_io;
  insize = 0;
  outsize = 0;
  parameters = [];
}

-- A submodule with data from the controller.
abbrev pub log_submodule : ℕ → ℕ → Submodule
log_submodule id size = record {
  id = id;
  api = 0;
  data_dir = output;
  insize = 0;
  outsize = size;
  parameters = [];
}

unfoldable pub submodules : List Submodule
submodules =
    dap_submodule dap_ident
    ∷ dap_submodule dap_interface
    ∷ dap_submodule (dap_port 1)
    ∷ dap_submodule (dap_port 2)
    ∷ dap_submodule (dap_port 3)
    ∷ dap_submodule (dap_port 4)
    ∷ log_submodule logts_submodule timestamp_size
    ∷ log_submodule logw64_submodule var64_data_size
    ∷ []

unfoldable pub parameters : List Param
parameters = []

-- The loop of `app_gsdml_get_module_cfg`.
unfoldable pub find_module : List Module → ℕ → Option Module
find_module [] id = none
find_module (m ∷ ms) id = if m.id == id then some m else find_module ms id

unfoldable pub get_module_cfg : ℕ → Option Module
unfolding modules find_module
get_module_cfg id = find_module modules id

-- The loop of `app_gsdml_get_submodule_cfg`.
unfoldable pub find_submodule : List Submodule → ℕ → Option Submodule
find_submodule [] id = none
find_submodule (s ∷ ss) id = if s.id == id then some s else find_submodule ss id

unfoldable pub get_submodule_cfg : ℕ → Option Submodule
unfolding submodules find_submodule
get_submodule_cfg id = find_submodule submodules id

-- The inner loop of `app_gsdml_get_parameter_cfg`, over all parameters.
unfoldable pub find_parameter : List Param → ℕ → Option Param
find_parameter [] index = none
find_parameter (p ∷ ps) index = if p.index == index then some p else find_parameter ps index

-- Its outer loop, over the parameter indexes of the submodule.
unfoldable pub search_parameter : List ℕ → ℕ → Option Param
unfolding find_parameter parameters
search_parameter [] index = none
search_parameter (i ∷ is) index =
    let rest = search_parameter is index in
    if i == index
    then elim (find_parameter parameters index) [ some p ↦ some p | none ↦ rest ]
    else rest

unfoldable pub get_parameter_cfg : ℕ → ℕ → Option Param
unfolding search_parameter get_submodule_cfg
get_parameter_cfg submodule_id index = elim (get_submodule_cfg submodule_id) [
  | none ↦ none
  | some s ↦ search_parameter s.parameters index
]
