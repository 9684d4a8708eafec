-- ===== src/Pnet.antt =====
-- Names of include/pnet_api.h and of the build's default options that the application uses: its
-- own numbers for slots, subslots, modules and submodules, and the values of enumerations.
use pnet2csv.Common.{ℕ, ◌+◌, Bool}

-- `pnet_submodule_dir_t`
pub data Direction : Type 0 where
  no_io input output io : Direction

-- `pnet_ioxs_values_t`; a status from the controller may be any other byte too.
abbrev pub ioxs_bad : ℕ
ioxs_bad = 0x00

abbrev pub ioxs_good : ℕ
ioxs_good = 0x80

-- `pnet_event_values_t`
pub data ArEvent : Type 0 where
  abort startup prmend applrdy transfer : ArEvent

-- PNET_MAX_SLOTS, PNET_MAX_SUBSLOTS, PNET_MAX_PHYSICAL_PORTS (CMakeLists.txt)
abbrev pub max_slots : ℕ
max_slots = 5

abbrev pub max_subslots : ℕ
max_subslots = 3

abbrev pub max_physical_ports : ℕ
max_physical_ports = 1

-- PNET_SLOT_DAP_IDENT, PNET_MOD_DAP_IDENT
abbrev pub dap_slot : ℕ
dap_slot = 0

abbrev pub dap_module : ℕ
dap_module = 1

-- The submodule numbers of the access point; in slot 0 they are the subslot numbers too.
abbrev pub dap_ident : ℕ
dap_ident = 1

abbrev pub dap_interface : ℕ
dap_interface = 0x8000

abbrev pub dap_port : ℕ → ℕ
dap_port n = 0x8000 + n

-- `pnet_data_cfg_t`
pub record DataCfg : Type 0 where
  pub data_dir : Direction
  pub insize : ℕ
  pub outsize : ℕ

-- `pnet_pnio_status_t`
pub record PnioStatus : Type 0 where
  pub error_code : ℕ
  pub error_decode : ℕ
  pub error_code_1 : ℕ
  pub error_code_2 : ℕ

-- PNET_ERROR_CODE_READ, PNET_ERROR_CODE_WRITE, PNET_ERROR_DECODE_PNIORW,
-- PNET_ERROR_CODE_1_APP_READ_ERROR, PNET_ERROR_CODE_1_APP_WRITE_ERROR
abbrev pub read_failed : PnioStatus
read_failed = record {
  error_code = 0xDE;
  error_decode = 0x80;
  error_code_1 = 0xA0;
  error_code_2 = 0;
}

abbrev pub write_failed : PnioStatus
write_failed = record {
  error_code = 0xDF;
  error_decode = 0x80;
  error_code_1 = 0xA1;
  error_code_2 = 0;
}

-- `pnet_alarm_spec_t` and `pnet_alarm_argument_t`
pub record AlarmSpec : Type 0 where
  pub channel_diagnosis : Bool
  pub manufacturer_diagnosis : Bool
  pub submodule_diagnosis : Bool
  pub ar_diagnosis : Bool

pub record AlarmArgument : Type 0 where
  pub api_id : ℕ
  pub slot_nbr : ℕ
  pub subslot_nbr : ℕ
  pub alarm_type : ℕ
  pub sequence_number : ℕ
  pub alarm_specifier : AlarmSpec
