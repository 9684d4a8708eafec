-- ===== src/Config/Stack.antt =====
-- The configuration that `main` of src/ports/linux/logger_main.c gives to P-Net: the defaults of
-- `app_utils_pnet_cfg_init_default` in pn_logger/app_utils.c with the constants of pn_logger/app_gsdml.h,
-- and what `main` sets itself. The version of P-Net, which the build puts in a header, is a parameter; the
-- callbacks are left out.

pub mod Given
mod Tests
use pnet2csv.Common.{
  ℕ, ◌+◌, ◌*◌, ◌/◌, ◌%◌, List, [], ◌∷◌, Bool, true, false, Option, none, some, codes, Memory, ok,
  error,
}
use pnet2csv.FileLogger.Names.{Text}
use pnet2csv.Texts.{fitted}
use pnet2csv.Config.Netif.{IfCfg, NetifList, cfg_init_netifs}
use pnet2csv.Config.CommandLine.{Args, station_name_max_size, parse_commandline_arguments}
use pnet2csv.Config.Main.{MainAnswers, Storage, cfg_init_storage}

-- PNET_VERSION_MAJOR, PNET_VERSION_MINOR, PNET_VERSION_PATCH
pub record Version : Type 0 where
  pub major : ℕ
  pub minor : ℕ
  pub patch : ℕ

-- GET_HIGH_BYTE, GET_LOW_BYTE
unfoldable pub high_byte : ℕ → ℕ
high_byte id = id / 256 % 256

unfoldable pub low_byte : ℕ → ℕ
low_byte id = id % 256

-- `pnet_im_0_t`
pub record Im0 : Type 0 where
  pub vendor_id_hi : ℕ
  pub vendor_id_lo : ℕ
  pub order_id : Text
  pub serial_number : Text
  pub hardware_revision : ℕ
  pub sw_revision_prefix : ℕ
  pub sw_revision_functional_enhancement : ℕ
  pub sw_revision_bug_fix : ℕ
  pub sw_revision_internal_change : ℕ
  pub revision_counter : ℕ
  pub profile_id : ℕ
  pub profile_specific_type : ℕ
  pub version_major : ℕ
  pub version_minor : ℕ
  pub supported : ℕ

-- `pnet_im_1_t` to `pnet_im_4_t`
pub record Im1To4 : Type 0 where
  pub tag_function : Text
  pub tag_location : Text
  pub date : Text
  pub descriptor : Text
  pub signature : Text

-- `pnet_cfg_device_id_t`
pub record DeviceId : Type 0 where
  pub vendor_id_hi : ℕ
  pub vendor_id_lo : ℕ
  pub device_id_hi : ℕ
  pub device_id_lo : ℕ

-- A thread of P-Net: priority and size of its stack.
pub record ThreadCfg : Type 0 where
  pub prio : ℕ
  pub stack_size : ℕ

-- `pnet_cfg_t`
pub record PnetCfg : Type 0 where
  pub tick_us : ℕ
  pub im_0_data : Im0
  pub im_data : Im1To4
  pub device_id : DeviceId
  pub oem_device_id : DeviceId
  pub station_name : Text
  pub product_name : Text
  pub min_device_interval : ℕ
  pub snmp_thread : ThreadCfg
  pub eth_recv_thread : ThreadCfg
  pub bg_worker_thread : ThreadCfg
  pub send_hello : Bool
  pub num_physical_ports : ℕ
  pub use_qualified_diagnosis : Bool
  pub if_cfg : Option IfCfg
  pub file_directory : Text

-- APP_TICK_INTERVAL_US
abbrev pub tick_interval_us : ℕ
tick_interval_us = 1000

-- APP_GSDML_VENDOR_ID, APP_GSDML_DEVICE_ID, APP_GSDML_OEM_VENDOR_ID, APP_GSDML_OEM_DEVICE_ID
abbrev pub vendor_id : ℕ
vendor_id = 0xFF1D

abbrev pub device_id : ℕ
device_id = 0x0001

abbrev pub oem_vendor_id : ℕ
oem_vendor_id = 0xCAFE

abbrev pub oem_device_id : ℕ
oem_device_id = 0xEE02

unfoldable pub device_id_of : ℕ → ℕ → DeviceId
unfolding high_byte low_byte
device_id_of vendor device = record {
  vendor_id_hi = high_byte vendor;
  vendor_id_lo = low_byte vendor;
  device_id_hi = high_byte device;
  device_id_lo = low_byte device;
}

-- The identification; PNET_SUPPORTED_IM1, PNET_SUPPORTED_IM2 and PNET_SUPPORTED_IM3 are supported.
unfoldable pub im_0_default : Version → Im0
unfolding high_byte low_byte fitted
im_0_default v = record {
  vendor_id_hi = high_byte vendor_id;
  vendor_id_lo = low_byte vendor_id;
  order_id = fitted 21 (codes "N/A");
  serial_number = fitted 17 (codes "007");
  hardware_revision = 3;
  sw_revision_prefix = b'V';
  sw_revision_functional_enhancement = v.major;
  sw_revision_bug_fix = v.minor;
  sw_revision_internal_change = v.patch;
  revision_counter = 0;
  profile_id = 0x1234;
  profile_specific_type = 0x5678;
  version_major = 1;
  version_minor = 1;
  supported = 0x02 + 0x04 + 0x08;
}

unfoldable pub im_default : Im1To4
unfolding fitted
im_default = record {
  tag_function = fitted 33 (codes "PLC state logger");
  tag_location = fitted 23 (codes "RPi");
  date = fitted 17 (codes "2023-12-01");
  descriptor = fitted 55 (codes "Logs variables and status for diagnosis");
  signature = fitted 54 (codes "");
}

-- What `memset` leaves of a thread.
abbrev pub no_thread : ThreadCfg
no_thread = record { prio = 0; stack_size = 0 }

unfoldable pub cfg_init_default : Version → PnetCfg
unfolding im_0_default im_default device_id_of fitted
cfg_init_default v = record {
  tick_us = tick_interval_us;
  im_0_data = im_0_default v;
  im_data = im_default;
  device_id = device_id_of vendor_id device_id;
  oem_device_id = device_id_of oem_vendor_id oem_device_id;
  station_name = fitted station_name_max_size (codes "pn-logger");
  product_name = fitted 26 (codes "Profinet data logger");
  min_device_interval = 32;
  snmp_thread = no_thread;
  eth_recv_thread = no_thread;
  bg_worker_thread = no_thread;
  send_hello = true;
  num_physical_ports = 1;
  use_qualified_diagnosis = false;
  if_cfg = none;
  file_directory = [];
}

-- The operating system specific settings of `main`.
unfoldable pub with_threads : PnetCfg → PnetCfg
with_threads cfg = record cfg {
  snmp_thread = record { prio = 1; stack_size = 256 * 1024 };
  eth_recv_thread = record { prio = 10; stack_size = 4096 };
  bg_worker_thread = record { prio = 5; stack_size = 4096 };
}

-- The network interfaces: `number_of_ports` is 1 before the call that sets it.
unfoldable pub with_netifs : PnetCfg → NetifList → IfCfg → PnetCfg
with_netifs cfg l netif_cfg = record cfg {
  if_cfg = some netif_cfg;
  num_physical_ports = elim l.num_ports [ none ↦ 1 | some n ↦ n % 256 ];
}

-- What `app_pnet_cfg_init_storage` leaves; none if it fails.
unfoldable pub with_storage : PnetCfg → Storage → Option PnetCfg
with_storage cfg s = elim s.code [
  | error ↦ none
  | ok ↦ some (record cfg { file_directory = s.file_directory })
]

-- What `main` gives to `app_init`; none where it ends before.
unfoldable pub stack_cfg : Version → MainAnswers → Memory → Option PnetCfg
unfolding with_netifs with_threads with_storage
stack_cfg v a before = elim (parse_commandline_arguments a.help a.flags a.cwd) [
  | none ↦ none
  | some args ↦
      let (list, netifs) = cfg_init_netifs a.addresses before args.eth_interfaces in
      elim netifs [
        | none ↦ none
        | some netif_cfg ↦
            let cfg = record (cfg_init_default v) { station_name = args.station_name } in
            let cfg' = with_threads (with_netifs cfg list netif_cfg) in
            with_storage cfg' (cfg_init_storage a.storage args cfg'.file_directory)
      ]
]
