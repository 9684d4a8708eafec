-- ===== src/AppData.antt =====
-- pn_logger/app_data.c: the process data that the controller last sent, and the parameter
-- accesses. The slot and subslot numbers, which the functions ignore, are left out, and so is the
-- name of a parameter.
pub mod Outputs
use pnet2csv.Common.{
  ℕ, zero, suc, List, [], ◌∷◌, Option, none, some, ReturnCode, ok, error, ◌==◌, ltb, not,
  if◌then◌else◌, get_or, length, take, set,
}
use pnet2csv.Host.{Host}
use pnet2csv.FileLogger.Entry.{Dtl, no_time}
use pnet2csv.Gsdml.{
  Param, logts_submodule, logw64_submodule, timestamp_size, var64_data_size, get_parameter_cfg,
}

-- The static variables `variabledata` and `PLCtimestamp`.
pub record AppData : Type 0 where
  pub variabledata : List ℕ
  pub plc_timestamp : Dtl

-- `app_data_get_input_data` gives NULL: the device sends nothing to the controller.
unfoldable pub get_input_data : ℕ → Option (List ℕ)
get_input_data submodule_id = none

-- The `memcpy` calls and the conversions from network order.
unfoldable pub decode_timestamp : Host → List ℕ → Dtl
decode_timestamp h bytes =
    let at = λ (i : ℕ). get_or bytes i 0 in
    record {
      year = h.from_be16 (h.load16 (at 0) (at 1));
      month = at 2;
      day = at 3;
      weekday = at 4;
      hour = at 5;
      minute = at 6;
      second = at 7;
      nanosecond = h.from_be32 (h.load32 (at 8) (at 9) (at 10) (at 11));
    }

-- `app_data_set_output_data`; `none` is a null pointer.
unfoldable pub set_output_data : Host → AppData → ℕ → Option (List ℕ) → ℕ → AppData × ReturnCode
unfolding decode_timestamp
set_output_data h d submodule_id none size = (d, error)
set_output_data h d submodule_id (some bytes) size =
    if submodule_id == logts_submodule
    then (if size == timestamp_size
        then (record d { plc_timestamp = decode_timestamp h bytes }, ok)
        else (d, error))
    else (if submodule_id == logw64_submodule
        then (if size == var64_data_size
            then (record d { variabledata = take size bytes }, ok)
            else (d, error))
        else (d, error))

-- `app_data_set_default_outputs`
unfoldable pub set_default_outputs : AppData → AppData
set_default_outputs d = record d { variabledata = set d.variabledata 0 0 }

-- `app_data_write_parameter`: the length is compared, the data is only printed.
unfoldable pub write_parameter : ℕ → ℕ → ℕ → ReturnCode
write_parameter submodule_id index length = elim (get_parameter_cfg submodule_id index) [
  | none ↦ error
  | some p ↦ if p.length == length then ok else error
]

-- `app_data_read_parameter`: likewise, with a maximal length; no data is delivered.
unfoldable pub read_parameter : ℕ → ℕ → ℕ → ReturnCode
read_parameter submodule_id index max_length = elim (get_parameter_cfg submodule_id index) [
  | none ↦ error
  | some p ↦ if ltb max_length p.length then error else ok
]

-- `app_read_log_data`
unfoldable pub read_log_data : AppData → Dtl × List ℕ
read_log_data d = (d.plc_timestamp, d.variabledata)
