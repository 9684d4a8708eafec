-- ===== src/Device/Tests.antt =====
-- The callbacks at concrete inputs.
use pnet2csv.Common.{ℕ, ◌≡◌, refl, inl, inr, [], ◌∷◌, true, false, arith, ok, error, replicate, All}
use pnet2csv.Common.{if◌then◌else◌}
use pnet2csv.AppData.{set_default_outputs}
use pnet2csv.Host.LittleEndian.{little_endian}
use pnet2csv.Pnet.{DataCfg, output, ioxs_bad, ioxs_good}
use pnet2csv.FileLogger.Entry.{Dtl, IsDtl, no_time}
use pnet2csv.FileLogger.Entry.Codec.{encode}
use pnet2csv.Gsdml.{logts_submodule, logw64_submodule}
use pnet2csv.AppData.{read_log_data}
use pnet2csv.Slots.{Subslot, free_slots, plugged_subslot}
use pnet2csv.Device.Plugging.{PlugAnswers, Plugging, exp_submodule_ind}
use pnet2csv.Device.Process.{Process, CyclicAnswers, cyclic_data_callback, deliver}
use pnet2csv.Device.Process.Delivery.{
  deliver-default_once, read_log_data-callback_variables, read_log_data-callback_timestamp,
}
use pnet2csv.Device.Startup.{set_initial_data_and_ioxs}
use pnet2csv.Device.Startup.Statuses.{IsHonest, set_initial_data_and_ioxs-IsHonest}

-- Nothing to pull, and the plug succeeds.
abbrev answers : PlugAnswers
answers = record { pull = error; plug = ok }

abbrev expected : DataCfg
expected = record { data_dir = output; insize = 0; outsize = 128 }

abbrev indication : Plugging
indication = exp_submodule_ind answers free_slots 1 1 0x30 logw64_submodule expected

abbrev variables : Subslot
variables = plugged_subslot 1 1 logw64_submodule expected true

abbrev time : Subslot
time = plugged_subslot 1 2 logts_submodule (record expected { outsize = 12 }) true

abbrev process : Process
process = record {
  app_data = record { variabledata = replicate 128 3; plc_timestamp = no_time };
  defaults_set = false;
}

-- 128 bytes with a status.
abbrev received : ℕ → CyclicAnswers
received iops = record {
  outdata = replicate 128 9;
  outdata_length = 128;
  outdata_iops = iops;
  indata_iocs = ioxs_bad;
}

deliver-default_once_example :
    ((deliver little_endian process
        ((received ioxs_bad, variables) ∷ (received ioxs_good, time) ∷ [])).defaults_set
      ≡ true)
    × ((deliver little_endian process
          ((received ioxs_bad, variables) ∷ (received ioxs_good, time) ∷ [])).app_data
        ≡ (if process.defaults_set then process.app_data else set_default_outputs process.app_data))
deliver-default_once_example =
    deliver-default_once little_endian process (received ioxs_bad, variables)
      ((received ioxs_good, time) ∷ [])
      (record { not_dap = omega arith; outputs = omega arith; reason = inr (omega arith) })
      (record { not_dap = omega arith; outputs = omega arith; reason = inl (omega arith) }, tt)

read_log_data-callback_variables_example :
    read_log_data
      (cyclic_data_callback little_endian (received ioxs_good) process variables).0.app_data
    ≡ (no_time, replicate 128 9)
read_log_data-callback_variables_example =
    read_log_data-callback_variables little_endian (received ioxs_good) process variables
      (omega arith) refl refl refl refl refl

abbrev morning : Dtl
morning = record {
  year = 2024;
  month = 2;
  day = 29;
  weekday = 5;
  hour = 8;
  minute = 0;
  second = 1;
  nanosecond = 77;
}

abbrev morning-IsDtl : IsDtl morning
morning-IsDtl = omega arith

abbrev received_time : CyclicAnswers
received_time = record {
  outdata = encode true morning [];
  outdata_length = 12;
  outdata_iops = ioxs_good;
  indata_iocs = ioxs_bad;
}

read_log_data-callback_timestamp_example :
    read_log_data (cyclic_data_callback little_endian received_time process time).0.app_data
    ≡ (morning, replicate 128 3)
read_log_data-callback_timestamp_example =
    read_log_data-callback_timestamp little_endian received_time process time (omega arith) refl
      morning morning-IsDtl refl refl refl refl

set_initial_data_and_ioxs-IsHonest_example :
    All IsHonest (set_initial_data_and_ioxs indication.slots)
set_initial_data_and_ioxs-IsHonest_example = set_initial_data_and_ioxs-IsHonest indication.slots
