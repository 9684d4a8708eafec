-- ===== src/Device/Process/Delivery.antt =====
-- What reaches the application data, and what a run of bad data does to it.
use pnet2csv.Common.{
  ◌<◌, ◌≡◌, ◌≢◌, sym, ap, ◌∙◌, ◌⊎◌, List, [], ◌∷◌, true, false, some, arith, length, All,
}
use pnet2csv.Host.{Host}
use pnet2csv.Pnet.{dap_slot, ioxs_good}
use pnet2csv.FileLogger.Entry.{Dtl, IsDtl}
use pnet2csv.FileLogger.Entry.Codec.{encode}
use pnet2csv.Gsdml.{logts_submodule, logw64_submodule, timestamp_size, var64_data_size}
use pnet2csv.Common.{if◌then◌else◌}
use pnet2csv.AppData.{set_default_outputs, set_output_data, read_log_data}
use pnet2csv.AppData.Outputs.{read_log_data-set_timestamp, read_log_data-set_variables}
use pnet2csv.Slots.{Subslot}
use pnet2csv.Device.Process.{
  Process, CyclicAnswers, default_once, handle_output, cyclic_data_callback, deliver,
}

-- Data of the wrong length, or whose provider does not say that it is good, for a subslot with
-- output data.
pub record IsBad (x : CyclicAnswers × Subslot) : Type 0 where
  pub not_dap : x.1.slot_nbr ≢ dap_slot
  pub outputs : 0 < x.1.data_cfg.outsize
  pub reason : (x.0.outdata_length ≢ x.1.data_cfg.outsize) ⊎ (x.0.outdata_iops ≢ ioxs_good)

handle_output-bad :
    (h : Host) (p : Process) (a : CyclicAnswers) (s : Subslot)
    → IsBad (a, s)
    → (cyclic_data_callback h a p s).0 ≡ default_once p
unfolding cyclic_data_callback handle_output default_once
handle_output-bad h p a s b = ground (arith, b.not_dap, b.outputs, b.reason)

default_once_twice : (p : Process) → default_once (default_once p) ≡ default_once p
unfolding default_once
default_once_twice p = ground arith

deliver-IsBad :
    (h : Host) (p : Process) (x : CyclicAnswers × Subslot) (rest : List (CyclicAnswers × Subslot))
    → IsBad x
    → All IsBad rest
    → deliver h p (x ∷ rest) ≡ default_once p
unfolding deliver
deliver-IsBad h p x [] b bs = handle_output-bad h p x.0 x.1 b
deliver-IsBad h p x (y ∷ rest) b (b', bs) =
    ap (λ q. deliver h q (y ∷ rest)) (handle_output-bad h p x.0 x.1 b)
    ∙ deliver-IsBad h (default_once p) y rest b' bs
    ∙ default_once_twice p

default_once_lem :
    (p : Process)
    → ((default_once p).defaults_set ≡ true)
      × ((default_once p).app_data
          ≡ (if p.defaults_set then p.app_data else set_default_outputs p.app_data))
unfolding default_once
default_once_lem p = ground arith

-- One or more callbacks in a row with bad data, for whatever subslots with output data, leave the
-- outputs as they are where these were set to their default values before, and else set them to
-- these once; and they leave the mark that this is done.
pub deliver-default_once :
    (h : Host) (p : Process) (x : CyclicAnswers × Subslot) (rest : List (CyclicAnswers × Subslot))
    → IsBad x
    → All IsBad rest
    → ((deliver h p (x ∷ rest)).defaults_set ≡ true)
      × ((deliver h p (x ∷ rest)).app_data
          ≡ (if p.defaults_set then p.app_data else set_default_outputs p.app_data))
deliver-default_once h p x rest b bs =
    let (set, same) = default_once_lem p in
    let e = deliver-IsBad h p x rest b bs in
    (ap (λ q. q.defaults_set) e ∙ set, ap (λ q. q.app_data) e ∙ same)

module _ (h : Host) (a : CyclicAnswers) (p : Process) (s : Subslot) (plain : s.slot_nbr ≢ dap_slot)
    (good : a.outdata_iops ≡ ioxs_good) where
  handle_output-good :
      0 < s.data_cfg.outsize
      → a.outdata_length ≡ s.data_cfg.outsize
      → (cyclic_data_callback h a p s).0 ≡ record {
        app_data =
            (set_output_data h p.app_data s.submodule_id (some a.outdata) a.outdata_length).0;
        defaults_set = false;
      }
  unfolding cyclic_data_callback handle_output
  handle_output-good some_outputs same = ground (arith, plain, good)

  -- Good data for the variable submodule is what the logger reads next, and the timestamp stays.
  pub read_log_data-callback_variables :
      s.submodule_id ≡ logw64_submodule
      → s.data_cfg.outsize ≡ var64_data_size
      → a.outdata_length ≡ var64_data_size
      → length a.outdata ≡ var64_data_size
      → read_log_data (cyclic_data_callback h a p s).0.app_data
        ≡ (p.app_data.plc_timestamp, a.outdata)
  read_log_data-callback_variables is_vars outsize received full =
      ap (λ x. read_log_data x.app_data)
        (handle_output-good (omega (arith, outsize)) (received ∙ sym outsize))
      ∙ ap (λ x. read_log_data (set_output_data h p.app_data x (some a.outdata) a.outdata_length).0)
          is_vars
      ∙ ap (λ x. read_log_data (set_output_data h p.app_data logw64_submodule (some a.outdata) x).0)
          received
      ∙ (read_log_data-set_variables h p.app_data a.outdata full).1

  -- A good timestamp that the controller encoded is what the logger reads next, and the variables
  -- stay.
  pub read_log_data-callback_timestamp :
      (t : Dtl)
      → IsDtl t
      → s.submodule_id ≡ logts_submodule
      → s.data_cfg.outsize ≡ timestamp_size
      → a.outdata_length ≡ timestamp_size
      → a.outdata ≡ encode true t []
      → read_log_data (cyclic_data_callback h a p s).0.app_data ≡ (t, p.app_data.variabledata)
  read_log_data-callback_timestamp t d is_time outsize received sent =
      ap (λ x. read_log_data x.app_data)
        (handle_output-good (omega (arith, outsize)) (received ∙ sym outsize))
      ∙ ap (λ x. read_log_data (set_output_data h p.app_data x (some a.outdata) a.outdata_length).0)
          is_time
      ∙ ap (λ x. read_log_data (set_output_data h p.app_data logts_submodule (some a.outdata) x).0)
          received
      ∙ ap
          (λ x.
            read_log_data (set_output_data h p.app_data logts_submodule (some x) timestamp_size).0)
          sent
      ∙ (read_log_data-set_timestamp h p.app_data t d).1
