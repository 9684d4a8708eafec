-- ===== src/App/Tests.antt =====
-- The application at concrete inputs.
use pnet2csv.Common.{
  ℕ, ◌≡◌, refl, sym, ◌∙◌, inl, inr, List, [], ◌∷◌, none, some, true, false, arith, ok, error,
  replicate, All-replicate, ◌==◌, if◌then◌else◌, Has, ◌<◌,
}
use pnet2csv.Host.LittleEndian.{little_endian}
use pnet2csv.Pnet.{DataCfg, output, ioxs_good, ArEvent, AlarmArgument}
use pnet2csv.Gsdml.{logts_submodule, logw64_submodule}
use pnet2csv.Ar.{event_set, find_ar, free_ar, is_used, ready_for_data, add_arep, with_event}
use pnet2csv.Slots.{change}
use pnet2csv.Device.Plugging.{PlugAnswers}
use pnet2csv.Device.Process.{CyclicAnswers}
use pnet2csv.App.{
  App, application_ready, Indication, indicate, state_ind_lines, raise, indicate_all, state_ind,
  submodule_ind,
}
use pnet2csv.App.Init.{started, app_init, begin_loop, clear_ars}
use pnet2csv.App.Loop.{RoundAnswers, loop_round}
use pnet2csv.App.Invariant.{IsSoundApp, indicate-IsSoundApp}
use pnet2csv.App.Polling.{IsFed, IsOutcome}
use pnet2csv.App.Started.{started-IsSoundApp}
use pnet2csv.App.Rounds.{loop_round-IsOutcome}
use pnet2csv.App.Answered.{prmend-application_ready, loop_round-Answer}
use pnet2csv.App.Aborted.{aborted-find_ar}

none-some : {n : ℕ} → some n ≡ none → ⊥
none-some e = cc e

-- Nothing to pull, and the plug succeeds.
abbrev pub plugs : PlugAnswers
plugs = record { pull = error; plug = ok }

abbrev pub no_alarm : AlarmArgument
no_alarm = record {
  api_id = 0;
  slot_nbr = 0;
  subslot_nbr = 0;
  alarm_type = 0;
  sequence_number = 0;
  alarm_specifier = record {
    channel_diagnosis = false;
    manufacturer_diagnosis = false;
    submodule_diagnosis = false;
    ar_diagnosis = false;
  };
}

abbrev pub first_app : App
first_app = started true 2 no_alarm plugs (λ n. plugs) 1

abbrev outputs : ℕ → DataCfg
outputs size = record { data_dir = output; insize = 0; outsize = size }

-- The controller plugs both submodules and is ready.
abbrev pub connects : List Indication
connects =
    submodule_ind plugs 1 1 0x30 logts_submodule (outputs 12)
    ∷ submodule_ind plugs 2 1 0x31 logw64_submodule (outputs 128)
    ∷ state_ind 1 ArEvent.prmend
    ∷ []

-- All outputs are this byte.
abbrev answers : ℕ → ℕ → ℕ → CyclicAnswers
answers byte slot subslot = record {
  outdata = replicate 130 byte;
  outdata_length = if slot == 1 then 12 else 128;
  outdata_iops = ioxs_good;
  indata_iocs = ioxs_good;
}

abbrev pub all_bytes : ℕ → List Indication → RoundAnswers
all_bytes byte is = record { data_of = answers byte; periodic = is }

pub sevens-IsFed : (is : List Indication) → IsFed (all_bytes 7 is)
sevens-IsFed is slot subslot = record {
  whole = refl;
  bytes = All-replicate {A = ℕ} (λ b. b < 256) 130 7 (omega arith);
}

pub nines-IsFed : (is : List Indication) → IsFed (all_bytes 9 is)
nines-IsFed is slot subslot = record {
  whole = refl;
  bytes = All-replicate {A = ℕ} (λ b. b < 256) 130 9 (omega arith);
}

first_app-IsSoundApp : IsSoundApp first_app
first_app-IsSoundApp = started-IsSoundApp true 2 no_alarm plugs (λ n. plugs) 1

loop_round-IsOutcome_example :
    IsOutcome first_app (loop_round little_endian (all_bytes 7 connects) first_app)
loop_round-IsOutcome_example =
    loop_round-IsOutcome little_endian (all_bytes 7 connects) first_app (sevens-IsFed connects)
      first_app-IsSoundApp

prmend-application_ready_example :
    let indicated = indicate_all (indicate first_app (state_ind 1 ArEvent.prmend)).0 [] in
    Has (application_ready 1) (loop_round little_endian (all_bytes 7 []) indicated.0).calls
unfolding started app_init begin_loop clear_ars free_ar is_used
prmend-application_ready_example =
    prmend-application_ready little_endian (all_bytes 7 []) first_app 1 [] (omega arith)
      (inr (λ e. cc e))

-- A connection that is in the table.
abbrev connected : App
connected = (indicate first_app (state_ind 1 ArEvent.prmend)).0

connected-IsSoundApp : IsSoundApp connected
connected-IsSoundApp =
    indicate-IsSoundApp first_app (state_ind 1 ArEvent.prmend) first_app-IsSoundApp

known : find_ar connected.ars 1 ≡ some 0
unfolding started app_init begin_loop clear_ars free_ar is_used find_ar indicate state_ind_lines
    raise event_set add_arep change
known = refl

aborted-find_ar_example :
    let indicated = indicate_all (indicate connected (state_ind 1 ArEvent.abort)).0 [] in
    let r = loop_round little_endian (all_bytes 7 connects) indicated.0 in
    (find_ar r.app.ars 1 ≡ none) × (r.app.alarm_allowed ≡ true)
aborted-find_ar_example =
    aborted-find_ar little_endian (all_bytes 7 connects) connected 1 [] (sevens-IsFed connects)
      connected-IsSoundApp (λ e. none-some (sym known ∙ e))

loop_round-Answer_example :
    Has (application_ready 1) (loop_round little_endian (all_bytes 7 []) connected).calls
unfolding started app_init begin_loop clear_ars free_ar is_used find_ar indicate state_ind_lines
    raise event_set add_arep change with_event
loop_round-Answer_example =
    loop_round-Answer little_endian (all_bytes 7 []) connected ready_for_data 1
      (refl, inl (refl, refl)) refl
