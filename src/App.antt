-- ===== src/App.antt =====
-- The application of pn_logger/logger_common.c as a whole: its state, the callbacks that P-Net calls,
-- and `app_event_set`. What is sent to P-Net is listed, in order.
pub mod Loop
pub mod Invariant
pub mod Polling
pub mod Rounds
pub mod Init
pub mod Started
pub mod Answers
pub mod Answered
pub mod Aborted
pub mod Tests
use pnet2csv.Common.{
  ℕ, List, [], ◌∷◌, ◌++◌, Bool, true, false, map, ◌==◌, if◌then◌else◌, ReturnCode, ok, error,
  replicate, Option, none, some,
}
use pnet2csv.Pnet.{
  ArEvent, abort, startup, prmend, applrdy, transfer, DataCfg, PnioStatus, AlarmSpec, AlarmArgument,
}
use pnet2csv.AppData.{AppData, set_default_outputs}
use pnet2csv.FileLogger.Entry.{no_time, var64_size}
use pnet2csv.Cyclic
use pnet2csv.Cyclic.{Cyclic}
use pnet2csv.Slots.{Slot, free_slots}
use pnet2csv.Ar.{Ar, AppEvent, EventSet, no_arep, with_event, event_set}
use pnet2csv.Device.Plugging.{PnetCall, PlugAnswers, exp_module_ind, exp_submodule_ind}
use pnet2csv.Device.Process.{Process, InputCall, new_data_status_ind}
use pnet2csv.Device.Startup.{StatusCall, set_initial_data_and_ioxs}

-- `app_data_t`, the entries of its `main_api`, and the static variables of the callbacks and of
-- `app_handle_cyclic_data`. What `main_events` holds is a set of events.
pub record App : Type 0 where
  pub slots : List Slot
  pub ars : List Ar
  pub main_events : EventSet
  pub process : Process
  pub cyclic : Cyclic
  pub alarm_allowed : Bool
  pub alarm_arg : AlarmArgument

-- The calls of P-Net; those for plugging, for the initial statuses and for input data are as Device lists
-- them.
pub data StackCall : Type 0 where
  plugging : PnetCall → StackCall
  status : StatusCall → StackCall
  input_sent : InputCall → StackCall
  -- `pnet_set_provider_state`
  provider_state : Bool → StackCall
  application_ready : ℕ → StackCall
  alarm_ack : ℕ → AlarmArgument → StackCall
  released_cnf : ℕ → StackCall
  handle_periodic : StackCall

-- A call of one of the callbacks, with the arguments that it looks at. `notice` stands for those that
-- change nothing: the ones that only print, and the requests for parameters of Device.Records.
pub data Indication : Type 0 where
  notice release_ind alarm_cnf : Indication
  sm_released_ind : ℕ → Indication
  state_ind : ℕ → ArEvent → Indication
  module_ind : PlugAnswers → ℕ → ℕ → Indication
  submodule_ind : PlugAnswers → ℕ → ℕ → ℕ → ℕ → DataCfg → Indication
  data_status_ind : ℕ → Indication
  alarm_ind : ℕ → AlarmArgument → Indication

-- `app_event_set`: the event of the connection, and the one of the main loop.
unfoldable pub raise : App → ℕ → AppEvent → Bool → App
raise app arep event add = record app {
  ars = event_set app.ars arep event add;
  main_events = with_event app.main_events event;
}

-- `app_set_outputs_default_value`
unfoldable pub default_outputs : App → App
default_outputs app = record app {
  process = record (app.process) { app_data = set_default_outputs app.process.app_data };
}

-- `app_state_ind`
unfoldable pub state_ind_lines : App → ℕ → ArEvent → App × List StackCall
unfolding raise default_outputs
state_ind_lines app arep abort = (raise (default_outputs app) arep AppEvent.abort false, [])
state_ind_lines app arep prmend = (
  raise app arep AppEvent.ready_for_data true,
  map status (set_initial_data_and_ioxs app.slots) ++ provider_state true ∷ [],
)
state_ind_lines app arep startup = (app, [])
state_ind_lines app arep applrdy = (app, [])
state_ind_lines app arep transfer = (app, [])

-- `app_release_ind`
abbrev pub release : App → App
release app = default_outputs app

-- `app_sm_released_ind`
abbrev pub note_released : App → ℕ → App
note_released app arep = raise app arep AppEvent.sm_released false

-- `app_alarm_ind`
abbrev pub note_alarm : App → ℕ → AlarmArgument → App
note_alarm app arep arg = raise (record app { alarm_arg = arg }) arep AppEvent.alarm false

-- `app_alarm_cnf`
abbrev pub confirm_alarm : App → App
confirm_alarm app = record app { alarm_allowed = true }

-- One callback.
unfoldable pub indicate : App → Indication → App × List StackCall
unfolding state_ind_lines raise default_outputs
indicate app notice = (app, [])
indicate app release_ind = (release app, [])
indicate app alarm_cnf = (confirm_alarm app, [])
indicate app (sm_released_ind arep) = (note_released app arep, [])
indicate app (state_ind arep event) = state_ind_lines app arep event
indicate app (module_ind a slot ident) =
    let p = exp_module_ind a app.slots slot ident in
    (record app { slots = p.slots }, map plugging p.calls)
indicate app (submodule_ind a slot subslot module_id submodule_id cfg) =
    let p = exp_submodule_ind a app.slots slot subslot module_id submodule_id cfg in
    (record app { slots = p.slots }, map plugging p.calls)
indicate app (data_status_ind data_status) = (
  record app {
    process = record (app.process) {
      app_data = new_data_status_ind app.process.app_data data_status;
    };
  },
  [],
)
indicate app (alarm_ind arep arg) = (note_alarm app arep arg, [])

-- A sequence of callbacks.
unfoldable pub indicate_all : App → List Indication → App × List StackCall
unfolding indicate
indicate_all app [] = (app, [])
indicate_all app (i ∷ is) =
    let (app', calls) = indicate app i in
    let (app'', more) = indicate_all app' is in (app'', calls ++ more)
