-- ===== src/App/Loop.antt =====
-- The main loop of pn_logger/logger_common.c: `main_timer_tick`, `app_handle_cyclic_data`,
-- `app_handle_event_timer`, the handlers of connection events and one round of `app_loop_forever`.
use pnet2csv.Common.{
  ℕ, ◌+◌, ◌%◌, ◌^◌, List, [], ◌∷◌, ◌++◌, Bool, true, false, map, ltb, if◌then◌else◌,
}
use pnet2csv.Host.{Host}
use pnet2csv.AppData.{read_log_data}
use pnet2csv.Cyclic.{Sample, ticks_update_data, handle_sample}
use pnet2csv.Slots.{Subslot, cyclic_data_poll}
use pnet2csv.Ar.{
  Ar, AppEvent, EventSet, is_used, with_event, without_event, handle_event_ar, removes,
  ready_for_data, timer, alarm, sm_released, abort,
}
use pnet2csv.Device.Process.{Process, InputCall, CyclicAnswers, cyclic_data_callback}
use pnet2csv.Device.Startup.{set_initial_data_and_ioxs}
use pnet2csv.App.{
  App, StackCall, status, input_sent, application_ready, alarm_ack, released_cnf, handle_periodic,
  Indication, indicate_all,
}

-- `main_timer_tick`
unfoldable pub main_timer_tick : App → App
main_timer_tick app = record app { main_events = with_event app.main_events timer }

-- `app_is_connected_to_controller`
unfoldable pub is_connected : List Ar → Bool
is_connected [] = false
is_connected (x ∷ xs) = is_used x

-- What the calls of P-Net answer in a round: for the data of each slot and subslot, and the callbacks
-- that `pnet_handle_periodic` calls.
pub record RoundAnswers : Type 0 where
  pub data_of : ℕ → ℕ → CyclicAnswers
  pub periodic : List Indication

-- The callback of a subslot, with the calls of P-Net so far.
unfoldable pub poll_callback :
    Host → RoundAnswers → Process × List InputCall → Subslot → (Process × List InputCall) × Subslot
poll_callback h a (p, calls) s =
    let (p', s', more) = cyclic_data_callback h (a.data_of s.slot_nbr s.subslot_nbr) p s in
    ((p', calls ++ more), s')

-- What a step of the main task leaves: the state, the calls of P-Net, and those of `addLogEntry`.
pub record Round : Type 0 where
  pub app : App
  pub calls : List StackCall
  pub samples : List Sample
  -- What was read from the process data, if it was
  pub reads : List Sample

-- `app_handle_cyclic_data`
unfoldable pub app_handle_cyclic_data : Host → RoundAnswers → App → Round
app_handle_cyclic_data h a app =
    let ticks = (app.cyclic.tick_counter + 1) % 2 ^ 32 in
    let polled = cyclic_data_poll (poll_callback h a) (app.process, []) app.slots in
    let sample = read_log_data polled.0.0.app_data in
    let handled = handle_sample (record (app.cyclic) { tick_counter = 0 }) sample.0 sample.1 in
    if ltb ticks ticks_update_data
    then record {
      app = record app { cyclic = record (app.cyclic) { tick_counter = ticks } };
      calls = [];
      samples = [];
      reads = [];
    }
    else record {
      app = record app { slots = polled.1; process = polled.0.0; cyclic = handled.0 };
      calls = map input_sent polled.0.1;
      samples = handled.1;
      reads = sample ∷ [];
    }

-- `app_handle_event_timer`
unfoldable pub handle_event_timer : Host → RoundAnswers → App → Round
handle_event_timer h a app =
    let cleared = record app { main_events = without_event app.main_events timer } in
    let r : Round =
      if is_connected app.ars
      then app_handle_cyclic_data h a cleared
      else record { app = cleared; calls = []; samples = []; reads = [] } in
    let (app', more) = indicate_all r.app a.periodic in
    record r { app = app'; calls = r.calls ++ handle_periodic ∷ more }

-- What the handler of an event sends for a connection.
unfoldable pub handler_calls : AppEvent → App → ℕ → List StackCall
handler_calls ready_for_data app arep = application_ready arep ∷ []
handler_calls alarm app arep = alarm_ack arep app.alarm_arg ∷ []
handler_calls sm_released app arep =
    map status (set_initial_data_and_ioxs app.slots) ++ released_cnf arep ∷ []
handler_calls abort app arep = []
handler_calls timer app arep = []

unfoldable pub all_handler_calls : AppEvent → App → List ℕ → List StackCall
unfolding handler_calls
all_handler_calls event app [] = []
all_handler_calls event app (arep ∷ areps) =
    handler_calls event app arep ++ all_handler_calls event app areps

-- `app_handle_event_ar` with the handler of the event, which changes nothing of the state but the
-- entry that it was called for.
unfoldable pub handle_event : AppEvent → App → App × List StackCall
handle_event event app =
    let v = handle_event_ar event (removes event) app.ars in
    (
      record app { ars = v.ars; main_events = without_event app.main_events event },
      all_handler_calls event app v.handled,
    )

-- The handler of an event, if its flag is up.
unfoldable pub when_flag : EventSet → AppEvent → Round → Round
unfolding handle_event
when_flag flags event r =
    if flags event
    then (let (app', more) = handle_event event r.app in
        record r { app = app'; calls = r.calls ++ more })
    else r

unfoldable pub when_timer : EventSet → Host → RoundAnswers → Round → Round
unfolding handle_event_timer
when_timer flags h a r =
    if flags timer
    then (let t = handle_event_timer h a r.app in
        record t {
          calls = r.calls ++ t.calls;
          samples = r.samples ++ t.samples;
          reads = r.reads ++ t.reads;
        })
    else r

-- `app->alarm_allowed = true` after an abort.
unfoldable pub allow_alarm : EventSet → Round → Round
allow_alarm flags r =
    if flags abort then record r { app = record (r.app) { alarm_allowed = true } } else r

-- One round of `app_loop_forever`, once `app_event_wait` has returned the events that are up.
unfoldable pub loop_round : Host → RoundAnswers → App → Round
unfolding when_flag when_timer allow_alarm
loop_round h a app =
    let flags = app.main_events in
    let start : Round = record { app = app; calls = []; samples = []; reads = [] } in
    let r1 = when_flag flags ready_for_data start in
    let r2 = when_flag flags alarm r1 in
    let r3 = when_timer flags h a r2 in
    let r4 = when_flag flags sm_released r3 in
    let r5 = when_flag flags abort r4 in allow_alarm flags r5
