-- ===== src/App/Init.antt =====
-- `app_init` and `app_start` of pn_logger/logger_common.c, and what `app_loop_forever` does before its
-- loop. What `pnet_init`, `os_event_create` and `os_timer_create` answer are parameters.
use pnet2csv.Common.{
  ℕ, List, [], ◌∷◌, ◌++◌, Bool, true, false, if◌then◌else◌, ReturnCode, ok, error, replicate,
}
use pnet2csv.Pnet.{AlarmArgument}
use pnet2csv.FileLogger.Entry.{no_time, var64_size}
use pnet2csv.Cyclic
use pnet2csv.Slots.{free_slots}
use pnet2csv.Ar.{Ar, no_arep}
use pnet2csv.Device.Plugging.{PnetCall, PlugAnswers, plug_dap}
use pnet2csv.App.{App}

-- The static data at the start of the program, with so many entries for connections. The table of
-- slots is as `memset` leaves it.
abbrev pub static_app : ℕ → AlarmArgument → App
static_app max_ar arg = record {
  slots = free_slots;
  ars = replicate max_ar (record { arep = 0; events = λ _. false });
  main_events = λ _. false;
  process = record {
    app_data = record { variabledata = replicate var64_size 0; plc_timestamp = no_time };
    defaults_set = false;
  };
  cyclic = Cyclic.initial;
  alarm_allowed = false;
  alarm_arg = arg;
}

-- The loop of `app_init` over the entries.
unfoldable pub clear_ars : List Ar → List Ar
clear_ars [] = []
clear_ars (x ∷ xs) = record { arep = no_arep; events = λ _. false } ∷ clear_ars xs

-- `app_init`: whether `pnet_init` gives an instance is whether the result is not a null pointer.
unfoldable pub app_init : Bool → App → App × ReturnCode
unfolding clear_ars
app_init net app =
    (record app { alarm_allowed = true; ars = clear_ars app.ars }, if net then ok else error)

-- `app_run_in_separate_task_t`
pub data TaskConfig : Type 0 where
  run_in_separate_thread run_in_main_thread : TaskConfig

-- The calls of the operating system layer.
pub data OsCall : Type 0 where
  event_create event_destroy timer_create thread_create timer_start : OsCall

abbrev pub thread_calls : TaskConfig → List OsCall
thread_calls run_in_separate_thread = thread_create ∷ []
thread_calls run_in_main_thread = []

-- `app_start`: whether the event and the timer were created. `available` tells whether the application
-- is not a null pointer.
unfoldable pub app_start : Bool → Bool → Bool → TaskConfig → List OsCall × ReturnCode
app_start available event timer config =
    if available
    then (if event
        then (if timer
            then (event_create ∷ timer_create ∷ (thread_calls config ++ timer_start ∷ []), ok)
            else (event_create ∷ timer_create ∷ event_destroy ∷ [], error))
        else (event_create ∷ [], error))
    else ([], error)

-- `app_plug_dap`, as the loop's task calls it first.
unfoldable pub begin_loop : PlugAnswers → (ℕ → PlugAnswers) → App → ℕ → App × List PnetCall
begin_loop module_answers answers app number_of_ports =
    let (slots, calls) = plug_dap module_answers answers app.slots number_of_ports in
    (record app { slots = slots }, calls)

-- The application when the loop begins.
unfoldable pub started : Bool → ℕ → AlarmArgument → PlugAnswers → (ℕ → PlugAnswers) → ℕ → App
unfolding app_init begin_loop
started net max_ar arg module_answers answers ports =
    (begin_loop module_answers answers (app_init net (static_app max_ar arg)).0 ports).0
