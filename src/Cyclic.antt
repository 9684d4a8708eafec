-- ===== src/Cyclic.antt =====
-- `app_handle_cyclic_data` of pn_logger/logger_common.c, after the poll of the submodules: which
-- samples of the process data become log entries.
pub mod Samples
pub mod Relog
pub mod Runs
mod Tests
use pnet2csv.Common.{
  ℕ, zero, suc, ◌+◌, ◌%◌, ◌^◌, List, [], ◌∷◌, ◌++◌, Bool, true, false, not, ltb, ◌==◌,
  if◌then◌else◌, ◌||◌, replicate,
}
use pnet2csv.FileLogger.Entry.{Dtl, no_time, var64_size}

-- The static variables of the function, and the tick counter of the application's state.
pub record Cyclic : Type 0 where
  pub tick_counter : ℕ
  pub last_ts : Dtl
  pub last_data : List ℕ
  pub logged_last : Bool

-- APP_TICKS_UPDATE_DATA
abbrev pub ticks_update_data : ℕ
ticks_update_data = 1

abbrev pub initial : Cyclic
initial = record {
  tick_counter = 0;
  last_ts = no_time;
  last_data = replicate var64_size 0;
  logged_last = false;
}

-- A timestamp and the variables: what `addLogEntry` is called with.
abbrev pub Sample : Type 0
Sample = Dtl × List ℕ

-- The loop that compares the data byte by byte.
unfoldable pub data_changed : List ℕ → List ℕ → Bool
data_changed [] last = false
data_changed (x ∷ xs) [] = false
data_changed (x ∷ xs) (y ∷ ys) = if x == y then data_changed xs ys else true

-- From the read of the log data on: the state, and the calls of `addLogEntry`, in order.
unfoldable pub handle_sample : Cyclic → Dtl → List ℕ → Cyclic × List Sample
handle_sample c timestamp variables =
    if timestamp.year == 0
    then (c, [])
    else (if timestamp.nanosecond == c.last_ts.nanosecond
        then (c, [])
        else (if data_changed variables c.last_data
            then (
              record c { last_ts = timestamp; last_data = variables; logged_last = true },
              (if c.logged_last then [] else (c.last_ts, c.last_data) ∷ [])
                  ++ (timestamp, variables) ∷ [],
            )
            else (record c { logged_last = false }, [])))

-- The whole function: it does nothing but count until the tick counter reaches its limit. The
-- sample is the one that the poll left.
unfoldable pub handle_cyclic_data : Cyclic → Dtl → List ℕ → Cyclic × List Sample
unfolding handle_sample
handle_cyclic_data c timestamp variables =
    let ticks = (c.tick_counter + 1) % 2 ^ 32 in
    if ltb ticks ticks_update_data
    then (record c { tick_counter = ticks }, [])
    else handle_sample (record c { tick_counter = 0 }) timestamp variables

-- A history of samples, with all calls of `addLogEntry`.
unfoldable pub run : Cyclic → List Sample → Cyclic × List Sample
run c [] = (c, [])
run c ((t, d) ∷ samples) =
    let (c', calls) = handle_cyclic_data c t d in
    let (c'', more) = run c' samples in (c'', calls ++ more)
