-- ===== src/Program/Locked.antt =====
-- The whole program at the mutex: the task of the main loop, and the logging thread with the release of the
-- mutex in the middle of a pass.
pub mod Serial
use pnet2csv.Common.{List, [], ◌∷◌, Bool, true, false, Option, none, some, if◌then◌else◌, ◌>>=◌}
use pnet2csv.Host.{Host}
use pnet2csv.FileLogger.Thread.Locks.{Phase, between, Action, call, look, change, write, act}
use pnet2csv.App.{App}
use pnet2csv.Program.{Program, Move, tick, round, log_entry, thread_pass, thread_write, move, begun}

pub record LockedProgram : Type 0 where
  pub program : Program
  pub phase : Phase

pub data LockedMove : Type 0 where
  main_task : Move → LockedMove
  thread : Action → LockedMove

-- Does the task of the main loop do this? A call of `addLogEntry` is its.
unfoldable pub is_main_task : Move → Bool
is_main_task tick = true
is_main_task (round a) = true
is_main_task (log_entry created) = true
is_main_task (thread_pass a stale) = false
is_main_task (thread_write answers) = false

-- And the logging thread this?
unfoldable pub is_thread : Action → Bool
is_thread (call created t words) = false
is_thread (look stale) = true
is_thread (change a) = true
is_thread (write answers) = true

unfoldable pub locked_move : Host → LockedProgram → LockedMove → Option LockedProgram
unfolding is_main_task is_thread
locked_move h p (main_task m) =
    if is_main_task m
    then (move h p.program m >>= λ q. some (record { program = q; phase = p.phase }))
    else none
locked_move h p (thread x) =
    if is_thread x
    then (act h (record { system = p.program.system; phase = p.phase }) x >>= λ l.
        some (record { program = record (p.program) { system = l.system }; phase = l.phase }))
    else none

unfoldable pub locked_run : Host → LockedProgram → List LockedMove → Option LockedProgram
unfolding locked_move
locked_run h p [] = some p
locked_run h p (m ∷ ms) = locked_move h p m >>= λ q. locked_run h q ms

-- The program when the main loop begins.
abbrev pub locked_begun : App → LockedProgram
locked_begun app = record { program = begun app; phase = between }
