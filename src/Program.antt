-- ===== src/Program.antt =====
-- The whole program: the task of the main loop, which calls `addLogEntry`, and the logging thread.
--
-- A round of the main loop is one step, and the calls of `addLogEntry` that it makes are steps of their
-- own, between which the logging thread runs; the next round waits for them. What the round does after
-- these calls neither reads nor changes the state of the logger. A timer tick during a round is as one
-- before or after it.
pub mod Sampled
pub mod Dated
pub mod Complete
pub mod Readable
pub mod Locked
mod Tests
use pnet2csv.Common.{ℕ, List, [], ◌∷◌, ◌++◌, Bool, Option, none, some, ◌>>=◌}
use pnet2csv.Host.{Host}
use pnet2csv.FileLogger.Entry.{Dtl}
use pnet2csv.FileLogger.File.{WriteAnswer}
use pnet2csv.FileLogger.Thread
use pnet2csv.FileLogger.Thread.{RotateAnswers, System, add, drain, flush}
use pnet2csv.Cyclic.{Sample}
use pnet2csv.App.{App}
use pnet2csv.App.Loop.{RoundAnswers, main_timer_tick, loop_round}

-- `pending` holds the calls of `addLogEntry` that the round has still to make. `reads` and `issued` are
-- history variables: what was read of the process data, and the calls that were made.
pub record Program : Type 0 where
  pub app : App
  pub system : System
  pub pending : List Sample
  pub reads : List Sample
  pub issued : List Sample

pub data Move : Type 0 where
  -- The timer's callback
  tick : Move
  -- A round of `app_loop_forever`, with what P-Net answers
  round : RoundAnswers → Move
  -- A call of `addLogEntry`, and whether a mutex would be made
  log_entry : Bool → Move
  -- A pass of the logging thread, and its write
  thread_pass : RotateAnswers → Dtl → Move
  thread_write : List WriteAnswer → Move

-- A round; none if the last one is not done.
unfoldable pub next_round : Host → RoundAnswers → Program → List Sample → Option Program
next_round h a p (s ∷ rest) = none
next_round h a p [] =
    let r = loop_round h a p.app in
    some (record p { app = r.app; pending = r.samples; reads = p.reads ++ r.reads })

unfoldable pub next_entry : Host → Bool → Program → List Sample → Option Program
next_entry h created p [] = none
next_entry h created p (s ∷ rest) = Thread.step h p.system (add created s.0 s.1) >>= λ u.
    some (record p { system = u; pending = rest; issued = p.issued ++ s ∷ [] })

unfoldable pub move : Host → Program → Move → Option Program
unfolding next_round next_entry
move h p tick = some (record p { app = main_timer_tick p.app })
move h p (round a) = next_round h a p p.pending
move h p (log_entry created) = next_entry h created p p.pending
move h p (thread_pass a stale) =
    Thread.step h p.system (drain a stale) >>= λ u. some (record p { system = u })
move h p (thread_write answers) =
    Thread.step h p.system (flush answers) >>= λ u. some (record p { system = u })

-- A history of the program.
unfoldable pub run : Host → Program → List Move → Option Program
unfolding move
run h p [] = some p
run h p (m ∷ ms) = move h p m >>= λ q. run h q ms

-- The program when the main loop begins.
abbrev pub begun : App → Program
begun app = record { app = app; system = Thread.initial; pending = []; reads = []; issued = [] }
