-- ===== src/FileLogger/Thread/Rounds.antt =====
-- The loops of `log_thread_main` of src/ports/linux/app_filelogger.c around a pass: the inner loop,
-- which ends where the entry buffer is empty or a pass gives up, and a round of the outer one.
use pnet2csv.Common.{List, [], ◌∷◌, true, false, Option, none, some, ◌==◌, if◌then◌else◌, ◌>>=◌}
use pnet2csv.Host.{Host}
use pnet2csv.FileLogger.Entry.{Dtl}
use pnet2csv.FileLogger.File.{WriteAnswer}
use pnet2csv.FileLogger.Thread.{RotateAnswers, System, drain_entry, flush_buffer}

-- What a pass is answered, and what stands in its uninitialised `entry_ts`.
pub record PassAnswers : Type 0 where
  pub rotates : RotateAnswers
  pub stale : Dtl

-- `while (entries->start != entries->end)`; none if it needs more answers.
unfoldable pub inner_loop : Host → List PassAnswers → System → Option System
inner_loop h [] s = if s.logger.entries.start == s.logger.entries.end then some s else none
inner_loop h (p ∷ ps) s = elim (s.logger.entries.start == s.logger.entries.end) [
  | true ↦ some s
  | false ↦
      drain_entry h s.logger.bigendian p.rotates p.stale s.thread s.logger.entries
      >>= λ (t, b, go_on).
          let u = record s { thread = t; logger = record (s.logger) { entries = b } } in
          elim go_on [ true ↦ inner_loop h ps u | false ↦ some u ]
]

-- One round of `while (true)`: the inner loop under the mutex, then the write.
pub record ThreadAnswers : Type 0 where
  pub passes : List PassAnswers
  pub writes : List WriteAnswer

unfoldable pub thread_round : Host → ThreadAnswers → System → Option System
unfolding inner_loop
thread_round h a s = inner_loop h a.passes s >>= λ s'.
    flush_buffer a.writes s'.thread >>= λ t. some (record s' { thread = t })

unfoldable pub thread_rounds : Host → List ThreadAnswers → System → Option System
unfolding thread_round
thread_rounds h [] s = some s
thread_rounds h (a ∷ answers) s = thread_round h a s >>= λ u. thread_rounds h answers u
