-- ===== src/Program/Readable.antt =====
-- What a reader of the log files finds out about the process data.
use pnet2csv.Common.{
  ℕ, ◌<◌, ◌≤◌, ◌≡◌, ◌∙◌, ◌⊎◌, List, [], ◌∷◌, ◌++◌, map, some, none, Bool, true, All, length,
}
use pnet2csv.Host.{Host}
use pnet2csv.FileLogger.File.{file_min_write}
use pnet2csv.FileLogger.Thread.{System, on_disk, remaining}
use pnet2csv.FileLogger.Thread.Rounds.{ThreadAnswers, thread_rounds}
use pnet2csv.FileLogger.Thread.Passes.{IsPatientRound}
use pnet2csv.FileLogger.Thread.Drained.{drained}
use pnet2csv.FileLogger.Reader.{read_log}
use pnet2csv.FileLogger.Reader.Logs.{joined, IsReadable, files-IsRead, on_disk-read}
use pnet2csv.Cyclic
use pnet2csv.Cyclic.{Sample}
use pnet2csv.Pnet.{AlarmArgument}
use pnet2csv.Device.Plugging.{PlugAnswers}
use pnet2csv.App.Init.{started}
use pnet2csv.Program.{Program, Move, run, begun}
use pnet2csv.Program.Sampled.{IsRegularMove}
use pnet2csv.Program.Complete.{with_year, never_full, run-IsDone}

-- In every history of the program from its start in which no call of addLogEntry found the ring
-- full, at most one logging thread was started, the round of the main loop has made all its calls,
-- P-Net filled its buffers with bytes, and headers were written whole or not at all: three rounds of
-- the logging thread return, if the writes get on, the synchronisations of old files end, and the
-- starts succeed in the end. There then are a list of samples for every file that was finished, and
-- one for what was written to the current file with its buffer, of which less than FILE_MIN_WRITE
-- bytes are still to be written: one after the other, these are exactly the samples with a year that
-- the sampling makes of what was read of the process data. Whichever files the calls of deleteOldest
-- removed, a reader of the finished files that are left gets exactly the lists of these; and one of
-- what was written to the current file with its buffer and the end mark gets the last list.
pub read_log-sampling :
    (h : Host) (net : Bool) (max_ar : ℕ) (arg : AlarmArgument) (module_answers : PlugAnswers)
    (answers : ℕ → PlugAnswers) (ports : ℕ) (ms : List Move) (a b c : ThreadAnswers)
    (removes : ℕ → ℕ → Bool) {q : Program}
    → All IsRegularMove ms
    → never_full h (begun (started net max_ar arg module_answers answers ports)) ms ≡ true
    → run h (begun (started net max_ar arg module_answers answers ports)) ms ≡ some q
    → q.pending ≡ []
    → q.system.logger.threads ≤ 1
    → IsPatientRound a
    → IsPatientRound b
    → IsPatientRound c
    → (u : System) × (thread_rounds h (a ∷ b ∷ c ∷ []) q.system ≡ some u)
      × ((logs : List (List Sample)) × (latest : List Sample) × (map read_log
              (on_disk removes u.thread)
            ≡ map some (remaining removes u.thread.clears 0 logs))
          × IsReadable u.thread.log.fd (u.thread.file ++ u.thread.log.buffer) latest
          × (joined logs ++ latest ≡ with_year (Cyclic.run Cyclic.initial q.reads).1))
      × ((u.thread.log.fd ≡ none) ⊎ (length u.thread.log.buffer < file_min_write))
read_log-sampling h net max_ar arg module_answers answers ports ms a b c removes {q} w n e idle
      one_thread pa pb pc =
    let done = run-IsDone h net max_ar arg module_answers answers ports ms w n e idle in
    let (u, returns, _, (groups, current, closed, open_file, entries), written) =
      drained h a b c q.system done.sound done.dated pa pb pc in
    let (logs, latest, closed_read, open_read, all) =
      files-IsRead q.system.accepted groups current u.thread.closed u.thread.log.fd
        (u.thread.file ++ u.thread.log.buffer) done.dated.stamped closed open_file entries in
    (
      u,
      returns,
      (
        logs,
        latest,
        on_disk-read removes u.thread logs closed_read,
        open_read,
        all ∙ done.all_accepted,
      ),
      written,
    )
