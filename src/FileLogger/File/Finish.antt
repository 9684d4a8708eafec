-- ===== src/FileLogger/File/Finish.antt =====
-- `finishLogFile` returns: disk errors delay it, and only as long as they last.
use pnet2csv.Common.{
  ℕ, ◌+◌, ◌≤◌, ◌<◌, ◌≡◌, refl, List, [], ◌∷◌, ◌++◌, some, arith, length, length-append, take, Bool,
  true, false, ReturnCode, ok, error, lt→leb, if◌then◌else◌,
}
use pnet2csv.FileLogger.File.{
  WriteAnswer, SyncAnswer, synced, bad_fd, Output, write_while, Started, LogFile, FinishAnswers,
  finish_log_file, sync_log, file_buffer_size, file_min_write, close_log,
}
use pnet2csv.FileLogger.File.Writes.{progress, write_while_total}
use pnet2csv.FileLogger.File.Start.{finish_log_file-file}

-- Some answer is not "no space".
abbrev pub Settles : List SyncAnswer → Type 0
Settles [] = ⊥
Settles (SyncAnswer.no_space ∷ answers) = Settles answers
Settles (_ ∷ answers) = Unit {0}

sync_log_total :
    (answers : List SyncAnswer) (clears : ℕ)
    → Settles answers
    → (code : ReturnCode) × (n : ℕ) × (sync_log answers clears ≡ some (code, n))
unfolding sync_log
sync_log_total [] clears h = absurd h
sync_log_total (synced ∷ answers) clears h = (ok, clears, refl)
sync_log_total (SyncAnswer.no_space ∷ answers) clears h = sync_log_total answers (clears + 1) h
sync_log_total (bad_fd ∷ answers) clears h = (error, clears, refl)
sync_log_total (SyncAnswer.failed ∷ answers) clears h = (error, clears, refl)

-- With less than a full buffer there is room for the end mark at once.
roomy :
    (answers : List WriteAnswer) (s : Output)
    → length s.pending < file_buffer_size
    → write_while file_buffer_size (take file_min_write) answers s ≡ some (s, answers)
unfolding write_while
roomy [] s h = rw (lt→leb file_buffer_size (length s.pending) h)
roomy (a ∷ answers) s h = rw (lt→leb file_buffer_size (length s.pending) h)

flushed :
    (flush : Bool) (answers : List SyncAnswer) (clears : ℕ)
    → Settles answers
    → (code : ReturnCode) × (n : ℕ) × ((if flush
          then sync_log answers clears
          else some (ok, clears))
        ≡ some (code, n))
flushed true answers clears h = sync_log_total answers clears h
flushed false answers clears h = (ok, clears, refl)

pub finish_log_file_total :
    (a : FinishAnswers) (flush : Bool) (log : LogFile) (file : List ℕ) (clears : ℕ)
    → length log.buffer < file_buffer_size
    → length log.buffer + 1 ≤ progress a.writes
    → Settles a.syncs
    → (s : Started) × (finish_log_file a flush log file clears ≡ some s)
      × (s.file ≡ file ++ (log.buffer ++ 255 ∷ []))
unfolding finish_log_file
finish_log_file_total a flush log file clears room enough settles =
    let s : Output = record { pending = log.buffer; file = file; clears = clears } in
    let marked : Output = record s { pending = log.buffer ++ 255 ∷ [] } in
    let (done, rest, e2) =
      write_while_total 1 (λ p. p) (omega arith) (λ p h. h) a.writes marked
        (omega (arith, length-append log.buffer (255 ∷ []))) in
    let (code, n, e3) = flushed flush a.syncs done.clears settles in
    let (log', code') = close_log code a.close (record log { buffer = log.buffer ++ 255 ∷ [] }) in
    let result : Started = record { log = log'; file = done.file; clears = n; code = code' } in
    let returned : finish_log_file a flush log file clears ≡ some result =
      rw (roomy a.writes s room, e2, e3) in
    (result, returned, finish_log_file-file a flush log file clears returned)
