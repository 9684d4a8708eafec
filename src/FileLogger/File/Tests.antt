-- ===== src/FileLogger/File/Tests.antt =====
-- The log file at concrete inputs.
use pnet2csv.Common.{
  ℕ, ◌<◌, ◌≡◌, ◌≢◌, refl, List, [], ◌∷◌, some, true, arith, length, ok, zero, suc,
}
use pnet2csv.FileLogger.File.{
  wrote, synced, bad_fd, SyncAnswer, CreateAnswer, created, exists, LogFile, Output, Started,
  log_header, header_written, finish_log_file, StartAnswers, FinishAnswers, write_while,
  WriteAnswer, write_once,
}
use pnet2csv.FileLogger.File.Writes.{stream, progress, write_while_lem}
use pnet2csv.FileLogger.File.Header.{stream-header_written_partial}
use pnet2csv.FileLogger.File.Finish.{finish_log_file_total}

abbrev three : Output
three = record { pending = 1 ∷ 2 ∷ 3 ∷ []; file = 9 ∷ []; clears = 0 }

abbrev two_writes : List WriteAnswer
two_writes = wrote 1 ∷ WriteAnswer.no_space ∷ wrote 2 ∷ wrote 1 ∷ []

abbrev all_written : Output
all_written = record { pending = []; file = 9 ∷ 1 ∷ 2 ∷ 3 ∷ []; clears = 1 }

write_while_lem_example : (stream all_written ≡ stream three) × (length all_written.pending < 1)
unfolding write_while write_once
write_while_lem_example =
    write_while_lem 1 (λ p. p) two_writes three {t = all_written} {rest = wrote 1 ∷ []} refl

abbrev open_log : LogFile
open_log = record { fd = some 5; buffer = 7 ∷ []; bigendian = true }

abbrev answers : FinishAnswers
answers = record {
  writes = WriteAnswer.failed ∷ wrote 1 ∷ wrote 1 ∷ [];
  syncs = SyncAnswer.no_space ∷ bad_fd ∷ [];
  close = true;
}

finish_log_file_total_example :
    (s : Started) × (finish_log_file answers true open_log (4 ∷ []) 0 ≡ some s)
    × (s.file ≡ 4 ∷ 7 ∷ 255 ∷ [])
unfolding progress
finish_log_file_total_example =
    finish_log_file_total answers true open_log (4 ∷ []) 0 (omega arith) (omega arith) tt

-- The first two names exist.
abbrev third : ℕ → CreateAnswer
third zero = created 8
third (suc zero) = exists
third (suc (suc zero)) = exists
third (suc (suc (suc i))) = created 8

abbrev start_answers : StartAnswers
start_answers = record {
  log_dir = true;
  day_dir = true;
  opened = true;
  create = third;
  header_write = wrote 8;
  header_syncs = synced ∷ [];
}

abbrev started : Started
started = record {
  log = record { fd = some 8; buffer = []; bigendian = true };
  file = 0x61 ∷ 0x0B ∷ 0xE7 ∷ 0xEC ∷ 0x50 ∷ 0x4E ∷ 1 ∷ 64 ∷ [];
  clears = 0;
  code = ok;
}

stream-header_written_partial_example : stream (header_written (wrote 3) true 0) ≢ log_header true
stream-header_written_partial_example =
    stream-header_written_partial 3 true 0 (omega arith) (omega arith)
