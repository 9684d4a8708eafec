-- ===== src/FileLogger/File.antt =====
-- The log file of src/ports/linux/app_filelogger.c: `writeLogHeader`, `startLogFile`,
-- `finishLogFile` and the loop of `log_thread_main` that writes the file buffer out.
--
-- The operating system is a parameter: what its calls answer comes in as lists, which the retry
-- loops of the source take from the front. A loop whose answers run out gives `none`, since the
-- code would still be asking. `write` takes any number of bytes up to those it is handed.
pub mod Writes
pub mod Start
pub mod Finish
pub mod Opening
mod Tests
pub mod Header
use pnet2csv.Common.{
  ℕ, zero, suc, ◌+◌, ◌-◌, ◌/◌, List, [], ◌∷◌, ◌++◌, Bool, true, false, not, ◌&&◌, Option, none,
  some, length, take, drop, leb, ltb, if◌then◌else◌, ReturnCode, ok, error, ◌>>=◌, min,
}
use pnet2csv.FileLogger.Entry.{var64_size}

-- FILE_MIN_WRITE and FILE_BUFFER_SIZE
abbrev pub file_min_write : ℕ
file_min_write = 4096

abbrev pub file_buffer_size : ℕ
file_buffer_size = 32768

-- What `write` answers: a count, ENOSPC or EDQUOT, or another error.
pub data WriteAnswer : Type 0 where
  wrote : ℕ → WriteAnswer
  no_space failed : WriteAnswer

-- What `fsync` answers: 0, ENOSPC or EDQUOT, EBADF, or another error.
pub data SyncAnswer : Type 0 where
  synced no_space bad_fd failed : SyncAnswer

-- `log_file_t`. `buffer` is the part of the array below `buf_end`; nothing reads beyond it.
pub record LogFile : Type 0 where
  -- `none` is -1
  pub fd : Option ℕ
  pub buffer : List ℕ
  pub bigendian : Bool

-- A loop of writes: what is still to be written, what the file holds, and how often `deleteOldest`
-- was called; which files are left after so many calls is `on_disk` of FileLogger.Thread.
pub record Output : Type 0 where
  pub pending : List ℕ
  pub file : List ℕ
  pub clears : ℕ

-- One `write` of the bytes `request pending`.
unfoldable pub write_once : (List ℕ → List ℕ) → WriteAnswer → Output → Output
write_once request (wrote n) s =
    let k = min n (length (request s.pending)) in
    record s { pending = drop k s.pending; file = s.file ++ take k s.pending }
write_once request WriteAnswer.no_space s = record s { clears = s.clears + 1 }
write_once request WriteAnswer.failed s = s

-- `while (length pending >= least) write (request pending)`
unfoldable pub write_while :
    ℕ → (List ℕ → List ℕ) → List WriteAnswer → Output → Option (Output × List WriteAnswer)
write_while least request [] s = if leb least (length s.pending) then none else some (s, [])
write_while least request (a ∷ answers) s =
    let again = write_while least request answers (write_once request a s) in
    if leb least (length s.pending) then again else some (s, a ∷ answers)

-- The write of the main loop, after the entry buffer was drained.
unfoldable pub write_buffer : List WriteAnswer → Output → Option (Output × List WriteAnswer)
write_buffer = write_while file_min_write (λ pending. pending)

-- The magic number, the byte order, the version, and the number of words.
unfoldable pub log_header : Bool → List ℕ
log_header bigendian =
    0x61
    ∷ 0x0B
    ∷ 0xE7
    ∷ 0xEC
    ∷ (if bigendian then 0x50 else 0x4E)
    ∷ (if bigendian then 0x4E else 0x50)
    ∷ 1
    ∷ (var64_size / 2)
    ∷ []

-- The `fsync` loop of `writeLogHeader`: only EBADF ends it with an error.
unfoldable pub sync_header : List SyncAnswer → ℕ → Option (ReturnCode × ℕ)
sync_header [] clears = none
sync_header (synced ∷ answers) clears = some (ok, clears)
sync_header (SyncAnswer.no_space ∷ answers) clears = sync_header answers (clears + 1)
sync_header (bad_fd ∷ answers) clears = some (error, clears)
sync_header (SyncAnswer.failed ∷ answers) clears = sync_header answers clears

-- `writeLogHeader` on a file just opened: the file buffer and the file after the write. What was
-- not written is to be kept for later: the code copies the first bytes of the header again.
unfoldable pub header_written : WriteAnswer → Bool → ℕ → Output
header_written answer bigendian clears =
    let header = log_header bigendian in
    let o = write_once (λ p. p) answer (record { pending = header; file = []; clears = clears }) in
    let remnant = length header - length o.file in record o { pending = take remnant header }

-- What `openat` with O_CREAT and O_EXCL answers: a descriptor, EEXIST, or another error.
pub data CreateAnswer : Type 0 where
  created : ℕ → CreateAnswer
  exists denied : CreateAnswer

-- What the calls of one `startLogFile` answer.
pub record StartAnswers : Type 0 where
  -- Is the log directory open?
  pub log_dir : Bool
  -- Was the directory of the day made, or is it there?
  pub day_dir : Bool
  -- Could it be opened?
  pub opened : Bool
  -- The answer for the file name with this copy number; 1 is the name without a number.
  pub create : ℕ → CreateAnswer
  pub header_write : WriteAnswer
  pub header_syncs : List SyncAnswer

-- The bare name, then the copies from 2 to 9, until one does not exist yet: from copy `i` on, for
-- so many rounds. The descriptor comes with its copy number.
unfoldable pub create_log : (ℕ → CreateAnswer) → ℕ → ℕ → Option (ℕ × ℕ)
create_log create zero i = none
create_log create (suc rounds) i = elim (create i) [
  | created fd ↦ some (fd, i)
  | exists ↦ create_log create rounds (i + 1)
  | denied ↦ none
]

-- What `startLogFile` leaves: the log, the contents of its file, the number of clearances, and
-- the return code.
pub record Started : Type 0 where
  pub log : LogFile
  pub file : List ℕ
  pub clears : ℕ
  pub code : ReturnCode

-- `writeLogHeader`: `none` while the synchronisation is still retried.
unfoldable pub write_log_header : WriteAnswer → List SyncAnswer → LogFile → ℕ → Option Started
unfolding header_written sync_header
write_log_header answer syncs log clears = do
  let o = header_written answer log.bigendian clears
  (code, clears') ← sync_header syncs o.clears
  some (record {
    log = record log { buffer = o.pending };
    file = o.file;
    clears = clears';
    code = code;
  })

-- `startLogFile`. A failure before the file exists leaves the descriptor and the old file alone.
unfoldable pub start_log_file : StartAnswers → LogFile → List ℕ → ℕ → Option Started
unfolding create_log write_log_header
start_log_file a log file clears =
    let emptied : LogFile = record log { buffer = [] } in
    let refused : Started = record { log = emptied; file = file; clears = clears; code = error } in
    if not (a.log_dir && (a.day_dir && a.opened))
    then some refused
    else elim (create_log a.create 9 1) [
      | none ↦ some refused
      | some (fd, copy) ↦
          write_log_header a.header_write a.header_syncs
            (record emptied { fd = some fd; bigendian = true }) clears
    ]

-- Does the start get as far as a file of its own?
unfoldable pub makes_file : StartAnswers → Bool
unfolding create_log
makes_file a =
    a.log_dir
    && (a.day_dir && (a.opened && elim (create_log a.create 9 1) [ none ↦ false | some _ ↦ true ]))

-- What the calls of one `finishLogFile` answer.
pub record FinishAnswers : Type 0 where
  pub writes : List WriteAnswer
  pub syncs : List SyncAnswer
  pub close : Bool

-- The `fsync` loop of `finishLogFile`.
unfoldable pub sync_log : List SyncAnswer → ℕ → Option (ReturnCode × ℕ)
sync_log [] clears = none
sync_log (synced ∷ answers) clears = some (ok, clears)
sync_log (SyncAnswer.no_space ∷ answers) clears = sync_log answers (clears + 1)
sync_log (bad_fd ∷ answers) clears = some (error, clears)
sync_log (SyncAnswer.failed ∷ answers) clears = some (error, clears)

-- The end of `finishLogFile`, after the synchronisation: `close`, whose answer is given.
unfoldable pub close_log : ReturnCode → Bool → LogFile → LogFile × ReturnCode
close_log error closed log = (log, error)
close_log ok false log = (log, error)
close_log ok true log = (record log { fd = none }, ok)

-- `finishLogFile`: make room for one byte, add the end mark, write all, synchronise, close. The
-- file buffer keeps its bytes; `startLogFile` empties it.
unfoldable pub finish_log_file : FinishAnswers → Bool → LogFile → List ℕ → ℕ → Option Started
unfolding write_while sync_log close_log
finish_log_file a flush log file clears = do
  (room, writes) ←
      write_while file_buffer_size (take file_min_write) a.writes
        (record { pending = log.buffer; file = file; clears = clears })
  let marked = room.pending ++ 255 ∷ []
  (done, _) ← write_while 1 (λ p. p) writes (record room { pending = marked })
  (code, clears') ← if flush then sync_log a.syncs done.clears else some (ok, done.clears)
  let (log', code') = close_log code a.close (record log { buffer = marked })
  some (record { log = log'; file = done.file; clears = clears'; code = code' })
