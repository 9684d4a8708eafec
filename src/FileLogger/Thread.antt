-- ===== src/FileLogger/Thread.antt =====
-- The logging thread, `log_thread_main` of src/ports/linux/app_filelogger.c, and the two threads
-- together.
--
-- The thread holds the mutex for one pass of its inner loop, except while it changes files, which
-- touches no shared state; so an entry added during that time is as one added before the pass, and
-- a history of the program is a list of whole passes, calls of `addLogEntry` and writes.
pub mod Stream
pub mod Rotate
pub mod Conserve
pub mod Invariant
pub mod Progress
pub mod Rounds
pub mod Locks
pub mod Dated
pub mod Passes
pub mod Loops
pub mod Drained
pub mod Removed
use pnet2csv.Common.{
  ℕ, zero, suc, ◌+◌, ◌*◌, ◌/◌, ◌%◌, ◌^◌, List, [], ◌∷◌, ◌++◌, Bool, true, false, Option, none, some,
  length, load_bytes, leb, ltb, ◌==◌, if◌then◌else◌, ReturnCode, ok, error, ◌>>=◌,
}
use pnet2csv.Host.{Host}
use pnet2csv.FileLogger.Entry.{
  Dtl, entry_size, entry_buffer_size, no_time, same_log, load_timestamp,
}
use pnet2csv.FileLogger.Buffer.{EntryBuffer, Logger, add_log_entry}
use pnet2csv.FileLogger.File.{
  WriteAnswer, LogFile, Started, StartAnswers, start_log_file, makes_file, FinishAnswers,
  finish_log_file, write_buffer, file_buffer_size,
}

-- FREE_SPACE_PERCENT
abbrev pub free_space_percent : ℕ
free_space_percent = 20

-- The local variables of the thread, what was written to the file that `log.fd` refers to and to each of
-- the files before it, and the number of calls of `deleteOldest`. A file that `deleteOldest` unlinks while
-- it is open still takes writes; `on_disk` is the files before it that are still in their directory.
pub record Thread : Type 0 where
  pub log : LogFile
  pub log_start : Dtl
  pub file : List ℕ
  pub closed : List (List ℕ)
  pub clears : ℕ

-- Did one of the first `clears` calls of `deleteOldest` remove the file with this number? Which files each
-- call removes is up to the log directory and what it answers: a call removes any number of them.
unfoldable pub was_removed : (ℕ → ℕ → Bool) → ℕ → ℕ → Bool
was_removed removes zero i = false
was_removed removes (suc call) i = if removes call i then true else was_removed removes call i

-- Those of the files, numbered from `i` on, that the calls have left.
unfoldable pub remaining {ℓ} : {A : Type ℓ} → (ℕ → ℕ → Bool) → ℕ → ℕ → List A → List A
unfolding was_removed
remaining removes clears i [] = []
remaining removes clears i (x ∷ xs) =
    let rest = remaining removes clears (i + 1) xs in
    if was_removed removes clears i then rest else x ∷ rest

-- The files before the current one that `deleteOldest` has left.
unfoldable pub on_disk : (ℕ → ℕ → Bool) → Thread → List (List ℕ)
unfolding remaining
on_disk removes t = remaining removes t.clears 0 t.closed

-- What the calls of one change of files answer.
pub record RotateAnswers : Type 0 where
  pub finish : FinishAnswers
  -- `f_bfree` and `f_blocks` of `fstatvfs`, if it succeeds.
  pub space : Option (ℕ × ℕ)
  pub starts : List StartAnswers

-- Less than the wanted share of the blocks is free.
unfoldable pub low_space : Option (ℕ × ℕ) → Bool
low_space none = false
low_space (some (free, blocks)) = ltb (100 * free % 2 ^ 64 / blocks) free_space_percent

-- `startLogFile`, again and again until it succeeds. A start that fails after it made a file leaves that
-- file behind: `left_behind`.
unfoldable pub start_until : List StartAnswers → LogFile → List ℕ → ℕ → Option Started
start_until [] log file clears = none
start_until (a ∷ answers) log file clears = start_log_file a log file clears >>= λ s. elim s.code [
  | ok ↦ some s
  | error ↦ start_until answers s.log s.file s.clears
]

-- The files that failed starts leave behind: the descriptor is overwritten by the next start.
unfoldable pub left_behind : List StartAnswers → LogFile → List ℕ → ℕ → List (List ℕ)
left_behind [] log file clears = []
left_behind (a ∷ answers) log file clears = elim (start_log_file a log file clears) [
  | none ↦ []
  | some s ↦ elim s.code [
    | ok ↦ []
    | error ↦
        let more = left_behind answers s.log s.file s.clears in
        if makes_file a then s.file ∷ more else more
  ]
]

-- `if (current_log.fd >= 0) finishLogFile (&current_log, true)`, whose result is not looked at.
unfoldable pub finish_current : FinishAnswers → Thread → Option Thread
finish_current a t = elim t.log.fd [
  | none ↦ some t
  | some fd ↦ do
    s ← finish_log_file a true t.log t.file t.clears
    some (record t {
      log = s.log;
      file = s.file;
      closed = t.closed ++ s.file ∷ [];
      clears = s.clears;
    })
]

-- The change to the log of another ten minutes.
unfoldable pub rotate : RotateAnswers → Thread → Dtl → Option Thread
unfolding finish_current start_until low_space
rotate a t entry_ts = do
  t' ← finish_current a.finish t
  let clears = if low_space a.space then t'.clears + 1 else t'.clears
  s ← start_until a.starts t'.log t'.file clears
  some (record t' { log = s.log; log_start = entry_ts; file = s.file; clears = s.clears })

-- `entries->start` put back on an entry.
unfoldable pub align_start : EntryBuffer → EntryBuffer
align_start b =
    if b.start % entry_size == 0 then b else record b { start = b.start / entry_size * entry_size }

-- The end of a pass: copy the entry to the file buffer behind a 0, unless there is no file or no
-- room. The last component tells whether the inner loop goes on.
unfoldable pub copy_entry : Thread → EntryBuffer → Thread × EntryBuffer × Bool
copy_entry t b = elim t.log.fd [
  | none ↦ (t, b, false)
  | some fd ↦
      if leb file_buffer_size (length t.log.buffer + (entry_size + 1)) then (t, b, false) else (
        record t {
          log = record (t.log) {
            buffer = t.log.buffer ++ (0 ∷ load_bytes b.buffer b.start entry_size);
          };
        },
        record b { start = (b.start + entry_size) % entry_buffer_size },
        true,
      )
]

-- One pass of the inner loop, at a buffer that is not empty.
unfoldable pub drain_entry :
    Host → Bool → RotateAnswers → Dtl → Thread → EntryBuffer → Option (Thread × EntryBuffer × Bool)
unfolding rotate align_start copy_entry
drain_entry h bigendian a stale t b = do
  let aligned = align_start b
  let entry_ts = load_timestamp h bigendian aligned.buffer aligned.start stale
  t' ← if same_log t.log_start entry_ts then some t else rotate a t entry_ts
  some (copy_entry t' aligned)

-- The write after the inner loop.
unfoldable pub flush_buffer : List WriteAnswer → Thread → Option Thread
flush_buffer answers t = elim t.log.fd [
  | none ↦ some t
  | some fd ↦ do
    (o, _) ←
        write_buffer answers (record { pending = t.log.buffer; file = t.file; clears = t.clears })
    some
        (record t { log = record (t.log) { buffer = o.pending }; file = o.file; clears = o.clears })
]

-- Both threads. `accepted` is a history variable: the calls that `addLogEntry` took.
pub record System : Type 0 where
  pub logger : Logger
  pub thread : Thread
  pub accepted : List (Dtl × List ℕ)

pub data Event : Type 0 where
  -- `addLogEntry` with 64 words, and whether a mutex would be made
  add : Bool → Dtl → List ℕ → Event
  drain : RotateAnswers → Dtl → Event
  flush : List WriteAnswer → Event

abbrev pub record_accepted : ReturnCode → Dtl → List ℕ → List (Dtl × List ℕ) → List (Dtl × List ℕ)
record_accepted ok t words past = past ++ (t, words) ∷ []
record_accepted error t words past = past

unfoldable pub step : Host → System → Event → Option System
unfolding drain_entry flush_buffer
step h s (add created t words) =
    let (l, code) = add_log_entry h created s.logger t words 64 in
    some (record s { logger = l; accepted = record_accepted code t words s.accepted })
step h s (drain a stale) =
    let b = s.logger.entries in
    if b.start == b.end
    then some s
    else (drain_entry h s.logger.bigendian a stale s.thread b >>= λ (t, b', _).
        some (record s { thread = t; logger = record (s.logger) { entries = b' } }))
step h s (flush answers) = flush_buffer answers s.thread >>= λ t. some (record s { thread = t })

unfoldable pub run : Host → System → List Event → Option System
run h s [] = some s
run h s (e ∷ es) = step h s e >>= λ s'. run h s' es

-- The static variables and the locals of the thread at the start of the program.
abbrev pub initial : System
initial = record {
  logger = record {
    mutex = false;
    threads = 0;
    entries = record { start = 0; end = 0; buffer = λ _. 0 };
    bigendian = true;
    drop_count = 0;
    next_logged_drop = 2;
  };
  thread = record {
    log = record { fd = none; buffer = []; bigendian = false };
    log_start = no_time;
    file = [];
    closed = [];
    clears = 0;
  };
  accepted = [];
}
