-- ===== src/FileLogger/Tests.antt =====
-- The file logger at concrete inputs: runs of the model, and the theorems applied.
use mathlib.Core.Option.{some, get_or}
use pnet2csv.Common.{
  ℕ, ◌≢◌, inl, ◌+◌, ◌≡◌, refl, inr, List, [], ◌∷◌, ◌++◌, none, true, arith, replicate, store_bytes,
  store_byte, load_bytes, load_bytes-store_bytes, take,
}
use pnet2csv.Host.LittleEndian.{little_endian}
use pnet2csv.FileLogger.Entry.{Dtl, IsDtl, no_time, same_log, store_entry, load_timestamp}
use pnet2csv.FileLogger.Entry.Codec.{encode, load_timestamp_lem, SameStart, store_entry_lem}
use pnet2csv.FileLogger.Buffer.{Logger, add_log_entry}
use pnet2csv.FileLogger.Buffer.Queue.{IsValid, contents, push, add_log_entry_refines}
use pnet2csv.FileLogger.File.{
  wrote, synced, created, log_header, start_log_file, write_buffer, StartAnswers, write_while,
  write_once,
}
use pnet2csv.FileLogger.Thread.{
  initial, run, step, System, Event, add, drain, flush, RotateAnswers, drain_entry,
}
use pnet2csv.FileLogger.Thread.Stream.{IsSound, whole, concat, IsOpen, encode_all}
use pnet2csv.FileLogger.Thread.{on_disk, remaining}
use pnet2csv.FileLogger.Thread.Removed.{run-on_disk}
use pnet2csv.FileLogger.Thread.{left_behind}
use pnet2csv.FileLogger.File.{makes_file, bad_fd}
use pnet2csv.Common.{Bool, ◌==◌}
use pnet2csv.FileLogger.Thread.Rounds.{
  PassAnswers, ThreadAnswers, thread_rounds, thread_round, inner_loop,
}
use pnet2csv.FileLogger.Thread.Passes.{IsPatient, IsPatientRound}
use pnet2csv.FileLogger.Thread.Drained.{thread_rounds_drain}
use pnet2csv.FileLogger.File.{file_min_write, file_buffer_size, WriteAnswer}
use pnet2csv.Common.{length, zero, suc, ap, All-replicate, map, ◌<◌, ◌⊎◌}
use mathlib.Core.Option
use pnet2csv.FileLogger.File.Writes.{progress}
use pnet2csv.FileLogger.File.{create_log}
use pnet2csv.FileLogger.Buffer.Queue.{contents}

abbrev pub noon : Dtl
noon = record {
  year = 2023;
  month = 12;
  day = 1;
  weekday = 6;
  hour = 12;
  minute = 34;
  second = 56;
  nanosecond = 789;
}

abbrev pub noon-IsDtl : IsDtl noon
noon-IsDtl = omega arith

abbrev pub words : List ℕ
words = replicate 128 7

abbrev pub good_start : StartAnswers
good_start = record {
  log_dir = true;
  day_dir = true;
  opened = true;
  create = λ i. created (i + 3);
  header_write = wrote 8;
  header_syncs = synced ∷ [];
}

abbrev pub good_rotation : RotateAnswers
good_rotation = record {
  finish = record { writes = wrote 40000 ∷ []; syncs = synced ∷ []; close = true };
  space = none;
  starts = good_start ∷ [];
}

abbrev history : List Event
history = add true noon words ∷ drain good_rotation no_time ∷ flush [] ∷ []

abbrev after : System
after = get_or (run little_endian initial history) initial

-- The entry went from the ring to the file buffer.
after_file :
    after.thread.file ++ after.thread.log.buffer ≡ log_header true ++ (0 ∷ encode true noon words)
unfolding run step add_log_entry store_entry store_bytes store_byte drain_entry same_log
    load_timestamp start_log_file log_header write_once write_buffer write_while load_bytes encode
after_file = refl

-- Each call of `deleteOldest` removes the first file.
abbrev pub removes_first : ℕ → ℕ → Bool
removes_first call i = i == 0

run-on_disk_example :
    (v : IsSound true after) × (on_disk removes_first after.thread
      ≡ map whole (remaining removes_first after.thread.clears 0 v.groups))
    × ((after.thread.clears ≢ 0) ⊎ (on_disk removes_first after.thread ≡ after.thread.closed))
unfolding run step add_log_entry store_entry store_bytes store_byte drain_entry same_log
    load_timestamp start_log_file log_header write_once write_buffer write_while load_bytes
run-on_disk_example =
    run-on_disk little_endian history removes_first
      ((noon-IsDtl, refl), ((inr (omega arith), tt), (tt, tt))) refl (omega arith)

abbrev empty_logger : Logger
empty_logger = initial.logger

abbrev empty-IsValid : IsValid empty_logger.entries
empty-IsValid = record {
  start_lt = omega arith;
  end_lt = omega arith;
  start_aligned = refl;
  end_aligned = refl;
}

add_log_entry_refines_example :
    (
      contents (add_log_entry little_endian true empty_logger noon words 64).0.entries,
      (add_log_entry little_endian true empty_logger noon words 64).1,
    )
    ≡ push (contents empty_logger.entries) (encode true noon words)
add_log_entry_refines_example =
    add_log_entry_refines little_endian true empty_logger noon words empty-IsValid noon-IsDtl refl
      (omega arith)

store_entry_lem_example :
    store_entry little_endian true (λ _. 0) 140 noon words 64
    ≡ store_bytes (λ _. 0) 140 (encode true noon (take 128 words))
store_entry_lem_example = store_entry_lem little_endian true (λ _. 0) 140 noon words 64 noon-IsDtl

abbrev encoded : List ℕ
encoded = encode true noon words

load_timestamp_lem_example :
    SameStart
      (load_timestamp little_endian true (store_bytes (λ _. 0) 140 encoded) 140 no_time)
      noon
unfolding encode
load_timestamp_lem_example =
    load_timestamp_lem little_endian true (store_bytes (λ _. 0) 140 encoded) 140 no_time noon words
      noon-IsDtl refl (load_bytes-store_bytes (λ _. 0) 140 encoded)

-- The ring with one entry.
abbrev stored : System
stored = get_or (run little_endian initial (add true noon words ∷ [])) initial

-- Writes that take a byte each.
pub slow_writes : ℕ → List WriteAnswer
slow_writes n = replicate n (wrote 1)

progress-slow_writes : (n : ℕ) → progress (slow_writes n) ≡ n
unfolding progress slow_writes
progress-slow_writes zero = refl
progress-slow_writes (suc n) = ap suc (progress-slow_writes n)

abbrev pub good_pass : PassAnswers
good_pass = record {
  rotates = record good_rotation {
    finish = record { writes = slow_writes file_buffer_size; syncs = synced ∷ []; close = true };
  };
  stale = no_time;
}

abbrev pub good_round : ThreadAnswers
good_round = record { passes = replicate 255 good_pass; writes = slow_writes file_buffer_size }

good_pass-IsPatient : IsPatient good_pass
unfolding create_log
good_pass-IsPatient = record {
  writes_on = omega (arith, progress-slow_writes file_buffer_size);
  settles = tt;
  starts = inl (refl, (λ e. cc e), tt);
  headers = (inr (omega arith), tt);
}

pub good_round-IsPatient : IsPatientRound good_round
good_round-IsPatient = record {
  enough = omega arith;
  patient = All-replicate IsPatient 255 good_pass good_pass-IsPatient;
  writes_on = omega (arith, progress-slow_writes file_buffer_size);
}

thread_rounds_drain_example :
    (u : System) × (thread_rounds little_endian (good_round ∷ good_round ∷ good_round ∷ []) stored
      ≡ some u)
    × (contents u.logger.entries ≡ [])
    × ((groups : List (List (List ℕ))) × (current : List (List ℕ)) × (on_disk removes_first u.thread
          ≡ map whole (remaining removes_first u.thread.clears 0 groups))
        × IsOpen u.thread.log.fd (u.thread.file ++ u.thread.log.buffer) current
        × (concat groups ++ current ≡ encode_all true stored.accepted))
    × ((u.thread.log.fd ≡ none) ⊎ (length u.thread.log.buffer < file_min_write))
unfolding run step add_log_entry store_entry store_bytes store_byte
thread_rounds_drain_example =
    thread_rounds_drain little_endian (add true noon words ∷ []) good_round good_round good_round
      removes_first ((noon-IsDtl, refl), tt) refl (omega arith) good_round-IsPatient
      good_round-IsPatient good_round-IsPatient

-- One round with one entry moves it to the file buffer.
drained_buffer :
    Option.map (λ u. length u.thread.log.buffer) (thread_round little_endian good_round stored)
    ≡ some 141
unfolding run step add_log_entry store_entry store_bytes store_byte thread_round inner_loop
    drain_entry same_log load_timestamp start_log_file log_header write_once write_buffer
    write_while load_bytes slow_writes
drained_buffer = refl

-- The first start makes a file and fails to synchronise it.
abbrev bad_start : StartAnswers
bad_start = record good_start { header_syncs = bad_fd ∷ [] }

one_left_behind :
    left_behind (bad_start ∷ good_start ∷ []) initial.thread.log [] 0 ≡ log_header true ∷ []
unfolding left_behind start_log_file makes_file write_once log_header
one_left_behind = refl

-- Of two files, the second is left after a call.
second_remains : remaining {A = ℕ} removes_first 1 0 (1 ∷ 2 ∷ []) ≡ 2 ∷ []
unfolding remaining
second_remains = refl
