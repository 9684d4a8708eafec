-- ===== src/FileLogger/Reader/Tests.antt =====
-- A reader at a concrete log.
use pnet2csv.Common.{
  ◌≡◌, refl, inr, List, [], ◌∷◌, ◌++◌, map, true, some, arith, store_bytes, store_byte, load_bytes,
}
use mathlib.Core.Option.{get_or}
use pnet2csv.Host.LittleEndian.{little_endian}
use pnet2csv.FileLogger.Entry.{Dtl, no_time, same_log, store_entry, load_timestamp}
use pnet2csv.FileLogger.Buffer.{add_log_entry}
use pnet2csv.FileLogger.Buffer.Queue.{contents}
use pnet2csv.FileLogger.File.{
  log_header, start_log_file, write_buffer, write_while, write_once, finish_log_file,
}
use pnet2csv.FileLogger.Thread.{
  on_disk, remaining, initial, run, step, System, Event, add, drain, drain_entry,
}
use pnet2csv.FileLogger.Thread.Stream.{encode_all}
use pnet2csv.FileLogger.Reader.{read_log}
use pnet2csv.FileLogger.Reader.Logs.{Sample, joined, IsReadable, read_log-run}
use pnet2csv.FileLogger.Tests.{noon, noon-IsDtl, words, good_rotation, removes_first}

abbrev one : Dtl
one = record noon { hour = 13 }

-- The second entry belongs to another log.
abbrev two_logs : List Event
two_logs =
    add true noon words
    ∷ drain good_rotation no_time
    ∷ add true one words
    ∷ drain good_rotation no_time
    ∷ add true one words
    ∷ []

abbrev ended : System
ended = get_or (run little_endian initial two_logs) initial

read_two_logs : map read_log ended.thread.closed ≡ map some (((noon, words) ∷ []) ∷ [])
unfolding run step add_log_entry store_entry store_bytes store_byte drain_entry same_log
    load_timestamp start_log_file log_header write_once write_buffer write_while load_bytes
    finish_log_file read_log
read_two_logs = refl

read_log-run_example :
    (logs : List (List Sample)) × (current : List Sample) × (waiting : List Sample) × (map read_log
        (on_disk removes_first ended.thread)
      ≡ map some (remaining removes_first ended.thread.clears 0 logs))
    × IsReadable ended.thread.log.fd (ended.thread.file ++ ended.thread.log.buffer) current
    × (contents ended.logger.entries ≡ encode_all true waiting)
    × (joined logs ++ (current ++ waiting) ≡ ended.accepted)
unfolding run step add_log_entry store_entry store_bytes store_byte drain_entry same_log
    load_timestamp start_log_file log_header write_once write_buffer write_while load_bytes
    finish_log_file
read_log-run_example =
    read_log-run little_endian two_logs removes_first
      (
        (noon-IsDtl, refl),
        (
          (inr (omega arith), tt),
          ((omega arith, refl), ((inr (omega arith), tt), ((omega arith, refl), tt))),
        ),
      )
      refl (omega arith)
