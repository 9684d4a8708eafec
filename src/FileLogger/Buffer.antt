-- ===== src/FileLogger/Buffer.antt =====
-- `entry_buffer_t` of src/ports/linux/app_filelogger.h, `addLogEntry` and
-- `initialiseLoggerThread` of app_filelogger.c. The file's static variables are the fields of
-- `Logger`. What is printed is left out; the counters that decide on it are kept.
pub mod Queue
use pnet2csv.Common.{
  ℕ, ◌+◌, ◌*◌, ◌%◌, ◌^◌, List, Bool, true, false, ◌&&◌, not, Memory, ReturnCode, ok, error,
  if◌then◌else◌, ◌==◌, leb,
}
use pnet2csv.Host.{Host}
use pnet2csv.FileLogger.Entry.{Dtl, entry_size, entry_buffer_size, store_entry}

pub record EntryBuffer : Type 0 where
  pub start : ℕ
  pub end : ℕ
  pub buffer : Memory

pub record Logger : Type 0 where
  -- Is `mutex` set?
  pub mutex : Bool
  -- How many logging threads have been created.
  pub threads : ℕ
  pub entries : EntryBuffer
  pub bigendian : Bool
  pub drop_count : ℕ
  pub next_logged_drop : ℕ

-- `created` is whether `os_mutex_create` gives a mutex. Where it does not, the thread is started all the
-- same, and the next call starts one more; `threads` counts them.
unfoldable pub initialise_logger_thread : Bool → Logger → Logger
initialise_logger_thread created l = record l { mutex = created; threads = l.threads + 1 }

-- The branch that finds the buffer full.
unfoldable pub drop_entry : Logger → Logger
drop_entry l =
    let drop_count = (l.drop_count + 1) % 2 ^ 32 in
    record l {
      drop_count = drop_count;
      next_logged_drop =
          if leb l.next_logged_drop drop_count
          then l.next_logged_drop * 5 % 2 ^ 32
          else l.next_logged_drop;
    }

-- The end of a run of dropped entries.
unfoldable pub recover_from_drop : Logger → Logger
recover_from_drop l =
    if l.drop_count == 0 then l else record l { drop_count = 0; next_logged_drop = 2 }

unfoldable pub is_full : EntryBuffer → Bool
is_full b = (b.end + entry_size) % entry_buffer_size == b.start

module _ (h : Host) where
  unfoldable pub append_entry : Bool → EntryBuffer → Dtl → List ℕ → ℕ → EntryBuffer
  append_entry bigendian b timestamp word_data word_count = record b {
    buffer = store_entry h bigendian b.buffer b.end timestamp word_data word_count;
    end = (b.end + entry_size) % entry_buffer_size;
  }

  unfoldable pub add_log_entry : Bool → Logger → Dtl → List ℕ → ℕ → Logger × ReturnCode
  unfolding append_entry drop_entry recover_from_drop is_full initialise_logger_thread
  add_log_entry created logger timestamp word_data word_count =
      let l = if logger.mutex then logger else initialise_logger_thread created logger in
      if timestamp.year == 0
      then (l, error)
      else (if is_full l.entries
          then (drop_entry l, error)
          else (let r = recover_from_drop l in
              (
                record r {
                  entries = append_entry r.bigendian r.entries timestamp word_data word_count;
                },
                ok,
              )))
