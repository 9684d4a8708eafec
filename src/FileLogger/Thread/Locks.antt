-- ===== src/FileLogger/Thread/Locks.antt =====
-- The two threads at the mutex of src/ports/linux/app_filelogger.c. `log_thread_main` releases it in the
-- middle of a pass, to change files, so that calls of `addLogEntry` come in between; it then goes on with
-- the timestamp and the address of the entry that it found before.

pub mod Oldest
pub mod Halves
pub mod Serial
mod Tests
use pnet2csv.Common.{
  ℕ, ◌+◌, ◌%◌, List, [], ◌∷◌, ◌++◌, Bool, true, false, Option, none, some, length, load_bytes, leb,
  ◌==◌, if◌then◌else◌, ◌>>=◌,
}
use pnet2csv.Host.{Host}
use pnet2csv.FileLogger.Entry.{Dtl, entry_size, entry_buffer_size, same_log, load_timestamp}
use pnet2csv.FileLogger.Buffer.{EntryBuffer}
use pnet2csv.FileLogger.File.{WriteAnswer, file_buffer_size}
use pnet2csv.FileLogger.Thread.{
  Thread, RotateAnswers, System, add, flush, rotate, align_start, step, initial,
}

-- Where the logging thread is: before a pass or a write, or in a pass, without the mutex, with `entry_ts`
-- and the offset of `entry`.
pub data Phase : Type 0 where
  between : Phase
  changing : Dtl → ℕ → Phase

pub record Locked : Type 0 where
  pub system : System
  pub phase : Phase

pub data Action : Type 0 where
  -- `addLogEntry`, which has the mutex from its first look at the buffer to its last change
  call : Bool → Dtl → List ℕ → Action
  -- A pass, to its end or to the release of the mutex, with what stands in `entry_ts`
  look : Dtl → Action
  -- From there to the end of the pass
  change : RotateAnswers → Action
  write : List WriteAnswer → Action

-- The end of a pass, with the entry at an offset.
unfoldable pub copy_from : ℕ → Thread → EntryBuffer → Thread × EntryBuffer
copy_from entry t b = elim t.log.fd [
  | none ↦ (t, b)
  | some fd ↦ if leb file_buffer_size (length t.log.buffer + (entry_size + 1)) then (t, b) else (
    record t {
      log = record (t.log) { buffer = t.log.buffer ++ (0 ∷ load_bytes b.buffer entry entry_size) };
    },
    record b { start = (b.start + entry_size) % entry_buffer_size },
  )
]

abbrev pub with_pass : System → Thread × EntryBuffer → System
with_pass s r = record s { thread = r.0; logger = record (s.logger) { entries = r.1 } }

-- The first half of a pass, at a buffer that is not empty.
unfoldable pub look_at : Host → Dtl → System → Locked
unfolding copy_from align_start
look_at h stale s =
    let b = align_start s.logger.entries in
    let entry_ts = load_timestamp h s.logger.bigendian b.buffer b.start stale in
    if same_log s.thread.log_start entry_ts
    then record { system = with_pass s (copy_from b.start s.thread b); phase = between }
    else record { system = with_pass s (s.thread, b); phase = changing entry_ts b.start }

-- An action of the thread waits for its phase: none where it is elsewhere.
unfoldable pub act_between : Host → System → Action → Option Locked
unfolding look_at step
act_between h s (call created t words) =
    step h s (add created t words) >>= λ u. some (record { system = u; phase = between })
act_between h s (look stale) =
    let b = s.logger.entries in
    some (if b.start == b.end then record { system = s; phase = between } else look_at h stale s)
act_between h s (change a) = none
act_between h s (write answers) =
    step h s (flush answers) >>= λ u. some (record { system = u; phase = between })

unfoldable pub act_changing : Host → System → Dtl → ℕ → Action → Option Locked
unfolding copy_from rotate step
act_changing h s entry_ts entry (call created t words) = step h s (add created t words) >>= λ u.
    some (record { system = u; phase = changing entry_ts entry })
act_changing h s entry_ts entry (look stale) = none
act_changing h s entry_ts entry (change a) = rotate a s.thread entry_ts >>= λ t.
    some (record { system = with_pass s (copy_from entry t s.logger.entries); phase = between })
act_changing h s entry_ts entry (write answers) = none

unfoldable pub act : Host → Locked → Action → Option Locked
unfolding act_between act_changing
act h l x = elim l.phase [
  | between ↦ act_between h l.system x
  | changing entry_ts entry ↦ act_changing h l.system entry_ts entry x
]

unfoldable pub act_all : Host → Locked → List Action → Option Locked
unfolding act
act_all h l [] = some l
act_all h l (x ∷ xs) = act h l x >>= λ l'. act_all h l' xs

abbrev pub unlocked : Locked
unlocked = record { system = initial; phase = between }
