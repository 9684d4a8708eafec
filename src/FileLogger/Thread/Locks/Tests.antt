-- ===== src/FileLogger/Thread/Locks/Tests.antt =====
-- A call of `addLogEntry` while the logging thread changes files.
use mathlib.Core.Option.{some, get_or}
use pnet2csv.Common.{
  ◌≡◌, refl, inr, List, [], ◌∷◌, true, arith, store_bytes, store_byte, load_bytes, length, All,
}
use pnet2csv.Host.LittleEndian.{little_endian}
use pnet2csv.FileLogger.Tests.{noon, noon-IsDtl, words, good_rotation}
use pnet2csv.FileLogger.Entry.{no_time, same_log, store_entry, load_timestamp}
use pnet2csv.FileLogger.Buffer.{add_log_entry}
use pnet2csv.FileLogger.File.{start_log_file, log_header, write_once, write_buffer, write_while}
use pnet2csv.FileLogger.Thread.{Event, run, initial, step}
use pnet2csv.FileLogger.Thread.Stream.{IsSound, IsRegular}
use pnet2csv.FileLogger.Thread.Locks.{Locked, Action, call, look, change, write, act_all, unlocked}
use pnet2csv.FileLogger.Thread.Locks.Halves.{IsAt}
use pnet2csv.FileLogger.Thread.Locks.Serial.{act_all-serial, event_calls, action_calls}

abbrev actions : List Action
actions =
    call true noon words
    ∷ look no_time
    ∷ call true noon words
    ∷ change good_rotation
    ∷ write []
    ∷ look no_time
    ∷ []

abbrev after_actions : Locked
after_actions = get_or (act_all little_endian unlocked actions) unlocked

-- Both entries are in the file buffer, behind the header.
both_copied : length after_actions.system.thread.log.buffer ≡ 282
unfolding act_all step add_log_entry store_entry store_bytes store_byte same_log load_timestamp
    start_log_file log_header write_once write_buffer write_while load_bytes
both_copied = refl

act_all-serial_example :
    ((es : List Event) × All IsRegular es
      × (run little_endian initial es ≡ some after_actions.system)
      × (event_calls es ≡ action_calls actions))
    × IsSound true after_actions.system
    × IsAt little_endian after_actions.system after_actions.phase
unfolding act_all step add_log_entry store_entry store_bytes store_byte same_log load_timestamp
    start_log_file log_header write_once write_buffer write_while load_bytes
act_all-serial_example =
    act_all-serial little_endian actions
      ((noon-IsDtl, refl), (tt, ((noon-IsDtl, refl), ((inr (omega arith), tt), (tt, (tt, tt))))))
      refl
