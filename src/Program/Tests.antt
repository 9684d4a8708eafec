-- ===== src/Program/Tests.antt =====
-- A run of the whole program: two samples with another ten minutes between them.
use pnet2csv.Common.{
  ℕ, ◌≡◌, refl, List, [], ◌∷◌, map, none, some, true, arith, load_bytes, store_bytes, store_byte,
  inr, length,
}
use pnet2csv.Common.Sublists.{Sublist}
use pnet2csv.Host.LittleEndian.{little_endian}
use pnet2csv.FileLogger.Entry.{no_time}
use pnet2csv.FileLogger.Tests.{good_rotation, removes_first, good_round, good_round-IsPatient}
use pnet2csv.FileLogger.Thread.Stream.{whole, concat, encode_all}
use pnet2csv.Cyclic
use pnet2csv.Cyclic.{Sample}
use pnet2csv.Program.{
  Program, Move, tick, round, log_entry, thread_pass, thread_write, move, run, begun,
}
use pnet2csv.Program.Sampled.{IsRegularMove}
use pnet2csv.Program.Locked.{LockedProgram, LockedMove, main_task, thread, locked_run, locked_begun}
use pnet2csv.Program.Locked.Serial.{locked_run-sampled}
use pnet2csv.FileLogger.Thread.Locks.{look, change, write, act}
use pnet2csv.Common.{All}
use pnet2csv.Program.Complete.{with_year, never_full}
use pnet2csv.Program.Readable.{read_log-sampling}
use pnet2csv.FileLogger.Reader.{read_log}
use pnet2csv.FileLogger.Reader.Logs.{joined, IsReadable}
use pnet2csv.FileLogger.Thread.{System, on_disk, remaining}
use pnet2csv.FileLogger.Thread.Rounds.{thread_rounds}
use pnet2csv.FileLogger.File.{file_min_write}
use pnet2csv.Common.{◌⊎◌, ◌<◌, ◌++◌}
use pnet2csv.App.Tests.{first_app, connects, all_bytes, sevens-IsFed, nines-IsFed, no_alarm, plugs}
use pnet2csv.App.Loop.{
  main_timer_tick, loop_round, is_connected, app_handle_cyclic_data, poll_callback,
}
use pnet2csv.App.Init.{started, clear_ars}
use pnet2csv.Device.Plugging.{
  plug_dap_submodules, dap_submodules, exp_module_ind, exp_submodule_ind, chosen_cfg, has_callback,
}
use pnet2csv.Slots
use pnet2csv.Slots.{
  plug_module, pull_module, plug_submodule, pull_submodule, subslots_of, number_index, free_index,
  cyclic_data_poll,
}
use pnet2csv.Gsdml.{get_submodule_cfg}
use pnet2csv.Ar.{
  is_used, with_event, without_event, handle_event_ar, visit, event_set, find_ar, add_arep, free_ar,
  removes, compact,
}
use pnet2csv.App.{indicate_all, indicate}
use pnet2csv.Device.Process.{cyclic_data_callback}
use pnet2csv.AppData.{set_output_data, decode_timestamp, read_log_data, set_default_outputs}
use pnet2csv.Cyclic.{handle_sample, data_changed}
use pnet2csv.FileLogger.Thread.{step, drain_entry}
use pnet2csv.FileLogger.Buffer.{add_log_entry, is_full}
use pnet2csv.FileLogger.Entry.{store_entry, same_log, load_timestamp}
use pnet2csv.FileLogger.File.{
  start_log_file, log_header, write_once, write_buffer, write_while, finish_log_file,
}
use pnet2csv.Device.Plugging.{plug_dap}

-- The controller connects, and sends two samples; the entry with the data from before the first one
-- has no year and is refused.
abbrev moves : List Move
moves =
    tick
    ∷ round (all_bytes 7 connects)
    ∷ tick
    ∷ round (all_bytes 7 [])
    ∷ log_entry true
    ∷ log_entry true
    ∷ thread_pass good_rotation no_time
    ∷ thread_write []
    ∷ tick
    ∷ round (all_bytes 9 [])
    ∷ log_entry true
    ∷ thread_pass good_rotation no_time
    ∷ []

abbrev after : Program
after = elim (run little_endian (begun first_app) moves) [ none ↦ begun first_app | some q ↦ q ]

one_closed : length after.system.thread.closed ≡ 1
unfolding run move main_timer_tick loop_round started clear_ars plug_dap_submodules dap_submodules
    exp_module_ind exp_submodule_ind plug_module pull_module plug_submodule pull_submodule
    subslots_of number_index free_index chosen_cfg has_callback get_submodule_cfg is_connected
    is_used with_event without_event indicate_all indicate handle_event_ar visit event_set find_ar
    add_arep free_ar Slots.change removes app_handle_cyclic_data poll_callback cyclic_data_poll
    cyclic_data_callback set_output_data decode_timestamp read_log_data handle_sample data_changed
    set_default_outputs compact step add_log_entry store_entry store_bytes store_byte drain_entry
    same_log load_timestamp start_log_file log_header write_once write_buffer write_while load_bytes
    finish_log_file plug_dap
one_closed = refl

-- The same with the mutex released in the middle of the passes; the call for the second sample comes while
-- the thread opens the first file.
abbrev locked_moves : List LockedMove
locked_moves =
    main_task tick
    ∷ main_task (round (all_bytes 7 connects))
    ∷ main_task tick
    ∷ main_task (round (all_bytes 7 []))
    ∷ main_task (log_entry true)
    ∷ main_task (log_entry true)
    ∷ thread (look no_time)
    ∷ main_task tick
    ∷ main_task (round (all_bytes 9 []))
    ∷ main_task (log_entry true)
    ∷ thread (change good_rotation)
    ∷ thread (write [])
    ∷ thread (look no_time)
    ∷ thread (change good_rotation)
    ∷ []

abbrev after_locked : LockedProgram
after_locked = elim (locked_run little_endian (locked_begun first_app) locked_moves) [
  | none ↦ locked_begun first_app
  | some q ↦ q
]

-- One file is finished, and what it holds was read of the process data.
locked_run-sampled_example :
    ((ns : List Move) × All IsRegularMove ns
      × (run little_endian (begun first_app) ns ≡ some after_locked.program))
    × ((groups : List (List (List ℕ))) × (after_locked.program.system.thread.closed
          ≡ map whole groups)
        × Sublist
            (concat groups)
            (encode_all true (Cyclic.run Cyclic.initial after_locked.program.reads).1))
unfolding run move main_timer_tick loop_round started clear_ars plug_dap_submodules dap_submodules
    exp_module_ind exp_submodule_ind plug_module pull_module plug_submodule pull_submodule
    subslots_of number_index free_index chosen_cfg has_callback get_submodule_cfg is_connected
    is_used with_event without_event indicate_all indicate handle_event_ar visit event_set find_ar
    add_arep free_ar Slots.change removes app_handle_cyclic_data poll_callback cyclic_data_poll
    cyclic_data_callback set_output_data decode_timestamp read_log_data handle_sample data_changed
    set_default_outputs compact step add_log_entry store_entry store_bytes store_byte drain_entry
    same_log load_timestamp start_log_file log_header write_once write_buffer write_while load_bytes
    finish_log_file plug_dap locked_run act
locked_run-sampled_example =
    locked_run-sampled little_endian true 2 no_alarm plugs (λ n. plugs) 1 locked_moves
      (
        tt,
        (
          sevens-IsFed connects,
          (
            tt,
            (
              sevens-IsFed [],
              (
                tt,
                (
                  tt,
                  (
                    tt,
                    (
                      tt,
                      (
                        nines-IsFed [],
                        (tt, ((inr (omega arith), tt), (tt, (tt, ((inr (omega arith), tt), tt))))),
                      ),
                    ),
                  ),
                ),
              ),
            ),
          ),
        ),
      )
      refl

one_closed_locked : length after_locked.program.system.thread.closed ≡ 1
unfolding run move main_timer_tick loop_round started clear_ars plug_dap_submodules dap_submodules
    exp_module_ind exp_submodule_ind plug_module pull_module plug_submodule pull_submodule
    subslots_of number_index free_index chosen_cfg has_callback get_submodule_cfg is_connected
    is_used with_event without_event indicate_all indicate handle_event_ar visit event_set find_ar
    add_arep free_ar Slots.change removes app_handle_cyclic_data poll_callback cyclic_data_poll
    cyclic_data_callback set_output_data decode_timestamp read_log_data handle_sample data_changed
    set_default_outputs compact step add_log_entry store_entry store_bytes store_byte drain_entry
    same_log load_timestamp start_log_file log_header write_once write_buffer write_while load_bytes
    finish_log_file plug_dap locked_run act
one_closed_locked = refl

-- Two entries have a year, and a reader finds both after three rounds of the thread.
read_log-sampling_example :
    (u : System) × (thread_rounds little_endian
        (good_round ∷ good_round ∷ good_round ∷ [])
        after.system
      ≡ some u)
    × ((logs : List (List Sample)) × (latest : List Sample) × (map read_log
            (on_disk removes_first u.thread)
          ≡ map some (remaining removes_first u.thread.clears 0 logs))
        × IsReadable u.thread.log.fd (u.thread.file ++ u.thread.log.buffer) latest
        × (joined logs ++ latest ≡ with_year (Cyclic.run Cyclic.initial after.reads).1))
    × ((u.thread.log.fd ≡ none) ⊎ (length u.thread.log.buffer < file_min_write))
unfolding run move main_timer_tick loop_round started clear_ars plug_dap_submodules dap_submodules
    exp_module_ind exp_submodule_ind plug_module pull_module plug_submodule pull_submodule
    subslots_of number_index free_index chosen_cfg has_callback get_submodule_cfg is_connected
    is_used with_event without_event indicate_all indicate handle_event_ar visit event_set find_ar
    add_arep free_ar Slots.change removes app_handle_cyclic_data poll_callback cyclic_data_poll
    cyclic_data_callback set_output_data decode_timestamp read_log_data handle_sample data_changed
    set_default_outputs compact step add_log_entry store_entry store_bytes store_byte drain_entry
    same_log load_timestamp start_log_file log_header write_once write_buffer write_while load_bytes
    finish_log_file plug_dap never_full is_full
read_log-sampling_example =
    read_log-sampling little_endian true 2 no_alarm plugs (λ n. plugs) 1 moves good_round good_round
      good_round removes_first
      (
        tt,
        (
          sevens-IsFed connects,
          (
            tt,
            (
              sevens-IsFed [],
              (
                tt,
                (
                  tt,
                  (
                    (inr omega arith, tt),
                    (tt, (tt, (nines-IsFed [], (tt, ((inr omega arith, tt), tt))))),
                  ),
                ),
              ),
            ),
          ),
        ),
      )
      refl refl refl (omega arith) good_round-IsPatient good_round-IsPatient good_round-IsPatient

two_dated : length (with_year (Cyclic.run Cyclic.initial after.reads).1) ≡ 2
unfolding run move main_timer_tick loop_round started clear_ars plug_dap_submodules dap_submodules
    exp_module_ind exp_submodule_ind plug_module pull_module plug_submodule pull_submodule
    subslots_of number_index free_index chosen_cfg has_callback get_submodule_cfg is_connected
    is_used with_event without_event indicate_all indicate handle_event_ar visit event_set find_ar
    add_arep free_ar Slots.change removes app_handle_cyclic_data poll_callback cyclic_data_poll
    cyclic_data_callback set_output_data decode_timestamp read_log_data handle_sample data_changed
    set_default_outputs compact step add_log_entry store_entry store_bytes store_byte drain_entry
    same_log load_timestamp start_log_file log_header write_once write_buffer write_while load_bytes
    finish_log_file plug_dap with_year Cyclic.run Cyclic.handle_cyclic_data
two_dated = refl
