-- ===== src/Lib.antt =====
-- The data logger: a Profinet device that writes the variables of a controller to files.
--
-- The program (pn_logger/, src/ports/linux/app_filelogger.c, src/ports/linux/logger_main.c) runs
-- on a copy of the P-Net stack. The controller sends a timestamp and 128 bytes of variables. A
-- callback of the stack hands them to the application data; on every tick the application decides
-- whether the sample is new and adds entries to a ring in memory; a thread of its own moves the
-- entries from the ring to log files, one for every ten minutes, in a directory for every day.
--
-- Common with its children is helpers: Boolean tests, lists over the native numbers, membership,
-- sublists, memories as functions from addresses to bytes, and the C return code. Host is the byte
-- order of the machine, a record with the documented laws of the conversion macros, and
-- Host.LittleEndian an instance. Pnet has the constants and types of include/pnet_api.h that the
-- application uses, with the default options of CMakeLists.txt.
--
-- FileLogger models src/ports/linux/app_filelogger.c and its header. FileLogger.Entry is the
-- timestamp and the bytes of an entry; FileLogger.Buffer is `addLogEntry` with the static
-- variables of the file; FileLogger.File is `startLogFile`, `writeLogHeader`, `finishLogFile` and
-- the loops of writes; FileLogger.Thread is `log_thread_main`, its passes and writes as events
-- between calls of `addLogEntry`, FileLogger.Thread.Rounds its loops, and FileLogger.Thread.Locks
-- the release of the mutex in the middle of a pass; FileLogger.Names is the formats of `sprintf`
-- and `sscanf` on names; FileLogger.Rotation is `deleteOldest`, the tests of `archive_thread_main`
-- and `compressDirectory`; FileLogger.Archive is `getLogDir`, `openLogDir` and
-- `archive_thread_main`. AppData models pn_logger/app_data.c, Gsdml pn_logger/app_gsdml.c, Cyclic
-- the function `app_handle_cyclic_data` of pn_logger/logger_common.c.
--
-- Slots models the table of plugged submodules of pn_logger/app_utils.c. Ar models the application
-- relations, with `app_event_set` and `app_handle_event_ar`. Device models the callbacks of
-- pn_logger/logger_common.c: Device.Plugging is `app_exp_module_ind`, `app_exp_submodule_ind` and
-- `app_plug_dap`, Device.Records is `app_write_ind` and `app_read_ind`, Device.Process is
-- `app_cyclic_data_callback` and `app_new_data_status_ind`, Device.Startup is
-- `app_set_initial_data_and_ioxs`. App puts these parts together: its state is `app_data_t` with
-- the static variables of pn_logger/logger_common.c, its operations are the callbacks that change
-- the state; App.Loop is `main_timer_tick`, `app_handle_cyclic_data`, `app_handle_event_timer`,
-- the handlers of events and a round of `app_loop_forever`; App.Init is `app_init` and
-- `app_start`. Program is the whole program, the task of the main loop and the logging thread,
-- with whole passes of the thread; Program.Locked is the same with its passes in two halves.
-- FileLogger.Reader describes a reader of the log format. Config models the list of network
-- interfaces (`app_utils_pnet_cfg_init_netifs`) and `parse_commandline_arguments` of
-- src/ports/linux/logger_main.c; Config.Main is `main` with `app_pnet_cfg_init_storage`.
-- Config.Stack is the configuration that P-Net is given. Texts is the texts of addresses and, in
-- Texts.Enums, of enumerations and error codes of pn_logger/app_utils.c. Log is
-- pn_logger/app_log.c and the functions of pn_logger/app_utils.c that print. The Tests modules
-- hold runs of the model and the theorems at concrete inputs.
--
-- What deleteOldest removes depends on the log directory: the model counts its calls, and what is
-- left of the finished files is FileLogger.Thread's on_disk, for any choice of files; a file that
-- is unlinked while it is open still takes writes. The ring is a memory with a start and an end,
-- as in the source. The file buffer is the list of its bytes below `buf_end`; a file is the list
-- of its bytes. What the operating system answers (`write`, `fsync`, `openat`, `readdir`,
-- `waitpid` and so on) is a parameter: a record or a list of answers. The retry loops take their
-- answers from the front of a list; where a list ends while the loop still runs the result is
-- `none`. So no fuel is needed but the list itself; the loops of the logging thread have enough
-- with an answer for each of the 255 entries that the ring can hold; the compaction of the
-- application relations takes the number of entries as fuel, which bounds its rounds; the reader
-- of a file takes its length, and a round reads an entry. The two threads are a list of events,
-- whole passes under the mutex and calls of `addLogEntry`; the source unlocks the mutex around a
-- change of files too, which FileLogger.Thread.Locks has as steps of their own. A round of the
-- main loop is one step: P-Net calls callbacks only from `pnet_handle_periodic`, and a tick of the
-- timer during a round is as one before or after it, since the round looks at its flags once, at
-- its start. Machine integers have their wrap-around where the source's values can reach it.
--
-- Not modelled: P-Net (src/common, src/device, src/drivers, the rest of src/ports, include),
-- another project's library, whose calls are parameters; what the source overwrites where a text
-- is too long for its array; a second logging thread, which the source starts where
-- os_mutex_create fails; the tests of P-Net; where a function prints, its text, but for the
-- functions that do nothing else.
pub mod App
pub mod AppData
pub mod Ar
pub mod Common
pub mod Config
pub mod Cyclic
pub mod Device
pub mod FileLogger
pub mod Gsdml
pub mod Host
pub mod Log
pub mod Pnet
pub mod Program
pub mod Slots
pub mod Texts
