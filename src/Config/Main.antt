-- ===== src/Config/Main.antt =====
-- `main` and `app_pnet_cfg_init_storage` of src/ports/linux/logger_main.c. What P-Net and the operating
-- system answer is a parameter; the calls that leave a trace are listed, in order. What is printed is
-- left out.
pub mod Stages
pub mod Running
mod Tests
use pnet2csv.Common.{
  ℕ, List, [], ◌∷◌, ◌++◌, Bool, true, false, Option, none, some, ltb, ◌==◌, if◌then◌else◌,
  ReturnCode, ok, error, Memory, map,
}
use pnet2csv.FileLogger.Names.{Text}
use pnet2csv.Config.Netif.{AddressAnswers, cfg_init_netifs}
use pnet2csv.Config.CommandLine.{Args, Flag, parse_commandline_arguments}
use pnet2csv.App.Init.{OsCall, TaskConfig, run_in_separate_thread, app_start}

-- What `mkdir` answers: 0, EEXIST, or another error.
pub data MkdirAnswer : Type 0 where
  made present denied : MkdirAnswer

-- Whether `app_pnet_cfg_init_storage` goes on.
unfoldable pub is_there : MkdirAnswer → Bool
is_there made = true
is_there present = true
is_there denied = false

-- The calls, with the directory where one is handed on.
pub data MainCall : Type 0 where
  make_program_dir make_data_dir change_mode : MainCall
  remove_data_files : Text → MainCall
  init_stack factory_reset : MainCall
  show_stack : ℕ → MainCall
  start : OsCall → MainCall

-- For the two directories, and for `pnal_does_file_exist`.
pub record StorageAnswers : Type 0 where
  pub program_dir : MkdirAnswer
  pub data_dir : MkdirAnswer
  pub exists : Text → Bool

pub record Storage : Type 0 where
  pub file_directory : Text
  pub calls : List MainCall
  pub code : ReturnCode

-- `app_pnet_cfg_init_storage`; what `chmod` answers is not looked at.
unfoldable pub cfg_init_storage : StorageAnswers → Args → Text → Storage
cfg_init_storage a args before =
    if is_there a.program_dir
    then (if is_there a.data_dir
        then record {
          file_directory = args.path_storage_directory;
          calls = make_program_dir ∷ make_data_dir ∷ change_mode ∷ [];
          code = if a.exists args.path_storage_directory then ok else error;
        }
        else record {
          file_directory = before;
          calls = make_program_dir ∷ make_data_dir ∷ [];
          code = error;
        })
    else record { file_directory = before; calls = make_program_dir ∷ []; code = error }

-- How `main` ends: EXIT_FAILURE, EXIT_SUCCESS, or not, since it sleeps for ever.
pub data Outcome : Type 0 where
  failure success running : Outcome

-- What the calls of `main` answer.
pub record MainAnswers : Type 0 where
  pub help : Bool
  pub flags : List Flag
  pub cwd : Option Text
  pub addresses : AddressAnswers
  pub storage : StorageAnswers
  -- Whether `pnet_init`, `os_event_create` and `os_timer_create` succeed
  pub stack : Bool
  pub event : Bool
  pub timer : Bool

-- From the start of the main loop's task on.
unfoldable pub start_up : MainAnswers → Outcome × List MainCall
start_up a =
    let (calls, code) = app_start true a.event a.timer run_in_separate_thread in
    (elim code [ ok ↦ running | error ↦ failure ], map start calls)

-- The level for `pnet_show`.
unfoldable pub show_level : ℕ → ℕ
show_level show = if show == 1 then 0x2010 else 0xFFFF

-- Once P-Net is initialised.
unfoldable pub after_init : MainAnswers → Args → Outcome × List MainCall
after_init a args =
    if args.factory_reset
    then (success, factory_reset ∷ [])
    else (if ltb 0 args.show then (success, show_stack (show_level args.show) ∷ []) else start_up a)

-- Once the storage is there.
unfoldable pub after_storage : MainAnswers → Args → Text → Outcome × List MainCall
after_storage a args file_directory =
    let (outcome, calls) = after_init a args in
    if args.remove_files
    then (success, remove_data_files file_directory ∷ [])
    else (if a.stack then (outcome, init_stack ∷ calls) else (failure, init_stack ∷ []))

-- Once the network interfaces are known.
unfoldable pub after_netifs : MainAnswers → Args → Outcome × List MainCall
after_netifs a args =
    let s = cfg_init_storage a.storage args [] in
    let (outcome, calls) = after_storage a args s.file_directory in
    elim s.code [ error ↦ (failure, s.calls) | ok ↦ (outcome, s.calls ++ calls) ]

-- `main`; the memory is what the array of names holds before.
unfoldable pub main : MainAnswers → Memory → Outcome × List MainCall
main a before = elim (parse_commandline_arguments a.help a.flags a.cwd) [
  | none ↦ (failure, [])
  | some args ↦ elim (cfg_init_netifs a.addresses before args.eth_interfaces).1 [
    | none ↦ (failure, [])
    | some cfg ↦ after_netifs a args
  ]
]
