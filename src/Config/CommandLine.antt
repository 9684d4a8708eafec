-- ===== src/Config/CommandLine.antt =====
-- `parse_commandline_arguments` of src/ports/linux/logger_main.c, and the log level that `main`
-- takes from it. What `getopt` gives is a parameter: the options with their arguments, in order.
-- `none` is an exit of the program. A text is without its terminating 0; the model keeps it whole
-- where `strcpy` would write past the end of its array.
pub mod Options
use pnet2csv.Common.{
  ℕ, zero, suc, ◌+◌, ◌-◌, ◌*◌, List, [], ◌∷◌, Bool, true, false, not, ◌&&◌, ◌||◌, Option, none,
  some, ltb, leb, ◌==◌, if◌then◌else◌, length, ◌>>=◌,
}
use pnet2csv.Pnet.{max_physical_ports}
use pnet2csv.FileLogger.Names.{Text}
use pnet2csv.Config.Netif.{name_size}

-- PNET_MAX_DIRECTORYPATH_SIZE, PNET_MAX_FILE_FULLPATH_SIZE, PNET_STATION_NAME_MAX_SIZE
abbrev pub max_directorypath_size : ℕ
max_directorypath_size = 240

abbrev pub max_file_fullpath_size : ℕ
max_file_fullpath_size = max_directorypath_size + 30

abbrev pub station_name_max_size : ℕ
station_name_max_size = 241

-- The size of `eth_interfaces`
abbrev pub eth_interfaces_size : ℕ
eth_interfaces_size = name_size * (max_physical_ports + 1) + max_physical_ports

-- `app_args_t`; the mode, which only a build with a driver sets, is left out. The source copies the
-- station name, without a test, and the path, after a test against 270, into arrays of 241 and 240 bytes;
-- where a text is too long for its array the source goes on with what it overwrote, and the model with the
-- text.
pub record Args : Type 0 where
  pub path_storage_directory : Text
  pub station_name : Text
  pub eth_interfaces : Text
  pub verbosity : ℕ
  pub show : ℕ
  pub factory_reset : Bool
  pub remove_files : Bool

-- "/var/opt/pnlogger", "pn-logger", "eth0"
abbrev pub default_args : Args
default_args = record {
  path_storage_directory =
      b'/' ∷ b'v' ∷ b'a' ∷ b'r' ∷ b'/' ∷ b'o' ∷ b'p' ∷ b't' ∷ b'/' ∷ b'p' ∷ b'n' ∷ b'l' ∷ b'o'
      ∷ b'g' ∷ b'g' ∷ b'e' ∷ b'r' ∷ [];
  station_name = b'p' ∷ b'n' ∷ b'-' ∷ b'l' ∷ b'o' ∷ b'g' ∷ b'g' ∷ b'e' ∷ b'r' ∷ [];
  eth_interfaces = b'e' ∷ b't' ∷ b'h' ∷ b'0' ∷ [];
  verbosity = 0;
  show = 0;
  factory_reset = false;
  remove_files = false;
}

-- What `getopt` returned: a letter that the loop has a case for, with `optarg`, or another.
pub data Flag : Type 0 where
  verbose stack_info reset remove other : Flag
  interfaces station path : Text → Flag

-- One round of the loop.
unfoldable pub apply_option : Args → Flag → Option Args
apply_option args verbose = some (record args { verbosity = args.verbosity + 1 })
apply_option args stack_info = some (record args { show = args.show + 1 })
apply_option args reset = some (record args { factory_reset = true })
apply_option args remove = some (record args { remove_files = true })
apply_option args other = none
apply_option args (interfaces optarg) =
    if ltb eth_interfaces_size (length optarg + 1)
    then none
    else some (record args { eth_interfaces = optarg })
apply_option args (station optarg) = some (record args { station_name = optarg })
apply_option args (path optarg) =
    if ltb max_file_fullpath_size (length optarg + 1)
    then none
    else some (record args { path_storage_directory = optarg })

unfoldable pub apply_options : Args → List Flag → Option Args
unfolding apply_option
apply_options args [] = some args
apply_options args (f ∷ fs) = apply_option args f >>= λ args'. apply_options args' fs

-- An empty path becomes the current directory, which `getcwd` gives if it fits.
unfoldable pub use_directory : Option Text → Args → Option Args
use_directory cwd args =
    if length args.path_storage_directory == 0
    then elim cwd [ none ↦ none | some d ↦ some (record args { path_storage_directory = d }) ]
    else some args

-- The whole function; `help` is whether the first argument is "--help".
unfoldable pub parse_commandline_arguments : Bool → List Flag → Option Text → Option Args
unfolding apply_options use_directory
parse_commandline_arguments help flags cwd =
    if help then none else (apply_options default_args flags >>= λ args. use_directory cwd args)

-- APP_LOG_LEVEL_FATAL
abbrev pub fatal : ℕ
fatal = 4

-- `app_log_level` in `main`; 0 is APP_LOG_LEVEL_DEBUG.
unfoldable pub log_level : Args → ℕ
log_level args = if leb args.verbosity fatal then fatal - args.verbosity else 0
