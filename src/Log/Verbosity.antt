-- ===== src/Log/Verbosity.antt =====
-- How the options of the command line decide what the application log prints.
use pnet2csv.Common.{ℕ, ◌+◌, ◌≡◌, List, [], Bool, Option, some, arith, leb, if◌then◌else◌}
use pnet2csv.FileLogger.Names.{Text}
use pnet2csv.Config.CommandLine.{Args, Flag, parse_commandline_arguments, log_level, fatal}
use pnet2csv.Config.CommandLine.Options.{count_verbose, parse_commandline_arguments-log_level}
use pnet2csv.Log.{app_log}

-- Where the program goes on, a message is printed exactly if its level and the number of -v together come
-- to FATAL: each -v lets one more level through, and without one only FATAL is printed.
pub app_log-verbose :
    (help : Bool) (fs : List Flag) (cwd : Option Text) (level : ℕ) (text : Text) {args : Args}
    → parse_commandline_arguments help fs cwd ≡ some args
    → app_log (log_level args) level text
      ≡ (if leb fatal (level + count_verbose fs) then text else [])
unfolding app_log
app_log-verbose help fs cwd level text e =
    ground (arith, parse_commandline_arguments-log_level help fs cwd e)
