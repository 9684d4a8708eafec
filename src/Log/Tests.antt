-- ===== src/Log/Tests.antt =====
-- The application log at concrete inputs.
use pnet2csv.Common.{◌+◌, ◌≡◌, refl, [], ◌∷◌, true, false, none, codes, leb, if◌then◌else◌}
use pnet2csv.Config.CommandLine.{
  Args, verbose, remove, log_level, parse_commandline_arguments, default_args, fatal,
}
use pnet2csv.Config.CommandLine.Options.{count_verbose}
use pnet2csv.Slots.{free_subslot}
use pnet2csv.FileLogger.Names.{decimal}
use pnet2csv.Texts.{hex_digit}
use pnet2csv.Log.{app_log, print_bytes, print_ioxs_change, warning}
use pnet2csv.Log.Verbosity.{app_log-verbose}

abbrev chatty : Args
chatty = record default_args { verbosity = 2; remove_files = true }

app_log-verbose_example : app_log (log_level chatty) warning (codes "full") ≡ (
    if leb fatal (warning + count_verbose (verbose ∷ remove ∷ verbose ∷ []))
    then codes "full"
    else [])
unfolding parse_commandline_arguments
app_log-verbose_example =
    app_log-verbose false (verbose ∷ remove ∷ verbose ∷ []) none warning (codes "full")
      {args = chatty} refl

printed : print_bytes 0 0 (0xCA ∷ 0xFE ∷ 0x07 ∷ []) ≡ codes "  Bytes: CA FE 07 \n"
unfolding print_bytes hex_digit
printed = refl

bad_report :
    print_ioxs_change 0 free_subslot (codes "vars") (codes "Provider Status (IOPS)") 0x80 0
    ≡ codes "PLC reports Provider Status (IOPS) BAD for slot 0 subslot 0 \"vars\"\n"
unfolding print_ioxs_change decimal
bad_report = refl
