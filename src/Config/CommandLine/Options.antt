-- ===== src/Config/CommandLine/Options.antt =====
-- What the options lead to.
use pnet2csv.Common.{
  ℕ, suc, ◌+◌, ◌-◌, ◌<◌, ◌≤◌, ◌≡◌, ap, ◌∙◌, List, [], ◌∷◌, Bool, true, false, Option, none, some,
  arith, length, >>=-eq-some,
}
use pnet2csv.FileLogger.Names.{Text}
use pnet2csv.Config.CommandLine.{
  Args, Flag, verbose, stack_info, reset, remove, other, interfaces, station, path, default_args,
  apply_option, apply_options, use_directory, parse_commandline_arguments, log_level,
  eth_interfaces_size, max_directorypath_size, max_file_fullpath_size, fatal,
}

-- The list of interfaces fits its array.
abbrev Fits : Args → Type 0
Fits args = length args.eth_interfaces < eth_interfaces_size

-- How many options ask for more output.
unfoldable pub count_verbose : List Flag → ℕ
count_verbose [] = 0
count_verbose (verbose ∷ fs) = suc (count_verbose fs)
count_verbose (_ ∷ fs) = count_verbose fs

apply_option-Fits :
    (args : Args) (f : Flag) {after : Args}
    → Fits args
    → apply_option args f ≡ some after
    → Fits after × (after.verbosity + count_verbose [] ≡ args.verbosity + count_verbose (f ∷ []))
unfolding apply_option count_verbose
apply_option-Fits args verbose fits e = ground arith
apply_option-Fits args stack_info fits e = ground arith
apply_option-Fits args reset fits e = ground arith
apply_option-Fits args remove fits e = ground arith
apply_option-Fits args other fits e = ground arith
apply_option-Fits args (interfaces t) fits e = ground arith
apply_option-Fits args (station t) fits e = ground arith
apply_option-Fits args (path t) fits e = ground arith

apply_options-Fits :
    (args : Args) (fs : List Flag) {after : Args}
    → Fits args
    → apply_options args fs ≡ some after
    → Fits after × (after.verbosity ≡ args.verbosity + count_verbose fs)
unfolding apply_options count_verbose
apply_options-Fits args [] fits e = ground arith
apply_options-Fits args (f ∷ fs) fits e =
    let (one, e1, e2) = >>=-eq-some (apply_option args f) (λ a. apply_options a fs) e in
    let (fits', n) = apply_option-Fits args f fits e1 in
    let (fits'', n') = apply_options-Fits one fs fits' e2 in
    (fits'', n' ∙ counted args.verbosity one.verbosity f fs n)
  where
    counted :
        (before after : ℕ) (f : Flag) (fs : List Flag)
        → after + count_verbose [] ≡ before + count_verbose (f ∷ [])
        → after + count_verbose fs ≡ before + count_verbose (f ∷ fs)
    counted b a verbose fs h = omega (arith, h)
    counted b a stack_info fs h = omega (arith, h)
    counted b a reset fs h = omega (arith, h)
    counted b a remove fs h = omega (arith, h)
    counted b a other fs h = omega (arith, h)
    counted b a (interfaces t) fs h = omega (arith, h)
    counted b a (station t) fs h = omega (arith, h)
    counted b a (path t) fs h = omega (arith, h)

use_directory-same :
    (cwd : Option Text) (args : Args) {after : Args}
    → use_directory cwd args ≡ some after
    → (after.eth_interfaces ≡ args.eth_interfaces) × (after.verbosity ≡ args.verbosity)
unfolding use_directory
use_directory-same none args e = ground arith
use_directory-same (some d) args e = ground arith

-- Where the program goes on, its list of interfaces fits the array with its terminating 0, and the
-- log level is FATAL less one for every -v, but not below DEBUG.
pub parse_commandline_arguments-log_level :
    (help : Bool) (fs : List Flag) (cwd : Option Text) {args : Args}
    → parse_commandline_arguments help fs cwd ≡ some args
    → (length args.eth_interfaces + 1 ≤ eth_interfaces_size)
      × (log_level args ≡ fatal - count_verbose fs)
unfolding parse_commandline_arguments log_level
parse_commandline_arguments-log_level true fs cwd e = ground arith
parse_commandline_arguments-log_level false fs cwd e =
    let (parsed, e1, e2) =
      >>=-eq-some (apply_options default_args fs) (λ a. use_directory cwd a) e in
    let (fits, n) = apply_options-Fits default_args fs (omega arith) e1 in
    let (same, level) = use_directory-same cwd parsed e2 in
    (omega (arith, fits, ap length same), ground (arith, n, level))

-- A path of 240 up to 269 characters is accepted, though it is too long for the array of 240 bytes
-- that `strcpy` copies it to.
pub parse_commandline_arguments-path :
    (t : Text) (cwd : Option Text)
    → max_directorypath_size ≤ length t
    → length t < max_file_fullpath_size
    → (args : Args) × (parse_commandline_arguments false (path t ∷ []) cwd ≡ some args)
      × (max_directorypath_size < length args.path_storage_directory + 1)
unfolding parse_commandline_arguments apply_options apply_option use_directory
parse_commandline_arguments-path t cwd low high =
    (record default_args { path_storage_directory = t }, ground arith, omega arith)
