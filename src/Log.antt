-- ===== src/Log.antt =====
-- The application log, pn_logger/app_log.c: what is printed to the standard output. A text is the list of
-- its characters' codes; the arguments of a format are put in by the caller.
pub mod Verbosity
pub mod Bytes
pub mod Changes
pub mod Network
mod Tests
use pnet2csv.Common.{ℕ, List, [], ◌∷◌, ◌++◌, leb, ◌==◌, if◌then◌else◌, codes}
use pnet2csv.FileLogger.Names.{Text, decimal}
use pnet2csv.Texts.{hex_byte}
use pnet2csv.Pnet.{ioxs_bad, ioxs_good}
use pnet2csv.Slots.{Subslot}

-- APP_LOG_LEVEL_DEBUG, APP_LOG_LEVEL_INFO, APP_LOG_LEVEL_WARNING, APP_LOG_LEVEL_ERROR
abbrev pub debug : ℕ
debug = 0

abbrev pub info : ℕ
info = 1

abbrev pub warning : ℕ
warning = 2

abbrev pub severe : ℕ
severe = 3

-- `app_log`; `log_level` is the static variable that `app_log_set_log_level` sets.
unfoldable pub app_log : ℕ → ℕ → Text → Text
app_log log_level level text = if leb log_level level then text else []

-- The loop of `app_log_print_bytes`.
unfoldable pub spaced_bytes : List ℕ → Text
unfolding hex_byte
spaced_bytes [] = []
spaced_bytes (b ∷ bytes) = hex_byte b ++ (b' ' ∷ spaced_bytes bytes)

unfoldable pub print_bytes : ℕ → ℕ → List ℕ → Text
unfolding spaced_bytes
print_bytes log_level level bytes =
    if leb log_level level then codes "  Bytes: " ++ (spaced_bytes bytes ++ codes "\n") else []

-- " for slot %u subslot %u \"%s\"", with the name of the submodule.
unfoldable pub at_subslot : Subslot → Text → Text
at_subslot s name =
    codes " for slot "
    ++ (decimal 5 s.slot_nbr
        ++ (codes " subslot "
            ++ (decimal 5 s.subslot_nbr ++ (codes " \"" ++ (name ++ codes "\"")))))

-- What `app_utils_print_ioxs_change` of pn_logger/app_utils.c reports of a status.
unfoldable pub ioxs_report : Subslot → Text → Text → ℕ → Text
unfolding at_subslot
ioxs_report s name ioxs_str ioxs_new =
    codes "PLC reports "
    ++ (ioxs_str
        ++ (if ioxs_new == ioxs_bad
            then codes " BAD" ++ (at_subslot s name ++ codes "\n")
            else (if ioxs_new == ioxs_good
                then codes " GOOD" ++ (at_subslot s name ++ codes ".\n")
                else codes " "
                  ++ (decimal 5 ioxs_new
                      ++ (at_subslot s name ++ codes ".\n  Is the PLC in STOP mode?\n")))))

unfoldable pub print_ioxs_change : ℕ → Subslot → Text → Text → ℕ → ℕ → Text
unfolding app_log ioxs_report
print_ioxs_change log_level s name ioxs_str ioxs_current ioxs_new =
    if ioxs_current == ioxs_new
    then []
    else app_log log_level debug (ioxs_report s name ioxs_str ioxs_new)
