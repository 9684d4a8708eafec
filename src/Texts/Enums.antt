-- ===== src/Texts/Enums.antt =====
-- The texts of pn_logger/app_utils.c for enumerations and error codes of P-Net. An enumeration is the
-- number that C has for it, since any number may arrive.
pub mod Distinct
use pnet2csv.Common.{ℕ, List, [], ◌∷◌, Option, none, some, ◌==◌, if◌then◌else◌, codes}
use pnet2csv.FileLogger.Names.{Text}

-- A switch over numbers, with the text where no case fits.
unfoldable pub switch : List (ℕ × Text) → Text → ℕ → Text
switch [] other n = other
switch ((k, text) ∷ cases) other n = if n == k then text else switch cases other n

abbrev pub no_text : Text
no_text = codes "<error>"

-- PNET_DIR_NO_IO, PNET_DIR_INPUT, PNET_DIR_OUTPUT, PNET_DIR_IO
abbrev pub directions : List (ℕ × Text)
directions =
    (0, codes "NO_IO") ∷ (1, codes "INPUT") ∷ (2, codes "OUTPUT") ∷ (3, codes "INPUT_OUTPUT") ∷ []

unfoldable pub submod_dir_to_string : ℕ → Text
unfolding switch
submod_dir_to_string = switch directions no_text

-- PNET_IOXS_BAD, PNET_IOXS_GOOD
abbrev pub statuses : List (ℕ × Text)
statuses = (0x00, codes "IOXS_BAD") ∷ (0x80, codes "IOXS_GOOD") ∷ []

unfoldable pub ioxs_to_string : ℕ → Text
unfolding switch
ioxs_to_string = switch statuses no_text

-- PNET_CONTROL_COMMAND_PRM_BEGIN and so on
abbrev pub commands : List (ℕ × Text)
commands =
    (0, codes "PRM_BEGIN") ∷ (1, codes "PRM_END") ∷ (2, codes "APP_RDY") ∷ (3, codes "RELEASE") ∷ []

unfoldable pub dcontrol_cmd_to_string : ℕ → Text
unfolding switch
dcontrol_cmd_to_string = switch commands no_text

-- PNET_EVENT_ABORT and so on
abbrev pub events : List (ℕ × Text)
events =
    (0, codes "PNET_EVENT_ABORT")
    ∷ (1, codes "PNET_EVENT_STARTUP")
    ∷ (2, codes "PNET_EVENT_PRMEND")
    ∷ (3, codes "PNET_EVENT_APPLRDY")
    ∷ (4, codes "PNET_EVENT_DATA")
    ∷ []

unfoldable pub event_to_string : ℕ → Text
unfolding switch
event_to_string = switch events no_text

abbrev pub not_decoded : Text
not_decoded = codes "Not decoded"

-- PNET_ERROR_CODE_1_RTA_ERR_CLS_PROTOCOL, PNET_ERROR_CODE_1_CTLDINA
abbrev pub rta_protocol : ℕ
rta_protocol = 0xFD

abbrev pub ctldina : ℕ
ctldina = 0x3F

-- The codes of the class RTA_ERR_CLS_PROTOCOL
abbrev pub abort_codes : List (ℕ × Text)
abort_codes =
    (0x05, codes "Device missed cyclic data deadline, device terminated AR")
    ∷ (0x06, codes "Communication initialization timeout, device terminated AR")
    ∷ (0x0F, codes "AR release indication received")
    ∷ (0x16, codes "AR RPC-Read error")
    ∷ (0x1F, codes "DCP station name changed, device terminated AR")
    ∷ (0x20, codes "DCP reset to factory or factory reset, device terminated AR")
    ∷ []

unfoldable pub abort_code_string : ℕ → Text
unfolding switch
abort_code_string = switch abort_codes not_decoded

-- The texts for the class and for the code, where neither pointer is null.
unfoldable pub get_error_code_strings : ℕ → ℕ → Text × Text
unfolding abort_code_string switch
get_error_code_strings err_cls err_code =
    if err_cls == rta_protocol
    then (codes "Real-Time Acyclic Protocol", abort_code_string err_code)
    else (if err_cls == ctldina
        then (
          codes "CTLDINA = Name and IP assignment from controller",
          switch ((0x07, codes "Multiple users of same IP address") ∷ []) not_decoded err_code,
        )
        else (not_decoded, not_decoded))
