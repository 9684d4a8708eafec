-- ===== src/Config/Main/Tests.antt =====
-- `main` at concrete inputs.
use pnet2csv.Common.{[], true, false, none, Memory}
use pnet2csv.Config.Main.{made, present, MainAnswers}

abbrev good_answers : MainAnswers
good_answers = record {
  help = false;
  flags = [];
  cwd = none;
  addresses = record { ip = 0xC0A80032; netmask = 0xFFFFFF00; gateway = 0xC0A80001 };
  storage = record { program_dir = present; data_dir = made; exists = λ d. true };
  stack = true;
  event = true;
  timer = true;
}

abbrev zeros : Memory
zeros = λ _. 0
