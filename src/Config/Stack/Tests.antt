-- ===== src/Config/Stack/Tests.antt =====
-- The configuration at a concrete input, and the texts of the default configuration.
use pnet2csv.Common.{arith, ◌≡◌, ◌∷◌, refl, [], some, true, false, none, Memory, codes, store_byte}
use pnet2csv.Config.Netif.{cfg_init_netifs}
use pnet2csv.Config.CommandLine.{station, parse_commandline_arguments}
use pnet2csv.Config.Main.{
  made, present, MainAnswers, main, after_netifs, cfg_init_storage, is_there, after_storage,
  after_init, start_up,
}
use pnet2csv.App.Init.{app_start}
use pnet2csv.Config.Stack.{Version, PnetCfg, stack_cfg, cfg_init_default, im_default}
use pnet2csv.Config.Stack.Given.{IsGiven, running-IsGiven}

abbrev version : Version
version = record { major = 0; minor = 2; patch = 0 }

abbrev named_answers : MainAnswers
named_answers = record {
  help = false;
  flags = station (codes "first") ∷ station (codes "second") ∷ [];
  cwd = none;
  addresses = record { ip = 0xC0A80032; netmask = 0xFFFFFF00; gateway = 0xC0A80001 };
  storage = record { program_dir = present; data_dir = made; exists = λ d. true };
  stack = true;
  event = true;
  timer = true;
}

abbrev zeros : Memory
zeros = λ _. 0

running-IsGiven_example :
    (cfg : PnetCfg) × (stack_cfg version named_answers zeros ≡ some cfg) × IsGiven named_answers cfg
unfolding main parse_commandline_arguments cfg_init_netifs store_byte after_netifs cfg_init_storage
    is_there after_storage after_init start_up app_start
running-IsGiven_example =
    running-IsGiven version named_answers zeros (omega arith, (omega arith, tt)) refl

-- Nothing is cut off.
whole_descriptor : im_default.descriptor ≡ codes "Logs variables and status for diagnosis"
unfolding im_default
whole_descriptor = refl

whole_product : (cfg_init_default version).product_name ≡ codes "Profinet data logger"
unfolding cfg_init_default
whole_product = refl
