-- ===== src/Config/Tests.antt =====
-- The configuration at concrete inputs.
use pnet2csv.Common.{
  ◌+◌, ◌<◌, ◌≡◌, [], ◌∷◌, ◌++◌, some, none, false, arith, ok, length, take, replicate, load_bytes,
}
use pnet2csv.FileLogger.Names.{Text}
use pnet2csv.Config.Netif.{get_netif_namelist, name_size}
use pnet2csv.Config.Netif.Names.{get_netif_namelist-name}
use pnet2csv.Config.CommandLine.{Args, path, parse_commandline_arguments, max_directorypath_size}
use pnet2csv.Config.CommandLine.Options.{parse_commandline_arguments-path}

abbrev wlan : Text
wlan = b'w' ∷ b'l' ∷ b'0' ∷ []

get_netif_namelist-name_example :
    ((get_netif_namelist (λ _. 0) wlan 1).code ≡ ok)
    × ((get_netif_namelist (λ _. 0) wlan 1).num_ports ≡ some 1)
    × (load_bytes (get_netif_namelist (λ _. 0) wlan 1).netif 0 name_size
        ≡ take name_size (wlan ++ replicate name_size 0))
    × (load_bytes (get_netif_namelist (λ _. 0) wlan 1).netif name_size name_size
        ≡ take name_size (wlan ++ replicate name_size 0))
get_netif_namelist-name_example =
    get_netif_namelist-name (λ _. 0) wlan (omega arith, (omega arith, (omega arith, tt)))
      (omega arith) (omega arith) (omega arith)

abbrev long_path : Text
long_path = replicate 250 b'/'

parse_commandline_arguments-path_example :
    (args : Args) × (parse_commandline_arguments false (path long_path ∷ []) none ≡ some args)
    × (max_directorypath_size < length args.path_storage_directory + 1)
parse_commandline_arguments-path_example =
    parse_commandline_arguments-path long_path none (omega arith) (omega arith)
