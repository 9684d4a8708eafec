-- ===== src/Log/Network.antt =====
-- `app_utils_print_network_config` and `app_utils_print_mac_address` of pn_logger/app_utils.c. What P-Net's
-- port says of hardware addresses and of the host's name is a parameter.
use pnet2csv.Common.{
  ℕ, zero, suc, ◌+◌, List, [], ◌∷◌, ◌++◌, Option, none, some, Memory, codes, ◌==◌, if◌then◌else◌,
}
use pnet2csv.FileLogger.Names.{Text, decimal}
use pnet2csv.Texts.{colons, dotted}
use pnet2csv.Config.Netif.{IpAddr, IfCfg}
use pnet2csv.Log.{app_log, info, severe}

-- A terminated string, of at most so many characters.
unfoldable pub c_string : ℕ → Memory → ℕ → Text
c_string zero m at = []
c_string (suc count) m at =
    let rest = c_string count m (at + 1) in if m at == 0 then [] else m at ∷ rest

-- What is asked of the port: the hardware address of an interface, and the name of the host.
pub record PortAnswers : Type 0 where
  pub macaddress : Text → Option (List ℕ)
  pub hostname : Option Text

unfoldable pub print_mac_address : ℕ → PortAnswers → Text → Text
unfolding app_log
print_mac_address log_level a netif_name = elim (a.macaddress netif_name) [
  | some mac ↦ app_log log_level info (colons mac ++ codes "\n")
  | none ↦ app_log log_level severe (codes "Failed read mac address\n")
]

-- A line for each physical port, from the i-th on.
unfoldable pub print_ports : ℕ → PortAnswers → Memory → ℕ → ℕ → List ℕ → Text
unfolding app_log print_mac_address c_string
print_ports log_level a netif longest i [] = []
print_ports log_level a netif longest i (name ∷ names) =
    let text = c_string longest netif name in
    app_log log_level info
      (codes "Physical port [" ++ (decimal 5 i ++ (codes "]:    " ++ (text ++ codes " "))))
    ++ (print_mac_address log_level a text ++ print_ports log_level a netif longest (i + 1) names)

unfoldable pub print_address : ℕ → Text → IpAddr → Text
unfolding app_log
print_address log_level label ip =
    app_log log_level info (label ++ (dotted ip.a ip.b ip.c ip.d ++ codes "\n"))

-- The ports are those of `number_of_ports`; `longest` bounds what is read of a name in the array.
unfoldable pub print_network_config : ℕ → PortAnswers → Memory → ℕ → IfCfg → Text
unfolding app_log print_mac_address print_ports print_address c_string
print_network_config log_level a netif longest if_cfg =
    let main_name = c_string longest netif if_cfg.main_netif_name in
    app_log log_level info (codes "Management port:      " ++ (main_name ++ codes " "))
    ++ (print_mac_address log_level a main_name
        ++ (print_ports log_level a netif longest 1 if_cfg.port_names
            ++ (app_log log_level info (
                  codes "Hostname:             "
                  ++ ((elim a.hostname [ none ↦ [] | some name ↦ name ]) ++ codes "\n"))
                ++ (print_address log_level (codes "IP address:           ") if_cfg.ip_addr
                    ++ (print_address log_level (codes "Netmask:              ") if_cfg.ip_mask
                        ++ print_address log_level (codes "Gateway:              ")
                            if_cfg.ip_gateway)))))
