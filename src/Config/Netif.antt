-- ===== src/Config/Netif.antt =====
-- `app_utils_get_netif_namelist`, `app_utils_copy_ip_to_struct` and
-- `app_utils_pnet_cfg_init_netifs` of pn_logger/app_utils.c. The array of names is flat memory, so
-- that a name that is too long runs on as it does in the source.
pub mod Names
use pnet2csv.Common.{
  ℕ, zero, suc, ◌+◌, ◌-◌, ◌*◌, ◌/◌, ◌%◌, ◌^◌, List, [], ◌∷◌, Bool, true, false, not, ◌&&◌, ◌||◌,
  Option, none, some, ltb, ◌==◌, if◌then◌else◌, Memory, store_byte, store_bytes, load_bytes,
  ReturnCode, ok, error,
}
use pnet2csv.Pnet.{max_physical_ports}
use pnet2csv.FileLogger.Names.{Text}

-- PNET_INTERFACE_NAME_MAX_SIZE
abbrev pub name_size : ℕ
name_size = 16

-- The variables of the parser; `netif` is the array.
pub record Parser : Type 0 where
  pub netif : Memory
  pub j : ℕ
  pub if_index : ℕ
  pub number_of_given_names : ℕ

abbrev pub fresh : Parser
fresh = record { netif = λ _. 0; j = 0; if_index = 0; number_of_given_names = 1 }

-- `p_if_list->netif[if_index].name[j++] = c`
unfoldable pub put_char : Parser → ℕ → Parser
put_char p c = record p {
  netif = store_byte p.netif (p.if_index * name_size + p.j) c;
  j = (p.j + 1) % 2 ^ 16;
}

-- One round of the loop.
unfoldable pub parse_char : ℕ → Parser → ℕ → Parser
unfolding put_char
parse_char if_list_size p c =
    if not (c == b',')
    then (if ltb p.if_index if_list_size then put_char p c else p)
    else (let p' =
          if ltb p.if_index if_list_size
          then record (put_char p 0) { j = 0; if_index = (p.if_index + 1) % 2 ^ 16 }
          else p in
        record p' { number_of_given_names = (p.number_of_given_names + 1) % 2 ^ 16 })

unfoldable pub parse_names : ℕ → Parser → Text → Parser
unfolding parse_char
parse_names if_list_size p [] = p
parse_names if_list_size p (c ∷ s) = parse_names if_list_size (parse_char if_list_size p c) s

-- Is the name with this index empty? The loop over all names, from the first on.
unfoldable pub any_empty : Memory → ℕ → ℕ → Bool
any_empty m i zero = false
any_empty m i (suc count) =
    let rest = any_empty m (i + 1) count in if m (i * name_size) == 0 then true else rest

-- `netif[1] = netif[0]`
unfoldable pub copy_first : Memory → Memory
copy_first m = store_bytes m name_size (load_bytes m 0 name_size)

-- What is given back: the array, the number of ports, where it is set, and the code.
pub record NetifList : Type 0 where
  pub netif : Memory
  pub num_ports : Option ℕ
  pub code : ReturnCode

unfoldable pub get_netif_namelist : Memory → Text → ℕ → NetifList
unfolding parse_names any_empty copy_first
get_netif_namelist before arg_str max_port =
    let p = parse_names ((max_port + 1) % 2 ^ 16) fresh arg_str in
    let names = p.number_of_given_names in
    let refused : NetifList = record { netif = p.netif; num_ports = none; code = error } in
    if max_port == 0
    then record { netif = before; num_ports = none; code = error }
    else (if max_port == 1 && ltb 1 names
        then refused
        else (if names == 2
            then refused
            else (if ltb (max_port + 1) names
                then refused
                else (if names == 1
                    then (if any_empty p.netif 0 1
                        then refused
                        else record { netif = copy_first p.netif; num_ports = some 1; code = ok })
                    else (if any_empty p.netif 0 names then refused else record {
                      netif = p.netif;
                      num_ports = some ((names + 2 ^ 16 - 1) % 2 ^ 16);
                      code = ok;
                    })))))

-- `pnet_cfg_ip_addr_t`
pub record IpAddr : Type 0 where
  pub a : ℕ
  pub b : ℕ
  pub c : ℕ
  pub d : ℕ

unfoldable pub copy_ip_to_struct : ℕ → IpAddr
copy_ip_to_struct ip = record {
  a = ip / 2 ^ 24 % 256;
  b = ip / 2 ^ 16 % 256;
  c = ip / 2 ^ 8 % 256;
  d = ip % 256;
}

-- `pnal_get_ip_address`, `pnal_get_netmask`, `pnal_get_gateway` for the main interface.
pub record AddressAnswers : Type 0 where
  pub ip : ℕ
  pub netmask : ℕ
  pub gateway : ℕ

-- `pnet_if_cfg_t`: a name is its offset in the array.
pub record IfCfg : Type 0 where
  pub main_netif_name : ℕ
  pub port_names : List ℕ
  pub ip_addr : IpAddr
  pub ip_gateway : IpAddr
  pub ip_mask : IpAddr

-- The names of the ports from `i` on.
unfoldable pub port_offsets : ℕ → ℕ → List ℕ
port_offsets i zero = []
port_offsets i (suc count) = i * name_size ∷ port_offsets (i + 1) count

unfoldable pub cfg_init_netifs : AddressAnswers → Memory → Text → NetifList × Option IfCfg
unfolding get_netif_namelist copy_ip_to_struct port_offsets
cfg_init_netifs answers before netif_list_str =
    let l = get_netif_namelist before netif_list_str max_physical_ports in
    elim l.num_ports [
      | none ↦ (l, none)
      | some ports ↦ (
        l,
        some (record {
          main_netif_name = 0;
          port_names = port_offsets 1 ports;
          ip_addr = copy_ip_to_struct answers.ip;
          ip_gateway = copy_ip_to_struct answers.gateway;
          ip_mask = copy_ip_to_struct answers.netmask;
        }),
      )
    ]
