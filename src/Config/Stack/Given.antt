-- ===== src/Config/Stack/Given.antt =====
-- What P-Net is given when the program gets to its main loop.
use pnet2csv.Common.{
  ℕ, ◌+◌, ◌^◌, ◌≤◌, ◌<◌, length, ◌≡◌, refl, ap, ◌∙◌, ◌≢◌, inl, inr, ◌⊎◌, List, [], ◌∷◌, Option,
  none, some, Memory, arith, >>=-eq-some, Bool-cases, ltb, true, false, Bool, All,
}
use pnet2csv.FileLogger.Names.{Text}
use pnet2csv.Config.Netif.{
  Parser, fresh, parse_char, parse_names, put_char, any_empty, IfCfg, copy_ip_to_struct,
  port_offsets, get_netif_namelist, cfg_init_netifs, name_size, AddressAnswers,
}
use pnet2csv.Config.CommandLine.{
  Args, Flag, verbose, stack_info, reset, remove, other, interfaces, station, path, default_args,
  apply_option, apply_options, use_directory, parse_commandline_arguments,
}
use pnet2csv.Config.Main.{MainAnswers, running, main}
use pnet2csv.Config.Main.Stages.{IsReady, storage-ok}
use pnet2csv.Config.CommandLine.Options.{parse_commandline_arguments-log_level}
use pnet2csv.Config.Main.Running.{running-main}
use pnet2csv.Config.Stack.{Version, PnetCfg, cfg_init_default, with_threads, with_netifs, stack_cfg}

-- The argument of the last -s, or else this name.
unfoldable pub last_station : List Flag → Text → Text
last_station [] name = name
last_station (station optarg ∷ fs) name = last_station fs optarg
last_station (_ ∷ fs) name = last_station fs name

apply_options-station :
    (args : Args) (fs : List Flag) {after : Args}
    → apply_options args fs ≡ some after
    → after.station_name ≡ last_station fs args.station_name
unfolding apply_options last_station apply_option
apply_options-station args [] e = ground arith
apply_options-station args (verbose ∷ fs) e = apply_options-station _ fs e
apply_options-station args (stack_info ∷ fs) e = apply_options-station _ fs e
apply_options-station args (reset ∷ fs) e = apply_options-station _ fs e
apply_options-station args (remove ∷ fs) e = apply_options-station _ fs e
apply_options-station args (other ∷ fs) e = absurd (cc e)
apply_options-station args (interfaces t ∷ fs) e =
    let (one, e1, e2) =
      >>=-eq-some (apply_option args (interfaces t)) (λ a. apply_options a fs) e in
    apply_options-station one fs e2 ∙ ap (last_station fs) (ground arith)
apply_options-station args (station t ∷ fs) e = apply_options-station _ fs e
apply_options-station args (path t ∷ fs) e =
    let (one, e1, e2) = >>=-eq-some (apply_option args (path t)) (λ a. apply_options a fs) e in
    apply_options-station one fs e2 ∙ ap (last_station fs) (ground arith)

use_directory-station :
    (cwd : Option Text) (args : Args) {after : Args}
    → use_directory cwd args ≡ some after
    → after.station_name ≡ args.station_name
unfolding use_directory
use_directory-station none args e = ground arith
use_directory-station (some d) args e = ground arith

parse_char-count :
    (size : ℕ) (p : Parser) (c : ℕ)
    → p.number_of_given_names + 1 < 2 ^ 16
    → (p.number_of_given_names ≤ (parse_char size p c).number_of_given_names)
      × ((parse_char size p c).number_of_given_names ≤ p.number_of_given_names + 1)
unfolding parse_char put_char
parse_char-count size p c lt = ground arith

parsed-station :
    (help : Bool) (fs : List Flag) (cwd : Option Text) {args : Args}
    → parse_commandline_arguments help fs cwd ≡ some args
    → args.station_name ≡ last_station fs default_args.station_name
unfolding parse_commandline_arguments
parsed-station true fs cwd e = absurd (cc e)
parsed-station false fs cwd e =
    let (parsed, e1, e2) =
      >>=-eq-some (apply_options default_args fs) (λ a. use_directory cwd a) e in
    use_directory-station cwd parsed e2 ∙ apply_options-station default_args fs e1

-- The parser counts a name for the list and one for each separator.
parse_names-count :
    (size : ℕ) (p : Parser) (s : Text)
    → p.number_of_given_names + length s < 2 ^ 16
    → p.number_of_given_names ≤ (parse_names size p s).number_of_given_names
unfolding parse_names
parse_names-count size p [] lt = omega arith
parse_names-count size p (c ∷ s) lt =
    let (low, high) = parse_char-count size p c (omega arith) in
    le_trans low (parse_names-count size (parse_char size p c) s (omega (arith, high)))
  where
    le_trans : {a b c : ℕ} → a ≤ b → b ≤ c → a ≤ c
    le_trans h k = omega (arith, h, k)

-- A list for a device with one port names one interface, or is refused.
num_ports_one :
    (before : Memory) (s : Text)
    → length s < 1000
    → ((get_netif_namelist before s 1).num_ports ≡ none)
      ⊎ ((get_netif_namelist before s 1).num_ports ≡ some 1)
unfolding get_netif_namelist
num_ports_one before s lt =
    let some_name = parse_names-count 2 fresh s (omega arith) in
    elim (Bool-cases (ltb 1 (parse_names 2 fresh s).number_of_given_names)) [
      | inl more ↦ inl (rw more refl)
      | inr few ↦
          let one : (parse_names 2 fresh s).number_of_given_names ≡ 1 = ground (arith, some_name) in
          elim (Bool-cases (any_empty (parse_names 2 fresh s).netif 0 1)) [
            | inl empty ↦ inl (rw one (rw empty refl))
            | inr full ↦ inr (rw one (rw full refl))
          ]
    ]

-- The configuration, where `main` gets beyond the storage.
stack_cfg-some :
    (v : Version) (a : MainAnswers) (before : Memory) (args : Args) (netif_cfg : IfCfg)
    → parse_commandline_arguments a.help a.flags a.cwd ≡ some args
    → (cfg_init_netifs a.addresses before args.eth_interfaces).1 ≡ some netif_cfg
    → IsReady a args
    → stack_cfg v a before
      ≡ some
          (record (with_threads (
            with_netifs
              (record (cfg_init_default v) { station_name = args.station_name })
              (cfg_init_netifs a.addresses before args.eth_interfaces).0
              netif_cfg)) { file_directory = args.path_storage_directory })
unfolding stack_cfg
stack_cfg-some v a before args netif_cfg parsed given r =
    rw (parsed, stack_cfg)
      (rw given (
        rw
          (storage-ok a.storage args (cfg_init_default v).file_directory r.program_dir r.data_dir
            r.directory)
          refl))

-- What the program hands on to P-Net.
pub record IsGiven (a : MainAnswers) (cfg : PnetCfg) : Type 0 where
  pub station : cfg.station_name ≡ last_station a.flags default_args.station_name
  pub one_port : cfg.num_physical_ports ≡ 1
  pub interfaces :
      cfg.if_cfg
      ≡ some (record {
        main_netif_name = 0;
        port_names = name_size ∷ [];
        ip_addr = copy_ip_to_struct a.addresses.ip;
        ip_gateway = copy_ip_to_struct a.addresses.gateway;
        ip_mask = copy_ip_to_struct a.addresses.netmask;
      })
  pub directory_exists : a.storage.exists cfg.file_directory ≡ true

-- The list of interfaces of a device with one port.
netifs-one :
    (answers : AddressAnswers) (before : Memory) (s : Text)
    → length s < 1000
    → (cfg_init_netifs answers before s).1 ≢ none
    → ((cfg_init_netifs answers before s).0.num_ports ≡ some 1)
      × ((cfg_init_netifs answers before s).1
          ≡ some (record {
            main_netif_name = 0;
            port_names = name_size ∷ [];
            ip_addr = copy_ip_to_struct answers.ip;
            ip_gateway = copy_ip_to_struct answers.gateway;
            ip_mask = copy_ip_to_struct answers.netmask;
          }))
unfolding cfg_init_netifs port_offsets
netifs-one answers before s lt accepts = elim (num_ports_one before s lt) [
  | inl refused ↦ absurd (accepts (rw (refused, cfg_init_netifs) refl))
  | inr one ↦ (rw (one, cfg_init_netifs) one, rw (one, cfg_init_netifs) refl)
]

-- The arguments fit into their arrays: `station_name` of 241 bytes, `path_storage_directory` of 240, and a
-- name of an interface of 16.
abbrev pub IsShort : Flag → Type 0
IsShort (station optarg) = length optarg ≤ 240
IsShort (path optarg) = length optarg < 240
IsShort (interfaces optarg) = length optarg < 16
IsShort verbose = Unit
IsShort stack_info = Unit
IsShort reset = Unit
IsShort remove = Unit
IsShort other = Unit

-- For arguments that fit into their arrays, of -s up to 240 characters, of -p below 240 and of -i
-- below 16: when main gets to its endless loop, it has given P-Net a configuration: the station name
-- is the argument of the last -s, or pn-logger without one; there is one port, whose interface has
-- the second entry of the list; the addresses are those that the system gave; and the storage
-- directory exists.
pub running-IsGiven :
    (v : Version) (a : MainAnswers) (before : Memory)
    → All IsShort a.flags
    → (main a before).0 ≡ running
    → (cfg : PnetCfg) × (stack_cfg v a before ≡ some cfg) × IsGiven a cfg
unfolding with_netifs with_threads
running-IsGiven v a before short e =
    let (args, (parsed, accepts), ready) = running-main a before e in
    let (fits, _) = parse_commandline_arguments-log_level a.help a.flags a.cwd parsed in
    let (one, given) =
      netifs-one a.addresses before args.eth_interfaces (omega (arith, fits)) accepts in
    (
      _,
      stack_cfg-some v a before args _ parsed given ready,
      record {
        station = parsed-station a.help a.flags a.cwd parsed;
        one_port = rw (one, with_netifs) refl;
        interfaces = refl;
        directory_exists = ready.directory;
      },
    )
