-- ===== src/Config/Main/Running.antt =====
-- When the program gets to its main loop, and what it does before.
use pnet2csv.Common.{
  ◌≡◌, ◌≢◌, ◌⊎◌, refl, sym, ap, ◌∙◌, inl, inr, List, [], none, some, Memory, Option-cases,
}
use pnet2csv.Config.Netif.{IfCfg, cfg_init_netifs}
use pnet2csv.Config.CommandLine.{Args, parse_commandline_arguments}
use pnet2csv.Config.Main.Stages.{IsReady, running-IsReady, some-none, running_failure}
use pnet2csv.Config.Main.{MainCall, Outcome, failure, running, MainAnswers, after_netifs, main}

-- `main` fails at the command line or at the network interfaces, or goes on.
main-after_netifs :
    (a : MainAnswers) (before : Memory) (args : Args) (cfg : IfCfg)
    → parse_commandline_arguments a.help a.flags a.cwd ≡ some args
    → (cfg_init_netifs a.addresses before args.eth_interfaces).1 ≡ some cfg
    → main a before ≡ after_netifs a args
unfolding main
main-after_netifs a before args cfg e1 e2 = rw (e1, main) (rw e2 refl)

main_cases :
    (a : MainAnswers) (before : Memory)
    → (main a before ≡ (failure, []))
      ⊎ ((args : Args) × (parse_commandline_arguments a.help a.flags a.cwd ≡ some args)
          × ((cfg_init_netifs a.addresses before args.eth_interfaces).1 ≢ none)
          × (main a before ≡ after_netifs a args))
unfolding main
main_cases a before = elim (Option-cases (parse_commandline_arguments a.help a.flags a.cwd)) [
  | inl refused ↦ inl (rw (refused, main) refl)
  | inr (args, parsed) ↦
      elim (Option-cases (cfg_init_netifs a.addresses before args.eth_interfaces).1) [
        | inl none_given ↦ inl (rw (parsed, main) (rw none_given refl))
        | inr (cfg, e) ↦ inr (
          args,
          parsed,
          (λ n. some-none (sym e ∙ n)),
          main-after_netifs a before args cfg parsed e,
        )
      ]
]

failed : {r : Outcome × List MainCall} → r ≡ (failure, []) → r.0 ≡ running → ⊥
failed e h = running_failure (sym h ∙ ap (λ x. x.0) e)

-- The command line and the network interfaces.
abbrev pub IsAccepted : MainAnswers → Memory → Args → Type 0
IsAccepted a before args =
    (parse_commandline_arguments a.help a.flags a.cwd ≡ some args)
    × ((cfg_init_netifs a.addresses before args.eth_interfaces).1 ≢ none)

pub running-main :
    (a : MainAnswers) (before : Memory)
    → (main a before).0 ≡ running
    → (args : Args) × IsAccepted a before args × IsReady a args
running-main a before e = elim (main_cases a before) [
  | inl fails ↦ absurd (failed fails e)
  | inr (args, parsed, netifs, goes_on) ↦
      (args, (parsed, netifs), running-IsReady a args (sym (ap (λ x. x.0) goes_on) ∙ e))
]
