-- ===== src/App/Started.antt =====
-- The application once it is initialised and the access point is plugged.
use pnet2csv.Common.{
  All-replicate, ℕ, ◌≡◌, refl, List, [], ◌∷◌, Bool, true, false, arith, replicate, ◌⊎◌, inr,
}
use pnet2csv.Pnet.{AlarmArgument, dap_slot, dap_module, max_slots, max_subslots}
use pnet2csv.FileLogger.Entry.{no_time, IsDtl}
use pnet2csv.Slots.{Slot, free_slot, free_subslot, free_slots}
use pnet2csv.Slots.Table.{IsTidy}
use pnet2csv.Slots.Tidy.{IsTidyTable}
use pnet2csv.Ar.{Ar, is_used}
use pnet2csv.Ar.Pass.{active, used}
use pnet2csv.Device.Plugging.{
  PlugAnswers, exp_submodule_ind, plug_dap_submodules, plug_dap, dap_submodules, dap_data,
}
use pnet2csv.App.{App}
use pnet2csv.App.Init.{static_app, clear_ars, app_init, begin_loop, started}
use pnet2csv.App.Invariant.{
  IsSoundApp, exp_module_ind-IsTidyTable, exp_submodule_ind-IsTidyTable, slots-IsSoundApp,
}

free_slots-IsTidyTable : IsTidyTable free_slots
free_slots-IsTidyTable =
    All-replicate (λ s. IsTidy s.subslots) max_slots free_slot
      (All-replicate (λ x. (x.used ≡ true) ⊎ (x ≡ free_subslot)) max_subslots free_subslot
        (inr refl))

no_time-IsDtl : IsDtl no_time
no_time-IsDtl = record {
  year_lt = omega arith;
  month_lt = omega arith;
  day_lt = omega arith;
  weekday_lt = omega arith;
  hour_lt = omega arith;
  minute_lt = omega arith;
  second_lt = omega arith;
  nanosecond_lt = omega arith;
}

active-clear_ars : (ars : List Ar) → (active (clear_ars ars) ≡ []) × (used (clear_ars ars) ≡ [])
unfolding clear_ars active used is_used
active-clear_ars [] = (refl, refl)
active-clear_ars (x ∷ xs) = (refl, (active-clear_ars xs).1)

-- The initial application, whatever `pnet_init` says.
app_init-IsSoundApp :
    (net : Bool) (max_ar : ℕ) (arg : AlarmArgument)
    → IsSoundApp (app_init net (static_app max_ar arg)).0
unfolding app_init
app_init-IsSoundApp net max_ar arg =
    let gone = active-clear_ars (replicate max_ar (record { arep = 0; events = λ _. false })) in
    record {
      tidy = free_slots-IsTidyTable;
      gapless = rw (gone.0, gone.1) refl;
      sized = record { fresh = no_time-IsDtl; full = refl };
      last_fresh = no_time-IsDtl;
      last_full = refl;
      counted = refl;
      distinct = rw gone.0 tt;
    }

plug_dap_submodules-IsTidyTable :
    (answers : ℕ → PlugAnswers) (slots : List Slot) (ns : List ℕ)
    → IsTidyTable slots
    → IsTidyTable (plug_dap_submodules answers slots ns).0
unfolding plug_dap_submodules
plug_dap_submodules-IsTidyTable answers slots [] tidy = tidy
plug_dap_submodules-IsTidyTable answers slots (n ∷ ns) tidy =
    plug_dap_submodules-IsTidyTable answers
      (exp_submodule_ind (answers n) slots dap_slot n dap_module n dap_data).slots ns
      (exp_submodule_ind-IsTidyTable (answers n) slots dap_slot n dap_module n dap_data tidy)

begin_loop-IsSoundApp :
    (module_answers : PlugAnswers) (answers : ℕ → PlugAnswers) (app : App) (ports : ℕ)
    → IsSoundApp app
    → IsSoundApp (begin_loop module_answers answers app ports).0
unfolding begin_loop plug_dap
begin_loop-IsSoundApp module_answers answers app ports v = slots-IsSoundApp app _ v (
    plug_dap_submodules-IsTidyTable answers _ (dap_submodules ports)
      (exp_module_ind-IsTidyTable module_answers app.slots dap_slot dap_module v.tidy))

-- The application when the main loop begins, on each answer of the system.
pub started-IsSoundApp :
    (net : Bool) (max_ar : ℕ) (arg : AlarmArgument) (module_answers : PlugAnswers)
    (answers : ℕ → PlugAnswers) (ports : ℕ)
    → IsSoundApp (started net max_ar arg module_answers answers ports)
unfolding started
started-IsSoundApp net max_ar arg module_answers answers ports =
    begin_loop-IsSoundApp module_answers answers _ ports (app_init-IsSoundApp net max_ar arg)
