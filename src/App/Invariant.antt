-- ===== src/App/Invariant.antt =====
-- What holds of the application between two rounds of its main loop.
use pnet2csv.Common.{
  ℕ, ◌≡◌, refl, ◌∙◌, inl, inr, List, [], ◌∷◌, Bool, true, false, length, Bool-cases, ReturnCode, ok,
  error, leb,
}
use pnet2csv.Pnet.{ArEvent, DataCfg, max_slots}
use pnet2csv.FileLogger.Entry.{IsDtl, var64_size}
use pnet2csv.Slots.{Slot, plug_module, pull_module, pull_submodule}
use pnet2csv.Slots.Tidy.{
  IsTidyTable, plug_module-IsTidyTable, pull_module-IsTidyTable, plug_submodule-IsTidyTable,
  pull_submodule-IsTidyTable,
}
use pnet2csv.Ar.{AppEvent, ready_for_data, alarm, sm_released, abort}
use pnet2csv.Ar.Pass.{IsCompact}
use pnet2csv.Ar.Events.{event_set-IsCompact}
use pnet2csv.Ar.Distinct.{IsDistinct, event_set-IsDistinct}
use pnet2csv.Device.Plugging.{PlugAnswers, when_ok, exp_module_ind, exp_submodule_ind}
use pnet2csv.Device.Process.Sizes.{
  IsSized, set_default_outputs-IsSized, new_data_status_ind-IsSized,
}
use pnet2csv.App.{
  App, Indication, raise, default_outputs, state_ind_lines, indicate, indicate_all, notice,
  release_ind, alarm_cnf, sm_released_ind, state_ind, module_ind, submodule_ind, data_status_ind,
  alarm_ind,
}

-- The table of slots is tidy, that of the connections has no gap and no connection twice, the process data and the last
-- logged sample have the sizes and ranges of their C types, and the tick counter is at its start.
pub record IsSoundApp (app : App) : Type 0 where
  pub tidy : IsTidyTable app.slots
  pub gapless : IsCompact app.ars
  pub sized : IsSized app.process.app_data
  pub last_fresh : IsDtl app.cyclic.last_ts
  pub last_full : length app.cyclic.last_data ≡ var64_size
  pub counted : app.cyclic.tick_counter ≡ 0
  pub distinct : IsDistinct app.ars

raise-IsSoundApp :
    (app : App) (arep : ℕ) (event : AppEvent) (add : Bool)
    → IsSoundApp app
    → IsSoundApp (raise app arep event add)
unfolding raise
raise-IsSoundApp app arep event add v = record {
  tidy = v.tidy;
  gapless = event_set-IsCompact app.ars arep event add v.gapless;
  sized = v.sized;
  last_fresh = v.last_fresh;
  last_full = v.last_full;
  counted = v.counted;
  distinct = event_set-IsDistinct app.ars arep event add v.gapless v.distinct;
}

default_outputs-IsSoundApp : (app : App) → IsSoundApp app → IsSoundApp (default_outputs app)
unfolding default_outputs
default_outputs-IsSoundApp app v = record {
  tidy = v.tidy;
  gapless = v.gapless;
  sized = set_default_outputs-IsSized app.process.app_data v.sized;
  last_fresh = v.last_fresh;
  last_full = v.last_full;
  counted = v.counted;
  distinct = v.distinct;
}

when_ok-IsTidyTable :
    (code : ReturnCode) (done before : List Slot)
    → IsTidyTable done
    → IsTidyTable before
    → IsTidyTable (when_ok code done before)
when_ok-IsTidyTable ok done before d b = d
when_ok-IsTidyTable error done before d b = b

pub exp_module_ind-IsTidyTable :
    (a : PlugAnswers) (slots : List Slot) (n id : ℕ)
    → IsTidyTable slots
    → IsTidyTable (exp_module_ind a slots n id).slots
unfolding exp_module_ind
exp_module_ind-IsTidyTable a slots n id tidy =
    let pulled = when_ok a.pull ((pull_module slots n).0) slots in
    let pulled_tidy =
      when_ok-IsTidyTable a.pull _ slots (pull_module-IsTidyTable slots tidy n) tidy in
    let plugged_tidy =
      when_ok-IsTidyTable a.plug ((plug_module pulled n id).0) pulled
        (plug_module-IsTidyTable pulled pulled_tidy n id) pulled_tidy in
    elim (Bool-cases (leb max_slots n)) [ inl e ↦ rw e tidy | inr e ↦ rw e plugged_tidy ]

pub exp_submodule_ind-IsTidyTable :
    (a : PlugAnswers) (slots : List Slot) (n m mid sid : ℕ) (cfg : DataCfg)
    → IsTidyTable slots
    → IsTidyTable (exp_submodule_ind a slots n m mid sid cfg).slots
unfolding exp_submodule_ind
exp_submodule_ind-IsTidyTable a slots n m mid sid cfg tidy =
    let pulled = when_ok a.pull ((pull_submodule slots n m).0) slots in
    let pulled_tidy =
      when_ok-IsTidyTable a.pull _ slots (pull_submodule-IsTidyTable slots tidy n m) tidy in
    when_ok-IsTidyTable a.plug _ pulled (plug_submodule-IsTidyTable pulled pulled_tidy n m sid _ _)
      pulled_tidy

pub slots-IsSoundApp :
    (app : App) (slots : List Slot)
    → IsSoundApp app
    → IsTidyTable slots
    → IsSoundApp (record app { slots = slots })
slots-IsSoundApp app slots v tidy = record {
  tidy = tidy;
  gapless = v.gapless;
  sized = v.sized;
  last_fresh = v.last_fresh;
  last_full = v.last_full;
  counted = v.counted;
  distinct = v.distinct;
}

-- What a callback may change, whatever it is called with.
pub indicate-IsSoundApp :
    (app : App) (i : Indication) → IsSoundApp app → IsSoundApp (indicate app i).0
unfolding indicate state_ind_lines
indicate-IsSoundApp app notice v = v
indicate-IsSoundApp app release_ind v = default_outputs-IsSoundApp app v
indicate-IsSoundApp app alarm_cnf v = record {
  tidy = v.tidy;
  gapless = v.gapless;
  sized = v.sized;
  last_fresh = v.last_fresh;
  last_full = v.last_full;
  counted = v.counted;
  distinct = v.distinct;
}
indicate-IsSoundApp app (sm_released_ind arep) v = raise-IsSoundApp app arep sm_released false v
indicate-IsSoundApp app (state_ind arep ArEvent.abort) v =
    raise-IsSoundApp (default_outputs app) arep abort false (default_outputs-IsSoundApp app v)
indicate-IsSoundApp app (state_ind arep ArEvent.prmend) v =
    raise-IsSoundApp app arep ready_for_data true v
indicate-IsSoundApp app (state_ind arep ArEvent.startup) v = v
indicate-IsSoundApp app (state_ind arep ArEvent.applrdy) v = v
indicate-IsSoundApp app (state_ind arep ArEvent.transfer) v = v
indicate-IsSoundApp app (module_ind a n id) v =
    slots-IsSoundApp app _ v (exp_module_ind-IsTidyTable a app.slots n id v.tidy)
indicate-IsSoundApp app (submodule_ind a n m mid sid cfg) v =
    slots-IsSoundApp app _ v (exp_submodule_ind-IsTidyTable a app.slots n m mid sid cfg v.tidy)
indicate-IsSoundApp app (data_status_ind n) v = record {
  tidy = v.tidy;
  gapless = v.gapless;
  sized = new_data_status_ind-IsSized app.process.app_data n v.sized;
  last_fresh = v.last_fresh;
  last_full = v.last_full;
  counted = v.counted;
  distinct = v.distinct;
}
indicate-IsSoundApp app (alarm_ind arep arg) v =
    raise-IsSoundApp (record app { alarm_arg = arg }) arep alarm false
      (record {
        tidy = v.tidy;
        gapless = v.gapless;
        sized = v.sized;
        last_fresh = v.last_fresh;
        last_full = v.last_full;
        counted = v.counted;
        distinct = v.distinct;
      })

pub indicate_all-IsSoundApp :
    (app : App) (is : List Indication) → IsSoundApp app → IsSoundApp (indicate_all app is).0
unfolding indicate_all
indicate_all-IsSoundApp app [] v = v
indicate_all-IsSoundApp app (i ∷ is) v =
    indicate_all-IsSoundApp (indicate app i).0 is (indicate-IsSoundApp app i v)

-- No callback touches the state of the sampling.
indicate-cyclic : (app : App) (i : Indication) → (indicate app i).0.cyclic ≡ app.cyclic
unfolding indicate state_ind_lines raise default_outputs
indicate-cyclic app notice = refl
indicate-cyclic app release_ind = refl
indicate-cyclic app alarm_cnf = refl
indicate-cyclic app (sm_released_ind arep) = refl
indicate-cyclic app (state_ind arep ArEvent.abort) = refl
indicate-cyclic app (state_ind arep ArEvent.prmend) = refl
indicate-cyclic app (state_ind arep ArEvent.startup) = refl
indicate-cyclic app (state_ind arep ArEvent.applrdy) = refl
indicate-cyclic app (state_ind arep ArEvent.transfer) = refl
indicate-cyclic app (module_ind a n id) = refl
indicate-cyclic app (submodule_ind a n m mid sid cfg) = refl
indicate-cyclic app (data_status_ind n) = refl
indicate-cyclic app (alarm_ind arep arg) = refl

pub indicate_all-cyclic :
    (app : App) (is : List Indication) → (indicate_all app is).0.cyclic ≡ app.cyclic
unfolding indicate_all
indicate_all-cyclic app [] = refl
indicate_all-cyclic app (i ∷ is) = indicate_all-cyclic (indicate app i).0 is ∙ indicate-cyclic app i
