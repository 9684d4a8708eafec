-- ===== src/Device/Plugging/Known.antt =====
-- What the table holds after the indications.
use pnet2csv.Common.{ℕ, ◌≡◌, List, arith, error}
use pnet2csv.Pnet.{DataCfg}
use pnet2csv.Slots.{Slot}
use pnet2csv.Device.Plugging.{PlugAnswers, exp_submodule_ind}

module _ (a : PlugAnswers) (slots : List Slot) (n m mid sid : ℕ) (exp : DataCfg) where
  -- Where P-Net pulls and plugs nothing, the table stays, and the error is passed on.
  pub exp_submodule_ind-error :
      a.pull ≡ error
      → a.plug ≡ error
      → ((exp_submodule_ind a slots n m mid sid exp).slots ≡ slots)
        × ((exp_submodule_ind a slots n m mid sid exp).code ≡ error)
  unfolding exp_submodule_ind
  exp_submodule_ind-error e1 e2 = ground arith
