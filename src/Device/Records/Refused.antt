-- ===== src/Device/Records/Refused.antt =====
-- What the controller is told about its requests for parameters.
use pnet2csv.Common.{ℕ, ◌≡◌, List, error, arith, Option-cases, inl, inr}
use pnet2csv.Pnet.{PnioStatus, read_failed, write_failed}
use pnet2csv.Slots.{Slot, subslot_get}
use pnet2csv.AppData.Outputs.{parameter-error}
use pnet2csv.Device.Records.{write_ind, read_ind, submodule_id_at}

-- Every request to write or read a parameter is refused with the status for that access, whatever
-- is plugged, and also at a subslot that is not.
pub write_ind-read_ind :
    (slots : List Slot) (slot subslot idx length : ℕ) (status : PnioStatus)
    → (write_ind slots slot subslot idx length status ≡ (error, write_failed))
      × (read_ind slots slot subslot idx length status ≡ (error, read_failed))
unfolding write_ind read_ind
write_ind-read_ind slots slot subslot idx length status =
    elim (Option-cases (subslot_get slots slot subslot)) [
      | inl n ↦ (ground arith, ground arith)
      | inr (i, s) ↦
          let (w, r) = parameter-error (submodule_id_at slots slot i) idx length in
          (ground (arith, s, w), ground (arith, s, r))
    ]
