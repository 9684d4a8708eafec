-- ===== src/Device/Records.antt =====
-- `app_write_ind` and `app_read_ind` of pn_logger/logger_common.c: the requests of the controller
-- for a parameter. The result has the status that is reported to it.
pub mod Refused
use pnet2csv.Common.{ℕ, List, Option, none, some, ReturnCode, ok, error, get_elem?}
use pnet2csv.Pnet.{PnioStatus, read_failed, write_failed}
use pnet2csv.Slots.{Subslot, Slot, free_subslot, subslot_get, subslots_of}
use pnet2csv.AppData.{write_parameter, read_parameter}

-- The identifier of the submodule at an index that `app_utils_subslot_get` gave.
unfoldable pub submodule_id_at : List Slot → ℕ → ℕ → ℕ
unfolding subslots_of
submodule_id_at slots slot i = elim (get_elem? (subslots_of slots slot) i) [
  | none ↦ 0
  | some s ↦ s.submodule_id
]

unfoldable pub write_ind : List Slot → ℕ → ℕ → ℕ → ℕ → PnioStatus → ReturnCode × PnioStatus
write_ind slots slot_nbr subslot_nbr idx write_length status =
    elim (subslot_get slots slot_nbr subslot_nbr) [
      | none ↦ (error, write_failed)
      | some i ↦ elim (write_parameter (submodule_id_at slots slot_nbr i) idx write_length) [
        | ok ↦ (ok, status)
        | error ↦ (error, write_failed)
      ]
    ]

unfoldable pub read_ind : List Slot → ℕ → ℕ → ℕ → ℕ → PnioStatus → ReturnCode × PnioStatus
read_ind slots slot_nbr subslot_nbr idx read_length status =
    elim (subslot_get slots slot_nbr subslot_nbr) [
      | none ↦ (error, read_failed)
      | some i ↦ elim (read_parameter (submodule_id_at slots slot_nbr i) idx read_length) [
        | ok ↦ (ok, status)
        | error ↦ (error, read_failed)
      ]
    ]
