-- ===== src/Slots.antt =====
-- pn_logger/app_utils.c and app_utils.h: the table of slots and subslots in which the application
-- records what is plugged. Names, which are only printed, and the tag, which always is the
-- application, are left out; a callback is there or not.

pub mod Table
pub mod Tidy
pub mod Poll
mod Tests
use pnet2csv.Common.{
  ℕ, zero, suc, ◌+◌, List, [], ◌∷◌, Bool, true, false, not, ◌&&◌, ◌||◌, Option, none, some, ◌==◌,
  leb, if◌then◌else◌, ReturnCode, ok, error, get_elem?, set, replicate,
}
use pnet2csv.Pnet.{Direction, no_io, input, output, io, DataCfg, ioxs_bad, max_slots, max_subslots}

-- `app_subslot_t`
pub record Subslot : Type 0 where
  pub used : Bool
  pub plugged : Bool
  pub slot_nbr : ℕ
  pub subslot_nbr : ℕ
  pub submodule_id : ℕ
  pub data_cfg : DataCfg
  pub indata_iocs : ℕ
  pub outdata_iops : ℕ
  pub cyclic_callback : Bool

-- What `memset` leaves.
abbrev pub free_subslot : Subslot
free_subslot = record {
  used = false;
  plugged = false;
  slot_nbr = 0;
  subslot_nbr = 0;
  submodule_id = 0;
  data_cfg = record { data_dir = no_io; insize = 0; outsize = 0 };
  indata_iocs = ioxs_bad;
  outdata_iops = ioxs_bad;
  cyclic_callback = false;
}

-- `app_slot_t`
pub record Slot : Type 0 where
  pub plugged : Bool
  pub module_id : ℕ
  pub subslots : List Subslot

abbrev pub free_slot : Slot
free_slot = record {
  plugged = false;
  module_id = 0;
  subslots = replicate max_subslots free_subslot;
}

-- `slots` of the static application data.
abbrev pub free_slots : List Slot
free_slots = replicate max_slots free_slot

-- A change of the element at an index.
unfoldable pub change {ℓ} : {A : Type ℓ} → List A → ℕ → (A → A) → List A
change [] i f = []
change (x ∷ xs) zero f = f x ∷ xs
change (x ∷ xs) (suc i) f = x ∷ change xs i f

unfoldable pub plug_module : List Slot → ℕ → ℕ → List Slot × ReturnCode
plug_module slots slot_nbr id =
    if leb max_slots slot_nbr
    then (slots, error)
    else (change slots slot_nbr (λ s. record s { module_id = id; plugged = true }), ok)

unfoldable pub pull_module : List Slot → ℕ → List Slot × ReturnCode
pull_module slots slot_nbr =
    if leb max_slots slot_nbr
    then (slots, error)
    else (change slots slot_nbr (λ s. record s { plugged = false }), ok)

-- The subslots of a slot.
unfoldable pub subslots_of : List Slot → ℕ → List Subslot
subslots_of slots slot_nbr = elim (get_elem? slots slot_nbr) [ none ↦ [] | some s ↦ s.subslots ]

-- The loop of `app_utils_plug_submodule`: the index of the first subslot that is not used.
unfoldable pub free_index : List Subslot → Option ℕ
free_index [] = none
free_index (s ∷ ss) =
    let rest = free_index ss in
    if s.used then elim rest [ none ↦ none | some i ↦ some (suc i) ] else some 0

abbrev pub plugged_subslot : ℕ → ℕ → ℕ → DataCfg → Bool → Subslot
plugged_subslot slot_nbr subslot_nbr submodule_ident data_cfg cyclic_callback = record {
  used = true;
  plugged = true;
  slot_nbr = slot_nbr;
  subslot_nbr = subslot_nbr;
  submodule_id = submodule_ident;
  data_cfg = data_cfg;
  indata_iocs = ioxs_bad;
  outdata_iops = ioxs_bad;
  cyclic_callback = cyclic_callback;
}

-- `app_utils_plug_submodule`: the table and the index of the subslot.
unfoldable pub plug_submodule : List Slot → ℕ → ℕ → ℕ → DataCfg → Bool → List Slot × Option ℕ
unfolding free_index change subslots_of
plug_submodule slots slot_nbr subslot_nbr submodule_ident data_cfg cyclic_callback =
    let new = plugged_subslot slot_nbr subslot_nbr submodule_ident data_cfg cyclic_callback in
    if leb max_slots slot_nbr
    then (slots, none)
    else elim (free_index (subslots_of slots slot_nbr)) [
      | none ↦ (slots, none)
      | some i ↦ (change slots slot_nbr (λ s. record s { subslots = set s.subslots i new }), some i)
    ]

-- The loop of `app_utils_subslot_get`: the index of the first subslot with this number.
unfoldable pub number_index : List Subslot → ℕ → Option ℕ
number_index [] n = none
number_index (s ∷ ss) n =
    let rest = number_index ss n in
    if s.subslot_nbr == n then some 0 else elim rest [ none ↦ none | some i ↦ some (suc i) ]

-- `app_utils_subslot_get`: the index stands for the pointer.
unfoldable pub subslot_get : List Slot → ℕ → ℕ → Option ℕ
unfolding number_index subslots_of
subslot_get slots slot_nbr subslot_nbr =
    if leb max_slots slot_nbr then none else number_index (subslots_of slots slot_nbr) subslot_nbr

-- `app_utils_pull_submodule`; the guard compares the slot with the number of subslots.
unfoldable pub pull_submodule : List Slot → ℕ → ℕ → List Slot × ReturnCode
unfolding subslot_get change
pull_submodule slots slot_nbr subslot_nbr =
    if leb max_subslots slot_nbr
    then (slots, error)
    else elim (subslot_get slots slot_nbr subslot_nbr) [
      | none ↦ (slots, error)
      | some i ↦
          (change slots slot_nbr (λ s. record s { subslots = set s.subslots i free_subslot }), ok)
    ]

unfoldable pub subslot_is_input : Option Subslot → Bool
subslot_is_input none = false
subslot_is_input (some s) =
    s.used && elim s.data_cfg.data_dir [ input ↦ true | io ↦ true | _ ↦ false ]

unfoldable pub subslot_is_no_io : Option Subslot → Bool
subslot_is_no_io none = false
subslot_is_no_io (some s) = s.used && elim s.data_cfg.data_dir [ no_io ↦ true | _ ↦ false ]

unfoldable pub subslot_is_output : Option Subslot → Bool
subslot_is_output none = false
subslot_is_output (some s) =
    s.used && elim s.data_cfg.data_dir [ output ↦ true | io ↦ true | _ ↦ false ]

-- `app_utils_cyclic_data_poll`, on the subslots of one slot: the state goes through the callbacks,
-- in order. A callback may change its own subslot.
unfoldable pub poll_subslots {ℓ} :
    {S : Type ℓ} → (S → Subslot → S × Subslot) → S → List Subslot → S × List Subslot
poll_subslots callback s [] = (s, [])
poll_subslots callback s (x ∷ xs) =
    let (s', x') = if x.plugged && x.cyclic_callback then callback s x else (s, x) in
    let (s'', xs') = poll_subslots callback s' xs in (s'', x' ∷ xs')

unfoldable pub cyclic_data_poll {ℓ} :
    {S : Type ℓ} → (S → Subslot → S × Subslot) → S → List Slot → S × List Slot
unfolding poll_subslots
cyclic_data_poll callback s [] = (s, [])
cyclic_data_poll callback s (x ∷ xs) =
    let (s', subslots) = poll_subslots callback s x.subslots in
    let (s'', xs') = cyclic_data_poll callback s' xs in
    (s'', record x { subslots = subslots } ∷ xs')
