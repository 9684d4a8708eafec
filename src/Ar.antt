-- ===== src/Ar.antt =====
-- The application relations: the table and its iterator (`app_ar_*` of pn_logger/app_utils.c), and
-- `app_event_set`, `app_handle_event_ar` and the handlers of pn_logger/logger_common.c. The length of
-- the table is PNET_MAX_AR. The events of an entry are a set of event flags.
pub mod Pass
pub mod Events
pub mod Waits
pub mod Distinct
mod Tests
use pnet2csv.Common.{
  ℕ, zero, suc, ◌+◌, ◌-◌, ◌^◌, List, [], ◌∷◌, ◌++◌, Bool, true, false, not, ◌&&◌, ◌||◌, Option,
  none, some, ltb, ◌==◌, if◌then◌else◌, length,
}
use pnet2csv.Slots.{change}

-- The bits APP_EVENT_READY_FOR_DATA, APP_EVENT_TIMER, APP_EVENT_ALARM, APP_EVENT_SM_RELEASED and
-- APP_EVENT_ABORT.
pub data AppEvent : Type 0 where
  ready_for_data timer alarm sm_released abort : AppEvent

abbrev pub bit : AppEvent → ℕ
bit ready_for_data = 0
bit timer = 1
bit alarm = 2
bit sm_released = 3
bit abort = 15

abbrev pub EventSet : Type 0
EventSet = AppEvent → Bool

-- `events |= event` and `events &= ~event`
unfoldable pub with_event : EventSet → AppEvent → EventSet
with_event events event e = if bit e == bit event then true else events e

unfoldable pub without_event : EventSet → AppEvent → EventSet
without_event events event e = if bit e == bit event then false else events e

-- `app_ar_t`
pub record Ar : Type 0 where
  pub arep : ℕ
  pub events : EventSet

-- UINT32_MAX marks an entry that is free.
abbrev pub no_arep : ℕ
no_arep = 2 ^ 32 - 1

unfoldable pub is_used : Ar → Bool
is_used ar = not (ar.arep == no_arep)

-- The loop of `app_ar_add_arep`.
unfoldable pub free_ar : List Ar → Option ℕ
free_ar [] = none
free_ar (x ∷ xs) =
    let rest = free_ar xs in
    if is_used x then elim rest [ none ↦ none | some i ↦ some (suc i) ] else some 0

-- The loop of `app_event_set` over the iterator, which ends at the first free entry.
unfoldable pub find_ar : List Ar → ℕ → Option ℕ
find_ar [] arep = none
find_ar (x ∷ xs) arep =
    let rest = find_ar xs arep in
    if is_used x
    then (if x.arep == arep then some 0 else elim rest [ none ↦ none | some i ↦ some (suc i) ])
    else none

-- `app_ar_add_arep` and the event of the new entry.
unfoldable pub add_arep : List Ar → ℕ → AppEvent → List Ar
add_arep ars arep event = elim (free_ar ars) [
  | none ↦ ars
  | some i ↦ change ars i (λ _. record { arep = arep; events = with_event (λ _. false) event })
]

-- `app_event_set`, without the event of the main loop that it always sets.
unfoldable pub event_set : List Ar → ℕ → AppEvent → Bool → List Ar
event_set ars arep event add = elim (find_ar ars arep) [
  | some i ↦ change ars i (λ x. record x { events = with_event x.events event })
  | none ↦ if add then add_arep ars arep event else ars
]

-- The loop of `app_handle_event_ar`: the table, whether an entry was deleted, and the calls of the
-- handler. `handler` tells whether an entry is to be removed.
pub record Visited : Type 0 where
  pub ars : List Ar
  pub modified : Bool
  pub handled : List ℕ

unfoldable pub visit : AppEvent → (ℕ → Bool) → List Ar → Visited
visit event handler [] = record { ars = []; modified = false; handled = [] }
visit event handler (x ∷ xs) =
    let v = visit event handler xs in
    let cleared : Ar = record x { events = without_event x.events event } in
    if is_used x
    then (if x.events event
        then (if handler x.arep
            then record {
              ars = record cleared { arep = no_arep } ∷ v.ars;
              modified = true;
              handled = x.arep ∷ v.handled;
            }
            else record v { ars = cleared ∷ v.ars; handled = x.arep ∷ v.handled })
        else record v { ars = x ∷ v.ars })
    else record { ars = x ∷ xs; modified = false; handled = [] }

-- The inner loop of the compaction: the next entry that is used, and the table with it marked free.
unfoldable pub take_next : List Ar → Option (Ar × List Ar)
take_next [] = none
take_next (x ∷ xs) =
    let rest = take_next xs in
    if is_used x
    then some (x, record x { arep = no_arep } ∷ xs)
    else elim rest [ none ↦ none | some r ↦ some (r.0, x ∷ r.1) ]

-- The compaction in `app_ar_iterator_next`; the fuel is the number of entries.
unfoldable pub compact : ℕ → List Ar → List Ar
compact zero ars = ars
compact (suc n) [] = []
compact (suc n) (x ∷ xs) =
    if is_used x
    then x ∷ compact n xs
    else elim (take_next xs) [ none ↦ x ∷ xs | some r ↦ r.0 ∷ compact n r.1 ]

-- `app_handle_event_ar`; a build with PNET_MAX_AR 1 has no compaction.
unfoldable pub handle_event_ar : AppEvent → (ℕ → Bool) → List Ar → Visited
handle_event_ar event handler ars =
    let v = visit event handler ars in
    if v.modified && ltb 1 (length ars) then record v { ars = compact (length ars) v.ars } else v

-- What the handlers return: only the one for an abort removes the entry.
unfoldable pub removes : AppEvent → ℕ → Bool
removes ready_for_data arep = false
removes timer arep = false
removes alarm arep = false
removes sm_released arep = false
removes abort arep = true
