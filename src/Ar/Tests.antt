-- ===== src/Ar/Tests.antt =====
-- The application relations at concrete inputs.
use pnet2csv.Common.{◌≡◌, refl, List, [], ◌∷◌, true, false, map}
use pnet2csv.Ar.{
  Ar, abort, alarm, no_arep, with_event, event_set, handle_event_ar, removes, visit, compact,
  take_next, is_used, add_arep, find_ar, free_ar,
}
use pnet2csv.Slots.{change}

abbrev free : Ar
free = record { arep = no_arep; events = λ _. false }

-- Three relations, two of them aborted, and a free entry.
abbrev table : List Ar
table =
    record { arep = 5; events = with_event (λ _. false) abort }
    ∷ record { arep = 6; events = with_event (λ _. false) alarm }
    ∷ record { arep = 7; events = with_event (λ _. false) abort }
    ∷ free
    ∷ []

-- An event for a relation that is not there yet uses the free entry.
added : map (λ x. x.arep) (event_set table 9 alarm true) ≡ 5 ∷ 6 ∷ 7 ∷ 9 ∷ []
unfolding event_set add_arep find_ar free_ar is_used change
added = refl

-- The second relation is left, in front.
passed :
    map (λ x. x.arep) (handle_event_ar abort (removes abort) table).ars
    ≡ 6 ∷ no_arep ∷ no_arep ∷ no_arep ∷ []
unfolding handle_event_ar visit with_event compact take_next is_used removes
passed = refl
