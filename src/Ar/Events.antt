-- ===== src/Ar/Events.antt =====
-- An event that is set leaves no gap in the table.
use pnet2csv.Common.{
  ℕ, zero, suc, ◌≡◌, refl, List, [], ◌∷◌, Bool, false, some, arith, ◌==◌, Bool-cases, Option-cases,
  inl, inr,
}
use pnet2csv.Slots.{change}
use pnet2csv.Ar.{
  Ar, AppEvent, EventSet, is_used, with_event, find_ar, free_ar, add_arep, event_set, no_arep,
}
use pnet2csv.Ar.Pass.{active, used, IsCompact}

-- Where no entry is used none is active, and a change of events does not make one so.
pub active_none : (ars : List Ar) → used ars ≡ [] → active ars ≡ []
unfolding active used is_used
active_none [] e = refl
active_none (x ∷ xs) e = ground arith

used-change_none :
    (ars : List Ar) (i : ℕ) (f : EventSet → EventSet)
    → used ars ≡ []
    → used (change ars i (λ x. record x { events = f x.events })) ≡ []
unfolding change used is_used
used-change_none [] i f e = refl
used-change_none (x ∷ xs) zero f e = ground arith
used-change_none (x ∷ xs) (suc i) f e = ground (arith, used-change_none xs i f)

-- A change of the events of an entry.
change-IsCompact :
    (ars : List Ar) (i : ℕ) (f : EventSet → EventSet)
    → IsCompact ars
    → IsCompact (change ars i (λ x. record x { events = f x.events }))
unfolding change active used is_used
change-IsCompact [] i f c = refl
change-IsCompact (x ∷ xs) zero f c = ground arith
change-IsCompact (x ∷ xs) (suc i) f c = elim (Bool-cases (x.arep == no_arep)) [
  | inl free ↦
      let none_left : used xs ≡ [] = ground (arith, c, free) in
      ground (arith, free, used-change_none xs i f none_left)
  | inr taken ↦
      let c' : IsCompact xs = ground (arith, c, taken) in
      ground (arith, taken, change-IsCompact xs i f c')
]

-- The first free entry, taken.
change-free_ar :
    (ars : List Ar) {i : ℕ} (new : Ar)
    → IsCompact ars
    → free_ar ars ≡ some i
    → IsCompact (change ars i (λ _. new))
unfolding change active used is_used free_ar
change-free_ar [] new c e = ground arith
change-free_ar (x ∷ xs) {i = zero} new c e =
    let none_left : used xs ≡ [] = ground arith in
    ground (arith, none_left, active_none xs none_left)
change-free_ar (x ∷ xs) {i = suc i} new c e = elim (Bool-cases (x.arep == no_arep)) [
  | inl free ↦ absurd (ground arith)
  | inr taken ↦
      let c' : IsCompact xs = ground (arith, c, taken) in
      let e' : free_ar xs ≡ some i = ground (arith, e, taken) in
      ground (arith, taken, change-free_ar xs {i = i} new c' e')
]

add_arep-IsCompact :
    (ars : List Ar) (arep : ℕ) (event : AppEvent)
    → IsCompact ars
    → IsCompact (add_arep ars arep event)
unfolding add_arep
add_arep-IsCompact ars arep event c = elim (Option-cases (free_ar ars)) [
  | inl full ↦ rw (full, add_arep) c
  | inr (j, e) ↦
      rw (e, add_arep)
        (change-free_ar ars (record { arep = arep; events = with_event (λ _. false) event }) c e)
]

pub event_set-IsCompact :
    (ars : List Ar) (arep : ℕ) (event : AppEvent) (add : Bool)
    → IsCompact ars
    → IsCompact (event_set ars arep event add)
unfolding event_set add_arep
event_set-IsCompact ars arep event add c = elim (Option-cases (find_ar ars arep)) [
  | inr (i, e) ↦ rw (e, event_set) (change-IsCompact ars i (λ events. with_event events event) c)
  | inl absent ↦ elim (Bool-cases add) [
    | inl a ↦ rw (absent, event_set) (rw a (add_arep-IsCompact ars arep event c))
    | inr a ↦ rw (absent, event_set) (rw a c)
  ]
]
