-- ===== src/Ar/Waits.antt =====
-- A connection whose event waits for the main loop.
use pnet2csv.Common.{
  ℕ, zero, suc, ◌≡◌, ◌≢◌, refl, sym, List, [], ◌∷◌, Bool, true, false, none, some, arith,
  Bool-cases, Option-cases, inl, inr, ◌⊎◌, ltb, length, ◌&&◌, Has,
}
use pnet2csv.Slots.{change}
use pnet2csv.Ar.{
  Ar, AppEvent, EventSet, is_used, with_event, find_ar, free_ar, add_arep, event_set, no_arep,
  visit, handle_event_ar, bit, removes, without_event,
}

-- The iterator reaches an entry of this connection, and the entry has the event.
abbrev pub Waits : AppEvent → ℕ → List Ar → Type 0
Waits event arep [] = ⊥
Waits event arep (x ∷ xs) =
    (is_used x ≡ true) × (((x.arep ≡ arep) × (x.events event ≡ true)) ⊎ Waits event arep xs)

pub with_event_keeps :
    (events : EventSet) (e event : AppEvent) → events e ≡ true → with_event events event e ≡ true
unfolding with_event
with_event_keeps events e event h = ground (arith, h)

pub with_event_sets : (events : EventSet) (event : AppEvent) → with_event events event event ≡ true
unfolding with_event
with_event_sets events event = ground arith

change-Waits :
    (event e : AppEvent) (arep : ℕ) (ars : List Ar) (i : ℕ)
    → Waits event arep ars
    → Waits event arep (change ars i (λ x. record x { events = with_event x.events e }))
unfolding change is_used
change-Waits event e arep [] i w = w
change-Waits event e arep (x ∷ xs) zero (u, inl (same, up)) =
    (u, inl (same, with_event_keeps x.events event e up))
change-Waits event e arep (x ∷ xs) zero (u, inr w) = (u, inr w)
change-Waits event e arep (x ∷ xs) (suc i) (u, inl now) = (u, inl now)
change-Waits event e arep (x ∷ xs) (suc i) (u, inr w) = (u, inr (change-Waits event e arep xs i w))

-- The entry that is taken is behind it.
taken-Waits :
    (event : AppEvent) (arep : ℕ) (ars : List Ar) (i : ℕ) (new : Ar)
    → Waits event arep ars
    → free_ar ars ≡ some i
    → Waits event arep (change ars i (λ _. new))
unfolding change is_used free_ar
taken-Waits event arep [] i new w e = w
taken-Waits event arep (x ∷ xs) zero new (u, w) e = absurd (ground (arith, u, e))
taken-Waits event arep (x ∷ xs) (suc i) new (u, inl now) e = (u, inl now)
taken-Waits event arep (x ∷ xs) (suc i) new (u, inr w) e =
    let e' : free_ar xs ≡ some i = ground (arith, u, e) in
    (u, inr (taken-Waits event arep xs i new w e'))

add_arep-Waits :
    (event e : AppEvent) (arep r : ℕ) (ars : List Ar)
    → Waits event arep ars
    → Waits event arep (add_arep ars r e)
unfolding add_arep
add_arep-Waits event e arep r ars w = elim (Option-cases (free_ar ars)) [
  | inl full ↦ rw (full, add_arep) w
  | inr (i, found) ↦ rw (found, add_arep) (taken-Waits event arep ars i _ w found)
]

-- No event is taken back before the main loop has seen it.
pub event_set-Waits :
    (event e : AppEvent) (arep r : ℕ) (add : Bool) (ars : List Ar)
    → Waits event arep ars
    → Waits event arep (event_set ars r e add)
unfolding event_set
event_set-Waits event e arep r add ars w = elim (Option-cases (find_ar ars r)) [
  | inr (i, found) ↦ rw (found, event_set) (change-Waits event e arep ars i w)
  | inl absent ↦ elim (Bool-cases add) [
    | inl a ↦ rw (absent, event_set) (rw a (add_arep-Waits event e arep r ars w))
    | inr a ↦ rw (absent, event_set) (rw a w)
  ]
]

-- The connection is in the table.
found-Waits :
    (event : AppEvent) (arep : ℕ) (ars : List Ar) (i : ℕ)
    → find_ar ars arep ≡ some i
    → Waits event arep (change ars i (λ x. record x { events = with_event x.events event }))
unfolding change is_used find_ar
found-Waits event arep [] i e = absurd (cc e)
found-Waits event arep (x ∷ xs) zero e =
    (ground (arith, e), inl (ground (arith, e), with_event_sets x.events event))
found-Waits event arep (x ∷ xs) (suc i) e =
    let u : is_used x ≡ true = ground (arith, e) in
    let e' : find_ar xs arep ≡ some i = ground (arith, u, e) in
    (u, inr (found-Waits event arep xs i e'))

-- It is not, but there is a free entry.
free-Waits :
    (event : AppEvent) (arep : ℕ) (ars : List Ar) (i : ℕ)
    → arep ≢ no_arep
    → free_ar ars ≡ some i
    → Waits event arep
        (change ars i (λ _. record { arep = arep; events = with_event (λ _. false) event }))
unfolding change is_used free_ar
free-Waits event arep [] i valid e = absurd (cc e)
free-Waits event arep (x ∷ xs) zero valid e =
    (ground (arith, valid), inl (refl, with_event_sets (λ _. false) event))
free-Waits event arep (x ∷ xs) (suc i) valid e =
    let u : is_used x ≡ true = ground (arith, e) in
    let e' : free_ar xs ≡ some i = ground (arith, u, e) in
    (u, inr (free-Waits event arep xs i valid e'))

visit-Has :
    (event : AppEvent) (handler : ℕ → Bool) (arep : ℕ) (ars : List Ar)
    → Waits event arep ars
    → Has arep (visit event handler ars).handled
unfolding visit is_used
visit-Has event handler arep [] w = w
visit-Has event handler arep (x ∷ xs) (u, inl (same, up)) = elim (Bool-cases (handler x.arep)) [
  | inl gone ↦ rw (u, up, gone) (inl (sym same))
  | inr stays ↦ rw (u, up, stays) (inl (sym same))
]
visit-Has event handler arep (x ∷ xs) (u, inr w) =
    let rest = visit-Has event handler arep xs w in
    elim (Bool-cases (x.events event)) [
      | inr down ↦ rw (u, down) rest
      | inl up ↦ elim (Bool-cases (handler x.arep)) [
        | inl gone ↦ rw (u, up, gone) (inr rest)
        | inr stays ↦ rw (u, up, stays) (inr rest)
      ]
    ]

-- What the pass of the main loop calls its handler with.
pub handle_event_ar-Has :
    (event : AppEvent) (handler : ℕ → Bool) (arep : ℕ) (ars : List Ar)
    → Waits event arep ars
    → Has arep (handle_event_ar event handler ars).handled
unfolding handle_event_ar
handle_event_ar-Has event handler arep ars w =
    let v = visit event handler ars in
    elim (Bool-cases (v.modified && ltb 1 (length ars))) [
      | inl packed ↦ rw packed (visit-Has event handler arep ars w)
      | inr same ↦ rw same (visit-Has event handler arep ars w)
    ]

-- A known connection, or one that finds a free entry, waits once the event is set.
pub set-Waits :
    (event : AppEvent) (arep : ℕ) (ars : List Ar)
    → arep ≢ no_arep
    → (find_ar ars arep ≢ none) ⊎ (free_ar ars ≢ none)
    → Waits event arep (event_set ars arep event true)
unfolding event_set add_arep
set-Waits event arep ars valid room = elim (Option-cases (find_ar ars arep)) [
  | inr (i, found) ↦ rw (found, event_set) (found-Waits event arep ars i found)
  | inl absent ↦ elim (Option-cases (free_ar ars)) [
    | inr (i, free) ↦
        rw (absent, event_set) (rw (free, add_arep) (free-Waits event arep ars i valid free))
    | inl full ↦ absurd (elim room [ inl f ↦ f absent | inr f ↦ f full ])
  ]
]

without_event_keeps :
    (events : EventSet) (e event : AppEvent)
    → bit event ≢ bit e
    → events event ≡ true
    → without_event events e event ≡ true
unfolding without_event
without_event_keeps events e event other h = ground (arith, other, h)

-- A pass for another event that removes nothing.
visit_unmodified :
    (e : AppEvent) (ars : List Ar)
    → ((r : ℕ) → removes e r ≡ false)
    → (visit e (removes e) ars).modified ≡ false
unfolding visit
visit_unmodified e [] none_gone = refl
visit_unmodified e (x ∷ xs) none_gone =
    let rest = visit_unmodified e xs none_gone in
    elim (Bool-cases (is_used x)) [
      | inr free ↦ rw free refl
      | inl u ↦ elim (Bool-cases (x.events e)) [
        | inr down ↦ rw (u, down) rest
        | inl up ↦ rw (u, up, none_gone x.arep) rest
      ]
    ]

visit-Waits :
    (event e : AppEvent) (arep : ℕ) (ars : List Ar)
    → bit event ≢ bit e
    → ((r : ℕ) → removes e r ≡ false)
    → Waits event arep ars
    → Waits event arep (visit e (removes e) ars).ars
unfolding visit is_used
visit-Waits event e arep [] other none_gone w = w
visit-Waits event e arep (x ∷ xs) other none_gone (u, w) =
    let rest = λ (v : Waits event arep xs). visit-Waits event e arep xs other none_gone v in
    elim (Bool-cases (x.events e)) [
      | inr down ↦ rw (u, down) (u, later x.events (λ h. h) rest w)
      | inl up ↦
          rw (u, up, none_gone x.arep)
            (
              u,
              later (without_event x.events e) (without_event_keeps x.events e event other) rest w,
            )
    ]
  where
    later :
        (events : EventSet)
        → (x.events event ≡ true → events event ≡ true)
        → (Waits event arep xs → Waits event arep (visit e (removes e) xs).ars)
        → ((x.arep ≡ arep) × (x.events event ≡ true)) ⊎ Waits event arep xs
        → ((x.arep ≡ arep) × (events event ≡ true)) ⊎ Waits event arep (visit e (removes e) xs).ars
    later events keeps rest (inl (same, now)) = inl (same, keeps now)
    later events keeps rest (inr w) = inr (rest w)

pub handle_event_ar-Waits :
    (event e : AppEvent) (arep : ℕ) (ars : List Ar)
    → bit event ≢ bit e
    → ((r : ℕ) → removes e r ≡ false)
    → Waits event arep ars
    → Waits event arep (handle_event_ar e (removes e) ars).ars
unfolding handle_event_ar
handle_event_ar-Waits event e arep ars other none_gone w =
    rw (visit_unmodified e ars none_gone) (visit-Waits event e arep ars other none_gone w)

-- A known connection waits, whether or not it would be added.
pub known-Waits :
    (event : AppEvent) (arep : ℕ) (add : Bool) (ars : List Ar)
    → find_ar ars arep ≢ none
    → Waits event arep (event_set ars arep event add)
unfolding event_set
known-Waits event arep add ars known = elim (Option-cases (find_ar ars arep)) [
  | inr (i, found) ↦ rw (found, event_set) (found-Waits event arep ars i found)
  | inl absent ↦ absurd (known absent)
]
