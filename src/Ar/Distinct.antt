-- ===== src/Ar/Distinct.antt =====
-- The connections in the table are different ones.
use pnet2csv.Common.{
  ℕ, zero, suc, ◌≡◌, ◌≢◌, refl, sym, subst, ◌∙◌, List, [], ◌∷◌, ◌++◌, map, append-nil, Bool, false,
  none, some, arith, ◌==◌, if◌then◌else◌, Bool-cases, Option-cases, inl, inr, All, ==→eq, ==→ne,
}
use pnet2csv.Slots.{change}
use pnet2csv.Ar.{
  Ar, AppEvent, EventSet, is_used, with_event, find_ar, free_ar, add_arep, event_set, no_arep,
  handle_event_ar, removes, abort,
}
use pnet2csv.Ar.Pass.{active, used, kept, IsCompact, handle_event_ar-IsCompact}
use pnet2csv.Ar.Events.{active_none}
use pnet2csv.Ar.Waits.{Waits}

-- The AREPs that the iterator gives.
abbrev pub areps : List Ar → List ℕ
areps xs = map (λ (x : Ar). x.arep) xs

-- No number stands twice in the list.
abbrev pub AllDiffer : List ℕ → Type 0
AllDiffer [] = Unit {0}
AllDiffer (n ∷ ns) = All (λ k. k ≢ n) ns × AllDiffer ns

abbrev pub IsDistinct : List Ar → Type 0
IsDistinct ars = AllDiffer (areps (active ars))

AllDiffer-snoc :
    (ns : List ℕ) (r : ℕ) → AllDiffer ns → All (λ k. k ≢ r) ns → AllDiffer (ns ++ r ∷ [])
AllDiffer-snoc [] r d a = (tt, tt)
AllDiffer-snoc (n ∷ ns) r (h, d) (ne, a) =
    (All_snoc ns h (λ e. ne (sym e)), AllDiffer-snoc ns r d a)
  where
    All_snoc : (ms : List ℕ) → All (λ k. k ≢ n) ms → r ≢ n → All (λ k. k ≢ n) (ms ++ r ∷ [])
    All_snoc [] h ne = (ne, tt)
    All_snoc (m ∷ ms) (h, hs) ne = (h, All_snoc ms hs ne)

-- A connection that the loop does not find is not among the entries.
find_ar-none :
    (ars : List Ar) (r : ℕ) → find_ar ars r ≡ none → All (λ k. k ≢ r) (areps (active ars))
unfolding find_ar active
find_ar-none [] r e = tt
find_ar-none (x ∷ xs) r e = elim (Bool-cases (is_used x)) [
  | inr free ↦ rw free tt
  | inl u ↦ elim (Bool-cases (x.arep == r)) [
    | inl same ↦ absurd (ground (arith, e, u, same))
    | inr differs ↦
        let e' : find_ar xs r ≡ none = ground (arith, e, u, differs) in
        rw u (==→ne x.arep r differs, find_ar-none xs r e')
  ]
]

pub none-find_ar :
    (ars : List Ar) (r : ℕ) → All (λ k. k ≢ r) (areps (active ars)) → find_ar ars r ≡ none
unfolding find_ar active
none-find_ar [] r a = refl
none-find_ar (x ∷ xs) r a = elim (Bool-cases (is_used x)) [
  | inr free ↦ rw free refl
  | inl u ↦
      let (ne, rest) = rw u at a in
      let e = none-find_ar xs r rest in
      elim (Bool-cases (x.arep == r)) [
        | inl same ↦ absurd (ne (==→eq x.arep r same))
        | inr differs ↦ rw (u, differs, e) refl
      ]
]

-- An event that is set changes no number.
areps-change :
    (ars : List Ar) (i : ℕ) (f : EventSet → EventSet)
    → areps (active (change ars i (λ x. record x { events = f x.events }))) ≡ areps (active ars)
unfolding change active is_used
areps-change [] i f = refl
areps-change (x ∷ xs) zero f = ground arith
areps-change (x ∷ xs) (suc i) f = ground (arith, areps-change xs i f)

-- A new entry comes last.
areps-change_free :
    (ars : List Ar) (i : ℕ) (new : Ar)
    → IsCompact ars
    → free_ar ars ≡ some i
    → areps (active (change ars i (λ _. new)))
      ≡ areps (active ars) ++ (if is_used new then new.arep ∷ [] else [])
unfolding change active used is_used free_ar
areps-change_free [] i new c e = absurd (cc e)
areps-change_free (x ∷ xs) zero new c e =
    let none_left : used xs ≡ [] = ground arith in
    ground (arith, none_left, active_none xs none_left)
areps-change_free (x ∷ xs) (suc i) new c e = elim (Bool-cases (x.arep == no_arep)) [
  | inl free ↦ absurd (ground arith)
  | inr taken ↦
      let c' : IsCompact xs = ground (arith, c, taken) in
      let e' : free_ar xs ≡ some i = ground (arith, e, taken) in
      ground (arith, taken, areps-change_free xs i new c' e')
]

add_arep-IsDistinct :
    (ars : List Ar) (r : ℕ) (event : AppEvent)
    → IsCompact ars
    → IsDistinct ars
    → find_ar ars r ≡ none
    → IsDistinct (add_arep ars r event)
unfolding add_arep
add_arep-IsDistinct ars r event c d absent = elim (Option-cases (free_ar ars)) [
  | inl full ↦ rw (full, add_arep) d
  | inr (i, e) ↦
      let new : Ar = record { arep = r; events = with_event (λ _. false) event } in
      let same = areps-change_free ars i new c e in
      rw (e, add_arep)
        (subst AllDiffer (sym same) (elim (Bool-cases (is_used new)) [
          | inr unused ↦ rw unused (rw (append-nil (areps (active ars))) d)
          | inl u ↦ rw u (AllDiffer-snoc (areps (active ars)) r d (find_ar-none ars r absent))
        ]))
]

pub event_set-IsDistinct :
    (ars : List Ar) (r : ℕ) (event : AppEvent) (add : Bool)
    → IsCompact ars
    → IsDistinct ars
    → IsDistinct (event_set ars r event add)
unfolding event_set
event_set-IsDistinct ars r event add c d = elim (Option-cases (find_ar ars r)) [
  | inr (i, e) ↦
      rw (e, event_set)
        (subst AllDiffer (sym (areps-change ars i (λ events. with_event events event))) d)
  | inl absent ↦ elim (Bool-cases add) [
    | inr a ↦ rw (absent, event_set) (rw a d)
    | inl a ↦ rw (absent, event_set) (rw a (add_arep-IsDistinct ars r event c d absent))
  ]
]

-- What a pass leaves.
All-kept :
    (P : ℕ → Type 0) (event : AppEvent) (handler : ℕ → Bool) (xs : List Ar)
    → All P (areps xs)
    → All P (areps (kept event handler xs))
unfolding kept
All-kept P event handler [] a = tt
All-kept P event handler (x ∷ xs) (p, a) =
    let rest = All-kept P event handler xs a in
    elim (Bool-cases (x.events event)) [
      | inr down ↦ rw down (p, rest)
      | inl up ↦ elim (Bool-cases (handler x.arep)) [
        | inl gone ↦ rw (up, gone) rest
        | inr stays ↦ rw (up, stays) (p, rest)
      ]
    ]

AllDiffer-kept :
    (event : AppEvent) (handler : ℕ → Bool) (xs : List Ar)
    → AllDiffer (areps xs)
    → AllDiffer (areps (kept event handler xs))
unfolding kept
AllDiffer-kept event handler [] d = tt
AllDiffer-kept event handler (x ∷ xs) (a, d) =
    let rest = AllDiffer-kept event handler xs d in
    let others = All-kept (λ k. k ≢ x.arep) event handler xs a in
    elim (Bool-cases (x.events event)) [
      | inr down ↦ rw down (others, rest)
      | inl up ↦ elim (Bool-cases (handler x.arep)) [
        | inl gone ↦ rw (up, gone) rest
        | inr stays ↦ rw (up, stays) (others, rest)
      ]
    ]

pub handle_event_ar-IsDistinct :
    (event : AppEvent) (handler : ℕ → Bool) (ars : List Ar)
    → IsCompact ars
    → IsDistinct ars
    → IsDistinct (handle_event_ar event handler ars).ars
handle_event_ar-IsDistinct event handler ars c d =
    let (left, _, _) = handle_event_ar-IsCompact event handler ars c in
    subst (λ xs. AllDiffer (areps xs)) (sym left) (AllDiffer-kept event handler (active ars) d)

Waits-elsewhere :
    (event : AppEvent) (arep n : ℕ) (ars : List Ar)
    → Waits event arep ars
    → All (λ k. k ≢ n) (areps (active ars))
    → n ≢ arep
unfolding active
Waits-elsewhere event arep n [] w a = absurd w
Waits-elsewhere event arep n (x ∷ xs) (u, inl (same, up)) a =
    let (ne, _) = rw u at a in λ e. ne (same ∙ sym e)
Waits-elsewhere event arep n (x ∷ xs) (u, inr w) a =
    let (_, rest) = rw u at a in Waits-elsewhere event arep n xs w rest

-- A connection whose abort waits is not among those that a pass keeps.
aborted-kept :
    (arep : ℕ) (ars : List Ar)
    → Waits abort arep ars
    → IsDistinct ars
    → All (λ k. k ≢ arep) (areps (kept abort (removes abort) (active ars)))
unfolding active kept removes
aborted-kept arep [] w d = absurd w
aborted-kept arep (x ∷ xs) (u, inl (same, up)) d =
    let (others, _) = rw u at d in
    rw (u, up)
      (All-kept (λ k. k ≢ arep) abort (removes abort) (active xs)
        (subst (λ n. All (λ k. k ≢ n) (areps (active xs))) same others))
aborted-kept arep (x ∷ xs) (u, inr w) d =
    let (others, rest) = rw u at d in
    let gone = aborted-kept arep xs w rest in
    elim (Bool-cases (x.events abort)) [
      | inl up ↦ rw (u, up) gone
      | inr down ↦ rw (u, down) (Waits-elsewhere abort arep x.arep xs w others, gone)
    ]

pub handle_event_ar-aborted :
    (arep : ℕ) (ars : List Ar)
    → IsCompact ars
    → IsDistinct ars
    → Waits abort arep ars
    → find_ar (handle_event_ar abort (removes abort) ars).ars arep ≡ none
handle_event_ar-aborted arep ars c d w =
    let (left, _, _) = handle_event_ar-IsCompact abort (removes abort) ars c in
    none-find_ar (handle_event_ar abort (removes abort) ars).ars arep
      (subst (λ xs. All (λ k. k ≢ arep) (areps xs)) (sym left) (aborted-kept arep ars w d))
