-- ===== src/Ar/Pass.antt =====
-- What a pass over the table leaves.
use pnet2csv.Common.{
  ℕ, zero, suc, ◌<◌, ◌≤◌, ◌≡◌, refl, ap, subst, inl, inr, List, [], ◌∷◌, Bool, true, false, none,
  some, arith, ltb, ◌==◌, if◌then◌else◌, length, Bool-cases, Option-cases, ltb→le,
}
use pnet2csv.Ar.{
  AppEvent, Ar, no_arep, is_used, without_event, visit, take_next, compact, handle_event_ar,
}

-- The entries that the iterator gives: those before the first free one.
unfoldable pub active : List Ar → List Ar
active [] = []
active (x ∷ xs) = if is_used x then x ∷ active xs else []

-- All entries that are used.
unfoldable pub used : List Ar → List Ar
used [] = []
used (x ∷ xs) = if is_used x then x ∷ used xs else used xs

-- What becomes of the entries: those whose handler says so go, the others lose the event.
unfoldable pub kept : AppEvent → (ℕ → Bool) → List Ar → List Ar
kept event handler [] = []
kept event handler (x ∷ xs) =
    if x.events event
    then (if handler x.arep
        then kept event handler xs
        else record x { events = without_event x.events event } ∷ kept event handler xs)
    else x ∷ kept event handler xs

unfoldable pub pending : AppEvent → List Ar → List ℕ
pending event [] = []
pending event (x ∷ xs) = if x.events event then x.arep ∷ pending event xs else pending event xs

-- No used entry behind a free one.
abbrev pub IsCompact : List Ar → Type 0
IsCompact ars = active ars ≡ used ars

-- The used entries, and the calls, in one round.
used-visit :
    (event : AppEvent) (handler : ℕ → Bool) (ars : List Ar)
    → IsCompact ars
    → (used (visit event handler ars).ars ≡ kept event handler (used ars))
      × ((visit event handler ars).handled ≡ pending event (used ars))
unfolding used visit kept active is_used pending
used-visit event handler [] c = (refl, refl)
used-visit event handler (x ∷ xs) c = elim (Bool-cases (x.arep == no_arep)) [
  | inl free ↦ ground arith
  | inr u ↦
      let c' : IsCompact xs = ground (arith, c, u) in
      let (a, b) = used-visit event handler xs c' in (ground (arith, a, u), ground (arith, b, u))
]

-- Where nothing was deleted no gap appears.
visit-IsCompact :
    (event : AppEvent) (handler : ℕ → Bool) (ars : List Ar)
    → IsCompact ars
    → (visit event handler ars).modified ≡ false
    → IsCompact (visit event handler ars).ars
unfolding used visit active is_used
visit-IsCompact event handler [] c m = refl
visit-IsCompact event handler (x ∷ xs) c m = elim (Bool-cases (x.arep == no_arep)) [
  | inl free ↦ ground arith
  | inr u ↦
      let c' : IsCompact xs = ground (arith, c, u) in
      let ih = visit-IsCompact event handler xs c' in ground (arith, ih, u, m)
]

length-visit :
    (event : AppEvent) (handler : ℕ → Bool) (ars : List Ar)
    → length (visit event handler ars).ars ≡ length ars
unfolding visit
length-visit event handler [] = refl
length-visit event handler (x ∷ xs) = ground (arith, length-visit event handler xs)

short-IsCompact : (ars : List Ar) → length ars < 2 → IsCompact ars
unfolding used active
short-IsCompact [] n = refl
short-IsCompact (x ∷ []) n = ground arith
short-IsCompact (x ∷ y ∷ xs) n = absurd (omega arith)

take_next-none : (xs : List Ar) → take_next xs ≡ none → used xs ≡ []
unfolding take_next used
take_next-none [] e = refl
take_next-none (x ∷ xs) e = ground (arith, take_next-none xs, e)

take_next-some :
    (xs : List Ar) {r : Ar × List Ar}
    → take_next xs ≡ some r
    → (used xs ≡ r.0 ∷ used r.1) × (is_used r.0 ≡ true) × (length r.1 ≡ length xs)
unfolding take_next used is_used
take_next-some [] e = ground arith
take_next-some (x ∷ xs) {r} e = elim (Bool-cases (x.arep == no_arep)) [
  | inr u ↦
      let same : (x, record x { arep = no_arep } ∷ xs) ≡ r = ground (arith, e, u) in
      subst
        (λ q.
          (used (x ∷ xs) ≡ q.0 ∷ used q.1) × (is_used q.0 ≡ true) × (length q.1 ≡ suc (length xs)))
        same (ground (arith, u), ground (arith, u), refl)
  | inl free ↦ elim (Option-cases (take_next xs)) [
    | inl n ↦ absurd (ground (arith, e, free, n))
    | inr (q, e') ↦
        let same : (q.0, x ∷ q.1) ≡ r = ground (arith, e, free, e') in
        let (a, b, c) = take_next-some xs e' in
        subst
          (λ q.
            (used (x ∷ xs) ≡ q.0 ∷ used q.1)
            × (is_used q.0 ≡ true)
            × (length q.1 ≡ suc (length xs)))
          same (ground (arith, free, a), b, ap suc c)
  ]
]

-- The compaction keeps the used entries, in order, and puts them in front.
compact_lem :
    (n : ℕ) (ars : List Ar)
    → length ars ≤ n
    → (active (compact n ars) ≡ used ars) × (used (compact n ars) ≡ used ars)
unfolding compact active used
compact_lem zero [] le = (refl, refl)
compact_lem zero (x ∷ xs) le = absurd (omega arith)
compact_lem (suc n) [] le = (refl, refl)
compact_lem (suc n) (x ∷ xs) le = elim (Bool-cases (is_used x)) [
  | inl u ↦
      let (a, b) = compact_lem n xs (omega arith) in (ground (arith, u, a), ground (arith, u, b))
  | inr free ↦ elim (Option-cases (take_next xs)) [
    | inl none_left ↦
        let empty = take_next-none xs none_left in
        (ground (arith, free, none_left, empty), ground (arith, free, none_left, empty))
    | inr (q, e) ↦
        let (next, u, l) = take_next-some xs e in
        let (a, b) = compact_lem n q.1 (omega (arith, l)) in
        (ground (arith, free, e, next, u, a), ground (arith, free, e, next, u, b))
  ]
]

pub handle_event_ar-IsCompact :
    (event : AppEvent) (handler : ℕ → Bool) (ars : List Ar)
    → IsCompact ars
    → let after = handle_event_ar event handler ars in
      (active after.ars ≡ kept event handler (active ars))
      × IsCompact after.ars
      × (after.handled ≡ pending event (active ars))
unfolding handle_event_ar
handle_event_ar-IsCompact event handler ars c =
    let v = visit event handler ars in
    let (left, calls) = used-visit event handler ars c in
    let (packed, same) =
      compact_lem (length ars) v.ars (omega (arith, length-visit event handler ars)) in
    elim (Bool-cases v.modified) [
      | inr m ↦
          let gapless = visit-IsCompact event handler ars c m in
          (
            ground (arith, m, gapless, left, c),
            ground (arith, m, gapless),
            ground (arith, m, calls, c),
          )
      | inl m ↦ elim (Bool-cases (ltb 1 (length ars))) [
        | inl many ↦ (
          ground (arith, m, many, packed, left, c),
          ground (arith, m, many, packed, same),
          ground (arith, m, many, calls, c),
        )
        | inr one ↦
            let gapless =
              short-IsCompact v.ars
                (omega (arith, length-visit event handler ars, ltb→le 1 (length ars) one)) in
            (
              ground (arith, m, one, gapless, left, c),
              ground (arith, m, one, gapless),
              ground (arith, m, one, calls, c),
            )
      ]
    ]
