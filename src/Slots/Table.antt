-- ===== src/Slots/Table.antt =====
-- What plugging and pulling a submodule do to the table, and what `app_utils_subslot_get` then finds.
use pnet2csv.Common.{
  ℕ, zero, suc, ◌<◌, ◌≤◌, ◌≡◌, ◌≢◌, refl, sym, ap, ◌∙◌, ◌⊎◌, inl, inr, List, [], ◌∷◌, Bool, true,
  false, none, some, arith, leb, ok, error, get_elem?, set, All,
}
use pnet2csv.Pnet.{DataCfg, max_slots, max_subslots}
use pnet2csv.Slots.{
  Subslot, Slot, free_subslot, change, subslots_of, free_index, number_index, plugged_subslot,
  plug_submodule, pull_submodule, subslot_get,
}

-- A subslot that is not used is as `memset` left it.
abbrev pub IsTidy : List Subslot → Type 0
IsTidy = All (λ s. (s.used ≡ true) ⊎ (s ≡ free_subslot))

-- The loop for a free subslot finds one.
get_elem?-free_index :
    (ss : List Subslot) {i : ℕ} (new : Subslot)
    → free_index ss ≡ some i
    → get_elem? (set ss i new) i ≡ some new
unfolding free_index
get_elem?-free_index [] new e = ground arith
get_elem?-free_index (s ∷ ss) {i = zero} new e = refl
get_elem?-free_index (s ∷ ss) {i = suc i} new e = get_elem?-free_index ss new (ground arith)

set-free_index :
    (ss : List Subslot) {i : ℕ} (new : Subslot)
    → IsTidy ss
    → free_index ss ≡ some i
    → set (set ss i new) i free_subslot ≡ ss
unfolding free_index
set-free_index [] new tidy e = ground arith
set-free_index (s ∷ ss) {i = zero} new (inl used, tidy) e = ground arith
set-free_index (s ∷ ss) {i = zero} new (inr free, tidy) e = ap (λ x. x ∷ ss) (sym free)
set-free_index (s ∷ ss) {i = suc i} new (_, tidy) e =
    ap (◌∷◌ s) (set-free_index ss new tidy (ground arith))

-- A number that was not there is found where its subslot was put.
number_index-free_index :
    (ss : List Subslot) {i : ℕ} (new : Subslot)
    → free_index ss ≡ some i
    → number_index ss new.subslot_nbr ≡ none
    → number_index (set ss i new) new.subslot_nbr ≡ some i
unfolding free_index number_index
number_index-free_index [] new e absent = ground arith
number_index-free_index (s ∷ ss) {i = zero} new e absent = ground arith
number_index-free_index (s ∷ ss) {i = suc i} new e absent =
    ground (arith, number_index-free_index ss {i = i} new)

-- Every other number but 0 is found where it was.
number_index_other :
    (ss : List Subslot) {i : ℕ} (new : Subslot) (n : ℕ)
    → IsTidy ss
    → free_index ss ≡ some i
    → n ≢ 0
    → n ≢ new.subslot_nbr
    → number_index (set ss i new) n ≡ number_index ss n
unfolding free_index number_index
number_index_other [] new n tidy e z d = refl
number_index_other (s ∷ ss) {i = zero} new n (inl used, tidy) e z d = ground arith
number_index_other (s ∷ ss) {i = zero} new n (inr free, tidy) e z d =
    ground (arith, ap (λ x. x.subslot_nbr) free)
number_index_other (s ∷ ss) {i = suc i} new n (_, tidy) e z d =
    ground (arith, number_index_other ss {i = i} new n tidy)

subslots_of-change :
    (slots : List Slot) (n i : ℕ) (v : Subslot)
    → subslots_of (change slots n (λ s. record s { subslots = set s.subslots i v })) n
      ≡ set (subslots_of slots n) i v
unfolding subslots_of change
subslots_of-change [] n i v = refl
subslots_of-change (s ∷ slots) zero i v = refl
subslots_of-change (s ∷ slots) (suc n) i v = subslots_of-change slots n i v

change-change :
    (slots : List Slot) (n i : ℕ) (v w : Subslot)
    → set (set (subslots_of slots n) i v) i w ≡ subslots_of slots n
    → change
        (change slots n (λ s. record s { subslots = set s.subslots i v }))
        n
        (λ s. record s { subslots = set s.subslots i w })
      ≡ slots
unfolding subslots_of change
change-change [] n i v w e = refl
change-change (s ∷ slots) zero i v w e = ap (λ x. record s { subslots = x } ∷ slots) e
change-change (s ∷ slots) (suc n) i v w e = ap (◌∷◌ s) (change-change slots n i v w e)

-- A plug that succeeds.
record Plugged (slots : List Slot) (n m id : ℕ) (cfg : DataCfg) (cb : Bool) (slots' : List Slot)
    (i : ℕ) : Type 0 where
  in_range : leb max_slots n ≡ false
  free : free_index (subslots_of slots n) ≡ some i
  changed :
      slots'
      ≡ change slots n
          (λ s. record s { subslots = set s.subslots i (plugged_subslot n m id cfg cb) })
  content : subslots_of slots' n ≡ set (subslots_of slots n) i (plugged_subslot n m id cfg cb)

plug_submodule-Plugged :
    (slots : List Slot) (n m id : ℕ) (cfg : DataCfg) (cb : Bool) {slots' : List Slot} {i : ℕ}
    → plug_submodule slots n m id cfg cb ≡ (slots', some i)
    → Plugged slots n m id cfg cb slots' i
unfolding plug_submodule
plug_submodule-Plugged slots n m id cfg cb {slots'} {i} e = record {
  in_range = range;
  free = found;
  changed = table;
  content =
      ap (λ x. subslots_of x n) table
      ∙ subslots_of-change slots n i (plugged_subslot n m id cfg cb);
}
  where
    range : leb max_slots n ≡ false
    range = ground arith

    found : free_index (subslots_of slots n) ≡ some i
    found = ground arith

    table :
        slots'
        ≡ change slots n
            (λ s. record s { subslots = set s.subslots i (plugged_subslot n m id cfg cb) })
    table = ground arith

pub subslot_get-plug_submodule :
    (slots : List Slot) (n m id : ℕ) (cfg : DataCfg) (cb : Bool) {slots' : List Slot} {i : ℕ}
    → IsTidy (subslots_of slots n)
    → subslot_get slots n m ≡ none
    → plug_submodule slots n m id cfg cb ≡ (slots', some i)
    → (subslot_get slots' n m ≡ some i)
      × (get_elem? (subslots_of slots' n) i ≡ some (plugged_subslot n m id cfg cb))
      × ((k : ℕ) → k ≢ 0 → k ≢ m → subslot_get slots' n k ≡ subslot_get slots n k)
unfolding subslot_get
subslot_get-plug_submodule slots n m id cfg cb {slots'} {i} tidy absent e =
    let p = plug_submodule-Plugged slots n m id cfg cb e in
    let new : Subslot = plugged_subslot n m id cfg cb in
    (
      ground (
        arith,
        p.in_range,
        p.content,
        number_index-free_index (subslots_of slots n) {i = i} new p.free,
      ),
      ap (λ x. get_elem? x i) p.content ∙ get_elem?-free_index (subslots_of slots n) new p.free,
      λ k z d. ground (
        arith,
        p.in_range,
        p.content,
        number_index_other (subslots_of slots n) {i = i} new k tidy p.free z d,
      ),
    )

-- In the first slots, a pull right after the plug restores the table.
pub pull_submodule-plug_submodule :
    (slots : List Slot) (n m id : ℕ) (cfg : DataCfg) (cb : Bool) {slots' : List Slot} {i : ℕ}
    → IsTidy (subslots_of slots n)
    → subslot_get slots n m ≡ none
    → n < max_subslots
    → plug_submodule slots n m id cfg cb ≡ (slots', some i)
    → pull_submodule slots' n m ≡ (slots, ok)
unfolding pull_submodule
pull_submodule-plug_submodule slots n m id cfg cb {slots'} {i} tidy absent low e =
    let p = plug_submodule-Plugged slots n m id cfg cb e in
    let new : Subslot = plugged_subslot n m id cfg cb in
    let (got, _, _) = subslot_get-plug_submodule slots n m id cfg cb tidy absent e in
    let back =
      ap (λ x. change x n (λ s. record s { subslots = set s.subslots i free_subslot })) p.changed
      ∙ change-change slots n i new free_subslot
          (set-free_index (subslots_of slots n) new tidy p.free) in
    ground (arith, got, back)

-- In slot 3 and 4, a submodule that was plugged is not pulled again.
pub pull_submodule-plug_submodule_high :
    (slots : List Slot) (n m id : ℕ) (cfg : DataCfg) (cb : Bool) {slots' : List Slot} {i : ℕ}
    → IsTidy (subslots_of slots n)
    → subslot_get slots n m ≡ none
    → max_subslots ≤ n
    → plug_submodule slots n m id cfg cb ≡ (slots', some i)
    → (pull_submodule slots' n m ≡ (slots', error)) × (subslot_get slots' n m ≡ some i)
unfolding pull_submodule
pull_submodule-plug_submodule_high slots n m id cfg cb {slots'} {i} tidy absent high e =
    (ground arith, (subslot_get-plug_submodule slots n m id cfg cb tidy absent e).0)

-- Where a subslot is free, a plug uses the first one.
pub plug_submodule-some :
    (slots : List Slot) (n m id : ℕ) (cfg : DataCfg) (cb : Bool) {i : ℕ}
    → n < max_slots
    → free_index (subslots_of slots n) ≡ some i
    → plug_submodule slots n m id cfg cb ≡ (
      change slots n
          (λ s. record s { subslots = set s.subslots i (plugged_subslot n m id cfg cb) }),
      some i,
    )
unfolding plug_submodule
plug_submodule-some slots n m id cfg cb low free = ground arith

-- A pull of what is not there changes nothing.
pub pull_submodule-none :
    (slots : List Slot) (n m : ℕ)
    → subslot_get slots n m ≡ none
    → (pull_submodule slots n m).0 ≡ slots
unfolding pull_submodule
pull_submodule-none slots n m absent = ground arith
