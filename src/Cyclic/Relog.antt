-- ===== src/Cyclic/Relog.antt =====
-- Which entry is added in front of a change that follows samples without one.
use pnet2csv.Common.{ℕ, ◌≡◌, refl, sym, ap, ◌∙◌, List, [], ◌∷◌, ◌++◌, arith}
use pnet2csv.FileLogger.Entry.{Dtl}
use pnet2csv.Cyclic.{Cyclic, Sample, initial, handle_cyclic_data, run}

-- The last entry of a log, or this one.
unfoldable pub last_entry : Sample → List Sample → Sample
last_entry s [] = s
last_entry s (x ∷ xs) = last_entry x xs

last_entry-append :
    (s : Sample) (xs ys : List Sample) → last_entry s (xs ++ ys) ≡ last_entry (last_entry s xs) ys
unfolding last_entry
last_entry-append s [] ys = refl
last_entry-append s (x ∷ xs) ys = last_entry-append x xs ys

-- The sample that the function remembers.
abbrev pub remembered : Cyclic → Sample
remembered c = (c.last_ts, c.last_data)

last_entry-handle_cyclic_data :
    (c : Cyclic) (t : Dtl) (d : List ℕ)
    → last_entry (remembered c) (handle_cyclic_data c t d).1
      ≡ remembered (handle_cyclic_data c t d).0
unfolding handle_cyclic_data last_entry
last_entry-handle_cyclic_data c t d = ground arith

last_entry-run :
    (c : Cyclic) (samples : List Sample)
    → last_entry (remembered c) (run c samples).1 ≡ remembered (run c samples).0
unfolding run last_entry
last_entry-run c [] = refl
last_entry-run c ((t, d) ∷ samples) =
    last_entry-append (remembered c) (handle_cyclic_data c t d).1
      (run (handle_cyclic_data c t d).0 samples).1
    ∙ ap (λ s. last_entry s (run (handle_cyclic_data c t d).0 samples).1)
        (last_entry-handle_cyclic_data c t d)
    ∙ last_entry-run (handle_cyclic_data c t d).0 samples

pair-first :
    (c : Cyclic) (t : Dtl) (d : List ℕ) (a b : Sample) (rest : List Sample)
    → (handle_cyclic_data c t d).1 ≡ a ∷ b ∷ rest
    → a ≡ remembered c
unfolding handle_cyclic_data
pair-first c t d a b rest e = ground arith

-- After any history, when a sample makes the function add two entries, the first of them is once
-- more the last entry that was added, with its timestamp and data, or, where none was added before,
-- the initial one.
pub relogged_again :
    (samples : List Sample) (t : Dtl) (d : List ℕ) (first second : Sample) (rest : List Sample)
    → let (c, past) = run initial samples in
      (handle_cyclic_data c t d).1 ≡ first ∷ second ∷ rest
      → first ≡ last_entry (remembered initial) past
relogged_again samples t d first second rest e =
    pair-first (run initial samples).0 t d first second rest e
    ∙ sym (last_entry-run initial samples)
