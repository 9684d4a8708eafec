-- ===== src/Cyclic/Samples.antt =====
-- What the log tells of the process data, and which entries are written twice.
use pnet2csv.Common.{
  ℕ, ◌≡◌, ◌≢◌, refl, sym, ap, subst, ◌∙◌, ◌⊎◌, inl, inr, List, [], ◌∷◌, ◌++◌, false, arith, length,
  All,
}
use pnet2csv.FileLogger.Entry.{Dtl, var64_size}
use pnet2csv.Cyclic.{Cyclic, Sample, initial, data_changed, handle_cyclic_data, run}

-- The comparison finds every change.
data_changed-false : (xs ys : List ℕ) → length xs ≡ length ys → data_changed xs ys ≡ false → xs ≡ ys
unfolding data_changed
data_changed-false [] [] n e = refl
data_changed-false [] (y ∷ ys) n e = absurd (omega arith)
data_changed-false (x ∷ xs) [] n e = absurd (omega arith)
data_changed-false (x ∷ xs) (y ∷ ys) n e = ground (arith, data_changed-false xs ys)

data_changed_self : (xs : List ℕ) → data_changed xs xs ≡ false
unfolding data_changed
data_changed_self [] = refl
data_changed_self (x ∷ xs) = ground (arith, data_changed_self xs)

-- The data of the last entry, or what the log starts from.
unfoldable pub latest : List ℕ → List Sample → List ℕ
latest none_yet [] = none_yet
latest none_yet ((t, d) ∷ calls) = latest d calls

latest-append : (d : List ℕ) (xs ys : List Sample) → latest d (xs ++ ys) ≡ latest (latest d xs) ys
unfolding latest
latest-append d [] ys = refl
latest-append d ((t, e) ∷ xs) ys = latest-append e xs ys

-- A sample that the function looks at: it has a year and another nanosecond than the last one that
-- was logged.
abbrev pub IsNew : Cyclic → Sample → Type 0
IsNew c s = (s.0.year ≢ 0) × (s.0.nanosecond ≢ c.last_ts.nanosecond)

-- Every call keeps the last entry's data and `last_data` together.
latest-handle_cyclic_data :
    (c : Cyclic) (t : Dtl) (d : List ℕ)
    → latest c.last_data (handle_cyclic_data c t d).1 ≡ (handle_cyclic_data c t d).0.last_data
unfolding handle_cyclic_data latest
latest-handle_cyclic_data c t d = ground arith

pub latest-run :
    (c : Cyclic) (samples : List Sample)
    → latest c.last_data (run c samples).1 ≡ (run c samples).0.last_data
unfolding run latest
latest-run c [] = refl
latest-run c ((t, d) ∷ samples) =
    latest-append c.last_data (handle_cyclic_data c t d).1
      (run (handle_cyclic_data c t d).0 samples).1
    ∙ ap (λ x. latest x (run (handle_cyclic_data c t d).0 samples).1)
        (latest-handle_cyclic_data c t d)
    ∙ latest-run (handle_cyclic_data c t d).0 samples

-- The tick counter never holds the function back.
run-tick_counter :
    (c : Cyclic) (samples : List Sample) → c.tick_counter ≡ 0 → (run c samples).0.tick_counter ≡ 0
unfolding run handle_cyclic_data
run-tick_counter c [] e = e
run-tick_counter c ((t, d) ∷ samples) e =
    run-tick_counter (handle_cyclic_data c t d).0 samples (ground arith)

handle_cyclic_data-new :
    (c : Cyclic) (t : Dtl) (d : List ℕ)
    → c.tick_counter ≡ 0
    → length d ≡ length c.last_data
    → IsNew c (t, d)
    → (handle_cyclic_data c t d).0.last_data ≡ d
unfolding handle_cyclic_data
handle_cyclic_data-new c t d k n new = ground (arith, data_changed-false d c.last_data n)

run-length :
    (c : Cyclic) (samples : List Sample)
    → length c.last_data ≡ var64_size
    → All (λ s. length s.1 ≡ var64_size) samples
    → length (run c samples).0.last_data ≡ var64_size
unfolding run handle_cyclic_data
run-length c [] n h = n
run-length c ((t, d) ∷ samples) n (h, hs) =
    run-length (handle_cyclic_data c t d).0 samples (ground arith) hs

-- After any history of samples of 128 bytes, a sample of 128 bytes with a year, whose nanosecond is
-- not that of the last sample that was logged, leaves the log with that sample's data as its latest,
-- whether or not it was logged.
pub latest_new :
    (samples : List Sample) (t : Dtl) (d : List ℕ)
    → All (λ s. length s.1 ≡ var64_size) samples
    → length d ≡ var64_size
    → let (c, past) = run initial samples in
      IsNew c (t, d) → latest initial.last_data (past ++ (handle_cyclic_data c t d).1) ≡ d
latest_new samples t d hs n new =
    latest-append initial.last_data past (handle_cyclic_data c t d).1
    ∙ ap (λ x. latest x (handle_cyclic_data c t d).1) (latest-run initial samples)
    ∙ latest-handle_cyclic_data c t d
    ∙ handle_cyclic_data-new c t d (run-tick_counter initial samples refl)
        (n ∙ sym (run-length initial samples refl hs)) new
  where
    c : Cyclic
    c = (run initial samples).0

    past : List Sample
    past = (run initial samples).1

-- A sample with the data of the last entry, one without a year, and one with the nanosecond of the
-- last entry add no entry.
pub handle_cyclic_data-nil :
    (c : Cyclic) (t : Dtl) (d : List ℕ)
    → (t.year ≡ 0) ⊎ (t.nanosecond ≡ c.last_ts.nanosecond) ⊎ (d ≡ c.last_data)
    → (handle_cyclic_data c t d).1 ≡ []
unfolding handle_cyclic_data
handle_cyclic_data-nil c t d (inl e) = ground arith
handle_cyclic_data-nil c t d (inr (inl e)) = ground arith
handle_cyclic_data-nil c t d (inr (inr e)) =
    ground (
      arith,
      subst (λ x. data_changed x c.last_data ≡ false) (sym e) (data_changed_self c.last_data),
    )
