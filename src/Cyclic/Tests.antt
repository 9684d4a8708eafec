-- ===== src/Cyclic/Tests.antt =====
-- The selection of samples at concrete inputs.
use pnet2csv.Common.{ℕ, ◌≡◌, refl, List, [], ◌∷◌, ◌++◌, arith, replicate}
use pnet2csv.FileLogger.Entry.{Dtl, no_time}
use pnet2csv.Cyclic.{Sample, initial, handle_cyclic_data, handle_sample, data_changed, run}
use pnet2csv.Cyclic.Samples.{latest, latest_new}
use pnet2csv.Cyclic.Relog.{last_entry, remembered, relogged_again}

abbrev tick : ℕ → Dtl
tick n = record no_time { year = 2023; nanosecond = n }

abbrev ones : List ℕ
ones = replicate 128 1

abbrev twos : List ℕ
twos = replicate 128 2

-- A change, and the same data once more.
abbrev samples : List Sample
samples = (tick 1, ones) ∷ (tick 2, ones) ∷ []

latest_new_example :
    latest initial.last_data
      ((run initial samples).1 ++ (handle_cyclic_data (run initial samples).0 (tick 3) twos).1)
    ≡ twos
unfolding run handle_cyclic_data handle_sample data_changed
latest_new_example =
    latest_new samples (tick 3) twos (refl, (refl, tt)) refl (omega arith, omega arith)

relogged_again_example : (tick 1, ones) ≡ last_entry (remembered initial) (run initial samples).1
unfolding run handle_cyclic_data handle_sample data_changed
relogged_again_example = relogged_again samples (tick 3) twos (tick 1, ones) (tick 3, twos) [] refl
