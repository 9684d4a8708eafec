-- ===== src/FileLogger/Archive/Clearing.antt =====
-- When the loop that clears space ends.
use pnet2csv.Common.{
  ℕ, ◌≡◌, refl, List, [], ◌∷◌, ◌++◌, true, none, some, All, Option, ◌<◌, ◌≤◌, ◌*◌, ◌%◌, ◌^◌, ◌/◌,
  arith,
}
use pnet2csv.FileLogger.Rotation.{Removal, delete_oldest}
use pnet2csv.FileLogger.Thread.{low_space}
use pnet2csv.FileLogger.Archive.{SpaceAnswer, clear_space, ArchiveAnswers, archive_day}

-- The removals of one call of `deleteOldest` for each answer.
unfoldable pub cleared : List SpaceAnswer → List Removal
cleared [] = []
cleared ((space, a) ∷ answers) = (delete_oldest a).1 ++ cleared answers

-- The numbers of free and of all blocks tell of less than 20 percent, or of at least 20.
abbrev pub IsLow : Option (ℕ × ℕ) → Type 0
IsLow none = ⊥
IsLow (some (free, blocks)) = 100 * free % 2 ^ 64 / blocks < 20

abbrev pub IsEnough : Option (ℕ × ℕ) → Type 0
IsEnough none = Unit
IsEnough (some (free, blocks)) = 20 ≤ 100 * free % 2 ^ 64 / blocks

low_space-IsLow : (space : Option (ℕ × ℕ)) → IsLow space → low_space space ≡ true
unfolding low_space
low_space-IsLow none l = absurd l
low_space-IsLow (some (free, blocks)) l = ground arith

abbrev pub AllLow : List SpaceAnswer → Type 0
AllLow = All (λ x. IsLow x.0)

clear_space-low : (low : List SpaceAnswer) → AllLow low → clear_space low ≡ none
unfolding clear_space
clear_space-low [] l = refl
clear_space-low ((space, a) ∷ low) (l, ls) =
    rw (low_space-IsLow space l) (rw (clear_space-low low ls) refl)

-- As long as `fstatvfs` tells of little space, `archive_thread_main` does not return, whether or not
-- `deleteOldest` removes anything.
archive_day-low :
    (a : ArchiveAnswers) (year month day : ℕ)
    → a.log_dir ≡ true
    → AllLow a.space
    → archive_day a year month day ≡ none
unfolding archive_day
archive_day-low a year month day dir l = rw (dir, archive_day) (rw (clear_space-low a.space l) refl)
