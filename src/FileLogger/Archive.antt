-- ===== src/FileLogger/Archive.antt =====
-- `getLogDir`, `openLogDir` and `archive_thread_main` of src/ports/linux/app_filelogger.c, with what the
-- file system answers as a parameter.
pub mod Clearing
mod Tests
use pnet2csv.Common.{
  ℕ, List, [], ◌∷◌, ◌++◌, Bool, true, false, not, Option, none, some, if◌then◌else◌, ◌>>=◌,
}
use pnet2csv.FileLogger.Names.{Text}
use pnet2csv.FileLogger.Rotation.{
  Removal, DeleteAnswers, delete_oldest, DirEntry, archived, CompressAnswers, compress_directory,
}
use pnet2csv.FileLogger.Thread.{low_space}

-- The static variable `logdir_fd`, and the descriptors that are open.
pub record Descriptors : Type 0 where
  pub logdir_fd : Option ℕ
  pub opened : List ℕ

-- `getLogDir`: what `open` answers, if it is called.
unfoldable pub get_log_dir : Option ℕ → Descriptors → Descriptors × Option ℕ
get_log_dir answer d = elim d.logdir_fd [
  | some fd ↦ (d, some fd)
  | none ↦ elim answer [
    | none ↦ (d, none)
    | some fd ↦ (record { logdir_fd = some fd; opened = fd ∷ d.opened }, some fd)
  ]
]

-- What `open`, `openat` and `fdopendir` answer.
pub record OpenAnswers : Type 0 where
  pub log_dir : Option ℕ
  pub dot : Option ℕ
  pub stream : Bool

-- `openLogDir`: the descriptor of the stream. If `fdopendir` fails, the descriptor stays open.
unfoldable pub open_log_dir : OpenAnswers → Descriptors → Descriptors × Option ℕ
open_log_dir a d =
    let (d', log_dir) = get_log_dir a.log_dir d in
    elim log_dir [
      | none ↦ (d', none)
      | some fd ↦ elim a.dot [
        | none ↦ (d', none)
        | some dot ↦ (record d' { opened = dot ∷ d'.opened }, if a.stream then some dot else none)
      ]
    ]

-- A round of the loop that clears space: what `fstatvfs` answers, and the calls of `deleteOldest`.
abbrev pub SpaceAnswer : Type 0
SpaceAnswer = Option (ℕ × ℕ) × DeleteAnswers

-- The loop, with the removals that were tried; none while it goes on.
unfoldable pub clear_space : List SpaceAnswer → Option (List Removal)
clear_space [] = none
clear_space ((space, a) ∷ answers) =
    let more = clear_space answers in
    if low_space space then (more >>= λ tried. some ((delete_oldest a).1 ++ tried)) else some []

-- `compressDirectory` for each of the directories.
unfoldable pub compress_all : (Text → CompressAnswers) → List Text → List Removal
compress_all answers [] = []
compress_all answers (d ∷ ds) = (compress_directory (answers d) d).1 ++ compress_all answers ds

-- What the calls of `archive_thread_main` answer.
pub record ArchiveAnswers : Type 0 where
  -- `getLogDir`
  pub log_dir : Bool
  pub space : List SpaceAnswer
  -- `openLogDir`
  pub stream : Bool
  pub entries : List DirEntry
  pub compress : Text → CompressAnswers

-- `archive_thread_main` for a day; none while it still clears space.
unfoldable pub archive_day : ArchiveAnswers → ℕ → ℕ → ℕ → Option (List Removal)
archive_day a year month day =
    if not a.log_dir
    then some []
    else (clear_space a.space >>= λ tried. some (
        if a.stream
        then tried ++ compress_all a.compress (archived year month day a.entries)
        else tried))
