-- ===== src/FileLogger/File/Opening.antt =====
-- When `startLogFile` succeeds, and when it gives up at once.
use pnet2csv.Common.{
  ℕ, ◌+◌, ◌≡◌, ◌≢◌, refl, ◌⊎◌, inl, inr, List, [], ◌∷◌, true, false, ◌&&◌, none, some, Bool-cases,
  Option-cases, ok, error,
}
use pnet2csv.FileLogger.File.{
  SyncAnswer, synced, bad_fd, StartAnswers, Started, LogFile, sync_header, write_log_header,
  header_written, create_log, start_log_file,
}

-- The header's synchronisation succeeds in the end.
abbrev pub Reaches : List SyncAnswer → Type 0
Reaches [] = ⊥
Reaches (synced ∷ answers) = Unit {0}
Reaches (bad_fd ∷ answers) = ⊥
Reaches (SyncAnswer.no_space ∷ answers) = Reaches answers
Reaches (SyncAnswer.failed ∷ answers) = Reaches answers

-- This start finds its directories and a free name.
abbrev pub Opens : StartAnswers → Type 0
Opens a =
    ((a.log_dir && (a.day_dir && a.opened)) ≡ true)
    × (create_log a.create 9 1 ≢ none)
    × Reaches a.header_syncs

-- This one does not.
abbrev pub Refuses : StartAnswers → Type 0
Refuses a = ((a.log_dir && (a.day_dir && a.opened)) ≡ false) ⊎ (create_log a.create 9 1 ≡ none)

-- A start succeeds in the end.
abbrev pub Starts : List StartAnswers → Type 0
Starts [] = ⊥
Starts (a ∷ answers) = Opens a ⊎ (Refuses a × Starts answers)

sync_header_total :
    (answers : List SyncAnswer) (clears : ℕ)
    → Reaches answers
    → (n : ℕ) × (sync_header answers clears ≡ some (ok, n))
unfolding sync_header
sync_header_total [] clears h = absurd h
sync_header_total (synced ∷ answers) clears h = (clears, refl)
sync_header_total (bad_fd ∷ answers) clears h = absurd h
sync_header_total (SyncAnswer.no_space ∷ answers) clears h =
    sync_header_total answers (clears + 1) h
sync_header_total (SyncAnswer.failed ∷ answers) clears h = sync_header_total answers clears h

pub start_log_file-ok :
    (a : StartAnswers) (log : LogFile) (file : List ℕ) (clears : ℕ)
    → Opens a
    → (s : Started) × (start_log_file a log file clears ≡ some s) × (s.code ≡ ok)
unfolding start_log_file write_log_header
start_log_file-ok a log file clears (reached, free, syncs) =
    elim (Option-cases (create_log a.create 9 1)) [
      | inl none_free ↦ absurd (free none_free)
      | inr ((fd, copy), found) ↦
          let (n, e) =
            sync_header_total a.header_syncs (header_written a.header_write true clears).clears
              syncs in
          (
            record {
              log = record {
                fd = some fd;
                buffer = (header_written a.header_write true clears).pending;
                bigendian = true;
              };
              file = (header_written a.header_write true clears).file;
              clears = n;
              code = ok;
            },
            rw (reached, found, start_log_file) (rw (e) refl),
            refl,
          )
    ]

pub start_log_file-refused :
    (a : StartAnswers) (log : LogFile) (file : List ℕ) (clears : ℕ)
    → Refuses a
    → (s : Started) × (start_log_file a log file clears ≡ some s) × (s.code ≡ error)
unfolding start_log_file
start_log_file-refused a log file clears (inl unreached) = (
  record { log = record log { buffer = [] }; file = file; clears = clears; code = error },
  rw unreached refl,
  refl,
)
start_log_file-refused a log file clears (inr none_free) = (
  record { log = record log { buffer = [] }; file = file; clears = clears; code = error },
  elim (Bool-cases (a.log_dir && (a.day_dir && a.opened))) [
    | inl reached ↦ rw (reached, none_free) refl
    | inr unreached ↦ rw unreached refl
  ],
  refl,
)
