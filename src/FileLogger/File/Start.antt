-- ===== src/FileLogger/File/Start.antt =====
-- Starting and finishing a log file: which name is taken, what a started and a finished file
-- hold, and when both calls return.
use pnet2csv.Common.{
  ℕ, zero, suc, ◌+◌, ◌≤◌, ◌<◌, ◌≡◌, refl, sym, ap, ◌∙◌, inl, inr, List, [], ◌∷◌, ◌++◌, append_assoc,
  append-nil, none, some, arith, length, take, Bool, true, ok, >>=-eq-some, if◌then◌else◌,
  Bool-cases, Option-cases, ◌&&◌,
}
use pnet2csv.FileLogger.File.{
  WriteAnswer, SyncAnswer, CreateAnswer, created, exists, Output, write_while, log_header,
  header_written, sync_header, write_log_header, StartAnswers, create_log, start_log_file, Started,
  LogFile, FinishAnswers, finish_log_file, sync_log, file_buffer_size, file_min_write,
}
use pnet2csv.FileLogger.File.Writes.{stream, write_while_lem}
use pnet2csv.FileLogger.File.Header.{IsWhole, stream-header_written}

-- A name is found at the first copy number that does not exist yet.
pub create_log_lem :
    (create : ℕ → CreateAnswer) (rounds i skip fd : ℕ)
    → skip < rounds
    → ((j : ℕ) → i ≤ j → j < i + skip → create j ≡ exists)
    → create (i + skip) ≡ created fd
    → create_log create rounds i ≡ some (fd, i + skip)
unfolding create_log
create_log_lem create zero i skip fd lt below at = elim lt [ ]
create_log_lem create (suc rounds) i zero fd lt below at = ground arith
create_log_lem create (suc rounds) i (suc skip) fd lt below at = ground (
  arith,
  below i,
  create_log_lem create rounds (i + 1) skip fd (omega arith)
      (λ j a b. below j (omega arith) (omega arith)),
)

-- Where the bare name and the copies up to 9 exist already, no log can be started.
pub create_log-none :
    (create : ℕ → CreateAnswer) (rounds i : ℕ)
    → ((j : ℕ) → i ≤ j → j < i + rounds → create j ≡ exists)
    → create_log create rounds i ≡ none
unfolding create_log
create_log-none create zero i below = refl
create_log-none create (suc rounds) i below = ground (
  arith,
  below i,
  create_log-none create rounds (i + 1) (λ j a b. below j (omega arith) (omega arith)),
)

nil_of_length : (l : List ℕ) → length l < 1 → l ≡ []
nil_of_length [] h = refl
nil_of_length (x ∷ l) h = absurd (omega arith)

marked :
    (before room done : Output)
    → stream room ≡ stream before
    → stream done ≡ room.file ++ (room.pending ++ 255 ∷ [])
    → length done.pending < 1
    → done.file ≡ before.file ++ (before.pending ++ 255 ∷ [])
marked before room done e1 e2 l =
    sym (append-nil done.file)
    ∙ ap (◌++◌ done.file) (sym (nil_of_length done.pending l))
    ∙ e2
    ∙ sym (append_assoc room.file room.pending (255 ∷ []))
    ∙ ap (λ x. x ++ 255 ∷ []) e1
    ∙ append_assoc before.file before.pending (255 ∷ [])

-- A file that `finishLogFile` is done with holds what it held, the file buffer, and the end mark,
-- whether or not the synchronisation or the close failed.
pub finish_log_file-file :
    (a : FinishAnswers) (flush : Bool) (log : LogFile) (file : List ℕ) (clears : ℕ) {s : Started}
    → finish_log_file a flush log file clears ≡ some s
    → s.file ≡ file ++ (log.buffer ++ 255 ∷ [])
unfolding finish_log_file
finish_log_file-file a flush log file clears {s} e =
    let ((room, writes), e1, f1) =
      >>=-eq-some
        (write_while file_buffer_size (take file_min_write) a.writes
          (record { pending = log.buffer; file = file; clears = clears }))
        _ e in
    let ((done, rest), e2, f2) =
      >>=-eq-some
        (write_while 1 (λ p. p) writes (record room { pending = room.pending ++ 255 ∷ [] })) _ f1 in
    let ((code, cleared), e3, f3) =
      >>=-eq-some (if flush then sync_log a.syncs done.clears else some (ok, done.clears)) _ f2 in
    let written : s.file ≡ done.file = ground (arith, f3) in
    let before : Output = record { pending = log.buffer; file = file; clears = clears } in
    let (kept, _) = write_while_lem file_buffer_size (take file_min_write) a.writes before e1 in
    let with_mark : Output = record room { pending = room.pending ++ 255 ∷ [] } in
    let (kept', short) = write_while_lem 1 (λ p. p) writes with_mark e2 in
    written ∙ marked before room done kept kept' short

-- `writeLogHeader` on the file just opened.
write_log_header-stream :
    (a : WriteAnswer) (syncs : List SyncAnswer) (log : LogFile) (clears : ℕ) {s : Started}
    → write_log_header a syncs log clears ≡ some s
    → IsWhole a
    → (s.file ++ s.log.buffer ≡ log_header log.bigendian) × (s.log.fd ≡ log.fd)
unfolding write_log_header
write_log_header-stream a syncs log clears {s} e w =
    let ((code, cleared), e1, f1) =
      >>=-eq-some (sync_header syncs (header_written a log.bigendian clears).clears) _ e in
    ground (arith, f1, stream-header_written a log.bigendian clears w)

-- A log that was started holds the header, in the file and its buffer together.
pub start_log_file-header :
    (a : StartAnswers) (log : LogFile) (file : List ℕ) (clears : ℕ) {s : Started}
    → start_log_file a log file clears ≡ some s
    → s.code ≡ ok
    → IsWhole a.header_write
    → (s.file ++ s.log.buffer ≡ log_header true) × ((fd : ℕ) × (s.log.fd ≡ some fd))
unfolding start_log_file
start_log_file-header a log file clears {s} e c w =
    elim (Bool-cases (a.log_dir && (a.day_dir && a.opened))) [
      | inl reached ↦ elim (Option-cases (create_log a.create 9 1)) [
        | inl none_free ↦ ground (arith)
        | inr ((fd, copy), free) ↦
            let (all, same) =
              write_log_header-stream a.header_write a.header_syncs
                (record log { buffer = []; fd = some fd; bigendian = true }) clears
                (rw (reached, free, start_log_file) at e) w in
            (all, (fd, same))
      ]
      | inr refused ↦ ground (arith)
    ]
