-- ===== src/FileLogger/Reader/Logs.antt =====
-- What the log files tell a reader.
use pnet2csv.Common.{
  ℕ, ◌≡◌, refl, sym, ap, ◌∙◌, List, [], ◌∷◌, ◌++◌, map, append_assoc, true, Option, none, some, All,
}
use pnet2csv.Host.{Host}
use pnet2csv.FileLogger.Entry.{Dtl}
use pnet2csv.FileLogger.File.{log_header}
use pnet2csv.FileLogger.Buffer.Queue.{contents}
use pnet2csv.FileLogger.Thread.{Thread, System, Event, run, initial, on_disk, remaining}
use pnet2csv.FileLogger.Thread.Removed.{map-remaining}
use pnet2csv.Common.{Bool, ◌≤◌}
use pnet2csv.FileLogger.Thread.Invariant.{run-initial-IsSound}
use pnet2csv.FileLogger.Thread.Stream.{body, whole, concat, IsOpen, encode_all, IsRegular}
use pnet2csv.FileLogger.Thread.Dated.{IsStamped, run-IsDated, initial-IsDated}
use pnet2csv.FileLogger.Reader.{read_log}
use pnet2csv.FileLogger.Reader.Whole.{read_log-whole}

abbrev pub Sample : Type 0
Sample = Dtl × List ℕ

-- The samples of several files, one after the other.
unfoldable pub joined : List (List Sample) → List Sample
joined [] = []
joined (log ∷ logs) = log ++ joined logs

-- Samples whose encoding begins with `front`.
record IsSplit (past : List Sample) (front back : List (List ℕ)) : Type 0 where
  before : List Sample
  after : List Sample
  parts : before ++ after ≡ past
  front_encoded : front ≡ encode_all true before
  back_encoded : back ≡ encode_all true after
  before_stamped : All IsStamped before
  after_stamped : All IsStamped after

split :
    (past : List Sample) (front back : List (List ℕ))
    → All IsStamped past
    → front ++ back ≡ encode_all true past
    → IsSplit past front back
split past [] back h e = record {
  before = [];
  after = past;
  parts = refl;
  front_encoded = refl;
  back_encoded = e;
  before_stamped = tt;
  after_stamped = h;
}
split [] (f ∷ front) back h e = absurd (cc e)
split (c ∷ past) (f ∷ front) back (stamp, h) e =
    let s = split past front back h (cc e) in
    record {
      before = c ∷ s.before;
      after = s.after;
      parts = ap (◌∷◌ c) s.parts;
      front_encoded = cc (e, s.front_encoded);
      back_encoded = s.back_encoded;
      before_stamped = (stamp, s.before_stamped);
      after_stamped = s.after_stamped;
    }

-- The finished files of the groups are read as samples.
record IsRead (past : List Sample) (groups : List (List (List ℕ))) (back : List (List ℕ))
    : Type 0 where
  logs : List (List Sample)
  later : List Sample
  read_files : map read_log (map whole groups) ≡ map some logs
  all_read : joined logs ++ later ≡ past
  later_encoded : back ≡ encode_all true later
  later_stamped : All IsStamped later

groups-IsRead :
    (past : List Sample) (groups : List (List (List ℕ))) (back : List (List ℕ))
    → All IsStamped past
    → concat groups ++ back ≡ encode_all true past
    → IsRead past groups back
unfolding concat joined
groups-IsRead past [] back h e = record {
  logs = [];
  later = past;
  read_files = refl;
  all_read = refl;
  later_encoded = e;
  later_stamped = h;
}
groups-IsRead past (g ∷ groups) back h e =
    let s =
      split past g (concat groups ++ back) h (sym (append_assoc g (concat groups) back) ∙ e) in
    let r = groups-IsRead s.after groups back s.after_stamped s.back_encoded in
    record {
      logs = s.before ∷ r.logs;
      later = r.later;
      read_files = cc (
        ap (λ l. read_log (whole l)) s.front_encoded,
        read_log-whole s.before s.before_stamped,
        r.read_files,
      );
      all_read =
          append_assoc s.before (joined r.logs) r.later ∙ ap (◌++◌ s.before) r.all_read ∙ s.parts;
      later_encoded = r.later_encoded;
      later_stamped = r.later_stamped;
    }

-- The current file and its buffer, once the end mark is behind them, are read as these samples; without
-- a file there are none.
abbrev pub IsReadable : Option ℕ → List ℕ → List Sample → Type 0
IsReadable none bytes samples = samples ≡ []
IsReadable (some fd) bytes samples = read_log (bytes ++ 255 ∷ []) ≡ some samples

none_encoded : (cs : List Sample) → [] ≡ encode_all true cs → cs ≡ []
none_encoded [] e = refl
none_encoded (c ∷ cs) e = absurd (cc e)

open-IsReadable :
    (fd : Option ℕ) (bytes : List ℕ) (current : List (List ℕ)) (cs : List Sample)
    → IsOpen fd bytes current
    → current ≡ encode_all true cs
    → All IsStamped cs
    → IsReadable fd bytes cs
unfolding whole
open-IsReadable none bytes current cs e1 e2 h = none_encoded cs (sym e1 ∙ e2)
open-IsReadable (some fd) bytes current cs e1 e2 h =
    ap (λ b. read_log (b ++ 255 ∷ [])) e1
    ∙ ap (λ l. read_log ((log_header true ++ body l) ++ 255 ∷ [])) e2
    ∙ ap read_log (append_assoc (log_header true) (body (encode_all true cs)) (255 ∷ []))
    ∙ read_log-whole cs h

-- Where the files hold all the entries of these samples, they are read as these samples.
pub files-IsRead :
    (past : List Sample) (groups : List (List (List ℕ))) (current : List (List ℕ))
    (closed : List (List ℕ)) (fd : Option ℕ) (bytes : List ℕ)
    → All IsStamped past
    → closed ≡ map whole groups
    → IsOpen fd bytes current
    → concat groups ++ current ≡ encode_all true past
    → (logs : List (List Sample)) × (latest : List Sample) × (map read_log closed ≡ map some logs)
      × IsReadable fd bytes latest
      × (joined logs ++ latest ≡ past)
files-IsRead past groups current closed fd bytes h c o e =
    let r = groups-IsRead past groups current h e in
    (
      r.logs,
      r.later,
      ap (map read_log) c ∙ r.read_files,
      open-IsReadable fd bytes current r.later o r.later_encoded r.later_stamped,
      r.all_read,
    )

-- If all files are read as these samples, those that are left are read as theirs.
pub on_disk-read :
    (removes : ℕ → ℕ → Bool) (t : Thread) (logs : List (List Sample))
    → map read_log t.closed ≡ map some logs
    → map read_log (on_disk removes t) ≡ map some (remaining removes t.clears 0 logs)
unfolding on_disk
on_disk-read removes t logs e =
    map-remaining read_log removes t.clears 0 t.closed
    ∙ ap (remaining removes t.clears 0) e
    ∙ sym (map-remaining some removes t.clears 0 logs)

-- In every history of the calls of addLogEntry and the steps of the logging thread from the start of
-- the program, with at most one such thread, values of the C types, all 128 bytes, and headers that
-- are written whole or not at all: there are a list of samples for every file that was finished, one
-- for what was written to the current file with its buffer, and one for the entry buffer, which
-- holds its entries; one after the other, they are exactly the samples that addLogEntry accepted.
-- Whichever files the calls of deleteOldest removed, a reader of the finished files that are left
-- gets exactly the lists of these; and one of what was written to the current file with its buffer
-- and the end mark gets the list of that.
pub read_log-run :
    (h : Host) (es : List Event) (removes : ℕ → ℕ → Bool) {u : System}
    → All IsRegular es
    → run h initial es ≡ some u
    → u.logger.threads ≤ 1
    → (logs : List (List Sample)) × (current : List Sample) × (waiting : List Sample) × (map
          read_log
          (on_disk removes u.thread)
        ≡ map some (remaining removes u.thread.clears 0 logs))
      × IsReadable u.thread.log.fd (u.thread.file ++ u.thread.log.buffer) current
      × (contents u.logger.entries ≡ encode_all true waiting)
      × (joined logs ++ (current ++ waiting) ≡ u.accepted)
read_log-run h es removes {u} w e one_thread =
    let v = run-initial-IsSound h es w e in
    let d = run-IsDated h initial es initial-IsDated w e in
    let r =
      groups-IsRead u.accepted v.groups (v.current ++ contents u.logger.entries) d.stamped
        v.complete in
    let s = split r.later v.current (contents u.logger.entries) r.later_stamped r.later_encoded in
    (
      r.logs,
      s.before,
      s.after,
      on_disk-read removes u.thread r.logs (ap (map read_log) v.closed_files ∙ r.read_files),
      open-IsReadable u.thread.log.fd _ v.current s.before v.open_file s.front_encoded
          s.before_stamped,
      s.back_encoded,
      ap (λ l. joined r.logs ++ l) s.parts ∙ r.all_read,
    )
