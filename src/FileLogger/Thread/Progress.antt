-- ===== src/FileLogger/Thread/Progress.antt =====
-- The logging thread gets on: with an operating system that does not fail for ever, a change of files,
-- a pass and the write of the file buffer return.
use pnet2csv.Common.{
  ℕ, ◌+◌, ◌%◌, ◌≤◌, ◌<◌, ◌≡◌, ◌≢◌, refl, ap, ◌∙◌, ◌⊎◌, inl, inr, List, [], ◌∷◌, ◌++◌, Bool, true,
  false, Option, none, some, arith, length, length-append, load_bytes, length-load_bytes, leb,
  leb→le, Bool-cases, Option-cases, if◌then◌else◌, ReturnCode, ok, error,
}
use pnet2csv.Host.{Host}
use pnet2csv.FileLogger.Entry.{Dtl, entry_size, entry_buffer_size, same_log, load_timestamp}
use pnet2csv.FileLogger.Buffer.{EntryBuffer}
use pnet2csv.FileLogger.Buffer.Queue.{IsValid}
use pnet2csv.FileLogger.File.{
  WriteAnswer, log_header, StartAnswers, FinishAnswers, Started, LogFile, Output, write_buffer,
  file_buffer_size, file_min_write,
}
use pnet2csv.FileLogger.File.Writes.{
  progress, write_while_total, write_while_lem, write_while-shorter,
}
use pnet2csv.FileLogger.File.Opening.{Starts, start_log_file-ok, start_log_file-refused}
use pnet2csv.FileLogger.File.Finish.{Settles, finish_log_file_total}
use pnet2csv.FileLogger.Thread.{
  Thread, RotateAnswers, start_until, finish_current, rotate, copy_entry, drain_entry, flush_buffer,
  low_space,
}
use pnet2csv.FileLogger.Thread.Rotate.{start_until-header}
use pnet2csv.FileLogger.Thread.Conserve.{align_start_lem}
use pnet2csv.FileLogger.Thread.Stream.{HeadersWhole}

when_started :
    (code : ReturnCode) (now again : Option Started)
    → code ≡ ok
    → elim code [ ok ↦ now | error ↦ again ] ≡ now
when_started ok now again e = refl
when_started error now again e = absurd (cc e)

when_refused :
    (code : ReturnCode) (now again : Option Started)
    → code ≡ error
    → elim code [ ok ↦ now | error ↦ again ] ≡ again
when_refused ok now again e = absurd (cc e)
when_refused error now again e = refl

start_until_total :
    (answers : List StartAnswers) (log : LogFile) (file : List ℕ) (clears : ℕ)
    → Starts answers
    → (s : Started) × (start_until answers log file clears ≡ some s)
unfolding start_until
start_until_total [] log file clears h = absurd h
start_until_total (a ∷ answers) log file clears (inl opens) =
    let (s, e, c) = start_log_file-ok a log file clears opens in
    (s, rw e (when_started s.code (some s) (start_until answers s.log s.file s.clears) c))
start_until_total (a ∷ answers) log file clears (inr (refuses, later)) =
    let (r, e, c) = start_log_file-refused a log file clears refuses in
    let (s, e') = start_until_total answers r.log r.file r.clears later in
    (s, rw e (when_refused r.code (some r) (start_until answers r.log r.file r.clears) c ∙ e'))

-- The answers let `finishLogFile` return.
pub record Finishes (a : FinishAnswers) (t : Thread) : Type 0 where
  pub writes_on : length t.log.buffer + 1 ≤ progress a.writes
  pub settles : Settles a.syncs

with_file :
    (o : Option ℕ) {fd : ℕ} (x y : Option Thread)
    → o ≡ some fd
    → elim o [ none ↦ x | some k ↦ y ] ≡ y
with_file none x y e = absurd (cc e)
with_file (some k) x y e = refl

finish_current_total :
    (a : FinishAnswers) (t : Thread)
    → length t.log.buffer < file_buffer_size
    → Finishes a t
    → (u : Thread) × (finish_current a t ≡ some u)
unfolding finish_current
finish_current_total a t room f = elim (Option-cases t.log.fd) [
  | inl shut ↦ (t, ground (arith, shut))
  | inr (fd, opened) ↦
      let (s, e, _) =
        finish_log_file_total a true t.log t.file t.clears room f.writes_on f.settles in
      (
        record t {
          log = s.log;
          file = s.file;
          closed = t.closed ++ s.file ∷ [];
          clears = s.clears;
        },
        with_file t.log.fd (some t) _ opened ∙ rw e refl,
      )
]

-- The answers let a change of files return.
pub record Rotates (a : RotateAnswers) (t : Thread) : Type 0 where
  pub finishes : Finishes a.finish t
  pub starts : Starts a.starts

-- The new file is open, and its buffer holds no more than the header.
rotate_total :
    (a : RotateAnswers) (t : Thread) (ts : Dtl)
    → length t.log.buffer < file_buffer_size
    → HeadersWhole a.starts
    → Rotates a t
    → (u : Thread) × (rotate a t ts ≡ some u)
      × ((fd : ℕ) × (u.log.fd ≡ some fd))
      × (length u.log.buffer ≤ 8)
unfolding rotate log_header
rotate_total a t ts room whole r =
    let (t', e1) = finish_current_total a.finish t room r.finishes in
    let clears : ℕ = if low_space a.space then t'.clears + 1 else t'.clears in
    let (s, e2) = start_until_total a.starts t'.log t'.file clears r.starts in
    let (header, opened) = start_until-header a.starts t'.log t'.file clears whole e2 in
    (
      record t' { log = s.log; log_start = ts; file = s.file; clears = s.clears },
      rw e1 (rw e2 refl),
      opened,
      omega (arith, ap length header, length-append s.file s.log.buffer),
    )

-- The write of the file buffer returns, and leaves room for entries.
pub flush_buffer_total :
    (answers : List WriteAnswer) (t : Thread)
    → length t.log.buffer ≤ progress answers
    → (u : Thread) × (flush_buffer answers t ≡ some u)
      × (u.log.fd ≡ t.log.fd)
      × (u.log_start ≡ t.log_start)
      × ((t.log.fd ≡ none) ⊎ (length u.log.buffer < file_min_write))
      × (length u.log.buffer ≤ length t.log.buffer)
unfolding flush_buffer write_buffer
flush_buffer_total answers t enough = elim (Option-cases t.log.fd) [
  | inl shut ↦ (t, ground (arith, shut), refl, refl, inl shut, omega arith)
  | inr (fd, opened) ↦
      let o : Output = record { pending = t.log.buffer; file = t.file; clears = t.clears } in
      let (u, rest, e) =
        write_while_total file_min_write (λ p. p) (omega arith) (λ p h. omega (arith, h)) answers o
          enough in
      let (_, short) = write_while_lem file_min_write (λ p. p) answers o e in
      (
        record t { log = record (t.log) { buffer = u.pending }; file = u.file; clears = u.clears },
        with_file t.log.fd (some t) _ opened ∙ rw e refl,
        refl,
        refl,
        inr short,
        write_while-shorter file_min_write (λ p. p) answers o e,
      )
]

-- The file buffer holds no more than this, where there is a file.
abbrev pub Fits : ℕ → Thread → Type 0
Fits limit t = (t.log.fd ≡ none) ⊎ (length t.log.buffer ≤ limit)

-- The log that a pass writes to has a file.
choose_log_total :
    (a : RotateAnswers) (t : Thread) (ts : Dtl) (same : Bool) (limit : ℕ)
    → 8 ≤ limit
    → Fits limit t
    → length t.log.buffer < file_buffer_size
    → HeadersWhole a.starts
    → Rotates a t
    → (same ≡ true → t.log.fd ≢ none)
    → (u : Thread) × ((if same then some t else rotate a t ts) ≡ some u)
      × ((fd : ℕ) × (u.log.fd ≡ some fd))
      × (length u.log.buffer ≤ limit)
choose_log_total a t ts true limit eight (inl shut) room whole r open_file =
    absurd (open_file refl shut)
choose_log_total a t ts true limit eight (inr fits) room whole r open_file =
    elim (Option-cases t.log.fd) [
      | inl shut ↦ absurd (open_file refl shut)
      | inr opened ↦ (t, refl, opened, fits)
    ]
choose_log_total a t ts false limit eight fits room whole r open_file =
    let (u, e, opened, short) = rotate_total a t ts room whole r in
    (u, e, opened, omega (arith, short))

-- A pass that goes on has taken the oldest entry; one that gives up has left the entry buffer, for want
-- of room in the file buffer.
pub record IsPass (limit : ℕ) (b : EntryBuffer) (r : Thread × EntryBuffer × Bool) : Type 0 where
  pub went_on :
      r.2 ≡ true
      → (r.1 ≡ record b { start = (b.start + entry_size) % entry_buffer_size })
        × (length r.0.log.buffer ≤ limit + (entry_size + 1))
  pub gave_up : r.2 ≡ false → (r.1 ≡ b) × (file_buffer_size ≤ limit + (entry_size + 1))

copy_entry-IsPass :
    (t : Thread) (b : EntryBuffer) (limit fd : ℕ)
    → t.log.fd ≡ some fd
    → length t.log.buffer ≤ limit
    → IsPass limit b (copy_entry t b)
unfolding copy_entry
copy_entry-IsPass t b limit fd opened fits =
    elim (Bool-cases (leb file_buffer_size (length t.log.buffer + (entry_size + 1)))) [
      | inl full ↦
          rw (opened, full)
            (record {
              went_on = λ e. absurd (cc e);
              gave_up = λ e. (refl, omega (arith, fits, leb→le _ _ full));
            })
      | inr room ↦
          rw (opened, room)
            (record {
              went_on = λ e. (
                refl,
                omega (
                  arith,
                  fits,
                  length-append t.log.buffer (0 ∷ load_bytes b.buffer b.start entry_size),
                  length-load_bytes b.buffer b.start entry_size,
                ),
              );
              gave_up = λ e. absurd (cc e);
            })
    ]

pub drain_entry_total :
    (h : Host) (big : Bool) (a : RotateAnswers) (stale : Dtl) (t : Thread) (b : EntryBuffer)
    (limit : ℕ)
    → IsValid b
    → 8 ≤ limit
    → Fits limit t
    → length t.log.buffer < file_buffer_size
    → HeadersWhole a.starts
    → Rotates a t
    → (same_log t.log_start (load_timestamp h big b.buffer b.start stale) ≡ true → t.log.fd ≢ none)
    → (r : Thread × EntryBuffer × Bool) × (drain_entry h big a stale t b ≡ some r)
      × IsPass limit b r
unfolding drain_entry
drain_entry_total h big a stale t b limit v eight fits room whole r open_file =
    let ts = load_timestamp h big b.buffer b.start stale in
    let (u, e, (fd, opened), short) =
      choose_log_total a t ts (same_log t.log_start ts) limit eight fits room whole r open_file in
    (
      copy_entry u b,
      rw (align_start_lem b v) (rw e refl),
      copy_entry-IsPass u b limit fd opened short,
    )
