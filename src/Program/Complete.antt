-- ===== src/Program/Complete.antt =====
-- Nothing is lost on the way to the files where the ring never was full: every sample that has a year is
-- written to one. What deleteOldest leaves of the files is another matter, see Program.Readable.
use pnet2csv.Common.{
  ℕ, ◌<◌, ◌≡◌, refl, sym, ap, subst, ◌∙◌, ◌⊎◌, List, [], ◌∷◌, ◌++◌, append-nil, map, some, none,
  Bool, true, false, All, >>=-eq-some, length, ReturnCode, ok, error, if◌then◌else◌, ◌==◌,
  Bool-cases, inl, inr, arith, not, ◌&&◌,
}
use pnet2csv.Host.{Host}
use pnet2csv.FileLogger.Entry.{Dtl}
use pnet2csv.FileLogger.Buffer.{Logger, is_full, add_log_entry, initialise_logger_thread}
use pnet2csv.FileLogger.File.{file_min_write}
use pnet2csv.FileLogger.Thread
use pnet2csv.FileLogger.Thread.{System, RotateAnswers, add, drain, flush, record_accepted}
use pnet2csv.FileLogger.Thread.Rotate.{some_injective}
use pnet2csv.FileLogger.Thread.Rounds.{ThreadAnswers, thread_rounds}
use pnet2csv.FileLogger.Thread.Stream.{IsSound, whole, concat, encode_all, IsOpen}
use pnet2csv.FileLogger.Thread.Passes.{IsPatientRound}
use pnet2csv.FileLogger.Thread.Drained.{drained}
use pnet2csv.Cyclic
use pnet2csv.Cyclic.{Sample}
use pnet2csv.Pnet.{AlarmArgument}
use pnet2csv.Device.Plugging.{PlugAnswers}
use pnet2csv.App.Init.{started}
use pnet2csv.App.Loop.{RoundAnswers}
use pnet2csv.Program.{
  Program, Move, tick, round, log_entry, thread_pass, thread_write, next_round, next_entry, move,
  run, begun,
}
use pnet2csv.Program.Sampled.{IsRegularMove, drain_accepted, flush_accepted}
use pnet2csv.Program.Dated.{run-kept}
use pnet2csv.FileLogger.Thread.Dated.{IsDated, initial-IsDated}
use pnet2csv.App.Started.{started-IsSoundApp}
use pnet2csv.Program.Sampled.{begun-IsSoundProgram}

-- The samples that have a year; the others are from before the first timestamp.
unfoldable pub with_year : List Sample → List Sample
with_year [] = []
with_year (s ∷ rest) = if s.0.year == 0 then with_year rest else s ∷ with_year rest

-- A call of `addLogEntry` finds room in the ring.
unfoldable pub finds_room : Program → Move → Bool
finds_room p tick = true
finds_room p (round a) = true
finds_room p (log_entry created) = not (is_full p.system.logger.entries)
finds_room p (thread_pass a stale) = true
finds_room p (thread_write answers) = true

-- Every call in the history does.
unfoldable pub never_full : Host → Program → List Move → Bool
unfolding finds_room
never_full h p [] = true
never_full h p (m ∷ ms) =
    finds_room p m && elim (move h p m) [ none ↦ true | some q ↦ never_full h q ms ]

never_full-cons :
    (h : Host) (p : Program) (m : Move) (ms : List Move) {q : Program}
    → never_full h p (m ∷ ms) ≡ true
    → move h p m ≡ some q
    → (finds_room p m ≡ true) × (never_full h q ms ≡ true)
unfolding never_full
never_full-cons h p m ms n e = elim (Bool-cases (finds_room p m)) [
  | inl room ↦ (room, rw (room, never_full) at (rw (e, never_full) at n))
  | inr full ↦ absurd (cc (rw (full, never_full) at n))
]

with_year-append : (xs ys : List Sample) → with_year (xs ++ ys) ≡ with_year xs ++ with_year ys
unfolding with_year
with_year-append [] ys = refl
with_year-append (s ∷ xs) ys = elim (Bool-cases (s.0.year == 0)) [
  | inl e ↦ rw (e, with_year) (with_year-append xs ys)
  | inr e ↦ rw (e, with_year) (ap (◌∷◌ s) (with_year-append xs ys))
]

-- A call that finds room is refused only for want of a year.
add_log_entry-code :
    (h : Host) (created : Bool) (l : Logger) (t : Dtl) (words : List ℕ)
    → is_full l.entries ≡ false
    → (add_log_entry h created l t words 64).1 ≡ (if t.year == 0 then error else ok)
unfolding add_log_entry initialise_logger_thread is_full
add_log_entry-code h created l t words room = ground arith

recorded-with_year :
    (code : ReturnCode) (s : Sample) (past issued : List Sample)
    → code ≡ (if s.0.year == 0 then error else ok)
    → past ≡ with_year issued
    → record_accepted code s.0 s.1 past ≡ with_year (issued ++ s ∷ [])
unfolding with_year
recorded-with_year code s past issued e same = elim (Bool-cases (s.0.year == 0)) [
  | inl zero_year ↦ rw (e ∙ ap (λ (b : Bool). if b then error else ok) zero_year) (
      same
      ∙ sym (append-nil (with_year issued))
      ∙ ap (λ l. with_year issued ++ l) (rw (zero_year, with_year) refl)
      ∙ sym (with_year-append issued (s ∷ [])))
  | inr year ↦ rw (e ∙ ap (λ (b : Bool). if b then error else ok) year) (
      ap (λ l. l ++ s ∷ []) same
      ∙ ap (λ l. with_year issued ++ l) (rw (year, with_year) refl)
      ∙ sym (with_year-append issued (s ∷ [])))
]

-- Every call that was made with a year was accepted.
IsComplete : Program → Type 0
IsComplete p = p.system.accepted ≡ with_year p.issued

next_round-IsComplete :
    (h : Host) (a : RoundAnswers) (p : Program) (pending : List Sample) {q : Program}
    → IsComplete p
    → next_round h a p pending ≡ some q
    → IsComplete q
unfolding next_round IsComplete
next_round-IsComplete h a p [] c e = subst IsComplete (some_injective e) c
next_round-IsComplete h a p (s ∷ rest) c e = absurd (cc e)

next_entry-IsComplete :
    (h : Host) (created : Bool) (p : Program) (pending : List Sample) {q : Program}
    → IsComplete p
    → is_full p.system.logger.entries ≡ false
    → next_entry h created p pending ≡ some q
    → IsComplete q
unfolding next_entry IsComplete Thread.step
next_entry-IsComplete h created p [] c room e = absurd (cc e)
next_entry-IsComplete h created p (s ∷ rest) c room e = subst IsComplete (some_injective e) (
    recorded-with_year (add_log_entry h created p.system.logger s.0 s.1 64).1 s p.system.accepted
      p.issued (add_log_entry-code h created p.system.logger s.0 s.1 room) c)

not-eq_true : (b : Bool) → not b ≡ true → b ≡ false
not-eq_true true e = absurd (cc e)
not-eq_true false e = refl

move-IsComplete :
    (h : Host) (p : Program) (m : Move) {q : Program}
    → IsComplete p
    → finds_room p m ≡ true
    → move h p m ≡ some q
    → IsComplete q
unfolding move IsComplete finds_room
move-IsComplete h p tick c room e = subst IsComplete (some_injective e) c
move-IsComplete h p (round a) c room e = next_round-IsComplete h a p p.pending c e
move-IsComplete h p (log_entry created) c room e =
    next_entry-IsComplete h created p p.pending c (not-eq_true _ room) e
move-IsComplete h p (thread_pass a stale) c room e =
    let (u, e1, f1) = >>=-eq-some (Thread.step h p.system (drain a stale)) _ e in
    subst IsComplete (some_injective f1) (drain_accepted h p.system a stale e1 ∙ c)
move-IsComplete h p (thread_write answers) c room e =
    let (u, e1, f1) = >>=-eq-some (Thread.step h p.system (flush answers)) _ e in
    subst IsComplete (some_injective f1) (flush_accepted h p.system answers e1 ∙ c)

run-IsComplete :
    (h : Host) (p : Program) (ms : List Move) {q : Program}
    → IsComplete p
    → never_full h p ms ≡ true
    → run h p ms ≡ some q
    → IsComplete q
unfolding run
run-IsComplete h p [] c n e = subst IsComplete (some_injective e) c
run-IsComplete h p (m ∷ ms) c n e =
    let (p', e1, f1) = >>=-eq-some (move h p m) _ e in
    let (room, rest) = never_full-cons h p m ms n e1 in
    run-IsComplete h p' ms (move-IsComplete h p m c room e1) rest f1

-- What such a history leaves: sound threads, and an accepted entry for every sample with a year.
pub record IsDone (q : Program) : Type 0 where
  pub sound : IsSound true q.system
  pub dated : IsDated q.system
  pub all_accepted : q.system.accepted ≡ with_year (Cyclic.run Cyclic.initial q.reads).1

pub run-IsDone :
    (h : Host) (net : Bool) (max_ar : ℕ) (arg : AlarmArgument) (module_answers : PlugAnswers)
    (answers : ℕ → PlugAnswers) (ports : ℕ) (ms : List Move) {q : Program}
    → All IsRegularMove ms
    → never_full h (begun (started net max_ar arg module_answers answers ports)) ms ≡ true
    → run h (begun (started net max_ar arg module_answers answers ports)) ms ≡ some q
    → q.pending ≡ []
    → IsDone q
unfolding started IsComplete with_year
run-IsDone h net max_ar arg module_answers answers ports ms {q} w n e idle =
    let app = started net max_ar arg module_answers answers ports in
    let (v, d) =
      run-kept h (begun app) ms
        (begun-IsSoundProgram app (started-IsSoundApp net max_ar arg module_answers answers ports)
          refl)
        initial-IsDated w e in
    let complete : q.system.accepted ≡ with_year q.issued =
      run-IsComplete h (begun app) ms refl n e in
    let all : (Cyclic.run Cyclic.initial q.reads).1 ≡ q.issued =
      ap (λ r. r.1) v.sampled ∙ ap (λ l. q.issued ++ l) idle ∙ append-nil q.issued in
    record { sound = v.system_sound; dated = d; all_accepted = complete ∙ ap with_year (sym all) }

-- In every history of the program from its start in which no call of `addLogEntry` found the ring full,
-- the round of the main loop has made all its calls, P-Net filled its buffers with bytes, and headers were
-- written whole or not at all: three rounds of the logging thread return, if the writes get on, the
-- synchronisations of old files end, and the starts succeed in the end. The entries of the files that were finished, removed since or not,
-- and of the current one, of which less than FILE_MIN_WRITE bytes are still to be written, then are, one
-- after the other, exactly the samples with a year that the sampling makes of what was read of the process
-- data.
pub files-sampling :
    (h : Host) (net : Bool) (max_ar : ℕ) (arg : AlarmArgument) (module_answers : PlugAnswers)
    (answers : ℕ → PlugAnswers) (ports : ℕ) (ms : List Move) (a b c : ThreadAnswers) {q : Program}
    → All IsRegularMove ms
    → never_full h (begun (started net max_ar arg module_answers answers ports)) ms ≡ true
    → run h (begun (started net max_ar arg module_answers answers ports)) ms ≡ some q
    → q.pending ≡ []
    → IsPatientRound a
    → IsPatientRound b
    → IsPatientRound c
    → (u : System) × (thread_rounds h (a ∷ b ∷ c ∷ []) q.system ≡ some u)
      × ((groups : List (List (List ℕ))) × (current : List (List ℕ)) × (u.thread.closed
            ≡ map whole groups)
          × IsOpen u.thread.log.fd (u.thread.file ++ u.thread.log.buffer) current
          × (concat groups ++ current
              ≡ encode_all true (with_year (Cyclic.run Cyclic.initial q.reads).1)))
      × ((u.thread.log.fd ≡ none) ⊎ (length u.thread.log.buffer < file_min_write))
files-sampling h net max_ar arg module_answers answers ports ms a b c {q} w n e idle pa pb pc =
    let done = run-IsDone h net max_ar arg module_answers answers ports ms w n e idle in
    let (u, returns, _, (groups, current, closed, open_file, entries), written) =
      drained h a b c q.system done.sound done.dated pa pb pc in
    (
      u,
      returns,
      (groups, current, closed, open_file, entries ∙ ap (encode_all true) done.all_accepted),
      written,
    )
