-- ===== src/Program/Locked/Serial.antt =====
-- The program at the mutex behaves as in a history of whole passes.
use pnet2csv.Common.{
  ℕ, ◌≡◌, refl, sym, ap, subst, ◌∙◌, List, [], ◌∷◌, ◌++◌, map, Bool, true, some, All, >>=-eq-some,
  Bool-cases, inl, inr,
}
use pnet2csv.Common.Sublists.{Sublist}
use pnet2csv.Host.{Host}
use pnet2csv.FileLogger.Thread
use pnet2csv.FileLogger.Thread.{System, Event, add, drain, flush}
use pnet2csv.FileLogger.Thread.Rotate.{some_injective}
use pnet2csv.FileLogger.Thread.Stream.{IsRegular, IsSound, whole, concat, encode_all}
use pnet2csv.FileLogger.Thread.Locks.{
  Phase, between, changing, Locked, Action, call, look, change, write, act,
}
use pnet2csv.FileLogger.Thread.Locks.Halves.{IsAt, call-Knows}
use pnet2csv.FileLogger.Thread.Locks.Serial.{
  IsRegularAction, event_calls, action_calls, act-IsSerial,
}
use pnet2csv.Cyclic
use pnet2csv.Cyclic.{Sample}
use pnet2csv.Cyclic.Runs.{IsFull}
use pnet2csv.Pnet.{AlarmArgument}
use pnet2csv.Device.Plugging.{PlugAnswers}
use pnet2csv.App.Init.{started}
use pnet2csv.App.Started.{started-IsSoundApp}
use pnet2csv.Program.{
  Program, Move, tick, round, log_entry, thread_pass, thread_write, next_entry, move, run, begun,
}
use pnet2csv.Program.Sampled.{
  IsRegularMove, IsSoundProgram, run-IsSoundProgram, begun-IsSoundProgram, closed-sampled,
}
use pnet2csv.Program.Dated.{next_round-system}
use pnet2csv.Program.Locked.{
  LockedProgram, LockedMove, main_task, thread, is_main_task, is_thread, locked_move, locked_run,
  locked_begun,
}

-- P-Net fills its buffers with bytes, and headers are written whole or not at all.
abbrev pub IsRegularLocked : LockedMove → Type 0
IsRegularLocked (main_task m) = IsRegularMove m
IsRegularLocked (thread x) = IsRegularAction x

-- Events of the logging thread alone are moves of the program.
lifted :
    (h : Host) (p : Program) (es : List Event) {u : System}
    → event_calls es ≡ []
    → All IsRegular es
    → Thread.run h p.system es ≡ some u
    → (ms : List Move) × All IsRegularMove ms × (run h p ms ≡ some (record p { system = u }))
unfolding Thread.run run move
lifted h p [] c w e = ([], tt, ap (λ s. some (record p { system = s })) (some_injective e))
lifted h p (add created t words ∷ es) c w e = absurd (cc c)
lifted h p (drain a stale ∷ es) c (w, ws) e =
    let (s, e1, f1) =
      >>=-eq-some (Thread.step h p.system (drain a stale)) (λ x. Thread.run h x es) e in
    let (ms, ok, r) = lifted h (record p { system = s }) es c ws f1 in
    (thread_pass a stale ∷ ms, (w, ok), rw e1 r)
lifted h p (flush answers ∷ es) c (w, ws) e =
    let (s, e1, f1) =
      >>=-eq-some (Thread.step h p.system (flush answers)) (λ x. Thread.run h x es) e in
    let (ms, ok, r) = lifted h (record p { system = s }) es c ws f1 in
    (thread_write answers ∷ ms, (tt, ok), rw e1 r)

-- A call of the main loop's task keeps what the logging thread knows.
step-IsAt :
    (h : Host) (created : Bool) (s : System) (x : Sample) (phase : Phase) {u : System}
    → IsSound true s
    → IsFull x
    → IsAt h s phase
    → Thread.step h s (add created x.0 x.1) ≡ some u
    → IsAt h u phase
step-IsAt h created s x between v f at e = tt
step-IsAt h created s x (changing entry_ts entry) v f at e =
    call-Knows h created s x.0 x.1 entry_ts entry v.valid f.fresh f.full at e

next_entry-IsAt :
    (h : Host) (created : Bool) (p : Program) (pending : List Sample) (phase : Phase) {q : Program}
    → IsSound true p.system
    → All IsFull pending
    → IsAt h p.system phase
    → next_entry h created p pending ≡ some q
    → IsAt h q.system phase
unfolding next_entry
next_entry-IsAt h created p [] phase v w at e = absurd (cc e)
next_entry-IsAt h created p (s ∷ rest) phase v (f, w) at e =
    let (u, e1, f1) = >>=-eq-some (Thread.step h p.system (add created s.0 s.1)) _ e in
    subst (λ x. IsAt h x.system phase) (some_injective f1)
      (step-IsAt h created p.system s phase v f at e1)

-- So do all its moves.
main_task-IsAt :
    (h : Host) (p : Program) (m : Move) (phase : Phase) {q : Program}
    → IsSoundProgram p
    → is_main_task m ≡ true
    → IsAt h p.system phase
    → move h p m ≡ some q
    → IsAt h q.system phase
unfolding move is_main_task
main_task-IsAt h p tick phase v t at e = subst (λ x. IsAt h x.system phase) (some_injective e) at
main_task-IsAt h p (round a) phase v t at e =
    subst (λ x. IsAt h x phase) (sym (next_round-system h a p p.pending e)) at
main_task-IsAt h p (log_entry created) phase v t at e =
    next_entry-IsAt h created p p.pending phase v.system_sound v.pending_full at e
main_task-IsAt h p (thread_pass a stale) phase v t at e = absurd (cc t)
main_task-IsAt h p (thread_write answers) phase v t at e = absurd (cc t)

no_calls : (x : Action) → is_thread x ≡ true → action_calls (x ∷ []) ≡ []
unfolding is_thread
no_calls (call created t words) e = absurd (cc e)
no_calls (look stale) e = refl
no_calls (change a) e = refl
no_calls (write answers) e = refl

-- A history of whole passes that leaves the same program.
abbrev pub IsSerialProgram : Host → Program → LockedProgram → Type 0
IsSerialProgram h p q =
    (ns : List Move) × All IsRegularMove ns
    × (run h p ns ≡ some q.program)
    × IsAt h q.program.system q.phase

locked_move-IsSerial :
    (h : Host) (p : LockedProgram) (m : LockedMove) {q : LockedProgram}
    → IsSoundProgram p.program
    → IsAt h p.program.system p.phase
    → IsRegularLocked m
    → locked_move h p m ≡ some q
    → IsSerialProgram h p.program q
unfolding locked_move run
locked_move-IsSerial h p (main_task m) v at w e = elim (Bool-cases (is_main_task m)) [
  | inl its ↦
      let (r, e1, f1) = >>=-eq-some (move h p.program m) _ (rw its at e) in
      subst (IsSerialProgram h p.program) (some_injective f1)
        (m ∷ [], (w, tt), rw e1 refl, main_task-IsAt h p.program m p.phase v its at e1)
  | inr other ↦ absurd (cc (rw other at e))
]
locked_move-IsSerial h p (thread x) v at w e = elim (Bool-cases (is_thread x)) [
  | inl its ↦
      let l0 : Locked = record { system = p.program.system; phase = p.phase } in
      let (l, e1, f1) = >>=-eq-some (act h l0 x) _ (rw its at e) in
      let (es, ok, r, at', calls) = act-IsSerial h l0 x v.system_sound at w e1 in
      let (ns, oks, rs) = lifted h p.program es (calls ∙ no_calls x its) ok r in
      subst (IsSerialProgram h p.program) (some_injective f1) (ns, oks, rs, at')
  | inr other ↦ absurd (cc (rw other at e))
]

run-append :
    (h : Host) (p : Program) (ms ns : List Move) {q : Program}
    → run h p ms ≡ some q
    → run h p (ms ++ ns) ≡ run h q ns
unfolding run
run-append h p [] ns e = ap (λ x. run h x ns) (some_injective e)
run-append h p (m ∷ ms) ns e =
    let (t, e1, f1) = >>=-eq-some (move h p m) (λ t. run h t ms) e in
    rw e1 (run-append h t ms ns f1)

All-append :
    (xs ys : List Move) → All IsRegularMove xs → All IsRegularMove ys → All IsRegularMove (xs ++ ys)
All-append [] ys h k = k
All-append (x ∷ xs) ys (p, h) k = (p, All-append xs ys h k)

locked_run-IsSerial :
    (h : Host) (p : LockedProgram) (ms : List LockedMove) {q : LockedProgram}
    → IsSoundProgram p.program
    → IsAt h p.program.system p.phase
    → All IsRegularLocked ms
    → locked_run h p ms ≡ some q
    → IsSerialProgram h p.program q
unfolding locked_run run
locked_run-IsSerial h p [] v at w e =
    subst (IsSerialProgram h p.program) (some_injective e) ([], tt, refl, at)
locked_run-IsSerial h p (m ∷ ms) v at (w, ws) e =
    let (p', e1, f1) = >>=-eq-some (locked_move h p m) (λ t. locked_run h t ms) e in
    let (ns, ok1, r1, at1) = locked_move-IsSerial h p m v at w e1 in
    let v' = run-IsSoundProgram h p.program ns v ok1 r1 in
    let (rest, ok2, r2, at2) = locked_run-IsSerial h p' ms v' at1 ws f1 in
    (ns ++ rest, All-append ns rest ok1 ok2, run-append h p.program ns rest r1 ∙ r2, at2)

-- In every history of the program from its start, whatever P-Net, the file system and the order of the
-- tasks' steps at the mutex, calls of addLogEntry that come while the logging thread changes files included,
-- if P-Net fills its buffers with bytes and headers are written whole or not at all: a history of whole
-- passes of the thread leaves the same program; a finished log file is a header, entries and an end mark;
-- and the entries of the finished files, one after the other, are, in order, some of those that the
-- sampling makes of what was read of the process data.
pub locked_run-sampled :
    (h : Host) (net : Bool) (max_ar : ℕ) (arg : AlarmArgument) (module_answers : PlugAnswers)
    (answers : ℕ → PlugAnswers) (ports : ℕ) (ms : List LockedMove) {q : LockedProgram}
    → All IsRegularLocked ms
    → locked_run h (locked_begun (started net max_ar arg module_answers answers ports)) ms ≡ some q
    → ((ns : List Move) × All IsRegularMove ns
        × (run h (begun (started net max_ar arg module_answers answers ports)) ns ≡ some q.program))
      × ((groups : List (List (List ℕ))) × (q.program.system.thread.closed ≡ map whole groups)
          × Sublist (concat groups) (encode_all true (Cyclic.run Cyclic.initial q.program.reads).1))
unfolding started
locked_run-sampled h net max_ar arg module_answers answers ports ms {q} w e =
    let app = started net max_ar arg module_answers answers ports in
    let v =
      begun-IsSoundProgram app (started-IsSoundApp net max_ar arg module_answers answers ports)
        refl in
    let (ns, regular, same, _) = locked_run-IsSerial h (locked_begun app) ms v tt w e in
    (
      (ns, regular, same),
      closed-sampled h net max_ar arg module_answers answers ports ns regular same,
    )
