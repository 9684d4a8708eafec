-- ===== src/Program/Dated.antt =====
-- The logging thread of the whole program: every entry has a year, so that the thread has a file for it.
use pnet2csv.Common.{◌≡◌, sym, ap, subst, List, [], ◌∷◌, some, Bool, All, >>=-eq-some}
use pnet2csv.Host.{Host}
use pnet2csv.FileLogger.Thread
use pnet2csv.FileLogger.Thread.{System, add, drain, flush}
use pnet2csv.FileLogger.Thread.Rotate.{some_injective}
use pnet2csv.FileLogger.Thread.Dated.{IsDated, step-IsDated}
use pnet2csv.Cyclic.{Sample}
use pnet2csv.Cyclic.Runs.{IsFull}
use pnet2csv.App.Loop.{RoundAnswers}
use pnet2csv.Program.{
  Program, Move, tick, round, log_entry, thread_pass, thread_write, next_round, next_entry, move,
  run,
}
use pnet2csv.Program.Sampled.{IsRegularMove, IsSoundProgram, move-IsSoundProgram}

pub next_round-system :
    (h : Host) (a : RoundAnswers) (p : Program) (pending : List Sample) {q : Program}
    → next_round h a p pending ≡ some q
    → q.system ≡ p.system
unfolding next_round
next_round-system h a p [] e = ap (λ x. x.system) (sym (some_injective e))
next_round-system h a p (s ∷ rest) e = absurd (cc e)

next_entry-IsDated :
    (h : Host) (created : Bool) (p : Program) (pending : List Sample) {q : Program}
    → IsDated p.system
    → All IsFull pending
    → next_entry h created p pending ≡ some q
    → IsDated q.system
unfolding next_entry
next_entry-IsDated h created p [] d w e = absurd (cc e)
next_entry-IsDated h created p (s ∷ rest) d (f, w) e =
    let (u, e1, f1) = >>=-eq-some (Thread.step h p.system (add created s.0 s.1)) _ e in
    subst (λ x. IsDated x.system) (some_injective f1)
      (step-IsDated h p.system (add created s.0 s.1) d (f.fresh, f.full) e1)

move-IsDated :
    (h : Host) (p : Program) (m : Move) {q : Program}
    → IsSoundProgram p
    → IsDated p.system
    → IsRegularMove m
    → move h p m ≡ some q
    → IsDated q.system
unfolding move
move-IsDated h p tick v d w e = subst (λ x. IsDated x.system) (some_injective e) d
move-IsDated h p (round a) v d w e = subst IsDated (sym (next_round-system h a p p.pending e)) d
move-IsDated h p (log_entry created) v d w e =
    next_entry-IsDated h created p p.pending d v.pending_full e
move-IsDated h p (thread_pass a stale) v d w e =
    let (u, e1, f1) = >>=-eq-some (Thread.step h p.system (drain a stale)) _ e in
    subst (λ x. IsDated x.system) (some_injective f1)
      (step-IsDated h p.system (drain a stale) d w e1)
move-IsDated h p (thread_write answers) v d w e =
    let (u, e1, f1) = >>=-eq-some (Thread.step h p.system (flush answers)) _ e in
    subst (λ x. IsDated x.system) (some_injective f1)
      (step-IsDated h p.system (flush answers) d tt e1)

pub run-kept :
    (h : Host) (p : Program) (ms : List Move) {q : Program}
    → IsSoundProgram p
    → IsDated p.system
    → All IsRegularMove ms
    → run h p ms ≡ some q
    → IsSoundProgram q × IsDated q.system
unfolding run
run-kept h p [] v d w e =
    let same = some_injective e in
    (subst IsSoundProgram same v, subst (λ x. IsDated x.system) same d)
run-kept h p (m ∷ ms) v d (w, ws) e =
    let (p', e1, f1) = >>=-eq-some (move h p m) _ e in
    run-kept h p' ms (move-IsSoundProgram h p m v w e1) (move-IsDated h p m v d w e1) ws f1
