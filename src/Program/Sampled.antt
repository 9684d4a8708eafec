-- ===== src/Program/Sampled.antt =====
-- The whole program over every history: what stands in the log files is what the sampling makes of the
-- process data.
use pnet2csv.Common.{
  ℕ, ◌≡◌, refl, sym, ap, subst, ◌∙◌, List, [], ◌∷◌, ◌++◌, map, append-nil, append_assoc, Bool, true,
  some, All, >>=-eq-some, ReturnCode, ok, error, Bool-cases, ◌==◌, inl, inr,
}
use pnet2csv.Common.Sublists.{Sublist, done, keep_last, Sublist-append, front-Sublist, map-Sublist}
use pnet2csv.Host.{Host}
use pnet2csv.FileLogger.Entry.{Dtl}
use pnet2csv.FileLogger.File.{WriteAnswer}
use pnet2csv.FileLogger.Buffer.{add_log_entry}
use pnet2csv.FileLogger.Buffer.Queue.{contents}
use pnet2csv.FileLogger.Thread
use pnet2csv.FileLogger.Thread.{
  System, Event, add, drain, flush, record_accepted, drain_entry, flush_buffer,
}
use pnet2csv.FileLogger.Thread.Rotate.{some_injective}
use pnet2csv.FileLogger.Thread.Stream.{whole, concat, encode_all, IsSound, HeadersWhole}
use pnet2csv.FileLogger.Thread.Invariant.{step-IsSound, initial-IsSound}
use pnet2csv.Cyclic
use pnet2csv.Cyclic.{Sample}
use pnet2csv.Cyclic.Runs.{IsFull, run-append}
use pnet2csv.Pnet.{AlarmArgument}
use pnet2csv.Device.Plugging.{PlugAnswers}
use pnet2csv.App.{App}
use pnet2csv.App.Init.{started}
use pnet2csv.App.Started.{started-IsSoundApp}
use pnet2csv.FileLogger.Entry.Codec.{encode}
use pnet2csv.App.Loop.{RoundAnswers, main_timer_tick, loop_round}
use pnet2csv.App.Invariant.{IsSoundApp}
use pnet2csv.App.Polling.{IsFed}
use pnet2csv.App.Rounds.{loop_round-IsOutcome, cleared-IsSoundApp}
use pnet2csv.Program.{
  Program, Move, tick, round, log_entry, thread_pass, thread_write, next_round, next_entry, move,
  run, begun,
}

-- P-Net fills its buffers with bytes, and headers of log files are written whole or not at all.
abbrev pub IsRegularMove : Move → Type 0
IsRegularMove tick = Unit {0}
IsRegularMove (round a) = IsFed a
IsRegularMove (log_entry created) = Unit {0}
IsRegularMove (thread_pass a stale) = HeadersWhole a.starts
IsRegularMove (thread_write answers) = Unit {0}

-- Both tasks are sound, the calls of `addLogEntry`, made and still to be made, are those of the sampling
-- on what was read, and those that were accepted are among those that were made, in order.
pub record IsSoundProgram (p : Program) : Type 0 where
  pub app_sound : IsSoundApp p.app
  pub system_sound : IsSound true p.system
  pub pending_full : All IsFull p.pending
  pub sampled : Cyclic.run Cyclic.initial p.reads ≡ (p.app.cyclic, p.issued ++ p.pending)
  pub accepted_issued : Sublist p.system.accepted p.issued

-- What a call of `addLogEntry` adds to the accepted ones.
recorded :
    (code : ReturnCode) (s : Sample) {xs ys : List Sample}
    → Sublist xs ys
    → Sublist (record_accepted code s.0 s.1 xs) (ys ++ s ∷ [])
recorded ok s l = keep_last s l
recorded error s l = Sublist-append (s ∷ []) l

-- A step of the logging thread accepts nothing.
pub drain_accepted :
    (h : Host) (s : System) (a : Thread.RotateAnswers) (stale : Dtl) {u : System}
    → Thread.step h s (drain a stale) ≡ some u
    → u.accepted ≡ s.accepted
unfolding Thread.step
drain_accepted h s a stale e = elim (Bool-cases (s.logger.entries.start == s.logger.entries.end)) [
  | inl empty ↦ sym (ap (λ s. s.accepted) (some_injective (rw empty at e)))
  | inr more ↦
      let (r, e1, f1) =
        >>=-eq-some (drain_entry h s.logger.bigendian a stale s.thread s.logger.entries) _
          (rw more at e) in
      sym (ap (λ s. s.accepted) (some_injective f1))
]

pub flush_accepted :
    (h : Host) (s : System) (answers : List WriteAnswer) {u : System}
    → Thread.step h s (flush answers) ≡ some u
    → u.accepted ≡ s.accepted
unfolding Thread.step
flush_accepted h s answers e =
    let (t, e1, f1) = >>=-eq-some (flush_buffer answers s.thread) _ e in
    sym (ap (λ s. s.accepted) (some_injective f1))

module _ (h : Host) (p : Program) (v : IsSoundProgram p) where
  ticked : IsSoundProgram (record p { app = main_timer_tick p.app })
  unfolding main_timer_tick
  ticked = record {
    app_sound = cleared-IsSoundApp p.app _ v.app_sound;
    system_sound = v.system_sound;
    pending_full = v.pending_full;
    sampled = v.sampled;
    accepted_issued = v.accepted_issued;
  }

  -- A step of the logging thread.
  thread_moved :
      (u : System)
      → IsSound true u
      → u.accepted ≡ p.system.accepted
      → IsSoundProgram (record p { system = u })
  thread_moved u w e = record {
    app_sound = v.app_sound;
    system_sound = w;
    pending_full = v.pending_full;
    sampled = v.sampled;
    accepted_issued = rw e v.accepted_issued;
  }

entry_accepted :
    (h : Host) (created : Bool) (s : System) (x : Sample) {u : System} {ys : List Sample}
    → Thread.step h s (add created x.0 x.1) ≡ some u
    → Sublist s.accepted ys
    → Sublist u.accepted (ys ++ x ∷ [])
unfolding Thread.step
entry_accepted h created s x {ys} e l =
    subst (λ w. Sublist w.accepted (ys ++ x ∷ [])) (some_injective e)
      (recorded (add_log_entry h created s.logger x.0 x.1 64).1 x l)

next_round-IsSoundProgram :
    (h : Host) (a : RoundAnswers) (p : Program) (pending : List Sample) {q : Program}
    → p.pending ≡ pending
    → IsSoundProgram p
    → IsFed a
    → next_round h a p pending ≡ some q
    → IsSoundProgram q
unfolding next_round
next_round-IsSoundProgram h a p (s ∷ rest) e v fed f = absurd (cc f)
next_round-IsSoundProgram h a p [] e v fed f =
    let o = loop_round-IsOutcome h a p.app fed v.app_sound in
    let r = loop_round h a p.app in
    subst IsSoundProgram (some_injective f) (record {
      app_sound = o.sound;
      system_sound = v.system_sound;
      pending_full = o.samples_full;
      sampled =
          run-append Cyclic.initial p.reads r.reads
          ∙ ap (λ x. ((Cyclic.run x.0 r.reads).0, x.1 ++ (Cyclic.run x.0 r.reads).1)) v.sampled
          ∙ ap (λ x. (x.0, (p.issued ++ p.pending) ++ x.1)) o.logged
          ∙ ap (λ l. (r.app.cyclic, l ++ r.samples))
              (ap (λ l. p.issued ++ l) e ∙ append-nil p.issued);
      accepted_issued = v.accepted_issued;
    })

next_entry-IsSoundProgram :
    (h : Host) (created : Bool) (p : Program) (pending : List Sample) {q : Program}
    → p.pending ≡ pending
    → IsSoundProgram p
    → next_entry h created p pending ≡ some q
    → IsSoundProgram q
unfolding next_entry
next_entry-IsSoundProgram h created p [] e v f = absurd (cc f)
next_entry-IsSoundProgram h created p (s ∷ rest) e v f =
    let full : All IsFull (s ∷ rest) = subst (All IsFull) e v.pending_full in
    let (u, e1, f1) = >>=-eq-some (Thread.step h p.system (add created s.0 s.1)) _ f in
    subst IsSoundProgram (some_injective f1) (record {
      app_sound = v.app_sound;
      system_sound =
          step-IsSound h true p.system (add created s.0 s.1) v.system_sound
            (full.0.fresh, full.0.full) e1;
      pending_full = full.1;
      sampled =
          v.sampled
          ∙ ap (λ l. (p.app.cyclic, l))
              (ap (λ l. p.issued ++ l) e ∙ sym (append_assoc p.issued (s ∷ []) rest));
      accepted_issued = entry_accepted h created p.system s e1 v.accepted_issued;
    })

-- Every step of the program.
pub move-IsSoundProgram :
    (h : Host) (p : Program) (m : Move) {q : Program}
    → IsSoundProgram p
    → IsRegularMove m
    → move h p m ≡ some q
    → IsSoundProgram q
unfolding move
move-IsSoundProgram h p tick v w e = subst IsSoundProgram (some_injective e) (ticked h p v)
move-IsSoundProgram h p (round a) v w e = next_round-IsSoundProgram h a p p.pending refl v w e
move-IsSoundProgram h p (log_entry created) v w e =
    next_entry-IsSoundProgram h created p p.pending refl v e
move-IsSoundProgram h p (thread_pass a stale) v w e =
    let (u, e1, f1) = >>=-eq-some (Thread.step h p.system (drain a stale)) _ e in
    subst IsSoundProgram (some_injective f1) (
      thread_moved h p v u (step-IsSound h true p.system (drain a stale) v.system_sound w e1)
        (drain_accepted h p.system a stale e1))
move-IsSoundProgram h p (thread_write answers) v w e =
    let (u, e1, f1) = >>=-eq-some (Thread.step h p.system (flush answers)) _ e in
    subst IsSoundProgram (some_injective f1) (
      thread_moved h p v u (step-IsSound h true p.system (flush answers) v.system_sound w e1)
        (flush_accepted h p.system answers e1))

pub run-IsSoundProgram :
    (h : Host) (p : Program) (ms : List Move) {q : Program}
    → IsSoundProgram p
    → All IsRegularMove ms
    → run h p ms ≡ some q
    → IsSoundProgram q
unfolding run
run-IsSoundProgram h p [] v w e = subst IsSoundProgram (some_injective e) v
run-IsSoundProgram h p (m ∷ ms) v (w, ws) e =
    let (p', e1, f1) = >>=-eq-some (move h p m) _ e in
    run-IsSoundProgram h p' ms (move-IsSoundProgram h p m v w e1) ws f1

pub begun-IsSoundProgram :
    (app : App) → IsSoundApp app → app.cyclic ≡ Cyclic.initial → IsSoundProgram (begun app)
unfolding Cyclic.run
begun-IsSoundProgram app v e = record {
  app_sound = v;
  system_sound = initial-IsSound;
  pending_full = tt;
  sampled = ap (λ c. (c, [])) (sym e);
  accepted_issued = done;
}

-- What the files hold is among what the sampling issued, in order.
closed_files :
    (p : Program)
    → IsSoundProgram p
    → (groups : List (List (List ℕ))) × (p.system.thread.closed ≡ map whole groups)
      × Sublist (concat groups) (encode_all true (Cyclic.run Cyclic.initial p.reads).1)
closed_files p v =
    let w = v.system_sound in
    let made : Sublist p.system.accepted (Cyclic.run Cyclic.initial p.reads).1 =
      rw v.sampled (Sublist-append p.pending v.accepted_issued) in
    let all =
      subst (λ l. Sublist l (encode_all true (Cyclic.run Cyclic.initial p.reads).1))
        (sym w.complete) (map-Sublist (λ (c : Sample). encode true c.0 c.1) made) in
    (
      w.groups,
      w.closed_files,
      front-Sublist (concat w.groups) (w.current ++ contents p.system.logger.entries) _ all,
    )

-- In every history of the program from its start, whatever P-Net, the file system and the order of the
-- tasks' steps, if P-Net fills its buffers with bytes and headers are written whole or not at all: a
-- finished log file is a header, entries and an end mark, and the entries of the finished files, one
-- after the other, are, in order, some of those that the sampling makes of what was read of the
-- process data.
pub closed-sampled :
    (h : Host) (net : Bool) (max_ar : ℕ) (arg : AlarmArgument) (module_answers : PlugAnswers)
    (answers : ℕ → PlugAnswers) (ports : ℕ) (ms : List Move) {q : Program}
    → All IsRegularMove ms
    → run h (begun (started net max_ar arg module_answers answers ports)) ms ≡ some q
    → (groups : List (List (List ℕ))) × (q.system.thread.closed ≡ map whole groups)
      × Sublist (concat groups) (encode_all true (Cyclic.run Cyclic.initial q.reads).1)
unfolding started
closed-sampled h net max_ar arg module_answers answers ports ms {q} w e =
    let v = started-IsSoundApp net max_ar arg module_answers answers ports in
    closed_files q (
      run-IsSoundProgram h (begun (started net max_ar arg module_answers answers ports)) ms
        (begun-IsSoundProgram (started net max_ar arg module_answers answers ports) v refl) w e)
