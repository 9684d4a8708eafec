-- ===== src/FileLogger/Thread/Invariant.antt =====
-- The invariant of both threads over every history.
use pnet2csv.Common.{
  ℕ, ◌≡◌, refl, sym, ap, subst, ◌∙◌, inl, inr, List, [], ◌∷◌, ◌++◌, append_assoc, Bool, true, some,
  arith, length, >>=-eq-some, Bool-cases, ReturnCode, ==→eq, ==→ne, ◌==◌, All,
}
use pnet2csv.Host.{Host}
use pnet2csv.FileLogger.Entry.{Dtl, IsDtl, var64_size}
use pnet2csv.FileLogger.Entry.Codec.{encode}
use pnet2csv.FileLogger.Buffer.{Logger, add_log_entry}
use pnet2csv.FileLogger.Buffer.Queue.{
  IsValid, contents, window, push, add_log_entry_refines, add_log_entry_uninitialised,
  add_log_entry-IsValid, add_log_entry-bigendian,
}
use pnet2csv.FileLogger.Thread.{
  System, Event, add, drain, flush, drain_entry, flush_buffer, step, run, record_accepted, initial,
}
use pnet2csv.FileLogger.Thread.Rotate.{Holds, some_injective}
use pnet2csv.FileLogger.Thread.Conserve.{drain_entry-Kept, flush_buffer-Holds}
use pnet2csv.FileLogger.Thread.Stream.{concat, map_snoc, encode_all, IsSound, IsRegular}

-- A call that is accepted adds its entry at the end; one that is not changes nothing.
pushed :
    (big : Bool) (t : Dtl) (words : List ℕ) (q q' : List (List ℕ)) (code : ReturnCode)
    (past : List (Dtl × List ℕ)) (before : List (List ℕ))
    → (q', code) ≡ push q (encode big t words)
    → before ++ q ≡ encode_all big past
    → before ++ q' ≡ encode_all big (record_accepted code t words past)
unfolding push
pushed big t words q q' code past before e all = elim (Bool-cases (length q == 255)) [
  | inl full ↦ subst Extends (sym (rw full at e)) all
  | inr room ↦ subst Extends (sym (rw room at e)) (
      sym (append_assoc before q (encode big t words ∷ []))
      ∙ ap (λ x. x ++ encode big t words ∷ []) all
      ∙ sym (map_snoc (λ c. encode big c.0 c.1) past (t, words)))
]
  where
    Extends : List (List ℕ) × ReturnCode → Type 0
    Extends p = before ++ p.0 ≡ encode_all big (record_accepted p.1 t words past)

-- The call of `addLogEntry`, on both outcomes.
added :
    (h : Host) (big created : Bool) (l : Logger) (t : Dtl) (words : List ℕ)
    (past : List (Dtl × List ℕ)) (before : List (List ℕ))
    → l.bigendian ≡ big
    → IsValid l.entries
    → IsDtl t
    → length words ≡ var64_size
    → before ++ contents l.entries ≡ encode_all big past
    → let (l', code) = add_log_entry h created l t words 64 in
      before ++ contents l'.entries ≡ encode_all big (record_accepted code t words past)
added h big created l t words past before o v d n all = elim (Bool-cases (t.year == 0)) [
  | inl zero_year ↦
      let (same, _, _, code) =
        add_log_entry_uninitialised h created l t words 64 (==→eq t.year 0 zero_year) in
      rw code (ap (λ b. before ++ contents b) same ∙ all)
  | inr year ↦
      pushed big t words (contents l.entries) _ _ past before
        (add_log_entry_refines h created l t words v d n (==→ne t.year 0 year)
          ∙ ap (λ o. push (contents l.entries) (encode o t words)) o)
        all
]

holds : {big : Bool} {s : System} (v : IsSound big s) → Holds s.thread v.groups v.current
holds v = record { closed_files = v.closed_files; open_file = v.open_file; room = v.room }

-- Every step of a regular history keeps the invariant.
pub step-IsSound :
    (h : Host) (big : Bool) (s : System) (e : Event) {u : System}
    → IsSound big s
    → IsRegular e
    → step h s e ≡ some u
    → IsSound big u
unfolding step
step-IsSound h big s (add created t words) {u} v (d, n) e =
    subst (IsSound big) (some_injective e) (record {
      groups = v.groups;
      current = v.current;
      order = add_log_entry-bigendian h created s.logger t words 64 ∙ v.order;
      valid = add_log_entry-IsValid h created s.logger t words 64 v.valid;
      room = v.room;
      closed_files = v.closed_files;
      open_file = v.open_file;
      complete =
          sym (append_assoc (concat v.groups) v.current _)
          ∙ added h big created s.logger t words s.accepted (concat v.groups ++ v.current) v.order
              v.valid d n (append_assoc (concat v.groups) v.current _ ∙ v.complete);
    })
step-IsSound h big s (drain a stale) {u} v w e =
    elim (Bool-cases (s.logger.entries.start == s.logger.entries.end)) [
      | inl empty ↦ subst (IsSound big) (some_injective (rw empty at e)) v
      | inr more ↦
          let ((t, b, go_on), e1, f1) =
            >>=-eq-some (drain_entry h s.logger.bigendian a stale s.thread s.logger.entries) _
              (rw more at e) in
          let (done, now, held, valid, all) =
            drain_entry-Kept h s.logger.bigendian a stale s.thread s.logger.entries v.groups
              v.current v.valid (==→ne _ _ more) (holds v) w e1 in
          subst (IsSound big) (some_injective f1) (record {
            groups = done;
            current = now;
            order = v.order;
            valid = valid;
            room = held.room;
            closed_files = held.closed_files;
            open_file = held.open_file;
            complete = all ∙ v.complete;
          })
    ]
step-IsSound h big s (flush answers) {u} v w e =
    let (t, e1, f1) = >>=-eq-some (flush_buffer answers s.thread) _ e in
    let held = flush_buffer-Holds answers s.thread v.groups v.current (holds v) e1 in
    subst (IsSound big) (some_injective f1) (record {
      groups = v.groups;
      current = v.current;
      order = v.order;
      valid = v.valid;
      room = held.room;
      closed_files = held.closed_files;
      open_file = held.open_file;
      complete = v.complete;
    })

pub run-IsSound :
    (h : Host) (big : Bool) (s : System) (es : List Event) {u : System}
    → IsSound big s
    → All IsRegular es
    → run h s es ≡ some u
    → IsSound big u
unfolding run
run-IsSound h big s [] v w e = subst (IsSound big) (some_injective e) v
run-IsSound h big s (x ∷ es) v (w, ws) e =
    let (t, e1, f1) = >>=-eq-some (step h s x) _ e in
    run-IsSound h big t es (step-IsSound h big s x v w e1) ws f1

pub initial-IsSound : IsSound true initial
unfolding concat contents window
initial-IsSound = record {
  groups = [];
  current = [];
  order = refl;
  valid = omega arith;
  room = omega arith;
  closed_files = refl;
  open_file = refl;
  complete = refl;
}

-- After any regular history of the program that has not stopped to ask the system for more answers,
-- each entry that `addLogEntry` accepted stands, once and in order, behind the header of a file that was
-- finished, removed since or not, of the current file with its buffer, or in the entry buffer, and both buffers keep within
-- their bounds.
pub run-initial-IsSound :
    (h : Host) (es : List Event) {u : System}
    → All IsRegular es
    → run h initial es ≡ some u
    → IsSound true u
run-initial-IsSound h es w e = run-IsSound h true initial es initial-IsSound w e
