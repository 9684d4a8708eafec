-- ===== src/FileLogger/Thread/Locks/Serial.antt =====
-- The threads at the mutex behave as in a history of whole passes.
use pnet2csv.Common.{
  ℕ, ◌≡◌, refl, sym, ap, ap₂, Bool, subst, ◌∙◌, inl, inr, List, [], ◌∷◌, ◌++◌, true, false, Option,
  none, some, length, All, >>=-eq-some, Bool-cases, ◌==◌, ==→ne, ne→==,
}
use pnet2csv.Host.{Host}
use pnet2csv.FileLogger.Entry.{Dtl, IsDtl, var64_size, same_log}
use pnet2csv.FileLogger.Buffer.Queue.{IsValid}
use pnet2csv.FileLogger.Thread.{
  RotateAnswers, System, Event, add, drain, flush, rotate, step, run, initial,
}
use pnet2csv.FileLogger.Thread.Rotate.{some_injective}
use pnet2csv.FileLogger.Thread.Stream.{IsSound, IsRegular, HeadersWhole}
use pnet2csv.FileLogger.Thread.Invariant.{run-IsSound, initial-IsSound}
use pnet2csv.FileLogger.Thread.Locks.{
  Phase, between, changing, Locked, Action, call, look, change, write, copy_from, with_pass,
  look_at, act_between, act_changing, act, act_all, unlocked,
}
use pnet2csv.FileLogger.Thread.Locks.Halves.{
  Knows, IsAt, copy_from-start, call-Knows, oldest_ts, drain-same_log, drain-another_log,
  look_at-same_log, look_at-another_log,
}

-- Calls with values of the C types and all 128 bytes, and headers that are written whole or not at all.
abbrev pub IsRegularAction : Action → Type 0
IsRegularAction (call created t words) = IsDtl t × (length words ≡ var64_size)
IsRegularAction (look stale) = Unit {0}
IsRegularAction (change a) = HeadersWhole a.starts
IsRegularAction (write answers) = Unit {0}

-- The calls of `addLogEntry`, in order.
abbrev pub event_calls : List Event → List (Bool × Dtl × List ℕ)
event_calls [] = []
event_calls (add created t words ∷ es) = (created, t, words) ∷ event_calls es
event_calls (drain a stale ∷ es) = event_calls es
event_calls (flush answers ∷ es) = event_calls es

abbrev pub action_calls : List Action → List (Bool × Dtl × List ℕ)
action_calls [] = []
action_calls (call created t words ∷ xs) = (created, t, words) ∷ action_calls xs
action_calls (look stale ∷ xs) = action_calls xs
action_calls (change a ∷ xs) = action_calls xs
action_calls (write answers ∷ xs) = action_calls xs

-- A history of whole passes with these calls and the same effect.
abbrev pub IsSerial : Host → System → List (Bool × Dtl × List ℕ) → Locked → Type 0
IsSerial h s calls l =
    (es : List Event) × All IsRegular es
    × (run h s es ≡ some l.system)
    × IsAt h l.system l.phase
    × (event_calls es ≡ calls)

-- One event.
one_event :
    (h : Host) (s u : System) (e : Event) (p : Phase)
    → IsRegular e
    → step h s e ≡ some u
    → IsAt h u p
    → IsSerial h s (event_calls (e ∷ [])) (record { system = u; phase = p })
unfolding run
one_event h s u e p w q at = (e ∷ [], (w, tt), rw q refl, at, refl)

-- No answers: what a pass that changes no files is given.
abbrev no_answers : RotateAnswers
no_answers = record {
  finish = record { writes = []; syncs = []; close = true };
  space = none;
  starts = [];
}

abbrev at_phase : Phase → System → Option Locked
at_phase p u = some (record { system = u; phase = p })

look-IsSerial :
    (h : Host) (s : System) (stale : Dtl)
    → IsValid s.logger.entries
    → s.logger.entries.start == s.logger.entries.end ≡ false
    → IsSerial h s [] (look_at h stale s)
unfolding run
look-IsSerial h s stale v more =
    elim (Bool-cases (same_log s.thread.log_start (oldest_ts h s v stale))) [
      | inl same ↦ subst (IsSerial h s []) (sym (look_at-same_log h s v stale same)) (
          one_event h s _ (drain no_answers stale) between tt
            (drain-same_log h s v no_answers stale more same) tt)
      | inr other ↦ subst (IsSerial h s []) (sym (look_at-another_log h s v stale other)) (
        [],
        tt,
        refl,
        record {
          nonempty = ==→ne _ _ more;
          same_entry = refl;
          stale = stale;
          same_ts = refl;
          another_log = other;
        },
        refl,
      )
    ]

between-IsSerial :
    (h : Host) (s : System) (x : Action) {l : Locked}
    → IsSound true s
    → IsRegularAction x
    → act_between h s x ≡ some l
    → IsSerial h s (action_calls (x ∷ [])) l
unfolding act_between run
between-IsSerial h s (call created t words) {l} v w e =
    let (u, e1, f1) = >>=-eq-some (step h s (add created t words)) (at_phase between) e in
    subst (IsSerial h s ((created, t, words) ∷ [])) (some_injective f1)
      (one_event h s u (add created t words) between w e1 tt)
between-IsSerial h s (look stale) {l} v w e =
    elim (Bool-cases (s.logger.entries.start == s.logger.entries.end)) [
      | inl empty ↦
          subst (IsSerial h s []) (some_injective (rw empty at e)) ([], tt, refl, tt, refl)
      | inr more ↦
          subst (IsSerial h s []) (some_injective (rw more at e))
            (look-IsSerial h s stale v.valid more)
    ]
between-IsSerial h s (change a) {l} v w e = absurd (cc e)
between-IsSerial h s (write answers) {l} v w e =
    let (u, e1, f1) = >>=-eq-some (step h s (flush answers)) (at_phase between) e in
    subst (IsSerial h s []) (some_injective f1) (one_event h s u (flush answers) between w e1 tt)

changing-IsSerial :
    (h : Host) (s : System) (entry_ts : Dtl) (entry : ℕ) (x : Action) {l : Locked}
    → IsSound true s
    → Knows h s entry_ts entry
    → IsRegularAction x
    → act_changing h s entry_ts entry x ≡ some l
    → IsSerial h s (action_calls (x ∷ [])) l
unfolding act_changing
changing-IsSerial h s entry_ts entry (call created t words) {l} v k (d, n) e =
    let (u, e1, f1) =
      >>=-eq-some (step h s (add created t words)) (at_phase (changing entry_ts entry)) e in
    subst (IsSerial h s ((created, t, words) ∷ [])) (some_injective f1) (
      one_event h s u (add created t words) (changing entry_ts entry) (d, n) e1
        (call-Knows h created s t words entry_ts entry v.valid d n k e1))
changing-IsSerial h s entry_ts entry (look stale) {l} v k w e = absurd (cc e)
changing-IsSerial h s entry_ts entry (change a) {l} v k w e =
    let (t, e1, f1) = >>=-eq-some (rotate a s.thread entry_ts) _ e in
    let more = ne→== s.logger.entries.start s.logger.entries.end k.nonempty in
    let passed =
      drain-another_log h s v.valid a k.stale t more (rw k.same_ts k.another_log)
        (rw k.same_ts e1) in
    let copied =
      ap (λ n. copy_from n t s.logger.entries) k.same_entry ∙ copy_from-start t s.logger.entries in
    subst (IsSerial h s [])
      (ap (λ r. record { system = with_pass s r; phase = between }) (sym copied)
        ∙ some_injective f1)
      (one_event h s _ (drain a k.stale) between w passed tt)
changing-IsSerial h s entry_ts entry (write answers) {l} v k w e = absurd (cc e)

pub act-IsSerial :
    (h : Host) (l : Locked) (x : Action) {m : Locked}
    → IsSound true l.system
    → IsAt h l.system l.phase
    → IsRegularAction x
    → act h l x ≡ some m
    → IsSerial h l.system (action_calls (x ∷ [])) m
unfolding act
act-IsSerial h l x {m} v at w e = by_phase l.phase at e
  where
    by_phase :
        (p : Phase)
        → IsAt h l.system p
        → elim p [
          | between ↦ act_between h l.system x
          | changing entry_ts entry ↦ act_changing h l.system entry_ts entry x
        ]
          ≡ some m
        → IsSerial h l.system (action_calls (x ∷ [])) m
    by_phase between at q = between-IsSerial h l.system x v w q
    by_phase (changing entry_ts entry) at q = changing-IsSerial h l.system entry_ts entry x v at w q

run-append :
    (h : Host) (s : System) (es fs : List Event) {u : System}
    → run h s es ≡ some u
    → run h s (es ++ fs) ≡ run h u fs
unfolding run
run-append h s [] fs e = ap (λ x. run h x fs) (some_injective e)
run-append h s (x ∷ es) fs e =
    let (t, e1, f1) = >>=-eq-some (step h s x) (λ t. run h t es) e in
    rw e1 (run-append h t es fs f1)

All-append : (xs ys : List Event) → All IsRegular xs → All IsRegular ys → All IsRegular (xs ++ ys)
All-append [] ys h k = k
All-append (x ∷ xs) ys (p, h) k = (p, All-append xs ys h k)

event_calls-append :
    (es fs : List Event) → event_calls (es ++ fs) ≡ event_calls es ++ event_calls fs
event_calls-append [] fs = refl
event_calls-append (add created t words ∷ es) fs =
    ap (◌∷◌ (created, t, words)) (event_calls-append es fs)
event_calls-append (drain a stale ∷ es) fs = event_calls-append es fs
event_calls-append (flush answers ∷ es) fs = event_calls-append es fs

action_calls_first :
    (x : Action) (xs : List Action)
    → action_calls (x ∷ xs) ≡ action_calls (x ∷ []) ++ action_calls xs
action_calls_first (call created t words) xs = refl
action_calls_first (look stale) xs = refl
action_calls_first (change a) xs = refl
action_calls_first (write answers) xs = refl

act_all-IsSerial :
    (h : Host) (l : Locked) (xs : List Action) {m : Locked}
    → IsSound true l.system
    → IsAt h l.system l.phase
    → All IsRegularAction xs
    → act_all h l xs ≡ some m
    → IsSerial h l.system (action_calls xs) m
unfolding act_all run
act_all-IsSerial h l [] v at w e =
    subst (IsSerial h l.system []) (some_injective e) ([], tt, refl, at, refl)
act_all-IsSerial h l (x ∷ xs) {m} v at (w, ws) e =
    let (l', e1, f1) = >>=-eq-some (act h l x) (λ t. act_all h t xs) e in
    let (es, ok1, r1, at1, c1) = act-IsSerial h l x v at w e1 in
    let v' = run-IsSound h true l.system es v ok1 r1 in
    let (fs, ok2, r2, at2, c2) = act_all-IsSerial h l' xs v' at1 ws f1 in
    (
      es ++ fs,
      All-append es fs ok1 ok2,
      run-append h l.system es fs r1 ∙ r2,
      at2,
      event_calls-append es fs ∙ ap₂ (λ a b. a ++ b) c1 c2 ∙ sym (action_calls_first x xs),
    )

-- Whatever the threads do at the mutex from the start of the program, calls of `addLogEntry` that come while
-- the logging thread changes files included, there is a history of whole passes and writes with the same
-- calls in the same order that leaves the same system; so both threads are sound after it. While the
-- logging thread is without the mutex, the offset and the timestamp that it has are those of the oldest
-- entry in the ring.
pub act_all-serial :
    (h : Host) (xs : List Action) {l : Locked}
    → All IsRegularAction xs
    → act_all h unlocked xs ≡ some l
    → ((es : List Event) × All IsRegular es
        × (run h initial es ≡ some l.system)
        × (event_calls es ≡ action_calls xs))
      × IsSound true l.system
      × IsAt h l.system l.phase
act_all-serial h xs {l} w e =
    let (es, regular, same, at, calls) = act_all-IsSerial h unlocked xs initial-IsSound tt w e in
    ((es, regular, same, calls), run-IsSound h true initial es initial-IsSound regular same, at)
