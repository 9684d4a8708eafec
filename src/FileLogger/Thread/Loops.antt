-- ===== src/FileLogger/Thread/Loops.antt =====
-- The inner loop of the logging thread returns, with an operating system that does not fail for ever.
use pnet2csv.Common.{
  ℕ, zero, suc, ◌+◌, ◌-◌, ◌*◌, ◌%◌, ◌≤◌, ◌<◌, ◌≡◌, ◌≢◌, refl, sym, ap, subst, ◌∙◌, inl, inr, List,
  [], ◌∷◌, Bool, true, false, some, arith, length, Bool-cases, ◌==◌, ==→eq, ==→ne, All,
}
use pnet2csv.Host.{Host}
use pnet2csv.FileLogger.Entry.{entry_size, entry_buffer_size}
use pnet2csv.FileLogger.Buffer.{EntryBuffer}
use pnet2csv.FileLogger.Buffer.Queue.{IsValid, contents, contents-pop}
use pnet2csv.FileLogger.File.{file_buffer_size}
use pnet2csv.FileLogger.Thread.{Thread, System, drain_entry}
use pnet2csv.FileLogger.Thread.Rounds.{PassAnswers, inner_loop}
use pnet2csv.FileLogger.Thread.Stream.{IsSound}
use pnet2csv.FileLogger.Thread.Progress.{Fits}
use pnet2csv.FileLogger.Thread.Passes.{
  IsPatient, Keeps, IsLess, contents-empty, passed, drain_once_total,
}

module _ (h : Host) (p : PassAnswers) (ps : List PassAnswers) (s : System)
    (more : s.logger.entries.start == s.logger.entries.end ≡ false)
    (r : Thread × EntryBuffer × Bool)
    (e : drain_entry h s.logger.bigendian p.rotates p.stale s.thread s.logger.entries
      ≡ some r) where
  loop_on :
      {u : System}
      → r.2 ≡ true
      → inner_loop h ps (passed s r) ≡ some u
      → inner_loop h (p ∷ ps) s ≡ some u
  unfolding inner_loop
  loop_on on rest = rw (more, inner_loop) (rw e (rw on rest))

  loop_ends : r.2 ≡ false → inner_loop h (p ∷ ps) s ≡ some (passed s r)
  unfolding inner_loop
  loop_ends off = rw (more, inner_loop) (rw e (rw off refl))

-- The ring has one entry less.
length-pop :
    (b b' : EntryBuffer)
    → IsValid b
    → b.start ≢ b.end
    → b' ≡ record b { start = (b.start + entry_size) % entry_buffer_size }
    → length (contents b) ≡ suc (length (contents b'))
length-pop b b' v ne e =
    ap length (contents-pop b v ne) ∙ ap (λ x. suc (length (contents x))) (sym e)

IsLess-trans : (k n m : ℕ) (u : System) → m ≤ n → IsLess k m u → IsLess k n u
IsLess-trans k n m u le (inl empty) = inl empty
IsLess-trans k n m u le (inr less) = inr (omega (arith, less))

IsLess-suc : (k m : ℕ) (u : System) → IsLess k m u → IsLess (suc k) (suc m) u
IsLess-suc k m u (inl empty) = inl empty
IsLess-suc k m u (inr less) = inr (omega (arith, less))

-- What is left of the inner loop when a pass went on, or gave up.
abbrev pub Ends : Host → List PassAnswers → ℕ → System → Type 0
Ends h ps k s =
    (u : System) × (inner_loop h ps s ≡ some u)
    × Keeps s.accepted u
    × IsLess k (length (contents s.logger.entries)) u

-- The file buffer's size is a limit in any case.
limit_of : ℕ → ℕ → ℕ
limit_of zero limit = file_buffer_size - 1
limit_of (suc k) limit = limit + (entry_size + 1)

pred_of : ℕ → ℕ
pred_of zero = zero
pred_of (suc k) = k

limit_of-le : (k limit : ℕ) → 8 ≤ limit → 8 ≤ limit_of k limit
unfolding limit_of
limit_of-le zero limit h = omega arith
limit_of-le (suc k) limit h = omega arith

limit_of-Fits :
    (k limit : ℕ) (t : Thread)
    → length t.log.buffer ≤ limit + (entry_size + 1)
    → length t.log.buffer < file_buffer_size
    → Fits (limit_of k limit) t
unfolding limit_of
limit_of-Fits zero limit t short room = inr (omega (arith, room))
limit_of-Fits (suc k) limit t short room = inr short

limit_of-room :
    (k limit : ℕ)
    → limit + (entry_size + 1) * k < file_buffer_size
    → limit_of k limit + (entry_size + 1) * pred_of k < file_buffer_size
unfolding limit_of pred_of
limit_of-room zero limit h = omega arith
limit_of-room (suc k) limit h = omega arith

went_on-Ends :
    (h : Host) (p : PassAnswers) (ps : List PassAnswers) (s : System) (k : ℕ)
    (r : Thread × EntryBuffer × Bool)
    → IsSound true s
    → s.logger.entries.start == s.logger.entries.end ≡ false
    → drain_entry h s.logger.bigendian p.rotates p.stale s.thread s.logger.entries ≡ some r
    → r.2 ≡ true
    → r.1 ≡ record (s.logger.entries) {
      start = (s.logger.entries.start + entry_size) % entry_buffer_size;
    }
    → Ends h ps (pred_of k) (passed s r)
    → Ends h (p ∷ ps) k s
unfolding pred_of
went_on-Ends h p ps s zero r v more e on taken (u, returns, keeps, less) = (
  u,
  loop_on h p ps s more r e on returns,
  keeps,
  IsLess-trans 0 _ _ u
      (omega (arith, length-pop s.logger.entries r.1 v.valid (==→ne _ _ more) taken)) less,
)
went_on-Ends h p ps s (suc k) r v more e on taken (u, returns, keeps, less) = (
  u,
  loop_on h p ps s more r e on returns,
  keeps,
  subst (λ n. IsLess (suc k) n u)
      (sym (length-pop s.logger.entries r.1 v.valid (==→ne _ _ more) taken))
      (IsLess-suc k _ u less),
)

-- A pass gives up only where no room was sure.
gave_up-Ends :
    (h : Host) (p : PassAnswers) (ps : List PassAnswers) (s : System) (limit k : ℕ)
    (r : Thread × EntryBuffer × Bool)
    → limit + (entry_size + 1) * k < file_buffer_size
    → s.logger.entries.start == s.logger.entries.end ≡ false
    → drain_entry h s.logger.bigendian p.rotates p.stale s.thread s.logger.entries ≡ some r
    → r.2 ≡ false
    → (r.1 ≡ s.logger.entries) × (file_buffer_size ≤ limit + (entry_size + 1))
    → Keeps s.accepted (passed s r)
    → Ends h (p ∷ ps) k s
gave_up-Ends h p ps s limit zero r room more e off (same, full) keeps = (
  passed s r,
  loop_ends h p ps s more r e off,
  keeps,
  inr (omega (arith, ap (λ b. length (contents b)) same)),
)
gave_up-Ends h p ps s limit (suc k) r room more e off (same, full) keeps =
    absurd (omega (arith, room, full))

-- The inner loop returns. It has taken as many entries as the file buffer was sure to have room for, or
-- all of them.
pub inner_loop_total :
    (h : Host) (ps : List PassAnswers) (s : System) (limit k : ℕ)
    → Keeps s.accepted s
    → 8 ≤ limit
    → Fits limit s.thread
    → limit + (entry_size + 1) * k < file_buffer_size
    → length (contents s.logger.entries) ≤ length ps
    → All IsPatient ps
    → Ends h ps k s
unfolding inner_loop limit_of pred_of
inner_loop_total h [] s limit k keeps eight fits room enough patient =
    let b = s.logger.entries in
    elim (Bool-cases (b.start == b.end)) [
      | inl empty ↦ (
        s,
        rw (empty, inner_loop) refl,
        keeps,
        inl (contents-empty b keeps.sound.valid (==→eq b.start b.end empty)),
      )
      | inr more ↦
          absurd (
            omega (arith, enough, length-pop b _ keeps.sound.valid (==→ne b.start b.end more) refl))
    ]
inner_loop_total h (p ∷ ps) s limit k keeps eight fits room enough (patient, all) =
    let b = s.logger.entries in
    elim (Bool-cases (b.start == b.end)) [
      | inl empty ↦ (
        s,
        rw (empty, inner_loop) refl,
        keeps,
        inl (contents-empty b keeps.sound.valid (==→eq b.start b.end empty)),
      )
      | inr more ↦
          let (r, e, pass, kept) = drain_once_total h p s limit keeps patient eight fits more in
          elim (Bool-cases r.2) [
            | inl on ↦
                let (taken, short) = pass.went_on on in
                went_on-Ends h p ps s k r keeps.sound more e on taken (
                  inner_loop_total h ps (passed s r) (limit_of k limit) (pred_of k) kept
                    (limit_of-le k limit eight) (limit_of-Fits k limit r.0 short kept.sound.room)
                    (limit_of-room k limit room)
                    (omega (
                      arith,
                      enough,
                      length-pop b r.1 keeps.sound.valid (==→ne b.start b.end more) taken,
                    ))
                    all)
            | inr off ↦ gave_up-Ends h p ps s limit k r room more e off (pass.gave_up off) kept
          ]
    ]
