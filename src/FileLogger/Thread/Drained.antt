-- ===== src/FileLogger/Thread/Drained.antt =====
-- The entry buffer runs dry: rounds of the logging thread return and move all entries to the files, with
-- an operating system that does not fail for ever.
use pnet2csv.Common.{
  ℕ, ◌+◌, ◌-◌, ◌*◌, ◌≤◌, ◌<◌, ◌≡◌, refl, sym, ap, ◌∙◌, ◌⊎◌, inl, inr, List, [], ◌∷◌, ◌++◌, map,
  append-nil, true, none, some, arith, length, All,
}
use pnet2csv.Host.{Host}
use pnet2csv.FileLogger.Entry.{Dtl, entry_size}
use pnet2csv.FileLogger.Buffer.Queue.{contents}
use pnet2csv.FileLogger.File.{file_buffer_size, file_min_write}
use pnet2csv.FileLogger.File.Writes.{progress}
use pnet2csv.FileLogger.Thread.{Thread, System, Event, flush, flush_buffer, step, run, initial}
use pnet2csv.FileLogger.Thread.Rounds.{ThreadAnswers, thread_round, thread_rounds}
use pnet2csv.FileLogger.Thread.{on_disk, remaining}
use pnet2csv.FileLogger.Thread.Removed.{map-remaining}
use pnet2csv.Common.{Bool, ◌≤◌}
use pnet2csv.FileLogger.Thread.Stream.{whole, concat, encode_all, IsOpen, IsSound, IsRegular}
use pnet2csv.FileLogger.Thread.Invariant.{step-IsSound, run-IsSound, initial-IsSound}
use pnet2csv.FileLogger.Thread.Dated.{IsDated, step-IsDated, run-IsDated, initial-IsDated}
use pnet2csv.FileLogger.Thread.Progress.{Fits, flush_buffer_total}
use pnet2csv.FileLogger.Thread.Passes.{IsPatientRound, Keeps, IsLess, length-contents_le}
use pnet2csv.FileLogger.Thread.Loops.{inner_loop_total}

-- The write after the inner loop leaves less than FILE_MIN_WRITE bytes.
abbrev IsWritten : System → Type 0
IsWritten u = (u.thread.log.fd ≡ none) ⊎ (length u.thread.log.buffer < file_min_write)

IsWritten-Fits : (u : System) → IsWritten u → Fits file_min_write u.thread
IsWritten-Fits u (inl shut) = inl shut
IsWritten-Fits u (inr short) = inr (omega (arith, short))

flush_total :
    (h : Host) (a : ThreadAnswers) (s : System)
    → Keeps s.accepted s
    → file_buffer_size ≤ progress a.writes
    → (t : Thread) × (flush_buffer a.writes s.thread ≡ some t)
      × Keeps s.accepted (record s { thread = t })
      × IsWritten (record s { thread = t })
unfolding step
flush_total h a s keeps enough =
    let (t, e, same_fd, _, short, _) =
      flush_buffer_total a.writes s.thread (omega (arith, enough, keeps.sound.room)) in
    let u : System = record s { thread = t } in
    let stepped : step h s (flush a.writes) ≡ some u = rw e refl in
    (
      t,
      e,
      record {
        sound = step-IsSound h true s (flush a.writes) keeps.sound tt stepped;
        dated = step-IsDated h s (flush a.writes) keeps.dated tt stepped;
        same_accepted = refl;
      },
      elim short [ inl shut ↦ inl (same_fd ∙ shut) | inr fits ↦ inr fits ],
    )

-- A round returns, and takes as many entries as the file buffer was sure to have room for.
thread_round_total :
    (h : Host) (a : ThreadAnswers) (s : System) (limit k : ℕ)
    → Keeps s.accepted s
    → IsPatientRound a
    → 8 ≤ limit
    → Fits limit s.thread
    → limit + (entry_size + 1) * k < file_buffer_size
    → (u : System) × (thread_round h a s ≡ some u)
      × Keeps s.accepted u
      × IsWritten u
      × IsLess k (length (contents s.logger.entries)) u
unfolding thread_round
thread_round_total h a s limit k keeps p eight fits room =
    let b = s.logger.entries in
    let (s', e1, kept, less) =
      inner_loop_total h a.passes s limit k keeps eight fits room
        (omega (arith, length-contents_le b, p.enough)) p.patient in
    let own : Keeps s'.accepted s' = record {
      sound = kept.sound;
      dated = kept.dated;
      same_accepted = refl;
    } in
    let (t, e2, kept', written) = flush_total h a s' own p.writes_on in
    (
      record s' { thread = t },
      rw e1 (rw e2 refl),
      record {
        sound = kept'.sound;
        dated = kept'.dated;
        same_accepted = kept'.same_accepted ∙ kept.same_accepted;
      },
      written,
      less,
    )

own_Keeps : {accepted : List (Dtl × List ℕ)} (u : System) → Keeps accepted u → Keeps u.accepted u
own_Keeps u k = record { sound = k.sound; dated = k.dated; same_accepted = refl }

-- The third round finds at most 52 entries.
third-IsLess :
    (s u w : System)
    → IsLess 203 (length (contents s.logger.entries)) u
    → IsLess 203 (length (contents u.logger.entries)) w
    → contents w.logger.entries ≡ []
third-IsLess s u w first (inl empty) = empty
third-IsLess s u w (inl empty) (inr less) = absurd (omega (arith, less, ap length empty))
third-IsLess s u w (inr fewer) (inr less) =
    absurd (omega (arith, less, fewer, length-contents_le s.logger.entries))

three_rounds :
    (h : Host) (a b c : ThreadAnswers) (s : System)
    → Keeps s.accepted s
    → IsPatientRound a
    → IsPatientRound b
    → IsPatientRound c
    → (u : System) × (thread_rounds h (a ∷ b ∷ c ∷ []) s ≡ some u)
      × Keeps s.accepted u
      × IsWritten u
      × (contents u.logger.entries ≡ [])
unfolding thread_rounds
three_rounds h a b c s keeps pa pb pc =
    let (s1, e1, k1, w1, _) =
      thread_round_total h a s (file_buffer_size - 1) 0 keeps pa (omega arith)
        (inr (omega (arith, keeps.sound.room))) (omega arith) in
    let (s2, e2, k2, w2, l2) =
      thread_round_total h b s1 file_min_write 203 (own_Keeps s1 k1) pb (omega arith)
        (IsWritten-Fits s1 w1) (omega arith) in
    let (s3, e3, k3, w3, l3) =
      thread_round_total h c s2 file_min_write 203 (own_Keeps s2 k2) pc (omega arith)
        (IsWritten-Fits s2 w2) (omega arith) in
    (
      s3,
      rw e1 (rw e2 (rw e3 refl)),
      record {
        sound = k3.sound;
        dated = k3.dated;
        same_accepted = k3.same_accepted ∙ k2.same_accepted ∙ k1.same_accepted;
      },
      w3,
      third-IsLess s1 s2 s3 l2 l3,
    )

-- What three rounds leave, from any sound and dated system.
abbrev pub Drains : Host → List ThreadAnswers → System → Type 0
Drains h answers s =
    (u : System) × (thread_rounds h answers s ≡ some u)
    × (contents u.logger.entries ≡ [])
    × ((groups : List (List (List ℕ))) × (current : List (List ℕ)) × (u.thread.closed
          ≡ map whole groups)
        × IsOpen u.thread.log.fd (u.thread.file ++ u.thread.log.buffer) current
        × (concat groups ++ current ≡ encode_all true s.accepted))
    × ((u.thread.log.fd ≡ none) ⊎ (length u.thread.log.buffer < file_min_write))

pub drained :
    (h : Host) (a b c : ThreadAnswers) (s : System)
    → IsSound true s
    → IsDated s
    → IsPatientRound a
    → IsPatientRound b
    → IsPatientRound c
    → Drains h (a ∷ b ∷ c ∷ []) s
drained h a b c s sound dated pa pb pc =
    let keeps : Keeps s.accepted s = record {
      sound = sound;
      dated = dated;
      same_accepted = refl;
    } in
    let (u, returns, k, written, empty) = three_rounds h a b c s keeps pa pb pc in
    let v = k.sound in
    (
      u,
      returns,
      empty,
      (
        v.groups,
        v.current,
        v.closed_files,
        v.open_file,
        ap (◌++◌ (concat v.groups))
              (sym (append-nil v.current) ∙ ap (λ l. v.current ++ l) (sym empty))
            ∙ v.complete
            ∙ ap (encode_all true) k.same_accepted,
      ),
      written,
    )

-- After any regular history from the start of the program with at most one logging thread, three
-- rounds of that thread return, for every answer of the system in which the writes get on, the
-- synchronisations of old files end, and the starts succeed in the end, with headers that are
-- written whole or not at all. They leave the entry buffer empty: every entry that was accepted was
-- written, once and in order, to a file that was finished or to the current one with its buffer, of
-- which less than FILE_MIN_WRITE bytes are still to be written; and, whichever files the calls of
-- deleteOldest removed, the finished files that are left hold exactly their entries.
pub thread_rounds_drain :
    (h : Host) (es : List Event) (a b c : ThreadAnswers) (removes : ℕ → ℕ → Bool) {s : System}
    → All IsRegular es
    → run h initial es ≡ some s
    → s.logger.threads ≤ 1
    → IsPatientRound a
    → IsPatientRound b
    → IsPatientRound c
    → (u : System) × (thread_rounds h (a ∷ b ∷ c ∷ []) s ≡ some u)
      × (contents u.logger.entries ≡ [])
      × ((groups : List (List (List ℕ))) × (current : List (List ℕ)) × (on_disk removes u.thread
            ≡ map whole (remaining removes u.thread.clears 0 groups))
          × IsOpen u.thread.log.fd (u.thread.file ++ u.thread.log.buffer) current
          × (concat groups ++ current ≡ encode_all true s.accepted))
      × ((u.thread.log.fd ≡ none) ⊎ (length u.thread.log.buffer < file_min_write))
unfolding on_disk
thread_rounds_drain h es a b c removes {s} w e one_thread pa pb pc =
    let (u, returns, empty, (groups, current, closed, open_file, entries), written) =
      drained h a b c s (run-IsSound h true initial es initial-IsSound w e)
        (run-IsDated h initial es initial-IsDated w e) pa pb pc in
    (
      u,
      returns,
      empty,
      (
        groups,
        current,
        ap (remaining removes u.thread.clears 0) closed
            ∙ sym (map-remaining whole removes u.thread.clears 0 groups),
        open_file,
        entries,
      ),
      written,
    )
