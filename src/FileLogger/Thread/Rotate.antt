-- ===== src/FileLogger/Thread/Rotate.antt =====
-- A change of files closes the current file as a whole one and opens one that holds its header.
use pnet2csv.Common.{
  ℕ, ◌+◌, ◌<◌, ◌≡◌, refl, sym, ap, ap₂, subst, ◌∙◌, ◌⊎◌, inl, inr, List, [], ◌∷◌, ◌++◌, map,
  append_assoc, append-nil, true, Option, some, arith, length, length-append, >>=-eq-some,
  Option-cases, ReturnCode, ok, error, if◌then◌else◌,
}
use pnet2csv.FileLogger.Entry.{Dtl}
use pnet2csv.FileLogger.File.{
  log_header, LogFile, Started, StartAnswers, start_log_file, FinishAnswers, finish_log_file,
  file_buffer_size,
}
use pnet2csv.FileLogger.File.Start.{finish_log_file-file, start_log_file-header}
use pnet2csv.FileLogger.Thread.{
  Thread, RotateAnswers, start_until, finish_current, rotate, low_space,
}
use pnet2csv.FileLogger.Thread.Stream.{
  body, whole, concat, concat_snoc, map_snoc, IsOpen, HeadersWhole,
}

-- A round of the retry loop: it ends with this start, or goes on.
start_or_retry :
    (c : ReturnCode) (r s : Started) (rest : Option Started)
    → elim c [ ok ↦ some r | error ↦ rest ] ≡ some s
    → ((c ≡ ok) × (r ≡ s)) ⊎ (rest ≡ some s)
start_or_retry ok r s rest e = inl (refl, ground arith)
start_or_retry error r s rest e = inr e

-- What a start that succeeded at last leaves.
pub start_until-header :
    (answers : List StartAnswers) (log : LogFile) (file : List ℕ) (clears : ℕ) {s : Started}
    → HeadersWhole answers
    → start_until answers log file clears ≡ some s
    → (s.file ++ s.log.buffer ≡ log_header true) × ((fd : ℕ) × (s.log.fd ≡ some fd))
unfolding start_until
start_until-header [] log file clears w e = cc
start_until-header (a ∷ answers) log file clears {s} (w, ws) e =
    let (r, e1, f1) = >>=-eq-some (start_log_file a log file clears) _ e in
    elim (start_or_retry r.code r s (start_until answers r.log r.file r.clears) f1) [
      | inl (c, same) ↦
          start_log_file-header a log file clears (e1 ∙ ap some same) (rw (← same) c) w
      | inr again ↦ start_until-header answers r.log r.file r.clears ws again
    ]

-- The thread's part of the invariant.
pub record Holds (t : Thread) (groups : List (List (List ℕ))) (current : List (List ℕ))
    : Type 0 where
  pub closed_files : t.closed ≡ map whole groups
  pub open_file : IsOpen t.log.fd (t.file ++ t.log.buffer) current
  pub room : length t.log.buffer < file_buffer_size

pub some_injective {ℓ} : {A : Type ℓ} {x y : A} → some x ≡ some y → x ≡ y
some_injective e = cc

-- The file that `finishLogFile` leaves is a whole one.
finished-whole :
    (t : Thread) (fd : ℕ) (s : Started) (groups : List (List (List ℕ))) (current : List (List ℕ))
    → t.closed ≡ map whole groups
    → t.file ++ t.log.buffer ≡ log_header true ++ body current
    → s.file ≡ t.file ++ (t.log.buffer ++ 255 ∷ [])
    → t.closed ++ s.file ∷ [] ≡ map whole (groups ++ current ∷ [])
unfolding whole
finished-whole t fd s groups current c o e =
    ap₂ (λ x y. x ++ y ∷ []) c
      (e
        ∙ sym (append_assoc t.file t.log.buffer (255 ∷ []))
        ∙ ap (λ x. x ++ 255 ∷ []) o
        ∙ append_assoc (log_header true) (body current) (255 ∷ []))
    ∙ sym (map_snoc whole groups current)

finish_current-Holds :
    (a : FinishAnswers) (t : Thread) (groups : List (List (List ℕ))) (current : List (List ℕ))
    {u : Thread}
    → Holds t groups current
    → finish_current a t ≡ some u
    → (done : List (List (List ℕ))) × (u.closed ≡ map whole done)
      × (concat done ≡ concat groups ++ current)
unfolding finish_current
finish_current-Holds a t groups current {u} v e = elim (Option-cases t.log.fd) [
  | inl shut ↦ (
    groups,
    ap (λ x. x.closed) (sym (some_injective (rw (shut, finish_current) at e))) ∙ v.closed_files,
    sym (append-nil (concat groups)) ∙ ap (◌++◌ (concat groups)) (sym (rw shut at (v.open_file))),
  )
  | inr (fd, opened) ↦
      let (s, e1, f1) =
        >>=-eq-some (finish_log_file a true t.log t.file t.clears) _
          (rw (opened, finish_current) at e) in
      (
        groups ++ current ∷ [],
        ap (λ x. x.closed) (sym (some_injective f1))
            ∙ finished-whole t fd s groups current v.closed_files (rw opened at (v.open_file))
                (finish_log_file-file a true t.log t.file t.clears e1),
        concat_snoc groups current,
      )
]

-- A change of files that has come to its end.
rotated-Holds :
    (t' u : Thread) (s : Started) (ts : Dtl) (done : List (List (List ℕ))) (fd : ℕ)
    → t'.closed ≡ map whole done
    → s.file ++ s.log.buffer ≡ log_header true
    → s.log.fd ≡ some fd
    → some (record t' { log = s.log; log_start = ts; file = s.file; clears = s.clears }) ≡ some u
    → Holds u done []
unfolding body log_header
rotated-Holds t' u s ts done fd c h o e =
    subst (λ x. Holds x done []) (some_injective e)
      (record {
        closed_files = c;
        open_file = rw o (h ∙ sym (append-nil (log_header true)));
        room = omega (arith, ap length h, length-append s.file s.log.buffer);
      })

pub rotate-Holds :
    (a : RotateAnswers) (t : Thread) (ts : Dtl) (groups : List (List (List ℕ)))
    (current : List (List ℕ)) {u : Thread}
    → Holds t groups current
    → HeadersWhole a.starts
    → rotate a t ts ≡ some u
    → (done : List (List (List ℕ))) × Holds u done [] × (concat done ≡ concat groups ++ current)
unfolding rotate
rotate-Holds a t ts groups current {u} v w e =
    let (t', e1, f1) = >>=-eq-some (finish_current a.finish t) _ e in
    let clears : ℕ = if low_space a.space then t'.clears + 1 else t'.clears in
    let (s, e2, f2) = >>=-eq-some (start_until a.starts t'.log t'.file clears) _ f1 in
    let (done, closed, all) = finish_current-Holds a.finish t groups current v e1 in
    let (header, (fd, opened)) = start_until-header a.starts t'.log t'.file clears w e2 in
    (done, rotated-Holds t' u s ts done fd closed header opened f2, all)
