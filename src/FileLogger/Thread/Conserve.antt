-- ===== src/FileLogger/Thread/Conserve.antt =====
-- No accepted entry is lost, repeated or reordered on its way into the log files.
use pnet2csv.Common.{
  ℕ, ◌+◌, ◌%◌, ◌<◌, ◌≡◌, ◌≢◌, refl, sym, ap, subst, ◌∙◌, ◌⊎◌, inl, inr, List, [], ◌∷◌, ◌++◌,
  append_assoc, append-nil, Bool, true, false, some, arith, length, length-append, load_bytes,
  length-load_bytes, >>=-eq-some, Bool-cases, Option-cases, if◌then◌else◌, leb,
}
use pnet2csv.Host.{Host}
use pnet2csv.FileLogger.Entry.{Dtl, entry_size, entry_buffer_size, same_log, load_timestamp}
use pnet2csv.FileLogger.Buffer.{EntryBuffer}
use pnet2csv.FileLogger.Buffer.Queue.{IsValid, contents, contents-pop}
use pnet2csv.FileLogger.File.{
  log_header, file_buffer_size, file_min_write, Output, write_buffer, WriteAnswer,
}
use pnet2csv.FileLogger.File.Writes.{write_while_lem}
use pnet2csv.FileLogger.Thread.{
  Thread, RotateAnswers, rotate, align_start, copy_entry, drain_entry, flush_buffer,
}
use pnet2csv.FileLogger.Thread.Rotate.{Holds, rotate-Holds, some_injective}
use pnet2csv.FileLogger.Thread.Stream.{body, concat, body_snoc, IsOpen, HeadersWhole}

pub align_start_lem : (b : EntryBuffer) → IsValid b → align_start b ≡ b
unfolding align_start
align_start_lem b v = ground (arith, v)

-- The thread and the buffer after an entry was copied.
abbrev with_entry : Thread → List ℕ → Thread
with_entry t e = record t { log = record (t.log) { buffer = t.log.buffer ++ (0 ∷ e) } }

abbrev without_entry : EntryBuffer → EntryBuffer
without_entry b = record b { start = (b.start + entry_size) % entry_buffer_size }

pub copy_entry_cases :
    (t : Thread) (b : EntryBuffer)
    → (copy_entry t b ≡ (t, b, false))
      ⊎ ((fd : ℕ) × (t.log.fd ≡ some fd)
          × (length t.log.buffer + (entry_size + 1) < file_buffer_size)
          × (copy_entry t b
              ≡ (with_entry t (load_bytes b.buffer b.start entry_size), without_entry b, true)))
unfolding copy_entry
copy_entry_cases t b = elim (Option-cases t.log.fd) [
  | inl shut ↦ inl (ground arith)
  | inr (fd, opened) ↦
      elim (Bool-cases (leb file_buffer_size (length t.log.buffer + (entry_size + 1)))) [
        | inl full ↦ inl (ground arith)
        | inr room ↦ inr (fd, opened, ground arith, ground arith)
      ]
]

-- What a pass leaves: the files hold `now` besides the finished groups, and with the entry buffer
-- they make up what they made up before.
abbrev Kept : List (List (List ℕ)) → List (List ℕ) → Thread × EntryBuffer × Bool → Type 0
Kept groups rest r =
    (now : List (List ℕ)) × Holds r.0 groups now × IsValid r.1 × (now ++ contents r.1 ≡ rest)

with_entry-Holds :
    (t : Thread) (fd : ℕ) (e : List ℕ) (groups : List (List (List ℕ))) (current : List (List ℕ))
    → t.log.fd ≡ some fd
    → length t.log.buffer + (entry_size + 1) < file_buffer_size
    → length e ≡ entry_size
    → Holds t groups current
    → Holds (with_entry t e) groups (current ++ e ∷ [])
with_entry-Holds t fd e groups current opened room l h = record {
  closed_files = h.closed_files;
  open_file =
      subst (λ f. IsOpen f (t.file ++ (t.log.buffer ++ 0 ∷ e)) (current ++ e ∷ [])) (sym opened)
        longer;
  room = omega (arith, length-append t.log.buffer (0 ∷ e));
}
  where
    base : t.file ++ t.log.buffer ≡ log_header true ++ body current
    base = subst (λ f. IsOpen f (t.file ++ t.log.buffer) current) opened h.open_file

    longer : t.file ++ (t.log.buffer ++ 0 ∷ e) ≡ log_header true ++ body (current ++ e ∷ [])
    longer =
        sym (append_assoc t.file t.log.buffer (0 ∷ e))
        ∙ ap (λ x. x ++ 0 ∷ e) base
        ∙ append_assoc (log_header true) (body current) (0 ∷ e)
        ∙ ap (◌++◌ (log_header true)) (sym (body_snoc current e))

copy_entry-Kept :
    (t : Thread) (b : EntryBuffer) (groups : List (List (List ℕ))) (current : List (List ℕ))
    → IsValid b
    → b.start ≢ b.end
    → Holds t groups current
    → Kept groups (current ++ contents b) (copy_entry t b)
copy_entry-Kept t b groups current v ne h = elim (copy_entry_cases t b) [
  | inl same ↦ subst (Kept groups (current ++ contents b)) (sym same) (current, h, v, refl)
  | inr (fd, opened, room, copied) ↦
      let entry : List ℕ = load_bytes b.buffer b.start entry_size in
      subst (Kept groups (current ++ contents b)) (sym copied) (
        current ++ entry ∷ [],
        with_entry-Holds t fd entry groups current opened room
            (length-load_bytes b.buffer b.start entry_size) h,
        ground (arith, v),
        append_assoc current (entry ∷ []) (contents (without_entry b))
            ∙ ap (◌++◌ current) (sym (contents-pop b v ne)),
      )
]

-- The log that a pass writes to: the current one, or the one that it changes to.
choose_log-Holds :
    (a : RotateAnswers) (t : Thread) (ts : Dtl) (same : Bool) (groups : List (List (List ℕ)))
    (current : List (List ℕ)) {u : Thread}
    → Holds t groups current
    → HeadersWhole a.starts
    → (if same then some t else rotate a t ts) ≡ some u
    → (done : List (List (List ℕ))) × (now : List (List ℕ)) × Holds u done now
      × (concat done ++ now ≡ concat groups ++ current)
choose_log-Holds a t ts true groups current held w e =
    (groups, current, subst (λ x. Holds x groups current) (some_injective e) held, refl)
choose_log-Holds a t ts false groups current held w e =
    let (done, h, all) = rotate-Holds a t ts groups current held w e in
    (done, [], h, append-nil (concat done) ∙ all)

regroup :
    {A : Type 0} (done now rest groups current b r : List A)
    → done ++ now ≡ groups ++ current
    → rest ++ r ≡ now ++ b
    → done ++ (rest ++ r) ≡ groups ++ (current ++ b)
regroup done now rest groups current b r e1 e2 =
    ap (◌++◌ done) e2
    ∙ sym (append_assoc done now b)
    ∙ ap (λ x. x ++ b) e1
    ∙ append_assoc groups current b

-- One pass: the groups that it finishes, and what it leaves.
pub drain_entry-Kept :
    (h : Host) (big : Bool) (a : RotateAnswers) (stale : Dtl) (t : Thread) (b : EntryBuffer)
    (groups : List (List (List ℕ))) (current : List (List ℕ)) {r : Thread × EntryBuffer × Bool}
    → IsValid b
    → b.start ≢ b.end
    → Holds t groups current
    → HeadersWhole a.starts
    → drain_entry h big a stale t b ≡ some r
    → (done : List (List (List ℕ))) × (now : List (List ℕ)) × Holds r.0 done now
      × IsValid r.1
      × (concat done ++ (now ++ contents r.1) ≡ concat groups ++ (current ++ contents b))
unfolding drain_entry
drain_entry-Kept h big a stale t b groups current {r} v ne held w e =
    let entry_ts : Dtl = load_timestamp h big (align_start b).buffer (align_start b).start stale in
    let (t', e1, f1) =
      >>=-eq-some (if same_log t.log_start entry_ts then some t else rotate a t entry_ts) _ e in
    let r_is : copy_entry t' b ≡ r =
      ap (copy_entry t') (sym (align_start_lem b v)) ∙ some_injective f1 in
    let (done, now, h1, all1) =
      choose_log-Holds a t entry_ts (same_log t.log_start entry_ts) groups current held w e1 in
    let (rest, h2, v2, all2) =
      subst (Kept done (now ++ contents b)) r_is (copy_entry-Kept t' b done now v ne h1) in
    (
      done,
      rest,
      h2,
      v2,
      regroup (concat done) now rest (concat groups) current (contents b) (contents r.1) all1 all2,
    )

pub flush_buffer-Holds :
    (answers : List WriteAnswer) (t : Thread) (groups : List (List (List ℕ)))
    (current : List (List ℕ)) {u : Thread}
    → Holds t groups current
    → flush_buffer answers t ≡ some u
    → Holds u groups current
unfolding flush_buffer write_buffer
flush_buffer-Holds answers t groups current {u} held e = elim (Option-cases t.log.fd) [
  | inl shut ↦
      subst (λ x. Holds x groups current) (some_injective (rw (shut, flush_buffer) at e)) held
  | inr (fd, opened) ↦
      let o : Output = record { pending = t.log.buffer; file = t.file; clears = t.clears } in
      let ((o', rest), e1, f1) =
        >>=-eq-some (write_buffer answers o) _ (rw (opened, flush_buffer) at e) in
      let (same, short) = write_while_lem file_min_write (λ p. p) answers o e1 in
      subst (λ x. Holds x groups current) (some_injective f1)
        (record {
          closed_files = held.closed_files;
          open_file = subst (λ x. IsOpen t.log.fd x current) (sym same) held.open_file;
          room = omega (arith, short);
        })
]
