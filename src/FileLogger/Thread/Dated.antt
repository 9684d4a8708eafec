-- ===== src/FileLogger/Thread/Dated.antt =====
-- The logging thread always has a file for the entries of the current log: an entry in the entry buffer
-- has a year, and the thread has no file only while its log still has no year.
use pnet2csv.Common.{
  ℕ, ◌≡◌, ◌≢◌, refl, sym, ap, subst, ◌∙◌, ◌⊎◌, inl, inr, List, [], ◌∷◌, ◌++◌, Bool, true, false,
  none, some, arith, length, load_bytes, >>=-eq-some, Bool-cases, ReturnCode, ok, error, ◌==◌,
  if◌then◌else◌, All, ◌+◌, append_assoc, Option-cases,
}
use pnet2csv.Host.{Host}
use pnet2csv.FileLogger.Entry.{Dtl, IsDtl, var64_size, entry_size, same_log, load_timestamp}
use pnet2csv.FileLogger.Entry.Codec.{encode, load_timestamp_lem}
use pnet2csv.FileLogger.Buffer.{EntryBuffer, Logger, add_log_entry}
use pnet2csv.FileLogger.Buffer.Queue.{contents-pop, add_log_entry_uninitialised}
use pnet2csv.FileLogger.Thread.{
  Thread, RotateAnswers, System, Event, add, drain, flush, rotate, drain_entry, flush_buffer, step,
  run, record_accepted, initial, copy_entry, align_start, finish_current, start_until, low_space,
}
use pnet2csv.FileLogger.Thread.Rotate.{some_injective}
use pnet2csv.FileLogger.Thread.Stream.{concat, encode_all, IsSound, IsRegular, HeadersWhole}
use pnet2csv.FileLogger.Thread.Rotate.{start_until-header}
use pnet2csv.FileLogger.Thread.Conserve.{copy_entry_cases}
use pnet2csv.FileLogger.File.{WriteAnswer, write_buffer}

-- A call of `addLogEntry` with values of the C types, all 128 bytes and a year.
pub record IsStamped (c : Dtl × List ℕ) : Type 0 where
  pub typed : IsDtl c.0
  pub full : length c.1 ≡ var64_size
  pub dated : c.0.year ≢ 0

-- The thread has a file, or its log has no year.
abbrev pub HasFile : Thread → Type 0
HasFile t = (t.log.fd ≢ none) ⊎ (t.log_start.year ≡ 0)

pub record IsDated (s : System) : Type 0 where
  pub stamped : All IsStamped s.accepted
  pub has_file : HasFile s.thread

All-snoc {ℓ κ} :
    {A : Type ℓ} (P : A → Type κ) (xs : List A) (x : A) → All P xs → P x → All P (xs ++ x ∷ [])
All-snoc P [] x h p = (p, tt)
All-snoc P (y ∷ ys) x (q, h) p = (q, All-snoc P ys x h p)

recorded-IsStamped :
    (code : ReturnCode) (t : Dtl) (words : List ℕ) (past : List (Dtl × List ℕ))
    → All IsStamped past
    → (code ≡ ok → IsStamped (t, words))
    → All IsStamped (record_accepted code t words past)
recorded-IsStamped ok t words past h new = All-snoc IsStamped past (t, words) h (new refl)
recorded-IsStamped error t words past h new = h

accepted-IsStamped :
    (h : Host) (created : Bool) (l : Logger) (t : Dtl) (words : List ℕ)
    → IsDtl t
    → length words ≡ var64_size
    → (add_log_entry h created l t words 64).1 ≡ ok
    → IsStamped (t, words)
accepted-IsStamped h created l t words d n e = record {
  typed = d;
  full = n;
  dated = λ zero_year.
      let (_, _, _, code) = add_log_entry_uninitialised h created l t words 64 zero_year in
      absurd (cc (code, e));
}

-- A change of files leaves a file, and a pass copies to the file that it has.
rotate-HasFile :
    (a : RotateAnswers) (t : Thread) (ts : Dtl) {u : Thread}
    → HeadersWhole a.starts
    → rotate a t ts ≡ some u
    → HasFile u
unfolding rotate
rotate-HasFile a t ts {u} w e =
    let (t', e1, f1) = >>=-eq-some (finish_current a.finish t) _ e in
    let clears : ℕ = if low_space a.space then t'.clears + 1 else t'.clears in
    let (s, e2, f2) = >>=-eq-some (start_until a.starts t'.log t'.file clears) _ f1 in
    let (_, (fd, opened)) = start_until-header a.starts t'.log t'.file clears w e2 in
    subst HasFile (some_injective f2) (inl (λ shut. absurd (cc (opened, shut))))

choose_log-HasFile :
    (a : RotateAnswers) (t : Thread) (ts : Dtl) (same : Bool) {u : Thread}
    → HasFile t
    → HeadersWhole a.starts
    → (if same then some t else rotate a t ts) ≡ some u
    → HasFile u
choose_log-HasFile a t ts true f w e = subst HasFile (some_injective e) f
choose_log-HasFile a t ts false f w e = rotate-HasFile a t ts w e

copy_entry-HasFile : (t : Thread) (b : EntryBuffer) → HasFile t → HasFile (copy_entry t b).0
copy_entry-HasFile t b f = elim (copy_entry_cases t b) [
  | inl same ↦ subst (λ r. HasFile r.0) (sym same) f
  | inr (fd, opened, room, copied) ↦ subst (λ r. HasFile r.0) (sym copied) f
]

drain_entry-HasFile :
    (h : Host) (big : Bool) (a : RotateAnswers) (stale : Dtl) (t : Thread) (b : EntryBuffer)
    {r : Thread × EntryBuffer × Bool}
    → HasFile t
    → HeadersWhole a.starts
    → drain_entry h big a stale t b ≡ some r
    → HasFile r.0
unfolding drain_entry
drain_entry-HasFile h big a stale t b f w e =
    let ts : Dtl = load_timestamp h big (align_start b).buffer (align_start b).start stale in
    let (t', e1, f1) =
      >>=-eq-some (if same_log t.log_start ts then some t else rotate a t ts) _ e in
    subst (λ r. HasFile r.0) (some_injective f1)
      (copy_entry-HasFile t' (align_start b)
        (choose_log-HasFile a t ts (same_log t.log_start ts) f w e1))

flush_buffer-HasFile :
    (answers : List WriteAnswer) (t : Thread) {u : Thread}
    → HasFile t
    → flush_buffer answers t ≡ some u
    → HasFile u
unfolding flush_buffer
flush_buffer-HasFile answers t f e = elim (Option-cases t.log.fd) [
  | inl shut ↦ subst HasFile (some_injective (rw (shut, flush_buffer) at e)) f
  | inr (fd, opened) ↦
      let (o, e1, f1) =
        >>=-eq-some
          (write_buffer answers
            (record { pending = t.log.buffer; file = t.file; clears = t.clears }))
          _ (rw (opened, flush_buffer) at e) in
      subst HasFile (some_injective f1) f
]

-- Every step of a regular history keeps the dates.
pub step-IsDated :
    (h : Host) (s : System) (e : Event) {u : System}
    → IsDated s
    → IsRegular e
    → step h s e ≡ some u
    → IsDated u
unfolding step
step-IsDated h s (add created t words) {u} v (d, n) e = subst IsDated (some_injective e) (record {
  stamped =
      recorded-IsStamped (add_log_entry h created s.logger t words 64).1 t words s.accepted
        v.stamped (accepted-IsStamped h created s.logger t words d n);
  has_file = v.has_file;
})
step-IsDated h s (drain a stale) {u} v w e =
    elim (Bool-cases (s.logger.entries.start == s.logger.entries.end)) [
      | inl empty ↦ subst IsDated (some_injective (rw empty at e)) v
      | inr more ↦
          let (r, e1, f1) =
            >>=-eq-some (drain_entry h s.logger.bigendian a stale s.thread s.logger.entries) _
              (rw more at e) in
          subst IsDated (some_injective f1) (record {
            stamped = v.stamped;
            has_file =
                drain_entry-HasFile h s.logger.bigendian a stale s.thread s.logger.entries
                  v.has_file w e1;
          })
    ]
step-IsDated h s (flush answers) {u} v w e =
    let (t, e1, f1) = >>=-eq-some (flush_buffer answers s.thread) _ e in
    subst IsDated (some_injective f1) (record {
      stamped = v.stamped;
      has_file = flush_buffer-HasFile answers s.thread v.has_file e1;
    })

pub run-IsDated :
    (h : Host) (s : System) (es : List Event) {u : System}
    → IsDated s
    → All IsRegular es
    → run h s es ≡ some u
    → IsDated u
unfolding run
run-IsDated h s [] v w e = subst IsDated (some_injective e) v
run-IsDated h s (x ∷ es) v (w, ws) e =
    let (t, e1, f1) = >>=-eq-some (step h s x) _ e in
    run-IsDated h t es (step-IsDated h s x v w e1) ws f1

pub initial-IsDated : IsDated initial
initial-IsDated = record { stamped = tt; has_file = inr refl }

-- What stands behind something in the encoded calls is an encoded call.
encoded-IsStamped :
    (big : Bool) (before : List (List ℕ)) (e : List ℕ) (after : List (List ℕ))
    (past : List (Dtl × List ℕ))
    → All IsStamped past
    → before ++ (e ∷ after) ≡ encode_all big past
    → (c : Dtl × List ℕ) × IsStamped c × (e ≡ encode big c.0 c.1)
encoded-IsStamped big [] e after [] h q = absurd (cc q)
encoded-IsStamped big [] e after (c ∷ past) (p, h) q = (c, p, cc q)
encoded-IsStamped big (b ∷ before) e after [] h q = absurd (cc q)
encoded-IsStamped big (b ∷ before) e after (c ∷ past) (p, h) q =
    encoded-IsStamped big before e after past h (cc q)

same_log-year : (a b : Dtl) → same_log a b ≡ true → a.year ≡ b.year
unfolding same_log
same_log-year a b e = ground arith

-- An entry that belongs to the current log finds its file open.
pub current-HasFile :
    (h : Host) (s : System) (stale : Dtl)
    → IsSound true s
    → IsDated s
    → s.logger.entries.start ≢ s.logger.entries.end
    → same_log s.thread.log_start
        (load_timestamp h s.logger.bigendian s.logger.entries.buffer s.logger.entries.start stale)
      ≡ true
    → s.thread.log.fd ≢ none
current-HasFile h s stale v d ne same = elim (d.has_file) [
  | inl opened ↦ opened
  | inr undated ↦
      let b = s.logger.entries in
      let (c, stamp, is_entry) =
        encoded-IsStamped true (concat v.groups ++ v.current)
          (load_bytes b.buffer b.start entry_size) _ s.accepted d.stamped
          (append_assoc (concat v.groups) v.current _
            ∙ ap (λ l. concat v.groups ++ (v.current ++ l)) (sym (contents-pop b v.valid ne))
            ∙ v.complete) in
      let loaded =
        load_timestamp_lem h true b.buffer b.start stale c.0 c.1 stamp.typed stamp.full is_entry in
      absurd (
        stamp.dated (sym loaded.same_year ∙ sym (same_log-year _ _ (rw v.order at same)) ∙ undated))
]
