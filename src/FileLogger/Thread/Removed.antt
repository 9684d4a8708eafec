-- ===== src/FileLogger/Thread/Removed.antt =====
-- What is left of the log files after calls of `deleteOldest`, whichever files these remove.
use pnet2csv.Common.{
  zero, suc, ◌⊎◌, ◌≢◌, ℕ, ◌+◌, ◌≤◌, ◌≡◌, refl, sym, ap, ◌∙◌, List, [], ◌∷◌, map, Bool, true,
  Bool-cases, inl, inr, some, All, arith,
}
use pnet2csv.Host.{Host}
use pnet2csv.FileLogger.Thread.{
  Thread, was_removed, remaining, on_disk, System, Event, run, initial,
}
use pnet2csv.FileLogger.File.{log_header}
use pnet2csv.Common.{take}
use pnet2csv.FileLogger.Thread.Stream.{IsSound, IsRegular, whole}
use pnet2csv.FileLogger.Thread.Invariant.{run-initial-IsSound}

pub map-remaining {ℓ κ} :
    {A : Type ℓ} {B : Type κ} (f : A → B) (removes : ℕ → ℕ → Bool) (clears i : ℕ) (xs : List A)
    → map f (remaining removes clears i xs) ≡ remaining removes clears i (map f xs)
unfolding remaining
map-remaining f removes clears i [] = refl
map-remaining f removes clears i (x ∷ xs) = elim (Bool-cases (was_removed removes clears i)) [
  | inl gone ↦ rw (gone, remaining) (map-remaining f removes clears (i + 1) xs)
  | inr left ↦ rw (left, remaining) (ap (◌∷◌ (f x)) (map-remaining f removes clears (i + 1) xs))
]

-- Without a call of `deleteOldest` all files are left.
pub remaining_all {ℓ} :
    {A : Type ℓ} (removes : ℕ → ℕ → Bool) (i : ℕ) (xs : List A) → remaining removes 0 i xs ≡ xs
unfolding remaining was_removed
remaining_all removes i [] = refl
remaining_all removes i (x ∷ xs) = ap (◌∷◌ x) (remaining_all removes (i + 1) xs)

on_disk_all :
    (removes : ℕ → ℕ → Bool) (t : Thread) (calls : ℕ)
    → t.clears ≡ calls
    → (t.clears ≢ 0) ⊎ (on_disk removes t ≡ t.closed)
unfolding on_disk
on_disk_all removes t zero e =
    inr (ap (λ n. remaining removes n 0 t.closed) e ∙ remaining_all removes 0 t.closed)
on_disk_all removes t (suc calls) e = inl (omega arith)

-- After any regular history of the program from its start with at most one logging thread, that has
-- not stopped to ask the system for more answers: each entry that addLogEntry accepted was written,
-- once and in order, behind the header of a file that was finished or of the current one with its
-- buffer, or stands in the entry buffer; both buffers keep within their bounds; and, whichever files
-- the calls of deleteOldest removed, the finished files that are left hold exactly their entries:
-- header, entries and end mark. Where deleteOldest was not called, all finished files are left.
pub run-on_disk :
    (h : Host) (es : List Event) (removes : ℕ → ℕ → Bool) {u : System}
    → All IsRegular es
    → run h initial es ≡ some u
    → u.logger.threads ≤ 1
    → (v : IsSound true u) × (on_disk removes u.thread
        ≡ map whole (remaining removes u.thread.clears 0 v.groups))
      × ((u.thread.clears ≢ 0) ⊎ (on_disk removes u.thread ≡ u.thread.closed))
unfolding on_disk
run-on_disk h es removes {u} w e one_thread =
    let v = run-initial-IsSound h es w e in
    (
      v,
      ap (remaining removes u.thread.clears 0) v.closed_files
          ∙ sym (map-remaining whole removes u.thread.clears 0 v.groups),
      on_disk_all removes u.thread u.thread.clears refl,
    )

-- The beginning of a header.
abbrev pub IsHeaderStart : List ℕ → Type 0
IsHeaderStart f = (n : ℕ) × (f ≡ take n (log_header true))
