-- ===== src/FileLogger/File/Writes.antt =====
-- The write loops: no byte is lost, repeated or reordered, and enough progress ends the loop.
use pnet2csv.Common.{
  ℕ, zero, suc, ◌≤◌, ◌<◌, ◌≡◌, refl, ap, ◌∙◌, List, [], ◌∷◌, ◌++◌, append_assoc, some, arith,
  length, length-drop, take-append-drop, leb, leb→le, Bool-cases, inl, inr, min,
}
use pnet2csv.FileLogger.File.{WriteAnswer, wrote, Output, write_once, write_while}

-- All the bytes of an output: those in the file, then those still to come.
abbrev pub stream : Output → List ℕ
stream s = s.file ++ s.pending

pub stream-write_once :
    (request : List ℕ → List ℕ) (a : WriteAnswer) (s : Output)
    → stream (write_once request a s) ≡ stream s
unfolding write_once
stream-write_once request (wrote n) s =
    append_assoc s.file _ _
    ∙ ap (◌++◌ s.file) (take-append-drop (min n (length (request s.pending))) s.pending)
stream-write_once request WriteAnswer.no_space s = refl
stream-write_once request WriteAnswer.failed s = refl

-- What a loop of writes leaves is the same stream, cut elsewhere, with fewer than `least` bytes
-- still to come.
pub write_while_lem :
    (least : ℕ) (request : List ℕ → List ℕ) (answers : List WriteAnswer) (s : Output) {t : Output}
    {rest : List WriteAnswer}
    → write_while least request answers s ≡ some (t, rest)
    → (stream t ≡ stream s) × (length t.pending < least)
unfolding write_while
write_while_lem least request [] s e = ground arith
write_while_lem least request (a ∷ answers) s {t} {rest} e = ground (
  arith,
  write_while_lem least request answers (write_once request a s) {t = t} {rest = rest},
  stream-write_once request a s,
)

-- How many of the answers take at least one byte.
unfoldable pub progress : List WriteAnswer → ℕ
progress [] = 0
progress (wrote zero ∷ answers) = progress answers
progress (wrote (suc n) ∷ answers) = suc (progress answers)
progress (WriteAnswer.no_space ∷ answers) = progress answers
progress (WriteAnswer.failed ∷ answers) = progress answers

-- With as many such answers as there are bytes to write the loop ends, however many answers fail.
pub write_while_total :
    (least : ℕ) (request : List ℕ → List ℕ)
    → 0 < least
    → ((p : List ℕ) → least ≤ length p → 0 < length (request p))
    → (answers : List WriteAnswer) (s : Output) → length s.pending ≤ progress answers
    → (t : Output) × (rest : List WriteAnswer) × (write_while least request answers s
        ≡ some (t, rest))
unfolding write_while write_once progress
write_while_total least request pos some_bytes [] s h = (s, [], ground arith)
write_while_total least request pos some_bytes (a ∷ answers) s h =
    elim (Bool-cases (leb least (length s.pending))) [
      | inl more ↦
          let (t, rest, e) =
            write_while_total least request pos some_bytes answers (write_once request a s)
              (less a s h (some_bytes s.pending (leb→le _ _ more))) in
          (t, rest, rw (more) e)
      | inr done ↦ (s, a ∷ answers, rw done)
    ]
  where
    less :
        (b : WriteAnswer) (s : Output)
        → length s.pending ≤ progress (b ∷ answers)
        → 0 < length (request s.pending)
        → length (write_once request b s).pending ≤ progress answers
    less (wrote zero) s h p =
        omega (arith, length-drop (min 0 (length (request s.pending))) s.pending)
    less (wrote (suc n)) s h p =
        omega (arith, length-drop (min (suc n) (length (request s.pending))) s.pending)
    less WriteAnswer.no_space s h p = h
    less WriteAnswer.failed s h p = h

-- What is still to be written does not grow.
write_once-shorter :
    (request : List ℕ → List ℕ) (a : WriteAnswer) (s : Output)
    → length (write_once request a s).pending ≤ length s.pending
unfolding write_once
write_once-shorter request (wrote n) s =
    omega (arith, length-drop (min n (length (request s.pending))) s.pending)
write_once-shorter request WriteAnswer.no_space s = omega arith
write_once-shorter request WriteAnswer.failed s = omega arith

pub write_while-shorter :
    (least : ℕ) (request : List ℕ → List ℕ) (answers : List WriteAnswer) (s : Output) {t : Output}
    {rest : List WriteAnswer}
    → write_while least request answers s ≡ some (t, rest)
    → length t.pending ≤ length s.pending
unfolding write_while
write_while-shorter least request [] s e = ground arith
write_while-shorter least request (a ∷ answers) s {t} {rest} e = ground (
  arith,
  write_while-shorter least request answers (write_once request a s) {t = t} {rest = rest},
  write_once-shorter request a s,
)
