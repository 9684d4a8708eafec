-- ===== src/FileLogger/Reader/Whole.antt =====
-- The reader gives back the entries that a finished file was made of.
use pnet2csv.Common.{
  ℕ, zero, suc, ◌/◌, ◌%◌, ◌^◌, ◌<◌, ◌≤◌, ◌≡◌, refl, ap, ◌∙◌, List, [], ◌∷◌, ◌++◌, true, some, arith,
  length, take, drop, append_assoc, length-append, All,
}
use pnet2csv.FileLogger.Entry.{Dtl}
use pnet2csv.FileLogger.Entry.Codec.{encode, length-encode, year_bytes, nanosecond_bytes}
use pnet2csv.FileLogger.File.{log_header}
use pnet2csv.FileLogger.Thread.Stream.{body, whole, encode_all}
use pnet2csv.FileLogger.Thread.Dated.{IsStamped}
use pnet2csv.FileLogger.Reader.{read_short, read_long, read_entry, read_entries, read_log}

take_front {ℓ} : {A : Type ℓ} (n : ℕ) (xs ys : List A) → length xs ≡ n → take n (xs ++ ys) ≡ xs
take_front zero [] ys e = refl
take_front zero (x ∷ xs) ys e = absurd (omega arith)
take_front (suc n) [] ys e = absurd (omega arith)
take_front (suc n) (x ∷ xs) ys e = ap (◌∷◌ x) (take_front n xs ys (omega arith))

drop_front {ℓ} : {A : Type ℓ} (n : ℕ) (xs ys : List A) → length xs ≡ n → drop n (xs ++ ys) ≡ ys
drop_front zero [] ys e = refl
drop_front zero (x ∷ xs) ys e = absurd (omega arith)
drop_front (suc n) [] ys e = absurd (omega arith)
drop_front (suc n) (x ∷ xs) ys e = drop_front n xs ys (omega arith)

read_short_year : (y : ℕ) → read_short true (y / 256) (y % 256) ≡ y
unfolding read_short
read_short_year y = omega arith

read_long_nanosecond :
    (n : ℕ) → read_long true (n / 2 ^ 24) (n / 2 ^ 16 % 256) (n / 2 ^ 8 % 256) (n % 256) ≡ n
unfolding read_long
read_long_nanosecond n = omega arith

-- An encoded entry is read back.
read_entry-encode :
    (t : Dtl) (words : List ℕ) → read_entry true (encode true t words) ≡ some (t, words)
unfolding read_entry encode year_bytes nanosecond_bytes
read_entry-encode t words = rw (read_short_year t.year, read_long_nanosecond t.nanosecond) refl

read_entries_step :
    (fuel : ℕ) (e rest : List ℕ) (c : Dtl × List ℕ) (cs : List (Dtl × List ℕ))
    → length e ≡ 140
    → read_entry true e ≡ some c
    → read_entries fuel true 128 rest ≡ some cs
    → read_entries (suc fuel) true 128 (0 ∷ (e ++ rest)) ≡ some (c ∷ cs)
unfolding read_entries
read_entries_step fuel e rest c cs n e1 e2 =
    rw (take_front 140 e rest n, drop_front 140 e rest n, e1, e2) refl

-- So are the entries of a file, each of which has all 128 bytes; a step for each and one for the end mark
-- are enough.
read_entries-body :
    (fuel : ℕ) (cs : List (Dtl × List ℕ))
    → All IsStamped cs
    → length cs < fuel
    → read_entries fuel true 128 (body (encode_all true cs) ++ 255 ∷ []) ≡ some cs
unfolding read_entries body
read_entries-body zero cs h l = absurd (omega arith)
read_entries-body (suc fuel) [] h l = refl
read_entries-body (suc fuel) (c ∷ cs) (stamp, h) l =
    let e = encode true c.0 c.1 in
    ap (λ bytes. read_entries (suc fuel) true 128 (0 ∷ bytes))
      (append_assoc e (body (encode_all true cs)) (255 ∷ []))
    ∙ read_entries_step fuel e (body (encode_all true cs) ++ 255 ∷ []) c cs
        (omega (arith, length-encode true c.0 c.1, stamp.full)) (read_entry-encode c.0 c.1)
        (read_entries-body fuel cs h (omega arith))

length-body : (es : List (List ℕ)) → length es ≤ length (body es)
unfolding body
length-body [] = omega arith
length-body (e ∷ es) = omega (arith, length-body es, length-append e (body es))

length-encode_all : (cs : List (Dtl × List ℕ)) → length (encode_all true cs) ≡ length cs
length-encode_all [] = refl
length-encode_all (c ∷ cs) = ap suc (length-encode_all cs)

-- A finished file is read as the entries that it was made of.
pub read_log-whole :
    (cs : List (Dtl × List ℕ)) → All IsStamped cs → read_log (whole (encode_all true cs)) ≡ some cs
unfolding read_log whole log_header
read_log-whole cs h =
    let bytes = body (encode_all true cs) ++ 255 ∷ [] in
    read_entries-body (suc (length bytes)) cs h (
      omega (
        arith,
        length-body (encode_all true cs),
        length-encode_all cs,
        length-append (body (encode_all true cs)) (255 ∷ []),
      ))
