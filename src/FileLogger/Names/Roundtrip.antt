-- ===== src/FileLogger/Names/Roundtrip.antt =====
-- The directories that `startLogFile` makes are those that the clean-up recognises.
use pnet2csv.Common.{
  ℕ, ◌+◌, ◌*◌, ◌/◌, ◌%◌, ◌≤◌, ◌<◌, ◌≡◌, ap, ◌∙◌, [], ◌∷◌, ◌++◌, some, arith, append_assoc,
}
use pnet2csv.FileLogger.Names.{Text, decimal, padded, date_name, scan_unsigned, scan_date}

abbrev digit : ℕ → ℕ
digit n = b'0' + n

-- Four and two digits.
padded_four :
    (n : ℕ)
    → 1000 ≤ n
    → n < 10000
    → padded b' ' 4 n
      ≡ digit (n / 1000) ∷ digit (n / 100 % 10) ∷ digit (n / 10 % 10) ∷ digit (n % 10) ∷ []
unfolding padded decimal
padded_four n lo hi = ground arith

padded_two : (n : ℕ) → n < 100 → padded b'0' 2 n ≡ digit (n / 10) ∷ digit (n % 10) ∷ []
unfolding padded decimal
padded_two n hi = ground arith

scan_four :
    (a b c d : ℕ) (s : Text)
    → a < 10
    → b < 10
    → c < 10
    → d < 10
    → scan_unsigned 4 (digit a ∷ digit b ∷ digit c ∷ digit d ∷ s)
      ≡ some (a * 1000 + b * 100 + c * 10 + d, s)
unfolding scan_unsigned
scan_four a b c d s ha hb hc hd = ground arith

scan_two :
    (a b : ℕ) (s : Text)
    → a < 10
    → b < 10
    → scan_unsigned 2 (digit a ∷ digit b ∷ s) ≡ some (a * 10 + b, s)
unfolding scan_unsigned
scan_two a b s ha hb = ground arith

year_digits :
    (y : ℕ) → y < 10000 → y / 1000 * 1000 + y / 100 % 10 * 100 + y / 10 % 10 * 10 + y % 10 ≡ y
year_digits y h = omega arith

two_digits : (n : ℕ) → n < 100 → n / 10 * 10 + n % 10 ≡ n
two_digits n h = omega arith

scan_year :
    (y : ℕ) (s : Text) → 1000 ≤ y → y < 10000 → scan_unsigned 4 (padded b' ' 4 y ++ s) ≡ some (y, s)
scan_year y s lo hi = rw (padded_four y lo hi) (
    scan_four (y / 1000) (y / 100 % 10) (y / 10 % 10) (y % 10) s (omega arith) (omega arith)
      (omega arith) (omega arith)
    ∙ ap (λ n. some (n, s)) (year_digits y hi))

scan_part : (n : ℕ) (s : Text) → n < 100 → scan_unsigned 2 (padded b'0' 2 n ++ s) ≡ some (n, s)
scan_part n s hi = rw (padded_two n hi) (
    scan_two (n / 10) (n % 10) s (omega arith) (omega arith)
    ∙ ap (λ k. some (k, s)) (two_digits n hi))

-- The name of a day's directory, with or without something behind it, is read back as its date, if
-- the year has four digits.
pub scan_date-date_name :
    (y m d : ℕ) (rest : Text)
    → 1000 ≤ y
    → y < 10000
    → m < 100
    → d < 100
    → scan_date (date_name y m d ++ rest)
      ≡ some (record { year = y; month = m; day = d; rest = rest })
unfolding scan_date date_name
scan_date-date_name y m d rest lo hi hm hd = rw (
  append_assoc (padded b' ' 4 y) (padded b'0' 2 m ++ padded b'0' 2 d) rest,
  append_assoc (padded b'0' 2 m) (padded b'0' 2 d) rest,
  scan_year y (padded b'0' 2 m ++ (padded b'0' 2 d ++ rest)) lo hi,
  scan_part m (padded b'0' 2 d ++ rest) hm,
  scan_part d rest hd,
)
