-- ===== src/FileLogger/Names.antt =====
-- The names of the log files and of the directories of a day, as `startLogFile` of
-- src/ports/linux/app_filelogger.c prints them with `sprintf` and as `deleteOldest` and
-- `archive_thread_main` read them with `sscanf`. A text is the list of its characters' codes.
pub mod Roundtrip
use pnet2csv.Common.{
  ℕ, zero, suc, ◌+◌, ◌-◌, ◌*◌, ◌/◌, ◌%◌, ◌^◌, ◌≡◌, refl, List, [], ◌∷◌, ◌++◌, Bool, true, false,
  ◌&&◌, ◌||◌, Option, none, some, length, ltb, leb, ◌==◌, if◌then◌else◌, replicate, ◌>>=◌, take,
}
use pnet2csv.FileLogger.Entry.{Dtl}

abbrev pub Text : Type 0
Text = List ℕ

-- The decimal digits of a number below 10 to the given count, which is the fuel.
unfoldable pub decimal : ℕ → ℕ → Text
decimal zero n = []
decimal (suc count) n =
    let higher = decimal count (n / 10) in
    if ltb n 10 then (b'0' + n) ∷ [] else higher ++ (b'0' + n % 10) ∷ []

-- %<width>d with a fill character; the numbers printed have five digits at most.
unfoldable pub padded : ℕ → ℕ → ℕ → Text
unfolding decimal
padded fill width n = let digits = decimal 5 n in replicate (width - length digits) fill ++ digits

-- "%4d%02d%02d"
unfoldable pub date_name : ℕ → ℕ → ℕ → Text
unfolding padded
date_name year month day = padded b' ' 4 year ++ (padded b'0' 2 month ++ padded b'0' 2 day)

-- "%02d-%02d.bin" of a log's first file, "%02d-%02d_%d.bin" of a copy.
unfoldable pub log_name : ℕ → ℕ → ℕ → Text
unfolding padded
log_name hour minute copy =
    padded b'0' 2 hour
    ++ (b'-'
        ∷ (padded b'0' 2 (10 * (minute / 10))
            ++ ((if copy == 1 then [] else b'_' ∷ padded b' ' 1 copy)
                ++ (b'.' ∷ b'b' ∷ b'i' ∷ b'n' ∷ []))))

-- ".tgz"
abbrev pub tgz : Text
tgz = b'.' ∷ b't' ∷ b'g' ∷ b'z' ∷ []

unfoldable pub is_digit : ℕ → Bool
is_digit c = leb b'0' c && leb c b'9'

-- What `isspace` accepts in the C locale.
unfoldable pub is_space : ℕ → Bool
is_space c = c == 32 || (leb 9 c && leb c 13)

unfoldable pub skip_space : Text → Text
unfolding is_space
skip_space [] = []
skip_space (c ∷ s) = if is_space c then skip_space s else c ∷ s

-- At most so many digits, behind the value of those read so far.
unfoldable pub scan_digits : ℕ → ℕ → Text → ℕ × Text
unfolding is_digit
scan_digits zero acc s = (acc, s)
scan_digits (suc width) acc [] = (acc, [])
scan_digits (suc width) acc (c ∷ s) =
    let more = scan_digits width (acc * 10 + (c - b'0')) s in
    if is_digit c then more else (acc, c ∷ s)

-- A number of at least one digit.
unfoldable pub scan_number : ℕ → Text → Option (ℕ × Text)
unfolding scan_digits
scan_number width [] = none
scan_number width (c ∷ s) =
    if is_digit c && ltb 0 width then some (scan_digits width 0 (c ∷ s)) else none

-- %<width>hu: spaces are skipped, a sign counts for the width, a negative value wraps.
unfoldable pub scan_sign : ℕ → Text → Option (ℕ × Text)
unfolding scan_number
scan_sign width [] = none
scan_sign width (c ∷ s) =
    if c == b'-'
    then (scan_number (width - 1) s >>= λ (n, rest). some ((2 ^ 16 - n % 2 ^ 16) % 2 ^ 16, rest))
    else (if c == b'+'
        then (scan_number (width - 1) s >>= λ (n, rest). some (n % 2 ^ 16, rest))
        else (scan_number width (c ∷ s) >>= λ (n, rest). some (n % 2 ^ 16, rest)))

unfoldable pub scan_unsigned : ℕ → Text → Option (ℕ × Text)
unfolding scan_sign skip_space
scan_unsigned width s = scan_sign width (skip_space s)

pub record Scanned : Type 0 where
  pub year : ℕ
  pub month : ℕ
  pub day : ℕ
  pub rest : Text

-- "%4hu%2hu%2hu" and what it leaves; `none` if fewer than three numbers match.
unfoldable pub scan_date : Text → Option Scanned
unfolding scan_unsigned
scan_date s = do
  (year, s1) ← scan_unsigned 4 s
  (month, s2) ← scan_unsigned 2 s1
  (day, s3) ← scan_unsigned 2 s2
  some (record { year = year; month = month; day = day; rest = s3 })

-- The characters of %7s, which stops at a space.
unfoldable pub scan_word : ℕ → Text → Text
unfolding is_space
scan_word zero s = []
scan_word (suc width) [] = []
scan_word (suc width) (c ∷ s) = let more = scan_word width s in if is_space c then [] else c ∷ more
