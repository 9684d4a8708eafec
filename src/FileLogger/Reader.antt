-- ===== src/FileLogger/Reader.antt =====
-- A reader of the log files, as the format of src/ports/linux/app_filelogger.c asks for: it describes what
-- a file tells, and is no part of the program.
pub mod Whole
pub mod Logs
mod Tests
use pnet2csv.Common.{
  ℕ, zero, suc, ◌+◌, ◌*◌, ◌^◌, List, [], ◌∷◌, Bool, true, false, ◌&&◌, Option, none, some, length,
  take, drop, ◌==◌, if◌then◌else◌, ◌>>=◌,
}
use pnet2csv.FileLogger.Entry.{Dtl}

-- A number of two and of four bytes, in the order that the header names.
unfoldable pub read_short : Bool → ℕ → ℕ → ℕ
read_short true a b = a * 256 + b
read_short false a b = b * 256 + a

unfoldable pub read_long : Bool → ℕ → ℕ → ℕ → ℕ → ℕ
read_long true a b c d = a * 2 ^ 24 + b * 2 ^ 16 + c * 2 ^ 8 + d
read_long false a b c d = d * 2 ^ 24 + c * 2 ^ 16 + b * 2 ^ 8 + a

-- An entry: the timestamp and the words.
unfoldable pub read_entry : Bool → List ℕ → Option (Dtl × List ℕ)
unfolding read_short read_long
read_entry big (y1 ∷ y2 ∷ mo ∷ d ∷ wd ∷ h ∷ mi ∷ s ∷ n1 ∷ n2 ∷ n3 ∷ n4 ∷ words) = some (
  record {
    year = read_short big y1 y2;
    month = mo;
    day = d;
    weekday = wd;
    hour = h;
    minute = mi;
    second = s;
    nanosecond = read_long big n1 n2 n3 n4;
  },
  words,
)
read_entry big _ = none

-- Entries, each behind a 0, up to the end mark 255. The length of the file is enough fuel.
unfoldable pub read_entries : ℕ → Bool → ℕ → List ℕ → Option (List (Dtl × List ℕ))
unfolding read_entry
read_entries zero big size bytes = none
read_entries (suc fuel) big size [] = none
read_entries (suc fuel) big size (mark ∷ rest) =
    let more =
      read_entry big (take (12 + size) rest)
      >>= (λ e. read_entries fuel big size (drop (12 + size) rest) >>= (λ es. some (e ∷ es))) in
    if mark == 255
    then (if length rest == 0 then some [] else none)
    else (if mark == 0 then more else none)

-- A file; the header names the byte order and the number of words.
unfoldable pub read_log : List ℕ → Option (List (Dtl × List ℕ))
unfolding read_entries
read_log (m1 ∷ m2 ∷ m3 ∷ m4 ∷ order ∷ other ∷ version ∷ word_count ∷ rest) =
    if m1 == 0x61 && (m2 == 0x0B && (m3 == 0xE7 && (m4 == 0xEC && version == 1)))
    then read_entries (suc (length rest)) (order == 0x50) (2 * word_count) rest
    else none
read_log _ = none
