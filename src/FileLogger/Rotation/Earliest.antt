-- ===== src/FileLogger/Rotation/Earliest.antt =====
-- `deleteOldest` removes the entry with the earliest date, and nothing else.
use pnet2csv.Common.{ℕ, ◌+◌, ◌*◌, ◌≤◌, ◌<◌, ◌≡◌, ◌⊎◌, List, [], ◌∷◌, some, arith, All}
use pnet2csv.FileLogger.Names.{Scanned}
use pnet2csv.FileLogger.Rotation.{Listed, Oldest, take_oldest, accepted_date}

-- A number by which dates are ordered: day, month and year are below 2 ^ 16.
abbrev pub key : ℕ → ℕ → ℕ → ℕ
key year month day = (year * 65536 + month) * 65536 + day

abbrev pub date_key : Scanned → ℕ
date_key d = key d.year d.month d.day

abbrev pub oldest_key : Oldest → ℕ
oldest_key o = key o.year o.month o.day

record IsDate (d : Scanned) : Type 0 where
  month_lt : d.month < 65536
  day_lt : d.day < 65536

record IsSmall (o : Oldest) : Type 0 where
  month_lt : o.month < 65536
  day_lt : o.day < 65536

-- An entry that was taken into account gives its date and its name.
abbrev pub Taken : Oldest → List Listed → Type 0
Taken o [] = ⊥
Taken o (e ∷ es) =
    ((d : Scanned) × (accepted_date e ≡ some d) × (o ≡ take_oldest d e.name)) ⊎ Taken o es

-- No entry that was taken into account has an earlier date.
abbrev pub NoneEarlier : Oldest → List Listed → Type 0
NoneEarlier o = All (λ e. (d : Scanned) → accepted_date e ≡ some d → oldest_key o ≤ date_key d)

-- One round: the date does not rise, it is at most the entry's, and it changes to the entry's only.
record Round (o o' : Oldest) (e : Listed) : Type 0 where
  small : IsSmall o'
  no_later : oldest_key o' ≤ oldest_key o
  no_earlier : (d : Scanned) → accepted_date e ≡ some d → oldest_key o' ≤ date_key d
  taken : (o' ≡ o) ⊎ ((d : Scanned) × (accepted_date e ≡ some d) × (o' ≡ take_oldest d e.name))

NoneEarlier-le :
    (o o' : Oldest) (es : List Listed)
    → oldest_key o' ≤ oldest_key o
    → NoneEarlier o es
    → NoneEarlier o' es
NoneEarlier-le o o' [] l h = tt
NoneEarlier-le o o' (e ∷ es) l (h, hs) = (λ d a. omega (arith, h d a), NoneEarlier-le o o' es l hs)
