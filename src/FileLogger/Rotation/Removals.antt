-- ===== src/FileLogger/Rotation/Removals.antt =====
-- What the clean-up removes, what it archives, and what it passes over.
use pnet2csv.Common.{
  ℕ, ◌≤◌, ◌<◌, ◌≡◌, ◌≢◌, refl, ap₂, inl, inr, [], ◌∷◌, false, none, arith, Bool-cases, error,
  append-nil, ◌==◌, ==→eq, leb,
}
use pnet2csv.FileLogger.Names.{Text, tgz, skip_space, date_name}
use pnet2csv.FileLogger.Names.Roundtrip.{scan_date-date_name}
use pnet2csv.FileLogger.Rotation.{
  same_text, scanned_end, is_archive_end, accepted_date, is_dots, Removal, child, entry, EntryType,
  folder, unknown, other, not_after, to_archive, is_nothing, exited, CompressAnswers,
  compress_directory,
}
use pnet2csv.FileLogger.Rotation.Earliest.{key}

-- A removal of the named entry, or of a file in it that is neither "." nor "..".
abbrev pub Within : Text → Removal → Type 0
Within name (child parent n) = (parent ≡ name) × (is_dots n ≡ false)
Within name (entry n dir) = n ≡ name

same_text-ne : (s t : Text) → s ≢ t → same_text s t ≡ false
unfolding same_text
same_text-ne [] [] h = absurd (h refl)
same_text-ne [] (c ∷ t) h = refl
same_text-ne (c ∷ s) [] h = refl
same_text-ne (c ∷ s) (d ∷ t) h = elim (Bool-cases (c == d)) [
  | inl e ↦ rw e (same_text-ne s t (λ q. h (ap₂ ◌∷◌ (==→eq c d e) q)))
  | inr n ↦ rw n
]

-- A directory that is named for its date alone, as `startLogFile` makes it, is passed over unless
-- the uninitialised variable for the rest of its name happens to be empty or ".tgz".
pub accepted_date-uninitialised :
    (y m d : ℕ) (stale : Text)
    → 1000 ≤ y
    → y < 10000
    → m < 100
    → d < 100
    → stale ≢ []
    → stale ≢ tgz
    → accepted_date (record { name = date_name y m d; stale_end = stale }) ≡ none
unfolding accepted_date scanned_end is_archive_end skip_space
accepted_date-uninitialised y m d stale lo hi hm hd e1 e2 = rw (
  ← append-nil (date_name y m d),
  scan_date-date_name y m d [] lo hi hm hd,
  accepted_date,
  same_text-ne stale [] e1,
  same_text-ne stale tgz e2,
)

-- For a day with a year from 1000 to 9999 and a month and a day below 100, and a thread that was
-- started for a month and a day of 16 bits, the archive thread takes the directory of the day for
-- compression exactly if the day is not after the one that it was started for, and readdir does not
-- say that it is something else than a directory.
pub to_archive-date_name :
    (year month day y m d : ℕ) (type : EntryType)
    → month < 65536
    → day < 65536
    → 1000 ≤ y
    → y < 10000
    → m < 100
    → d < 100
    → to_archive year month day (record { d_name = date_name y m d; d_type = type })
      ≡ elim type [ other ↦ false | _ ↦ leb (key y m d) (key year month day) ]
unfolding to_archive not_after is_nothing
to_archive-date_name year month day y m d other hM hD lo hi hm hd = refl
to_archive-date_name year month day y m d folder hM hD lo hi hm hd =
    rw (← append-nil (date_name y m d), scan_date-date_name y m d [] lo hi hm hd, to_archive)
      (ground arith)
to_archive-date_name year month day y m d unknown hM hD lo hi hm hd =
    rw (← append-nil (date_name y m d), scan_date-date_name y m d [] lo hi hm hd, to_archive)
      (ground arith)

-- Where `tar` exits with an error nothing is removed.
pub compress_directory-failed :
    (a : CompressAnswers) (name : Text) (status : ℕ)
    → a.status ≡ exited status
    → status ≢ 0
    → compress_directory a name ≡ (error, [])
unfolding compress_directory
compress_directory-failed a name status e n = ground arith
