-- ===== src/FileLogger/Rotation/Tests.antt =====
-- Names and rotation at concrete inputs.
use pnet2csv.Common.{◌≡◌, List, [], ◌∷◌, ◌++◌, some, none, true, arith}
use pnet2csv.FileLogger.Names.{tgz, date_name, scan_date}
use pnet2csv.FileLogger.Names.Roundtrip.{scan_date-date_name}
use pnet2csv.FileLogger.Rotation.{
  Listed, DeleteAnswers, accepted_date, folder, to_archive, CompressAnswers, signaled,
}
use pnet2csv.FileLogger.Rotation.Removals.{accepted_date-uninitialised, to_archive-date_name}

scan_date-date_name_example :
    scan_date (date_name 2023 12 1 ++ tgz)
    ≡ some (record { year = 2023; month = 12; day = 1; rest = tgz })
scan_date-date_name_example =
    scan_date-date_name 2023 12 1 tgz (omega arith) (omega arith) (omega arith) (omega arith)

-- An archive, a directory whose `end` is stale, and another name.
abbrev listing : List Listed
listing =
    record { name = date_name 2023 12 2 ++ tgz; stale_end = [] }
    ∷ record { name = date_name 2023 12 1; stale_end = b'x' ∷ [] }
    ∷ record { name = b'.' ∷ []; stale_end = [] }
    ∷ []

abbrev delete_answers : DeleteAnswers
delete_answers = record {
  log_stream = true;
  listing = listing;
  log_closed = true;
  log_dir = true;
  stat = some true;
  inner = record {
    opened = true;
    stream = true;
    children = (b'.' ∷ []) ∷ (b'a' ∷ []) ∷ [];
    closed = true;
  };
  removed = true;
}

accepted_date-uninitialised_example :
    accepted_date (record { name = date_name 2023 12 1; stale_end = b'x' ∷ [] }) ≡ none
accepted_date-uninitialised_example =
    accepted_date-uninitialised 2023 12 1 (b'x' ∷ []) (omega arith) (omega arith) (omega arith)
      (omega arith) (λ e. ground arith) (λ e. ground arith)

to_archive-date_name_example :
    to_archive 2023 12 2 (record { d_name = date_name 2023 12 1; d_type = folder }) ≡ true
to_archive-date_name_example =
    to_archive-date_name 2023 12 2 2023 12 1 folder (omega arith) (omega arith) (omega arith)
      (omega arith) (omega arith) (omega arith)

abbrev compress_answers : CompressAnswers
compress_answers = record {
  log_dir = true;
  forked = true;
  status = signaled 9;
  inner = record { opened = true; stream = true; children = (b'a' ∷ []) ∷ []; closed = true };
  removed = true;
}
