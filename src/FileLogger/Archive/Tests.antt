-- ===== src/FileLogger/Archive/Tests.antt =====
-- The archive thread at concrete inputs.
use pnet2csv.Common.{List, [], ◌∷◌, ◌++◌, some, true, false}
use pnet2csv.FileLogger.Names.{date_name}
use pnet2csv.FileLogger.Rotation.{DeleteAnswers, CompressAnswers, folder, exited}
use pnet2csv.FileLogger.Archive.{SpaceAnswer, ArchiveAnswers}

-- There is an old archive, and it can be removed.
abbrev clears : DeleteAnswers
clears = record {
  log_stream = true;
  listing = record { name = date_name 2023 11 30; stale_end = [] } ∷ [];
  log_closed = true;
  log_dir = true;
  stat = some false;
  inner = record { opened = true; stream = true; children = []; closed = true };
  removed = true;
}

abbrev packs : CompressAnswers
packs = record {
  log_dir = true;
  forked = true;
  status = exited 0;
  inner = record { opened = true; stream = true; children = (b'a' ∷ []) ∷ []; closed = true };
  removed = true;
}

-- A tenth of the blocks is free at first, then half of them.
abbrev low_once : List SpaceAnswer
low_once = (some (10, 100), clears) ∷ []

abbrev enough : SpaceAnswer
enough = (some (50, 100), clears)

abbrev archive_answers : ArchiveAnswers
archive_answers = record {
  log_dir = true;
  space = low_once ++ enough ∷ [];
  stream = true;
  entries = record { d_name = date_name 2023 12 1; d_type = folder } ∷ [];
  compress = λ _. packs;
}
