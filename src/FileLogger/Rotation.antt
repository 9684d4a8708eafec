-- ===== src/FileLogger/Rotation.antt =====
-- Clearing space: `deleteOldest`, `archive_thread_main` and `compressDirectory` of
-- src/ports/linux/app_filelogger.c. What the calls of the file system and of `tar` answer is a
-- parameter; the results are the return code and the removals that were tried, in order.
pub mod Earliest
pub mod Removals
mod Tests
use pnet2csv.Common.{
  ℕ, zero, suc, ◌+◌, ◌*◌, ◌/◌, ◌%◌, ◌^◌, List, [], ◌∷◌, ◌++◌, Bool, true, false, not, ◌&&◌, ◌||◌,
  Option, none, some, ltb, leb, ◌==◌, if◌then◌else◌, ReturnCode, ok, error, map,
}
use pnet2csv.FileLogger.Names.{Text, tgz, Scanned, scan_date, scan_word, skip_space}

-- `strcmp (s, t) == 0`
unfoldable pub same_text : Text → Text → Bool
same_text [] [] = true
same_text [] (c ∷ t) = false
same_text (c ∷ s) [] = false
same_text (c ∷ s) (d ∷ t) = if c == d then same_text s t else false

-- A name that `readdir` gives, and what the uninitialised `end` holds when it is scanned.
pub record Listed : Type 0 where
  pub name : Text
  pub stale_end : Text

-- The variables of `deleteOldest`; `name` is `oldest`.
pub record Oldest : Type 0 where
  pub year : ℕ
  pub month : ℕ
  pub day : ℕ
  pub name : Text

abbrev pub no_oldest : Oldest
no_oldest = record { year = 9999; month = 99; day = 99; name = [] }

-- `end` after the scan: `%7s` stores it only where something is left.
unfoldable pub scanned_end : Text → Text → Text
scanned_end [] stale_end = stale_end
scanned_end (c ∷ s) stale_end = scan_word 7 (c ∷ s)

-- Is `end` empty or ".tgz"?
unfoldable pub is_archive_end : Text → Bool
unfolding same_text
is_archive_end end = same_text end [] || same_text end tgz

unfoldable pub take_oldest : Scanned → Text → Oldest
take_oldest d name = record { year = d.year; month = d.month; day = d.day; name = name }

-- The comparisons of one round of the loop, for an entry whose name is accepted.
unfoldable pub compare_oldest : Oldest → Scanned → Text → Oldest
unfolding take_oldest
compare_oldest o d name =
    if ltb o.year d.year
    then o
    else (if ltb d.year o.year
        then take_oldest d name
        else (if ltb o.month d.month
            then o
            else (if ltb d.month o.month
                then take_oldest d name
                else (if ltb o.day d.day
                    then o
                    else (if ltb d.day o.day then take_oldest d name else o)))))

-- The date of an entry that the loop takes into account.
unfoldable pub accepted_date : Listed → Option Scanned
unfolding scanned_end is_archive_end
accepted_date e = elim (scan_date e.name) [
  | none ↦ none
  | some d ↦ if is_archive_end (scanned_end (skip_space d.rest) e.stale_end) then some d else none
]

-- One round of the loop.
unfoldable pub consider : Oldest → Listed → Oldest
unfolding accepted_date compare_oldest
consider o e = elim (accepted_date e) [ none ↦ o | some d ↦ compare_oldest o d e.name ]

unfoldable pub find_oldest : Oldest → List Listed → Oldest
unfolding consider
find_oldest o [] = o
find_oldest o (e ∷ es) = find_oldest (consider o e) es

-- The names "." and "..", as the loops over children test for them.
unfoldable pub is_dots : Text → Bool
is_dots [] = false
is_dots (c ∷ []) = c == b'.'
is_dots (c ∷ d ∷ []) = c == b'.' && d == b'.'
is_dots (c ∷ d ∷ e ∷ s) = false

-- A call of `unlinkat`: a file of a directory, or a name of the log directory, perhaps with
-- AT_REMOVEDIR.
pub data Removal : Type 0 where
  child : Text → Text → Removal
  entry : Text → Bool → Removal

unfoldable pub remove_children : Text → List Text → List Removal
unfolding is_dots
remove_children directory [] = []
remove_children directory (n ∷ ns) =
    if is_dots n
    then remove_children directory ns
    else child directory n ∷ remove_children directory ns

-- What the calls on a directory whose children are deleted answer.
pub record ChildrenAnswers : Type 0 where
  pub opened : Bool
  pub stream : Bool
  pub children : List Text
  pub closed : Bool

-- What the calls of `deleteOldest` answer.
pub record DeleteAnswers : Type 0 where
  -- `openLogDir`
  pub log_stream : Bool
  pub listing : List Listed
  pub log_closed : Bool
  -- `getLogDir`
  pub log_dir : Bool
  -- `fstatat`: whether the oldest is a directory, if it succeeds
  pub stat : Option Bool
  pub inner : ChildrenAnswers
  -- The last `unlinkat`
  pub removed : Bool

abbrev pub code_of : Bool → ReturnCode
code_of true = ok
code_of false = error

-- `deleteOldest` from the `fstatat` on.
unfoldable pub remove_oldest : DeleteAnswers → Text → ReturnCode × List Removal
unfolding remove_children
remove_oldest a name = elim a.stat [
  | none ↦ (error, [])
  | some false ↦ (code_of a.removed, entry name false ∷ [])
  | some true ↦
      if not (a.inner.opened && a.inner.stream)
      then (error, [])
      else (let tried = remove_children name a.inner.children in
          if a.inner.closed
          then (code_of a.removed, tried ++ entry name true ∷ [])
          else (error, tried))
]

unfoldable pub delete_oldest : DeleteAnswers → ReturnCode × List Removal
unfolding find_oldest remove_oldest
delete_oldest a =
    let o = find_oldest no_oldest a.listing in
    if not (a.log_stream && a.log_closed)
    then (error, [])
    else (if o.year == 9999 && (o.month == 99 && o.day == 99)
        then (error, [])
        else (if a.log_dir then remove_oldest a o.name else (error, [])))

-- `d_type` of a directory entry: DT_DIR, DT_UNKNOWN, or another.
pub data EntryType : Type 0 where
  folder unknown other : EntryType

pub record DirEntry : Type 0 where
  pub d_name : Text
  pub d_type : EntryType

-- The tests of one round of `archive_thread_main`, for the day in question: a directory whose name
-- is a date with nothing behind it, not after that day.
unfoldable pub not_after : Scanned → ℕ → ℕ → ℕ → Bool
not_after d year month day =
    if ltb year d.year
    then false
    else (if d.year == year
        then (if ltb month d.month
            then false
            else (if d.month == month then not (ltb day d.day) else true))
        else true)

unfoldable pub is_nothing : Text → Bool
is_nothing [] = true
is_nothing (c ∷ s) = false

unfoldable pub to_archive : ℕ → ℕ → ℕ → DirEntry → Bool
unfolding not_after is_nothing
to_archive year month day e = elim e.d_type [
  | other ↦ false
  | _ ↦ elim (scan_date e.d_name) [
    | none ↦ false
    | some d ↦ is_nothing d.rest && not_after d year month day
  ]
]

-- The names that `archive_thread_main` hands to `compressDirectory`, in order.
unfoldable pub archived : ℕ → ℕ → ℕ → List DirEntry → List Text
unfolding to_archive
archived year month day [] = []
archived year month day (e ∷ es) =
    let rest = archived year month day es in
    if to_archive year month day e then e.d_name ∷ rest else rest

-- What `waitpid` reports of `tar`: an exit status, or the signal that killed it.
pub data WaitStatus : Type 0 where
  exited : ℕ → WaitStatus
  signaled : ℕ → WaitStatus

-- What the calls of one `compressDirectory` answer, in the parent process.
pub record CompressAnswers : Type 0 where
  pub log_dir : Bool
  pub forked : Bool
  pub status : WaitStatus
  pub inner : ChildrenAnswers
  pub removed : Bool

-- `WIFEXITED (status) && WEXITSTATUS (status) != 0`
unfoldable pub tar_failed : WaitStatus → Bool
tar_failed (exited status) = not (status == 0)
tar_failed (signaled signal) = false

unfoldable pub compress_directory : CompressAnswers → Text → ReturnCode × List Removal
unfolding tar_failed remove_children
compress_directory a directory =
    if not (a.log_dir && a.forked)
    then (error, [])
    else (if tar_failed a.status
        then (error, [])
        else (if not (a.inner.opened && a.inner.stream)
            then (error, [])
            else (let tried = remove_children directory a.inner.children in
                if a.inner.closed
                then (code_of a.removed, tried ++ entry directory true ∷ [])
                else (error, tried))))
