-- ===== src/FileLogger/Thread/Passes.antt =====
-- A pass of the logging thread over the entry buffer returns, and keeps the invariants, with an operating
-- system that does not fail for ever.
use pnet2csv.Common.{
  ℕ, ◌+◌, ◌≤◌, ◌≡◌, ◌≢◌, refl, ◌⊎◌, List, [], Bool, true, false, some, arith, length, ◌==◌, ==→ne,
  All,
}
use pnet2csv.Host.{Host}
use pnet2csv.FileLogger.Entry.{Dtl}
use pnet2csv.FileLogger.Buffer.{EntryBuffer}
use pnet2csv.FileLogger.Buffer.Queue.{IsValid, contents, length-contents, count, count_lt, window}
use pnet2csv.FileLogger.File.{file_buffer_size}
use pnet2csv.FileLogger.File.Writes.{progress}
use pnet2csv.FileLogger.File.Opening.{Starts}
use pnet2csv.FileLogger.File.Finish.{Settles}
use pnet2csv.FileLogger.Thread.{Thread, System, drain, drain_entry, step}
use pnet2csv.FileLogger.Thread.Rounds.{PassAnswers, ThreadAnswers}
use pnet2csv.FileLogger.Thread.Stream.{IsSound, HeadersWhole}
use pnet2csv.FileLogger.Thread.Invariant.{step-IsSound}
use pnet2csv.FileLogger.Thread.Dated.{IsDated, step-IsDated, current-HasFile}
use pnet2csv.FileLogger.Thread.Progress.{Fits, IsPass, drain_entry_total}

-- The system does not fail for ever: the writes get on, the synchronisation of the old file ends, and a
-- start succeeds in the end; and headers are written whole or not at all.
pub record IsPatient (p : PassAnswers) : Type 0 where
  pub writes_on : file_buffer_size ≤ progress p.rotates.finish.writes
  pub settles : Settles p.rotates.finish.syncs
  pub starts : Starts p.rotates.starts
  pub headers : HeadersWhole p.rotates.starts

-- There are answers for a pass for each entry that the ring can hold.
pub record IsPatientRound (a : ThreadAnswers) : Type 0 where
  pub enough : 255 ≤ length a.passes
  pub patient : All IsPatient a.passes
  pub writes_on : file_buffer_size ≤ progress a.writes

-- What every step of the thread keeps.
pub record Keeps (accepted : List (Dtl × List ℕ)) (u : System) : Type 0 where
  pub sound : IsSound true u
  pub dated : IsDated u
  pub same_accepted : u.accepted ≡ accepted

-- The ring is empty, or has at least `k` entries less than before.
abbrev pub IsLess : ℕ → ℕ → System → Type 0
IsLess k before u =
    (contents u.logger.entries ≡ []) ⊎ (length (contents u.logger.entries) + k ≤ before)

pub contents-empty : (b : EntryBuffer) → IsValid b → b.start ≡ b.end → contents b ≡ []
unfolding contents window
contents-empty b v e = rw none_left refl
  where
    none_left : count b ≡ 0
    none_left = omega arith

pub length-contents_le : (b : EntryBuffer) → length (contents b) ≤ 255
length-contents_le b = omega (arith, length-contents b, count_lt b)

-- What a pass leaves of the system.
abbrev pub passed : System → Thread × EntryBuffer × Bool → System
passed s r = record s { thread = r.0; logger = record (s.logger) { entries = r.1 } }

-- One pass of the inner loop, in a system that is not done.
pub drain_once_total :
    (h : Host) (p : PassAnswers) (s : System) (limit : ℕ)
    → Keeps s.accepted s
    → IsPatient p
    → 8 ≤ limit
    → Fits limit s.thread
    → s.logger.entries.start == s.logger.entries.end ≡ false
    → (r : Thread × EntryBuffer × Bool) × (drain_entry h s.logger.bigendian p.rotates p.stale
          s.thread s.logger.entries
        ≡ some r)
      × IsPass limit s.logger.entries r
      × Keeps s.accepted (passed s r)
unfolding step
drain_once_total h p s limit k patient eight fits more =
    let b = s.logger.entries in
    let ne : b.start ≢ b.end = ==→ne b.start b.end more in
    let v = k.sound in
    let (r, e, pass) =
      drain_entry_total h s.logger.bigendian p.rotates p.stale s.thread b limit v.valid eight fits
        v.room patient.headers
        (record {
          finishes = record {
            writes_on = omega (arith, patient.writes_on, v.room);
            settles = patient.settles;
          };
          starts = patient.starts;
        })
        (current-HasFile h s p.stale v k.dated ne) in
    let stepped : step h s (drain p.rotates p.stale) ≡ some (passed s r) = rw more (rw e refl) in
    (
      r,
      e,
      pass,
      record {
        sound = step-IsSound h true s (drain p.rotates p.stale) v patient.headers stepped;
        dated = step-IsDated h s (drain p.rotates p.stale) k.dated patient.headers stepped;
        same_accepted = refl;
      },
    )
