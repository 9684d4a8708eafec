-- ===== src/FileLogger/Thread/Locks/Halves.antt =====
-- The two halves of a pass of the logging thread, before and after the release of the mutex, make up a
-- whole pass.
use pnet2csv.Common.{
  ℕ, ◌≡◌, ◌≢◌, refl, sym, subst, ◌∙◌, List, Bool, true, false, some, arith, length, ◌==◌,
}
use pnet2csv.Host.{Host}
use pnet2csv.FileLogger.Entry.{Dtl, IsDtl, var64_size, same_log, load_timestamp}
use pnet2csv.FileLogger.Buffer.{EntryBuffer}
use pnet2csv.FileLogger.Buffer.Queue.{IsValid}
use pnet2csv.FileLogger.Thread.{
  Thread, RotateAnswers, System, add, drain, rotate, copy_entry, drain_entry, step,
}
use pnet2csv.FileLogger.Thread.Rotate.{some_injective}
use pnet2csv.FileLogger.Thread.Conserve.{align_start_lem}
use pnet2csv.FileLogger.Thread.Locks.{Phase, between, changing, copy_from, with_pass, look_at}
use pnet2csv.FileLogger.Thread.Locks.Oldest.{add_log_entry-SameOldest}

-- In the middle of a pass the thread knows the oldest entry, which belongs to another log.
pub record Knows (h : Host) (s : System) (entry_ts : Dtl) (entry : ℕ) : Type 0 where
  pub nonempty : s.logger.entries.start ≢ s.logger.entries.end
  pub same_entry : entry ≡ s.logger.entries.start
  pub stale : Dtl
  pub same_ts :
      load_timestamp h s.logger.bigendian s.logger.entries.buffer s.logger.entries.start stale
      ≡ entry_ts
  pub another_log : same_log s.thread.log_start entry_ts ≡ false

abbrev pub IsAt : Host → System → Phase → Type 0
IsAt h s between = Unit {0}
IsAt h s (changing entry_ts entry) = Knows h s entry_ts entry

-- A copy from the start is the end of a pass.
pub copy_from-start :
    (t : Thread) (b : EntryBuffer)
    → copy_from b.start t b ≡ ((copy_entry t b).0, (copy_entry t b).1)
unfolding copy_from copy_entry
copy_from-start t b = ground arith

-- A call keeps what the thread knows.
pub call-Knows :
    (h : Host) (created : Bool) (s : System) (t : Dtl) (words : List ℕ) (entry_ts : Dtl) (entry : ℕ)
    {u : System}
    → IsValid s.logger.entries
    → IsDtl t
    → length words ≡ var64_size
    → Knows h s entry_ts entry
    → step h s (add created t words) ≡ some u
    → Knows h u entry_ts entry
unfolding step
call-Knows h created s t words entry_ts entry v d n k e =
    let same = add_log_entry-SameOldest h created s.logger t words v k.nonempty d n in
    subst (λ x. Knows h x entry_ts entry) (some_injective e)
      (record {
        nonempty = same.nonempty;
        same_entry = k.same_entry ∙ sym same.same_start;
        stale = k.stale;
        same_ts = same.same_timestamp k.stale ∙ k.same_ts;
        another_log = k.another_log;
      })

module _ (h : Host) (s : System) (v : IsValid s.logger.entries) where
  -- The timestamp of the oldest entry.
  abbrev pub oldest_ts : Dtl → Dtl
  oldest_ts stale =
      load_timestamp h s.logger.bigendian s.logger.entries.buffer s.logger.entries.start stale

  -- A pass that goes on at once is a whole pass.
  pub drain-same_log :
      (a : RotateAnswers) (stale : Dtl)
      → s.logger.entries.start == s.logger.entries.end ≡ false
      → same_log s.thread.log_start (oldest_ts stale) ≡ true
      → step h s (drain a stale)
        ≡ some (
            with_pass s
              ((copy_entry s.thread s.logger.entries).0, (copy_entry s.thread s.logger.entries).1))
  unfolding step drain_entry
  drain-same_log a stale more same =
      rw more (rw (align_start_lem s.logger.entries v) (rw same refl))

  -- So is one that changes files.
  pub drain-another_log :
      (a : RotateAnswers) (stale : Dtl) (t : Thread)
      → s.logger.entries.start == s.logger.entries.end ≡ false
      → same_log s.thread.log_start (oldest_ts stale) ≡ false
      → rotate a s.thread (oldest_ts stale) ≡ some t
      → step h s (drain a stale)
        ≡ some (with_pass s ((copy_entry t s.logger.entries).0, (copy_entry t s.logger.entries).1))
  unfolding step drain_entry
  drain-another_log a stale t more other e =
      rw more (rw (align_start_lem s.logger.entries v) (rw other (rw e refl)))

  pub look_at-same_log :
      (stale : Dtl)
      → same_log s.thread.log_start (oldest_ts stale) ≡ true
      → look_at h stale s ≡ record {
        system =
            with_pass s
              ((copy_entry s.thread s.logger.entries).0, (copy_entry s.thread s.logger.entries).1);
        phase = between;
      }
  unfolding look_at
  look_at-same_log stale same =
      rw (align_start_lem s.logger.entries v)
        (rw same (rw (copy_from-start s.thread s.logger.entries) refl))

  pub look_at-another_log :
      (stale : Dtl)
      → same_log s.thread.log_start (oldest_ts stale) ≡ false
      → look_at h stale s
        ≡ record { system = s; phase = changing (oldest_ts stale) s.logger.entries.start }
  unfolding look_at
  look_at-another_log stale other = rw (align_start_lem s.logger.entries v) (rw other refl)
