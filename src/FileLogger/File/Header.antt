-- ===== src/FileLogger/File/Header.antt =====
-- Starting and finishing a log file: what the header leaves, which name is taken, what a finished
-- file holds.
use pnet2csv.Common.{
  ℕ, zero, suc, ◌≤◌, ◌<◌, ◌≡◌, ◌≢◌, refl, ◌⊎◌, inl, inr, arith, Bool, true, false, min,
}
use pnet2csv.FileLogger.File.{WriteAnswer, wrote, write_once, log_header, header_written}
use pnet2csv.FileLogger.File.Writes.{stream}

-- The write of the header takes all of it, or nothing.
abbrev pub IsWhole : WriteAnswer → Type 0
IsWhole (wrote n) = (n ≡ 0) ⊎ (8 ≤ n)
IsWhole _ = Unit {0}

-- Then the file and its buffer make up the header.
pub stream-header_written :
    (a : WriteAnswer) (big : Bool) (clears : ℕ)
    → IsWhole a
    → stream (header_written a big clears) ≡ log_header big
unfolding header_written write_once log_header
stream-header_written (wrote n) true clears (inl e) = rw e
stream-header_written (wrote n) false clears (inl e) = rw e
stream-header_written (wrote n) true clears (inr h) = let all : min n 8 ≡ 8 = omega arith in rw all
stream-header_written (wrote n) false clears (inr h) = let all : min n 8 ≡ 8 = omega arith in rw all
stream-header_written WriteAnswer.no_space true clears h = refl
stream-header_written WriteAnswer.no_space false clears h = refl
stream-header_written WriteAnswer.failed true clears h = refl
stream-header_written WriteAnswer.failed false clears h = refl

-- If part of the header was written, the rest is not what is kept for later: the file gets the
-- first bytes of the header a second time.
pub stream-header_written_partial :
    (n : ℕ) (big : Bool) (clears : ℕ)
    → 0 < n
    → n < 8
    → stream (header_written (wrote n) big clears) ≢ log_header big
unfolding header_written write_once log_header
stream-header_written_partial zero big clears pos lt e = absurd (omega arith)
stream-header_written_partial (suc zero) true clears pos lt e = ground arith
stream-header_written_partial (suc zero) false clears pos lt e = ground arith
stream-header_written_partial (suc (suc zero)) true clears pos lt e = ground arith
stream-header_written_partial (suc (suc zero)) false clears pos lt e = ground arith
stream-header_written_partial (suc (suc (suc zero))) true clears pos lt e = ground arith
stream-header_written_partial (suc (suc (suc zero))) false clears pos lt e = ground arith
stream-header_written_partial (suc (suc (suc (suc zero)))) true clears pos lt e = ground arith
stream-header_written_partial (suc (suc (suc (suc zero)))) false clears pos lt e = ground arith
stream-header_written_partial (suc (suc (suc (suc (suc zero))))) true clears pos lt e = ground arith
stream-header_written_partial (suc (suc (suc (suc (suc zero))))) false clears pos lt e =
    ground arith
stream-header_written_partial (suc (suc (suc (suc (suc (suc zero)))))) true clears pos lt e =
    ground arith
stream-header_written_partial (suc (suc (suc (suc (suc (suc zero)))))) false clears pos lt e =
    ground arith
stream-header_written_partial (suc (suc (suc (suc (suc (suc (suc zero))))))) true clears pos lt e =
    ground arith
stream-header_written_partial (suc (suc (suc (suc (suc (suc (suc zero))))))) false clears pos lt e =
    ground arith
stream-header_written_partial (suc (suc (suc (suc (suc (suc (suc (suc n)))))))) big clears pos lt
      e =
    absurd (omega arith)
