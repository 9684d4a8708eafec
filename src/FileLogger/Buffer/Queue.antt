-- ===== src/FileLogger/Buffer/Queue.antt =====
-- The entry buffer as a queue of at most 255 entries, oldest first.
use pnet2csv.Common.{
  ℕ, zero, suc, ◌+◌, ◌-◌, ◌*◌, ◌/◌, ◌%◌, ◌≤◌, ◌<◌, ◌≡◌, ◌≢◌, refl, ap, ap₂, ◌⊎◌, List, [], ◌∷◌,
  ◌++◌, Bool, arith, length, Memory, store_bytes, load_bytes, load_bytes-store_bytes,
  load_bytes-store_bytes_disjoint, ReturnCode, ok, error, if◌then◌else◌, ◌==◌, take-length,
}
use pnet2csv.Host.{Host}
use pnet2csv.FileLogger.Entry.{Dtl, IsDtl, var64_size, entry_size, entry_buffer_size}
use pnet2csv.FileLogger.Entry.Codec.{encode, length-encode, store_entry_lem}
use pnet2csv.FileLogger.Buffer.{
  EntryBuffer, Logger, initialise_logger_thread, is_full, append_entry, add_log_entry,
}

-- Both offsets lie on an entry inside the buffer.
pub record IsValid (b : EntryBuffer) : Type 0 where
  pub start_lt : b.start < entry_buffer_size
  pub end_lt : b.end < entry_buffer_size
  pub start_aligned : b.start % entry_size ≡ 0
  pub end_aligned : b.end % entry_size ≡ 0

-- How many entries are stored.
abbrev pub count : EntryBuffer → ℕ
count b = (b.end + entry_buffer_size - b.start) % entry_buffer_size / entry_size

-- The `n` entries from offset `at` on, going round at the end of the buffer.
unfoldable pub window : Memory → ℕ → ℕ → List (List ℕ)
window m at zero = []
window m at (suc n) =
    load_bytes m at entry_size ∷ window m ((at + entry_size) % entry_buffer_size) n

unfoldable pub contents : EntryBuffer → List (List ℕ)
contents b = window b.buffer b.start (count b)

length-window : (m : Memory) (at n : ℕ) → length (window m at n) ≡ n
unfolding window
length-window m at zero = refl
length-window m at (suc n) = ap suc (length-window m ((at + entry_size) % entry_buffer_size) n)

pub length-contents : (b : EntryBuffer) → length (contents b) ≡ count b
unfolding contents
length-contents b = length-window b.buffer b.start (count b)

-- The entry that a pass takes is the oldest one.
pub contents-pop :
    (b : EntryBuffer)
    → IsValid b
    → b.start ≢ b.end
    → contents b
      ≡ load_bytes b.buffer b.start entry_size
        ∷ contents (record b { start = (b.start + entry_size) % entry_buffer_size })
unfolding contents window
contents-pop b v ne = rw one_less
  where
    after : EntryBuffer
    after = record b { start = (b.start + entry_size) % entry_buffer_size }

    one_less : count b ≡ suc (count after)
    one_less = omega arith

-- Storing an entry just past a window that leaves a slot free extends the window by that entry.
window-store :
    (m : Memory) (bs : List ℕ) (n at i : ℕ)
    → length bs ≡ entry_size
    → at % entry_size ≡ 0
    → at < entry_buffer_size
    → n < 256
    → i ≡ (at + n * entry_size) % entry_buffer_size
    → window (store_bytes m i bs) at (suc n) ≡ window m at n ++ bs ∷ []
unfolding window
window-store m bs zero at i l a lt n e =
    let here : i ≡ at = omega arith in
    rw (here, ← l) (ap (λ x. x ∷ []) (load_bytes-store_bytes m at bs))
window-store m bs (suc n) at i l a lt b e =
    ap₂ ◌∷◌ (load_bytes-store_bytes_disjoint m i bs at entry_size apart) (
      window-store m bs n ((at + entry_size) % entry_buffer_size) i l (omega arith) (omega arith)
        (omega arith) (omega arith))
  where
    apart : (at + entry_size ≤ i) ⊎ (i + length bs ≤ at)
    apart = omega arith

-- A buffer is full when it holds 255 entries, and never holds more.
pub is_full-count : {b : EntryBuffer} → IsValid b → is_full b ≡ (count b == 255)
unfolding is_full
is_full-count v = ground arith

pub count_lt : (b : EntryBuffer) → count b < 256
count_lt b = omega arith

module _ (h : Host) {b : EntryBuffer} (v : IsValid b) where
  pub append_entry-IsValid :
      (big : Bool) (t : Dtl) (words : List ℕ) (n : ℕ) → IsValid (append_entry h big b t words n)
  unfolding append_entry
  append_entry-IsValid big t words n = ground (arith, v)

  pub contents-append_entry :
      (big : Bool) (t : Dtl) (words : List ℕ)
      → IsDtl t
      → length words ≡ var64_size
      → count b < 255
      → contents (append_entry h big b t words 64) ≡ contents b ++ encode big t words ∷ []
  unfolding append_entry contents
  contents-append_entry big t words d n room =
      rw
        (
          one_more,
          store_entry_lem h big b.buffer b.end t words 64 d,
          take-length 128 words (omega arith),
        )
        (window-store b.buffer (encode big t words) (count b) b.start b.end
          (omega (arith, length-encode big t words)) v.start_aligned v.start_lt (omega arith)
          (omega arith))
    where
      one_more :
          ((b.end + entry_size) % entry_buffer_size + entry_buffer_size - b.start)
            % entry_buffer_size
            / entry_size
          ≡ suc (count b)
      one_more = omega arith

-- The queue that the entry buffer implements.
unfoldable pub push : List (List ℕ) → List ℕ → List (List ℕ) × ReturnCode
push q e = if length q == 255 then (q, error) else (q ++ e ∷ [], ok)

-- A call leaves the byte order of the log alone.
pub add_log_entry-bigendian :
    (h : Host) (created : Bool) (l : Logger) (t : Dtl) (words : List ℕ) (n : ℕ)
    → (add_log_entry h created l t words n).0.bigendian ≡ l.bigendian
unfolding add_log_entry
add_log_entry-bigendian h created l t words n = ground arith

-- Every call keeps the buffer well formed, whatever its outcome.
pub add_log_entry-IsValid :
    (h : Host) (created : Bool) (l : Logger) (t : Dtl) (words : List ℕ) (n : ℕ)
    → IsValid l.entries
    → IsValid (add_log_entry h created l t words n).0.entries
unfolding add_log_entry
add_log_entry-IsValid h created l t words n v =
    ground (arith, append_entry-IsValid h v l.bigendian t words n)

-- On a well-formed buffer, a call with 64 words and a year is, on the entries that the ring holds, a
-- push of the encoded entry on a queue of at most 255 entries; a full queue refuses it.
pub add_log_entry_refines :
    (h : Host) (created : Bool) (l : Logger) (t : Dtl) (words : List ℕ)
    → IsValid l.entries
    → IsDtl t
    → length words ≡ var64_size
    → t.year ≢ 0
    → let (l', r) = add_log_entry h created l t words 64 in
      (contents l'.entries, r) ≡ push (contents l.entries) (encode l.bigendian t words)
unfolding add_log_entry push
add_log_entry_refines h created l t words v d n y = ground (
  arith,
  contents-append_entry h v l.bigendian t words d n,
  is_full-count v,
  length-contents l.entries,
  count_lt l.entries,
)

-- An entry whose year is 0 is refused, and no state but the thread's changes.
pub add_log_entry_uninitialised :
    (h : Host) (created : Bool) (l : Logger) (t : Dtl) (words : List ℕ) (n : ℕ)
    → t.year ≡ 0
    → let (l', r) = add_log_entry h created l t words n in
      (l'.entries ≡ l.entries)
      × (l'.drop_count ≡ l.drop_count)
      × (l'.next_logged_drop ≡ l.next_logged_drop)
      × (r ≡ error)
unfolding add_log_entry initialise_logger_thread
add_log_entry_uninitialised h created l t words n y = ground arith
