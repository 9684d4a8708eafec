-- ===== src/FileLogger/Thread/Locks/Oldest.antt =====
-- A call of `addLogEntry` leaves the oldest entry of the ring alone.
use pnet2csv.Common.{
  ℕ, ◌+◌, ◌%◌, ◌<◌, ◌≤◌, ◌≡◌, ◌≢◌, refl, sym, ap, ◌∙◌, ◌⊎◌, inl, inr, List, Bool, false, arith,
  length, Bool-cases, Memory, store_bytes_outside, ◌==◌, take-length,
}
use pnet2csv.Host.{Host}
use pnet2csv.FileLogger.Entry.{
  Dtl, IsDtl, var64_size, entry_size, entry_buffer_size, load_timestamp,
}
use pnet2csv.FileLogger.Entry.Codec.{encode, length-encode, store_entry_lem}
use pnet2csv.FileLogger.Buffer.{
  EntryBuffer, Logger, is_full, append_entry, add_log_entry, initialise_logger_thread, drop_entry,
  recover_from_drop,
}
use pnet2csv.FileLogger.Buffer.Queue.{IsValid, add_log_entry-bigendian}

-- The buffer stays, or has one more entry, for which there was room.
add_log_entry-entries :
    (h : Host) (created : Bool) (l : Logger) (t : Dtl) (words : List ℕ)
    → ((add_log_entry h created l t words 64).0.entries ≡ l.entries)
      ⊎ ((is_full l.entries ≡ false)
          × ((add_log_entry h created l t words 64).0.entries
              ≡ append_entry h l.bigendian l.entries t words 64))
unfolding add_log_entry initialise_logger_thread drop_entry recover_from_drop
add_log_entry-entries h created l t words = elim (Bool-cases (t.year == 0)) [
  | inl undated ↦ inl (ground arith)
  | inr dated ↦ elim (Bool-cases (is_full l.entries)) [
    | inl full ↦ inl (ground arith)
    | inr room ↦ inr (room, ground arith)
  ]
]

-- The bytes of the oldest entry are outside of what is stored.
append_entry-oldest :
    (h : Host) (big : Bool) (b : EntryBuffer) (t : Dtl) (words : List ℕ) (i : ℕ)
    → IsValid b
    → b.start ≢ b.end
    → IsDtl t
    → length words ≡ var64_size
    → i < entry_size
    → (append_entry h big b t words 64).buffer (b.start + i) ≡ b.buffer (b.start + i)
unfolding append_entry
append_entry-oldest h big b t words i v ne d n lt =
    rw (store_entry_lem h big b.buffer b.end t words 64 d, take-length 128 words (omega (arith, n)))
      (store_bytes_outside b.buffer b.end (encode big t words) (b.start + i) outside)
  where
    outside : (b.start + i < b.end) ⊎ (b.end + length (encode big t words) ≤ b.start + i)
    outside = omega (arith, length-encode big t words, n, v)

-- What the logging thread may rely on while it is without the mutex.
pub record SameOldest (h : Host) (l l' : Logger) : Type 0 where
  pub same_start : l'.entries.start ≡ l.entries.start
  pub nonempty : l'.entries.start ≢ l'.entries.end
  pub same_order : l'.bigendian ≡ l.bigendian
  pub same_timestamp :
      (stale : Dtl)
      → load_timestamp h l'.bigendian l'.entries.buffer l'.entries.start stale
        ≡ load_timestamp h l.bigendian l.entries.buffer l.entries.start stale

load_timestamp-same :
    (h : Host) (big : Bool) (m m' : Memory) (at : ℕ) (stale : Dtl)
    → ((i : ℕ) → i < entry_size → m' (at + i) ≡ m (at + i))
    → load_timestamp h big m' at stale ≡ load_timestamp h big m at stale
unfolding load_timestamp
load_timestamp-same h big m m' at stale same =
    let first : m' at ≡ m at = ap m' (omega arith) ∙ same 0 (omega arith) ∙ ap m (omega arith) in
    rw
      (
        first,
        same 1 (omega arith),
        same 2 (omega arith),
        same 3 (omega arith),
        same 5 (omega arith),
        same 6 (omega arith),
      )
      refl

append_entry-fields :
    (h : Host) (big : Bool) (b : EntryBuffer) (t : Dtl) (words : List ℕ)
    → ((append_entry h big b t words 64).start ≡ b.start)
      × ((append_entry h big b t words 64).end ≡ (b.end + entry_size) % entry_buffer_size)
unfolding append_entry
append_entry-fields h big b t words = (refl, refl)

room_left :
    (b : EntryBuffer) → is_full b ≡ false → b.start ≢ (b.end + entry_size) % entry_buffer_size
unfolding is_full
room_left b room e = ground arith

pub add_log_entry-SameOldest :
    (h : Host) (created : Bool) (l : Logger) (t : Dtl) (words : List ℕ)
    → IsValid l.entries
    → l.entries.start ≢ l.entries.end
    → IsDtl t
    → length words ≡ var64_size
    → SameOldest h l (add_log_entry h created l t words 64).0
add_log_entry-SameOldest h created l t words v ne d n =
    let order = add_log_entry-bigendian h created l t words 64 in
    elim (add_log_entry-entries h created l t words) [
      | inl same ↦ record {
        same_start = ap (λ b. b.start) same;
        nonempty = rw same ne;
        same_order = order;
        same_timestamp = λ stale. rw (same, order) refl;
      }
      | inr (room, e) ↦
          let (start, end) = append_entry-fields h l.bigendian l.entries t words in
          record {
            same_start = ap (λ b. b.start) e ∙ start;
            nonempty = λ empty.
                room_left l.entries room
                  (sym start ∙ ap (λ b. b.start) (sym e) ∙ empty ∙ ap (λ b. b.end) e ∙ end);
            same_order = order;
            same_timestamp = λ stale.
                rw (e, order, start)
                  (load_timestamp-same h l.bigendian l.entries.buffer
                    (append_entry h l.bigendian l.entries t words 64).buffer l.entries.start stale
                    (λ i lt. append_entry-oldest h l.bigendian l.entries t words i v ne d n lt));
          }
    ]
