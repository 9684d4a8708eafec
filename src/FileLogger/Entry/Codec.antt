-- ===== src/FileLogger/Entry/Codec.antt =====
-- The bytes of an entry: `addLogEntry` stores the timestamp in the order of the log format, and
-- the logging thread reads the same timestamp back.
use pnet2csv.Common.{
  ℕ, ◌+◌, ◌*◌, ◌/◌, ◌%◌, ◌^◌, ◌<◌, ◌≡◌, refl, ap, List, [], ◌∷◌, ◌++◌, Bool, true, false, arith,
  length, take, Memory, store_bytes, load_bytes, get_elem?-load_bytes, get_elem?, some,
  if◌then◌else◌,
}
use pnet2csv.Host.{Host}
use pnet2csv.FileLogger.Entry.{Dtl, IsDtl, var64_size, entry_size, store_entry, load_timestamp}

-- The year and the nanosecond in the byte order of the log.
unfoldable pub year_bytes : Bool → ℕ → List ℕ
year_bytes true y = y / 256 ∷ y % 256 ∷ []
year_bytes false y = y % 256 ∷ y / 256 ∷ []

unfoldable pub nanosecond_bytes : Bool → ℕ → List ℕ
nanosecond_bytes true n = n / 2 ^ 24 ∷ n / 2 ^ 16 % 256 ∷ n / 2 ^ 8 % 256 ∷ n % 256 ∷ []
nanosecond_bytes false n = n % 256 ∷ n / 2 ^ 8 % 256 ∷ n / 2 ^ 16 % 256 ∷ n / 2 ^ 24 ∷ []

-- An entry of the log format: 12 bytes of timestamp, then the variables.
unfoldable pub encode : Bool → Dtl → List ℕ → List ℕ
unfolding year_bytes nanosecond_bytes
encode big t words =
    year_bytes big t.year
    ++ ((t.month ∷ t.day ∷ t.weekday ∷ t.hour ∷ t.minute ∷ t.second ∷ [])
        ++ (nanosecond_bytes big t.nanosecond ++ words))

pub length-encode :
    (big : Bool) (t : Dtl) (words : List ℕ) → length (encode big t words) ≡ 12 + length words
unfolding encode
length-encode true t words = omega arith
length-encode false t words = omega arith

module _ (h : Host) where
  stored_year :
      (big : Bool) (y : ℕ)
      → y < 2 ^ 16
      → h.store16 (if big then h.to_be16 y else h.to_le16 y) ≡ year_bytes big y
  unfolding year_bytes
  stored_year true y b = h.store_be16 y b
  stored_year false y b = h.store_le16 y b

  stored_nanosecond :
      (big : Bool) (n : ℕ)
      → n < 2 ^ 32
      → h.store32 (if big then h.to_be32 n else h.to_le32 n) ≡ nanosecond_bytes big n
  unfolding nanosecond_bytes
  stored_nanosecond true n b = h.store_be32 n b
  stored_nanosecond false n b = h.store_le32 n b

store_parts :
    (m : Memory) (at : ℕ) (big : Bool) (t : Dtl) (words : List ℕ)
    → store_bytes
        (store_bytes
          (store_bytes
            (store_bytes m at (year_bytes big t.year))
            (at + 2)
            (t.month ∷ t.day ∷ t.weekday ∷ t.hour ∷ t.minute ∷ t.second ∷ []))
          (at + 8)
          (nanosecond_bytes big t.nanosecond))
        (at + 12)
        words
      ≡ store_bytes m at (encode big t words)
unfolding encode store_bytes
store_parts m at true t words = ground arith
store_parts m at false t words = ground arith

-- `addLogEntry` stores exactly the encoded entry.
pub store_entry_lem :
    (h : Host) (big : Bool) (m : Memory) (at : ℕ) (t : Dtl) (words : List ℕ) (count : ℕ)
    → IsDtl t
    → store_entry h big m at t words count
      ≡ store_bytes m at (encode big t (take (2 * count) words))
unfolding store_entry
store_entry_lem h big m at t words count d =
    rw (stored_year h big t.year d.year_lt, stored_nanosecond h big t.nanosecond d.nanosecond_lt)
      (store_parts m at big t (take (2 * count) words))

-- The fields that say which log an entry belongs to.
pub record SameStart (a b : Dtl) : Type 0 where
  pub same_year : a.year ≡ b.year
  pub same_month : a.month ≡ b.month
  pub same_day : a.day ≡ b.day
  pub same_hour : a.hour ≡ b.hour
  pub same_minute : a.minute ≡ b.minute

byte_at :
    (m : Memory) (at : ℕ) (bs : List ℕ) (i v : ℕ)
    → load_bytes m at entry_size ≡ bs
    → i < entry_size
    → get_elem? bs i ≡ some v
    → m (at + i) ≡ v
byte_at m at bs i v e l g = cc (get_elem?-load_bytes m at entry_size i l, ap (λ l. get_elem? l i) e)

module _ (h : Host) where
  loaded_year :
      (big : Bool) (y : ℕ) (a b : ℕ)
      → y < 2 ^ 16
      → year_bytes big y ≡ a ∷ b ∷ []
      → (if big then h.from_be16 (h.load16 a b) else h.from_le16 (h.load16 a b)) ≡ y
  unfolding year_bytes
  loaded_year true y a b l e = ground (arith, h.load_be16 a b)
  loaded_year false y a b l e = ground (arith, h.load_le16 a b)

  -- Where an encoded entry lies in memory, the logging thread reads its year, month, day, hour
  -- and minute.
  pub load_timestamp_lem :
      (big : Bool) (m : Memory) (at : ℕ) (stale t : Dtl) (words : List ℕ)
      → IsDtl t
      → length words ≡ var64_size
      → load_bytes m at entry_size ≡ encode big t words
      → SameStart (load_timestamp h big m at stale) t
  unfolding load_timestamp encode year_bytes
  load_timestamp_lem true m at stale t words d n e = record {
    same_year = ground (
      arith,
      loaded_year true t.year (m at) (m (at + 1)) d.year_lt,
      byte 0 (t.year / 256),
      byte 1 (t.year % 256),
    );
    same_month = byte 2 t.month (omega arith) refl;
    same_day = byte 3 t.day (omega arith) refl;
    same_hour = byte 5 t.hour (omega arith) refl;
    same_minute = byte 6 t.minute (omega arith) refl;
  }
    where
      byte :
          (i v : ℕ) → i < entry_size → get_elem? (encode true t words) i ≡ some v → m (at + i) ≡ v
      byte i v l g = byte_at m at (encode true t words) i v e l g
  load_timestamp_lem false m at stale t words d n e = record {
    same_year = ground (
      arith,
      loaded_year false t.year (m at) (m (at + 1)) d.year_lt,
      byte 0 (t.year % 256),
      byte 1 (t.year / 256),
    );
    same_month = byte 2 t.month (omega arith) refl;
    same_day = byte 3 t.day (omega arith) refl;
    same_hour = byte 5 t.hour (omega arith) refl;
    same_minute = byte 6 t.minute (omega arith) refl;
  }
    where
      byte :
          (i v : ℕ) → i < entry_size → get_elem? (encode false t words) i ≡ some v → m (at + i) ≡ v
      byte i v l g = byte_at m at (encode false t words) i v e l g
