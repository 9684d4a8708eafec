-- ===== src/FileLogger/Entry.antt =====
-- The PLC timestamp (`DTL_data_t` of pn_logger/app_data.h) and the bytes of a log entry, as
-- `addLogEntry` stores them into the entry buffer and `log_thread_main` reads them back.
pub mod Codec
use pnet2csv.Common.{
  ℕ, ◌+◌, ◌*◌, ◌/◌, ◌^◌, ◌<◌, List, [], ◌∷◌, ◌++◌, Bool, ◌&&◌, Memory, store_bytes, take,
  if◌then◌else◌, ◌==◌,
}
use pnet2csv.Host.{Host}

pub record Dtl : Type 0 where
  pub year : ℕ
  pub month : ℕ
  pub day : ℕ
  pub weekday : ℕ
  pub hour : ℕ
  pub minute : ℕ
  pub second : ℕ
  pub nanosecond : ℕ

-- The C types of the fields: `uint16_t`, `uint8_t`, `uint32_t`.
pub record IsDtl (t : Dtl) : Type 0 where
  pub year_lt : t.year < 2 ^ 16
  pub month_lt : t.month < 256
  pub day_lt : t.day < 256
  pub weekday_lt : t.weekday < 256
  pub hour_lt : t.hour < 256
  pub minute_lt : t.minute < 256
  pub second_lt : t.second < 256
  pub nanosecond_lt : t.nanosecond < 2 ^ 32

-- A zero-initialised timestamp.
abbrev pub no_time : Dtl
no_time = record {
  year = 0;
  month = 0;
  day = 0;
  weekday = 0;
  hour = 0;
  minute = 0;
  second = 0;
  nanosecond = 0;
}

-- APP_GSDML_VAR64_DATA_DIGITAL_SIZE
abbrev pub var64_size : ℕ
var64_size = 128

-- ENTRY_SIZE
abbrev pub entry_size : ℕ
entry_size = 12 + var64_size

-- ENTRY_BUFFER_SIZE
abbrev pub entry_buffer_size : ℕ
entry_buffer_size = 256 * entry_size

-- Do two timestamps fall into the same ten minutes?
unfoldable pub same_log : Dtl → Dtl → Bool
same_log a b =
    a.minute / 10 == b.minute / 10
    && (a.hour == b.hour && (a.day == b.day && (a.month == b.month && a.year == b.year)))

module _ (h : Host) (bigendian : Bool) where
  open h use {to_be16, to_le16, to_be32, to_le32, from_be16, from_le16, store16, store32, load16}

  -- The stores of `addLogEntry` from `at` on: `memcpy` of the year, six bytes one by one, `memcpy`
  -- of the nanosecond and of `word_count` words.
  unfoldable pub store_entry : Memory → ℕ → Dtl → List ℕ → ℕ → Memory
  store_entry m at t word_data word_count =
      let year = if bigendian then to_be16 t.year else to_le16 t.year in
      let nano = if bigendian then to_be32 t.nanosecond else to_le32 t.nanosecond in
      let m1 = store_bytes m at (store16 year) in
      let m2 =
        store_bytes m1 (at + 2) (t.month ∷ t.day ∷ t.weekday ∷ t.hour ∷ t.minute ∷ t.second ∷ []) in
      let m3 = store_bytes m2 (at + 8) (store32 nano) in
      store_bytes m3 (at + 12) (take (2 * word_count) word_data)

  -- What the logging thread reads of an entry's timestamp. Its other fields keep what stood in
  -- the thread's uninitialised variable.
  unfoldable pub load_timestamp : Memory → ℕ → Dtl → Dtl
  load_timestamp m at stale =
      let raw = load16 (m at) (m (at + 1)) in
      record stale {
        year = if bigendian then from_be16 raw else from_le16 raw;
        month = m (at + 2);
        day = m (at + 3);
        hour = m (at + 5);
        minute = m (at + 6);
      }
