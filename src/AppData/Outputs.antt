-- ===== src/AppData/Outputs.antt =====
-- What the controller sends is what the logger reads.
use pnet2csv.Common.{
  ℕ, suc, ◌/◌, ◌%◌, ◌^◌, ◌≡◌, ◌≢◌, refl, ap, List, [], Option, none, some, arith, length,
  take-length, get_elem?, get_elem?-set_ne, true, ok, error, ◌⊎◌,
}
use pnet2csv.Host.{Host}
use pnet2csv.FileLogger.Entry.{Dtl, IsDtl}
use pnet2csv.FileLogger.Entry.Codec.{encode}
use pnet2csv.Gsdml.{logts_submodule, logw64_submodule, timestamp_size, var64_data_size}
use pnet2csv.Gsdml.Lookup.{get_parameter_cfg-none}
use pnet2csv.AppData.{
  AppData, decode_timestamp, set_output_data, set_default_outputs, read_log_data, write_parameter,
  read_parameter,
}

-- The controller's 12 bytes are decoded to the timestamp that they stand for.
decode_timestamp-encode : (h : Host) (t : Dtl) → IsDtl t → decode_timestamp h (encode true t []) ≡ t
unfolding decode_timestamp encode
decode_timestamp-encode h t d = ground (
  arith,
  h.load_be16 (t.year / 256) (t.year % 256),
  h.load_be32 (t.nanosecond / 2 ^ 24) (t.nanosecond / 2 ^ 16 % 256) (t.nanosecond / 2 ^ 8 % 256)
      (t.nanosecond % 256),
)

-- The timestamp submodule: what the controller encodes is what the logger then reads, and the
-- variables stay.
pub read_log_data-set_timestamp :
    (h : Host) (d : AppData) (t : Dtl)
    → IsDtl t
    → let (d', code) =
        set_output_data h d logts_submodule (some (encode true t [])) timestamp_size in
      (code ≡ ok) × (read_log_data d' ≡ (t, d.variabledata))
unfolding set_output_data read_log_data
read_log_data-set_timestamp h d t v =
    (refl, ap (λ x. (x, d.variabledata)) (decode_timestamp-encode h t v))

-- The variable submodule: the logger then reads the bytes that came, and the timestamp stays.
pub read_log_data-set_variables :
    (h : Host) (d : AppData) (bytes : List ℕ)
    → length bytes ≡ var64_data_size
    → let (d', code) = set_output_data h d logw64_submodule (some bytes) var64_data_size in
      (code ≡ ok) × (read_log_data d' ≡ (d.plc_timestamp, bytes))
unfolding set_output_data read_log_data
read_log_data-set_variables h d bytes n =
    (refl, ap (λ x. (d.plc_timestamp, x)) (take-length var64_data_size bytes (omega arith)))

-- Any other submodule, any other size and a null pointer are refused, and change nothing.
pub set_output_data-error :
    (h : Host) (d : AppData) (id : ℕ) (bytes : Option (List ℕ)) (size : ℕ)
    → (bytes ≡ none)
      ⊎ (((id ≢ logts_submodule) ⊎ (size ≢ timestamp_size))
          × ((id ≢ logw64_submodule) ⊎ (size ≢ var64_data_size)))
    → set_output_data h d id bytes size ≡ (d, error)
unfolding set_output_data
set_output_data-error h d id none size e = refl
set_output_data-error h d id (some bytes) size e = ground arith

-- The default outputs reset the first byte of the variables and keep all others, and the timestamp.
pub get_elem?-set_default_outputs :
    (d : AppData) (i : ℕ)
    → ((set_default_outputs d).plc_timestamp ≡ d.plc_timestamp)
      × (get_elem? (set_default_outputs d).variabledata (suc i) ≡ get_elem? d.variabledata (suc i))
unfolding set_default_outputs
get_elem?-set_default_outputs d i =
    (refl, get_elem?-set_ne d.variabledata 0 (suc i) 0 (omega arith))

-- Every access to a parameter is refused, whatever submodule, index and length.
pub parameter-error :
    (id index length : ℕ)
    → (write_parameter id index length ≡ error) × (read_parameter id index length ≡ error)
unfolding write_parameter read_parameter
parameter-error id index length = (
  rw (get_parameter_cfg-none id index, write_parameter),
  rw (get_parameter_cfg-none id index, read_parameter),
)
