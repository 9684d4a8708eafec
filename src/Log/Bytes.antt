-- ===== src/Log/Bytes.antt =====
-- The bytes that the application log prints can be read back.
use pnet2csv.Common.{ℕ, ◌≤◌, ◌<◌, ◌≡◌, refl, ap₂, List, [], ◌∷◌, ◌++◌, All, drop, le→leb}
use pnet2csv.FileLogger.Names.{Text}
use pnet2csv.Texts.Addresses.{read_pairs, hex_byte_lem}
use pnet2csv.Log.{spaced_bytes, print_bytes}

-- What stands behind "  Bytes: ".
unfoldable pub read_bytes : Text → List ℕ
read_bytes text = read_pairs (drop 9 text)

read_pairs-spaced_bytes :
    (bytes : List ℕ)
    → All (λ b. b < 256) bytes
    → read_pairs (spaced_bytes bytes ++ b'\n' ∷ []) ≡ bytes
unfolding read_pairs spaced_bytes
read_pairs-spaced_bytes [] h = refl
read_pairs-spaced_bytes (b ∷ bytes) (lt, h) =
    ap₂ ◌∷◌ (hex_byte_lem b lt) (read_pairs-spaced_bytes bytes h)

-- Where the level lets it through, app_log_print_bytes prints all the bytes, in order.
pub read_bytes-print_bytes :
    (log_level level : ℕ) (bytes : List ℕ)
    → log_level ≤ level
    → All (λ b. b < 256) bytes
    → read_bytes (print_bytes log_level level bytes) ≡ bytes
unfolding read_bytes print_bytes
read_bytes-print_bytes log_level level bytes le h =
    rw (le→leb log_level level le) (read_pairs-spaced_bytes bytes h)
