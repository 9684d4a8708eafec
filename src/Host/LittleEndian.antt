-- ===== src/Host/LittleEndian.antt =====
-- A little endian host meets the laws of `Host`.
use pnet2csv.Common.{ℕ, ◌+◌, ◌*◌, ◌/◌, ◌%◌, ◌^◌, ◌<◌, ◌≡◌, refl, List, [], ◌∷◌, arith}
use pnet2csv.Host.{Host}

abbrev pub swap16 : ℕ → ℕ
swap16 x = x % 256 * 256 + x / 256

abbrev pub swap32 : ℕ → ℕ
swap32 x = x % 256 * 2 ^ 24 + x / 2 ^ 8 % 256 * 2 ^ 16 + x / 2 ^ 16 % 256 * 2 ^ 8 + x / 2 ^ 24

abbrev pub bytes16 : ℕ → List ℕ
bytes16 x = x % 256 ∷ x / 256 ∷ []

abbrev pub bytes32 : ℕ → List ℕ
bytes32 x = x % 256 ∷ x / 2 ^ 8 % 256 ∷ x / 2 ^ 16 % 256 ∷ x / 2 ^ 24 ∷ []

pub bytes16-swap16 : (x : ℕ) → x < 2 ^ 16 → bytes16 (swap16 x) ≡ x / 256 ∷ x % 256 ∷ []
bytes16-swap16 x h = ground arith

pub bytes32-swap32 :
    (x : ℕ)
    → x < 2 ^ 32
    → bytes32 (swap32 x) ≡ x / 2 ^ 24 ∷ x / 2 ^ 16 % 256 ∷ x / 2 ^ 8 % 256 ∷ x % 256 ∷ []
bytes32-swap32 x h = ground arith

pub swap16-load : (a b : ℕ) → a < 256 → b < 256 → swap16 (a + b * 256) ≡ a * 256 + b
swap16-load a b ha hb = omega arith

pub swap32-load :
    (a b c d : ℕ)
    → a < 256
    → b < 256
    → c < 256
    → d < 256
    → swap32 (a + b * 2 ^ 8 + c * 2 ^ 16 + d * 2 ^ 24) ≡ a * 2 ^ 24 + b * 2 ^ 16 + c * 2 ^ 8 + d
swap32-load a b c d ha hb hc hd = omega arith

pub le16-load : (a b : ℕ) → a < 256 → b < 256 → a + b * 256 ≡ b * 256 + a
le16-load a b ha hb = omega arith

abbrev pub little_endian : Host
little_endian = record {
  to_be16 = swap16;
  to_le16 = λ x. x;
  to_be32 = swap32;
  to_le32 = λ x. x;
  from_be16 = swap16;
  from_le16 = λ x. x;
  from_be32 = swap32;
  store16 = bytes16;
  store32 = bytes32;
  load16 = λ a b. a + b * 256;
  load32 = λ a b c d. a + b * 2 ^ 8 + c * 2 ^ 16 + d * 2 ^ 24;
  store_be16 = bytes16-swap16;
  store_le16 = λ x h. refl;
  store_be32 = bytes32-swap32;
  store_le32 = λ x h. refl;
  load_be16 = swap16-load;
  load_le16 = le16-load;
  load_be32 = swap32-load;
}
