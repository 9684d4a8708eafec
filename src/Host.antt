-- ===== src/Host.antt =====
-- The byte order macros of the operating system abstraction layer (CC_TO_BE16 and its kin, of a
-- submodule) and the layout of the host's integers in memory, which `memcpy` copies. None of it
-- is code of this repository, so it is a parameter with the documented layout as its laws.
pub mod LittleEndian
use pnet2csv.Common.{
  ℕ, ◌+◌, ◌*◌, ◌/◌, ◌%◌, ◌^◌, ◌<◌, ◌≡◌, List, [], ◌∷◌, length, arith, ltb, if◌then◌else◌,
}

pub record Host : Type 0 where
  pub to_be16 : ℕ → ℕ
  pub to_le16 : ℕ → ℕ
  pub to_be32 : ℕ → ℕ
  pub to_le32 : ℕ → ℕ
  pub from_be16 : ℕ → ℕ
  pub from_le16 : ℕ → ℕ
  pub from_be32 : ℕ → ℕ
  -- The bytes of an integer, at rising addresses.
  pub store16 : ℕ → List ℕ
  pub store32 : ℕ → List ℕ
  -- The integer at such bytes.
  pub load16 : ℕ → ℕ → ℕ
  pub load32 : ℕ → ℕ → ℕ → ℕ → ℕ
  pub store_be16 : (x : ℕ) → x < 2 ^ 16 → store16 (to_be16 x) ≡ x / 256 ∷ x % 256 ∷ []
  pub store_le16 : (x : ℕ) → x < 2 ^ 16 → store16 (to_le16 x) ≡ x % 256 ∷ x / 256 ∷ []
  pub store_be32 :
      (x : ℕ)
      → x < 2 ^ 32
      → store32 (to_be32 x) ≡ x / 2 ^ 24 ∷ x / 2 ^ 16 % 256 ∷ x / 2 ^ 8 % 256 ∷ x % 256 ∷ []
  pub store_le32 :
      (x : ℕ)
      → x < 2 ^ 32
      → store32 (to_le32 x) ≡ x % 256 ∷ x / 2 ^ 8 % 256 ∷ x / 2 ^ 16 % 256 ∷ x / 2 ^ 24 ∷ []
  pub load_be16 : (a b : ℕ) → a < 256 → b < 256 → from_be16 (load16 a b) ≡ a * 256 + b
  pub load_le16 : (a b : ℕ) → a < 256 → b < 256 → from_le16 (load16 a b) ≡ b * 256 + a
  pub load_be32 :
      (a b c d : ℕ)
      → a < 256
      → b < 256
      → c < 256
      → d < 256
      → from_be32 (load32 a b c d) ≡ a * 2 ^ 24 + b * 2 ^ 16 + c * 2 ^ 8 + d
