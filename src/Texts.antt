-- ===== src/Texts.antt =====
-- `app_utils_ip_to_string` and `app_utils_mac_to_string` of pn_logger/app_utils.c.
pub mod Addresses
pub mod Enums
mod Tests
use pnet2csv.Common.{
  ℕ, zero, suc, ◌+◌, ◌-◌, ◌/◌, ◌%◌, ◌^◌, List, [], ◌∷◌, ◌++◌, take, ltb, if◌then◌else◌,
}
use pnet2csv.FileLogger.Names.{Text, decimal}

-- PNAL_INET_ADDRSTR_SIZE and PNAL_ETH_ADDRSTR_SIZE, with the terminating 0
abbrev pub inet_addrstr_size : ℕ
inet_addrstr_size = 16

abbrev pub eth_addrstr_size : ℕ
eth_addrstr_size = 18

-- What `snprintf` leaves of a text in an array of this size, without the terminating 0.
unfoldable pub fitted : ℕ → Text → Text
fitted size text = take (size - 1) text

-- "%u.%u.%u.%u", for numbers below 256.
unfoldable pub dotted : ℕ → ℕ → ℕ → ℕ → Text
dotted a b c d =
    decimal 3 a ++ (b'.' ∷ (decimal 3 b ++ (b'.' ∷ (decimal 3 c ++ (b'.' ∷ decimal 3 d)))))

unfoldable pub ip_to_string : ℕ → Text
ip_to_string ip =
    fitted inet_addrstr_size
      (dotted (ip / 2 ^ 24 % 256) (ip / 2 ^ 16 % 256) (ip / 2 ^ 8 % 256) (ip % 256))

-- A digit of %X.
unfoldable pub hex_digit : ℕ → ℕ
hex_digit n = if ltb n 10 then b'0' + n else b'A' + (n - 10)

-- %02X, for a byte.
unfoldable pub hex_byte : ℕ → Text
hex_byte n = hex_digit (n / 16) ∷ hex_digit (n % 16) ∷ []

-- The bytes with colons in between.
unfoldable pub colons : List ℕ → Text
colons [] = []
colons (b ∷ []) = hex_byte b
colons (b ∷ c ∷ bs) = hex_byte b ++ (b':' ∷ colons (c ∷ bs))

-- The six bytes of the address.
unfoldable pub mac_to_string : List ℕ → Text
mac_to_string mac = fitted eth_addrstr_size (colons mac)
