-- ===== src/Texts/Addresses.antt =====
-- The printed addresses are whole, and can be read back.
use pnet2csv.Common.{
  ℕ, ◌+◌, ◌-◌, ◌*◌, ◌/◌, ◌%◌, ◌^◌, ◌<◌, ◌≤◌, ◌≡◌, refl, ap, ap₂, List, [], ◌∷◌, ◌++◌, Option, none,
  some, arith, length, length-append, take-length, All, ltb, ◌==◌, if◌then◌else◌, ◌>>=◌,
}
use pnet2csv.FileLogger.Names.{Text, decimal, scan_unsigned}
use pnet2csv.Config.Netif.{IpAddr, copy_ip_to_struct}
use pnet2csv.Texts.{fitted, dotted, ip_to_string, hex_digit, hex_byte, colons, mac_to_string}

-- The character, and what follows it.
unfoldable pub expect : ℕ → Text → Option Text
expect c [] = none
expect c (x ∷ s) = if x == c then some s else none

-- What `sscanf` reads with "%3hu.%3hu.%3hu.%3hu".
unfoldable pub read_ip : Text → Option (IpAddr × Text)
read_ip s = do
  (a, s1) ← scan_unsigned 3 s
  s2 ← expect b'.' s1
  (b, s3) ← scan_unsigned 3 s2
  s4 ← expect b'.' s3
  (c, s5) ← scan_unsigned 3 s4
  s6 ← expect b'.' s5
  (d, s7) ← scan_unsigned 3 s6
  some (record { a = a; b = b; c = c; d = d }, s7)

length-decimal : (n : ℕ) → length (decimal 3 n) ≤ 3
unfolding decimal
length-decimal n = ground arith

scan-decimal_dot :
    (n : ℕ) (s : Text) → n < 256 → scan_unsigned 3 (decimal 3 n ++ (b'.' ∷ s)) ≡ some (n, b'.' ∷ s)
unfolding scan_unsigned decimal
scan-decimal_dot n s h = ground arith

scan-decimal_end : (n : ℕ) → n < 256 → scan_unsigned 3 (decimal 3 n) ≡ some (n, [])
unfolding scan_unsigned decimal
scan-decimal_end n h = ground arith

length-dotted : (a b c d : ℕ) → length (dotted a b c d) ≤ 15
unfolding dotted
length-dotted a b c d = omega (
  arith,
  length-decimal a,
  length-decimal b,
  length-decimal c,
  length-decimal d,
  length-append (decimal 3 a)
      (b'.' ∷ (decimal 3 b ++ (b'.' ∷ (decimal 3 c ++ (b'.' ∷ decimal 3 d))))),
  length-append (decimal 3 b) (b'.' ∷ (decimal 3 c ++ (b'.' ∷ decimal 3 d))),
  length-append (decimal 3 c) (b'.' ∷ decimal 3 d),
)

read_ip-dotted :
    (a b c d : ℕ)
    → a < 256
    → b < 256
    → c < 256
    → d < 256
    → read_ip (dotted a b c d) ≡ some (record { a = a; b = b; c = c; d = d }, [])
unfolding read_ip dotted expect
read_ip-dotted a b c d ha hb hc hd =
    rw (scan-decimal_dot a _ ha) (
      rw (scan-decimal_dot b _ hb) (rw (scan-decimal_dot c _ hc) (rw (scan-decimal_end d hd) refl)))

-- The printed address is not cut off, and reads back as the four bytes that the configuration has.
pub read_ip-ip_to_string : (ip : ℕ) → read_ip (ip_to_string ip) ≡ some (copy_ip_to_struct ip, [])
unfolding ip_to_string fitted copy_ip_to_struct
read_ip-ip_to_string ip =
    let whole =
      take-length 15 (dotted (ip / 2 ^ 24 % 256) (ip / 2 ^ 16 % 256) (ip / 2 ^ 8 % 256) (ip % 256))
        (length-dotted _ _ _ _) in
    rw whole (read_ip-dotted _ _ _ _ (omega arith) (omega arith) (omega arith) (omega arith))

-- The value of a digit of %X.
unfoldable pub hex_value : ℕ → ℕ
hex_value c = if ltb c b'A' then c - b'0' else c - b'A' + 10

-- Two digits and a separator, again and again.
unfoldable pub read_pairs : Text → List ℕ
read_pairs [] = []
read_pairs (x ∷ []) = []
read_pairs (x ∷ y ∷ []) = (hex_value x * 16 + hex_value y) ∷ []
read_pairs (x ∷ y ∷ c ∷ s) = (hex_value x * 16 + hex_value y) ∷ read_pairs s

hex_value-hex_digit : (n : ℕ) → n < 16 → hex_value (hex_digit n) ≡ n
unfolding hex_value hex_digit
hex_value-hex_digit n h = ground arith

pub hex_byte_lem :
    (n : ℕ) → n < 256 → hex_value (hex_digit (n / 16)) * 16 + hex_value (hex_digit (n % 16)) ≡ n
hex_byte_lem n h =
    omega (
      arith,
      hex_value-hex_digit (n / 16) (omega arith),
      hex_value-hex_digit (n % 16) (omega arith),
    )

read_pairs-colons : (bs : List ℕ) → All (λ b. b < 256) bs → read_pairs (colons bs) ≡ bs
unfolding read_pairs colons hex_byte
read_pairs-colons [] h = refl
read_pairs-colons (b ∷ []) (lt, h) = ap (λ x. x ∷ []) (hex_byte_lem b lt)
read_pairs-colons (b ∷ c ∷ bs) (lt, h) = ap₂ ◌∷◌ (hex_byte_lem b lt) (read_pairs-colons (c ∷ bs) h)

length-colons : (b : ℕ) (bs : List ℕ) → length (colons (b ∷ bs)) ≡ 2 + 3 * length bs
unfolding colons hex_byte
length-colons b [] = refl
length-colons b (c ∷ bs) = omega (arith, length-colons c bs)

-- The printed hardware address of six bytes is not cut off, and reads back as these bytes.
pub read_pairs-mac_to_string :
    (b : ℕ) (bs : List ℕ)
    → length bs ≡ 5
    → All (λ x. x < 256) (b ∷ bs)
    → read_pairs (mac_to_string (b ∷ bs)) ≡ b ∷ bs
unfolding mac_to_string fitted
read_pairs-mac_to_string b bs n h =
    rw (take-length 17 (colons (b ∷ bs)) (omega (arith, length-colons b bs)))
      (read_pairs-colons (b ∷ bs) h)
