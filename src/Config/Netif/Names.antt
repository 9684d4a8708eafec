-- ===== src/Config/Netif/Names.antt =====
-- What the parser makes of a list of interfaces for a device with one port.
use pnet2csv.Common.{
  ℕ, zero, suc, ◌+◌, ◌*◌, ◌^◌, ◌<◌, ◌≤◌, ◌≡◌, ◌≢◌, refl, sym, ap, ap₂, ◌∙◌, [], ◌∷◌, ◌++◌, some,
  arith, Memory, store_byte, store_bytes, load_bytes, load_bytes-store_bytes,
  load_bytes-store_bytes_disjoint, length-load_bytes, store_bytes_outside, inl, subst, ok, length,
  All, take, replicate, get_or,
}
use pnet2csv.FileLogger.Names.{Text}
use pnet2csv.Config.Netif.{
  Parser, fresh, name_size, put_char, parse_char, parse_names, any_empty, copy_first,
  get_netif_namelist, copy_ip_to_struct,
}

-- No separator.
abbrev pub IsName : Text → Type 0
IsName = All (λ c. c ≢ b',')

-- What one character does.
unfoldable putting : Parser → ℕ → Parser
putting p c = record p { netif = store_byte p.netif (p.if_index * name_size + p.j) c; j = p.j + 1 }

parse_char-put :
    (p : Parser) (c : ℕ)
    → c ≢ b','
    → p.if_index < 2
    → p.j + 1 < 2 ^ 16
    → parse_char 2 p c ≡ putting p c
unfolding parse_char put_char putting
parse_char-put p c d low n = ground arith

parse_names-name :
    (p : Parser) (s : Text)
    → IsName s
    → p.if_index < 2
    → p.j + length s < 2 ^ 16
    → parse_names 2 p s ≡ record p {
      netif = store_bytes p.netif (p.if_index * name_size + p.j) s;
      j = p.j + length s;
    }
unfolding parse_names store_bytes putting
parse_names-name p [] h low n = ap (λ x. record p { j = x }) (omega arith)
parse_names-name p (c ∷ s) (d, h) low n =
    ap (λ x. parse_names 2 x s) (parse_char-put p c d low (omega arith))
    ∙ parse_names-name (putting p c) s h low (omega arith)
    ∙ ap₂ (λ (x y : ℕ). record p { netif = store_bytes (putting p c).netif x s; j = y })
        (omega arith) (omega arith)

-- Zeros stay beyond what is stored.
load_bytes-zeros :
    (m : Memory) (at n k : ℕ)
    → n ≤ k
    → ((i : ℕ) → at ≤ i → m i ≡ 0)
    → load_bytes m at n ≡ take n (replicate k 0)
unfolding load_bytes
load_bytes-zeros m at zero k le z = refl
load_bytes-zeros m at (suc n) zero le z = absurd (omega arith)
load_bytes-zeros m at (suc n) (suc k) le z =
    ap₂ ◌∷◌ (z at (omega arith))
      (load_bytes-zeros m (at + 1) n k (omega arith) (λ i l. z i (omega arith)))

load_bytes-padded :
    (m : Memory) (at n k : ℕ) (s : Text)
    → n ≤ k
    → ((i : ℕ) → at ≤ i → m i ≡ 0)
    → load_bytes (store_bytes m at s) at n ≡ take n (s ++ replicate k 0)
unfolding load_bytes store_bytes store_byte
load_bytes-padded m at n k [] le z = load_bytes-zeros m at n k le z
load_bytes-padded m at zero k (b ∷ s) le z = refl
load_bytes-padded m at (suc n) k (b ∷ s) le z =
    ap₂ ◌∷◌
      (store_bytes_outside (store_byte m at b) (at + 1) s at (inl (omega arith)) ∙ ground arith)
      (load_bytes-padded (store_byte m at b) (at + 1) n k s (omega arith)
        (λ i l. ground (arith, z i)))

-- `netif[1] = netif[0]`: both entries are the first one.
load_bytes-copy_first :
    (m : Memory)
    → (load_bytes (copy_first m) 0 name_size ≡ load_bytes m 0 name_size)
      × (load_bytes (copy_first m) name_size name_size ≡ load_bytes m 0 name_size)
unfolding copy_first
load_bytes-copy_first m = (
  load_bytes-store_bytes_disjoint m name_size (load_bytes m 0 name_size) 0 name_size
      (inl (omega arith)),
  subst
      (λ n.
        load_bytes (store_bytes m name_size (load_bytes m 0 name_size)) name_size n
        ≡ load_bytes m 0 name_size)
      (length-load_bytes m 0 name_size)
      (load_bytes-store_bytes m name_size (load_bytes m 0 name_size)),
)

accepted :
    (before : Memory) (s : Text) (q : Parser)
    → parse_names 2 fresh s ≡ q
    → q.number_of_given_names ≡ 1
    → q.netif 0 ≢ 0
    → get_netif_namelist before s 1
      ≡ record { netif = copy_first q.netif; num_ports = some 1; code = ok }
unfolding get_netif_namelist any_empty
accepted before s q e one first =
    subst
      (λ x.
        x.number_of_given_names ≡ 1
        → x.netif 0 ≢ 0
        → get_netif_namelist before s 1
          ≡ record { netif = copy_first x.netif; num_ports = some 1; code = ok })
      e (λ (n : (parse_names 2 fresh s).number_of_given_names ≡ 1) f. ground arith) one first

first_byte : (m : Memory) (s : Text) → 0 < length s → store_bytes m 0 s 0 ≡ get_or s 0 0
unfolding store_bytes store_byte
first_byte m [] n = absurd (omega arith)
first_byte m (b ∷ s) n = store_bytes_outside (store_byte m 0 b) 1 s 0 (inl (omega arith))

-- For a device with one port and a list of one name, not empty and with less than 32 characters, so
-- that it fits with its end into the 32 bytes that the array has for one port: the parser succeeds
-- with one port, and both entries of the array hold the first 16 bytes of the name, padded with
-- zeros. So a name of 16 characters or more is not terminated within its entry.
pub get_netif_namelist-name :
    (before : Memory) (s : Text)
    → IsName s
    → length s < 32
    → 0 < length s
    → get_or s 0 0 ≢ 0
    → let r = get_netif_namelist before s 1 in
      (r.code ≡ ok)
      × (r.num_ports ≡ some 1)
      × (load_bytes r.netif 0 name_size ≡ take name_size (s ++ replicate name_size 0))
      × (load_bytes r.netif name_size name_size ≡ take name_size (s ++ replicate name_size 0))
get_netif_namelist-name before s h n some_char first =
    let m : Memory = store_bytes (λ _. 0) 0 s in
    let e =
      accepted before s (record fresh { netif = m; j = 0 + length s })
        (parse_names-name fresh s h (omega arith) (omega arith)) refl
        (λ z. first (sym (first_byte (λ _. 0) s some_char) ∙ z)) in
    let (one, two) = load_bytes-copy_first m in
    let padded = load_bytes-padded (λ _. 0) 0 name_size name_size s (omega arith) (λ i l. refl) in
    (
      ap (λ x. x.code) e,
      ap (λ x. x.num_ports) e,
      ap (λ x. load_bytes x.netif 0 name_size) e ∙ one ∙ padded,
      ap (λ x. load_bytes x.netif name_size name_size) e ∙ two ∙ padded,
    )

-- The four bytes make up the address.
pub copy_ip_to_struct_lem :
    (ip : ℕ)
    → ip < 2 ^ 32
    → let r = copy_ip_to_struct ip in r.a * 2 ^ 24 + r.b * 2 ^ 16 + r.c * 2 ^ 8 + r.d ≡ ip
unfolding copy_ip_to_struct
copy_ip_to_struct_lem ip n = omega arith
