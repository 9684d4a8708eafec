-- ===== src/Common/Bytes.antt =====
-- A byte array as a function of the index, with the stores and loads of `memcpy`. Indices are
-- not limited here: the modules that use it prove where they stay.
use Prim.Native.Nat.{ℕ, zero, suc, ◌+◌, ◌≤◌, ◌<◌}
use mathlib.Core.Path.{◌≡◌, refl, ap, ap₂, ◌∙◌}
use mathlib.Core.Option.{some}
use mathlib.Core.Logic.{◌⊎◌, inl}
use mathlib.Core.List.{List, [], ◌∷◌, ◌++◌}
use native.Mathlib.Omega.{arith}
use pnet2csv.Common.Tests.{◌==◌, if◌then◌else◌}
use pnet2csv.Common.Lists.{length, get_elem?}

abbrev pub Memory : Type 0
Memory = ℕ → ℕ

unfoldable pub store_byte : Memory → ℕ → ℕ → Memory
store_byte m at v i = if i == at then v else m i

-- `memcpy (m + at, bytes, length bytes)`
unfoldable pub store_bytes : Memory → ℕ → List ℕ → Memory
store_bytes m at [] = m
store_bytes m at (b ∷ bs) = store_bytes (store_byte m at b) (at + 1) bs

-- The `n` bytes from `at` on.
unfoldable pub load_bytes : Memory → ℕ → ℕ → List ℕ
load_bytes m at zero = []
load_bytes m at (suc n) = m at ∷ load_bytes m (at + 1) n

pub length-load_bytes : (m : Memory) (at n : ℕ) → length (load_bytes m at n) ≡ n
unfolding load_bytes
length-load_bytes m at zero = refl
length-load_bytes m at (suc n) = omega (arith, length-load_bytes m (at + 1) n)

pub store_bytes_outside :
    (m : Memory) (at : ℕ) (bs : List ℕ) (i : ℕ)
    → (i < at) ⊎ (at + length bs ≤ i)
    → store_bytes m at bs i ≡ m i
unfolding store_bytes store_byte
store_bytes_outside m at [] i h = refl
store_bytes_outside m at (b ∷ bs) i h =
    ground (arith, store_bytes_outside (store_byte m at b) (at + 1) bs i)

pub load_bytes-store_bytes_disjoint :
    (m : Memory) (at : ℕ) (bs : List ℕ) (from n : ℕ)
    → (from + n ≤ at) ⊎ (at + length bs ≤ from)
    → load_bytes (store_bytes m at bs) from n ≡ load_bytes m from n
unfolding load_bytes
load_bytes-store_bytes_disjoint m at bs from zero h = refl
load_bytes-store_bytes_disjoint m at bs from (suc n) h =
    ap₂ ◌∷◌ (store_bytes_outside m at bs from (ground arith))
      (load_bytes-store_bytes_disjoint m at bs (from + 1) n (ground arith))

pub load_bytes-store_bytes :
    (m : Memory) (at : ℕ) (bs : List ℕ) → load_bytes (store_bytes m at bs) at (length bs) ≡ bs
unfolding load_bytes store_bytes store_byte
load_bytes-store_bytes m at [] = refl
load_bytes-store_bytes m at (b ∷ bs) =
    ap₂ ◌∷◌
      (store_bytes_outside (store_byte m at b) (at + 1) bs at (inl (omega arith)) ∙ ground arith)
      (load_bytes-store_bytes (store_byte m at b) (at + 1) bs)

-- Stores at consecutive places are one store.
pub store_bytes-append :
    (m : Memory) (at : ℕ) (bs cs : List ℕ)
    → store_bytes (store_bytes m at bs) (at + length bs) cs ≡ store_bytes m at (bs ++ cs)
unfolding store_bytes
store_bytes-append m at [] cs = ground arith
store_bytes-append m at (b ∷ bs) cs =
    ground (arith, store_bytes-append (store_byte m at b) (at + 1) bs cs)

pub get_elem?-load_bytes :
    (m : Memory) (at n i : ℕ) → i < n → get_elem? (load_bytes m at n) i ≡ some (m (at + i))
unfolding load_bytes
get_elem?-load_bytes m at zero i h = elim h [ ]
get_elem?-load_bytes m at (suc n) zero h = ap (λ k. some (m k)) (omega arith)
get_elem?-load_bytes m at (suc n) (suc i) h =
    get_elem?-load_bytes m (at + 1) n i (omega arith) ∙ ap (λ k. some (m k)) (omega arith)
