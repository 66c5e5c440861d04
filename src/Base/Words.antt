-- ===== src/Base/Words.antt =====
-- Little-endian words over bytes, as the compiler lays out `uint16_t`, `uint32_t` and `uint64_t`.
use Prim.Native.Nat.{ℕ, zero, suc, ◌+◌, ◌*◌, ◌/◌, ◌%◌, ◌^◌, ◌<◌}
use mathlib.Core.Path.{◌≡◌, refl, ap}
use mathlib.Core.List.{List, [], ◌∷◌}
use native.Mathlib.Omega.{arith}
use open_vbus.Base.Lists.{length, All}

abbrev pub Bytes : Type 0
Bytes = List ℕ

abbrev pub IsByte : ℕ → Type 0
IsByte b = b < 256

-- The `n` low bytes of `v`, least significant first.
abbrev pub le_bytes : ℕ → ℕ → Bytes
le_bytes zero v = []
le_bytes (suc n) v = v % 256 ∷ le_bytes n (v / 256)

abbrev pub of_le : Bytes → ℕ
of_le [] = 0
of_le (b ∷ bs) = b + 256 * of_le bs

pub length-le_bytes : (n v : ℕ) → length (le_bytes n v) ≡ n
length-le_bytes zero v = refl
length-le_bytes (suc n) v = ap suc (length-le_bytes n (v / 256))

pub All-le_bytes : (n v : ℕ) → All IsByte (le_bytes n v)
All-le_bytes zero v = tt
All-le_bytes (suc n) v = (omega arith, All-le_bytes n (v / 256))

-- A word of each width that the program uses survives the trip through its bytes.
pub of_le-le_bytes_4 : (v : ℕ) → v < 2 ^ 32 → of_le (le_bytes 4 v) ≡ v
of_le-le_bytes_4 v h = omega arith

pub of_le-le_bytes_8 : (v : ℕ) → v < 2 ^ 64 → of_le (le_bytes 8 v) ≡ v
of_le-le_bytes_8 v h = omega arith
