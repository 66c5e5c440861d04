-- ===== src/Frame/Hex.antt =====
-- `hex_to_bytes` of vbus/src/bus/frame.h against an independent printer.
use Prim.Native.Nat.{bit_or, bit_and}
use mathlib.Core.Path.{ap₂}
use open_vbus.Base.{
  ◌∙◌, inl, inr, Bool-cases, ℕ, zero, suc, ◌+◌, ◌*◌, ◌/◌, ◌%◌, ◌<◌, ◌≡◌, refl, [], ◌∷◌, arith, ltb,
  ◌==◌, if◌then◌else◌, if_cases, Bytes, IsByte, Text, length, All,
}
use open_vbus.Frame.{h2n, hex_byte, hex_pairs, hex_to_bytes}

-- A digit in lower case, as `%02x` prints it.
unfoldable pub hex_digit : ℕ → ℕ
hex_digit n = if ltb n 10 then 48 + n else 87 + n

unfoldable pub to_hex : Bytes → Text
to_hex [] = []
to_hex (b ∷ bs) = hex_digit (b / 16) ∷ hex_digit (b % 16) ∷ to_hex bs

-- how many of the numbers up to `top` a function moves
moved : (ℕ → ℕ) → ℕ → ℕ
moved g zero = 0
moved g (suc top) = moved g top + (if g top == top then 0 else 1)

unmoved : (g : ℕ → ℕ) (top b : ℕ) → moved g top ≡ 0 → b < top → g b ≡ b
unfolding moved
unmoved g zero b none_moved small = absurd (omega arith)
unmoved g (suc top) b none_moved small = elim (Bool-cases (b == top)) [
  | inl e ↦ ground arith
  | inr e ↦ unmoved g top b (omega arith) (ground arith)
]

hex_byte_table : moved (λ b. hex_byte (hex_digit (b / 16)) (hex_digit (b % 16))) 256 ≡ 0
unfolding moved hex_byte h2n hex_digit
hex_byte_table = refl

hex_byte-hex_digit : (b : ℕ) → IsByte b → hex_byte (hex_digit (b / 16)) (hex_digit (b % 16)) ≡ b
hex_byte-hex_digit b h = unmoved _ 256 b hex_byte_table h

h2n-lt : (c : ℕ) → h2n c < 16
unfolding h2n
h2n-lt c = ground arith

nibbles : ℕ → ℕ
nibbles n = bit_and (bit_or (n / 16 * 16) (n % 16)) 0xff

nibbles_table : moved nibbles 256 ≡ 0
unfolding moved nibbles
nibbles_table = refl

nibbles_lem : (n : ℕ) → n < 256 → nibbles n ≡ n
nibbles_lem n h = unmoved nibbles 256 n nibbles_table h

-- The shift, the `|` and the mask put the two digits side by side.
hex_byte_lem : (hi lo : ℕ) → hex_byte hi lo ≡ 16 * h2n hi + h2n lo
unfolding hex_byte nibbles
hex_byte_lem hi lo =
    let join : ℕ → ℕ → ℕ = λ a b. bit_and (bit_or (a * 16) b) 0xff in
    ap₂ join high low ∙ nibbles_lem n (omega (arith, h2n-lt hi, h2n-lt lo))
  where
    n : ℕ
    n = 16 * h2n hi + h2n lo

    high : h2n hi ≡ n / 16
    high = omega (arith, h2n-lt lo)

    low : h2n lo ≡ n % 16
    low = omega (arith, h2n-lt lo)

hex_pairs-to_hex : (bs : Bytes) → All IsByte bs → hex_pairs (to_hex bs) ≡ bs
unfolding hex_pairs to_hex
hex_pairs-to_hex [] h = refl
hex_pairs-to_hex (b ∷ bs) h = ap₂ ◌∷◌ (hex_byte-hex_digit b h.0) (hex_pairs-to_hex bs h.1)

length-to_hex : (bs : Bytes) → length (to_hex bs) ≡ 2 * length bs
unfolding to_hex
length-to_hex [] = refl
length-to_hex (b ∷ bs) = omega (arith, length-to_hex bs)

-- Every byte sequence is read back from its lower-case hexadecimal print.
pub hex_to_bytes-to_hex : (bs : Bytes) → All IsByte bs → hex_to_bytes (to_hex bs) ≡ bs
unfolding hex_to_bytes
hex_to_bytes-to_hex bs h =
    if_cases (λ r. r ≡ bs) (length (to_hex bs) % 2 == 0) _ _ (λ _. hex_pairs-to_hex bs h)
      (λ e. absurd (ground (arith, length-to_hex bs)))

length-hex_pairs : (s : Text) → length (hex_pairs s) ≡ length s / 2
unfolding hex_pairs
length-hex_pairs [] = refl
length-hex_pairs (a ∷ []) = omega arith
length-hex_pairs (a ∷ b ∷ s) = omega (arith, length-hex_pairs s)

All-hex_pairs : (s : Text) → All IsByte (hex_pairs s)
unfolding hex_pairs
All-hex_pairs [] = tt
All-hex_pairs (a ∷ []) = tt
All-hex_pairs (a ∷ b ∷ s) = (omega (arith, hex_byte_lem a b, h2n-lt a, h2n-lt b), All-hex_pairs s)

-- Any text gives bytes: half as many as its characters where their number is even, none where it
-- is odd.
pub hex_to_bytes_shape :
    (s : Text)
    → All IsByte (hex_to_bytes s)
      × (length (hex_to_bytes s) ≡ (if length s % 2 == 0 then length s / 2 else 0))
unfolding hex_to_bytes
hex_to_bytes_shape s = elim (Bool-cases (length s % 2 == 0)) [
  | inl e ↦ rw e (All-hex_pairs s, length-hex_pairs s)
  | inr e ↦ rw e (tt, refl)
]
