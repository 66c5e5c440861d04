-- ===== src/Daemon/Numbers.antt =====
-- `std::stoul` and `std::stoull`, as the daemon calls them on a token of its command line. Windows
-- has an `unsigned long` of 32 bits. `none` is a thrown exception.
pub mod Print
use open_vbus.Base.{
  ℕ, ◌+◌, ◌-◌, ◌*◌, ◌%◌, ◌^◌, Bool, true, false, ◌&&◌, ◌||◌, Option, none, some, [], ◌∷◌, leb, ltb,
  ◌==◌, if◌then◌else◌, Text,
}

-- The value of a digit, 36 for any other character.
unfoldable pub digit_value : ℕ → ℕ
digit_value c =
    if leb b'0' c && leb c b'9'
    then c - b'0'
    else if leb b'a' c && leb c b'z'
    then c - b'a' + 10
    else if leb b'A' c && leb c b'Z'
    then c - b'A' + 10
    else 36

-- the longest run of digits in front
unfoldable pub digits : ℕ → ℕ → Text → ℕ
digits base acc [] = acc
digits base acc (c ∷ cs) =
    let more = digits base (acc * base + digit_value c) cs in
    if ltb (digit_value c) base then more else acc

unfoldable pub is_digit : ℕ → Text → Bool
is_digit base [] = false
is_digit base (c ∷ cs) = ltb (digit_value c) base

unfoldable pub unsigned : ℕ → Text → Option ℕ
unfolding digits is_digit
unsigned base s = if is_digit base s then some (digits base 0 s) else none

-- base 0: `0x` and a hexadecimal digit, a leading `0` for octal, or decimal
prefixed : Text → Option ℕ
unfolding unsigned digit_value
prefixed [] = none
prefixed (c ∷ []) = unsigned 10 (c ∷ [])
prefixed (c ∷ x ∷ rest) =
    if c == b'0' && (x == b'x' || x == b'X') && is_digit 16 rest
    then unsigned 16 rest
    else if c == b'0'
    then unsigned 8 (c ∷ x ∷ rest)
    else unsigned 10 (c ∷ x ∷ rest)

-- A value beyond the type is thrown out, and a minus sign negates in the type.
unfoldable pub to_word : ℕ → Bool → Option ℕ → Option ℕ
to_word w negative none = none
to_word w negative (some n) =
    if leb (2 ^ w) n then none else some (if negative then (2 ^ w - n) % 2 ^ w else n)

unfoldable pub sign_and : (Text → Option ℕ) → ℕ → Text → Option ℕ
unfolding to_word
sign_and read w [] = none
sign_and read w (c ∷ s) =
    if c == b'-'
    then to_word w true (read s)
    else if c == b'+'
    then to_word w false (read s)
    else to_word w false (read (c ∷ s))

-- `std::stoul(s)`
unfoldable pub stoul : Text → Option ℕ
unfolding sign_and unsigned digit_value
stoul = sign_and (unsigned 10) 32

-- `std::stoul(s, nullptr, 0)`
unfoldable pub stoul_any : Text → Option ℕ
unfolding sign_and prefixed
stoul_any = sign_and prefixed 32

-- `std::stoull(s)`
unfoldable pub stoull : Text → Option ℕ
unfolding sign_and unsigned digit_value
stoull = sign_and (unsigned 10) 64
