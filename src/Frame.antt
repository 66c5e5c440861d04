-- ===== src/Frame.antt =====
-- vbus/src/bus/frame.h: protocol tags, frames, and the hexadecimal reader of the send commands.
pub mod Hex
mod Tests
use Prim.Native.Nat.{bit_or, bit_and}
use open_vbus.Base.{
  ℕ, ◌+◌, ◌-◌, ◌*◌, ◌%◌, Bool, ◌&&◌, List, [], ◌∷◌, leb, ◌==◌, if◌then◌else◌, Bytes, Text, length,
}

-- `enum class Proto : uint8_t`, by its underlying value: a cast from a file's byte may give any.
abbrev pub Proto : Type 0
Proto = ℕ

abbrev pub eth2 : Proto
eth2 = 1

abbrev pub can20 : Proto
can20 = 2

abbrev pub canfd : Proto
canfd = 3

abbrev pub udp : Proto
udp = 4

abbrev pub tcp : Proto
tcp = 5

pub record Frame : Type 0 where
  pub proto : Proto
  pub tag : ℕ
  pub ts_ns : ℕ
  pub payload : Bytes

-- `Frame f;`
abbrev pub blank : Frame
blank = record { proto = 0; tag = 0; ts_ns = 0; payload = [] }

-- `h2n`: the value of a hexadecimal digit, and 0 for any other character.
unfoldable pub h2n : ℕ → ℕ
h2n c =
    if leb b'0' c && leb c b'9'
    then c - b'0'
    else if leb b'a' c && leb c b'f'
    then 10 + (c - b'a')
    else if leb b'A' c && leb c b'F'
    then 10 + (c - b'A')
    else 0

-- `static_cast<std::byte>(((h2n(hi) << 4) | h2n(lo)) & 0xFF)`
unfoldable pub hex_byte : ℕ → ℕ → ℕ
hex_byte hi lo = bit_and (bit_or (h2n hi * 16) (h2n lo)) 0xff

-- the loop over `i += 2`, which runs only on texts of even length
unfoldable pub hex_pairs : Text → Bytes
hex_pairs [] = []
hex_pairs (hi ∷ []) = []
hex_pairs (hi ∷ lo ∷ rest) = hex_byte hi lo ∷ hex_pairs rest

unfoldable pub hex_to_bytes : Text → Bytes
hex_to_bytes hex = if length hex % 2 == 0 then hex_pairs hex else []
