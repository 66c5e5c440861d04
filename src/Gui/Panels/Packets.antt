-- ===== src/Gui/Panels/Packets.antt =====
-- `panels::Packets` of panel_packets.cpp: one row for each packet of the ring.
pub mod Preview
use open_vbus.Base.{
  ◌-◌, ℕ, zero, suc, ◌+◌, ◌/◌, ◌%◌, List, [], ◌∷◌, ◌++◌, Bytes, Text, ltb, take, if◌then◌else◌,
}
use open_vbus.Gui.Model.{Packet}

-- a hexadecimal digit of `%x`
unfoldable pub nibble : ℕ → ℕ
nibble d = if ltb d 10 then b'0' + d else b'a' + (d - 10)

-- `snprintf(…, "%02x", byte)` for each of the bytes
unfoldable pub hex_text : Bytes → Text
unfolding nibble
hex_text [] = []
hex_text (b ∷ bs) = nibble (b / 16 % 16) ∷ nibble (b % 16) ∷ hex_text bs

-- What a row shows: the running number, the time in nanoseconds, and so on; the print is left out.
pub record Row : Type 0 where
  pub idx : ℕ
  pub timestamp_ns : ℕ
  pub vlan : ℕ
  pub size : ℕ
  pub preview : Text

unfoldable pub packet_row : ℕ → Packet → Row
unfolding hex_text
packet_row idx p = record {
  idx = idx;
  timestamp_ns = p.timestamp_ns;
  vlan = p.vlan;
  size = p.size;
  preview = hex_text (take 16 p.preview);
}

unfoldable pub packet_rows : ℕ → List Packet → List Row
unfolding packet_row
packet_rows idx [] = []
packet_rows idx (p ∷ ring) = packet_row idx p ∷ packet_rows (idx + 1) ring
