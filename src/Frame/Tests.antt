-- ===== src/Frame/Tests.antt =====
-- Hexadecimal payloads.
use open_vbus.Base.{◌≡◌, [], ◌∷◌, arith}
use open_vbus.Frame.{hex_to_bytes}
use open_vbus.Frame.Hex.{to_hex, hex_to_bytes-to_hex}

hex_to_bytes-to_hex_example : hex_to_bytes (to_hex (222 ∷ 173 ∷ [])) ≡ 222 ∷ 173 ∷ []
hex_to_bytes-to_hex_example = hex_to_bytes-to_hex (222 ∷ 173 ∷ []) (omega arith, (omega arith, tt))
