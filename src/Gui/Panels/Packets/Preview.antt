-- ===== src/Gui/Panels/Packets/Preview.antt =====
-- The previews of the packet panel against the reader of hexadecimal texts of the daemon.
use open_vbus.Base.{
  ◌%◌, ◌/◌, ℕ, zero, suc, ◌+◌, ◌≡◌, ◌∙◌, refl, ap, ap₂, some, List, [], ◌∷◌, Bytes, IsByte, All,
  take, get_elem?, arith,
}
use open_vbus.Frame.{hex_to_bytes}
use open_vbus.Frame.Hex.{to_hex, hex_digit, hex_to_bytes-to_hex}
use open_vbus.Gui.Model.{Packet}
use open_vbus.Gui.Panels.Packets.{Row, nibble, hex_text, packet_row, packet_rows}

nibble-hex_digit : (d : ℕ) → nibble d ≡ hex_digit d
unfolding nibble hex_digit
nibble-hex_digit d = ground arith

hex_text-to_hex : (bs : Bytes) → All IsByte bs → hex_text bs ≡ to_hex bs
unfolding hex_text to_hex
hex_text-to_hex [] h = refl
hex_text-to_hex (b ∷ bs) (small, h) =
    let top : b / 16 % 16 ≡ b / 16 = omega arith in
    ap₂ (λ hi rest. hi ∷ nibble (b % 16) ∷ rest) (ap nibble top ∙ nibble-hex_digit (b / 16))
      (hex_text-to_hex bs h)
    ∙ ap (λ lo. hex_digit (b / 16) ∷ lo ∷ to_hex bs) (nibble-hex_digit (b % 16))

All-take {ℓ κ} : {A : Type ℓ} (P : A → Type κ) (n : ℕ) (xs : List A) → All P xs → All P (take n xs)
All-take P zero xs h = tt
All-take P (suc n) [] h = tt
All-take P (suc n) (x ∷ xs) h = (h.0, All-take P n xs h.1)

some_inj : (q p : Packet) → some q ≡ some p → q ≡ p
some_inj q p e = cc

-- The row at each place of the list shows the packet of the ring at that place: its number, time, VLAN
-- and size, and a text from which `hex_to_bytes`, the reader of the daemon's send commands, reads
-- back the first 16 bytes of the packet.
pub packet_rows_lem :
    (first i : ℕ) (ring : List Packet) (p : Packet)
    → All IsByte p.preview
    → get_elem? ring i ≡ some p
    → (row : Row) × (get_elem? (packet_rows first ring) i ≡ some row)
      × (row.idx ≡ first + i)
      × (row.timestamp_ns ≡ p.timestamp_ns)
      × (row.vlan ≡ p.vlan)
      × (row.size ≡ p.size)
      × (hex_to_bytes row.preview ≡ take 16 p.preview)
unfolding packet_rows packet_row
packet_rows_lem first i [] p h e = cc
packet_rows_lem first zero (q ∷ ring) p h e = (
  packet_row first p,
  ap (λ x. some (packet_row first x)) (some_inj q p e),
  omega arith,
  refl,
  refl,
  refl,
  ap hex_to_bytes (hex_text-to_hex (take 16 p.preview) (All-take IsByte 16 p.preview h))
      ∙ hex_to_bytes-to_hex (take 16 p.preview) (All-take IsByte 16 p.preview h),
)
packet_rows_lem first (suc i) (q ∷ ring) p h e =
    let (row, at, idx, ts, vlan, size, read) = packet_rows_lem (first + 1) i ring p h e in
    (row, at, omega (arith, idx), ts, vlan, size, read)
