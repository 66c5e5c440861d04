-- ===== src/Gui/Panels/Vlans.antt =====
-- `panels::VLAN` of panel_vlan.cpp: the packets of the ring, counted by VLAN, in ascending order. The
-- order of the hash table is not specified; the rows are sorted, so that it does not matter.
pub mod Counts
use open_vbus.Base.{ℕ, zero, suc, ◌+◌, Bool, List, [], ◌∷◌, ltb, leb, ◌==◌, if◌then◌else◌}
use open_vbus.Gui.Model.{Packet}

-- `counts[vid]++`, where a new key starts from 0
unfoldable pub count_one : ℕ → List (ℕ × ℕ) → List (ℕ × ℕ)
count_one vid [] = (vid, 1) ∷ []
count_one vid ((v, n) ∷ counts) =
    let others = count_one vid counts in if v == vid then (v, n + 1) ∷ counts else (v, n) ∷ others

unfoldable pub count_vlans : List Packet → List (ℕ × ℕ) → List (ℕ × ℕ)
unfolding count_one
count_vlans [] counts = counts
count_vlans (p ∷ ring) counts = count_vlans ring (count_one p.vlan counts)

-- `std::sort` of pairs: by the first part, then by the second
unfoldable pub row_le : ℕ × ℕ → ℕ × ℕ → Bool
row_le (v, n) (w, k) = if v == w then leb n k else ltb v w

unfoldable pub insert_row : ℕ × ℕ → List (ℕ × ℕ) → List (ℕ × ℕ)
unfolding row_le
insert_row r [] = r ∷ []
insert_row r (s ∷ rows) =
    let later = insert_row r rows in if row_le r s then r ∷ s ∷ rows else s ∷ later

unfoldable pub sort_rows : List (ℕ × ℕ) → List (ℕ × ℕ)
unfolding insert_row
sort_rows [] = []
sort_rows (r ∷ rows) = insert_row r (sort_rows rows)

-- the rows of the panel
unfoldable pub vlan_rows : List Packet → List (ℕ × ℕ)
unfolding count_vlans sort_rows
vlan_rows ring = sort_rows (count_vlans ring [])
