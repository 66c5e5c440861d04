-- ===== src/Gui/Panels/Vlans/Counts.antt =====
-- The rows of the VLAN panel against a plain count of the packets.
use open_vbus.Base.{
  ℕ, ◌+◌, ◌<◌, ◌≡◌, ◌≢◌, ◌∙◌, refl, true, false, List, [], ◌∷◌, All, All-mono, ◌==◌, if_cases,
  if◌then◌else◌, arith,
}
use open_vbus.Gui.Model.{Packet}
use open_vbus.Gui.Panels.Vlans.{count_one, count_vlans, row_le, insert_row, sort_rows, vlan_rows}

-- the number of packets of a VLAN
pub occurrences : ℕ → List Packet → ℕ
occurrences vid [] = 0
occurrences vid (p ∷ ring) = (if p.vlan == vid then 1 else 0) + occurrences vid ring

-- what the rows of a VLAN say together
pub total : ℕ → List (ℕ × ℕ) → ℕ
total vid [] = 0
total vid ((v, n) ∷ rows) = (if v == vid then n else 0) + total vid rows

-- each VLAN before the later ones, with a smaller number
abbrev pub IsAscending : List (ℕ × ℕ) → Type 0
IsAscending [] = Unit {0}
IsAscending (r ∷ rows) = All (λ s. r.0 < s.0) rows × IsAscending rows

abbrev Fresh : ℕ → List (ℕ × ℕ) → Type 0
Fresh v rows = All (λ r. r.0 ≢ v) rows

abbrev AreDistinct : List (ℕ × ℕ) → Type 0
AreDistinct [] = Unit {0}
AreDistinct (r ∷ rows) = Fresh r.0 rows × AreDistinct rows

total-count_one :
    (vid v : ℕ) (rows : List (ℕ × ℕ))
    → total vid (count_one v rows) ≡ (if v == vid then 1 else 0) + total vid rows
unfolding total count_one
total-count_one vid v [] = omega arith
total-count_one vid v ((w, n) ∷ rows) = ground (arith, total-count_one vid v rows)

total-count_vlans :
    (vid : ℕ) (ring : List Packet) (rows : List (ℕ × ℕ))
    → total vid (count_vlans ring rows) ≡ occurrences vid ring + total vid rows
unfolding count_vlans occurrences
total-count_vlans vid [] rows = omega arith
total-count_vlans vid (p ∷ ring) rows =
    omega
      (arith, total-count_vlans vid ring (count_one p.vlan rows), total-count_one vid p.vlan rows)

All-count_one :
    (P : ℕ × ℕ → Type 0) (v : ℕ) (rows : List (ℕ × ℕ))
    → P (v, 1)
    → ((n : ℕ) → P (v, n) → P (v, n + 1))
    → All P rows
    → All P (count_one v rows)
unfolding count_one
All-count_one P v [] one more h = (one, tt)
All-count_one P v ((w, n) ∷ rows) one more (p, h) =
    if_cases (All P) (w == v) _ _ (λ e. (grown (ground arith) p, h))
      (λ _. (p, All-count_one P v rows one more h))
  where
    grown : w ≡ v → P (w, n) → P (w, n + 1)
    grown e q = rw e (more n (rw (← e) q))

count_one-AreDistinct :
    (v : ℕ) (rows : List (ℕ × ℕ)) → AreDistinct rows → AreDistinct (count_one v rows)
unfolding count_one
count_one-AreDistinct v [] d = (tt, tt)
count_one-AreDistinct v ((w, n) ∷ rows) (f, d) =
    if_cases AreDistinct (w == v) _ _ (λ _. (f, d))
      (λ e. (
        All-count_one (λ r. r.0 ≢ w) v rows (λ eq. ground arith) (λ k q. q) f,
        count_one-AreDistinct v rows d,
      ))

count_vlans-Rows :
    (ring : List Packet) (rows : List (ℕ × ℕ))
    → AreDistinct rows
    → All (λ r. 0 < r.1) rows
    → AreDistinct (count_vlans ring rows) × All (λ r. 0 < r.1) (count_vlans ring rows)
unfolding count_vlans
count_vlans-Rows [] rows d h = (d, h)
count_vlans-Rows (p ∷ ring) rows d h =
    count_vlans-Rows ring (count_one p.vlan rows) (count_one-AreDistinct p.vlan rows d)
      (All-count_one (λ r. 0 < r.1) p.vlan rows (omega arith) (λ n q. omega arith) h)

All-insert_row :
    (P : ℕ × ℕ → Type 0) (r : ℕ × ℕ) (rows : List (ℕ × ℕ))
    → P r
    → All P rows
    → All P (insert_row r rows)
unfolding insert_row
All-insert_row P r [] p h = (p, tt)
All-insert_row P r (s ∷ rows) p (q, h) =
    if_cases (All P) (row_le r s) _ _ (λ _. (p, (q, h))) (λ _. (q, All-insert_row P r rows p h))

All-sort_rows : (P : ℕ × ℕ → Type 0) (rows : List (ℕ × ℕ)) → All P rows → All P (sort_rows rows)
unfolding sort_rows
All-sort_rows P [] h = tt
All-sort_rows P (r ∷ rows) (p, h) = All-insert_row P r (sort_rows rows) p (All-sort_rows P rows h)

total-insert_row :
    (vid : ℕ) (r : ℕ × ℕ) (rows : List (ℕ × ℕ))
    → total vid (insert_row r rows) ≡ total vid (r ∷ rows)
unfolding total insert_row
total-insert_row vid (v, n) [] = refl
total-insert_row vid (v, n) ((w, k) ∷ rows) =
    if_cases (λ l. total vid l ≡ total vid ((v, n) ∷ (w, k) ∷ rows)) (row_le (v, n) (w, k)) _ _
      (λ _. refl) (λ _. omega (arith, total-insert_row vid (v, n) rows))

total-sort_rows : (vid : ℕ) (rows : List (ℕ × ℕ)) → total vid (sort_rows rows) ≡ total vid rows
unfolding total sort_rows
total-sort_rows vid [] = refl
total-sort_rows vid ((v, n) ∷ rows) =
    omega (arith, total-insert_row vid (v, n) (sort_rows rows), total-sort_rows vid rows)

below : (v n w k : ℕ) → w ≢ v → row_le (v, n) (w, k) ≡ true → v < w
unfolding row_le
below v n w k ne e = ground arith

above : (v n w k : ℕ) → w ≢ v → row_le (v, n) (w, k) ≡ false → w < v
unfolding row_le
above v n w k ne e = ground arith

insert_row-IsAscending :
    (r : ℕ × ℕ) (rows : List (ℕ × ℕ))
    → Fresh r.0 rows
    → IsAscending rows
    → IsAscending (insert_row r rows)
unfolding insert_row
insert_row-IsAscending r [] f a = (tt, tt)
insert_row-IsAscending (v, n) ((w, k) ∷ rows) (ne, f) (first, a) =
    if_cases IsAscending (row_le (v, n) (w, k)) _ _
      (λ e.
        let lt = below v n w k ne e in
        ((lt, All-mono _ (λ s. v < s.0) rows (λ s h. omega (arith, lt)) first), (first, a)))
      (λ e. (
        All-insert_row (λ s. w < s.0) (v, n) rows (above v n w k ne e) first,
        insert_row-IsAscending (v, n) rows f a,
      ))

sort_rows-IsAscending : (rows : List (ℕ × ℕ)) → AreDistinct rows → IsAscending (sort_rows rows)
unfolding sort_rows
sort_rows-IsAscending [] d = tt
sort_rows-IsAscending (r ∷ rows) (f, d) =
    insert_row-IsAscending r (sort_rows rows) (All-sort_rows (λ s. s.0 ≢ r.0) rows f)
      (sort_rows-IsAscending rows d)

-- The rows of the VLAN panel come in ascending order, with one row to a VLAN and no row without a
-- packet, and the row of each VLAN says how many packets of the ring carry it.
pub vlan_rows_lem :
    (ring : List Packet)
    → IsAscending (vlan_rows ring)
      × All (λ r. 0 < r.1) (vlan_rows ring)
      × ((vid : ℕ) → total vid (vlan_rows ring) ≡ occurrences vid ring)
unfolding vlan_rows total
vlan_rows_lem ring =
    let (distinct, positive) = count_vlans-Rows ring [] tt tt in
    (
      sort_rows-IsAscending (count_vlans ring []) distinct,
      All-sort_rows (λ r. 0 < r.1) (count_vlans ring []) positive,
      λ vid. total-sort_rows vid (count_vlans ring []) ∙ counted vid,
    )
  where
    counted : (vid : ℕ) → total vid (count_vlans ring []) ≡ occurrences vid ring
    counted vid = total-count_vlans vid ring [] ∙ omega arith
