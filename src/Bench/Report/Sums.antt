-- ===== src/Bench/Report/Sums.antt =====
-- The table adds up, and the order of the sink's threads does not matter.
use open_vbus.Base.{
  ℕ, ◌+◌, ◌^◌, ◌≤◌, ◌<◌, ◌≡◌, refl, ap, ◌∙◌, Option, none, some, List, [], ◌∷◌, arith, Bool-cases,
  inl, inr, ltb,
}
use open_vbus.Bench.Sender.{Stats}
use open_vbus.Bench.Report.{
  Row, report_from, report, Receipt, counted, udp_sink, client_sink, Client, Visit, visited,
  tcp_sink,
}

abbrev pub packets_of : List Row → ℕ
packets_of [] = 0
packets_of (r ∷ rs) = r.packets + packets_of rs

abbrev pub bytes_of : List Row → ℕ
bytes_of [] = 0
bytes_of (r ∷ rs) = r.bytes + bytes_of rs

-- Counters that do not fall and do not wrap, from `bytes` and `packets` on.
abbrev pub IsRising : ℕ → ℕ → List Stats → Type 0
IsRising bytes packets [] = Unit
IsRising bytes packets (s ∷ ss) =
    (bytes ≤ s.bytes)
    × (packets ≤ s.packets)
    × (s.bytes < 2 ^ 64)
    × (s.packets < 2 ^ 64)
    × IsRising s.bytes s.packets ss

abbrev pub last_bytes : ℕ → List Stats → ℕ
last_bytes n [] = n
last_bytes n (s ∷ ss) = last_bytes s.bytes ss

abbrev pub last_packets : ℕ → List Stats → ℕ
last_packets n [] = n
last_packets n (s ∷ ss) = last_packets s.packets ss

report_from_sums :
    (sec b p : ℕ) (ss : List Stats)
    → IsRising b p ss
    → (bytes_of (report_from sec b p ss) + b ≡ last_bytes b ss)
      × (packets_of (report_from sec b p ss) + p ≡ last_packets p ss)
unfolding report_from
report_from_sums sec b p [] h = (omega arith, omega arith)
report_from_sums sec b p (s ∷ ss) (hb, hp, lb, lp, h) =
    let (x, y) = report_from_sums (sec + 1) s.bytes s.packets ss h in
    (omega (arith, x), omega (arith, y))

-- The seconds of the table add up to the counters that it shows last, where these do not fall and do
-- not wrap.
pub report_sums :
    (ss : List Stats)
    → IsRising 0 0 ss
    → (bytes_of (report ss) ≡ last_bytes 0 ss) × (packets_of (report ss) ≡ last_packets 0 ss)
unfolding report
report_sums ss h = let (x, y) = report_from_sums 0 0 0 ss h in (omega (arith, x), omega (arith, y))

counted_comm : (m n : ℕ) (s : Stats) → counted m (counted n s) ≡ counted n (counted m s)
unfolding counted
counted_comm m n s = ground arith

client_sink-counted :
    (rs : List Receipt) (n : ℕ) (s : Stats)
    → client_sink rs (counted n s) ≡ counted n (client_sink rs s)
unfolding client_sink
client_sink-counted [] n s = refl
client_sink-counted (r ∷ rs) n s = elim (Bool-cases r.stop) [
  | inl e ↦ rw e refl
  | inr e ↦ elim (Bool-cases (ltb 0 r.bytes)) [
    | inl f ↦ rw e (
        rw f (
          ap (client_sink rs) (counted_comm r.bytes n s)
          ∙ client_sink-counted rs n (counted r.bytes s)))
    | inr f ↦ rw e (rw f refl)
  ]
]

visited-counted :
    (v : Option Client) (n : ℕ) (s : Stats) → visited v (counted n s) ≡ counted n (visited v s)
unfolding visited
visited-counted none n s = refl
visited-counted (some c) n s = client_sink-counted c.receipts n s

tcp_sink-counted :
    (vs : List Visit) (n : ℕ) (s : Stats) → tcp_sink vs (counted n s) ≡ counted n (tcp_sink vs s)
unfolding tcp_sink
tcp_sink-counted [] n s = refl
tcp_sink-counted (v ∷ vs) n s = elim (Bool-cases v.stop) [
  | inl e ↦ rw e refl
  | inr e ↦
      rw e (
        ap (tcp_sink vs) (visited-counted v.client n s)
        ∙ tcp_sink-counted vs n (visited v.client s))
]

-- The counters of the passive sink at its end are the same whether the datagrams are counted before
-- the streams or after them.
pub sinks_commute :
    (rs : List Receipt) (vs : List Visit) (s : Stats)
    → tcp_sink vs (udp_sink rs s) ≡ udp_sink rs (tcp_sink vs s)
unfolding udp_sink
sinks_commute [] vs s = refl
sinks_commute (r ∷ rs) vs s = elim (Bool-cases r.stop) [
  | inl e ↦ rw e refl
  | inr e ↦ elim (Bool-cases (ltb 0 r.bytes)) [
    | inl f ↦ rw e (
        rw f (
          sinks_commute rs vs (counted r.bytes s)
          ∙ ap (udp_sink rs) (tcp_sink-counted vs r.bytes s)))
    | inr f ↦ rw e (rw f (sinks_commute rs vs s))
  ]
]
