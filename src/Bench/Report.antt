-- ===== src/Bench/Report.antt =====
-- `reporter_thread` of vbus_bench.cpp, and the loops of `run_recv`: the rows of the table, and the
-- counters of the passive sink.
pub mod Sums
pub mod Counts
use open_vbus.Base.{
  ℕ, ◌+◌, ◌-◌, ◌%◌, ◌^◌, Bool, true, false, Option, none, some, List, [], ◌∷◌, ltb, if◌then◌else◌,
}
use open_vbus.Bench.Sender.{Stats, bump}

-- The numbers of a row: the second, the packets and bytes of that second, and the totals.
pub record Row : Type 0 where
  pub sec : ℕ
  pub packets : ℕ
  pub bytes : ℕ
  pub total : ℕ
  pub errors : ℕ

-- The loop of `reporter_thread`, over what the counters show each time it wakes.
unfoldable pub report_from : ℕ → ℕ → ℕ → List Stats → List Row
report_from sec prev_bytes prev_pkts [] = []
report_from sec prev_bytes prev_pkts (s ∷ ss) =
    record {
      sec = sec + 1;
      packets = (s.packets + 2 ^ 64 - prev_pkts) % 2 ^ 64;
      bytes = (s.bytes + 2 ^ 64 - prev_bytes) % 2 ^ 64;
      total = s.bytes;
      errors = s.errors;
    }
    ∷ report_from (sec + 1) s.bytes s.packets ss

unfoldable pub report : List Stats → List Row
report ss = report_from 0 0 0 ss

-- One turn of a receiving loop: `g_stop`, and the bytes that came, 0 for `n <= 0`.
pub record Receipt : Type 0 where
  pub stop : Bool
  pub bytes : ℕ

unfoldable pub counted : ℕ → Stats → Stats
counted n s = record s { bytes = bump s.bytes n; packets = bump s.packets 1 }

-- the UDP thread: an empty answer is passed over
unfoldable pub udp_sink : List Receipt → Stats → Stats
unfolding counted
udp_sink [] s = s
udp_sink (r ∷ rs) s =
    let rest = udp_sink rs (if ltb 0 r.bytes then counted r.bytes s else s) in
    if r.stop then s else rest

-- one client of the TCP thread: an empty answer ends it
unfoldable pub client_sink : List Receipt → Stats → Stats
unfolding counted
client_sink [] s = s
client_sink (r ∷ rs) s =
    let rest = client_sink rs (counted r.bytes s) in
    if r.stop then s else if ltb 0 r.bytes then rest else s

-- The socket of a client, and what comes from it.
pub record Client : Type 0 where
  pub socket : ℕ
  pub receipts : List Receipt

-- One turn of the TCP thread: `g_stop`, and its client, if `select` and `accept` give one.
pub record Visit : Type 0 where
  pub stop : Bool
  pub client : Option Client

unfoldable pub visited : Option Client → Stats → Stats
unfolding client_sink
visited none s = s
visited (some c) s = client_sink c.receipts s

unfoldable pub tcp_sink : List Visit → Stats → Stats
unfolding visited
tcp_sink [] s = s
tcp_sink (v ∷ vs) s = let rest = tcp_sink vs (visited v.client s) in if v.stop then s else rest
