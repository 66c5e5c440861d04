-- ===== src/Bench/Report/Counts.antt =====
-- What the counters of the passive sink hold, against the bytes that its sockets have given.
use open_vbus.Base.{
  ltb, none, some, [], ◌∷◌, List, Option, if◌then◌else◌, ◌==◌, true, false, true, ◌%◌, false, some,
  ◌+◌, ltb, ◌==◌, ◌++◌, ◌≡◌, [], ◌^◌, ◌∷◌, Option, List, ℕ,
}
use open_vbus.Bench.Sender.{Stats}
use open_vbus.Bench.Report.{Receipt, Client, Visit}

abbrev pub sum : List ℕ → ℕ
sum [] = 0
sum (n ∷ ns) = n + sum ns

-- how many are not 0
abbrev pub positives : List ℕ → ℕ
positives [] = 0
positives (n ∷ ns) = (if n == 0 then 0 else 1) + positives ns

-- What a socket has given before its thread was told to stop.
abbrev pub heard : List Receipt → List ℕ
heard [] = []
heard (r ∷ rs) = let later = heard rs in if r.stop then [] else r.bytes ∷ later

abbrev pub until_empty : List ℕ → List ℕ
until_empty [] = []
until_empty (n ∷ ns) = let later = until_empty ns in if n == 0 then [] else n ∷ later

-- What the clients have sent until each of them left, before the thread was told to stop.
abbrev pub sent_by : Option Client → List ℕ
sent_by none = []
sent_by (some c) = until_empty (heard c.receipts)

abbrev pub heard_from : List Visit → List ℕ
heard_from [] = []
heard_from (v ∷ vs) = let later = heard_from vs in if v.stop then [] else sent_by v.client ++ later

-- The counters after some receipts: their bytes and their number more, in 64 bits, and no error more.
pub record IsCounted (s s' : Stats) (ns : List ℕ) : Type 0 where
  pub bytes : s'.bytes ≡ (s.bytes + sum ns) % 2 ^ 64
  pub packets : s'.packets ≡ (s.packets + positives ns) % 2 ^ 64
  pub errors : s'.errors ≡ s.errors
