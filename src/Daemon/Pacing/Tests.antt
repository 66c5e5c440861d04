-- ===== src/Daemon/Pacing/Tests.antt =====
-- Three frames, the product by 1.0 that is exact, and a clock that ticks past their times.
use open_vbus.Base.{
  ltb, not, none, text_eq, if◌then◌else◌, ◌++◌, All, ◌≤◌, length, ◌+◌, false, codes, ◌<◌, ◌^◌, ℕ,
  ◌≡◌, refl, true, some, List, [], ◌∷◌, arith,
}
use open_vbus.Frame.{Frame, can20}
use open_vbus.Vcap.{rec_bytes, rec_of_frame, new_recorder, open_recorder}
use open_vbus.Vcap.Records.{IsStorable}
use open_vbus.Vcap.RoundTrip.{body, record_all}
use open_vbus.Daemon.State.{as_datagrams}
use open_vbus.Daemon.Pacing.Recorded.{attempts, Fits, replay_recorded}
use open_vbus.Daemon.Pacing.{
  Network, address_of, closed, run_replay, wait_until, play_own, play_shared,
}
use open_vbus.Daemon.Pacing.Exact.{IsExact, replay-IsExact, replay_sync-IsExact}

abbrev at : ℕ → Frame
at ts = record { proto = can20; tag = 1; ts_ns = ts; payload = 7 ∷ [] }

abbrev two_more : List Frame
two_more = at 1500 ∷ at 1200 ∷ []

abbrev ticks : List ℕ
ticks = 5000 ∷ 5400 ∷ 5600 ∷ 5700 ∷ []

replay-IsExact_example :
    IsExact 5000 1000 5500
      (at 1000 ∷ two_more)
      ticks
      (play_own (λ n scale. n) true 0x3ff0_0000_0000_0000 (at 1000 ∷ two_more) (5000 ∷ ticks))
replay-IsExact_example =
    replay-IsExact (λ n scale. n) (λ n h. refl) 5000 1000 (omega arith) 5500 (at 1000) two_more
      ticks (omega arith) refl (omega arith) (omega arith)

start_seen : wait_until 5300 ticks ≡ some (5400, 5600 ∷ 5700 ∷ [])
unfolding wait_until
start_seen = refl

replay_sync-IsExact_example :
    IsExact 5300 1000 5800 two_more
      (5600 ∷ 5700 ∷ [])
      (play_shared (λ n scale. n) true 0x3ff0_0000_0000_0000 5300 1000 two_more ticks)
replay_sync-IsExact_example =
    replay_sync-IsExact (λ n scale. n) (λ n h. refl) 5300 1000 (omega arith) 5800 5400 two_more
      ticks (5600 ∷ 5700 ∷ []) (omega arith) (omega arith) start_seen

at-IsStorable : (ts : ℕ) → ts < 2 ^ 64 → IsStorable (at ts)
at-IsStorable ts h = record { proto = omega arith; tag = omega arith; ts_ns = h; len = omega arith }

room : 16 + length (body (at 1500 ∷ [])) ≤ 100
unfolding rec_bytes rec_of_frame
room = omega arith

-- A network that knows one host, and sends what is not too long.
abbrev a_network : Network
a_network = record {
  inet_pton = λ host. if text_eq host (codes "127.0.0.1") then some 0x7f00_0001 else none;
  sendto = λ n address port payload. not (ltb 65507 (length payload));
  too_long = λ n address port payload h. ground (arith, h);
}

replay_recorded_example :
    let calls =
      attempts a_network
        (address_of (a_network.inet_pton (codes "127.0.0.1")))
        9000
        0
        (at 1500 ∷ []) in
    (run_replay
        (λ n scale. n)
        a_network
        (as_datagrams (codes "f.vbuscap") (codes "127.0.0.1") 9000 false 0)
        (some (record_all (at 1500 ∷ []) (open_recorder (some 100) new_recorder).1).out.written)
        true
        (5000 ∷ [])
      ≡ some (calls ++ closed ∷ [], true))
    × All Fits calls
replay_recorded_example =
    replay_recorded (λ n scale. n) a_network (codes "f.vbuscap") (codes "127.0.0.1") 9000 0
      (at 1500 ∷ []) 100 5000 [] (at-IsStorable 1500 (omega arith), tt) room
