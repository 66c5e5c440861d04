-- ===== src/Bench/Sender.antt =====
-- `payload_size_for_rate`, and the loops of `run_udp_send` and `run_tcp_send`. The refill of the
-- bucket, which the source computes in floating point from the rate and the elapsed time, is a
-- part of each turn; a conversion to `uint64_t` leaves it below 2^64.
pub mod Bucket
use open_vbus.Base.{
  ℕ, ◌+◌, ◌-◌, ◌*◌, ◌/◌, ◌%◌, ◌^◌, Bool, true, false, not, ◌&&◌, Option, none, some, List, [], ◌∷◌,
  leb, ltb, ◌==◌, if◌then◌else◌,
}

unfoldable pub payload_size_for_rate : ℕ → ℕ
payload_size_for_rate bps =
    if leb 5_000_000_000 bps
    then 65000
    else if leb 500_000_000 bps
    then 16384
    else if leb 50_000_000 bps
    then 4096
    else 1400

pub record Stats : Type 0 where
  pub bytes : ℕ
  pub packets : ℕ
  pub errors : ℕ

-- `fetch_add` on one of the counters
abbrev pub bump : ℕ → ℕ → ℕ
bump c n = (c + n) % 2 ^ 64

-- What `sendto` or `send` answers: a number of bytes above 0, 0, or a number below 0.
pub data SendResult : Type 0 where
  sent : ℕ → SendResult
  nothing failed : SendResult

-- One turn of a sending loop: `g_stop`, the new tokens, the time since the start, the socket's answer.
pub record Turn : Type 0 where
  pub stop : Bool
  pub refill : ℕ
  pub age : ℕ
  pub answer : SendResult

-- How a turn ends without a packet: `sleep_for`, `yield`, or at once.
pub data Pause : Type 0 where
  sleep : ℕ → Pause
  yield spin : Pause

-- The state of a loop; `over` says that it has ended.
pub record Sender : Type 0 where
  pub tokens : ℕ
  pub stats : Stats
  pub pauses : List Pause
  pub over : Bool

unfoldable pub pkt_bits : ℕ → ℕ
pkt_bits rate = payload_size_for_rate rate * 8

unfoldable pub new_sender : ℕ → Sender
new_sender rate = record {
  tokens = pkt_bits rate;
  stats = record { bytes = 0; packets = 0; errors = 0 };
  pauses = [];
  over = false;
}

-- the bucket is capped at four packets
unfoldable pub refilled : ℕ → ℕ → ℕ → ℕ
refilled rate new tokens =
    let total = (tokens + new) % 2 ^ 64 in
    let most = pkt_bits rate * 4 in if ltb most total then most else total

-- the wait for the tokens that a packet lacks
unfoldable pub wait_ns : ℕ → ℕ → ℕ
wait_ns rate tokens =
    let deficit_bits = pkt_bits rate - tokens in
    if ltb 0 rate then deficit_bits * 1_000_000_000 % 2 ^ 64 / rate else 1_000_000

unfoldable pub pause_for : ℕ → Pause
pause_for wait =
    if ltb 2_000_000 wait then sleep (wait - 500_000) else if ltb 50_000 wait then yield else spin

-- The counters and the bucket after a call of the socket. UDP pays for a packet, TCP for the bytes
-- that were taken, and ends when the connection is dropped.
unfoldable pub after_udp : ℕ → SendResult → ℕ → Sender → Sender
after_udp rate (sent n) tokens s = record s {
  tokens = tokens - pkt_bits rate;
  stats = record s.stats { bytes = bump s.stats.bytes n; packets = bump s.stats.packets 1 };
}
after_udp rate nothing tokens s = record s {
  tokens = tokens;
  stats = record s.stats { errors = bump s.stats.errors 1 };
}
after_udp rate failed tokens s = record s {
  tokens = tokens;
  stats = record s.stats { errors = bump s.stats.errors 1 };
}

unfoldable pub after_tcp : ℕ → SendResult → ℕ → Sender → Sender
after_tcp rate (sent n) tokens s = record s {
  tokens = (tokens + 2 ^ 64 - n * 8 % 2 ^ 64) % 2 ^ 64;
  stats = record s.stats { bytes = bump s.stats.bytes n; packets = bump s.stats.packets 1 };
}
after_tcp rate nothing tokens s = record s {
  tokens = tokens;
  stats = record s.stats { errors = bump s.stats.errors 1 };
}
after_tcp rate failed tokens s = record s {
  tokens = tokens;
  stats = record s.stats { errors = bump s.stats.errors 1 };
  over = true;
}

-- One turn, with either way to account for the call; `duration` is 0 for no end.
unfoldable pub turn : (ℕ → SendResult → ℕ → Sender → Sender) → ℕ → ℕ → Turn → Sender → Sender
turn after rate duration t s =
    let tokens = refilled rate t.refill s.tokens in
    if t.stop
    then record s { over = true }
    else if ltb 0 duration && leb duration t.age
    then record s { tokens = tokens; over = true }
    else if leb (pkt_bits rate) tokens
    then after rate t.answer tokens s
    else record s { tokens = tokens; pauses = pause_for (wait_ns rate tokens) ∷ s.pauses }

unfoldable pub run : (ℕ → SendResult → ℕ → Sender → Sender) → ℕ → ℕ → List Turn → Sender → Sender
run after rate duration [] s = s
run after rate duration (t ∷ ts) s =
    let rest = run after rate duration ts (turn after rate duration t s) in
    if s.over then s else rest

unfoldable pub run_udp_send : ℕ → ℕ → List Turn → Sender
run_udp_send rate duration ts = run after_udp rate duration ts (new_sender rate)

unfoldable pub run_tcp_send : ℕ → ℕ → List Turn → Sender
run_tcp_send rate duration ts = run after_tcp rate duration ts (new_sender rate)
