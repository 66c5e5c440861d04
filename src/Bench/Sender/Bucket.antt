-- ===== src/Bench/Sender/Bucket.antt =====
-- The token bucket of the two senders.
use native.Mathlib.Nat.{mul-le-mul_right, le_trans, div-mul-le_self}
use open_vbus.Base.{
  ◌%◌, lt→ltb, leb→le, leb, ◌&&◌, ltb, ℕ, ◌+◌, ◌-◌, ◌*◌, ◌^◌, ◌≤◌, ◌<◌, List, [], ◌∷◌, All, arith,
  if_cases,
}
use open_vbus.Bench.Sender.{
  SendResult, sent, nothing, failed, Turn, Sender, Pause, sleep, yield, spin, pkt_bits,
  payload_size_for_rate, refilled, new_sender, after_udp, after_tcp, turn, run, run_udp_send,
  run_tcp_send, wait_ns, pause_for,
}

-- The socket takes no more than a packet.
abbrev pub IsWithin : ℕ → SendResult → Type 0
IsWithin rate (sent n) = n ≤ payload_size_for_rate rate
IsWithin rate nothing = Unit {0}
IsWithin rate failed = Unit {0}

abbrev pub refills : List Turn → ℕ
refills [] = 0
refills (t ∷ ts) = t.refill + refills ts

-- The bits sent and the tokens left come to `paid` at most, and the bucket is not over its cap.
pub record IsFair (rate paid : ℕ) (s : Sender) : Type 0 where
  pub within : 8 * s.stats.bytes + s.tokens ≤ paid
  pub capped : s.tokens ≤ pkt_bits rate * 4

payload_bounds : (rate : ℕ) → payload_size_for_rate rate ≤ 65000
unfolding payload_size_for_rate
payload_bounds rate = ground arith

refilled_bounds :
    (rate new tokens : ℕ)
    → (refilled rate new tokens ≤ tokens + new) × (refilled rate new tokens ≤ pkt_bits rate * 4)
unfolding refilled
refilled_bounds rate new tokens = ground arith

-- What both ways to account for a call have in common.
abbrev Accounts : (ℕ → SendResult → ℕ → Sender → Sender) → Type 0
Accounts after =
    (rate : ℕ) (r : SendResult) (tokens paid : ℕ) (s : Sender)
    → IsWithin rate r
    → pkt_bits rate ≤ tokens
    → tokens ≤ pkt_bits rate * 4
    → 8 * s.stats.bytes + tokens ≤ paid
    → IsFair rate paid (after rate r tokens s)

after_udp-Accounts : Accounts after_udp
unfolding after_udp pkt_bits
after_udp-Accounts rate (sent n) tokens paid s w h k p = record {
  within = omega arith;
  capped = omega arith;
}
after_udp-Accounts rate nothing tokens paid s w h k p = record { within = p; capped = k }
after_udp-Accounts rate failed tokens paid s w h k p = record { within = p; capped = k }

after_tcp-Accounts : Accounts after_tcp
unfolding after_tcp pkt_bits
after_tcp-Accounts rate (sent n) tokens paid s w h k p = record {
  within = omega (arith, payload_bounds rate);
  capped = omega (arith, payload_bounds rate);
}
after_tcp-Accounts rate nothing tokens paid s w h k p = record { within = p; capped = k }
after_tcp-Accounts rate failed tokens paid s w h k p = record { within = p; capped = k }

module _ (after : ℕ → SendResult → ℕ → Sender → Sender) (accounts : Accounts after) where
  turn-IsFair :
      (rate duration paid : ℕ) (t : Turn) (s : Sender)
      → IsWithin rate t.answer
      → IsFair rate paid s
      → IsFair rate (paid + t.refill) (turn after rate duration t s)
  unfolding turn
  turn-IsFair rate duration paid t s w h =
      let tokens = refilled rate t.refill s.tokens in
      let (less, capped) = refilled_bounds rate t.refill s.tokens in
      let enough : 8 * s.stats.bytes + tokens ≤ paid + t.refill = omega (arith, less, h.within) in
      if_cases (IsFair rate (paid + t.refill)) t.stop _ _
        (λ _. record { within = omega (arith, h.within); capped = h.capped })
        (λ _.
          if_cases (IsFair rate (paid + t.refill)) (ltb 0 duration && leb duration t.age) _ _
            (λ _. record { within = enough; capped = capped })
            (λ _.
              if_cases (IsFair rate (paid + t.refill)) (leb (pkt_bits rate) tokens) _ _
                (λ e. accounts rate t.answer tokens _ s w (leb→le _ _ e) capped enough)
                (λ _. record { within = enough; capped = capped })))

  run-IsFair :
      (rate duration paid : ℕ) (ts : List Turn) (s : Sender)
      → All (λ t. IsWithin rate t.answer) ts
      → IsFair rate paid s
      → IsFair rate (paid + refills ts) (run after rate duration ts s)
  unfolding run
  run-IsFair rate duration paid [] s w h = record {
    within = omega (arith, h.within);
    capped = h.capped;
  }
  run-IsFair rate duration paid (t ∷ ts) s (w, ws) h =
      let next =
        run-IsFair rate duration (paid + t.refill) ts (turn after rate duration t s) ws
          (turn-IsFair rate duration paid t s w h) in
      if_cases (IsFair rate (paid + (t.refill + refills ts))) s.over _ _
        (λ _. record { within = omega (arith, h.within); capped = h.capped })
        (λ _. record { within = omega (arith, next.within); capped = next.capped })

new_sender-IsFair : (rate : ℕ) → IsFair rate (pkt_bits rate) (new_sender rate)
unfolding new_sender
new_sender-IsFair rate = record { within = omega arith; capped = omega arith }

-- However long a sender runs, over UDP or over TCP, the bits that it has sent and the tokens that it
-- holds come to one packet and the tokens that it was given at most, and it never holds more than
-- four packets' worth. The socket takes no more than it is given.
pub senders-IsFair :
    (rate duration : ℕ) (ts : List Turn)
    → All (λ t. IsWithin rate t.answer) ts
    → IsFair rate (pkt_bits rate + refills ts) (run_udp_send rate duration ts)
      × IsFair rate (pkt_bits rate + refills ts) (run_tcp_send rate duration ts)
unfolding run_udp_send run_tcp_send
senders-IsFair rate duration ts w = (
  run-IsFair after_udp after_udp-Accounts rate duration _ ts _ w (new_sender-IsFair rate),
  run-IsFair after_tcp after_tcp-Accounts rate duration _ ts _ w (new_sender-IsFair rate),
)

abbrev pub length_of : Pause → ℕ
length_of (sleep ns) = ns
length_of yield = 0
length_of spin = 0

length-pause : (w : ℕ) → length_of (pause_for w) ≤ w
unfolding pause_for
length-pause w = ground arith

wait-mul-le :
    (rate tokens : ℕ)
    → 0 < rate
    → wait_ns rate tokens * rate ≤ (pkt_bits rate - tokens) * 1_000_000_000
unfolding wait_ns
wait-mul-le rate tokens h =
    let all = (pkt_bits rate - tokens) * 1_000_000_000 in
    rw (lt→ltb 0 rate h) (omega (arith, div-mul-le_self (all % 2 ^ 64) rate))

-- A sender that lacks tokens never sleeps longer than they take to come at its rate.
pub pause_bounds :
    (rate tokens : ℕ)
    → 0 < rate
    → length_of (pause_for (wait_ns rate tokens)) * rate ≤ (pkt_bits rate - tokens) * 1_000_000_000
pause_bounds rate tokens h =
    le_trans (mul-le-mul_right rate (length-pause (wait_ns rate tokens)))
      (wait-mul-le rate tokens h)
