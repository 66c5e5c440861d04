-- ===== src/Bus/Delay.antt =====
-- The delivery times of the two buses.
use native.Mathlib.Decide.{dec_lt}
use native.Mathlib.Nat.{div-mul-le_self, mul_comm, lt-mul-div-succ, div-lt_iff_lt-mul}
use open_vbus.Base.{
  ℕ, ◌+◌, ◌*◌, ◌/◌, ◌^◌, ◌<◌, ◌≤◌, ◌≡◌, ap, Option, arith, length, lt→ltb, ◌==◌, if◌then◌else◌,
}
use open_vbus.Frame.{Frame, canfd}
use open_vbus.Scheduler.{SimTime, key}
use open_vbus.Bus.{Bus, Kind, eth, can, send, delay_of}

-- The bits that a frame takes on the wire of each bus.
abbrev pub wire_bits : Kind → Frame → ℕ
wire_bits (eth link_bps) f = (length f.payload + 18) * 8
wire_bits (can bitrate) f = (if f.proto == canfd then 67 else 43) + length f.payload * 8

abbrev pub rate : Kind → ℕ
rate (eth link_bps) = link_bps
rate (can bitrate) = bitrate

delay-eq-div :
    (k : Kind) (f : Frame)
    → 0 < rate k
    → length f.payload ≤ 2 ^ 31
    → delay_of k f ≡ wire_bits k f * 1_000_000_000 / rate k
unfolding delay_of
delay-eq-div (eth bps) f h s = rw (lt→ltb 0 bps h) (ap (λ (n : ℕ). n / bps) (omega arith))
delay-eq-div (can br) f h s = rw (lt→ltb 0 br h) (ap (λ (n : ℕ). n / br) (ground arith))

rate_zero : (k : Kind) (f : Frame) → rate k ≡ 0 → delay_of k f ≡ 0
unfolding delay_of
rate_zero (eth bps) f h = rw h
rate_zero (can br) f h = rw h

-- The delay is the time that the bits take at the bus's rate, in whole nanoseconds rounded down. The
-- rate is not 0, and the payload has 2 GiB at most, so that no product wraps.
pub delay_bounds :
    (k : Kind) (f : Frame)
    → length f.payload ≤ 2 ^ 31
    → 0 < rate k
    → (delay_of k f * rate k ≤ wire_bits k f * 1_000_000_000)
      × (wire_bits k f * 1_000_000_000 < (delay_of k f + 1) * rate k)
delay_bounds k f s h =
    rw (delay-eq-div k f h s)
      (div-mul-le_self n (rate k), rw (mul_comm (n / rate k + 1) (rate k)) (lt-mul-div-succ n h))
  where
    n : ℕ
    n = wire_bits k f * 1_000_000_000

div_mono : (a b k : ℕ) → 0 < k → a ≤ b → a / k ≤ b / k
div_mono a b k h le =
    let below : a / k < b / k + 1 =
      (div-lt_iff_lt-mul h).1 (rw (mul_comm (b / k + 1) k) (omega (arith, lt-mul-div-succ b h))) in
    omega arith

wire_bits_mono :
    (k : Kind) (f g : Frame)
    → f.proto ≡ g.proto
    → length f.payload ≤ length g.payload
    → wire_bits k f ≤ wire_bits k g
wire_bits_mono (eth bps) f g e le = omega arith
wire_bits_mono (can br) f g e le = rw e (omega arith)

delay_mono :
    (k : Kind) (f g : Frame)
    → length g.payload ≤ 2 ^ 31
    → f.proto ≡ g.proto
    → length f.payload ≤ length g.payload
    → delay_of k f ≤ delay_of k g
delay_mono k f g s e le = elim (dec_lt 0 (rate k)) [
  | yes h ↦
      rw (delay-eq-div k f h (omega arith), delay-eq-div k g h s)
        (div_mono _ _ (rate k) h (omega (arith, wire_bits_mono k f g e le)))
  | no h ↦ omega (arith, rate_zero k f (omega arith))
]

-- the reading that the delay is added to
abbrev pub sending_time : Kind → SimTime → SimTime → SimTime
sending_time (eth bps) now₁ now₂ = now₂
sending_time (can br) now₁ now₂ = now₁

t-send :
    (now₁ now₂ : SimTime) (src : Option ℕ) (f : Frame) (b : Bus)
    → sending_time b.kind now₁ now₂ + delay_of b.kind f < 2 ^ 63
    → (send now₁ now₂ src f b).item.t ≡ sending_time b.kind now₁ now₂ + delay_of b.kind f
unfolding send
t-send now₁ now₂ src f b h = ground arith

-- On one bus a frame that is sent no earlier, and is of the same protocol and no shorter, is due no
-- earlier; payloads have 2 GiB at most and the times stay below 2^63 ns.
pub send_in_order :
    (now₁ now₂ later₁ later₂ : SimTime) (src src' : Option ℕ) (f g : Frame) (b : Bus)
    → now₁ ≤ later₁
    → now₂ ≤ later₂
    → f.proto ≡ g.proto
    → length f.payload ≤ length g.payload
    → length g.payload ≤ 2 ^ 31
    → sending_time b.kind later₁ later₂ + delay_of b.kind g < 2 ^ 63
    → key (send now₁ now₂ src f b).item ≤ key (send later₁ later₂ src' g b).item
send_in_order now₁ now₂ later₁ later₂ src src' f g b h₁ h₂ e le s fits =
    let first : sending_time b.kind now₁ now₂ + delay_of b.kind f < 2 ^ 63 =
      omega (arith, earlier b.kind, delay_mono b.kind f g s e le) in
    rw (t-send now₁ now₂ src f b first, t-send later₁ later₂ src' g b fits)
      (omega (arith, earlier b.kind, delay_mono b.kind f g s e le))
  where
    earlier : (k : Kind) → sending_time k now₁ now₂ ≤ sending_time k later₁ later₂
    earlier (eth bps) = h₂
    earlier (can br) = h₁
