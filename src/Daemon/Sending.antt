-- ===== src/Daemon/Sending.antt =====
-- What the CAN commands put on a bus.
use open_vbus.Base.{
  ℕ, ◌≡◌, ◌≤◌, refl, ap, false, Option, some, none, Text, ◌∷◌, lookup, length, le→not_ltb, ◌==◌,
  arith, Bool-cases, inl, inr,
}
use open_vbus.Frame.{Frame, can20, hex_to_bytes}
use open_vbus.Scheduler.{Item, post}
use open_vbus.Net.{Sink, forward, Socket}
use open_vbus.Bus.{Bus, Job, send}
use open_vbus.Bus.Delivery.{bus_proto, send-Carries}
use open_vbus.Daemon.Numbers.{stoul_any}
use open_vbus.Daemon.Replies.{Reply}
use open_vbus.Daemon.Replies
use open_vbus.Daemon.State.{World, BusWrap, Os, put_bus, send_on, run_forward, send_datagram, log}
use open_vbus.Daemon.Handler.{Outcome, answered, with_bus, with_number, send_limited}
use open_vbus.Daemon.Handler

send_datagram-sched : (d : Option (Socket × Text)) (w : World) → (send_datagram d w).sched ≡ w.sched
unfolding send_datagram log
send_datagram-sched none w = refl
send_datagram-sched (some (s, bytes)) w = refl

run_forward-sched :
    (k : Option Sink) (f : Option (ℕ × Frame)) (w : World) → (run_forward k f w).sched ≡ w.sched
unfolding run_forward log
run_forward-sched k none w = refl
run_forward-sched none (some (cb, f)) w = refl
run_forward-sched (some k) (some (cb, f)) w = elim (Bool-cases (k.address == cb)) [
  | inl e ↦ rw e (send_datagram-sched (forward k f) w)
  | inr e ↦ rw e refl
]

-- A delivery of the frame that a command names, in the bus's protocol.
pub record IsDelivery (b : BusWrap) (proto id : ℕ) (hex : Text) (i : Item Job) : Type 0 where
  pub proto_of :
      i.fn.frame.proto
      ≡ bus_proto b.bus.kind
          (record { proto = proto; tag = id; ts_ns = 0; payload = hex_to_bytes hex })
  pub tag_of : i.fn.frame.tag ≡ id
  pub payload_of : i.fn.frame.payload ≡ hex_to_bytes hex
  pub rec_of : i.fn.rec_cb ≡ b.bus.rec_cb
  pub sub_of : i.fn.sub_cb ≡ b.bus.sub_cb

callbacks-send :
    (os : Os) (f : Frame) (b : Bus)
    → let j = (send os.now₁ os.now₂ none f b).item.fn in
      (j.rec_cb ≡ b.rec_cb) × (j.sub_cb ≡ b.sub_cb)
unfolding send
callbacks-send os f b = (ground arith, ground arith)

send_limited_lem :
    (proto limit : ℕ) (refusal : Reply) (os : Os) (name id hex : Text) (w : World) (b : BusWrap)
    (n : ℕ)
    → lookup name w.buses ≡ some b
    → length (hex_to_bytes hex) ≤ limit
    → stoul_any id ≡ some n
    → (w' : World) × (i : Item Job) × (send_limited proto limit refusal os name id hex w
        ≡ answered w' Replies.sent false)
      × (w'.sched ≡ i ∷ w.sched)
      × IsDelivery b proto n hex i
unfolding send_limited send_on post put_bus
send_limited_lem proto limit refusal os name id hex w b n e short number =
    let f : Frame = record { proto = proto; tag = n; ts_ns = 0; payload = hex_to_bytes hex } in
    let i = (send os.now₁ os.now₂ none f b.bus).item in
    let same = send-Carries os.now₁ os.now₂ none f b.bus in
    (
      send_on os name b f w,
      i,
      rw (le→not_ltb limit (length (hex_to_bytes hex)) short, with_bus, e, with_number, number)
          refl,
      ap (λ s. i ∷ s) (run_forward-sched b.sink _ w),
      record {
        proto_of = same.0;
        tag_of = same.1;
        payload_of = same.2;
        rec_of = (callbacks-send os f b.bus).0;
        sub_of = (callbacks-send os f b.bus).1;
      },
    )

-- On a bus that is there, `send-can` with an identifier that is a number and 8 bytes at most posts
-- one delivery: that identifier and payload, for the recorder and the subscriber of the moment.
pub send_can_lem :
    (os : Os) (name id hex : Text) (w : World) (b : BusWrap) (n : ℕ)
    → lookup name w.buses ≡ some b
    → length (hex_to_bytes hex) ≤ 8
    → stoul_any id ≡ some n
    → (w' : World) × (i : Item Job) × (Handler.send_can os name id hex w
        ≡ answered w' Replies.sent false)
      × (w'.sched ≡ i ∷ w.sched)
      × IsDelivery b can20 n hex i
unfolding Handler.send_can
send_can_lem = send_limited_lem can20 8 Replies.too_long_can
