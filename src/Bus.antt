-- ===== src/Bus.antt =====
-- vbus/src/bus/{ibus.h, eth_bus.h, eth_bus.cpp, can_bus.h, can_bus.cpp} and vbus/src/taps/stats.h: the
-- two buses. Endpoints, callbacks and buses are known by number; a callback slot holds what a
-- `std::function` would call, `none` for an empty one. Clock readings are arguments, in the order of
-- the calls of `Now`; 64-bit arithmetic wraps.
pub mod Delay
pub mod Delivery
mod Tests
use open_vbus.Base.{
  ℕ, ◌+◌, ◌*◌, ◌/◌, ◌%◌, ◌^◌, Bool, Option, none, some, List, [], ◌∷◌, ◌++◌, ltb, ◌==◌, not,
  if◌then◌else◌, length,
}
use open_vbus.Frame.{Frame, eth2, can20, canfd}
use open_vbus.Scheduler.{SimTime, Item}

pub record BusStats : Type 0 where
  pub rx_frames : ℕ
  pub tx_frames : ℕ
  pub drops : ℕ

-- `EthHub` with its `link_bps`, or `CanBus` with its bit rate
pub data Kind : Type 0 where
  eth : ℕ → Kind
  can : ℕ → Kind

pub record Bus : Type 0 where
  pub address : ℕ
  pub kind : Kind
  pub endpoints : List ℕ
  pub rec_cb : Option ℕ
  pub sub_cb : Option ℕ
  pub fwd_cb : Option ℕ
  pub stats : BusStats

-- the constructors of `EthHub` and `CanBus`
unfoldable pub new_bus : ℕ → Kind → Bus
new_bus address kind = record {
  address = address;
  kind = kind;
  endpoints = [];
  rec_cb = none;
  sub_cb = none;
  fwd_cb = none;
  stats = record { rx_frames = 0; tx_frames = 0; drops = 0 };
}

unfoldable pub connect : ℕ → Bus → Bus
connect ep b = record b { endpoints = b.endpoints ++ ep ∷ [] }

-- `std::remove` of every entry equal to `ep`
unfoldable pub remove : ℕ → List ℕ → List ℕ
remove ep [] = []
remove ep (x ∷ xs) = let rest = remove ep xs in if x == ep then rest else x ∷ rest

unfoldable pub disconnect : ℕ → Bus → Bus
unfolding remove
disconnect ep b = record b { endpoints = remove ep b.endpoints }

unfoldable pub set_record_cb : Option ℕ → Bus → Bus
set_record_cb cb b = record b { rec_cb = cb }

unfoldable pub set_sub_cb : Option ℕ → Bus → Bus
set_sub_cb cb b = record b { sub_cb = cb }

unfoldable pub set_fwd_cb : Option ℕ → Bus → Bus
set_fwd_cb cb b = record b { fwd_cb = cb }

-- What the scheduled lambda has captured; `stats` is the bus whose counters it points to.
pub record Job : Type 0 where
  pub targets : List ℕ
  pub frame : Frame
  pub rec_cb : Option ℕ
  pub sub_cb : Option ℕ
  pub stats : ℕ

-- `for (auto *ep : m_EndpointList) if (ep != src) targets.push_back(ep);`; `none` is `nullptr`.
unfoldable pub targets_of : Option ℕ → List ℕ → List ℕ
unfolding remove
targets_of none eps = eps
targets_of (some src) eps = remove src eps

-- `SimTime(rate > 0 ? bits * 1'000'000'000ULL / rate : 0)`
unfoldable pub wire_delay : ℕ → ℕ → SimTime
wire_delay bits rate = if ltb 0 rate then bits * 1_000_000_000 % 2 ^ 64 / rate else 0

unfoldable pub eth_bits : Frame → ℕ
eth_bits f = (length f.payload + 18) % 2 ^ 64 * 8 % 2 ^ 64

unfoldable pub can_bits : Frame → ℕ
can_bits f = ((if f.proto == canfd then 67 else 43) + length f.payload * 8 % 2 ^ 64) % 2 ^ 64

-- The frame that a bus delivers: the hub makes every frame an Ethernet frame, the CAN bus makes what
-- is not CAN FD a CAN 2.0 frame, and both stamp it with the clock.
unfoldable pub stamp : Kind → SimTime → Frame → Frame
stamp (eth link_bps) now f = record f { proto = eth2; ts_ns = now }
stamp (can bitrate) now f = record f {
  proto = if f.proto == canfd then canfd else can20;
  ts_ns = now;
}

unfoldable pub delay_of : Kind → Frame → SimTime
unfolding wire_delay eth_bits can_bits
delay_of (eth link_bps) f = wire_delay (eth_bits f) link_bps
delay_of (can bitrate) f = wire_delay (can_bits f) bitrate

-- What a call of `Send` leaves: the bus, the frame handed to the forward callback at once, and the
-- item for the scheduler.
pub record Sent : Type 0 where
  pub bus : Bus
  pub forwarded : Option (ℕ × Frame)
  pub item : Item Job

abbrev pub to_callback : Option ℕ → Frame → Option (ℕ × Frame)
to_callback none f = none
to_callback (some cb) f = some (cb, f)

-- the part of `Send` that both classes share, once the delivery time and the frame are known
unfoldable pub send_at : SimTime → Option ℕ → Frame → Bus → Sent
unfolding targets_of
send_at deliver_at src f b = record {
  bus = record b { stats = record b.stats { tx_frames = (b.stats.tx_frames + 1) % 2 ^ 64 } };
  forwarded = to_callback b.fwd_cb f;
  item = record {
    t = deliver_at;
    fn = record {
      targets = targets_of src b.endpoints;
      frame = f;
      rec_cb = b.rec_cb;
      sub_cb = b.sub_cb;
      stats = b.address;
    };
  };
}

-- `EthHub::Send` reads the clock for the stamp and then for the delivery time, `CanBus::Send` the
-- other way round.
unfoldable pub send : SimTime → SimTime → Option ℕ → Frame → Bus → Sent
unfolding stamp delay_of send_at
send now₁ now₂ src f b = elim b.kind [
  | eth link_bps ↦
      send_at ((now₂ + delay_of (eth link_bps) f) % 2 ^ 64) src (stamp (eth link_bps) now₁ f) b
  | can bitrate ↦
      send_at ((now₁ + delay_of (can bitrate) f) % 2 ^ 64) src (stamp (can bitrate) now₂ f) b
]

-- What the scheduled lambda does, in order.
pub data Effect : Type 0 where
  record_frame stream_frame receive : ℕ → Frame → Effect
  count_rx : ℕ → Effect

abbrev pub if_set : Option ℕ → (ℕ → Effect) → List Effect
if_set none e = []
if_set (some cb) e = e cb ∷ []

unfoldable pub receive_all : ℕ → Frame → List ℕ → List Effect
receive_all stats f [] = []
receive_all stats f (ep ∷ eps) = receive ep f ∷ count_rx stats ∷ receive_all stats f eps

unfoldable pub deliver : Job → List Effect
unfolding receive_all
deliver j =
    if_set j.rec_cb (λ cb. record_frame cb j.frame)
    ++ (if_set j.sub_cb (λ cb. stream_frame cb j.frame) ++ receive_all j.stats j.frame j.targets)
