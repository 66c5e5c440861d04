-- ===== src/Bus/Tests.antt =====
-- A hub with three connections of two endpoints.
use open_vbus.Base.{
  ◌^◌, ◌+◌, ◌*◌, ◌≤◌, ◌<◌, ◌≡◌, refl, ◌==◌, if◌then◌else◌, none, some, [], ◌∷◌, All, arith,
}
use open_vbus.Frame.{Frame, udp}
use open_vbus.Scheduler.{key}
use open_vbus.Bus
use open_vbus.Bus.{Bus, Kind, eth, can, send, deliver, targets_of, delay_of}
use open_vbus.Bus.Delivery.{
  times, receptions, Carries, recorders, subscribers, receivers, bus_proto, receptions-send,
  send-Carries,
}
use open_vbus.Bus.Delay.{wire_bits, delay_bounds, send_in_order}

abbrev hub : Bus
hub = record {
  address = 5;
  kind = eth 1_000_000_000;
  endpoints = 7 ∷ 8 ∷ 7 ∷ [];
  rec_cb = some 3;
  sub_cb = none;
  fwd_cb = some 4;
  stats = record { rx_frames = 0; tx_frames = 41; drops = 0 };
}

abbrev short_frame : Frame
short_frame = record { proto = udp; tag = 9; ts_ns = 0; payload = 1 ∷ [] }

abbrev long_frame : Frame
long_frame = record { proto = udp; tag = 9; ts_ns = 0; payload = 1 ∷ 2 ∷ 3 ∷ [] }

receptions-send_example :
    receptions 7 (deliver (send 100 200 (some 8) short_frame hub).item.fn)
    ≡ (if 8 == 7 then 0 else times 7 hub.endpoints)
receptions-send_example = receptions-send 100 200 (some 8) short_frame hub 7

send-Carries_example :
    let s = send 100 200 none short_frame hub in
    let g = s.item.fn.frame in
    (g.proto ≡ bus_proto hub.kind short_frame)
    × (g.tag ≡ 9)
    × (g.payload ≡ 1 ∷ [])
    × All (Carries g) (deliver s.item.fn)
    × (recorders (deliver s.item.fn) ≡ 3 ∷ [])
    × (subscribers (deliver s.item.fn) ≡ [])
    × (receivers (deliver s.item.fn) ≡ targets_of none hub.endpoints)
    × (s.forwarded ≡ Bus.to_callback hub.fwd_cb g)
send-Carries_example = send-Carries 100 200 none short_frame hub

delay_bounds_example :
    (delay_of (can 500_000) short_frame * 500_000
      ≤ wire_bits (can 500_000) short_frame * 1_000_000_000)
    × (wire_bits (can 500_000) short_frame * 1_000_000_000
        < (delay_of (can 500_000) short_frame + 1) * 500_000)
delay_bounds_example = delay_bounds (can 500_000) short_frame (omega arith) (omega arith)

hub_in_time : 300 + delay_of (eth 1_000_000_000) long_frame < 2 ^ 63
unfolding delay_of
hub_in_time = omega arith

send_in_order_example :
    key (send 100 200 none short_frame hub).item ≤ key (send 150 300 none long_frame hub).item
send_in_order_example =
    send_in_order 100 200 150 300 none none short_frame long_frame hub (omega arith) (omega arith)
      refl (omega arith) (omega arith) hub_in_time
