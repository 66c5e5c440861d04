-- ===== src/Gui/Model/Tick.antt =====
-- `tick`: the ping of the daemon, the frames of the subscriptions, and the simulated traffic.
pub mod Preserved
pub mod Shown
pub mod Rings
use open_vbus.Base.{
  ℕ, zero, suc, ◌+◌, ◌-◌, ◌%◌, ◌^◌, Bool, true, false, not, ◌||◌, Option, none, some, List, [], ◌∷◌,
  ◌++◌, Bytes, codes, length, take, replicate, ltb, ◌==◌, if◌then◌else◌,
}
use open_vbus.Gui.Filters.{passes_filters}
use open_vbus.Gui.Client.{RawFrame}
use open_vbus.Gui.Client.Commands.{DaemonClient, is_connected}
use open_vbus.Gui.Model.{Bus, Packet, Model, Surroundings, add_log, for_buses}
use open_vbus.Gui.Model.Buses.{find_sub, sync_buses}

unfoldable pub packet_of : RawFrame → Packet
packet_of f = record {
  timestamp_ns = f.ts_ns;
  vlan = 0;
  size = length f.payload % 2 ^ 16;
  proto = f.proto;
  preview = take 64 (f.payload ++ replicate 64 0);
}

-- `push_front`, and `pop_back` beyond 4,096 packets
unfoldable pub pushed : Packet → List Packet → List Packet
pushed p ring =
    let more = p ∷ ring in if ltb 4096 (length more) then take (length more - 1) more else more

unfoldable pub offer : Packet → Bus → Bus
unfolding pushed passes_filters
offer p b =
    if passes_filters b.filters p.vlan p.size then record b { ring = pushed p b.ring } else b

-- one frame for the bus with the number, if there is one and it is enabled
unfoldable pub receive_frame : ℕ → RawFrame → List Bus → List Bus
unfolding offer packet_of
receive_frame id f [] = []
receive_frame id f (b ∷ bs) =
    let others = receive_frame id f bs in
    if b.id == id then (if b.enabled then offer (packet_of f) b ∷ bs else b ∷ bs) else b ∷ others

unfoldable pub receive_frames : List (ℕ × RawFrame) → List Bus → List Bus
unfolding receive_frame
receive_frames [] bs = bs
receive_frames ((id, f) ∷ fs) bs = receive_frames fs (receive_frame id f bs)

-- the callback of a subscription, on its own thread
unfoldable pub enqueue : ℕ → RawFrame → {S : Type 0} → Model S → Model S
enqueue id f m = record m { frame_queue = m.frame_queue ++ (id, f) ∷ [] }

is_subscribed : Option DaemonClient → Bool
is_subscribed none = false
is_subscribed (some c) = true

module _ {S : Type 0} (gui : Surroundings S) where
  -- `n` draws of a byte
  draw_bytes : ℕ → S → Bytes × S
  draw_bytes zero s = ([], s)
  draw_bytes (suc n) s =
      let (x, s') = gui.draw_byte s in let (xs, s'') = draw_bytes n s' in (x ∷ xs, s'')

  mock_packet : ℕ → S → Packet × S
  unfolding draw_bytes
  mock_packet now s =
      let (v, s') = gui.draw_vlan s in
      let (size, s'') = gui.draw_size s' in
      let (preview, s''') = draw_bytes 64 s'' in
      (
        record {
          timestamp_ns = now;
          vlan = if v == 0 then 0 else 100;
          size = size % 2 ^ 16;
          proto = 1;
          preview = preview;
        },
        s''',
      )

  mock_bus : Bus → Model S → Bus × Model S
  unfolding mock_packet offer is_subscribed find_sub
  mock_bus b m =
      let (p, s) = mock_packet m.tick_ns m.world in
      if not b.enabled || is_subscribed (find_sub b.id m.subs)
      then (b, m)
      else (offer p b, record m { world = s })

  -- the change of `daemon_connected` from `was`
  noticed : Bool → Bool → Model S → Model S
  unfolding add_log sync_buses
  noticed false true m =
      let m' = add_log gui (codes "[daemon] connected") m in
      let synced = sync_buses gui m' in if m'.needs_daemon_sync then synced else m'
  noticed true false m = add_log gui (codes "[daemon] disconnected") m
  noticed false false m = m
  noticed true true m = m

  pinged : Bool × S → Model S → Model S
  unfolding noticed
  pinged (now, s) m =
      noticed m.daemon_connected now
        (record m { last_ping = m.tick_ns; daemon_connected = now; world = s })

  ping : Model S → Model S
  unfolding pinged is_connected
  ping m =
      let m' = pinged (is_connected gui.pipes m.world) m in
      if ltb 2_000_000_000 ((m.tick_ns + 2 ^ 64 - m.last_ping) % 2 ^ 64) then m' else m

  drained : Model S → Model S
  unfolding receive_frames
  drained m = record m { buses = receive_frames m.frame_queue m.buses; frame_queue = [] }

  simulated : Model S → Model S
  unfolding mock_bus for_buses
  simulated m = let m' = for_buses mock_bus m in if m.daemon_connected then m else m'

  -- `tick`, with `dt` in nanoseconds
  unfoldable pub tick : ℕ → Model S → Model S
  unfolding ping drained simulated
  tick dt m = simulated (drained (ping (record m { tick_ns = (m.tick_ns + dt) % 2 ^ 64 })))
