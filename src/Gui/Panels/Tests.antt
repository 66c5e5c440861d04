-- ===== src/Gui/Panels/Tests.antt =====
-- The panels on concrete buses, packets and rules.
use open_vbus.Base.{
  ◌≡◌, ◌+◌, ◌<◌, ℕ, refl, true, false, some, List, [], ◌∷◌, codes, take, get_elem?, replicate, All,
  arith,
}
use open_vbus.Frame.{hex_to_bytes}
use open_vbus.Gui.Desk.{beside_daemon}
use open_vbus.Link.{Session}
use open_vbus.Gui.Filters.{FilterRule, include, exclude, passes_filters}
use open_vbus.Gui.Model.{Packet, Bus, Model, fresh_bus}
use open_vbus.Gui.Panels.{Screen}
use open_vbus.Gui.Panels.Idle.{idle}
use open_vbus.Gui.Panels.Packets.{Row, packet_rows}
use open_vbus.Gui.Panels.Packets.Preview.{packet_rows_lem}
use open_vbus.Gui.Panels.Rules.{add_rules}
use open_vbus.Gui.Panels.Rules.Fresh.{new_rules_pass}
use open_vbus.Gui.Panels.Rules.Tokens.{token_rules}
use open_vbus.Gui.Panels.Vlans.{vlan_rows}
use open_vbus.Gui.Panels.Vlans.Counts.{IsAscending, total, occurrences, vlan_rows_lem}

abbrev ready_bus : Bus
ready_bus = record (fresh_bus 1 (codes "a")) { replay_path = codes "f.vbuscap"; forward_port = 7 }

abbrev playing : Model Session
playing = record {
  buses = ready_bus ∷ fresh_bus 2 (codes "b") ∷ [];
  selected_bus = 1;
  daemon_connected = true;
  log_lines = [];
  record_all_prefix = codes "capture";
  global_recording = false;
  replay_all_mode = codes "burst";
  replay_all_scale = 0x3f800000;
  global_replaying = false;
  project_path = [];
  needs_daemon_sync = false;
  tick_ns = 0;
  last_ping = 0;
  ifaces = [];
  subs = [];
  frame_queue = [];
  threads = [];
  next = 3;
  world = beside_daemon;
}

abbrev packet : ℕ → Packet
packet vlan = record {
  timestamp_ns = 5;
  vlan = vlan;
  size = 64;
  proto = 1;
  preview = replicate 64 171;
}

abbrev two_packets : List Packet
two_packets = packet 100 ∷ packet 0 ∷ []

vlan_rows_lem_example :
    IsAscending (vlan_rows two_packets)
    × All (λ r. 0 < r.1) (vlan_rows two_packets)
    × ((vid : ℕ) → total vid (vlan_rows two_packets) ≡ occurrences vid two_packets)
vlan_rows_lem_example = vlan_rows_lem two_packets

packet_rows_lem_example :
    (row : Row) × (get_elem? (packet_rows 0 two_packets) 1 ≡ some row)
    × (row.idx ≡ 0 + 1)
    × (row.timestamp_ns ≡ (packet 0).timestamp_ns)
    × (row.vlan ≡ (packet 0).vlan)
    × (row.size ≡ (packet 0).size)
    × (hex_to_bytes row.preview ≡ take 16 (packet 0).preview)
packet_rows_lem_example = packet_rows_lem 0 1 two_packets (packet 0) (omega arith) refl

-- both buttons are clicked
abbrev both_clicked : Screen
both_clicked = record (idle (λ w. true) (λ x. [])) { clicked = λ w. true }

abbrev size_rule : List FilterRule
size_rule = record { type = include; expr = codes "*size:64" } ∷ []

new_rules_pass_example :
    passes_filters (add_rules both_clicked size_rule) 100 64 ≡ passes_filters size_rule 100 64
new_rules_pass_example = new_rules_pass both_clicked size_rule 100 64 (omega arith)

token_rules_example :
    (passes_filters (record { type = include; expr = codes "vlan:100" } ∷ []) 100 64 ≡ false)
    × (passes_filters (record { type = exclude; expr = codes "vlan:100" } ∷ []) 100 64
        ≡ passes_filters [] 100 64)
token_rules_example =
    token_rules (codes "vlan:100") [] 100 64 (omega arith) (omega arith) (omega arith) (omega arith)
