-- ===== src/Gui/Model/Tests.antt =====
-- A GUI beside a daemon: two buses, a capture, a recording of both, a deletion.
use open_vbus.Daemon.Commands
use open_vbus.Gui.Client.{RawFrame}
use open_vbus.Gui.Client.Commands.{list_command, subscribe_command}
use open_vbus.Gui.Model.Tick.{tick}
use open_vbus.Gui.Model.Tick.Rings.{AfterFrames, wanted, tick_shows}
use open_vbus.Link.Lines.{IsPlain, commands_lem}
use open_vbus.Gui.Model.Records.{
  forward_command, record_command, stop_record_command, stop_forward_command,
}
use open_vbus.Gui.Model.Capture.{stop_capture_command, udp_command, tcp_command}
use open_vbus.Gui.Model.Replays.{replay_command}
use open_vbus.Cli.Words.{word, IsWord}
use open_vbus.Daemon.Commands.{split, is_space, parse}
use open_vbus.Base.{
  some, if◌then◌else◌, length, ◌≤◌, arith, refl, to_string, ℕ, ◌≡◌, true, false, List, [], ◌∷◌,
  codes,
}
use open_vbus.Link.{Session}
use open_vbus.Gui.Desk.{desk, no_json, beside_daemon}
use open_vbus.Gui.Model.{Model, find_bus, Bus, fresh_bus}
use open_vbus.Gui.Model.Buses.{create_command, delete_command, new_project}
use open_vbus.Gui.Model.Buses.Creation.{new_project_lem}
use open_vbus.Gui.Model.Actions.{
  Action, on_bus, attach, create, delete, record_all, elapsed, start_model, act_all,
}
use open_vbus.Gui.Model.Actions.Runs.{run-IsSound}

abbrev morning : List Action
morning =
    create (codes "a")
    ∷ create (codes "b")
    ∷ on_bus 1 (attach (record { name = codes "Mock"; driver = codes "mock" }))
    ∷ record_all
    ∷ elapsed 16_000_000
    ∷ delete 1
    ∷ []

new_project_lem_example :
    (id : ℕ) × ((new_project desk
        (act_all desk no_json morning (start_model desk 1 beside_daemon))).buses
      ≡ fresh_bus id (codes "Bus1") ∷ [])
    × ((new_project desk
          (act_all desk no_json morning (start_model desk 1 beside_daemon))).selected_bus
        ≡ id)
new_project_lem_example =
    new_project_lem desk (act_all desk no_json morning (start_model desk 1 beside_daemon))
      (run-IsSound desk no_json morning 1 beside_daemon)

abbrev plain_bus : Bus
plain_bus = fresh_bus 1 (codes "a")

plain_bus-IsPlain : IsPlain plain_bus
unfolding fresh_bus is_space
plain_bus-IsPlain = record {
  name = word b'a' (codes "") (refl, tt);
  bind_host = word b'0' (codes ".0.0.0") (refl, (refl, (refl, (refl, (refl, (refl, (refl, tt)))))));
  bind_port = omega arith;
  target_host =
      word b'1' (codes "27.0.0.1")
        (refl, (refl, (refl, (refl, (refl, (refl, (refl, (refl, (refl, tt)))))))));
  target_port = omega arith;
  forward_host =
      word b'1' (codes "27.0.0.1")
        (refl, (refl, (refl, (refl, (refl, (refl, (refl, (refl, (refl, tt)))))))));
  forward_port = omega arith;
}

file-IsWord : IsWord (codes "f.vbuscap")
unfolding is_space
file-IsWord =
    word b'f' (codes ".vbuscap")
      (refl, (refl, (refl, (refl, (refl, (refl, (refl, (refl, (refl, tt)))))))))

mode-IsWord : IsWord (codes "burst")
unfolding is_space
mode-IsWord = word b'b' (codes "urst") (refl, (refl, (refl, (refl, (refl, tt)))))

commands_lem_example :
    (parse (split (create_command plain_bus.name))
      ≡ Commands.create plain_bus.name (codes "eth") (codes "1000000000"))
    × (parse (split (forward_command desk plain_bus))
        ≡ Commands.forward_udp plain_bus.name plain_bus.forward_host
            (to_string plain_bus.forward_port))
    × (parse (split (udp_command desk plain_bus))
        ≡ Commands.capture_udp plain_bus.name plain_bus.bind_host (to_string plain_bus.bind_port))
    × (parse (split (tcp_command desk plain_bus))
        ≡ Commands.capture_tcp plain_bus.name plain_bus.bind_host
            (to_string plain_bus.bind_port)
            plain_bus.target_host
            (to_string plain_bus.target_port))
    × (parse (split (replay_command plain_bus.name (codes "f.vbuscap") (codes "burst")))
        ≡ Commands.replay plain_bus.name (codes "f.vbuscap") (codes "burst"))
    × (parse (split (record_command plain_bus.name (codes "f.vbuscap")))
        ≡ Commands.record_on plain_bus.name (codes "f.vbuscap"))
    × (parse (split (stop_record_command plain_bus.name)) ≡ Commands.stop_rec plain_bus.name)
    × (parse (split (delete_command plain_bus.name)) ≡ Commands.delete plain_bus.name)
    × (parse (split (stop_capture_command plain_bus.name)) ≡ Commands.stop_capturing plain_bus.name)
    × (parse (split (stop_forward_command plain_bus.name)) ≡ Commands.stop_forward plain_bus.name)
    × (parse (split (subscribe_command plain_bus.name)) ≡ Commands.subscribe plain_bus.name)
    × (parse (split list_command) ≡ Commands.list)
commands_lem_example =
    commands_lem desk plain_bus (codes "f.vbuscap") (codes "burst") plain_bus-IsPlain file-IsWord
      mode-IsWord

-- Two frames for the first bus, one for a bus that is gone.
abbrev three_frames : List (ℕ × RawFrame)
three_frames =
    (1, record { proto = 1; tag = 0; ts_ns = 5; payload = 1 ∷ [] })
    ∷ (7, record { proto = 1; tag = 0; ts_ns = 6; payload = 2 ∷ [] })
    ∷ (1, record { proto = 4; tag = 0; ts_ns = 7; payload = 3 ∷ [] })
    ∷ []

abbrev connected : Model Session
connected = record {
  buses = fresh_bus 1 (codes "a") ∷ fresh_bus 2 (codes "b") ∷ [];
  selected_bus = 1;
  daemon_connected = true;
  log_lines = [];
  record_all_prefix = codes "capture";
  global_recording = false;
  replay_all_mode = codes "exact";
  replay_all_scale = 0x3f800000;
  global_replaying = false;
  project_path = [];
  needs_daemon_sync = false;
  tick_ns = 0;
  last_ping = 0;
  ifaces = [];
  subs = [];
  frame_queue = three_frames;
  threads = [];
  next = 3;
  world = beside_daemon;
}

abbrev first_bus : Bus
first_bus = fresh_bus 1 (codes "a")

found : find_bus 1 connected.buses ≡ some first_bus
unfolding find_bus fresh_bus
found = refl

empty_ring : length first_bus.ring ≤ 4096
unfolding fresh_bus
empty_ring = omega arith

tick_shows_example :
    AfterFrames first_bus
      (if first_bus.enabled then wanted 1 first_bus.filters connected.frame_queue else [])
      (find_bus 1 (tick desk 16_000_000 connected).buses)
    × ((tick desk 16_000_000 connected).frame_queue ≡ [])
tick_shows_example =
    tick_shows desk 16_000_000 connected 1 first_bus refl (omega arith) found empty_ring
