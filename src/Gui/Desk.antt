-- ===== src/Gui/Desk.antt =====
-- A GUI beside a daemon, for the tests.
use open_vbus.Base.{[], Bool, true, false, none, some, codes}
use open_vbus.Daemon.State.{Os}
use open_vbus.Daemon.Invariant.Runs.{new_world}
use open_vbus.Link.{Session, daemon_pipes}
use open_vbus.Gui.Model.{Surroundings}
use open_vbus.Gui.Model.Projects.{Json}

abbrev pub desk_os : Os
desk_os = record {
  now₁ = 5;
  now₂ = 6;
  file = λ path. none;
  device = λ path. some 1000;
  sockets = record { socket = some 3; bind = true; listen = true };
  resolves = true;
  pipe_accepts = true;
  stod = λ text. none;
}

abbrev pub desk : Surroundings Session
desk = record {
  pipes = daemon_pipes desk_os 1;
  stamp = λ n. codes "[00000.000] ";
  scale_text = λ n. codes "scale:1.000";
  draw_size = λ s. (64, s);
  draw_vlan = λ s. (0, s);
  draw_byte = λ s. (7, s);
  read_path = λ path s. (none, s);
  create_path = λ path s. (false, s);
  append_path = λ path text s. s;
  recent_path = codes "last_project.txt";
}

-- Values without content in place of JSON, of which these runs read none.
abbrev pub no_json : Json Bool
no_json = record {
  of_text = λ s. true;
  of_number = λ n. true;
  of_float = λ n. true;
  of_list = λ js. true;
  of_object = λ fs. true;
  get_text = λ j. none;
  get_number = λ j. none;
  get_float = λ j. none;
  is_object = λ j. false;
  find = λ k j. none;
  members = λ j. [];
  parse = λ s. none;
  dump = λ j. none;
}

abbrev pub beside_daemon : Session
beside_daemon = record { world = some new_world; whole = false; waiting = none }
