-- ===== src/Gui/Model.antt =====
-- vbus-gui/src/app_state.h and model.h: the state of the GUI, and what all its operations share. A
-- `char` array is the text before its first NUL, and a `Bus &` is a bus that an operation takes and
-- gives back.
pub mod Records
mod Tests
pub mod Capture
pub mod Buses
pub mod Tick
pub mod Replays
pub mod Projects
pub mod Files
pub mod Actions
pub mod Invariant
use open_vbus.Base.{
  ℕ, ◌+◌, ◌%◌, ◌^◌, Bool, true, false, Option, none, some, List, [], ◌∷◌, ◌++◌, Text, Bytes, codes,
  length, drop, take, ltb, ◌==◌, if◌then◌else◌, starts_with,
}
use open_vbus.Gui.Filters.{FilterRule}
use open_vbus.Gui.Client.{RawFrame}
use open_vbus.Gui.Client.Commands.{DaemonClient, send_cmd}
use open_vbus.Pipe.{Pipes}

pub record Packet : Type 0 where
  pub timestamp_ns : ℕ
  pub vlan : ℕ
  pub size : ℕ
  pub proto : ℕ
  pub preview : Bytes

pub record InterfaceDesc : Type 0 where
  pub name : Text
  pub driver : Text

pub record Bus : Type 0 where
  pub id : ℕ
  pub name : Text
  pub iface : Option InterfaceDesc
  pub filters : List FilterRule
  pub ring : List Packet
  pub enabled : Bool
  pub bind_host : Text
  pub bind_port : ℕ
  pub target_host : Text
  pub target_port : ℕ
  pub recording : Bool
  pub record_path : Text
  pub replay_path : Text
  pub forward_host : Text
  pub forward_port : ℕ
  pub forwarding : Bool

unfoldable pub fresh_bus : ℕ → Text → Bus
fresh_bus id name = record {
  id = id;
  name = name;
  iface = none;
  filters = [];
  ring = [];
  enabled = true;
  bind_host = codes "0.0.0.0";
  bind_port = 9000;
  target_host = codes "127.0.0.1";
  target_port = 0;
  recording = false;
  record_path = [];
  replay_path = [];
  forward_host = codes "127.0.0.1";
  forward_port = 9000;
  forwarding = false;
}

-- The simulated interface of backends/iface_mock.h.
pub record Mock : Type 0 where
  pub running : Bool

-- `AppState` and the members of `Model`. `threads` are the commands of detached threads that have not
-- been sent yet, `next` is the counter of `next_id`, `world` is what lies outside, and the scale is
-- a float by its bit pattern. `last_ping` is the static variable of `tick`.
pub record Model (S : Type 0) : Type 0 where
  pub buses : List Bus
  pub selected_bus : ℕ
  pub daemon_connected : Bool
  pub log_lines : List Text
  pub record_all_prefix : Text
  pub global_recording : Bool
  pub replay_all_mode : Text
  pub replay_all_scale : ℕ
  pub global_replaying : Bool
  pub project_path : Text
  pub needs_daemon_sync : Bool
  pub tick_ns : ℕ
  pub last_ping : ℕ
  pub ifaces : List (ℕ × Mock)
  pub subs : List (ℕ × DaemonClient)
  pub frame_queue : List (ℕ × RawFrame)
  pub threads : List Text
  pub next : ℕ
  pub world : S

-- What the GUI asks of its surroundings: the pipe, the print of the time stamp and of the scale, the
-- draws of the random engine, and files. `read_path` is `none` for a file that cannot be opened,
-- `create_path` opens a file for writing, which empties it, `append_path` writes to it, and
-- `recent_path` is what `recentPath` makes of the environment.
pub record Surroundings (S : Type 0) : Type 0 where
  pub pipes : Pipes S
  pub stamp : ℕ → Text
  pub scale_text : ℕ → Text
  pub draw_size : S → ℕ × S
  pub draw_vlan : S → ℕ × S
  pub draw_byte : S → ℕ × S
  pub read_path : Text → S → Option Text × S
  pub create_path : Text → S → Bool × S
  pub append_path : Text → Text → S → S
  pub recent_path : Text

-- The string that `c_str` shows to C.
unfoldable pub c_str : Text → Text
c_str [] = []
c_str (c ∷ s) = let rest = c_str s in if c == 0 then [] else c ∷ rest

-- `snprintf(dst, size, "%s", s.c_str())`
unfoldable pub copied : ℕ → Text → Text
unfolding c_str
copied last s = take last (c_str s)

-- the bus that `getBus` and `find_if` find
unfoldable pub find_bus : ℕ → List Bus → Option Bus
find_bus id [] = none
find_bus id (b ∷ bs) = if b.id == id then some b else find_bus id bs

unfoldable pub trimmed_log : List Text → List Text
trimmed_log lines = if ltb 1024 (length lines) then drop 1 lines else lines

unfoldable pub is_ok : Text → Bool
unfolding starts_with
is_ok resp = starts_with (codes "OK") resp

-- the UTF-8 arrow of the log
abbrev pub arrow : Text
arrow = 32 ∷ 226 ∷ 134 ∷ 146 ∷ 32 ∷ []

abbrev pub quoted : Text → Text
quoted name = 39 ∷ (name ++ 39 ∷ [])

module _ {S : Type 0} (gui : Surroundings S) where
  unfoldable pub add_log : Text → Model S → Model S
  unfolding trimmed_log
  add_log msg m = record m {
    log_lines = trimmed_log (m.log_lines ++ (gui.stamp m.tick_ns ++ msg) ∷ []);
  }

  -- `resp` after `sendCmd`, which leaves it empty where it fails
  received : Option Text × S → Model S → Text × Model S
  received (none, s) m = ([], record m { world = s })
  received (some resp, s) m = (resp, record m { world = s })

  unfoldable pub ask : Text → Model S → Text × Model S
  unfolding received send_cmd
  ask cmd m = received (send_cmd gui.pipes cmd m.world) m

-- `for (auto &b : state.buses)`: each bus in turn may change, with the rest of the model.
unfoldable pub each :
    {S : Type 0} → (Bus → Model S → Bus × Model S) → List Bus → Model S → List Bus × Model S
each f [] m = ([], m)
each f (b ∷ bs) m = let (b', m') = f b m in let (bs', m'') = each f bs m' in (b' ∷ bs', m'')

unfoldable pub for_buses : {S : Type 0} → (Bus → Model S → Bus × Model S) → Model S → Model S
unfolding each
for_buses f m = let (bs, m') = each f m.buses m in record m' { buses = bs }
