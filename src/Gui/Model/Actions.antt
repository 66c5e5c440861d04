-- ===== src/Gui/Model/Actions.antt =====
-- The public operations of `Model`, one at a time: a user's choice on a bus of the list, a tick, a
-- frame of a subscription, a detached thread. A bus is given by its place in the list.
pub mod Runs
use open_vbus.Base.{◌++◌, false, ℕ, zero, suc, Bool, List, [], ◌∷◌, Text, codes, if◌then◌else◌}
use open_vbus.Gui.Client.{RawFrame}
use open_vbus.Gui.Client.Commands.{is_connected}
use open_vbus.Gui.Model.{Bus, InterfaceDesc, Model, Surroundings, add_log}
use open_vbus.Gui.Model.Records.{
  start_record, stop_record, start_record_all, stop_record_all, start_forward, stop_forward,
}
use open_vbus.Gui.Model.Capture.{attach_iface, detach_iface}
use open_vbus.Gui.Model.Buses.{new_bus, delete_bus, new_project}
use open_vbus.Gui.Model.Tick.{enqueue, tick}
use open_vbus.Gui.Model.Replays.{start_replay_all, run_thread, replay_file}
use open_vbus.Gui.Model.Projects.{Json}
use open_vbus.Gui.Model.Files.{load_project, save_project}

-- What is done with one bus.
pub data BusAction : Type 0 where
  attach : InterfaceDesc → BusAction
  detach record_on record_off forward_on forward_off : BusAction
  replay : Text → BusAction

pub data Action : Type 0 where
  on_bus : ℕ → BusAction → Action
  create : Text → Action
  delete : ℕ → Action
  record_all stop_all replay_all fresh_project thread : Action
  open_project save_as : Text → Action
  elapsed : ℕ → Action
  frame : ℕ → RawFrame → Action

-- A change of the bus at a place; there is none beyond the end.
unfoldable pub at_place :
    {S : Type 0} → (Bus → Model S → Bus × Model S) → ℕ → List Bus → Model S → List Bus × Model S
at_place f i [] m = ([], m)
at_place f zero (b ∷ bs) m = let (b', m') = f b m in (b' ∷ bs, m')
at_place f (suc i) (b ∷ bs) m = let (bs', m') = at_place f i bs m in (b ∷ bs', m')

-- The state before the constructor of `Model` writes its first line, with the members' initial values;
-- `next` is what `next_id` will give.
initial : {S : Type 0} → ℕ → Bool × S → Model S
initial next (connected, s) = record {
  buses = [];
  selected_bus = 0;
  daemon_connected = connected;
  log_lines = [];
  record_all_prefix = codes "capture";
  global_recording = false;
  replay_all_mode = codes "exact";
  replay_all_scale = 0x3f800000;
  global_replaying = false;
  project_path = [];
  needs_daemon_sync = false;
  tick_ns = 0;
  last_ping = 0;
  ifaces = [];
  subs = [];
  frame_queue = [];
  threads = [];
  next = next;
  world = s;
}

greeted : {S : Type 0} → Surroundings S → Model S → Model S
unfolding add_log
greeted gui m =
    if m.daemon_connected
    then add_log gui (codes "[startup] Connected to vbusd") m
    else add_log gui
        (codes "[startup] vbusd not found " ++ (226 ∷ 128 ∷ 147 ∷ codes " running in mock mode")) m

-- The constructor of `Model` on a fresh `AppState`.
unfoldable pub start_model : {S : Type 0} → Surroundings S → ℕ → S → Model S
unfolding is_connected initial greeted
start_model gui next s = greeted gui (initial next (is_connected gui.pipes s))

module _ {S J : Type 0} (gui : Surroundings S) (json : Json J) where
  unfoldable pub act_on : BusAction → Bus → Model S → Bus × Model S
  unfolding attach_iface detach_iface start_record stop_record start_forward stop_forward
      replay_file
  act_on (attach d) b m = attach_iface gui d b m
  act_on detach b m = detach_iface gui b m
  act_on record_on b m = start_record gui b m
  act_on record_off b m = stop_record gui b m
  act_on forward_on b m = start_forward gui b m
  act_on forward_off b m = stop_forward gui b m
  act_on (replay mode) b m = replay_file gui mode b m

  unfoldable pub act : Action → Model S → Model S
  unfolding act_on at_place
  act (on_bus i a) m = let (bs, m') = at_place (act_on a) i m.buses m in record m' { buses = bs }
  act (create name) m = new_bus gui name m
  act (delete id) m = delete_bus gui id m
  act record_all m = start_record_all gui m
  act stop_all m = stop_record_all gui m
  act replay_all m = start_replay_all gui m
  act fresh_project m = new_project gui m
  act thread m = run_thread gui m
  act (open_project path) m = (load_project gui json path m).1
  act (save_as path) m = save_project gui json path m
  act (elapsed dt) m = tick gui dt m
  act (frame id f) m = enqueue id f m

  unfoldable pub act_all : List Action → Model S → Model S
  unfolding act
  act_all [] m = m
  act_all (a ∷ rest) m = act_all rest (act a m)
