-- ===== src/Gui/Model/Buses.antt =====
-- `newBus`, `deleteBus`, the subscriptions, `syncBusesToDaemon` and `newProject`.
pub mod Preserved
pub mod Deletion
pub mod Creation
use open_vbus.Base.{
  ℕ, zero, suc, ◌+◌, ◌%◌, ◌^◌, Bool, true, false, Option, none, some, List, [], ◌∷◌, ◌++◌, Text,
  codes, to_string, length, ◌==◌, if◌then◌else◌,
}
use open_vbus.Gui.Client.Commands.{DaemonClient, new_client, subscribe, unsubscribe}
use open_vbus.Gui.Model.{
  Bus, Model, Surroundings, fresh_bus, find_bus, add_log, ask, arrow, quoted, for_buses,
}
use open_vbus.Gui.Model.Records.{stop_record}
use open_vbus.Gui.Model.Capture.{detach_iface, erase_id}

-- `m_subs.find(id)`
unfoldable pub find_sub : ℕ → List (ℕ × DaemonClient) → Option DaemonClient
find_sub id [] = none
find_sub id ((i, c) ∷ rest) = if i == id then some c else find_sub id rest

unfoldable pub erase_bus : ℕ → List Bus → List Bus
erase_bus id [] = []
erase_bus id (b ∷ bs) = let others = erase_bus id bs in if b.id == id then bs else b ∷ others

unfoldable pub first_id : List Bus → ℕ
first_id [] = 0
first_id (b ∷ bs) = b.id

unfoldable pub is_empty : List Bus → Bool
is_empty [] = true
is_empty (b ∷ bs) = false

unfoldable pub create_command : Text → Text
create_command name = codes "create " ++ (name ++ codes " eth 1000000000")

abbrev pub delete_command : Text → Text
delete_command name = codes "delete " ++ name

module _ {S : Type 0} (gui : Surroundings S) where
  end_sub : Option DaemonClient → S → S
  unfolding unsubscribe
  end_sub none s = s
  end_sub (some c) s = (unsubscribe gui.pipes c s).1

  unfoldable pub unsubscribe_frames : ℕ → Model S → Model S
  unfolding end_sub find_sub erase_id
  unsubscribe_frames id m = record m {
    world = end_sub (find_sub id m.subs) m.world;
    subs = erase_id id m.subs;
  }

  -- `m_subs[bid] = std::move(client)` ends the client that was there.
  subscribed : Bus → (Bool × DaemonClient) × S → Model S → Model S
  unfolding unsubscribe_frames add_log
  subscribed b ((true, c), s) m =
      let m' = unsubscribe_frames b.id (record m { world = s }) in
      add_log gui (codes "[sub] subscribed to frames on " ++ quoted b.name)
        (record m' { subs = (b.id, c) ∷ m'.subs })
  subscribed b ((false, c), s) m =
      add_log gui (codes "[sub] WARNING: could not subscribe to " ++ quoted b.name)
        (record m { world = s })

  unfoldable pub subscribe_frames : Bus → Model S → Model S
  unfolding subscribed subscribe new_client
  subscribe_frames b m = subscribed b (subscribe gui.pipes b.name new_client m.world) m

  -- A bus with the next number, at the end of the list, and selected.
  unfoldable pub with_bus : Text → Model S → Model S
  unfolding fresh_bus
  with_bus name m = record m {
    buses = m.buses ++ fresh_bus m.next name ∷ [];
    selected_bus = m.next;
    next = (m.next + 1) % 2 ^ 32;
  }

  created : Bus → Text × Model S → Model S
  unfolding subscribe_frames add_log
  created b (resp, m) = subscribe_frames b (
      add_log gui
        (codes "[create] bus " ++ (quoted b.name ++ (arrow ++ (codes "daemon: " ++ resp)))) m)

  unfoldable pub new_bus : Text → Model S → Model S
  unfolding with_bus created create_command fresh_bus add_log ask
  new_bus name m =
      let m' = with_bus name m in
      if m.daemon_connected
      then created (fresh_bus m.next name) (ask gui (create_command name) m')
      else add_log gui (codes "[create] bus " ++ (quoted name ++ codes " (local mock)")) m'

  told_daemon : Bus → Text × Model S → Model S
  unfolding add_log
  told_daemon b (resp, m) =
      add_log gui
        (codes "[delete] bus " ++ (quoted b.name ++ (arrow ++ (codes "daemon: " ++ resp)))) m

  stopped : Bus → Model S → Bus × Model S
  unfolding stop_record
  stopped b m = if b.recording then stop_record gui b m else (b, m)

  -- the recording, the subscription and the interface of the bus end
  pub retired : Bus → Model S → Bus × Model S
  unfolding stopped unsubscribe_frames detach_iface
  retired b m = let (b', m') = stopped b m in detach_iface gui b' (unsubscribe_frames b.id m')

  pub tell : Bus × Model S → Model S
  unfolding told_daemon ask add_log
  tell (b, m) =
      if m.daemon_connected
      then told_daemon b (ask gui (delete_command b.name) m)
      else add_log gui (codes "[delete] bus " ++ quoted b.name) m

  without_bus : ℕ → Model S → Model S
  unfolding erase_bus first_id
  without_bus id m =
      let bs = erase_bus id m.buses in record m { buses = bs; selected_bus = first_id bs }

  delete_found : ℕ → Option Bus → Model S → Model S
  unfolding retired tell without_bus
  delete_found id none m = m
  delete_found id (some b) m = without_bus id (tell (retired b m))

  unfoldable pub delete_bus : ℕ → Model S → Model S
  unfolding delete_found find_bus
  delete_bus id m = delete_found id (find_bus id m.buses) m

  -- `while (!state.buses.empty()) deleteBus(state.buses.front().id);` for `n` turns at most
  unfoldable pub delete_all : ℕ → Model S → Model S
  unfolding delete_bus first_id is_empty
  delete_all zero m = m
  delete_all (suc n) m =
      let rest = delete_all n (delete_bus (first_id m.buses) m) in
      if is_empty m.buses then m else rest

  -- Each turn deletes a bus, so that their number is enough.
  unfoldable pub delete_buses : Model S → Model S
  unfolding delete_all
  delete_buses m = delete_all (length m.buses) m

  -- no bus, and nothing of the project before
  blank_project : Model S → Model S
  unfolding delete_buses add_log
  blank_project m = add_log gui (codes "[project] new project") (record (delete_buses m) {
    project_path = [];
    global_recording = false;
    global_replaying = false;
    needs_daemon_sync = false;
  })

  unfoldable pub new_project : Model S → Model S
  unfolding blank_project new_bus
  new_project m = new_bus (codes "Bus1") (blank_project m)

  synced : Bus → Text × Model S → Model S
  unfolding add_log
  synced b (resp, m) =
      add_log gui (codes "[sync] create " ++ (quoted b.name ++ (codes " -> " ++ resp))) m

  subscribe_if : Option DaemonClient → Bus → Model S → Model S
  unfolding subscribe_frames
  subscribe_if none b m = subscribe_frames b m
  subscribe_if (some c) b m = m

  sync_bus : Bus → Model S → Bus × Model S
  unfolding synced subscribe_if find_sub create_command ask
  sync_bus b m =
      let m' = synced b (ask gui (create_command b.name) m) in
      (b, subscribe_if (find_sub b.id m'.subs) b m')

  sync_done : Model S → Model S
  unfolding add_log to_string
  sync_done m =
      add_log gui
        (codes "[sync] " ++ (to_string (length m.buses) ++ codes " bus(es) synced to daemon"))
        (record m { needs_daemon_sync = false })

  unfoldable pub sync_buses : Model S → Model S
  unfolding sync_bus sync_done for_buses
  sync_buses m = let m' = sync_done (for_buses sync_bus m) in if m.daemon_connected then m' else m

  end_subs : List (ℕ × DaemonClient) → S → S
  unfolding end_sub
  end_subs [] s = s
  end_subs ((id, c) ∷ rest) s = end_subs rest (end_sub (some c) s)

  -- the destructor of `Model`
  unfoldable pub end_model : Model S → S
  unfolding end_subs
  end_model m = end_subs m.subs m.world
