-- ===== src/Gui/Main.antt =====
-- `main` of vbus-gui/src/main.cpp: the set-up, the last project, the loop over the frames and the end.
pub mod Runs
mod Tests
use open_vbus.Base.{
  ℕ, Bool, true, false, not, ◌||◌, Option, none, some, List, [], ◌∷◌, Text, codes, if◌then◌else◌,
}
use open_vbus.Gui.Client.{RawFrame}
use open_vbus.Gui.Model.{Model, Surroundings}
use open_vbus.Gui.Model.Buses.{new_bus, end_model}
use open_vbus.Gui.Model.Tick.{enqueue, tick}
use open_vbus.Gui.Model.Replays.{run_thread}
use open_vbus.Gui.Model.Projects.{Json}
use open_vbus.Gui.Model.Files.{read_recent, load_project, save_project}
use open_vbus.Gui.Model.Actions.{start_model}
use open_vbus.Gui.Panels.{Screen}
use open_vbus.Gui.Window.{Ui, has_path, draw_dockspace}

-- What other threads do between two frames: a frame of a subscription, a detached thread.
pub data Arrival : Type 0 where
  frame_for : ℕ → RawFrame → Arrival
  thread_runs : Arrival

-- One turn of the loop: `glfwWindowShouldClose`, what arrives, the time since the last turn in
-- nanoseconds, and the answers of the widgets.
pub record Turn : Type 0 where
  pub closed : Bool
  pub arrivals : List Arrival
  pub elapsed : ℕ
  pub screen : Screen

-- What GLFW and the loader of OpenGL answer.
pub record Setup : Type 0 where
  pub init : Bool
  pub window : Bool
  pub loaded : Bool

module _ {S J : Type 0} (gui : Surroundings S) (json : Json J) where
  -- the last project, or else a first bus
  unfoldable pub or_first_bus : Bool × Model S → Model S
  unfolding new_bus
  or_first_bus (true, m) = m
  or_first_bus (false, m) = new_bus gui (codes "Bus1") m

  unfoldable pub auto_load : Text × S → Model S → Model S
  unfolding or_first_bus load_project has_path
  auto_load (recent, s) m =
      let m' = record m { world = s } in
      let loaded = or_first_bus (load_project gui json recent m') in
      if has_path recent then loaded else new_bus gui (codes "Bus1") m'

  unfoldable pub first_ui : Model S → Ui S
  first_ui m = record {
    model = m;
    show_demo = false;
    request_exit = false;
    choices = record { s_sel = 0; s_mode = 0; s_scale = 0x3f800000 };
    s_open_path = [];
    s_save_path = [];
    s_do_open = false;
    s_do_save = false;
    calls = [];
  }

  -- Everything before the loop; `next` is what `next_id` will give.
  unfoldable pub start_ui : ℕ → S → Ui S
  unfolding start_model auto_load read_recent first_ui
  start_ui next s =
      let m = start_model gui next s in first_ui (auto_load (read_recent gui json m.world) m)

  unfoldable pub arrive : List Arrival → Model S → Model S
  unfolding enqueue run_thread
  arrive [] m = m
  arrive (frame_for id f ∷ rest) m = arrive rest (enqueue id f m)
  arrive (thread_runs ∷ rest) m = arrive rest (run_thread gui m)

  unfoldable pub turn : Turn → Ui S → Ui S
  unfolding arrive tick draw_dockspace
  turn t u =
      draw_dockspace gui json t.screen
        (record u { model = tick gui t.elapsed (arrive t.arrivals u.model) })

  -- The loop over given turns, and whether it has ended.
  unfoldable pub main_loop : List Turn → Ui S → Bool × Ui S
  unfolding turn
  main_loop [] u = (false, u)
  main_loop (t ∷ ts) u =
      let rest = main_loop ts (turn t u) in if t.closed || u.request_exit then (true, u) else rest

  -- the project is saved where it has a path
  unfoldable pub auto_save : Ui S → Model S
  unfolding save_project has_path
  auto_save u =
      let m = u.model in
      if has_path m.project_path then save_project gui json m.project_path m else m

  -- After the loop; at the end of `main` the model is destroyed.
  unfoldable pub ended : Bool × Ui S → Option (ℕ × S)
  unfolding auto_save end_model
  ended (false, u) = none
  ended (true, u) = some (0, end_model gui (auto_save u))

  -- The exit status and what lies outside; `none` while the loop runs.
  unfoldable pub main : Setup → ℕ → List Turn → S → Option (ℕ × S)
  unfolding ended main_loop start_ui
  main setup next ts s =
      let done = ended (main_loop ts (start_ui next s)) in
      if not setup.init || not setup.window
      then some (1, s)
      else if not setup.loaded
      then some (2, s)
      else done
