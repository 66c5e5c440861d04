-- ===== src/Gui/Main/Runs.antt =====
-- The invariant of the GUI's model over every run of `main`.
use open_vbus.Base.{ℕ, Bool, true, false, ◌||◌, List, [], ◌∷◌, Text, codes, All, if_cases}
use open_vbus.Gui.Model.{Model, Surroundings}
use open_vbus.Gui.Model.Buses.Creation.{new_bus-IsSound}
use open_vbus.Gui.Model.Projects.{Json}
use open_vbus.Gui.Model.Files.{read_recent, load_project}
use open_vbus.Gui.Model.Files.Preserved.{load_project-IsSound}
use open_vbus.Gui.Model.Actions.{start_model}
use open_vbus.Gui.Model.Actions.Runs.{start_model-IsSound}
use open_vbus.Gui.Model.Tick.{tick}
use open_vbus.Gui.Model.Tick.Preserved.{tick-IsSound, enqueue-IsSound}
use open_vbus.Gui.Model.Replays.Preserved.{run_thread-IsSound}
use open_vbus.Gui.Model.Invariant.{IsSound}
use open_vbus.Gui.Panels.{IsLawful}
use open_vbus.Gui.Window.{Ui, has_path}
use open_vbus.Gui.Window.Kept.{Kept, draw_dockspace-Kept}
use open_vbus.Gui.Main.{
  Arrival, frame_for, thread_runs, Turn, or_first_bus, auto_load, first_ui, start_ui, arrive, turn,
  main_loop,
}

module _ {S J : Type 0} (gui : Surroundings S) (json : Json J) where
  or_first_bus-IsSound : (r : Bool × Model S) → IsSound r.1 → IsSound (or_first_bus gui json r)
  unfolding or_first_bus
  or_first_bus-IsSound (true, m) s = s
  or_first_bus-IsSound (false, m) s = new_bus-IsSound gui (codes "Bus1") m s

  auto_load-IsSound : (r : Text × S) (m : Model S) → IsSound m → IsSound (auto_load gui json r m)
  unfolding auto_load
  auto_load-IsSound (recent, w) m s =
      let m' = record m { world = w } in
      if_cases IsSound (has_path recent) (or_first_bus gui json (load_project gui json recent m')) _
        (λ _. or_first_bus-IsSound _ (load_project-IsSound gui json recent m' s))
        (λ _. new_bus-IsSound gui (codes "Bus1") m' s)

  start_ui-Kept : (next : ℕ) (w : S) → Kept (start_ui gui json next w)
  unfolding start_ui first_ui
  start_ui-Kept next w =
      let m = start_model gui next w in
      auto_load-IsSound (read_recent gui json m.world) m (start_model-IsSound gui json next w)

  arrive-IsSound :
      (arrived : List Arrival) (m : Model S) → IsSound m → IsSound (arrive gui json arrived m)
  unfolding arrive
  arrive-IsSound [] m s = s
  arrive-IsSound (frame_for id f ∷ rest) m s = arrive-IsSound rest _ (enqueue-IsSound gui id f m s)
  arrive-IsSound (thread_runs ∷ rest) m s = arrive-IsSound rest _ (run_thread-IsSound gui m s)

  turn-Kept : (t : Turn) (u : Ui S) → IsLawful t.screen → Kept u → Kept (turn gui json t u)
  unfolding turn
  turn-Kept t u lawful s =
      let m = arrive gui json t.arrivals u.model in
      draw_dockspace-Kept gui json t.screen lawful (record u { model = tick gui t.elapsed m })
        (tick-IsSound gui t.elapsed m (arrive-IsSound t.arrivals u.model s))

  main_loop-Kept :
      (ts : List Turn) (u : Ui S)
      → All (λ t. IsLawful t.screen) ts
      → Kept u
      → Kept (main_loop gui json ts u).1
  unfolding main_loop
  main_loop-Kept [] u ls s = s
  main_loop-Kept (t ∷ ts) u (l, ls) s =
      if_cases (λ (r : Bool × Ui S). Kept r.1) (t.closed || u.request_exit) (true, u) _ (λ _. s)
        (λ _. main_loop-Kept ts (turn gui json t u) ls (turn-Kept t u l s))

  -- From the start of `main`, with a project that it loads or with a first bus, whatever the user does
  -- with the widgets of every frame, whatever arrives between the frames, and whatever the daemon and
  -- the file system answer: the log has at most 1,024 lines, a bus at most 4,096 packets and a record
  -- path that fits in its array; every subscription and every simulated interface belongs to a bus of
  -- the list, and the selected bus is one of the list or 0. ImGui must keep edited texts within their
  -- buffers.
  pub main-IsSound :
      (next : ℕ) (w : S) (ts : List Turn)
      → All (λ t. IsLawful t.screen) ts
      → IsSound (main_loop gui json ts (start_ui gui json next w)).1.model
  main-IsSound next w ts lawful =
      main_loop-Kept ts (start_ui gui json next w) lawful (start_ui-Kept next w)
