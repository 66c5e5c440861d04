-- ===== src/Gui/Model/Files/Preserved.antt =====
-- Opening and saving a project keep the invariant.
use open_vbus.Base.{[], ◌≡◌, Bool, true, false, ◌++◌, Text, codes, to_string, length, if_cases}
use open_vbus.Gui.Model.{Model, Surroundings, copied}
use open_vbus.Gui.Model.Invariant.{IsSound, add_log-IsSound}
use open_vbus.Gui.Model.Buses.Deletion.{delete_buses-clears}
use open_vbus.Gui.Model.Buses.Creation.{sync_buses-IsSound}
use open_vbus.Gui.Model.Projects.{Json}
use open_vbus.Gui.Model.Projects.Preserved.{load_text-IsSound}
use open_vbus.Gui.Model.Files.{
  save, load, write_recent, opened_project, load_project, torn_down, closed_project, save_project,
}

module _ {S J : Type 0} (gui : Surroundings S) (json : Json J) where
  opened_project-IsSound :
      (path : Text) (r : Bool × Model S) → IsSound r.1 → IsSound (opened_project gui json path r).1
  unfolding opened_project write_recent
  opened_project-IsSound path (false, m) s = add_log-IsSound gui _ m s
  opened_project-IsSound path (true, m) s =
      let t =
        add_log-IsSound gui
          (codes "[project] loaded: "
            ++ (path ++ (codes " (" ++ (to_string (length m.buses) ++ codes " bus(es))"))))
          (write_recent gui json path (record m { project_path = copied 511 path })) s in
      if_cases IsSound m.daemon_connected _ _ (λ _. sync_buses-IsSound gui _ t) (λ _. t)

  load-IsSound :
      (path : Text) (m : Model S) → IsSound m × (m.buses ≡ []) → IsSound (load gui json path m).1
  unfolding load
  load-IsSound path m h = load_text-IsSound json (gui.read_path path m.world) m h

  torn_down-IsSound :
      (m : Model S)
      → IsSound m
      → IsSound (torn_down gui json m) × ((torn_down gui json m).buses ≡ [])
  unfolding torn_down
  torn_down-IsSound m s = delete_buses-clears gui m s

  pub load_project-IsSound :
      (path : Text) (m : Model S) → IsSound m → IsSound (load_project gui json path m).1
  unfolding load_project
  load_project-IsSound path m s =
      opened_project-IsSound path (load gui json path (torn_down gui json m))
        (load-IsSound path (torn_down gui json m) (torn_down-IsSound m s))

  closed_project-IsSound :
      (path : Text) (r : Bool × S) (m : Model S)
      → IsSound m
      → IsSound (closed_project gui json path r m)
  unfolding closed_project write_recent
  closed_project-IsSound path (false, w) m s =
      add_log-IsSound gui (codes "[project] failed to save: " ++ path) (record m { world = w }) s
  closed_project-IsSound path (true, w) m s =
      add_log-IsSound gui (codes "[project] saved: " ++ path)
        (write_recent gui json path (record m { world = w; project_path = copied 511 path })) s

  pub save_project-IsSound :
      (path : Text) (m : Model S) → IsSound m → IsSound (save_project gui json path m)
  unfolding save_project
  save_project-IsSound path m s = closed_project-IsSound path (save gui json path m) m s
