-- ===== src/Gui/Model/Files.antt =====
-- The files of project.cpp: `save`, `load`, `readRecent`, `writeRecent`; `loadProject` and
-- `saveProject` of model.cpp.
pub mod Preserved
use open_vbus.Base.{
  Bool, true, false, ◌||◌, ◌==◌, Option, none, some, [], ◌∷◌, ◌++◌, Text, codes, to_string, length,
  if◌then◌else◌,
}
use open_vbus.Gui.Model.{Model, Surroundings, copied, add_log}
use open_vbus.Gui.Model.Buses.{delete_buses, sync_buses}
use open_vbus.Gui.Model.Projects.{Json, saved_state, load_text}

unfoldable pub first_line : Text → Text
first_line [] = []
first_line (c ∷ s) = let rest = first_line s in if c == 10 then [] else c ∷ rest

-- the loop that pops white space off the back
unfoldable pub trim_path : Text → Text
trim_path [] = []
trim_path (c ∷ cs) = kept (trim_path cs)
  where
    kept : Text → Text
    kept [] = if c == 13 || (c == 10 || c == 32) then [] else c ∷ []
    kept (d ∷ ds) = c ∷ d ∷ ds

module _ {S J : Type 0} (gui : Surroundings S) (json : Json J) where
  write_dump : Text → Option Text → S → Bool × S
  write_dump path none s = (false, s)
  write_dump path (some text) s = (true, gui.append_path path (text ++ 10 ∷ []) s)

  -- The text is made when the file is open, and empty.
  save_created : Text → Option Text → Bool × S → Bool × S
  unfolding write_dump
  save_created path text (false, s) = (false, s)
  save_created path text (true, s) = write_dump path text s

  -- `ProjectIO::save`
  unfoldable pub save : Text → Model S → Bool × S
  unfolding save_created saved_state
  save path m = save_created path (json.dump (saved_state json m)) (gui.create_path path m.world)

  -- `ProjectIO::load`
  unfoldable pub load : Text → Model S → Bool × Model S
  unfolding load_text
  load path m = load_text json (gui.read_path path m.world) m

  written : Text → Bool × S → S
  written path (false, s) = s
  written path (true, s) = gui.append_path gui.recent_path (path ++ 10 ∷ []) s

  -- `ProjectIO::writeRecent`
  write_recent : Text → Model S → Model S
  unfolding written
  write_recent path m = record m { world = written path (gui.create_path gui.recent_path m.world) }

  recent_of : Option Text × S → Text × S
  unfolding first_line trim_path
  recent_of (none, s) = ([], s)
  recent_of (some text, s) = (trim_path (first_line text), s)

  -- `ProjectIO::readRecent`
  unfoldable pub read_recent : S → Text × S
  unfolding recent_of
  read_recent s = recent_of (gui.read_path gui.recent_path s)

  opened_project : Text → Bool × Model S → Bool × Model S
  unfolding write_recent copied add_log sync_buses to_string
  opened_project path (false, m) =
      (false, add_log gui (codes "[project] failed to load: " ++ path) m)
  opened_project path (true, m) =
      let m' =
        add_log gui
          (codes "[project] loaded: "
            ++ (path ++ (codes " (" ++ (to_string (length m.buses) ++ codes " bus(es))"))))
          (write_recent path (record m { project_path = copied 511 path })) in
      let synced = sync_buses gui m' in (true, if m'.daemon_connected then synced else m')

  torn_down : Model S → Model S
  unfolding delete_buses
  torn_down m = record (delete_buses gui m) { global_recording = false; global_replaying = false }

  unfoldable pub load_project : Text → Model S → Bool × Model S
  unfolding opened_project load torn_down
  load_project path m = opened_project path (load path (torn_down m))

  closed_project : Text → Bool × S → Model S → Model S
  unfolding write_recent copied add_log
  closed_project path (false, s) m =
      add_log gui (codes "[project] failed to save: " ++ path) (record m { world = s })
  closed_project path (true, s) m =
      add_log gui (codes "[project] saved: " ++ path)
        (write_recent path (record m { world = s; project_path = copied 511 path }))

  unfoldable pub save_project : Text → Model S → Model S
  unfolding closed_project save
  save_project path m = closed_project path (save path m) m
