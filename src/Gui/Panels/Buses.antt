-- ===== src/Gui/Panels/Buses.antt =====
-- `panels::BusList` of panel_bus_list.cpp.
pub mod Kept
pub mod Idle
pub mod Streams
use open_vbus.Base.{
  ℕ, suc, ◌+◌, Bool, not, ◌&&◌, Option, none, some, List, [], ◌∷◌, ◌++◌, Text, codes, to_string,
  text_eq, length, get_elem?, ◌==◌, if◌then◌else◌,
}
use open_vbus.Gui.Model.{Bus, Model, Surroundings, copied}
use open_vbus.Gui.Model.Records.{any_recording, start_record_all, stop_record_all}
use open_vbus.Gui.Model.Replays.{start_replay_all}
use open_vbus.Gui.Model.Buses.{is_empty, new_bus, delete_bus}
use open_vbus.Gui.Panels.{Widget, plain, numbered, Screen, edited, pressed}

abbrev on_list : Text → Widget
on_list label = plain (codes "Buses") label

-- the entries of the combo box, and the one of a mode; another text shows the first
abbrev pub modes : List Text
modes = codes "exact" ∷ codes "burst" ∷ codes "scale" ∷ []

unfoldable pub mode_index : Text → ℕ
unfolding text_eq
mode_index mode =
    if text_eq mode (codes "burst") then 1 else if text_eq mode (codes "scale") then 2 else 0

-- `snprintf` of an entry, which is one of the three
unfoldable pub chosen_mode : Option ℕ → Text → Text
unfolding copied
chosen_mode none mode = mode
chosen_mode (some i) mode = elim (get_elem? modes i) [ none ↦ mode | some t ↦ copied 15 t ]

-- A bus counts that has a file and a destination.
unfoldable pub counts : Bus → Bool
unfolding text_eq
counts b =
    let src_file = if not (text_eq b.replay_path []) then b.replay_path else b.record_path in
    not (text_eq src_file []) && (not (text_eq b.forward_host []) && not (b.forward_port == 0))

unfoldable pub ready_streams : List Bus → ℕ
unfolding counts
ready_streams [] = 0
ready_streams (b ∷ bs) = if counts b then suc (ready_streams bs) else ready_streams bs

-- The row of a bus: its name, marked while it records, under a number of its own.
unfoldable pub row_label : Bus → Text
unfolding to_string
row_label b =
    (if b.recording then b.name ++ codes "  *" else b.name) ++ (codes "##sel" ++ to_string b.id)

-- The loop over the rows: the selection, and the number of the last `X`.
unfoldable pub rows : Screen → List Bus → ℕ → ℕ → ℕ × ℕ
unfolding row_label
rows screen [] selected delete_id = (selected, delete_id)
rows screen (b ∷ bs) selected delete_id =
    rows screen bs (if screen.clicked (on_list (row_label b)) then b.id else selected)
      (if screen.clicked (numbered (codes "Buses") b.id (codes "X")) then b.id else delete_id)

module _ {S : Type 0} (gui : Surroundings S) (screen : Screen) where
  -- `global_recording` follows the buses that somebody stopped one by one.
  unfoldable pub resync_recording : Model S → Model S
  unfolding any_recording
  resync_recording m =
      if m.global_recording then record m { global_recording = any_recording gui m.buses } else m

  unfoldable pub record_toolbar : Model S → Model S
  unfolding start_record_all stop_record_all is_empty
  record_toolbar m =
      let enabled = not (is_empty m.buses) && m.daemon_connected in
      if not m.global_recording
      then (if pressed screen enabled (on_list (codes "[REC] ALL"))
          then start_record_all gui m
          else m)
      else (if screen.clicked (on_list (codes "[STOP] ALL")) then stop_record_all gui m else m)

  unfoldable pub edit_prefix : Model S → Model S
  edit_prefix m = record m {
    record_all_prefix =
        edited (screen.input_text (on_list (codes "##prefix")) 256 m.record_all_prefix)
          m.record_all_prefix;
  }

  unfoldable pub edit_mode : Model S → Model S
  unfolding chosen_mode mode_index
  edit_mode m = record m {
    replay_all_mode =
        chosen_mode (screen.combo (on_list (codes "##rmode")) 3 (mode_index m.replay_all_mode))
          m.replay_all_mode;
  }

  unfoldable pub edit_scale : Model S → Model S
  unfolding text_eq
  edit_scale m = record m {
    replay_all_scale =
        if text_eq m.replay_all_mode (codes "scale")
        then screen.input_float (on_list (codes "##rscale")) m.replay_all_scale
        else m.replay_all_scale;
  }

  unfoldable pub replay_toolbar : Model S → Model S
  unfolding start_replay_all ready_streams is_empty
  replay_toolbar m =
      let enabled =
        not (is_empty m.buses) && (m.daemon_connected && not (ready_streams m.buses == 0)) in
      if pressed screen enabled (on_list (codes "[REPLAY] ALL")) then start_replay_all gui m else m

  unfoldable pub acknowledge_replay : Model S → Model S
  acknowledge_replay m = record m {
    global_replaying = m.global_replaying && not (screen.clicked (on_list (codes "done")));
  }

  unfoldable pub add_bus : Model S → Model S
  unfolding new_bus to_string
  add_bus m =
      if screen.clicked (on_list (codes "+ New Bus"))
      then new_bus gui (codes "Bus" ++ to_string (length m.buses + 1)) m
      else m

  -- A bus is deleted when the loop is over; the number 0 means none.
  unfoldable pub end_rows : ℕ × ℕ → Model S → Model S
  unfolding delete_bus
  end_rows (selected, delete_id) m =
      let m' = record m { selected_bus = selected } in
      if delete_id == 0 then m' else delete_bus gui delete_id m'

  unfoldable pub bus_rows : Model S → Model S
  unfolding rows end_rows
  bus_rows m = end_rows (rows screen m.buses m.selected_bus 0) m

  unfoldable pub bus_list : Model S → Model S
  unfolding resync_recording record_toolbar edit_prefix edit_mode edit_scale replay_toolbar
      acknowledge_replay add_bus bus_rows
  bus_list m = bus_rows (
      add_bus (
        acknowledge_replay (
          replay_toolbar
            (edit_scale (edit_mode (edit_prefix (record_toolbar (resync_recording m))))))))
