-- ===== src/Gui/Window.antt =====
-- `DrawDockspace` of vbus-gui/src/imgui_layer.cpp: the shortcuts, the menus, the panels in their order,
-- and the two dialogs.
pub mod Kept
pub mod Idle
use open_vbus.Base.{
  ℕ, ◌+◌, Bool, true, false, not, ◌&&◌, ◌||◌, List, [], ◌∷◌, ◌++◌, Text, codes, to_string, length,
  ◌==◌, if◌then◌else◌,
}
use open_vbus.Gui.Model.{Model, Surroundings, copied}
use open_vbus.Gui.Model.Buses.{new_bus, new_project}
use open_vbus.Gui.Model.Projects.{Json}
use open_vbus.Gui.Model.Files.{load_project, save_project}
use open_vbus.Gui.Panels.{Widget, plain, Screen, edited, pressed}
use open_vbus.Gui.Panels.Buses.{bus_list}
use open_vbus.Gui.Panels.Inspector.{Choices, inspector}
use open_vbus.Gui.Panels.Rules.{filters, log_panel}

-- the calls that open and close a popup
pub data PopupCall : Type 0 where
  open_popup close_popup : Text → PopupCall

-- The model with the rest of `AppState`, and the static variables. `calls` are the popups that were
-- opened and closed, latest first.
pub record Ui (S : Type 0) : Type 0 where
  pub model : Model S
  pub show_demo : Bool
  pub request_exit : Bool
  pub choices : Choices
  pub s_open_path : Text
  pub s_save_path : Text
  pub s_do_open : Bool
  pub s_do_save : Bool
  pub calls : List PopupCall

unfoldable pub has_path : Text → Bool
has_path [] = false
has_path (c ∷ path) = true

unfoldable pub is_slash : ℕ → Bool
is_slash c = c == b'/' || c == 92

unfoldable pub has_slash : Text → Bool
unfolding is_slash
has_slash [] = false
has_slash (c ∷ path) = is_slash c || has_slash path

-- The name in the menu bar: what follows the last slash or backslash (92), or all of the path.
unfoldable pub file_name : Text → Text
unfolding has_slash
file_name [] = []
file_name (c ∷ path) =
    let later = file_name path in
    if has_slash path then later else if is_slash c then path else c ∷ path

abbrev shortcut : Text → Widget
shortcut keys = plain [] keys

abbrev menu_item : Text → Widget
menu_item label = plain (codes "DockSpace") label

abbrev default_path : Text
default_path = codes "project.ovbproj"

module _ {S J : Type 0} (gui : Surroundings S) (json : Json J) (screen : Screen) where
  -- `saveProject(project_path)`
  unfoldable pub save_now : Ui S → Ui S
  unfolding save_project
  save_now u = record u { model = save_project gui json u.model.project_path u.model }

  unfoldable pub ask_to_save : Text → Ui S → Ui S
  unfolding copied
  ask_to_save path u = record u { s_save_path = copied 511 path; s_do_save = true }

  unfoldable pub ask_to_open : Ui S → Ui S
  unfolding copied
  ask_to_open u = record u { s_open_path = copied 511 u.model.project_path; s_do_open = true }

  unfoldable pub shortcuts : Ui S → Ui S
  unfolding has_path save_now ask_to_save ask_to_open
  shortcuts u =
      let saved =
        if has_path u.model.project_path then save_now u else ask_to_save default_path u in
      let u' = if screen.clicked (shortcut (codes "Ctrl+S")) then saved else u in
      if screen.clicked (shortcut (codes "Ctrl+O")) then ask_to_open u' else u'

  item_new : Ui S → Ui S
  unfolding new_project
  item_new u =
      if screen.clicked (menu_item (codes "New Project"))
      then record u { model = new_project gui u.model }
      else u

  item_open : Ui S → Ui S
  unfolding ask_to_open
  item_open u = if screen.clicked (menu_item (codes "Open Project...")) then ask_to_open u else u

  -- `hasSavePath` is computed before either item.
  items_save : Ui S → Ui S
  unfolding has_path save_now ask_to_save
  items_save u =
      let has_save_path = has_path u.model.project_path in
      let u' =
        if pressed screen has_save_path (menu_item (codes "Save Project")) then save_now u else u in
      if screen.clicked (menu_item (codes "Save Project As..."))
      then ask_to_save (if has_save_path then u'.model.project_path else default_path) u'
      else u'

  item_bus : Ui S → Ui S
  unfolding new_bus to_string
  item_bus u =
      if screen.clicked (menu_item (codes "New Bus"))
      then record u {
        model = new_bus gui (codes "Bus" ++ to_string (length u.model.buses + 1)) u.model;
      }
      else u

  item_exit : Ui S → Ui S
  item_exit u = record u {
    request_exit = u.request_exit || screen.clicked (menu_item (codes "Exit"));
  }

  unfoldable pub file_menu : Ui S → Ui S
  unfolding item_new item_open items_save item_bus item_exit
  file_menu u =
      let u' = item_exit (item_bus (items_save (item_open (item_new u)))) in
      if screen.opened (menu_item (codes "File")) then u' else u

  -- The item turns the flag over.
  unfoldable pub view_menu : Ui S → Ui S
  view_menu u = record u {
    show_demo =
        if screen.opened (menu_item (codes "View"))
        then (if screen.clicked (menu_item (codes "ImGui Demo"))
            then not u.show_demo
            else u.show_demo)
        else u.show_demo;
  }

  unfoldable pub menu_bar : Ui S → Ui S
  unfolding file_menu view_menu
  menu_bar u =
      let u' = view_menu (file_menu u) in
      if screen.opened (menu_item (codes "menu bar")) then u' else u

  inspected : Choices × Model S → Ui S → Ui S
  inspected (c, m) u = record u { choices = c; model = m }

  -- The panels of packets and VLANs only show.
  unfoldable pub panels : Ui S → Ui S
  unfolding bus_list inspected inspector filters log_panel
  panels u =
      let u' = inspected (inspector gui screen u.choices (bus_list gui screen u.model)) u in
      record u' { model = log_panel screen (filters screen u'.model) }

  -- `ShowDemoWindow(&show_demo)`, whose close button clears the flag
  unfoldable pub demo_window : Ui S → Ui S
  demo_window u = record u {
    show_demo =
        u.show_demo && not (screen.clicked (plain (codes "Dear ImGui Demo") (codes "close")));
  }

  -- `if (s_do_open) { OpenPopup("Open Project"); s_do_open = false; }`, and so for saving
  unfoldable pub open_dialog : Ui S → Ui S
  open_dialog u =
      if u.s_do_open
      then record u { s_do_open = false; calls = open_popup (codes "Open Project") ∷ u.calls }
      else u

  unfoldable pub save_dialog : Ui S → Ui S
  save_dialog u =
      if u.s_do_save
      then record u { s_do_save = false; calls = open_popup (codes "Save Project As") ∷ u.calls }
      else u

  close_call : Text → Ui S → Ui S
  close_call title u = record u { calls = close_popup title ∷ u.calls }

  opened_from : Bool × Model S → Ui S → Ui S
  unfolding close_call
  opened_from (ok, m) u =
      let u' = record u { model = m } in if ok then close_call (codes "Open Project") u' else u'

  cancel : Text → Ui S → Ui S
  unfolding close_call
  cancel title u = if screen.clicked (plain title (codes "Cancel")) then close_call title u else u

  unfoldable pub open_modal : Ui S → Ui S
  unfolding load_project opened_from cancel
  open_modal u =
      let title = codes "Open Project" in
      let u' = record u {
        s_open_path =
            edited (screen.input_text (plain title (codes "##op")) 512 u.s_open_path) u.s_open_path;
      } in
      let loaded = opened_from (load_project gui json u'.s_open_path u'.model) u' in
      let u'' = if screen.clicked (plain title (codes "Open")) then loaded else u' in
      if screen.opened (plain [] title) then cancel title u'' else u

  unfoldable pub save_modal : Ui S → Ui S
  unfolding save_project close_call cancel
  save_modal u =
      let title = codes "Save Project As" in
      let u' = record u {
        s_save_path =
            edited (screen.input_text (plain title (codes "##sp")) 512 u.s_save_path) u.s_save_path;
      } in
      let saved =
        close_call title (record u' { model = save_project gui json u'.s_save_path u'.model }) in
      let u'' = if screen.clicked (plain title (codes "Save")) then saved else u' in
      if screen.opened (plain [] title) then cancel title u'' else u

  -- one frame
  unfoldable pub draw_dockspace : Ui S → Ui S
  unfolding shortcuts menu_bar panels demo_window open_dialog open_modal save_dialog save_modal
  draw_dockspace u =
      save_modal
        (save_dialog (open_modal (open_dialog (demo_window (panels (menu_bar (shortcuts u)))))))
