-- ===== src/Gui/Window/Kept.antt =====
-- A frame keeps the invariant of the model, whatever the user does in it.
use open_vbus.Base.{◌+◌, Bool, ◌++◌, Text, codes, to_string, length, if_cases, if◌then◌else◌}
use open_vbus.Gui.Model.{Model, Surroundings}
use open_vbus.Gui.Model.Buses.Creation.{new_bus-IsSound, new_project-IsSound}
use open_vbus.Gui.Model.Projects.{Json}
use open_vbus.Gui.Model.Files.{load_project}
use open_vbus.Gui.Model.Files.Preserved.{load_project-IsSound, save_project-IsSound}
use open_vbus.Gui.Model.Invariant.{IsSound}
use open_vbus.Gui.Panels.{Screen, IsLawful, plain, edited}
use open_vbus.Gui.Panels.Buses.{bus_list}
use open_vbus.Gui.Panels.Buses.Kept.{bus_list-IsSound}
use open_vbus.Gui.Panels.Inspector.{inspector}
use open_vbus.Gui.Panels.Inspector.Kept.{inspector-IsSound}
use open_vbus.Gui.Panels.Rules.{filters}
use open_vbus.Gui.Panels.Rules.Kept.{filters-IsSound, log_panel-IsSound}
use open_vbus.Gui.Window.{
  Ui, shortcut, default_path, has_path, save_now, ask_to_save, ask_to_open, shortcuts, item_new,
  item_open, items_save, item_bus, item_exit, file_menu, view_menu, menu_bar, inspected, panels,
  demo_window, open_dialog, save_dialog, close_call, opened_from, cancel, open_modal, save_modal,
  draw_dockspace,
}

abbrev pub Kept : {S : Type 0} → Ui S → Type 0
Kept u = IsSound u.model

module _ {S J : Type 0} (gui : Surroundings S) (json : Json J) (screen : Screen)
    (lawful : IsLawful screen) where
  save_now-Kept : (u : Ui S) → Kept u → Kept (save_now gui json screen u)
  unfolding save_now
  save_now-Kept u s = save_project-IsSound gui json u.model.project_path u.model s

  if-Kept : (b : Bool) (u v : Ui S) → Kept u → Kept v → Kept (if b then u else v)
  if-Kept b u v s t = if_cases Kept b u v (λ _. s) (λ _. t)

  shortcuts-Kept : (u : Ui S) → Kept u → Kept (shortcuts gui json screen u)
  unfolding shortcuts ask_to_save ask_to_open
  shortcuts-Kept u s =
      let saved =
        if-Kept (has_path u.model.project_path) (save_now gui json screen u)
          (ask_to_save gui json screen default_path u) (save_now-Kept u s) s in
      let t = if-Kept (screen.clicked (shortcut (codes "Ctrl+S"))) _ u saved s in if-Kept _ _ _ t t

  item_new-Kept : (u : Ui S) → Kept u → Kept (item_new gui json screen u)
  unfolding item_new
  item_new-Kept u s = if-Kept _ _ u (new_project-IsSound gui u.model s) s

  item_open-Kept : (u : Ui S) → Kept u → Kept (item_open gui json screen u)
  unfolding item_open ask_to_open
  item_open-Kept u s = if-Kept _ _ u s s

  items_save-Kept : (u : Ui S) → Kept u → Kept (items_save gui json screen u)
  unfolding items_save ask_to_save
  items_save-Kept u s = let t = if-Kept _ _ u (save_now-Kept u s) s in if-Kept _ _ _ t t

  item_bus-Kept : (u : Ui S) → Kept u → Kept (item_bus gui json screen u)
  unfolding item_bus
  item_bus-Kept u s =
      if-Kept _ _ u
        (new_bus-IsSound gui (codes "Bus" ++ to_string (length u.model.buses + 1)) u.model s) s

  menu_bar-Kept : (u : Ui S) → Kept u → Kept (menu_bar gui json screen u)
  unfolding menu_bar view_menu file_menu item_exit
  menu_bar-Kept u s =
      if-Kept _ _ u
        (if-Kept _ _ u (item_bus-Kept _ (items_save-Kept _ (item_open-Kept _ (item_new-Kept u s))))
          s)
        s

  panels-Kept : (u : Ui S) → Kept u → Kept (panels gui json screen u)
  unfolding panels inspected
  panels-Kept u s =
      let m = bus_list gui screen u.model in
      let r = inspector gui screen u.choices m in
      log_panel-IsSound screen (filters screen r.1) (
        filters-IsSound screen r.1
          (inspector-IsSound gui screen lawful u.choices m (bus_list-IsSound gui screen u.model s)))

  dialogs-Kept :
      (u : Ui S) → Kept u → Kept (open_dialog gui json screen (demo_window gui json screen u))
  unfolding open_dialog demo_window
  dialogs-Kept u s = if-Kept _ _ _ s s

  save_dialog-Kept : (u : Ui S) → Kept u → Kept (save_dialog gui json screen u)
  unfolding save_dialog
  save_dialog-Kept u s = if-Kept _ _ _ s s

  cancel-Kept : (title : Text) (u : Ui S) → Kept u → Kept (cancel gui json screen title u)
  unfolding cancel close_call
  cancel-Kept title u s = if-Kept _ _ _ s s

  opened_from-Kept :
      (r : Bool × Model S) (u : Ui S) → IsSound r.1 → Kept (opened_from gui json screen r u)
  unfolding opened_from close_call
  opened_from-Kept r u s = if-Kept r.0 _ (record u { model = r.1 }) s s

  open_modal-Kept : (u : Ui S) → Kept u → Kept (open_modal gui json screen u)
  unfolding open_modal
  open_modal-Kept u s =
      let path =
        edited (screen.input_text (plain (codes "Open Project") (codes "##op")) 512 u.s_open_path)
          u.s_open_path in
      let loaded =
        opened_from-Kept (load_project gui json path u.model) (record u { s_open_path = path })
          (load_project-IsSound gui json path u.model s) in
      if-Kept _ _ u (cancel-Kept _ _ (if-Kept _ _ (record u { s_open_path = path }) loaded s)) s

  save_modal-Kept : (u : Ui S) → Kept u → Kept (save_modal gui json screen u)
  unfolding save_modal close_call
  save_modal-Kept u s =
      let path =
        edited
          (screen.input_text (plain (codes "Save Project As") (codes "##sp")) 512 u.s_save_path)
          u.s_save_path in
      let saved = save_project-IsSound gui json path u.model s in
      if-Kept _ _ u (cancel-Kept _ _ (if-Kept _ _ (record u { s_save_path = path }) saved s)) s

  pub draw_dockspace-Kept : (u : Ui S) → Kept u → Kept (draw_dockspace gui json screen u)
  unfolding draw_dockspace
  draw_dockspace-Kept u s =
      let u₁ = shortcuts gui json screen u in
      let u₂ = menu_bar gui json screen u₁ in
      let u₃ = panels gui json screen u₂ in
      let u₄ = open_dialog gui json screen (demo_window gui json screen u₃) in
      let u₅ = open_modal gui json screen u₄ in
      save_modal-Kept (save_dialog gui json screen u₅) (
        save_dialog-Kept u₅ (
          open_modal-Kept u₄
            (dialogs-Kept u₃ (panels-Kept u₂ (menu_bar-Kept u₁ (shortcuts-Kept u s))))))
