-- ===== src/Gui/Window/Idle.antt =====
-- A frame in which the user does nothing.
use open_vbus.Base.{codes, ℕ, ◌≡◌, ◌∙◌, refl, ap, Bool, false, ◌&&◌, Text, if_cases}
use open_vbus.Gui.Model.{Model, Surroundings}
use open_vbus.Gui.Model.Records.{any_recording}
use open_vbus.Gui.Model.Projects.{Json}
use open_vbus.Gui.Panels.{Widget, Screen}
use open_vbus.Gui.Panels.Idle.{idle, if_same, not_taken, and_true, or_false}
use open_vbus.Gui.Panels.Buses.Idle.{synced, bus_list_idle}
use open_vbus.Gui.Panels.Inspector.{Choices, inspector}
use open_vbus.Gui.Panels.Inspector.Idle.{inspector_idle}
use open_vbus.Gui.Panels.Rules.{filters, log_panel}
use open_vbus.Gui.Panels.Rules.Idle.{filters_idle}
use open_vbus.Gui.Window.{
  Ui, menu_item, has_path, shortcuts, item_new, item_open, items_save, item_bus, item_exit,
  file_menu, view_menu, menu_bar, inspected, panels, demo_window, open_dialog, save_dialog, cancel,
  open_modal, save_modal, draw_dockspace,
}

module _ {S J : Type 0} (gui : Surroundings S) (json : Json J) (opened : Widget → Bool)
    (float_text : ℕ → Text) where
  abbrev screen : Screen
  screen = idle opened float_text

  file_menu_idle : (u : Ui S) → file_menu gui json screen u ≡ u
  unfolding file_menu item_exit item_bus items_save item_open item_new
  file_menu_idle u =
      if_cases (λ v. v ≡ u) (opened (menu_item (codes "File"))) _ u (λ _. inner) (λ _. refl)
    where
      inner :
          item_exit gui json screen (item_bus gui json screen (items_save gui json screen u)) ≡ u
      inner =
          ap (λ v. item_exit gui json screen (item_bus gui json screen v))
            (not_taken (has_path u.model.project_path) _ u)
          ∙ ap (λ b. record u { request_exit = b }) (or_false u.request_exit)

  menu_bar_idle : (u : Ui S) → menu_bar gui json screen u ≡ u
  unfolding menu_bar view_menu
  menu_bar_idle u =
      if_cases (λ v. v ≡ u) (opened (menu_item (codes "menu bar"))) _ u
        (λ _.
          ap (view_menu gui json screen) (file_menu_idle u)
          ∙ ap (λ b. record u { show_demo = b })
              (if_same (opened (menu_item (codes "View"))) u.show_demo))
        (λ _. refl)

  panels_idle :
      (u : Ui S)
      → panels gui json screen u ≡ record u { model = synced gui opened float_text u.model }
  unfolding panels inspected log_panel
  panels_idle u =
      ap (λ m. shown (inspector gui screen u.choices m))
        (bus_list_idle gui opened float_text u.model)
      ∙ ap shown (inspector_idle gui opened float_text u.choices (now u.model))
      ∙ ap (λ m. record u { model = log_panel screen m })
          (filters_idle opened float_text (now u.model))
    where
      now : Model S → Model S
      now m = synced gui opened float_text m

      shown : Choices × Model S → Ui S
      shown r =
          let v = inspected gui json screen r u in
          record v { model = log_panel screen (filters screen v.model) }

  demo_window_idle : (u : Ui S) → demo_window gui json screen u ≡ u
  unfolding demo_window
  demo_window_idle u = ap (λ b. record u { show_demo = b }) (and_true u.show_demo)

  open_modal_idle : (u : Ui S) → open_modal gui json screen u ≡ u
  unfolding open_modal cancel
  open_modal_idle u = if_same _ u

  save_modal_idle : (u : Ui S) → save_modal gui json screen u ≡ u
  unfolding save_modal cancel
  save_modal_idle u = if_same _ u

  open_dialog_idle : (u : Ui S) → u.s_do_open ≡ false → open_dialog gui json screen u ≡ u
  unfolding open_dialog
  open_dialog_idle u e = if_cases (λ v. v ≡ u) u.s_do_open _ u (λ t. cc) (λ _. refl)

  save_dialog_idle : (u : Ui S) → u.s_do_save ≡ false → save_dialog gui json screen u ≡ u
  unfolding save_dialog
  save_dialog_idle u e = if_cases (λ v. v ≡ u) u.s_do_save _ u (λ t. cc) (λ _. refl)

  abbrev dialogs : Ui S → Ui S
  dialogs u = save_modal gui json screen (
      save_dialog gui json screen
        (open_modal gui json screen (open_dialog gui json screen (demo_window gui json screen u))))

  dialogs_idle : (u : Ui S) → u.s_do_open ≡ false → u.s_do_save ≡ false → dialogs u ≡ u
  dialogs_idle u no_open no_save =
      ap (λ v. last (open_modal gui json screen (open_dialog gui json screen v)))
        (demo_window_idle u)
      ∙ ap (λ v. last (open_modal gui json screen v)) (open_dialog_idle u no_open)
      ∙ ap last (open_modal_idle u)
      ∙ ap (save_modal gui json screen) (save_dialog_idle u no_save)
      ∙ save_modal_idle u
    where
      last : Ui S → Ui S
      last v = save_modal gui json screen (save_dialog gui json screen v)

  -- A frame in which nothing is clicked or edited changes nothing, whatever headers, menus and dialogs
  -- are open, except that the flag of the recordings is cleared when no bus records; no dialog must
  -- be about to open.
  pub draw_idle :
      (u : Ui S)
      → u.s_do_open ≡ false
      → u.s_do_save ≡ false
      → draw_dockspace gui json (idle opened float_text) u ≡ record u {
        model = record u.model {
          global_recording = u.model.global_recording && any_recording gui u.model.buses;
        };
      }
  unfolding draw_dockspace shortcuts
  draw_idle u no_open no_save =
      ap (λ v. dialogs (panels gui json screen v)) (menu_bar_idle u)
      ∙ ap dialogs (panels_idle u)
      ∙ dialogs_idle (record u { model = synced gui opened float_text u.model }) no_open no_save
