-- ===== src/Gui/Panels/Rules/Kept.antt =====
-- The panels of the rules and of the log keep the invariant of the model.
use open_vbus.Base.{◌≤◌, refl, [], length, if_cases, arith}
use open_vbus.Gui.Model.{Model}
use open_vbus.Gui.Model.Invariant.{IsSound}
use open_vbus.Gui.Panels.{Screen, edit_bus}
use open_vbus.Gui.Panels.Kept.{edit_bus-Keeps, on_selected-IsSound}
use open_vbus.Gui.Panels.Rules.{filters, filter_rules, log_panel}

module _ {S : Type 0} (screen : Screen) where
  pub filters-IsSound : (m : Model S) → IsSound m → IsSound (filters screen m)
  unfolding filters
  filters-IsSound m s =
      on_selected-IsSound (edit_bus λ b. record b { filters = filter_rules screen b.filters })
        (edit_bus-Keeps _ (λ b. refl) (λ b fit. record { ring = fit.ring; path = fit.path })) m s

  pub log_panel-IsSound : (m : Model S) → IsSound m → IsSound (log_panel screen m)
  unfolding log_panel
  log_panel-IsSound m s = record {
    log = if_cases (λ ls. length ls ≤ 1024) _ [] m.log_lines (λ _. omega arith) (λ _. s.log);
    fits = s.fits;
    subs = s.subs;
    ifaces = s.ifaces;
    selected = s.selected;
  }
