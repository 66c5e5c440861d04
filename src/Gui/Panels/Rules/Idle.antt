-- ===== src/Gui/Panels/Rules/Idle.antt =====
-- The panel of the rules, for a user who does nothing.
use open_vbus.Base.{◌+◌, ℕ, ◌≡◌, refl, ap, Bool, none, List, [], ◌∷◌, Text}
use open_vbus.Gui.Filters.{FilterRule}
use open_vbus.Gui.Model.{Bus, Model}
use open_vbus.Gui.Panels.{Widget, Screen, edit_bus, on_selected}
use open_vbus.Gui.Panels.Idle.{idle, at_id_idle}
use open_vbus.Gui.Panels.Rules.{
  add_rules, edit_rule, edit_rules, deleted_rule, erase_rule, filter_rules, filters,
}

module _ (opened : Widget → Bool) (float_text : ℕ → Text) where
  abbrev screen : Screen
  screen = idle opened float_text

  edit_rules_idle : (i : ℕ) (rs : List FilterRule) → edit_rules screen i rs ≡ rs
  unfolding edit_rules edit_rule
  edit_rules_idle i [] = refl
  edit_rules_idle i (r ∷ rs) = ap (◌∷◌ r) (edit_rules_idle (i + 1) rs)

  deleted_rule_idle : (i : ℕ) (rs : List FilterRule) → deleted_rule screen i rs none ≡ none
  unfolding deleted_rule
  deleted_rule_idle i [] = refl
  deleted_rule_idle i (r ∷ rs) = deleted_rule_idle (i + 1) rs

  filter_rules_idle : (rs : List FilterRule) → filter_rules screen rs ≡ rs
  unfolding filter_rules add_rules
  filter_rules_idle rs = rw (deleted_rule_idle 0 rs, erase_rule) (edit_rules_idle 0 rs)

  pub filters_idle : {S : Type 0} (m : Model S) → filters screen m ≡ m
  unfolding filters on_selected edit_bus
  filters_idle {S} m =
      ap (λ (r : List Bus × Model S). record r.1 { buses = r.0 })
        (at_id_idle (edit_bus λ b. record b { filters = filter_rules screen b.filters })
          m.selected_bus m.buses m
          (λ b. ap (λ rs. (record b { filters = rs }, m)) (filter_rules_idle b.filters)))
