-- ===== src/Gui/Panels/Rules.antt =====
-- `panels::Filters` of panel_filters.cpp, and `panels::Log` of panel_log.cpp.
pub mod Kept
pub mod Fresh
pub mod Tokens
pub mod Idle
use open_vbus.Base.{
  ℕ, zero, suc, ◌+◌, Option, none, some, List, [], ◌∷◌, ◌++◌, Text, codes, ◌==◌, if◌then◌else◌,
}
use open_vbus.Gui.Filters.{RuleType, include, exclude, FilterRule}
use open_vbus.Gui.Model.{Model, copied}
use open_vbus.Gui.Panels.{Widget, plain, numbered, Screen, edited, edit_bus, on_selected}

abbrev on_filters : Text → Widget
on_filters label = plain (codes "Filters") label

abbrev on_rule : ℕ → Text → Widget
on_rule i label = numbered (codes "Filters") i label

unfoldable pub type_index : RuleType → ℕ
type_index include = 0
type_index exclude = 1

-- `t ? Exclude : Include`
unfoldable pub rule_type : Option ℕ → RuleType → RuleType
rule_type none type = type
rule_type (some i) type = if i == 0 then include else exclude

-- `erase(begin() + i)`
unfoldable pub erase_at {ℓ} : {A : Type ℓ} → ℕ → List A → List A
erase_at i [] = []
erase_at zero (x ∷ xs) = xs
erase_at (suc i) (x ∷ xs) = x ∷ erase_at i xs

unfoldable pub erase_rule : Option ℕ → List FilterRule → List FilterRule
unfolding erase_at
erase_rule none rs = rs
erase_rule (some i) rs = erase_at i rs

module _ (screen : Screen) where
  unfoldable pub add_rules : List FilterRule → List FilterRule
  add_rules rs =
      let rs' =
        if screen.clicked (on_filters (codes "+ Include"))
        then rs ++ record { type = include; expr = codes "vlan:*" } ∷ []
        else rs in
      if screen.clicked (on_filters (codes "+ Exclude"))
      then rs' ++ record { type = exclude; expr = codes "size:*" } ∷ []
      else rs'

  -- The rule at `i`: the widget shows the first 127 bytes, and an edit puts what it holds.
  unfoldable pub edit_rule : ℕ → FilterRule → FilterRule
  unfolding rule_type type_index copied
  edit_rule i r = record {
    type = rule_type (screen.combo (on_rule i (codes "Type")) 2 (type_index r.type)) r.type;
    expr = edited (screen.input_text (on_rule i (codes "Expr")) 128 (copied 127 r.expr)) r.expr;
  }

  unfoldable pub edit_rules : ℕ → List FilterRule → List FilterRule
  unfolding edit_rule
  edit_rules i [] = []
  edit_rules i (r ∷ rs) = edit_rule i r ∷ edit_rules (i + 1) rs

  -- `del_idx`: the last rule whose `Delete` is clicked
  unfoldable pub deleted_rule : ℕ → List FilterRule → Option ℕ → Option ℕ
  deleted_rule i [] del_idx = del_idx
  deleted_rule i (r ∷ rs) del_idx =
      deleted_rule (i + 1) rs
        (if screen.clicked (on_rule i (codes "Delete")) then some i else del_idx)

  unfoldable pub filter_rules : List FilterRule → List FilterRule
  unfolding add_rules edit_rules deleted_rule erase_rule
  filter_rules rs =
      let rs' = add_rules rs in erase_rule (deleted_rule 0 rs' none) (edit_rules 0 rs')

  unfoldable pub filters : {S : Type 0} → Model S → Model S
  unfolding filter_rules edit_bus on_selected
  filters {S} m = on_selected (edit_bus λ b. record b { filters = filter_rules b.filters }) m

  unfoldable pub log_panel : {S : Type 0} → Model S → Model S
  log_panel m = record m {
    log_lines = if screen.clicked (plain (codes "Log") (codes "Clear")) then [] else m.log_lines;
  }
