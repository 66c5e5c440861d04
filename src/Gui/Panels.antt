-- ===== src/Gui/Panels.antt =====
-- What the panels of vbus-gui/src/panels and the window of imgui_layer.cpp share. ImGui is asked for
-- each widget, by its window and label, and answers what the user did with it in this frame: the
-- answers are a parameter. What is only drawn is left out.
pub mod Buses
pub mod Rules
pub mod Inspector
pub mod Packets
pub mod Vlans
mod Tests
pub mod Kept
pub mod Idle
use open_vbus.Base.{
  length, ℕ, zero, suc, ◌+◌, ◌<◌, ◌≡◌, Bool, ◌&&◌, Option, none, some, List, [], ◌∷◌, Text, codes,
  ◌==◌, if◌then◌else◌,
}
use open_vbus.Gui.Model.{Bus, Model}

-- A widget's window, the number that `PushID` has put on its name, and its label.
pub data Widget : Type 0 where
  plain : Text → Text → Widget
  numbered : Text → ℕ → Text → Widget

-- The answers of one frame: `clicked` is that of buttons, selectable rows, menu items and shortcuts,
-- `opened` that of headers, menus and popups. A text, a combo box and a number give the new value
-- where the user has edited them; a text is asked with the size of its buffer, a combo box with the
-- number of its entries. `float_text` is `std::to_string` of a float.
pub record Screen : Type 0 where
  pub clicked : Widget → Bool
  pub opened : Widget → Bool
  pub checkbox : Widget → Bool → Bool
  pub combo : Widget → ℕ → ℕ → Option ℕ
  pub input_text : Widget → ℕ → Text → Option Text
  pub input_number : Widget → ℕ → ℕ
  pub input_float : Widget → ℕ → ℕ
  pub float_text : ℕ → Text

-- What ImGui promises of its answers: a text ends within its buffer, and a combo box has the entry.
pub record IsLawful (screen : Screen) : Type 0 where
  pub text_fits :
      (w : Widget) (size : ℕ) (t t' : Text)
      → screen.input_text w size t ≡ some t'
      → length t' < size
  pub combo_within : (w : Widget) (n i j : ℕ) → screen.combo w n i ≡ some j → j < n

-- A value after its widget.
abbrev pub edited {ℓ} : {A : Type ℓ} → Option A → A → A
edited none a = a
edited (some b) a = b

-- A button between `BeginDisabled(!enabled)` and `EndDisabled`.
abbrev pub pressed : Screen → Bool → Widget → Bool
pressed screen enabled w = enabled && screen.clicked w

-- A change of one bus and of the rest of the model, and two of them in a row.
abbrev pub Step : Type 0 → Type 0
Step S = Bus → Model S → Bus × Model S

unfoldable pub then_step : {S : Type 0} → Step S → Step S → Step S
then_step f g b m = let (b', m') = f b m in g b' m'

-- a step that is taken if something is so
unfoldable pub step_if : {S : Type 0} → Bool → Step S → Step S
step_if c f b m = let done = f b m in if c then done else (b, m)

-- A change of the bus alone.
unfoldable pub edit_bus : {S : Type 0} → (Bus → Bus) → Step S
edit_bus f b m = (f b, m)

-- The bus that `getBus` finds, changed in place; none, if there is none.
unfoldable pub at_id : {S : Type 0} → Step S → ℕ → List Bus → Model S → List Bus × Model S
at_id f id [] m = ([], m)
at_id f id (b ∷ bs) m =
    let (b', m') = f b m in
    let (bs', m'') = at_id f id bs m in if b.id == id then (b' ∷ bs, m') else (b ∷ bs', m'')

-- `auto *bus = ctx.m.getBus(ctx.s.selected_bus);` and what a panel does with it
unfoldable pub on_selected : {S : Type 0} → Step S → Model S → Model S
unfolding at_id
on_selected f m = let (bs, m') = at_id f m.selected_bus m.buses m in record m' { buses = bs }
