-- ===== src/Gui/Panels/Buses/Idle.antt =====
-- The panel of the buses, for a user who does nothing.
use open_vbus.Base.{
  codes, not, text_eq, ℕ, ◌≡◌, ◌∙◌, refl, ap, Bool, true, false, ◌&&◌, List, [], ◌∷◌, Text,
  if_cases, if◌then◌else◌,
}
use open_vbus.Gui.Model.{Bus, Model, Surroundings}
use open_vbus.Gui.Model.Records.{any_recording}
use open_vbus.Gui.Panels.{Widget, Screen}
use open_vbus.Gui.Panels.Idle.{idle, if_same, not_taken, and_true}
use open_vbus.Gui.Panels.Buses.{
  rows, resync_recording, record_toolbar, edit_prefix, edit_mode, edit_scale, replay_toolbar,
  acknowledge_replay, add_bus, end_rows, bus_rows, bus_list,
}

module _ {S : Type 0} (gui : Surroundings S) (opened : Widget → Bool) (float_text : ℕ → Text) where
  abbrev screen : Screen
  screen = idle opened float_text

  rows_idle : (bs : List Bus) (sel del : ℕ) → rows screen bs sel del ≡ (sel, del)
  unfolding rows
  rows_idle [] sel del = refl
  rows_idle (b ∷ bs) sel del = rows_idle bs sel del

  -- the model with the flag of the recordings brought up to date
  abbrev pub synced : Model S → Model S
  synced m = record m { global_recording = m.global_recording && any_recording gui m.buses }

  resync_idle : (m : Model S) → resync_recording gui screen m ≡ synced m
  unfolding resync_recording
  resync_idle m = by_flag m.global_recording
    where
      by_flag :
          (g : Bool)
          → (if g
              then record m { global_recording = any_recording gui m.buses }
              else record m { global_recording = g })
            ≡ record m { global_recording = g && any_recording gui m.buses }
      by_flag true = refl
      by_flag false = refl

  record_toolbar_idle : (m : Model S) → record_toolbar gui screen m ≡ m
  unfolding record_toolbar
  record_toolbar_idle m =
      if_cases (λ v. v ≡ m) (not m.global_recording) _ _ (λ _. not_taken _ _ m) (λ _. refl)

  edits_idle :
      (m : Model S) → edit_scale gui screen (edit_mode gui screen (edit_prefix gui screen m)) ≡ m
  unfolding edit_scale edit_mode edit_prefix
  edits_idle m =
      ap (λ x. record m { replay_all_scale = x })
        (if_same (text_eq m.replay_all_mode (codes "scale")) _)

  replay_toolbar_idle :
      (m : Model S) → acknowledge_replay gui screen (replay_toolbar gui screen m) ≡ m
  unfolding acknowledge_replay replay_toolbar
  replay_toolbar_idle m =
      ap (acknowledge_replay gui screen) (not_taken _ _ m)
      ∙ ap (λ b. record m { global_replaying = b }) (and_true m.global_replaying)

  bus_rows_idle : (m : Model S) → bus_rows gui screen (add_bus gui screen m) ≡ m
  unfolding bus_rows add_bus end_rows
  bus_rows_idle m = ap (λ r. end_rows gui screen r m) (rows_idle m.buses m.selected_bus 0)

  pub bus_list_idle : (m : Model S) → bus_list gui screen m ≡ synced m
  unfolding bus_list
  bus_list_idle m =
      let x = resync_recording gui screen m in
      ap (λ y. drawn (toolbars (edits y))) (record_toolbar_idle x)
      ∙ ap (λ y. drawn (toolbars y)) (edits_idle x)
      ∙ ap drawn (replay_toolbar_idle x)
      ∙ bus_rows_idle x
      ∙ resync_idle m
    where
      drawn : Model S → Model S
      drawn y = bus_rows gui screen (add_bus gui screen y)

      toolbars : Model S → Model S
      toolbars y = acknowledge_replay gui screen (replay_toolbar gui screen y)

      edits : Model S → Model S
      edits y = edit_scale gui screen (edit_mode gui screen (edit_prefix gui screen y))
