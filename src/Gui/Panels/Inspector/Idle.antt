-- ===== src/Gui/Panels/Inspector/Idle.antt =====
-- The inspector of a user who does nothing.
use open_vbus.Base.{
  codes, some, not, Option, ℕ, ◌≡◌, ◌==◌, refl, ap, Bool, ◌&&◌, none, List, Text, if_cases,
}
use open_vbus.Gui.Model.{Bus, Model, Surroundings, find_bus}
use open_vbus.Gui.Panels.{Widget, Screen, then_step, step_if, edit_bus, on_selected, Step}
use open_vbus.Gui.Panels.Idle.{idle, if_same, at_id_idle, Idle, then_step-Idle, step_if-Idle}
use open_vbus.Gui.Panels.Inspector.{
  Choices, on_bus, chooses, is_attached, choose, choose_for, edit_identity, edit_udp, edit_tcp,
  edit_record_path, edit_destination, edit_replay_path, attach_button, attaching, capturing,
  record_button, recording_part, forward_button, forward_part, replay_part, inspect, inspector,
}

module _ {S : Type 0} (gui : Surroundings S) (opened : Widget → Bool) (float_text : ℕ → Text) where
  abbrev screen : Screen
  screen = idle opened float_text

  choose_idle : (o : Option Bus) (c : Choices) → choose_for screen o c ≡ c
  unfolding choose_for choose
  choose_idle none c = refl
  choose_idle (some b) c = λ i. record {
    s_sel = if_same (chooses screen b) c.s_sel i;
    s_mode = if_same (opened (on_bus (codes "Replay"))) c.s_mode i;
    s_scale = if_same (opened (on_bus (codes "Replay")) && c.s_mode == 2) c.s_scale i;
  }

  attaching-Idle : (sel : ℕ) → Idle (attaching gui screen sel)
  unfolding attaching attach_button edit_bus edit_udp edit_tcp then_step step_if
  attaching-Idle sel b m =
      if_cases (λ (f : Step S). f b m ≡ (b, m)) (sel == 0) _ _ (λ _. refl)
        (λ _. if_cases (λ (f : Step S). f b m ≡ (b, m)) (sel == 1) _ _ (λ _. refl) (λ _. refl))

  capturing-Idle : (c : Choices) → Idle (capturing gui screen c)
  unfolding capturing step_if
  capturing-Idle c b m =
      if_cases (λ v. v ≡ (b, m)) (is_attached b.iface) _ _ (λ _. refl)
        (λ _. attaching-Idle c.s_sel b m)

  recording-Idle : Idle (recording_part gui screen)
  unfolding recording_part then_step edit_bus edit_record_path record_button step_if
  recording-Idle b m = if_cases (λ v. v ≡ (b, m)) (not b.recording) _ _ (λ _. refl) (λ _. refl)

  forward-Idle : Idle (forward_part gui screen)
  unfolding forward_part then_step edit_bus edit_destination forward_button step_if
  forward-Idle b m = if_cases (λ v. v ≡ (b, m)) (not b.forwarding) _ _ (λ _. refl) (λ _. refl)

  replay-Idle : (c : Choices) → Idle (replay_part gui screen c)
  unfolding replay_part then_step edit_bus edit_replay_path step_if
  replay-Idle c b m = refl

  inspect-Idle : (c : Choices) → Idle (inspect gui screen c)
  unfolding inspect edit_bus edit_identity
  inspect-Idle c =
      then_step-Idle _ _ (λ b m. refl)
        (then_step-Idle _ _ (step_if-Idle (opened (on_bus (codes "Capture"))) _ (capturing-Idle c))
          (then_step-Idle _ _ (step_if-Idle (opened (on_bus (codes "Recording"))) _ recording-Idle)
            (then_step-Idle _ _
              (step_if-Idle (opened (on_bus (codes "Forward (UDP out)"))) _ forward-Idle)
              (step_if-Idle (opened (on_bus (codes "Replay"))) _ (replay-Idle c)))))

  pub inspector_idle : (c : Choices) (m : Model S) → inspector gui screen c m ≡ (c, m)
  unfolding inspector on_selected
  inspector_idle c m = λ i. (
    choose_idle (find_bus m.selected_bus m.buses) c i,
    ap (λ (r : List Bus × Model S). record r.1 { buses = r.0 })
        (at_id_idle (inspect gui screen (choose_for screen (find_bus m.selected_bus m.buses) c))
          m.selected_bus m.buses m
          (λ b. inspect-Idle (choose_for screen (find_bus m.selected_bus m.buses) c) b m))
        i,
  )
