-- ===== src/Gui/Panels/Inspector/Kept.antt =====
-- The inspector keeps the invariant of the model.
use open_vbus.Base.{
  ap, ℕ, ◌≤◌, ◌<◌, ◌≡◌, ◌==◌, not, Option, none, some, refl, Text, codes, length, if_cases, arith,
}
use open_vbus.Gui.Model.{find_bus, Bus, InterfaceDesc, Model, Surroundings}
use open_vbus.Gui.Model.Invariant.{IsFit, IsSound, Keeps, Stays}
use open_vbus.Gui.Model.Records.Preserved.{
  start_record-Keeps, stop_record-Keeps, start_forward-Keeps, stop_forward-Keeps,
}
use open_vbus.Gui.Model.Capture.Preserved.{attach_iface-Keeps, detach_iface-Keeps}
use open_vbus.Gui.Model.Replays.Preserved.{replay_file-Keeps}
use open_vbus.Gui.Panels.{Screen, IsLawful, edited, edit_bus}
use open_vbus.Gui.Panels.Kept.{then_step-Keeps, step_if-Keeps, edit_bus-Keeps, on_selected-IsSound}
use open_vbus.Gui.Panels.Inspector.{
  choose_for, mock_desc, tcp_desc, udp_desc, Choices, on_bus, edit_identity, edit_udp, edit_tcp,
  edit_record_path, edit_destination, edit_replay_path, attach_button, attaching, capturing,
  record_button, recording_part, forward_button, forward_part, replay_part, inspect, inspector,
  is_attached,
}

-- What is true of both texts is true after the edit.
pub edited_cases {ℓ κ} :
    {A : Type ℓ} (P : A → Type κ) (o : Option A) (a : A)
    → P a
    → ((b : A) → o ≡ some b → P b)
    → P (edited o a)
edited_cases P none a p q = p
edited_cases P (some b) a p q = q b refl

fits_255 : (t : Text) → length t < 256 → length t ≤ 255
fits_255 t h = omega arith

-- An edit that leaves the number, the packets and the record path alone.
edit-Keeps :
    {S : Type 0} (f : Bus → Bus)
    → ((b : Bus) → (f b).id ≡ b.id)
    → ((b : Bus) → (f b).ring ≡ b.ring)
    → ((b : Bus) → (f b).record_path ≡ b.record_path)
    → Keeps {S = S} (edit_bus f)
edit-Keeps f ids rings paths = edit_bus-Keeps f ids λ b fit. record {
  ring = omega (arith, fit.ring, ap length (rings b));
  path = omega (arith, fit.path, ap length (paths b));
}

module _ {S : Type 0} (gui : Surroundings S) (screen : Screen) (lawful : IsLawful screen) where
  attach_button-Keeps :
      (label : Text) (desc : Bus → InterfaceDesc) → Keeps (attach_button gui screen label desc)
  unfolding attach_button
  attach_button-Keeps label desc bs sel P Q b m p q fit h =
      step_if-Keeps _ (attach_iface-Keeps gui (desc b)) _ bs sel P Q b m p q fit h

  attaching-Keeps : (sel : ℕ) → Keeps (attaching gui screen sel)
  unfolding attaching edit_udp edit_tcp
  attaching-Keeps sel =
      if_cases Keeps (sel == 0) _ _
        (λ _.
          then_step-Keeps _ (edit-Keeps _ (λ b. refl) (λ b. refl) (λ b. refl)) _
            (attach_button-Keeps (codes "Attach UDP") udp_desc))
        (λ _.
          if_cases Keeps (sel == 1) _ _
            (λ _.
              then_step-Keeps _ (edit-Keeps _ (λ b. refl) (λ b. refl) (λ b. refl)) _
                (attach_button-Keeps (codes "Attach TCP proxy") tcp_desc))
            (λ _. attach_button-Keeps (codes "Attach mock") (λ b. mock_desc)))

  capturing-Keeps : (c : Choices) → Keeps (capturing gui screen c)
  unfolding capturing
  capturing-Keeps c bs sel P Q b m p q fit h =
      if_cases (Stays bs sel P Q b) (is_attached b.iface) _ _
        (λ _. step_if-Keeps _ (detach_iface-Keeps gui) _ bs sel P Q b m p q fit h)
        (λ _. attaching-Keeps c.s_sel bs sel P Q b m p q fit h)

  record_button-Keeps : Keeps (record_button gui screen)
  unfolding record_button
  record_button-Keeps bs sel P Q b m p q fit h =
      if_cases (Stays bs sel P Q b) (not b.recording) _ _
        (λ _. step_if-Keeps _ (start_record-Keeps gui) _ bs sel P Q b m p q fit h)
        (λ _. step_if-Keeps _ (stop_record-Keeps gui) _ bs sel P Q b m p q fit h)

  -- ImGui keeps the path within its array.
  edit_record_path-IsFit : (b : Bus) → IsFit b → IsFit (edit_record_path screen b)
  unfolding edit_record_path
  edit_record_path-IsFit b fit = record {
    ring = fit.ring;
    path =
        edited_cases (λ t. length t ≤ 255)
          (screen.input_text (on_bus (codes "Output file##rec")) 256 b.record_path) b.record_path
          fit.path
          (λ t e.
            fits_255 t
              (lawful.text_fits (on_bus (codes "Output file##rec")) 256 b.record_path t e));
  }

  recording_part-Keeps : Keeps (recording_part gui screen)
  unfolding recording_part edit_record_path
  recording_part-Keeps =
      then_step-Keeps _ (edit_bus-Keeps _ (λ b. refl) edit_record_path-IsFit) _ record_button-Keeps

  forward_button-Keeps : Keeps (forward_button gui screen)
  unfolding forward_button
  forward_button-Keeps bs sel P Q b m p q fit h =
      if_cases (Stays bs sel P Q b) (not b.forwarding) _ _
        (λ _. step_if-Keeps _ (start_forward-Keeps gui) _ bs sel P Q b m p q fit h)
        (λ _. step_if-Keeps _ (stop_forward-Keeps gui) _ bs sel P Q b m p q fit h)

  forward_part-Keeps : Keeps (forward_part gui screen)
  unfolding forward_part edit_destination
  forward_part-Keeps =
      then_step-Keeps _ (edit-Keeps _ (λ b. refl) (λ b. refl) (λ b. refl)) _ forward_button-Keeps

  replay_part-Keeps : (c : Choices) → Keeps (replay_part gui screen c)
  unfolding replay_part edit_replay_path
  replay_part-Keeps c =
      then_step-Keeps _ (edit-Keeps _ (λ b. refl) (λ b. refl) (λ b. refl)) _
        (step_if-Keeps _ (replay_file-Keeps gui _) _)

  pub inspect-Keeps : (c : Choices) → Keeps (inspect gui screen c)
  unfolding inspect edit_identity
  inspect-Keeps c =
      then_step-Keeps _ (edit-Keeps (edit_identity screen) (λ b. refl) (λ b. refl) (λ b. refl)) _ (
        then_step-Keeps _
          (step_if-Keeps _ (capturing-Keeps c) (screen.opened (on_bus (codes "Capture")))) _
          (then_step-Keeps _
            (step_if-Keeps _ recording_part-Keeps (screen.opened (on_bus (codes "Recording")))) _
            (then_step-Keeps _
              (step_if-Keeps _ forward_part-Keeps
                (screen.opened (on_bus (codes "Forward (UDP out)"))))
              _ (step_if-Keeps _ (replay_part-Keeps c) (screen.opened (on_bus (codes "Replay")))))))

  pub inspector-IsSound :
      (c : Choices) (m : Model S) → IsSound m → IsSound (inspector gui screen c m).1
  unfolding inspector
  inspector-IsSound c m s =
      on_selected-IsSound _ (inspect-Keeps (choose_for screen (find_bus m.selected_bus m.buses) c))
        m s
