-- ===== src/Gui/Panels/Inspector.antt =====
-- `panels::Inspector` of panel_inspector.cpp: the settings of the selected bus.
pub mod Kept
pub mod Idle
use open_vbus.Base.{
  ℕ, Bool, true, false, not, ◌&&◌, Option, none, some, ◌∷◌, ◌++◌, Text, codes, to_string, ◌==◌,
  if◌then◌else◌,
}
use open_vbus.Gui.Model.{Bus, InterfaceDesc, Model, Surroundings, copied, arrow, find_bus}
use open_vbus.Gui.Model.Records.{start_record, stop_record, start_forward, stop_forward}
use open_vbus.Gui.Model.Capture.{attach_iface, detach_iface}
use open_vbus.Gui.Model.Replays.{replay_file}
use open_vbus.Gui.Panels.{
  Widget, plain, Screen, edited, Step, then_step, step_if, edit_bus, on_selected,
}

abbrev on_bus : Text → Widget
on_bus label = plain (codes "Inspector") label

-- the static variables: the driver, the mode and the scale that are chosen
pub record Choices : Type 0 where
  pub s_sel : ℕ
  pub s_mode : ℕ
  pub s_scale : ℕ

unfoldable pub host_and_port : Text → ℕ → Text
unfolding to_string
host_and_port host port = host ++ (58 ∷ to_string port)

unfoldable pub udp_desc : Bus → InterfaceDesc
unfolding host_and_port
udp_desc b = record {
  name = codes "UDP " ++ host_and_port b.bind_host b.bind_port;
  driver = codes "udp";
}

unfoldable pub tcp_desc : Bus → InterfaceDesc
unfolding host_and_port
tcp_desc b = record {
  name =
      codes "TCP "
      ++ (host_and_port b.bind_host b.bind_port
          ++ (arrow ++ host_and_port b.target_host b.target_port));
  driver = codes "tcp";
}

abbrev pub mock_desc : InterfaceDesc
mock_desc = record { name = codes "Mock"; driver = codes "mock" }

unfoldable pub is_attached : Option InterfaceDesc → Bool
is_attached none = false
is_attached (some d) = true

module _ (screen : Screen) where
  abbrev text_in : Text → ℕ → Text → Text
  text_in label size t = edited (screen.input_text (on_bus label) size t) t

  -- The name is shown by its first 127 bytes.
  unfoldable pub edit_identity : Bus → Bus
  unfolding copied
  edit_identity b = record b {
    name = edited (screen.input_text (on_bus (codes "Name")) 128 (copied 127 b.name)) b.name;
    enabled = screen.checkbox (on_bus (codes "Enabled")) b.enabled;
  }

  -- whether the driver is being chosen, and the choices after the widgets
  unfoldable pub chooses : Bus → Bool
  unfolding is_attached
  chooses b = screen.opened (on_bus (codes "Capture")) && not (is_attached b.iface)

  unfoldable pub choose : Bus → Choices → Choices
  unfolding chooses
  choose b c =
      let mode = edited (screen.combo (on_bus (codes "Mode##replay")) 3 c.s_mode) c.s_mode in
      let replaying = screen.opened (on_bus (codes "Replay")) in
      record {
        s_sel =
            if chooses b
            then edited (screen.combo (on_bus (codes "Type")) 3 c.s_sel) c.s_sel
            else c.s_sel;
        s_mode = if replaying then mode else c.s_mode;
        s_scale =
            if replaying && mode == 2
            then screen.input_float (on_bus (codes "Scale##replay")) c.s_scale
            else c.s_scale;
      }

  unfoldable pub edit_udp : Bus → Bus
  edit_udp b = record b {
    bind_host = text_in (codes "Bind host##udp") 64 b.bind_host;
    bind_port = screen.input_number (on_bus (codes "Bind port##udp")) b.bind_port;
  }

  unfoldable pub edit_tcp : Bus → Bus
  edit_tcp b = record b {
    bind_host = text_in (codes "Bind host##tcp") 64 b.bind_host;
    bind_port = screen.input_number (on_bus (codes "Bind port##tcp")) b.bind_port;
    target_host = text_in (codes "Target host") 64 b.target_host;
    target_port = screen.input_number (on_bus (codes "Target port")) b.target_port;
  }

  unfoldable pub edit_record_path : Bus → Bus
  edit_record_path b = record b {
    record_path = text_in (codes "Output file##rec") 256 b.record_path;
  }

  unfoldable pub edit_destination : Bus → Bus
  edit_destination b = record b {
    forward_host = text_in (codes "Dest host##fwd") 64 b.forward_host;
    forward_port = screen.input_number (on_bus (codes "Dest port##fwd")) b.forward_port;
  }

  unfoldable pub edit_replay_path : Bus → Bus
  edit_replay_path b = record b {
    replay_path = text_in (codes "Capture file##replay") 256 b.replay_path;
  }

  -- The choices change only where a bus is selected.
  unfoldable pub choose_for : Option Bus → Choices → Choices
  unfolding choose
  choose_for none c = c
  choose_for (some b) c = choose b c

  -- the mode of the command
  unfoldable pub mode_text : Choices → Text
  mode_text c =
      if c.s_mode == 0
      then codes "exact"
      else if c.s_mode == 1
      then codes "burst"
      else codes "scale:" ++ screen.float_text c.s_scale

module _ {S : Type 0} (gui : Surroundings S) (screen : Screen) where
  attach_button : Text → (Bus → InterfaceDesc) → Step S
  unfolding attach_iface
  attach_button label desc b m =
      step_if (screen.clicked (on_bus label)) (attach_iface gui (desc b)) b m

  attaching : ℕ → Step S
  unfolding then_step edit_bus edit_udp edit_tcp attach_button udp_desc tcp_desc
  attaching sel =
      if sel == 0
      then then_step (edit_bus (edit_udp screen)) (attach_button (codes "Attach UDP") udp_desc)
      else if sel == 1
      then then_step (edit_bus (edit_tcp screen))
          (attach_button (codes "Attach TCP proxy") tcp_desc)
      else attach_button (codes "Attach mock") (λ b. mock_desc)

  -- `choices` are those after the combo boxes.
  unfoldable pub capturing : Choices → Step S
  unfolding attaching is_attached detach_iface step_if
  capturing c b m =
      if is_attached b.iface
      then step_if (screen.clicked (on_bus (codes "Detach"))) (detach_iface gui) b m
      else attaching c.s_sel b m

  record_button : Step S
  unfolding start_record stop_record step_if
  record_button b m =
      if not b.recording
      then step_if (screen.clicked (on_bus (codes "Start recording"))) (start_record gui) b m
      else step_if (screen.clicked (on_bus (codes "Stop recording"))) (stop_record gui) b m

  unfoldable pub recording_part : Step S
  unfolding then_step edit_bus edit_record_path record_button
  recording_part = then_step (edit_bus (edit_record_path screen)) record_button

  forward_button : Step S
  unfolding start_forward stop_forward step_if
  forward_button b m =
      if not b.forwarding
      then step_if (screen.clicked (on_bus (codes "Start forwarding"))) (start_forward gui) b m
      else step_if (screen.clicked (on_bus (codes "Stop forwarding"))) (stop_forward gui) b m

  unfoldable pub forward_part : Step S
  unfolding then_step edit_bus edit_destination forward_button
  forward_part = then_step (edit_bus (edit_destination screen)) forward_button

  unfoldable pub replay_part : Choices → Step S
  unfolding then_step edit_bus edit_replay_path mode_text replay_file step_if
  replay_part c = then_step (edit_bus (edit_replay_path screen)) (
      step_if (screen.clicked (on_bus (codes "Start Replay")))
        (replay_file gui (mode_text screen c)))

  -- the panel for a bus, with the choices after its widgets
  unfoldable pub inspect : Choices → Step S
  unfolding then_step edit_bus edit_identity step_if capturing recording_part forward_part
      replay_part
  inspect c = then_step (edit_bus (edit_identity screen)) (
      then_step (step_if (screen.opened (on_bus (codes "Capture"))) (capturing c)) (
        then_step (step_if (screen.opened (on_bus (codes "Recording"))) recording_part) (
          then_step (step_if (screen.opened (on_bus (codes "Forward (UDP out)"))) forward_part)
            (step_if (screen.opened (on_bus (codes "Replay"))) (replay_part c)))))

  unfoldable pub inspector : Choices → Model S → Choices × Model S
  unfolding inspect on_selected find_bus choose_for
  inspector c m =
      let c' = choose_for screen (find_bus m.selected_bus m.buses) c in
      (c', on_selected (inspect c') m)
