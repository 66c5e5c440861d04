-- ===== src/Gui/Model/Replays.antt =====
-- `startReplayAll` and `replayFile`. A detached thread is the command that it will send.
pub mod Preserved
pub mod Streams
use open_vbus.Base.{
  Bool, true, not, ◌||◌, List, [], ◌∷◌, ◌++◌, Text, codes, to_string, text_eq, length, ◌==◌,
  if◌then◌else◌,
}
use open_vbus.Gui.Client.Commands.{send_cmd}
use open_vbus.Gui.Model.{Bus, Model, Surroundings, add_log, ask, arrow, quoted, for_buses}
use open_vbus.Gui.Model.Records.{start_forward}

-- the file that a bus replays: `replay_path`, or else `record_path`
unfoldable pub source_file : Bus → Text
unfolding text_eq
source_file b = if text_eq b.replay_path [] then b.record_path else b.replay_path

-- a bus with a file and a destination
unfoldable pub is_ready : Bus → Bool
unfolding source_file text_eq
is_ready b = not (text_eq (source_file b) [] || (text_eq b.forward_host [] || b.forward_port == 0))

unfoldable pub replay_command : Text → Text → Text → Text
replay_command name file mode = codes "replay " ++ (name ++ (32 ∷ (file ++ (32 ∷ mode))))

-- the commands of the streams
unfoldable pub commands_of : Text → List Bus → List Text
unfolding is_ready source_file replay_command
commands_of mode [] = []
commands_of mode (b ∷ bs) =
    let rest = commands_of mode bs in
    if is_ready b then replay_command b.name (source_file b) mode ∷ rest else rest

-- the end of a detached thread: the command that it sends leaves the list
unfoldable pub without_first : List Text → List Text
without_first [] = []
without_first (c ∷ cs) = cs

module _ {S : Type 0} (gui : Surroundings S) where
  pub daemon_mode : Model S → Text
  unfolding text_eq
  daemon_mode m =
      if text_eq m.replay_all_mode (codes "scale")
      then gui.scale_text m.replay_all_scale
      else m.replay_all_mode

  forward_if_ready : Bus → Model S → Bus × Model S
  unfolding is_ready start_forward
  forward_if_ready b m =
      let started = start_forward gui b m in
      if is_ready b then (if b.forwarding then (b, m) else started) else (b, m)

  launch : List Text → Model S → Model S
  unfolding add_log
  launch [] m = m
  launch (c ∷ cs) m =
      launch cs
        (add_log gui (codes "[replay-all] -> " ++ c) (record m { threads = m.threads ++ c ∷ [] }))

  start_streams : Text → List Text → Model S → Model S
  unfolding forward_if_ready launch add_log for_buses to_string
  start_streams mode [] m =
      add_log gui
        (codes "[replay-all] no buses ready "
          ++ (226 ∷ 128 ∷ 148 ∷ codes " set replay/record file + forward host:port in Inspector"))
        m
  start_streams mode (c ∷ cs) m =
      let m' =
        add_log gui
          (codes "[replay-all] starting "
            ++ (to_string (length (c ∷ cs)) ++ (codes " stream(s), mode=" ++ mode)))
          (for_buses forward_if_ready m) in
      launch (c ∷ cs) (record m' { global_replaying = true })

  unfoldable pub start_replay_all : Model S → Model S
  unfolding daemon_mode start_streams commands_of add_log
  start_replay_all m =
      let mode = daemon_mode m in
      let m' = start_streams mode (commands_of mode m.buses) m in
      if m.daemon_connected then m' else add_log gui (codes "[replay-all] daemon not connected") m

  -- One of the threads runs: its own client sends the command, and the response is dropped.
  run_command : List Text → Model S → Model S
  unfolding send_cmd
  run_command [] m = m
  run_command (c ∷ cs) m = record m { world = (send_cmd gui.pipes c m.world).1 }

  unfoldable pub run_thread : Model S → Model S
  unfolding run_command without_first
  run_thread m = record (run_command m.threads m) { threads = without_first m.threads }

  replayed : Bus → Text → Text × Model S → Bus × Model S
  unfolding add_log
  replayed b mode (resp, m) =
      (b, add_log gui (codes "[replay] " ++ (quoted b.name ++ (32 ∷ (mode ++ (arrow ++ resp))))) m)

  unfoldable pub replay_file : Text → Bus → Model S → Bus × Model S
  unfolding replayed replay_command ask add_log text_eq
  replay_file mode b m =
      if not m.daemon_connected
      then (b, add_log gui (codes "[replay] daemon not connected") m)
      else if text_eq b.replay_path []
      then (b, add_log gui (codes "[replay] no file path set") m)
      else replayed b mode (ask gui (replay_command b.name b.replay_path mode) m)
