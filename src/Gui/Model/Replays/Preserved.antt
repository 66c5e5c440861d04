-- ===== src/Gui/Model/Replays/Preserved.antt =====
-- Replays keep the invariant.
use open_vbus.Base.{
  refl, not, List, [], ◌∷◌, ◌++◌, Text, codes, to_string, text_eq, length, if_cases,
}
use open_vbus.Gui.Model.{Model, Surroundings, for_buses}
use open_vbus.Gui.Model.Invariant.{
  IsSound, Stays, Keeps, for_buses-IsSound, add_log-IsSound, add_log-Holds, ask-Holds,
}
use open_vbus.Gui.Model.Records.{start_forward}
use open_vbus.Gui.Model.Records.Preserved.{start_forward-Keeps}
use open_vbus.Gui.Model.Replays.{
  is_ready, commands_of, daemon_mode, forward_if_ready, launch, start_streams, start_replay_all,
  run_command, run_thread, replayed, replay_file,
}

module _ {S : Type 0} (gui : Surroundings S) where
  forward_if_ready-Keeps : Keeps (forward_if_ready gui)
  unfolding forward_if_ready
  forward_if_ready-Keeps bs sel P Q b m p q f h =
      if_cases (Stays bs sel P Q b) (is_ready b) _ _
        (λ _.
          if_cases (Stays bs sel P Q b) b.forwarding (b, m) (start_forward gui b m)
            (λ _. record { same = refl; fit = f; held = h })
            (λ _. start_forward-Keeps gui bs sel P Q b m p q f h))
        (λ _. record { same = refl; fit = f; held = h })

  launch-IsSound : (cs : List Text) (m : Model S) → IsSound m → IsSound (launch gui cs m)
  unfolding launch
  launch-IsSound [] m s = s
  launch-IsSound (c ∷ cs) m s = launch-IsSound cs _ (
      add_log-IsSound gui (codes "[replay-all] -> " ++ c)
        (record m { threads = m.threads ++ c ∷ [] }) s)

  start_streams-IsSound :
      (mode : Text) (cs : List Text) (m : Model S)
      → IsSound m
      → IsSound (start_streams gui mode cs m)
  unfolding start_streams
  start_streams-IsSound mode [] m s = add_log-IsSound gui _ m s
  start_streams-IsSound mode (c ∷ cs) m s =
      let forwarded = for_buses-IsSound (forward_if_ready gui) forward_if_ready-Keeps m s in
      let t =
        add_log-IsSound gui
          (codes "[replay-all] starting "
            ++ (to_string (length (c ∷ cs)) ++ (codes " stream(s), mode=" ++ mode)))
          (for_buses (forward_if_ready gui) m) forwarded in
      launch-IsSound (c ∷ cs) _ t

  pub start_replay_all-IsSound : (m : Model S) → IsSound m → IsSound (start_replay_all gui m)
  unfolding start_replay_all
  start_replay_all-IsSound m s =
      if_cases IsSound m.daemon_connected _ _
        (λ _.
          start_streams-IsSound (daemon_mode gui m) (commands_of (daemon_mode gui m) m.buses) m s)
        (λ _. add_log-IsSound gui (codes "[replay-all] daemon not connected") m s)

  run_command-IsSound : (cs : List Text) (m : Model S) → IsSound m → IsSound (run_command gui cs m)
  unfolding run_command
  run_command-IsSound [] m s = s
  run_command-IsSound (c ∷ cs) m s = s

  pub run_thread-IsSound : (m : Model S) → IsSound m → IsSound (run_thread gui m)
  unfolding run_thread
  run_thread-IsSound m s = let t = run_command-IsSound m.threads m s in t

  pub replay_file-Keeps : (mode : Text) → Keeps (replay_file gui mode)
  unfolding replay_file replayed
  replay_file-Keeps mode bs sel P Q b m p q f h =
      if_cases (Stays bs sel P Q b) (not m.daemon_connected) _ _
        (λ _. record { same = refl; fit = f; held = search (add_log-Holds) })
        (λ _.
          if_cases (Stays bs sel P Q b) (text_eq b.replay_path []) _ _
            (λ _. record { same = refl; fit = f; held = search (add_log-Holds) })
            (λ _. record { same = refl; fit = f; held = search (add_log-Holds, ask-Holds) }))
