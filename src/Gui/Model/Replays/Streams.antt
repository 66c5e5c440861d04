-- ===== src/Gui/Model/Replays/Streams.antt =====
-- What `startReplayAll` does to the detached threads.
use open_vbus.Base.{
  ◌≡◌, ◌∙◌, refl, sym, ap, true, List, [], ◌∷◌, ◌++◌, append-nil, append_assoc, Text, if_cases,
}
use open_vbus.Gui.Model.{Bus, Model, Surroundings, add_log, each, for_buses}
use open_vbus.Gui.Model.Records.Preserved.{start_forward-threads}
use open_vbus.Gui.Model.Replays.{
  is_ready, commands_of, daemon_mode, forward_if_ready, launch, start_streams, start_replay_all,
}

module _ {S : Type 0} (gui : Surroundings S) where
  forward-threads : (b : Bus) (m : Model S) → (forward_if_ready gui b m).1.threads ≡ m.threads
  unfolding forward_if_ready
  forward-threads b m =
      if_cases (λ (r : Bus × Model S). r.1.threads ≡ m.threads) (is_ready b) _ _
        (λ _.
          if_cases (λ (r : Bus × Model S). r.1.threads ≡ m.threads) b.forwarding _ _ (λ _. refl)
            (λ _. start_forward-threads gui b m))
        (λ _. refl)

  each-threads :
      (f : Bus → Model S → Bus × Model S)
      → ((b : Bus) (m : Model S) → (f b m).1.threads ≡ m.threads)
      → (bs : List Bus) (m : Model S) → (each f bs m).1.threads ≡ m.threads
  unfolding each
  each-threads f same [] m = refl
  each-threads f same (b ∷ bs) m = each-threads f same bs (f b m).1 ∙ same b m

  launch-threads : (cs : List Text) (m : Model S) → (launch gui cs m).threads ≡ m.threads ++ cs
  unfolding launch add_log
  launch-threads [] m = sym (append-nil m.threads)
  launch-threads (c ∷ cs) m = launch-threads cs _ ∙ append_assoc m.threads (c ∷ []) cs

  start_streams-threads :
      (mode : Text) (cs : List Text) (m : Model S)
      → (start_streams gui mode cs m).threads ≡ m.threads ++ cs
  unfolding start_streams add_log for_buses
  start_streams-threads mode [] m = sym (append-nil m.threads)
  start_streams-threads mode (c ∷ cs) m =
      launch-threads (c ∷ cs) _
      ∙ ap (λ ts. ts ++ c ∷ cs) (each-threads (forward_if_ready gui) forward-threads m.buses m)

  -- One thread for each command, in their order, after those that are there.
  pub start_replay_all-threads :
      (m : Model S)
      → m.daemon_connected ≡ true
      → (start_replay_all gui m).threads ≡ m.threads ++ commands_of (daemon_mode gui m) m.buses
  unfolding start_replay_all
  start_replay_all-threads m up =
      if_cases (λ (v : Model S). v.threads ≡ m.threads ++ commands_of (daemon_mode gui m) m.buses)
        m.daemon_connected _ _ (λ _. start_streams-threads _ _ m) (λ down. cc)
