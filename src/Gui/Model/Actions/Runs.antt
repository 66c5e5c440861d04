-- ===== src/Gui/Model/Actions/Runs.antt =====
-- The invariant of the GUI's model over every run.
use open_vbus.Base.{ℕ, zero, suc, inl, inr, refl, ap, List, [], ◌∷◌, All, if_cases, arith}
use open_vbus.Gui.Client.Commands.{is_connected}
use open_vbus.Gui.Model.{Bus, Model, Surroundings}
use open_vbus.Gui.Model.Invariant.{
  Known, ids_of, IsFit, IsSound, Holds, Model-Holds, Keeps, Together, Together-IsSound,
  add_log-IsSound,
}
use open_vbus.Gui.Model.Records.Preserved.{
  start_record-Keeps, stop_record-Keeps, start_forward-Keeps, stop_forward-Keeps,
  start_record_all-IsSound, stop_record_all-IsSound,
}
use open_vbus.Gui.Model.Capture.Preserved.{attach_iface-Keeps, detach_iface-Keeps}
use open_vbus.Gui.Model.Buses.Deletion.{delete_bus-IsSound}
use open_vbus.Gui.Model.Buses.Creation.{new_bus-IsSound, new_project-IsSound}
use open_vbus.Gui.Model.Tick.Preserved.{tick-IsSound, enqueue-IsSound}
use open_vbus.Gui.Model.Replays.Preserved.{
  start_replay_all-IsSound, run_thread-IsSound, replay_file-Keeps,
}
use open_vbus.Gui.Model.Projects.{Json}
use open_vbus.Gui.Model.Files.Preserved.{load_project-IsSound, save_project-IsSound}
use open_vbus.Gui.Model.Actions.{
  BusAction, attach, detach, record_on, record_off, forward_on, forward_off, replay, Action, on_bus,
  create, delete, record_all, stop_all, replay_all, fresh_project, thread, open_project, save_as,
  elapsed, frame, at_place, initial, greeted, start_model, act_on, act, act_all,
}

at_place-Together :
    {S : Type 0} (f : Bus → Model S → Bus × Model S)
    → Keeps f
    → (bs : List Bus) (sel : ℕ) (P Q : ℕ → Type 0) (i : ℕ) (cs : List Bus) (m : Model S)
    → ((i : ℕ) → Known i (ids_of cs) → P i × Q i)
    → All IsFit cs
    → Holds bs sel P Q m
    → Together bs sel P Q cs (at_place f i cs m)
unfolding at_place
at_place-Together f keeps bs sel P Q i [] m k fs h = record { same = refl; fits = tt; held = h }
at_place-Together f keeps bs sel P Q zero (c ∷ cs) m k (fc, fs) h =
    let one = keeps bs sel P Q c m (k c.id (inl refl)).0 (k c.id (inl refl)).1 fc h in
    record { same = ap (λ i. i ∷ ids_of cs) one.same; fits = (one.fit, fs); held = one.held }
at_place-Together f keeps bs sel P Q (suc i) (c ∷ cs) m k (fc, fs) h =
    let more = at_place-Together f keeps bs sel P Q i cs m (λ i e. k i (inr e)) fs h in
    record { same = ap (◌∷◌ c.id) more.same; fits = (fc, more.fits); held = more.held }

module _ {S J : Type 0} (gui : Surroundings S) (json : Json J) where
  act_on-Keeps : (a : BusAction) → Keeps (act_on gui json a)
  unfolding act_on
  act_on-Keeps (attach d) = attach_iface-Keeps gui d
  act_on-Keeps detach = detach_iface-Keeps gui
  act_on-Keeps record_on = start_record-Keeps gui
  act_on-Keeps record_off = stop_record-Keeps gui
  act_on-Keeps forward_on = start_forward-Keeps gui
  act_on-Keeps forward_off = stop_forward-Keeps gui
  act_on-Keeps (replay mode) = replay_file-Keeps gui mode

  act-IsSound : (a : Action) (m : Model S) → IsSound m → IsSound (act gui json a m)
  unfolding act
  act-IsSound (on_bus i a) m s =
      let r = at_place (act_on gui json a) i m.buses m in
      Together-IsSound m r.0 r.1 s (
        at_place-Together (act_on gui json a) (act_on-Keeps a) m.buses m.selected_bus
          (λ i. Known i (ids_of m.buses)) (λ i. Known i (ids_of m.buses)) i m.buses m
          (λ i e. (e, e)) s.fits (Model-Holds m s))
  act-IsSound (create name) m s = new_bus-IsSound gui name m s
  act-IsSound (delete id) m s = delete_bus-IsSound gui id m s
  act-IsSound record_all m s = start_record_all-IsSound gui m s
  act-IsSound stop_all m s = stop_record_all-IsSound gui m s
  act-IsSound replay_all m s = start_replay_all-IsSound gui m s
  act-IsSound fresh_project m s = new_project-IsSound gui m s
  act-IsSound thread m s = run_thread-IsSound gui m s
  act-IsSound (open_project path) m s = load_project-IsSound gui json path m s
  act-IsSound (save_as path) m s = save_project-IsSound gui json path m s
  act-IsSound (elapsed dt) m s = tick-IsSound gui dt m s
  act-IsSound (frame id f) m s = enqueue-IsSound gui id f m s

  act_all-IsSound :
      (actions : List Action) (m : Model S) → IsSound m → IsSound (act_all gui json actions m)
  unfolding act_all
  act_all-IsSound [] m s = s
  act_all-IsSound (a ∷ rest) m s = act_all-IsSound rest (act gui json a m) (act-IsSound a m s)

  pub start_model-IsSound : (next : ℕ) (w : S) → IsSound (start_model gui next w)
  unfolding start_model greeted initial
  start_model-IsSound next w =
      let m = initial next (is_connected gui.pipes w) in
      let s : IsSound (initial next (is_connected gui.pipes w)) = record {
        log = omega arith;
        fits = tt;
        subs = tt;
        ifaces = tt;
        selected = inl refl;
      } in
      if_cases IsSound (is_connected gui.pipes w).0 _ _ (λ _. add_log-IsSound gui _ m s)
        (λ _. add_log-IsSound gui _ m s)

  -- From its start, whatever is done with the GUI and whatever the daemon answers, the log has at most
  -- 1,024 lines, a bus at most 4,096 packets and a record path that fits in its array; every
  -- subscription and every simulated interface belongs to a bus of the list, and the selected bus is
  -- one of the list or 0.
  pub run-IsSound :
      (actions : List Action) (next : ℕ) (w : S)
      → IsSound (act_all gui json actions (start_model gui next w))
  run-IsSound actions next w =
      act_all-IsSound actions (start_model gui next w) (start_model-IsSound next w)
