-- ===== src/Gui/Model/Records/Preserved.antt =====
-- Recording and forwarding keep the invariant.
use open_vbus.Base.{◌≡◌, Option, none, some, Text, codes, refl, not, [], if_cases, text_eq}
use open_vbus.Gui.Model.{Bus, Model, Surroundings, add_log, received, ask}
use open_vbus.Gui.Model.Invariant.{
  length-copied, Keeps, IsSound, for_buses-IsSound, Holds-IsSound, Model-Holds, Stays,
  add_log-Holds, ask-Holds,
}
use open_vbus.Gui.Model.Records.{
  path_for, recorded_all, stop_record_now, forwarded, stopped_forward, stop_forward, stop_in_all,
  stop_record, record_in_all, start_forward, start_record_all, stop_record_all, start_record_now,
  start_record,
}

module _ {S : Type 0} (gui : Surroundings S) where
  pub start_record-Keeps : Keeps (start_record gui)
  unfolding start_record start_record_now
  start_record-Keeps bs sel P Q b m p q f h =
      if_cases (Stays bs sel P Q b) (not m.daemon_connected) _ _
        (λ _. record { same = refl; fit = f; held = search (add_log-Holds) })
        (λ _.
          if_cases (Stays bs sel P Q b) (text_eq b.record_path []) _ _
            (λ _. record { same = refl; fit = f; held = search (add_log-Holds) })
            (λ _. record {
              same = refl;
              fit = record { ring = f.ring; path = f.path };
              held = search (add_log-Holds, ask-Holds);
            }))

  pub stop_record-Keeps : Keeps (stop_record gui)
  unfolding stop_record stop_record_now
  stop_record-Keeps bs sel P Q b m p q f h =
      if_cases (Stays bs sel P Q b) m.daemon_connected _ _
        (λ _. record {
          same = refl;
          fit = record { ring = f.ring; path = f.path };
          held = search (add_log-Holds, ask-Holds);
        })
        (λ _. record { same = refl; fit = f; held = h })

  pub start_forward-Keeps : Keeps (start_forward gui)
  unfolding start_forward forwarded
  start_forward-Keeps bs sel P Q b m p q f h =
      if_cases (Stays bs sel P Q b) m.daemon_connected _ _
        (λ _. record {
          same = refl;
          fit = record { ring = f.ring; path = f.path };
          held = search (add_log-Holds, ask-Holds);
        })
        (λ _. record { same = refl; fit = f; held = search (add_log-Holds) })

  received-threads : (r : Option Text × S) (m : Model S) → (received gui r m).1.threads ≡ m.threads
  unfolding received
  received-threads (none, s) m = refl
  received-threads (some resp, s) m = refl

  pub start_forward-threads :
      (b : Bus) (m : Model S) → (start_forward gui b m).1.threads ≡ m.threads
  unfolding start_forward forwarded add_log ask
  start_forward-threads b m =
      if_cases (λ (r : Bus × Model S). r.1.threads ≡ m.threads) m.daemon_connected _ _
        (λ _. received-threads _ m) (λ _. refl)

  pub stop_forward-Keeps : Keeps (stop_forward gui)
  unfolding stop_forward stopped_forward
  stop_forward-Keeps bs sel P Q b m p q f h =
      if_cases (Stays bs sel P Q b) m.daemon_connected _ _
        (λ _. record {
          same = refl;
          fit = record { ring = f.ring; path = f.path };
          held = search (add_log-Holds, ask-Holds);
        })
        (λ _. record { same = refl; fit = f; held = h })

  record_in_all-Keeps : Keeps (record_in_all gui)
  unfolding record_in_all recorded_all
  record_in_all-Keeps bs sel P Q b m p q f h = record {
    same = refl;
    fit = record { ring = f.ring; path = length-copied 255 (path_for gui m.record_all_prefix b) };
    held = search (add_log-Holds, ask-Holds);
  }

  stop_in_all-Keeps : Keeps (stop_in_all gui)
  unfolding stop_in_all stop_record_now
  stop_in_all-Keeps bs sel P Q b m p q f h =
      if_cases (Stays bs sel P Q b) b.recording _ _
        (λ _. record {
          same = refl;
          fit = record { ring = f.ring; path = f.path };
          held = search (add_log-Holds, ask-Holds);
        })
        (λ _. record { same = refl; fit = f; held = h })

  pub start_record_all-IsSound : (m : Model S) → IsSound m → IsSound (start_record_all gui m)
  unfolding start_record_all
  start_record_all-IsSound m s =
      if_cases IsSound m.daemon_connected _ _
        (λ _. for_buses-IsSound (record_in_all gui) record_in_all-Keeps m s)
        (λ _.
          Holds-IsSound m _ s (
            add_log-Holds gui _ _ _ _ (codes "[rec-all] daemon not connected") m (Model-Holds m s)))

  pub stop_record_all-IsSound : (m : Model S) → IsSound m → IsSound (stop_record_all gui m)
  unfolding stop_record_all
  stop_record_all-IsSound m s = for_buses-IsSound (stop_in_all gui) stop_in_all-Keeps m s
