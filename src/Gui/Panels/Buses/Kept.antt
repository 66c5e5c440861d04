-- ===== src/Gui/Panels/Buses/Kept.antt =====
-- The panel of the buses keeps the invariant of the model.
use open_vbus.Base.{
  ℕ, ◌+◌, ◌≡◌, ◌⊎◌, inl, inr, not, refl, List, [], ◌∷◌, ◌++◌, codes, to_string, length, ◌==◌,
  if_cases,
}
use open_vbus.Gui.Model.{Bus, Model, Surroundings}
use open_vbus.Gui.Model.Records.{start_record_all, stop_record_all}
use open_vbus.Gui.Model.Records.Preserved.{start_record_all-IsSound, stop_record_all-IsSound}
use open_vbus.Gui.Model.Replays.{start_replay_all}
use open_vbus.Gui.Model.Replays.Preserved.{start_replay_all-IsSound}
use open_vbus.Gui.Model.Buses.{new_bus}
use open_vbus.Gui.Model.Buses.Creation.{new_bus-IsSound}
use open_vbus.Gui.Model.Buses.Deletion.{delete_bus-IsSound}
use open_vbus.Gui.Model.Invariant.{Known, ids_of, IsSound}
use open_vbus.Gui.Panels.{Screen}
use open_vbus.Gui.Panels.Buses.{
  on_list, row_label, rows, resync_recording, record_toolbar, edit_prefix, edit_mode, edit_scale,
  replay_toolbar, acknowledge_replay, add_bus, end_rows, bus_rows, bus_list,
}

abbrev Chosen : List Bus → ℕ → ℕ → Type 0
Chosen bs old sel = (sel ≡ old) ⊎ Known sel (ids_of bs)

-- The selection after the loop is the old one or a bus of the list.
rows-Chosen :
    (screen : Screen) (bs : List Bus) (selected delete_id : ℕ)
    → Chosen bs selected (rows screen bs selected delete_id).0
unfolding rows
rows-Chosen screen [] selected delete_id = inl refl
rows-Chosen screen (b ∷ bs) selected delete_id =
    if_cases (λ s. (d : ℕ) → Chosen (b ∷ bs) selected (rows screen bs s d).0)
      (screen.clicked (on_list (row_label b))) b.id selected
      (λ _ d. elim (rows-Chosen screen bs b.id d) [ inl e ↦ inr (inl (cc)) | inr k ↦ inr (inr k) ])
      (λ _ d. elim (rows-Chosen screen bs selected d) [ inl e ↦ inl e | inr k ↦ inr (inr k) ]) _

module _ {S : Type 0} (gui : Surroundings S) (screen : Screen) where
  resync_recording-IsSound : (m : Model S) → IsSound m → IsSound (resync_recording gui screen m)
  unfolding resync_recording
  resync_recording-IsSound m s = if_cases IsSound m.global_recording _ m (λ _. s) (λ _. s)

  record_toolbar-IsSound : (m : Model S) → IsSound m → IsSound (record_toolbar gui screen m)
  unfolding record_toolbar
  record_toolbar-IsSound m s =
      if_cases IsSound (not m.global_recording) _ _
        (λ _.
          if_cases IsSound _ (start_record_all gui m) m (λ _. start_record_all-IsSound gui m s)
            (λ _. s))
        (λ _.
          if_cases IsSound _ (stop_record_all gui m) m (λ _. stop_record_all-IsSound gui m s)
            (λ _. s))

  edits-IsSound :
      (m : Model S)
      → IsSound m
      → IsSound (edit_scale gui screen (edit_mode gui screen (edit_prefix gui screen m)))
  unfolding edit_scale edit_mode edit_prefix
  edits-IsSound m s = s

  replay_toolbar-IsSound :
      (m : Model S)
      → IsSound m
      → IsSound (acknowledge_replay gui screen (replay_toolbar gui screen m))
  unfolding acknowledge_replay replay_toolbar
  replay_toolbar-IsSound m s =
      if_cases IsSound _ (start_replay_all gui m) m (λ _. start_replay_all-IsSound gui m s) (λ _. s)

  add_bus-IsSound : (m : Model S) → IsSound m → IsSound (add_bus gui screen m)
  unfolding add_bus
  add_bus-IsSound m s =
      if_cases IsSound _ (new_bus gui (codes "Bus" ++ to_string (length m.buses + 1)) m) m
        (λ _. new_bus-IsSound gui (codes "Bus" ++ to_string (length m.buses + 1)) m s) (λ _. s)

  selected-IsSound :
      (sel : ℕ) (m : Model S)
      → Chosen m.buses m.selected_bus sel
      → IsSound m
      → IsSound (record m { selected_bus = sel })
  selected-IsSound sel m (inl e) s = record {
    log = s.log;
    fits = s.fits;
    subs = s.subs;
    ifaces = s.ifaces;
    selected = elim s.selected [ inl z ↦ inl (cc) | inr k ↦ inr (rw e k) ];
  }
  selected-IsSound sel m (inr k) s = record {
    log = s.log;
    fits = s.fits;
    subs = s.subs;
    ifaces = s.ifaces;
    selected = inr k;
  }

  bus_rows-IsSound : (m : Model S) → IsSound m → IsSound (bus_rows gui screen m)
  unfolding bus_rows end_rows
  bus_rows-IsSound m s =
      let r = rows screen m.buses m.selected_bus 0 in
      let t = selected-IsSound r.0 m (rows-Chosen screen m.buses m.selected_bus 0) s in
      if_cases IsSound (r.1 == 0) (record m { selected_bus = r.0 }) _ (λ _. t)
        (λ _. delete_bus-IsSound gui r.1 (record m { selected_bus = r.0 }) t)

  pub bus_list-IsSound : (m : Model S) → IsSound m → IsSound (bus_list gui screen m)
  unfolding bus_list
  bus_list-IsSound m s =
      let m₁ = record_toolbar gui screen (resync_recording gui screen m) in
      let s₁ = record_toolbar-IsSound _ (resync_recording-IsSound m s) in
      let m₂ = edit_scale gui screen (edit_mode gui screen (edit_prefix gui screen m₁)) in
      let m₃ = acknowledge_replay gui screen (replay_toolbar gui screen m₂) in
      bus_rows-IsSound (add_bus gui screen m₃)
        (add_bus-IsSound m₃ (replay_toolbar-IsSound m₂ (edits-IsSound m₁ s₁)))
