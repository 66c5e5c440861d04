-- ===== src/Gui/Model/Buses/Creation.antt =====
-- `newBus`, `syncBusesToDaemon` and `newProject` keep the invariant.
use open_vbus.Base.{
  to_string, ℕ, ◌≡◌, inl, inr, refl, ap, ◌∙◌, false, Option, none, some, List, [], ◌∷◌, ◌++◌, Text,
  codes, All-append, length, if_cases, arith,
}
use open_vbus.Gui.Client.Commands.{DaemonClient}
use open_vbus.Gui.Model.{for_buses, Bus, Model, Surroundings, fresh_bus, add_log, ask, quoted}
use open_vbus.Gui.Model.Invariant.{
  add_log-IsSound, Known, ids_of, IsFit, IsSound, Holds, Model-Holds, Holds-IsSound, Keeps,
  Keyed-mono, add_log-Holds, ask-Holds, for_buses-IsSound,
}
use open_vbus.Gui.Model.Buses.{
  blank_project, with_bus, created, new_bus, create_command, synced, subscribe_if, sync_bus,
  sync_done, sync_buses, new_project, delete_buses,
}
use open_vbus.Gui.Model.Buses.Preserved.{subscribe_frames-Holds}
use open_vbus.Gui.Model.Buses.Deletion.{delete_buses-clears}

pub Known-more : (i : ℕ) (bs cs : List Bus) → Known i (ids_of bs) → Known i (ids_of (bs ++ cs))
Known-more i [] cs x = elim x [ ]
Known-more i (b ∷ bs) cs (inl e) = inl e
Known-more i (b ∷ bs) cs (inr k) = inr (Known-more i bs cs k)

fresh-IsFit : (id : ℕ) (name : Text) → IsFit (fresh_bus id name)
unfolding fresh_bus
fresh-IsFit id name = record { ring = omega arith; path = omega arith }

Known-last : (bs : List Bus) (b : Bus) → Known b.id (ids_of (bs ++ b ∷ []))
Known-last [] b = inl refl
Known-last (c ∷ bs) b = inr (Known-last bs b)

module _ {S : Type 0} (gui : Surroundings S) where
  with_bus-IsSound : (name : Text) (m : Model S) → IsSound m → IsSound (with_bus gui name m)
  unfolding with_bus
  with_bus-IsSound name m s = record {
    log = s.log;
    fits =
        All-append IsFit m.buses (fresh_bus m.next name ∷ []) s.fits (fresh-IsFit m.next name, tt);
    subs = Keyed-mono _ _ m.subs (λ i k. Known-more i m.buses _ k) s.subs;
    ifaces = Keyed-mono _ _ m.ifaces (λ i k. Known-more i m.buses _ k) s.ifaces;
    selected = inr (Known-last m.buses (fresh_bus m.next name));
  }

  created-Holds :
      (bs : List Bus) (sel : ℕ) (P Q : ℕ → Type 0) (b : Bus) (cmd : Text) (m : Model S)
      → P b.id
      → Holds bs sel P Q m
      → Holds bs sel P Q (created gui b (ask gui cmd m))
  unfolding created
  created-Holds bs sel P Q b cmd m p h = search (subscribe_frames-Holds, add_log-Holds, ask-Holds)

  -- A new bus comes last and is selected.
  new_bus-Holds :
      (P Q : ℕ → Type 0) (name : Text) (m : Model S)
      → P m.next
      → Holds (with_bus gui name m).buses m.next P Q (with_bus gui name m)
      → Holds (with_bus gui name m).buses m.next P Q (new_bus gui name m)
  unfolding new_bus
  new_bus-Holds P Q name m p h =
      let m' = with_bus gui name m in
      if_cases (Holds m'.buses m.next P Q) m.daemon_connected
        (created gui (fresh_bus m.next name) (ask gui (create_command name) m')) _
        (λ _.
          created-Holds m'.buses m.next P Q (fresh_bus m.next name) (create_command name) m' p h)
        (λ _.
          add_log-Holds gui m'.buses m.next P Q
            (codes "[create] bus " ++ (quoted name ++ codes " (local mock)")) m' h)

  pub new_bus-IsSound : (name : Text) (m : Model S) → IsSound m → IsSound (new_bus gui name m)
  unfolding with_bus
  new_bus-IsSound name m s =
      let grown = with_bus-IsSound name m s in
      let m' = with_bus gui name m in
      Holds-IsSound m' (new_bus gui name m) grown (
        new_bus-Holds (λ i. Known i (ids_of m'.buses)) (λ i. Known i (ids_of m'.buses)) name m
          (Known-last m.buses (fresh_bus m.next name)) (Model-Holds m' grown))

  subscribe_if-Holds :
      (bs : List Bus) (sel : ℕ) (P Q : ℕ → Type 0) (o : Option DaemonClient) (b : Bus) (m : Model S)
      → P b.id
      → Holds bs sel P Q m
      → Holds bs sel P Q (subscribe_if gui o b m)
  unfolding subscribe_if
  subscribe_if-Holds bs sel P Q none b m p h = subscribe_frames-Holds gui bs sel P Q b m p h
  subscribe_if-Holds bs sel P Q (some c) b m p h = h

  sync_bus-Keeps : Keeps (sync_bus gui)
  unfolding sync_bus synced
  sync_bus-Keeps bs sel P Q b m p q f h = record {
    same = refl;
    fit = f;
    held = search (subscribe_if-Holds, add_log-Holds, ask-Holds);
  }

  pub sync_buses-IsSound : (m : Model S) → IsSound m → IsSound (sync_buses gui m)
  unfolding sync_buses sync_done
  sync_buses-IsSound m s =
      let all = for_buses-IsSound (sync_bus gui) sync_bus-Keeps m s in
      let m' = for_buses (sync_bus gui) m in
      if_cases IsSound m.daemon_connected (sync_done gui m') m
        (λ _.
          add_log-IsSound gui
            (codes "[sync] " ++ (to_string (length m'.buses) ++ codes " bus(es) synced to daemon"))
            (record m' { needs_daemon_sync = false }) all)
        (λ _. s)

  blank_project-IsSound : (m : Model S) → IsSound m → IsSound (blank_project gui m)
  unfolding blank_project
  blank_project-IsSound m s =
      add_log-IsSound gui (codes "[project] new project")
        (record (delete_buses gui m) {
          project_path = [];
          global_recording = false;
          global_replaying = false;
          needs_daemon_sync = false;
        })
        (delete_buses-clears gui m s).0

  pub new_project-IsSound : (m : Model S) → IsSound m → IsSound (new_project gui m)
  unfolding new_project
  new_project-IsSound m s =
      new_bus-IsSound (codes "Bus1") (blank_project gui m) (blank_project-IsSound m s)

  new_bus_last :
      (name : Text) (m : Model S)
      → IsSound m
      → ((new_bus gui name m).buses ≡ m.buses ++ fresh_bus m.next name ∷ [])
        × ((new_bus gui name m).selected_bus ≡ m.next)
  unfolding with_bus
  new_bus_last name m s =
      let grown = with_bus-IsSound name m s in
      let h =
        new_bus-Holds (λ i. Known i (ids_of (with_bus gui name m).buses))
          (λ i. Known i (ids_of (with_bus gui name m).buses)) name m
          (Known-last m.buses (fresh_bus m.next name)) (Model-Holds (with_bus gui name m) grown) in
      (h.kept, h.selected)

  blank_project-empty : (m : Model S) → IsSound m → (blank_project gui m).buses ≡ []
  unfolding blank_project add_log
  blank_project-empty m s = (delete_buses-clears gui m s).1

  -- A new project has one bus, `Bus1` with the settings of a new bus, and it is selected: the loop that
  -- deletes the buses ends.
  pub new_project_lem :
      (m : Model S)
      → IsSound m
      → (id : ℕ) × ((new_project gui m).buses ≡ fresh_bus id (codes "Bus1") ∷ [])
        × ((new_project gui m).selected_bus ≡ id)
  unfolding new_project
  new_project_lem m s =
      let c = blank_project gui m in
      let (last, sel) = new_bus_last (codes "Bus1") c (blank_project-IsSound m s) in
      (
        c.next,
        last ∙ ap (λ bs. bs ++ fresh_bus c.next (codes "Bus1") ∷ []) (blank_project-empty m s),
        sel,
      )
