-- ===== src/Gui/Model/Projects/Preserved.antt =====
-- Loading a project into a model without buses keeps the invariant, wherever an exception ends it.
use open_vbus.Base.{
  ℕ, ◌+◌, ◌%◌, ◌^◌, ◌≡◌, ◌⊎◌, inl, inr, refl, subst, Bool, true, false, Option, none, some, List,
  [], ◌∷◌, ◌++◌, Text, codes, All-append, arith,
}
use open_vbus.Gui.Model.{fresh_bus, Bus, Model}
use open_vbus.Gui.Model.Invariant.{Known, ids_of, length-copied, IsFit, IsSound, Keyed, Keyed-mono}
use open_vbus.Gui.Model.Buses.Deletion.{first_id-Known}
use open_vbus.Gui.Model.Buses.Creation.{Known-more}
use open_vbus.Gui.Model.Projects.{
  Json, read_bus, Fields, bus_of_fields, read_fields, loaded_bus, then_do, push_read, load_buses,
  set_prefix, set_mode, set_scale, if_there, load_settings, prefix_at, mode_at, scale_at, buses_in,
  load_list, finish_load, load_parsed, load_text,
}

abbrev Gives : Option Bus → Type 0
Gives none = Unit {0}
Gives (some b) = IsFit b

bus_of_fields-Gives : (id : ℕ) (o : Option Fields) → Gives (bus_of_fields id o)
unfolding bus_of_fields loaded_bus fresh_bus
bus_of_fields-Gives id none = tt
bus_of_fields-Gives id (some f) = record {
  ring = omega arith;
  path = length-copied 255 f.record_path;
}

-- A model without buses.
abbrev Blank : {S : Type 0} → Model S → Type 0
Blank m = IsSound m × (m.buses ≡ [])

then_do-lem :
    {S J : Type 0} (json : Json J) (R T : Model S → Type 0) (r : Bool × Model S)
    (f : Model S → Bool × Model S)
    → ((m : Model S) → R m → T m)
    → R r.1
    → ((m : Model S) → R m → T (f m).1)
    → T (then_do json r f).1
unfolding then_do
then_do-lem json R T (true, m) f w h k = k m h
then_do-lem json R T (false, m) f w h k = w m h

module _ {S J : Type 0} (json : Json J) where
  push_read-IsSound :
      (o : Option Bus) (m : Model S) → Gives o → IsSound m → IsSound (push_read json o m).1
  unfolding push_read
  push_read-IsSound none m g s = s
  push_read-IsSound (some b) m g s = record {
    log = s.log;
    fits = All-append IsFit m.buses (b ∷ []) s.fits (g, tt);
    subs = Keyed-mono _ _ m.subs (λ i k. Known-more i m.buses (b ∷ []) k) s.subs;
    ifaces = Keyed-mono _ _ m.ifaces (λ i k. Known-more i m.buses (b ∷ []) k) s.ifaces;
    selected = grown s.selected;
  }
    where
      grown :
          (m.selected_bus ≡ 0) ⊎ Known m.selected_bus (ids_of m.buses)
          → (m.selected_bus ≡ 0) ⊎ Known m.selected_bus (ids_of (m.buses ++ b ∷ []))
      grown (inl e) = inl e
      grown (inr k) = inr (Known-more m.selected_bus m.buses (b ∷ []) k)

  load_buses-IsSound : (js : List J) (m : Model S) → IsSound m → IsSound (load_buses json js m).1
  unfolding load_buses read_bus
  load_buses-IsSound [] m s = s
  load_buses-IsSound (j ∷ js) m s =
      let m' = record m { next = (m.next + 1) % 2 ^ 32 } in
      then_do-lem json IsSound IsSound (push_read json (read_bus json m.next j) m')
        (load_buses json js) (λ m h. h)
        (push_read-IsSound (read_bus json m.next j) m'
          (bus_of_fields-Gives m.next (read_fields json j)) s)
        (load_buses-IsSound js)

  -- a setting changes no bus and no map
  set_prefix-Blank : (o : Option Text) (m : Model S) → Blank m → Blank (set_prefix json o m).1
  unfolding set_prefix
  set_prefix-Blank none m h = h
  set_prefix-Blank (some x) m h = h

  set_mode-Blank : (o : Option Text) (m : Model S) → Blank m → Blank (set_mode json o m).1
  unfolding set_mode
  set_mode-Blank none m h = h
  set_mode-Blank (some x) m h = h

  set_scale-Blank : (o : Option ℕ) (m : Model S) → Blank m → Blank (set_scale json o m).1
  unfolding set_scale
  set_scale-Blank none m h = h
  set_scale-Blank (some x) m h = h

  if_there-Blank :
      (set : J → Model S → Bool × Model S) (o : Option J) (m : Model S)
      → ((v : J) (m : Model S) → Blank m → Blank (set v m).1)
      → Blank m
      → Blank (if_there json set o m).1
  unfolding if_there
  if_there-Blank set none m k h = h
  if_there-Blank set (some v) m k h = k v m h

  prefix_at-Blank : (j : J) (m : Model S) → Blank m → Blank (prefix_at json j m).1
  unfolding prefix_at
  prefix_at-Blank j m h =
      if_there-Blank (λ v. set_prefix json (json.get_text v))
        (json.find (codes "record_all_prefix") j) m (λ v. set_prefix-Blank (json.get_text v)) h

  mode_at-Blank : (j : J) (m : Model S) → Blank m → Blank (mode_at json j m).1
  unfolding mode_at
  mode_at-Blank j m h =
      if_there-Blank (λ v. set_mode json (json.get_text v)) (json.find (codes "replay_all_mode") j)
        m (λ v. set_mode-Blank (json.get_text v)) h

  scale_at-Blank : (j : J) (m : Model S) → Blank m → Blank (scale_at json j m).1
  unfolding scale_at
  scale_at-Blank j m h =
      if_there-Blank (λ v. set_scale json (json.get_float v))
        (json.find (codes "replay_all_scale") j) m (λ v. set_scale-Blank (json.get_float v)) h

  load_settings-Blank : (j : J) (m : Model S) → Blank m → Blank (load_settings json j m).1
  unfolding load_settings
  load_settings-Blank j m h =
      then_do-lem json Blank Blank (then_do json (prefix_at json j m) (mode_at json j))
        (scale_at json j) (λ m h. h)
        (then_do-lem json Blank Blank (prefix_at json j m) (mode_at json j) (λ m h. h)
          (prefix_at-Blank j m h) (mode_at-Blank j))
        (scale_at-Blank j)

  buses_in-IsSound : (o : Option (List J)) (m : Model S) → IsSound m → IsSound (buses_in json o m).1
  unfolding buses_in
  buses_in-IsSound none m s = s
  buses_in-IsSound (some js) m s = load_buses-IsSound js m s

  load_list-IsSound : (j : J) (m : Model S) → Blank m → IsSound (load_list json j m).1
  unfolding load_list
  load_list-IsSound j m (s, e) =
      buses_in-IsSound _ (record m { buses = []; selected_bus = 0 })
        (record {
          log = s.log;
          fits = tt;
          subs = subst (λ bs. Keyed (λ i. Known i (ids_of bs)) m.subs) e s.subs;
          ifaces = subst (λ bs. Keyed (λ i. Known i (ids_of bs)) m.ifaces) e s.ifaces;
          selected = inl refl;
        })

  finish_load-IsSound : (m : Model S) → IsSound m → IsSound (finish_load json m).1
  unfolding finish_load
  finish_load-IsSound m s = record {
    log = s.log;
    fits = s.fits;
    subs = s.subs;
    ifaces = s.ifaces;
    selected = first_id-Known m.buses;
  }

  load_parsed-IsSound : (o : Option J) (m : Model S) → Blank m → IsSound (load_parsed json o m).1
  unfolding load_parsed
  load_parsed-IsSound none m h = h.0
  load_parsed-IsSound (some j) m h =
      then_do-lem json IsSound IsSound (then_do json (load_settings json j m) (load_list json j))
        (finish_load json) (λ m h. h)
        (then_do-lem json Blank IsSound (load_settings json j m) (load_list json j) (λ m h. h.0)
          (load_settings-Blank j m h) (load_list-IsSound j))
        finish_load-IsSound

  pub load_text-IsSound :
      (r : Option Text × S) (m : Model S) → Blank m → IsSound (load_text json r m).1
  unfolding load_text
  load_text-IsSound (none, w) m (s, e) = s
  load_text-IsSound (some text, w) m (s, e) =
      load_parsed-IsSound (json.parse text) (record m { world = w }) (s, e)
