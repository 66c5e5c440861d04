-- ===== src/Gui/Model/Projects/Reload.antt =====
-- Loading the project that was saved.
use mathlib.Core.List.{map-append}
use open_vbus.Base.{
  ◌+◌, ◌%◌, ◌^◌, ◌≡◌, refl, sym, ap, ◌∙◌, Bool, true, some, List, [], ◌∷◌, ◌++◌, append-nil,
  append_assoc, map, Text, text_eq, lookup, codes, All,
}
use open_vbus.Gui.Model.{Bus, Model}
use open_vbus.Gui.Model.Projects.{
  first_id, Json, state_members, saved_buses, saved_state, value_of, value, loaded_bus, then_do,
  push_read, load_buses, set_prefix, set_mode, set_scale, if_there, prefix_at, mode_at, scale_at,
  load_settings, buses_in, load_list, finish_load, load_parsed, load_text,
}
use open_vbus.Gui.Model.Projects.Saved.{
  IsFaithful, IsHeld, IsTidy, fields_of, copied-Held, loaded-fields, read_bus-saved,
}

module _ {J : Type 0} (json : Json J) (faithful : IsFaithful json) where
  -- What loading a list leaves of the model.
  record Loads {S : Type 0} (bs : List Bus) (m : Model S) (r : Bool × Model S) : Type 0 where
    done : r.0 ≡ true
    fields : map fields_of r.1.buses ≡ map fields_of m.buses ++ map fields_of bs
    prefix : r.1.record_all_prefix ≡ m.record_all_prefix
    mode : r.1.replay_all_mode ≡ m.replay_all_mode
    scale : r.1.replay_all_scale ≡ m.replay_all_scale

  load_buses-Loads :
      {S : Type 0} (bs : List Bus) (m : Model S)
      → All IsTidy bs
      → Loads bs m (load_buses json (saved_buses json bs) m)
  unfolding load_buses saved_buses push_read then_do
  load_buses-Loads [] m t = record {
    done = refl;
    fields = sym (append-nil (map fields_of m.buses));
    prefix = refl;
    mode = refl;
    scale = refl;
  }
  load_buses-Loads (b ∷ bs) m (t, ts) =
      let lb = loaded_bus m.next (fields_of b) in
      let rest =
        load_buses-Loads bs
          (record m {
            next = (m.next + 1) % 2 ^ 32;
            buses = m.buses ++ loaded_bus m.next (fields_of b) ∷ [];
          })
          ts in
      rw (read_bus-saved json faithful m.next b t) (record {
        done = rest.done;
        fields =
            rest.fields
            ∙ (ap (λ fs. fs ++ map fields_of bs) (map-append fields_of m.buses (lb ∷ []))
                ∙ (append_assoc (map fields_of m.buses) (fields_of lb ∷ []) (map fields_of bs)
                    ∙ ap (λ x. map fields_of m.buses ++ x ∷ map fields_of bs)
                        (loaded-fields json faithful m.next b t)));
        prefix = rest.prefix;
        mode = rest.mode;
        scale = rest.scale;
      })

  -- What loading a project leaves.
  pub record Reloads {S : Type 0} (m : Model S) (r : Bool × Model S) : Type 0 where
    pub done : r.0 ≡ true
    pub fields : map fields_of r.1.buses ≡ map fields_of m.buses
    pub prefix : r.1.record_all_prefix ≡ m.record_all_prefix
    pub mode : r.1.replay_all_mode ≡ m.replay_all_mode
    pub scale : r.1.replay_all_scale ≡ m.replay_all_scale
    pub selected : r.1.selected_bus ≡ first_id r.1.buses

  load_settings-saved :
      {S : Type 0} (m n : Model S)
      → IsHeld 255 m.record_all_prefix
      → IsHeld 15 m.replay_all_mode
      → load_settings json (saved_state json m) n ≡ (
        true,
        record n {
          record_all_prefix = m.record_all_prefix;
          replay_all_mode = m.replay_all_mode;
          replay_all_scale = m.replay_all_scale;
        },
      )
  unfolding load_settings prefix_at mode_at scale_at if_there set_prefix set_mode set_scale then_do
      saved_state state_members lookup text_eq
  load_settings-saved m n hp hm =
      let fs = state_members json m in
      rw (faithful.find (codes "record_all_prefix") fs) (
        rw (faithful.text m.record_all_prefix) (
          rw (copied-Held 255 m.record_all_prefix hp) (
            rw (faithful.find (codes "replay_all_mode") fs) (
              rw (faithful.text m.replay_all_mode) (
                rw (copied-Held 15 m.replay_all_mode hm) (
                  rw (faithful.find (codes "replay_all_scale") fs)
                    (rw (faithful.float m.replay_all_scale) refl)))))))

  load_list-saved :
      {S : Type 0} (m n : Model S)
      → load_list json (saved_state json m) n
        ≡ load_buses json (saved_buses json m.buses) (record n { buses = []; selected_bus = 0 })
  unfolding load_list buses_in value value_of saved_state state_members lookup text_eq
  load_list-saved m n =
      let fs = state_members json m in
      rw (faithful.object fs)
        (rw (faithful.find (codes "buses") fs) (rw (faithful.list (saved_buses json m.buses)) refl))

  -- The loading of a text that parses as what `save` makes of a project gives its settings back, and
  -- buses with the names, addresses, ports and paths of its buses, in their order; the first is
  -- selected. The texts of the project are those of their arrays.
  pub load_text-saved :
      {S : Type 0} (m n : Model S) (w : S) (file : Text)
      → json.parse file ≡ some (saved_state json m)
      → IsHeld 255 m.record_all_prefix
      → IsHeld 15 m.replay_all_mode
      → All IsTidy m.buses
      → Reloads m (load_text json (some file, w) n)
  unfolding load_text load_parsed then_do finish_load
  load_text-saved m n w file parsed hp hm ts =
      let n' = record n {
        record_all_prefix = m.record_all_prefix;
        replay_all_mode = m.replay_all_mode;
        replay_all_scale = m.replay_all_scale;
        world = w;
      } in
      let loaded =
        load_buses-Loads m.buses
          (record n {
            record_all_prefix = m.record_all_prefix;
            replay_all_mode = m.replay_all_mode;
            replay_all_scale = m.replay_all_scale;
            world = w;
            buses = [];
            selected_bus = 0;
          })
          ts in
      rw parsed (
        rw (load_settings-saved m (record n { world = w }) hp hm) (
          rw (load_list-saved m n') (
            rw (loaded.done, then_do)
              (record {
                done = refl;
                fields = loaded.fields;
                prefix = loaded.prefix;
                mode = loaded.mode;
                scale = loaded.scale;
                selected = refl;
              }))))
