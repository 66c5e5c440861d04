-- ===== src/Gui/Model/Projects/Saved.antt =====
-- Reading one bus back from what was saved of it.
use open_vbus.Base.{
  ℕ, ◌%◌, ◌^◌, ◌<◌, ◌≤◌, ◌≡◌, refl, ap, ◌∙◌, true, some, List, [], Text, text_eq, lookup, codes,
  length, take, take_all, arith,
}
use open_vbus.Gui.Model.{Bus, c_str, copied, fresh_bus}
use open_vbus.Gui.Model.Projects.{
  Json, Fields, saved_bus, bus_members, value_of, value, text_at, port_in, port_at, read_fields,
  read_bus, loaded_bus, bus_of_fields,
}

-- What the library promises of the values that it makes.
pub record IsFaithful {J : Type 0} (json : Json J) : Type 0 where
  pub object : (fs : List (Text × J)) → json.is_object (json.of_object fs) ≡ true
  pub find : (k : Text) (fs : List (Text × J)) → json.find k (json.of_object fs) ≡ lookup k fs
  pub text : (s : Text) → json.get_text (json.of_text s) ≡ some s
  pub number : (n : ℕ) → json.get_number (json.of_number n) ≡ some n
  pub float : (n : ℕ) → json.get_float (json.of_float n) ≡ some n
  pub list : (js : List J) → json.members (json.of_list js) ≡ js

-- A text without NUL that leaves room for the one behind it.
pub record IsHeld (n : ℕ) (s : Text) : Type 0 where
  pub short : length s ≤ n
  pub whole : c_str s ≡ s

pub record IsTidy (b : Bus) : Type 0 where
  pub bind_host : IsHeld 63 b.bind_host
  pub bind_port : b.bind_port < 2 ^ 16
  pub target_host : IsHeld 63 b.target_host
  pub target_port : b.target_port < 2 ^ 16
  pub record_path : IsHeld 255 b.record_path
  pub replay_path : IsHeld 255 b.replay_path
  pub forward_host : IsHeld 63 b.forward_host
  pub forward_port : b.forward_port < 2 ^ 16

-- what a project keeps of a bus
abbrev pub fields_of : Bus → Fields
fields_of b = record {
  name = b.name;
  bind_host = b.bind_host;
  bind_port = b.bind_port;
  target_host = b.target_host;
  target_port = b.target_port;
  record_path = b.record_path;
  replay_path = b.replay_path;
  forward_host = b.forward_host;
  forward_port = b.forward_port;
}

pub copied-Held : (n : ℕ) (s : Text) → IsHeld n s → copied n s ≡ s
unfolding copied
copied-Held n s h = ap (take n) h.whole ∙ take_all n s h.short

module _ {J : Type 0} (json : Json J) (faithful : IsFaithful json) where
  text_at-saved :
      (k d s : Text) (fs : List (Text × J))
      → lookup k fs ≡ some (json.of_text s)
      → text_at json k d (json.of_object fs) ≡ some s
  unfolding text_at value value_of
  text_at-saved k d s fs e =
      rw (faithful.object fs) (rw (faithful.find k fs) (rw e (faithful.text s)))

  port_at-saved :
      (k : Text) (d n : ℕ) (fs : List (Text × J))
      → n < 2 ^ 16
      → lookup k fs ≡ some (json.of_number n)
      → port_at json k d (json.of_object fs) ≡ some n
  unfolding port_at port_in value value_of
  port_at-saved k d n fs h e =
      let same : n % 2 ^ 16 ≡ n = omega arith in
      rw (faithful.object fs)
        (rw (faithful.find k fs) (rw e (rw (faithful.number n) (rw same refl))))

  read_fields-saved :
      (b : Bus) → IsTidy b → read_fields json (saved_bus json b) ≡ some (fields_of b)
  unfolding read_fields saved_bus bus_members lookup text_eq
  read_fields-saved b t =
      let fs = bus_members json b in
      rw (text_at-saved (codes "name") (codes "Bus") b.name fs refl) (
        rw (text_at-saved (codes "bind_host") (codes "0.0.0.0") b.bind_host fs refl) (
          rw (port_at-saved (codes "bind_port") 9000 b.bind_port fs t.bind_port refl) (
            rw (text_at-saved (codes "target_host") (codes "127.0.0.1") b.target_host fs refl) (
              rw (port_at-saved (codes "target_port") 0 b.target_port fs t.target_port refl) (
                rw (text_at-saved (codes "record_path") [] b.record_path fs refl) (
                  rw (text_at-saved (codes "replay_path") [] b.replay_path fs refl) (
                    rw
                      (text_at-saved (codes "forward_host") (codes "127.0.0.1") b.forward_host fs
                        refl)
                      (rw
                        (port_at-saved (codes "forward_port") 9000 b.forward_port fs t.forward_port
                          refl)
                        refl))))))))

  pub loaded-fields :
      (id : ℕ) (b : Bus) → IsTidy b → fields_of (loaded_bus id (fields_of b)) ≡ fields_of b
  unfolding loaded_bus fresh_bus
  loaded-fields id b t = rw (copied-Held 63 b.bind_host t.bind_host) (
      rw (copied-Held 63 b.target_host t.target_host) (
        rw (copied-Held 255 b.record_path t.record_path) (
          rw (copied-Held 255 b.replay_path t.replay_path)
            (rw (copied-Held 63 b.forward_host t.forward_host) refl))))

  pub read_bus-saved :
      (id : ℕ) (b : Bus)
      → IsTidy b
      → read_bus json id (saved_bus json b) ≡ some (loaded_bus id (fields_of b))
  unfolding read_bus bus_of_fields
  read_bus-saved id b t = rw (read_fields-saved b t) refl
