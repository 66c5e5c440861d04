-- ===== src/Gui/Model/Projects.antt =====
-- vbus-gui/src/project.cpp, and `loadProject` and `saveProject` of model.cpp. JSON is a library.
pub mod Preserved
pub mod Saved
pub mod Reload
mod Tests
use open_vbus.Base.{
  ℕ, ◌+◌, ◌%◌, ◌^◌, Bool, true, false, Option, none, some, ◌>>=◌, List, [], ◌∷◌, ◌++◌, Text, codes,
  if◌then◌else◌,
}
use open_vbus.Gui.Model.{Bus, Model, fresh_bus, copied}
use open_vbus.Gui.Model.Buses.{first_id}

-- The operations of nlohmann::json that project.cpp uses. `none` is an exception; `find` is `none`
-- for a key that is not there, and `members` are what a range-for goes over.
pub record Json (J : Type 0) : Type 0 where
  pub of_text : Text → J
  pub of_number : ℕ → J
  pub of_float : ℕ → J
  pub of_list : List J → J
  pub of_object : List (Text × J) → J
  pub get_text : J → Option Text
  pub get_number : J → Option ℕ
  pub get_float : J → Option ℕ
  pub is_object : J → Bool
  pub find : Text → J → Option J
  pub members : J → List J
  pub parse : Text → Option J
  pub dump : J → Option Text

pub record Fields : Type 0 where
  pub name : Text
  pub bind_host : Text
  pub bind_port : ℕ
  pub target_host : Text
  pub target_port : ℕ
  pub record_path : Text
  pub replay_path : Text
  pub forward_host : Text
  pub forward_port : ℕ

-- the bus with the fields, each cut to its array
unfoldable pub loaded_bus : ℕ → Fields → Bus
unfolding copied fresh_bus
loaded_bus id f = record (fresh_bus id f.name) {
  bind_host = copied 63 f.bind_host;
  bind_port = f.bind_port;
  target_host = copied 63 f.target_host;
  target_port = f.target_port;
  record_path = copied 255 f.record_path;
  replay_path = copied 255 f.replay_path;
  forward_host = copied 63 f.forward_host;
  forward_port = f.forward_port;
}

unfoldable pub bus_of_fields : ℕ → Option Fields → Option Bus
unfolding loaded_bus
bus_of_fields id none = none
bus_of_fields id (some f) = some (loaded_bus id f)

module _ {J : Type 0} (json : Json J) where
  unfoldable pub bus_members : Bus → List (Text × J)
  bus_members b =
      (codes "name", json.of_text b.name)
      ∷ (codes "bind_host", json.of_text b.bind_host)
      ∷ (codes "bind_port", json.of_number b.bind_port)
      ∷ (codes "target_host", json.of_text b.target_host)
      ∷ (codes "target_port", json.of_number b.target_port)
      ∷ (codes "record_path", json.of_text b.record_path)
      ∷ (codes "replay_path", json.of_text b.replay_path)
      ∷ (codes "forward_host", json.of_text b.forward_host)
      ∷ (codes "forward_port", json.of_number b.forward_port)
      ∷ []

  unfoldable pub saved_bus : Bus → J
  unfolding bus_members
  saved_bus b = json.of_object (bus_members b)

  unfoldable pub saved_buses : List Bus → List J
  unfolding saved_bus
  saved_buses [] = []
  saved_buses (b ∷ bs) = saved_bus b ∷ saved_buses bs

  unfoldable pub state_members : {S : Type 0} → Model S → List (Text × J)
  unfolding saved_buses
  state_members m =
      (codes "version", json.of_number 1)
      ∷ (codes "record_all_prefix", json.of_text m.record_all_prefix)
      ∷ (codes "replay_all_mode", json.of_text m.replay_all_mode)
      ∷ (codes "replay_all_scale", json.of_float m.replay_all_scale)
      ∷ (codes "buses", json.of_list (saved_buses m.buses))
      ∷ []

  unfoldable pub saved_state : {S : Type 0} → Model S → J
  unfolding state_members
  saved_state m = json.of_object (state_members m)

  -- `jb.value(key, default)`
  value_of : {A : Type 0} → (J → Option A) → A → Option J → Option A
  value_of get default none = some default
  value_of get default (some v) = get v

  unfoldable pub value : {A : Type 0} → (J → Option A) → Text → A → J → Option A
  unfolding value_of
  value get key default j =
      let found = value_of get default (json.find key j) in if json.is_object j then found else none

  unfoldable pub text_at : Text → Text → J → Option Text
  unfolding value
  text_at = value json.get_text

  -- a `uint16_t`
  port_in : Option ℕ → Option ℕ
  port_in none = none
  port_in (some n) = some (n % 2 ^ 16)

  unfoldable pub port_at : Text → ℕ → J → Option ℕ
  unfolding value port_in
  port_at = value (λ v. port_in (json.get_number v))

  -- the fields of one element of `buses`
  unfoldable pub read_fields : J → Option Fields
  unfolding text_at port_at
  read_fields j = text_at (codes "name") (codes "Bus") j >>= (λ name.
      text_at (codes "bind_host") (codes "0.0.0.0") j >>= (λ bind_host.
        port_at (codes "bind_port") 9000 j >>= (λ bind_port.
          text_at (codes "target_host") (codes "127.0.0.1") j >>= (λ target_host.
            port_at (codes "target_port") 0 j >>= (λ target_port.
              text_at (codes "record_path") [] j >>= (λ record_path.
                text_at (codes "replay_path") [] j >>= (λ replay_path.
                  text_at (codes "forward_host") (codes "127.0.0.1") j >>= (λ forward_host.
                    port_at (codes "forward_port") 9000 j >>= (λ forward_port. some (record {
                      name = name;
                      bind_host = bind_host;
                      bind_port = bind_port;
                      target_host = target_host;
                      target_port = target_port;
                      record_path = record_path;
                      replay_path = replay_path;
                      forward_host = forward_host;
                      forward_port = forward_port;
                    }))))))))))

  unfoldable pub read_bus : ℕ → J → Option Bus
  unfolding bus_of_fields read_fields
  read_bus id j = bus_of_fields id (read_fields j)

  -- What is done when no exception has been thrown yet; the flag is false after one.
  then_do : {S : Type 0} → Bool × Model S → (Model S → Bool × Model S) → Bool × Model S
  then_do (true, m) f = f m
  then_do (false, m) f = (false, m)

  push_read : {S : Type 0} → Option Bus → Model S → Bool × Model S
  push_read none m = (false, m)
  push_read (some b) m = (true, record m { buses = m.buses ++ b ∷ [] })

  -- the number of a bus is drawn before its fields are read
  load_buses : {S : Type 0} → List J → Model S → Bool × Model S
  unfolding then_do push_read read_bus
  load_buses [] m = (true, m)
  load_buses (j ∷ js) m =
      then_do (push_read (read_bus m.next j) (record m { next = (m.next + 1) % 2 ^ 32 }))
        (load_buses js)

  set_prefix : {S : Type 0} → Option Text → Model S → Bool × Model S
  unfolding copied
  set_prefix none m = (false, m)
  set_prefix (some s) m = (true, record m { record_all_prefix = copied 255 s })

  set_mode : {S : Type 0} → Option Text → Model S → Bool × Model S
  unfolding copied
  set_mode none m = (false, m)
  set_mode (some s) m = (true, record m { replay_all_mode = copied 15 s })

  set_scale : {S : Type 0} → Option ℕ → Model S → Bool × Model S
  set_scale none m = (false, m)
  set_scale (some x) m = (true, record m { replay_all_scale = x })

  -- `if (j.contains(key))`
  if_there : {S : Type 0} → (J → Model S → Bool × Model S) → Option J → Model S → Bool × Model S
  if_there set none m = (true, m)
  if_there set (some v) m = set v m

  prefix_at : {S : Type 0} → J → Model S → Bool × Model S
  unfolding if_there set_prefix
  prefix_at j m =
      if_there (λ v. set_prefix (json.get_text v)) (json.find (codes "record_all_prefix") j) m

  mode_at : {S : Type 0} → J → Model S → Bool × Model S
  unfolding if_there set_mode
  mode_at j m = if_there (λ v. set_mode (json.get_text v)) (json.find (codes "replay_all_mode") j) m

  scale_at : {S : Type 0} → J → Model S → Bool × Model S
  unfolding if_there set_scale
  scale_at j m =
      if_there (λ v. set_scale (json.get_float v)) (json.find (codes "replay_all_scale") j) m

  load_settings : {S : Type 0} → J → Model S → Bool × Model S
  unfolding then_do prefix_at mode_at scale_at
  load_settings j m = then_do (then_do (prefix_at j m) (mode_at j)) (scale_at j)

  -- `j.value("buses", json::array())`
  buses_in : Option (List J) → {S : Type 0} → Model S → Bool × Model S
  unfolding load_buses
  buses_in none m = (false, m)
  buses_in (some js) m = load_buses js m

  load_list : {S : Type 0} → J → Model S → Bool × Model S
  unfolding buses_in value
  load_list j m =
      buses_in (value (λ v. some (json.members v)) (codes "buses") [] j)
        (record m { buses = []; selected_bus = 0 })

  finish_load : {S : Type 0} → Model S → Bool × Model S
  unfolding first_id
  finish_load m = (true, record m { selected_bus = first_id m.buses; needs_daemon_sync = true })

  load_parsed : {S : Type 0} → Option J → Model S → Bool × Model S
  unfolding then_do load_settings load_list finish_load
  load_parsed none m = (false, m)
  load_parsed (some j) m = then_do (then_do (load_settings j m) (load_list j)) finish_load

  unfoldable pub load_text : {S : Type 0} → Option Text × S → Model S → Bool × Model S
  unfolding load_parsed
  load_text (none, s) m = (false, record m { world = s })
  load_text (some text, s) m = load_parsed (json.parse text) (record m { world = s })
