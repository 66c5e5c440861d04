-- ===== src/Gui/Model/Projects/Tests.antt =====
-- Values that remember what they were made of, and a project of one bus.
use open_vbus.Base.{
  ℕ, zero, suc, ◌≡◌, refl, ap, Bool, true, false, Option, none, some, List, [], ◌∷◌, Text, codes,
  lookup, All, length, arith, if◌then◌else◌,
}
use open_vbus.Gui.Model.{Model, fresh_bus, c_str}
use open_vbus.Gui.Model.Projects.{
  Json, saved_bus, bus_members, saved_buses, saved_state, state_members, load_text,
}
use open_vbus.Gui.Model.Projects.Saved.{IsFaithful, IsHeld, IsTidy}
use open_vbus.Gui.Model.Projects.Reload.{Reloads, load_text-saved}

data Value : Type 0 where
  missing : Value
  text : Text → Value
  number float : ℕ → Value
  object : (Text → Bool) → (Text → Value) → Value
  list : ℕ → (ℕ → Value) → Value

abbrev is_there : Option Value → Bool
is_there none = false
is_there (some v) = true

abbrev or_missing : Option Value → Value
or_missing none = missing
or_missing (some v) = v

abbrev nth : List Value → ℕ → Value
nth [] i = missing
nth (v ∷ vs) zero = v
nth (v ∷ vs) (suc i) = nth vs i

abbrev tabulate : ℕ → (ℕ → Value) → List Value
tabulate zero f = []
tabulate (suc n) f = f zero ∷ tabulate n (λ i. f (suc i))

tabulate-nth : (vs : List Value) → tabulate (length vs) (nth vs) ≡ vs
tabulate-nth [] = refl
tabulate-nth (v ∷ vs) = ap (◌∷◌ v) (tabulate-nth vs)

abbrev text_of : Value → Option Text
text_of (text s) = some s
text_of _ = none

abbrev number_of : Value → Option ℕ
number_of (number n) = some n
number_of _ = none

abbrev float_of : Value → Option ℕ
float_of (float n) = some n
float_of _ = none

abbrev has_members : Value → Bool
has_members (object has at) = true
has_members _ = false

abbrev member : Text → Value → Option Value
member k (object has at) = if has k then some (at k) else none
member k _ = none

abbrev elements : Value → List Value
elements (list n f) = tabulate n f
elements _ = []

abbrev plain : Json Value
plain = record {
  of_text = text;
  of_number = number;
  of_float = float;
  of_list = λ vs. list (length vs) (nth vs);
  of_object = λ fs. object (λ k. is_there (lookup k fs)) (λ k. or_missing (lookup k fs));
  get_text = text_of;
  get_number = number_of;
  get_float = float_of;
  is_object = has_members;
  find = member;
  members = elements;
  parse = λ file. none;
  dump = λ v. none;
}

found_again : (o : Option Value) → (if is_there o then some (or_missing o) else none) ≡ o
found_again none = refl
found_again (some v) = refl

abbrev project : Model ℕ
project = record {
  buses = fresh_bus 1 (codes "a") ∷ [];
  selected_bus = 1;
  daemon_connected = false;
  log_lines = [];
  record_all_prefix = codes "capture";
  global_recording = false;
  replay_all_mode = codes "exact";
  replay_all_scale = 0x3f800000;
  global_replaying = false;
  project_path = [];
  needs_daemon_sync = false;
  tick_ns = 0;
  last_ping = 0;
  ifaces = [];
  subs = [];
  frame_queue = [];
  threads = [];
  next = 2;
  world = 0;
}

abbrev one_file : Json Value
one_file = record plain { parse = λ file. some (saved_state plain project) }

one_file-IsFaithful : IsFaithful one_file
one_file-IsFaithful = record {
  object = λ fs. refl;
  find = λ k fs. found_again (lookup k fs);
  text = λ s. refl;
  number = λ n. refl;
  float = λ n. refl;
  list = tabulate-nth;
}

project-IsTidy : All IsTidy project.buses
unfolding fresh_bus c_str
project-IsTidy = (
  record {
    bind_host = record { short = omega arith; whole = refl };
    bind_port = omega arith;
    target_host = record { short = omega arith; whole = refl };
    target_port = omega arith;
    record_path = record { short = omega arith; whole = refl };
    replay_path = record { short = omega arith; whole = refl };
    forward_host = record { short = omega arith; whole = refl };
    forward_port = omega arith;
  },
  tt,
)

prefix-IsHeld : IsHeld 255 project.record_all_prefix
unfolding c_str
prefix-IsHeld = record { short = omega arith; whole = refl }

mode-IsHeld : IsHeld 15 project.replay_all_mode
unfolding c_str
mode-IsHeld = record { short = omega arith; whole = refl }

parsed : one_file.parse (codes "p") ≡ some (saved_state one_file project)
unfolding saved_state state_members saved_buses saved_bus bus_members
parsed = refl

load_text-saved_example :
    Reloads one_file one_file-IsFaithful project
      (load_text one_file (some (codes "p"), 0) (record project { buses = [] }))
load_text-saved_example =
    load_text-saved one_file one_file-IsFaithful project (record project { buses = [] }) 0
      (codes "p") parsed prefix-IsHeld mode-IsHeld project-IsTidy
