-- ===== src/Gui/Model/Invariant/Holding.antt =====
-- What an operation keeps of the model while the list of buses is in use.
use open_vbus.Base.{
  if_cases, ℕ, ◌≤◌, ◌≡◌, ◌≢◌, ◌==◌, ◌⊎◌, Option, none, some, List, [], ◌∷◌, ◌++◌, Text, length,
  length-take, arith, length-append,
}
use open_vbus.Gui.Client.Commands.{DaemonClient}
use open_vbus.Gui.Model.Capture.{erase_id}
use open_vbus.Gui.Model.{
  copied, c_str, Mock, Bus, Model, Surroundings, trimmed_log, add_log, received, ask,
}

pub length-copied : (n : ℕ) (s : Text) → length (copied n s) ≤ n
unfolding copied
length-copied n s = omega (arith, length-take n (c_str s))

abbrev pub Known : ℕ → List ℕ → Type 0
Known i [] = ⊥
Known i (j ∷ js) = (j ≡ i) ⊎ Known i js

-- Every key of the map is such a number.
abbrev pub Keyed : {A : Type 0} → (ℕ → Type 0) → List (ℕ × A) → Type 0
Keyed P [] = Unit {0}
Keyed P ((i, a) ∷ rest) = P i × Keyed P rest

abbrev pub ids_of : List Bus → List ℕ
ids_of [] = []
ids_of (b ∷ bs) = b.id ∷ ids_of bs

-- 4,096 packets at most, and a path that fits in its array.
pub record IsFit (b : Bus) : Type 0 where
  pub ring : length b.ring ≤ 4096
  pub path : length b.record_path ≤ 255

-- The log has 1,024 lines at most, and its maps are keyed by such numbers; `bs` and `sel` are the
-- buses and the selection.
pub record Holds {S : Type 0} (bs : List Bus) (sel : ℕ) (P Q : ℕ → Type 0) (m : Model S)
    : Type 0 where
  pub log : length m.log_lines ≤ 1024
  pub kept : m.buses ≡ bs
  pub selected : m.selected_bus ≡ sel
  pub subs : Keyed P m.subs
  pub ifaces : Keyed Q m.ifaces

-- An operation on one bus keeps its number and its bounds, and the rest of the model.
pub record Stays {S : Type 0} (bs : List Bus) (sel : ℕ) (P Q : ℕ → Type 0) (b : Bus)
    (r : Bus × Model S) : Type 0 where
  pub same : r.0.id ≡ b.id
  pub fit : IsFit r.0
  pub held : Holds bs sel P Q r.1

length-trimmed : (lines : List Text) → length lines ≤ 1025 → length (trimmed_log lines) ≤ 1024
unfolding trimmed_log
length-trimmed [] h = omega arith
length-trimmed (l ∷ ls) h = ground arith

module _ {S : Type 0} (gui : Surroundings S) (bs : List Bus) (sel : ℕ) (P Q : ℕ → Type 0) where
  pub add_log-Holds :
      (msg : Text) (m : Model S) → Holds bs sel P Q m → Holds bs sel P Q (add_log gui msg m)
  unfolding add_log
  add_log-Holds msg m h = record {
    log =
        length-trimmed (m.log_lines ++ (gui.stamp m.tick_ns ++ msg) ∷ [])
          (omega (arith, h.log, length-append m.log_lines ((gui.stamp m.tick_ns ++ msg) ∷ [])));
    kept = h.kept;
    selected = h.selected;
    subs = h.subs;
    ifaces = h.ifaces;
  }

  received-Holds :
      (r : Option Text × S) (m : Model S)
      → Holds bs sel P Q m
      → Holds bs sel P Q (received gui r m).1
  unfolding received
  received-Holds (none, s) m h = record {
    log = h.log;
    kept = h.kept;
    selected = h.selected;
    subs = h.subs;
    ifaces = h.ifaces;
  }
  received-Holds (some resp, s) m h = record {
    log = h.log;
    kept = h.kept;
    selected = h.selected;
    subs = h.subs;
    ifaces = h.ifaces;
  }

  pub ask-Holds :
      (cmd : Text) (m : Model S) → Holds bs sel P Q m → Holds bs sel P Q (ask gui cmd m).1
  unfolding ask
  ask-Holds cmd m h = received-Holds _ m h

module _ {S : Type 0} (bs : List Bus) (sel : ℕ) (P Q R : ℕ → Type 0) where
  pub ifaces-Holds :
      (ks : List (ℕ × Mock)) (m : Model S)
      → Keyed R ks
      → Holds bs sel P Q m
      → Holds bs sel P R (record m { ifaces = ks })
  ifaces-Holds ks m k h = record {
    log = h.log;
    kept = h.kept;
    selected = h.selected;
    subs = h.subs;
    ifaces = k;
  }

  pub subs-Holds :
      (ks : List (ℕ × DaemonClient)) (m : Model S)
      → Keyed R ks
      → Holds bs sel P Q m
      → Holds bs sel R Q (record m { subs = ks })
  subs-Holds ks m k h = record {
    log = h.log;
    kept = h.kept;
    selected = h.selected;
    subs = k;
    ifaces = h.ifaces;
  }

pub erase_id-Keyed :
    {A : Type 0} (P : ℕ → Type 0) (id : ℕ) (ks : List (ℕ × A))
    → Keyed P ks
    → Keyed (λ i. P i × (i ≢ id)) (erase_id id ks)
unfolding erase_id
erase_id-Keyed P id [] h = tt
erase_id-Keyed P id ((i, a) ∷ ks) (h, hs) =
    if_cases (Keyed (λ i. P i × (i ≢ id))) (i == id) _ _ (λ _. erase_id-Keyed P id ks hs)
      (λ e. ((h, (λ eq. absurd (ground arith))), erase_id-Keyed P id ks hs))

pub Keyed-mono :
    {A : Type 0} (P Q : ℕ → Type 0) (ks : List (ℕ × A))
    → ((i : ℕ) → P i → Q i)
    → Keyed P ks
    → Keyed Q ks
Keyed-mono P Q [] f h = tt
Keyed-mono P Q ((i, a) ∷ ks) f (h, hs) = (f i h, Keyed-mono P Q ks f hs)
