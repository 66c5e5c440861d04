-- ===== src/Gui/Model/Invariant/Whole.antt =====
-- The invariant between the operations, and the loops over all buses.
use open_vbus.Base.{
  ap₂, inr, sym, inl, All, subst, ℕ, ◌≤◌, ◌≡◌, refl, ◌⊎◌, List, [], ◌∷◌, Text, length,
}
use open_vbus.Gui.Client.Commands.{DaemonClient}
use open_vbus.Gui.Model.{Mock, for_buses, each, Bus, Model, Surroundings, add_log}
use open_vbus.Gui.Model.Invariant.Holding.{Known, Keyed, ids_of, IsFit, Holds, Stays, add_log-Holds}

-- The parts of the model that the invariant is about; the selection is 0 or the number of a bus.
pub record Sound (log_lines : List Text) (bs : List Bus) (subscribers : List (ℕ × DaemonClient))
    (backends : List (ℕ × Mock)) (sel : ℕ) : Type 0 where
  pub log : length log_lines ≤ 1024
  pub fits : All IsFit bs
  pub subs : Keyed (λ i. Known i (ids_of bs)) subscribers
  pub ifaces : Keyed (λ i. Known i (ids_of bs)) backends
  pub selected : (sel ≡ 0) ⊎ Known sel (ids_of bs)

-- The invariant of the whole model.
abbrev pub IsSound : {S : Type 0} → Model S → Type 0
IsSound m = Sound m.log_lines m.buses m.subs m.ifaces m.selected_bus

-- What an operation on one bus of the list has to do.
abbrev pub Keeps : {S : Type 0} → (Bus → Model S → Bus × Model S) → Type 1
Keeps {S} f =
    (bs : List Bus) (sel : ℕ) (P Q : ℕ → Type 0) (b : Bus) (m : Model S)
    → P b.id
    → Q b.id
    → IsFit b
    → Holds bs sel P Q m
    → Stays bs sel P Q b (f b m)

-- The buses keep their numbers and their bounds, and the rest of the model holds.
pub record Together {S : Type 0} (bs : List Bus) (sel : ℕ) (P Q : ℕ → Type 0) (cs : List Bus)
    (r : List Bus × Model S) : Type 0 where
  pub same : ids_of r.0 ≡ ids_of cs
  pub fits : All IsFit r.0
  pub held : Holds bs sel P Q r.1

module _ {S : Type 0} (f : Bus → Model S → Bus × Model S) (keeps : Keeps f) where
  each-Together :
      (bs : List Bus) (sel : ℕ) (P Q : ℕ → Type 0) (cs : List Bus) (m : Model S)
      → ((i : ℕ) → Known i (ids_of cs) → P i × Q i)
      → All IsFit cs
      → Holds bs sel P Q m
      → Together bs sel P Q cs (each f cs m)
  unfolding each
  each-Together bs sel P Q [] m k fs h = record { same = refl; fits = tt; held = h }
  each-Together bs sel P Q (c ∷ cs) m k (fc, fs) h =
      let one = keeps bs sel P Q c m (k c.id (inl refl)).0 (k c.id (inl refl)).1 fc h in
      let more = each-Together bs sel P Q cs (f c m).1 (λ i e. k i (inr e)) fs one.held in
      record { same = ap₂ (◌∷◌) one.same more.same; fits = (one.fit, more.fits); held = more.held }

pub Model-Holds :
    {S : Type 0} (m : Model S)
    → IsSound m
    → Holds m.buses m.selected_bus (λ i. Known i (ids_of m.buses)) (λ i. Known i (ids_of m.buses)) m
Model-Holds m s = record {
  log = s.log;
  kept = refl;
  selected = refl;
  subs = s.subs;
  ifaces = s.ifaces;
}

-- From the parts back to the whole.
pub Together-IsSound :
    {S : Type 0} (m : Model S) (cs : List Bus) (m' : Model S)
    → IsSound m
    → Together m.buses m.selected_bus
        (λ i. Known i (ids_of m.buses))
        (λ i. Known i (ids_of m.buses))
        m.buses
        (cs, m')
    → IsSound (record m' { buses = cs })
Together-IsSound m cs m' s t = record {
  log = t.held.log;
  fits = t.fits;
  subs = subst (λ ids. Keyed (λ i. Known i ids) m'.subs) (sym t.same) t.held.subs;
  ifaces = subst (λ ids. Keyed (λ i. Known i ids) m'.ifaces) (sym t.same) t.held.ifaces;
  selected =
      subst (λ ids. (m'.selected_bus ≡ 0) ⊎ Known m'.selected_bus ids) (sym t.same)
        (subst (λ n. (n ≡ 0) ⊎ Known n (ids_of m.buses)) (sym t.held.selected) s.selected);
}

-- The same after an operation that leaves the list alone.
pub Holds-IsSound :
    {S : Type 0} (m m' : Model S)
    → IsSound m
    → Holds m.buses m.selected_bus
        (λ i. Known i (ids_of m.buses))
        (λ i. Known i (ids_of m.buses))
        m'
    → IsSound m'
Holds-IsSound m m' s h = record {
  log = h.log;
  fits = subst (All IsFit) (sym h.kept) s.fits;
  subs = subst (λ bs. Keyed (λ i. Known i (ids_of bs)) m'.subs) (sym h.kept) h.subs;
  ifaces = subst (λ bs. Keyed (λ i. Known i (ids_of bs)) m'.ifaces) (sym h.kept) h.ifaces;
  selected =
      subst (λ bs. (m'.selected_bus ≡ 0) ⊎ Known m'.selected_bus (ids_of bs)) (sym h.kept)
        (subst (λ n. (n ≡ 0) ⊎ Known n (ids_of m.buses)) (sym h.selected) s.selected);
}

pub for_buses-IsSound :
    {S : Type 0} (f : Bus → Model S → Bus × Model S)
    → Keeps f
    → (m : Model S) → IsSound m
    → IsSound (for_buses f m)
unfolding for_buses
for_buses-IsSound f keeps m s = Together-IsSound m (each f m.buses m).0 (each f m.buses m).1 s (
    each-Together f keeps m.buses m.selected_bus (λ i. Known i (ids_of m.buses))
      (λ i. Known i (ids_of m.buses)) m.buses m (λ i e. (e, e)) s.fits (Model-Holds m s))

pub add_log-IsSound :
    {S : Type 0} (gui : Surroundings S) (msg : Text) (m : Model S)
    → IsSound m
    → IsSound (add_log gui msg m)
add_log-IsSound gui msg m s =
    Holds-IsSound m (add_log gui msg m) s (add_log-Holds gui _ _ _ _ msg m (Model-Holds m s))
