-- ===== src/Gui/Panels/Kept.antt =====
-- Steps on the selected bus keep the invariant of the model.
use open_vbus.Base.{
  ℕ, ◌≡◌, ◌==◌, Bool, refl, sym, subst, ap, ◌∙◌, inl, inr, List, [], ◌∷◌, All, if_cases,
}
use open_vbus.Gui.Model.{Bus, Model}
use open_vbus.Gui.Model.Invariant.{
  Known, ids_of, IsFit, IsSound, Holds, Stays, Keeps, Together, Together-IsSound, Model-Holds,
}
use open_vbus.Gui.Panels.{Step, then_step, step_if, edit_bus, at_id, on_selected}

module _ {S : Type 0} (f : Step S) (keeps : Keeps f) where
  pub then_step-Keeps : (g : Step S) → Keeps g → Keeps (then_step f g)
  unfolding then_step
  then_step-Keeps g more bs sel P Q b m p q fit h =
      let one = keeps bs sel P Q b m p q fit h in
      let two =
        more bs sel P Q (f b m).0 (f b m).1 (subst P (sym one.same) p) (subst Q (sym one.same) q)
          one.fit one.held in
      record { same = two.same ∙ one.same; fit = two.fit; held = two.held }

  pub step_if-Keeps : (c : Bool) → Keeps (step_if c f)
  unfolding step_if
  step_if-Keeps c bs sel P Q b m p q fit h =
      if_cases (Stays bs sel P Q b) c (f b m) (b, m) (λ _. keeps bs sel P Q b m p q fit h)
        (λ _. record { same = refl; fit = fit; held = h })

  at_id-Together :
      (bs : List Bus) (sel : ℕ) (P Q : ℕ → Type 0) (id : ℕ) (cs : List Bus) (m : Model S)
      → ((i : ℕ) → Known i (ids_of cs) → P i × Q i)
      → All IsFit cs
      → Holds bs sel P Q m
      → Together bs sel P Q cs (at_id f id cs m)
  unfolding at_id
  at_id-Together bs sel P Q id [] m k fs h = record { same = refl; fits = tt; held = h }
  at_id-Together bs sel P Q id (c ∷ cs) m k (fc, fs) h =
      let one = keeps bs sel P Q c m (k c.id (inl refl)).0 (k c.id (inl refl)).1 fc h in
      let more = at_id-Together bs sel P Q id cs m (λ i e. k i (inr e)) fs h in
      if_cases (Together bs sel P Q (c ∷ cs)) (c.id == id) _ _
        (λ _. record {
          same = ap (λ i. i ∷ ids_of cs) one.same;
          fits = (one.fit, fs);
          held = one.held;
        })
        (λ _. record { same = ap (◌∷◌ c.id) more.same; fits = (fc, more.fits); held = more.held })

  pub on_selected-IsSound : (m : Model S) → IsSound m → IsSound (on_selected f m)
  unfolding on_selected
  on_selected-IsSound m s =
      let r = at_id f m.selected_bus m.buses m in
      Together-IsSound m r.0 r.1 s (
        at_id-Together m.buses m.selected_bus (λ i. Known i (ids_of m.buses))
          (λ i. Known i (ids_of m.buses)) m.selected_bus m.buses m (λ i e. (e, e)) s.fits
          (Model-Holds m s))

pub edit_bus-Keeps :
    {S : Type 0} (f : Bus → Bus)
    → ((b : Bus) → (f b).id ≡ b.id)
    → ((b : Bus) → IsFit b → IsFit (f b))
    → Keeps {S = S} (edit_bus f)
unfolding edit_bus
edit_bus-Keeps f same fits bs sel P Q b m p q fit h = record {
  same = same b;
  fit = fits b fit;
  held = h;
}
