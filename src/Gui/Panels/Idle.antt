-- ===== src/Gui/Panels/Idle.antt =====
-- Screens in which the user does nothing, and what steps do with them.
use open_vbus.Base.{
  ℕ, ◌≡◌, ◌==◌, ◌∙◌, refl, ap, Bool, true, false, ◌&&◌, ◌||◌, none, List, [], ◌∷◌, Text, if_cases,
  if◌then◌else◌,
}
use open_vbus.Gui.Model.{Bus, Model}
use open_vbus.Gui.Panels.{Widget, Screen, Step, then_step, step_if, at_id}

-- Nothing is clicked and nothing is edited; headers, menus and dialogs may be open.
abbrev pub idle : (Widget → Bool) → (ℕ → Text) → Screen
idle opened float_text = record {
  clicked = λ w. false;
  opened = opened;
  checkbox = λ w b. b;
  combo = λ w n i. none;
  input_text = λ w n t. none;
  input_number = λ w n. n;
  input_float = λ w x. x;
  float_text = float_text;
}

pub and_false : (b : Bool) → (b && false) ≡ false
and_false true = refl
and_false false = refl

pub and_true : (b : Bool) → (b && true) ≡ b
and_true true = refl
and_true false = refl

pub or_false : (b : Bool) → (b || false) ≡ b
or_false true = refl
or_false false = refl

pub if_same {ℓ} : {A : Type ℓ} (b : Bool) (x : A) → (if b then x else x) ≡ x
if_same true x = refl
if_same false x = refl

-- a branch that needs a click
pub not_taken {ℓ} : {A : Type ℓ} (b : Bool) (x y : A) → (if b && false then x else y) ≡ y
not_taken true x y = refl
not_taken false x y = refl

pub at_id_idle :
    {S : Type 0} (f : Step S) (id : ℕ) (bs : List Bus) (m : Model S)
    → ((b : Bus) → f b m ≡ (b, m))
    → at_id f id bs m ≡ (bs, m)
unfolding at_id
at_id_idle {S} f id [] m same = refl
at_id_idle {S} f id (b ∷ bs) m same =
    if_cases (λ v. v ≡ (b ∷ bs, m)) (b.id == id) _ _
      (λ _. ap (λ (r : Bus × Model S). (r.0 ∷ bs, r.1)) (same b))
      (λ _. ap (λ (r : List Bus × Model S). (b ∷ r.0, r.1)) (at_id_idle f id bs m same))

abbrev pub Idle : {S : Type 0} → Step S → Type 0
Idle {S} f = (b : Bus) (m : Model S) → f b m ≡ (b, m)

pub then_step-Idle : {S : Type 0} (f g : Step S) → Idle f → Idle g → Idle (then_step f g)
unfolding then_step
then_step-Idle {S} f g hf hg b m = ap (λ (r : Bus × Model S). g r.0 r.1) (hf b m) ∙ hg b m

pub step_if-Idle : {S : Type 0} (c : Bool) (f : Step S) → Idle f → Idle (step_if c f)
unfolding step_if
step_if-Idle c f hf b m = if_cases (λ v. v ≡ (b, m)) c (f b m) (b, m) (λ _. hf b m) (λ _. refl)
