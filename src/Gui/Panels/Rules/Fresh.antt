-- ===== src/Gui/Panels/Rules/Fresh.antt =====
-- The rules that the buttons of the filter panel add.
use open_vbus.Base.{
  ◌≢◌, ℕ, ◌+◌, ◌<◌, ◌≡◌, ◌^◌, ◌∙◌, refl, ap, true, false, not, List, [], ◌∷◌, ◌++◌, Text, codes,
  to_string, ◌==◌, if_cases, if◌then◌else◌, arith,
}
use open_vbus.Gui.Filters.{
  include, exclude, FilterRule, after_star, glob_loop, glob_match, refuses, repr, passes_rules,
  passes_filters,
}
use open_vbus.Gui.Panels.{Screen}
use open_vbus.Gui.Panels.Rules.{add_rules, on_filters}
use open_vbus.Daemon.Numbers.Print.{Begins, begins, digits_of-Begins}

-- a last rule that refuses nothing
passes_rules-append :
    (rs : List FilterRule) (r : FilterRule) (text : Text)
    → refuses r.type (glob_match r.expr text) ≡ false
    → passes_rules (rs ++ r ∷ []) text ≡ passes_rules rs text
unfolding passes_rules
passes_rules-append [] r text e = rw e
passes_rules-append (q ∷ rs) r text e =
    ap (λ b. if refuses q.type (glob_match q.expr text) then false else b)
      (passes_rules-append rs r text e)

after_star_all : (t : Text) → after_star (glob_loop []) t ≡ true
unfolding after_star glob_loop
after_star_all [] = refl
after_star_all (x ∷ t) = after_star_all t

-- A last `*` takes any text that does not begin with a star.
last_star : (x : ℕ) (t : Text) → x ≢ b'*' → glob_loop (b'*' ∷ []) (x ∷ t) false ≡ true
unfolding glob_loop
last_star x t h = let other : (b'*' == x) ≡ false = ground arith in rw other (after_star_all t)

starred : (s rest : Text) → Begins s → glob_loop (b'*' ∷ []) (s ++ rest) false ≡ true
starred s rest (begins d t h) = last_star (48 + d) (t ++ rest) (λ e. absurd (omega arith))

pub to_string-Begins : (n : ℕ) → n < 2 ^ 32 → Begins (to_string n)
unfolding to_string
to_string-Begins n h = digits_of-Begins 20 n [] (omega (arith, h)) (omega arith)

vlan_star : (vlan size : ℕ) → vlan < 2 ^ 32 → glob_match (codes "vlan:*") (repr vlan size) ≡ true
unfolding glob_match repr glob_loop
vlan_star vlan size h = starred (to_string vlan) _ (to_string-Begins vlan h)

size_star : (vlan size : ℕ) → glob_match (codes "size:*") (repr vlan size) ≡ false
unfolding glob_match repr glob_loop
size_star vlan size = refl

-- The rules that `+ Include` and `+ Exclude` put at the end let the same packets pass as before, whatever
-- the VLAN and the size of the packet are as 32-bit numbers.
pub new_rules_pass :
    (screen : Screen) (rs : List FilterRule) (vlan size : ℕ)
    → vlan < 2 ^ 32
    → passes_filters (add_rules screen rs) vlan size ≡ passes_filters rs vlan size
unfolding add_rules passes_filters refuses
new_rules_pass screen rs vlan size h =
    if_cases Same (screen.clicked (on_filters (codes "+ Exclude"))) _ _
      (λ _.
        passes_rules-append _ (record { type = exclude; expr = codes "size:*" }) (repr vlan size)
          (size_star vlan size)
        ∙ included)
      (λ _. included)
  where
    Same : List FilterRule → Type 0
    Same qs = passes_rules qs (repr vlan size) ≡ passes_rules rs (repr vlan size)

    included :
        passes_rules
          (if screen.clicked (on_filters (codes "+ Include"))
            then rs ++ record { type = include; expr = codes "vlan:*" } ∷ []
            else rs)
          (repr vlan size)
        ≡ passes_rules rs (repr vlan size)
    included =
        if_cases Same (screen.clicked (on_filters (codes "+ Include"))) _ rs
          (λ _.
            passes_rules-append rs (record { type = include; expr = codes "vlan:*" })
              (repr vlan size) (ap not (vlan_star vlan size h)))
          (λ _. refl)
