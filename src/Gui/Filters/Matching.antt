-- ===== src/Gui/Filters/Matching.antt =====
-- The glob matcher against an inductive relation, and the filters rule by rule.
use open_vbus.Base.{
  ℕ, Bool, true, false, ◌≡◌, ◌⊎◌, ◌↔◌, inl, inr, refl, List, [], ◌∷◌, ◌==◌, Text, All, arith,
  Bool-cases,
}
use open_vbus.Gui.Filters.{
  include, exclude, RuleType, RuleType, only_stars, after_star, glob_loop, glob_match, FilterRule,
  repr, refuses, passes_rules, passes_filters,
}

-- A pattern's text: `?` is any one character, `*` any characters, and all else is itself.
pub data Matches : Text → Text → Type 0 where
  done : Matches [] []
  same : {c : ℕ} {p t : Text} → Matches p t → Matches (c ∷ p) (c ∷ t)
  any : {x : ℕ} {p t : Text} → Matches p t → Matches (b'?' ∷ p) (x ∷ t)
  skip : {p t : Text} → Matches p t → Matches (b'*' ∷ p) t
  more : {x : ℕ} {p t : Text} → Matches (b'*' ∷ p) t → Matches (b'*' ∷ p) (x ∷ t)

only_stars-Matches : (p : Text) → only_stars p ≡ true → Matches p []
unfolding only_stars
only_stars-Matches [] h = done
only_stars-Matches (c ∷ p) h =
    let star : c ≡ b'*' = ground arith in rw star (skip (only_stars-Matches p (ground arith)))

after_star-Matches :
    (p : Text) (m : Text → Bool → Bool) (t : Text)
    → ((t' : Text) (b : Bool) → m t' b ≡ true → Matches p t' ⊎ (b ≡ true))
    → after_star m t ≡ true
    → Matches (b'*' ∷ p) t
unfolding after_star
after_star-Matches p m [] ih h = elim (ih [] false h) [ inl k ↦ skip k | inr e ↦ cc ]
after_star-Matches p m (x ∷ t) ih h = elim (ih (x ∷ t) _ h) [
  | inl k ↦ skip k
  | inr e ↦ more (after_star-Matches p m t ih e)
]

glob_loop-Matches :
    (p t : Text) (retry : Bool) → glob_loop p t retry ≡ true → Matches p t ⊎ (retry ≡ true)
unfolding glob_loop
glob_loop-Matches [] [] retry h = inl done
glob_loop-Matches [] (x ∷ t) retry h = inr h
glob_loop-Matches (c ∷ p) [] retry h = inl (only_stars-Matches (c ∷ p) h)
glob_loop-Matches (c ∷ p) (x ∷ t) retry h = elim (Bool-cases (c == x)) [
  | inl e ↦
      let same_char : c ≡ x = ground arith in
      elim (glob_loop-Matches p t retry (rw e at h)) [
        | inl k ↦ inl (rw same_char (same k))
        | inr r ↦ inr r
      ]
  | inr e ↦ elim (Bool-cases (c == b'?')) [
    | inl q ↦
        let wild : c ≡ b'?' = ground arith in
        elim (glob_loop-Matches p t retry (rw (e, q) at h)) [
          | inl k ↦ inl (rw wild (any k))
          | inr r ↦ inr r
        ]
    | inr q ↦ elim (Bool-cases (c == b'*')) [
      | inl s ↦
          let star : c ≡ b'*' = ground arith in
          inl (
            rw star (
              after_star-Matches p (glob_loop p) (x ∷ t) (glob_loop-Matches p) (rw (e, q, s) at h)))
      | inr s ↦ inr (rw (e, q, s) at h)
    ]
  ]
]

-- What `glob_match` accepts matches the pattern.
pub glob_match-Matches : (p t : Text) → glob_match p t ≡ true → Matches p t
unfolding glob_match
glob_match-Matches p t h = elim (glob_loop-Matches p t false h) [ inl k ↦ k | inr e ↦ cc ]

-- What a rule asks of a text: that `glob_match` accepts it for the pattern of an include, so that it
-- is one of the pattern's texts, and that it does not for that of an exclude.
abbrev pub Asks : RuleType → Text → Text → Type 0
Asks include expr text = (glob_match expr text ≡ true) × Matches expr text
Asks exclude expr text = glob_match expr text ≡ false

abbrev pub IsSatisfied : Text → FilterRule → Type 0
IsSatisfied text r = Asks r.type r.expr text

refuses-Asks :
    (t : RuleType) (expr text : Text)
    → (refuses t (glob_match expr text) ≡ false) ↔ Asks t expr text
unfolding refuses
refuses-Asks include expr text =
    (λ h. (ground arith, glob_match-Matches expr text (ground arith)), λ h. rw (h.0) refl)
refuses-Asks exclude expr text = (λ h. h, λ h. h)

passes_rules_lem :
    (rs : List FilterRule) (text : Text) → (passes_rules rs text ≡ true) ↔ All (IsSatisfied text) rs
unfolding passes_rules
passes_rules_lem [] text = (λ h. tt, λ h. refl)
passes_rules_lem (r ∷ rs) text =
    let (to, from) = passes_rules_lem rs text in
    let (asked, refused) = refuses-Asks r.type r.expr text in
    (λ h. (asked (ground arith), to (ground arith)), λ (s, h). rw (refused s, from h) refl)

-- A packet passes exactly when each rule has what it asks of the packet's text: for an include, that
-- `glob_match` accepts the text for its pattern, which is then one that the text matches; for an
-- exclude, that `glob_match` does not accept it.
pub passes_filters_lem :
    (rs : List FilterRule) (vlan size : ℕ)
    → (passes_filters rs vlan size ≡ true) ↔ All (IsSatisfied (repr vlan size)) rs
unfolding passes_filters
passes_filters_lem rs vlan size = passes_rules_lem rs (repr vlan size)
