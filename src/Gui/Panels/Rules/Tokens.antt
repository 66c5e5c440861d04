-- ===== src/Gui/Panels/Rules/Tokens.antt =====
-- What the hint of the filter panel proposes as patterns, tokens such as `vlan:100` and `size:1400`.
use open_vbus.Base.{
  ℕ, suc, ◌<◌, ◌≤◌, ◌≡◌, ◌≢◌, ◌^◌, refl, ap, false, List, ◌∷◌, ◌++◌, Text, codes, to_string, length,
  length-append, All, Bool-cases, inl, inr, arith,
}
use open_vbus.Gui.Filters.{
  include, exclude, FilterRule, glob_match, refuses, repr, passes_rules, passes_filters,
}
use open_vbus.Gui.Filters.Matching.{Matches, done, same, any, skip, more, glob_match-Matches}
use open_vbus.Gui.Panels.Rules.Fresh.{to_string-Begins}
use open_vbus.Daemon.Numbers.Print.{Begins, begins}

-- Without a star, a pattern's texts are as long as the pattern.
length-Matches : {p t : Text} → All (λ c. c ≢ b'*') p → Matches p t → length p ≡ length t
length-Matches h done = refl
length-Matches h (same m) = ap suc (length-Matches h.1 m)
length-Matches h (any m) = ap suc (length-Matches h.1 m)
length-Matches h (skip m) = absurd (h.0 refl)
length-Matches h (more m) = absurd (h.0 refl)

length-Begins : (s : Text) → Begins s → 1 ≤ length s
length-Begins s (begins d t h) = omega arith

length-repr : (vlan size : ℕ) → vlan < 2 ^ 32 → size < 2 ^ 32 → 13 ≤ length (repr vlan size)
unfolding repr
length-repr vlan size h k = omega (
  arith,
  length-append (to_string vlan) (codes " size:" ++ to_string size),
  length-Begins (to_string vlan) (to_string-Begins vlan h),
  length-Begins (to_string size) (to_string-Begins size k),
)

token-misses :
    (p : Text) (vlan size : ℕ)
    → All (λ c. c ≢ b'*') p
    → length p < 13
    → vlan < 2 ^ 32
    → size < 2 ^ 32
    → glob_match p (repr vlan size) ≡ false
token-misses p vlan size plain short h k = elim (Bool-cases (glob_match p (repr vlan size))) [
  | inl hit ↦ absurd (
      omega (
        arith,
        length-Matches plain (glob_match-Matches p (repr vlan size) hit),
        length-repr vlan size h k,
      ))
  | inr miss ↦ miss
]

-- A rule whose text has no `*` and fewer than 13 characters, such as `vlan:100` or `size:1400`, matches no
-- packet: to include by it refuses every packet, and to exclude by it refuses none. The VLAN and the
-- size are 32-bit numbers.
pub token_rules :
    (p : Text) (rs : List FilterRule) (vlan size : ℕ)
    → All (λ c. c ≢ b'*') p
    → length p < 13
    → vlan < 2 ^ 32
    → size < 2 ^ 32
    → (passes_filters (record { type = include; expr = p } ∷ rs) vlan size ≡ false)
      × (passes_filters (record { type = exclude; expr = p } ∷ rs) vlan size
          ≡ passes_filters rs vlan size)
unfolding passes_filters passes_rules refuses
token_rules p rs vlan size plain short h k =
    let miss = token-misses p vlan size plain short h k in (rw miss, rw miss)
