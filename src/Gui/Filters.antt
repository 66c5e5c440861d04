-- ===== src/Gui/Filters.antt =====
-- `glob_match` and `passes_filters` of vbus-gui/src/model.cpp.
pub mod Matching
mod Tests
use open_vbus.Base.{
  ℕ, Bool, true, false, not, ◌&&◌, ◌||◌, List, [], ◌∷◌, ◌++◌, ◌==◌, if◌then◌else◌, Text, codes,
  to_string,
}

-- `while (pi < pattern.size() && pattern[pi] == '*') ++pi; return pi == pattern.size();`
unfoldable pub only_stars : Text → Bool
only_stars [] = true
only_stars (c ∷ p) = let rest = only_stars p in if c == b'*' then rest else false

-- What the loop gives behind a `*` with `t` left: `m` is the loop on the rest of the pattern, and where
-- it fails it begins anew with one character of the text less.
unfoldable pub after_star : (Text → Bool → Bool) → Text → Bool
after_star m [] = m [] false
after_star m (x ∷ t) = m (x ∷ t) (after_star m t)

-- The loop of `glob_match` at a place in the pattern and a place in the text; `retry` is what it gives
-- from `star_pi` and `star_ti` on, `false` where no `*` has been seen. A later `*` replaces an
-- earlier one.
unfoldable pub glob_loop : Text → Text → Bool → Bool
unfolding only_stars after_star
glob_loop [] [] retry = true
glob_loop [] (x ∷ t) retry = retry
glob_loop (c ∷ p) [] retry = only_stars (c ∷ p)
glob_loop (c ∷ p) (x ∷ t) retry =
    let next = glob_loop p t retry in
    let starred = after_star (glob_loop p) (x ∷ t) in
    if c == x || c == b'?' then next else if c == b'*' then starred else retry

unfoldable pub glob_match : Text → Text → Bool
glob_match pattern text = glob_loop pattern text false

-- `FilterRule::Type`
pub data RuleType : Type 0 where
  include exclude : RuleType

pub record FilterRule : Type 0 where
  pub type : RuleType
  pub expr : Text

-- The text that the rules see: `"vlan:%u size:%u"`. Two 32-bit numbers fit in the buffer.
unfoldable pub repr : ℕ → ℕ → Text
repr vlan size = codes "vlan:" ++ (to_string vlan ++ (codes " size:" ++ to_string size))

-- a rule refuses the packet
unfoldable pub refuses : RuleType → Bool → Bool
refuses exclude matched = matched
refuses include matched = not matched

unfoldable pub passes_rules : List FilterRule → Text → Bool
unfolding refuses
passes_rules [] text = true
passes_rules (r ∷ rs) text =
    let rest = passes_rules rs text in
    if refuses r.type (glob_match r.expr text) then false else rest

-- `passes_filters`; without rules its early return says what the loop says.
unfoldable pub passes_filters : List FilterRule → ℕ → ℕ → Bool
unfolding passes_rules
passes_filters rules vlan size = passes_rules rules (repr vlan size)
