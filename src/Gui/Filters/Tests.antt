-- ===== src/Gui/Filters/Tests.antt =====
-- Filters on packets.
use open_vbus.Base.{true, ◌≡◌, ◌↔◌, refl, List, [], ◌∷◌, codes, All}
use open_vbus.Gui.Filters.{
  FilterRule, include, exclude, glob_match, passes_filters, repr, glob_loop, after_star, only_stars,
}
use open_vbus.Gui.Filters.Matching.{Matches, IsSatisfied, glob_match-Matches, passes_filters_lem}

accepted : glob_match (codes "*a?c*") (codes "xabc") ≡ true
unfolding glob_match glob_loop after_star only_stars
accepted = refl

glob_match-Matches_example : Matches (codes "*a?c*") (codes "xabc")
glob_match-Matches_example = glob_match-Matches (codes "*a?c*") (codes "xabc") accepted

abbrev two_rules : List FilterRule
two_rules =
    record { type = include; expr = codes "vlan:1*" }
    ∷ record { type = exclude; expr = codes "*size:64" }
    ∷ []

passes_filters_lem_example :
    (passes_filters two_rules 10 65 ≡ true) ↔ All (IsSatisfied (repr 10 65)) two_rules
passes_filters_lem_example = passes_filters_lem two_rules 10 65
