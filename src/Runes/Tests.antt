-- ===== src/Runes/Tests.antt =====
-- A cut within a character of two bytes.
use topsrv.Base.{Text, [], ◌∷◌, refl, ◌≡◌}
use topsrv.Runes.{CutAt, truncate_at_rune, truncate_at_rune-CutAt}

abbrev letters : Text
letters = 65 ∷ 208 ∷ 144 ∷ []

not_halved : truncate_at_rune letters 2 ≡ 65 ∷ []
unfolding truncate_at_rune
not_halved = refl

truncate_at_rune-CutAt_example : CutAt letters 2 (truncate_at_rune letters 2)
truncate_at_rune-CutAt_example = truncate_at_rune-CutAt letters 2
