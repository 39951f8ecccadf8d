-- ===== src/Text/Tests.antt =====
-- The example of the comment on string_split, and a separator at either end.
use etransfer.Common.{◌≡◌, refl, true, false, [], ◌∷◌, codes}
use etransfer.Text.{string_split}

skipping :
    string_split true b',' (codes "aap,,noot,,,mies")
    ≡ codes "aap" ∷ codes "noot" ∷ codes "mies" ∷ []
unfolding string_split
skipping = refl

not_skipping :
    string_split false b',' (codes "aap,,noot,,,mies")
    ≡ codes "aap" ∷ [] ∷ codes "noot" ∷ [] ∷ [] ∷ codes "mies" ∷ []
unfolding string_split
not_skipping = refl

at_the_ends : string_split true b',' (codes ",a,") ≡ [] ∷ codes "a" ∷ []
unfolding string_split
at_the_ends = refl
