-- ===== src/Comparator/Tests.antt =====
-- Concrete comparisons, and the theorems at concrete inputs.
use d_lsm.Common.{◌≡◌, refl, [], ◌∷◌, ◌⊎◌}
use d_lsm.Coding.{Bytes}
use d_lsm.Comparator.{slice_compare, find_shortest_separator, find_short_successor}
use d_lsm.Comparator.Order.{lex, slice_compare-eq-lex}
use d_lsm.Comparator.Shorten.{Between, find_shortest_separator_lem}

abbrev start : Bytes
start = 97 ∷ 98 ∷ 99 ∷ []

abbrev limit : Bytes
limit = 97 ∷ 101 ∷ []

separated : find_shortest_separator start limit ≡ 97 ∷ 99 ∷ []
unfolding find_shortest_separator
separated = refl

succeeded : find_short_successor (255 ∷ 3 ∷ 7 ∷ []) ≡ 255 ∷ 4 ∷ []
unfolding find_short_successor
succeeded = refl

slice_compare-eq-lex_example : slice_compare start limit ≡ lex start limit
slice_compare-eq-lex_example = slice_compare-eq-lex start limit

find_shortest_separator_lem_example :
    (find_shortest_separator start limit ≡ start)
    ⊎ Between start limit (find_shortest_separator start limit)
find_shortest_separator_lem_example = find_shortest_separator_lem start limit
