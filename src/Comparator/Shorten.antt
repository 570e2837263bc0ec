-- ===== src/Comparator/Shorten.antt =====
-- The shortened keys of `FindShortestSeparator` and `FindShortSuccessor` keep their place.
use Prim.Native.Nat.Ordering.{lt}
use d_lsm.Common.{
  append-nil, append_assoc, All, ◌+◌, ◌≤◌, ◌≡◌, refl, arith, ltb, ◌==◌, ◌⊎◌, inl, ◌&&◌,
}
use d_lsm.Common.{[], ◌∷◌, ◌++◌, length, if◌then◌else◌}
use d_lsm.Coding.{Bytes}
use d_lsm.Comparator.{find_shortest_separator, find_short_successor_loop, find_short_successor}
use d_lsm.Comparator.Order.{lex}

-- `r` is a key strictly between, and no longer than `start`.
abbrev pub Between : Bytes → Bytes → Bytes → Type 0
Between start limit r = (lex start r ≡ lt) × (lex r limit ≡ lt) × (length r ≤ length start)

separate : Bytes → Bytes → Bytes
separate (x ∷ start) (y ∷ limit) =
    let rest = x ∷ separate start limit in
    if x == y then rest else if ltb x 255 && ltb (x + 1) y then (x + 1) ∷ [] else x ∷ start
separate start limit = start

find_shortest_separator-separate :
    (start limit : Bytes) → find_shortest_separator start limit ≡ separate start limit
unfolding find_shortest_separator separate
find_shortest_separator-separate [] limit = ground arith
find_shortest_separator-separate (x ∷ start) [] = ground arith
find_shortest_separator-separate (x ∷ start) (y ∷ limit) =
    ground (arith, find_shortest_separator-separate start limit)

separate-Between :
    (start limit : Bytes)
    → (separate start limit ≡ start) ⊎ Between start limit (separate start limit)
unfolding separate lex
separate-Between [] limit = inl refl
separate-Between (x ∷ start) [] = inl refl
separate-Between (x ∷ start) (y ∷ limit) = ground (arith, separate-Between start limit)

-- `FindShortestSeparator` either leaves the key as it is, or returns one that is no longer and
-- lies strictly between the two keys.
pub find_shortest_separator_lem :
    (start limit : Bytes)
    → (find_shortest_separator start limit ≡ start)
      ⊎ Between start limit (find_shortest_separator start limit)
find_shortest_separator_lem start limit =
    rw (find_shortest_separator-separate start limit) (separate-Between start limit)

bump : Bytes → Bytes
bump [] = []
bump (byte ∷ after) = let rest = byte ∷ bump after in if byte == 255 then rest else (byte + 1) ∷ []

find_short_successor_loop-bump :
    (before after : Bytes) → find_short_successor_loop before after ≡ before ++ bump after
unfolding find_short_successor_loop bump
find_short_successor_loop-bump before [] = rw append-nil
find_short_successor_loop-bump before (byte ∷ after) = ground (
  arith,
  find_short_successor_loop-bump (before ++ byte ∷ []) after,
  append_assoc before (byte ∷ []) (bump after),
)

bump_grows :
    (key : Bytes)
    → ((bump key ≡ key) × All (λ byte. byte ≡ 255) key)
      ⊎ ((lex key (bump key) ≡ lt) × (length (bump key) ≤ length key))
unfolding bump lex
bump_grows [] = inl (refl, tt)
bump_grows (byte ∷ after) = ground (arith, bump_grows after)

-- `FindShortSuccessor` returns a greater key that is no longer, and leaves alone only a run of
-- 0xff bytes.
pub find_short_successor_lem :
    (key : Bytes)
    → ((find_short_successor key ≡ key) × All (λ byte. byte ≡ 255) key)
      ⊎ ((lex key (find_short_successor key) ≡ lt)
          × (length (find_short_successor key) ≤ length key))
unfolding find_short_successor
find_short_successor_lem key = rw (find_short_successor_loop-bump [] key) (bump_grows key)
