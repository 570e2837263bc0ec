-- ===== src/Memtable/Sorted.antt =====
-- Lists that a comparator keeps in order: insertion, and the search for a bound.
use Prim.Native.Nat.Ordering.{lt, gt}
use mathlib.Core.Path.{subst}
use d_lsm.Common.{All-map}
use mathlib.Core.Option
use d_lsm.Common.{◌≡◌, ◌≢◌, refl, ap, arith, Bool, Option, none, some, inl, inr, Bool-cases}
use d_lsm.Common.{List, [], ◌∷◌, map, All, Any, ◌⊎◌, if◌then◌else◌}
use d_lsm.Coding.{Bytes}
use d_lsm.Comparator.{is_lt}
use d_lsm.Comparator.Interface.{Comparator, IsComparator}

module _ {ℓ} {A : Type ℓ} where
  -- Insertion before the first element that is not less.
  abbrev pub place : (A → A → Bool) → A → List A → List A
  place less e [] = e ∷ []
  place less e (x ∷ xs) = let rest = place less e xs in if less x e then x ∷ rest else e ∷ x ∷ xs

  -- The first element that the test does not pass.
  abbrev pub first_not : (A → Bool) → List A → Option A
  first_not p [] = none
  first_not p (x ∷ xs) = let rest = first_not p xs in if p x then rest else some x

  pub All-place {κ} :
      (P : A → Type κ) (less : A → A → Bool) (e : A) (xs : List A)
      → P e
      → All P xs
      → All P (place less e xs)
  All-place P less e [] he h = (he, tt)
  All-place P less e (x ∷ xs) he (hx, h) = elim (Bool-cases (less x e)) [
    | inl t ↦ rw t (hx, All-place P less e xs he h)
    | inr f ↦ rw f (he, (hx, h))
  ]

  pub All-unplace {κ} :
      (P : A → Type κ) (less : A → A → Bool) (e : A) (xs : List A)
      → All P (place less e xs)
      → P e × All P xs
  All-unplace P less e [] h = h
  All-unplace P less e (x ∷ xs) h = elim (Bool-cases (less x e)) [
    | inl t ↦
        let (hx, rest) = rw t at h in let (he, hs) = All-unplace P less e xs rest in (he, (hx, hs))
    | inr f ↦ rw f at h
  ]

  pub Any-unplace :
      (P : A → Type 0) (less : A → A → Bool) (e : A) (xs : List A)
      → Any P (place less e xs)
      → P e ⊎ Any P xs
  Any-unplace P less e [] (inl h) = inl h
  Any-unplace P less e [] (inr h) = elim h [ ]
  Any-unplace P less e (x ∷ xs) h = elim (Bool-cases (less x e)) [
    | inl t ↦
        let h' : P x ⊎ Any P (place less e xs) = rw t at h in
        elim h' [
          | inl hx ↦ inr (inl hx)
          | inr hs ↦ elim (Any-unplace P less e xs hs) [ inl he ↦ inl he | inr ho ↦ inr (inr ho) ]
        ]
    | inr f ↦ rw f at h
  ]

module _ {A : Type 0} {B : Type 0} (f : A → B) where
  -- Insertion and search among images, when the tests agree.
  pub map-place :
      (less : A → A → Bool) (less' : B → B → Bool) (e : A) (xs : List A)
      → All (λ x. less' (f x) (f e) ≡ less x e) xs
      → map f (place less e xs) ≡ place less' (f e) (map f xs)
  map-place less less' e [] h = refl
  map-place less less' e (x ∷ xs) (hx, h) = elim (Bool-cases (less x e)) [
    | inl t ↦ rw (hx, t) (ap (λ ys. f x ∷ ys) (map-place less less' e xs h))
    | inr n ↦ rw (hx, n) refl
  ]

  pub first_not-map :
      (p : A → Bool) (p' : B → Bool) (xs : List A)
      → All (λ x. p' (f x) ≡ p x) xs
      → first_not p' (map f xs) ≡ Option.map f (first_not p xs)
  first_not-map p p' [] h = refl
  first_not-map p p' (x ∷ xs) (hx, h) = elim (Bool-cases (p x)) [
    | inl t ↦ rw (hx, t) (first_not-map p p' xs h)
    | inr n ↦ rw (hx, n) refl
  ]

-- An order on the elements by a key.
module _ {A : Type 0} (c : Comparator) (laws : IsComparator c) (key : A → Bytes) where
  abbrev pub Before : A → A → Type 0
  Before x y = c.compare (key x) (key y) ≢ gt

  abbrev pub less : A → A → Bool
  less x y = is_lt (c.compare (key x) (key y))

  abbrev pub Ordered : List A → Type 0
  Ordered [] = Unit
  Ordered (x ∷ xs) = All (Before x) xs × Ordered xs

  compare_le_trans : (a b d : Bytes) → c.compare a b ≢ gt → c.compare b d ≢ gt → c.compare a d ≢ gt
  compare_le_trans a b d h k =
      grind
        (arith, laws.compare_trans a b d, laws.compare_eq_right b d a, laws.compare_eq_left a b d)

  Before-All : (x y : A) (xs : List A) → Before x y → All (Before y) xs → All (Before x) xs
  Before-All x y [] h k = tt
  Before-All x y (z ∷ xs) h (kz, k) =
      (compare_le_trans (key x) (key y) (key z) h kz, Before-All x y xs h k)

  pub Ordered-place : (e : A) (xs : List A) → Ordered xs → Ordered (place less e xs)
  Ordered-place e [] h = (tt, tt)
  Ordered-place e (x ∷ xs) (hx, h) = elim (Bool-cases (less x e)) [
    | inl t ↦ rw t (All-place (Before x) less e xs (ground arith) hx, Ordered-place e xs h)
    | inr f ↦
        let before : Before e x = ground (
          arith,
          laws.compare_swap_gt (key x) (key e),
          laws.compare_swap (key e) (key x),
          laws.compare_swap_gt (key e) (key x),
        ) in
        rw f ((before, Before-All e x xs before hx), (hx, h))
  ]

  -- The first element that is not below a bound: none is there, or it stands before all others
  -- that are not below.
  pub first_not-bound :
      (k : Bytes) (xs : List A)
      → Ordered xs
      → (e : A) → first_not (λ x. is_lt (c.compare (key x) k)) xs ≡ some e
      → (Any (λ x. x ≡ e) xs)
        × (c.compare (key e) k ≢ lt)
        × All (λ d. c.compare (key d) k ≢ lt → Before e d) xs
  first_not-bound k [] h e found = absurd (ground arith)
  first_not-bound k (x ∷ xs) (hx, h) e found = elim (Bool-cases (is_lt (c.compare (key x) k))) [
    | inl t ↦
        let (there, stop, rest) = first_not-bound k xs h e (rw t at found) in
        (inr there, stop, ((λ n. absurd (ground arith)), rest))
    | inr f ↦
        let same : x ≡ e = ground arith in
        let after : All (Before e) xs = subst (λ (z : A). All (Before z) xs) same hx in
        (
          inl same,
          (λ n. ground arith),
          (
            (λ n r. ground (arith, laws.compare_refl (key x))),
            All-map {Q = λ d. c.compare (key d) k ≢ lt → Before e d} (λ d b n. b) xs after,
          ),
        )
  ]

  pub first_not-none :
      (k : Bytes) (xs : List A)
      → first_not (λ x. is_lt (c.compare (key x) k)) xs ≡ none
      → All (λ d. c.compare (key d) k ≡ lt) xs
  first_not-none k [] found = tt
  first_not-none k (x ∷ xs) found = elim (Bool-cases (is_lt (c.compare (key x) k))) [
    | inl t ↦ (ground arith, first_not-none k xs (rw t at found))
    | inr f ↦ absurd (ground arith)
  ]
