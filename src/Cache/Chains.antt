-- ===== src/Cache/Chains.antt =====
-- util/cache.cc: what the functions of `HandleTable` find in the chain of one bucket.
use d_lsm.Common.{ℕ, ◌≡◌, refl, arith, true, false, Bool-cases, if◌then◌else◌}
use d_lsm.Common.{Option, some, none, List, [], ◌∷◌, length, All, inl, inr}
use d_lsm.Coding.{Bytes}
use d_lsm.Comparator.{memcmp, is_eq}
use d_lsm.Cache.{Heap, slice_eq, matches, find_pointer, deref}

memcmp_refl : (x : Bytes) → is_eq (memcmp (length x) x x) ≡ true
unfolding memcmp
memcmp_refl [] = refl
memcmp_refl (b ∷ x) = ground (arith, memcmp_refl x)

memcmp→eq : (x y : Bytes) → length x ≡ length y → is_eq (memcmp (length x) x y) ≡ true → x ≡ y
unfolding memcmp
memcmp→eq [] [] l h = refl
memcmp→eq [] (c ∷ y) l h = absurd (omega arith)
memcmp→eq (b ∷ x) [] l h = absurd (omega arith)
memcmp→eq (b ∷ x) (c ∷ y) l h = ground (arith, memcmp→eq x y (omega arith))

pub slice_eq_refl : (x : Bytes) → slice_eq x x ≡ true
unfolding slice_eq
slice_eq_refl x = ground (arith, memcmp_refl x)

pub slice_eq→eq : (x y : Bytes) → slice_eq x y ≡ true → x ≡ y
unfolding slice_eq
slice_eq→eq x y h = ground (arith, memcmp→eq x y)

module _ (heap : Heap) where
  -- What a search of a chain for a key finds.
  abbrev pub find : Bytes → ℕ → List ℕ → Option ℕ
  find key hash [] = none
  find key hash (p ∷ chain) =
      let rest = find key hash chain in if matches heap key hash p then some p else rest

  pub deref-find_pointer :
      (key : Bytes) (hash : ℕ) (chain : List ℕ)
      → deref (find_pointer heap key hash chain).1 ≡ find key hash chain
  unfolding find_pointer
  deref-find_pointer key hash [] = refl
  deref-find_pointer key hash (p ∷ chain) = ground (arith, deref-find_pointer key hash chain)

  -- Two entries with the same key are found by the same searches.
  pub matches→eq :
      (key : Bytes) (hash p : ℕ)
      → matches heap key hash p ≡ true
      → (key ≡ (heap p).key) × (hash ≡ (heap p).hash)
  unfolding matches
  matches→eq key hash p h = ground (arith, slice_eq→eq key (heap p).key)

  pub matches_self : (p : ℕ) → matches heap (heap p).key (heap p).hash p ≡ true
  unfolding matches
  matches_self p = ground (arith, slice_eq_refl (heap p).key)

  pub matches_trans :
      (key : Bytes) (hash p q : ℕ)
      → matches heap key hash p ≡ true
      → matches heap key hash q ≡ matches heap (heap p).key (heap p).hash q
  matches_trans key hash p q h =
      let (same_key, same_hash) = matches→eq key hash p h in rw (same_key, same_hash) refl

  pub matches-sym :
      (p q : ℕ)
      → matches heap (heap p).key (heap p).hash q ≡ true
      → matches heap (heap q).key (heap q).hash p ≡ true
  matches-sym p q h =
      let (same_key, same_hash) = matches→eq _ _ q h in
      rw (← same_key, ← same_hash) (matches_self p)

  -- Where a key's own entry does not match, neither does one that a search finds with it.
  pub matches-apart :
      (key : Bytes) (hash p h : ℕ)
      → matches heap key hash p ≡ true
      → matches heap (heap h).key (heap h).hash p ≡ false
      → matches heap key hash h ≡ false
  matches-apart key hash p h yes_p apart = elim (Bool-cases (matches heap key hash h)) [
    | inl yes_h ↦ absurd (ground (arith, matches_trans key hash h p yes_h))
    | inr no_h ↦ no_h
  ]

  pub matches-same :
      (key : Bytes) (hash p h : ℕ)
      → matches heap (heap h).key (heap h).hash p ≡ true
      → matches heap key hash p ≡ matches heap key hash h
  unfolding matches
  matches-same key hash p h e =
      let (same_key, same_hash) = matches→eq _ _ p e in rw (← same_key, ← same_hash) refl

  -- The chain that `Insert` leaves.
  abbrev pub put : ℕ → List ℕ → List ℕ
  put h [] = h ∷ []
  put h (p ∷ chain) =
      let rest = put h chain in
      if matches heap (heap h).key (heap h).hash p then h ∷ chain else p ∷ rest

  pub find-put :
      (key : Bytes) (hash h : ℕ) (chain : List ℕ)
      → find key hash (put h chain)
        ≡ (if matches heap key hash h then some h else find key hash chain)
  find-put key hash h [] = refl
  find-put key hash h (p ∷ chain) =
      ground
        (arith, find-put key hash h chain, matches-same key hash p h, matches-apart key hash p h)

  -- The chain that `Remove` leaves.
  abbrev pub cut : Bytes → ℕ → List ℕ → List ℕ
  cut key hash [] = []
  cut key hash (p ∷ chain) =
      let rest = cut key hash chain in if matches heap key hash p then chain else p ∷ rest

  -- No two entries of the chain have the same key.
  abbrev pub HasDistinctKeys : List ℕ → Type 0
  HasDistinctKeys [] = Unit
  HasDistinctKeys (p ∷ chain) =
      (find (heap p).key (heap p).hash chain ≡ none) × HasDistinctKeys chain

  pub find-cut :
      (key : Bytes) (hash : ℕ) (chain : List ℕ)
      → HasDistinctKeys chain
      → find key hash (cut key hash chain) ≡ none
  find-cut key hash [] d = refl
  find-cut key hash (p ∷ chain) (first, d) = elim (Bool-cases (matches heap key hash p)) [
    | inl yes_p ↦
        let (same_key, same_hash) = matches→eq key hash p yes_p in
        rw (yes_p, same_key, same_hash) first
    | inr no_p ↦ ground (arith, find-cut key hash chain d)
  ]

  -- A search for another key finds what it found.
  pub find-cut_other :
      (key : Bytes) (hash : ℕ) (key' : Bytes) (hash' : ℕ) (chain : List ℕ)
      → ((p : ℕ) → matches heap key hash p ≡ true → matches heap key' hash' p ≡ false)
      → find key' hash' (cut key hash chain) ≡ find key' hash' chain
  find-cut_other key hash key' hash' [] apart = refl
  find-cut_other key hash key' hash' (p ∷ chain) apart =
      ground (arith, apart p, find-cut_other key hash key' hash' chain apart)

  find-cut-none :
      (key : Bytes) (hash : ℕ) (key' : Bytes) (hash' : ℕ) (chain : List ℕ)
      → find key' hash' chain ≡ none
      → find key' hash' (cut key hash chain) ≡ none
  find-cut-none key hash key' hash' [] h = refl
  find-cut-none key hash key' hash' (p ∷ chain) h =
      ground (arith, find-cut-none key hash key' hash' chain)

  pub put-HasDistinctKeys :
      (h : ℕ) (chain : List ℕ) → HasDistinctKeys chain → HasDistinctKeys (put h chain)
  put-HasDistinctKeys h [] d = (refl, tt)
  put-HasDistinctKeys h (p ∷ chain) (first, d) =
      elim (Bool-cases (matches heap (heap h).key (heap h).hash p)) [
        | inl yes_p ↦
            let (same_key, same_hash) = matches→eq _ _ p yes_p in
            rw yes_p (rw (same_key, same_hash) first, d)
        | inr no_p ↦
            let unlike : matches heap (heap p).key (heap p).hash h ≡ false =
              ground (arith, matches-sym p h) in
            rw no_p (
              rw (find-put (heap p).key (heap p).hash h chain, unlike) first,
              put-HasDistinctKeys h chain d,
            )
      ]

  pub cut-HasDistinctKeys :
      (key : Bytes) (hash : ℕ) (chain : List ℕ)
      → HasDistinctKeys chain
      → HasDistinctKeys (cut key hash chain)
  cut-HasDistinctKeys key hash [] d = tt
  cut-HasDistinctKeys key hash (p ∷ chain) (first, d) =
      elim (Bool-cases (matches heap key hash p)) [
        | inl yes_p ↦ rw yes_p d
        | inr no_p ↦ rw no_p (
          find-cut-none key hash (heap p).key (heap p).hash chain first,
          cut-HasDistinctKeys key hash chain d,
        )
      ]

  pub put-All {ℓ} :
      (P : ℕ → Type ℓ) (h : ℕ) (chain : List ℕ) → P h → All P chain → All P (put h chain)
  put-All P h [] ph a = (ph, tt)
  put-All P h (p ∷ chain) ph (pp, a) =
      elim (Bool-cases (matches heap (heap h).key (heap h).hash p)) [
        | inl yes_p ↦ rw yes_p (ph, a)
        | inr no_p ↦ rw no_p (pp, put-All P h chain ph a)
      ]

  pub cut-All {ℓ} :
      (P : ℕ → Type ℓ) (key : Bytes) (hash : ℕ) (chain : List ℕ)
      → All P chain
      → All P (cut key hash chain)
  cut-All P key hash [] a = tt
  cut-All P key hash (p ∷ chain) (pp, a) = elim (Bool-cases (matches heap key hash p)) [
    | inl yes_p ↦ rw yes_p a
    | inr no_p ↦ rw no_p (pp, cut-All P key hash chain a)
  ]
