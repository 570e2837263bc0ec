-- ===== src/Cache/Resize.antt =====
-- util/cache.cc: `HandleTable::Resize` moves every entry to its new bucket.
use d_lsm.Common.{
  ℕ, zero, suc, ◌+◌, ◌≡◌, refl, ap, ◌∙◌, arith, true, false, ◌==◌, ltb, Bool-cases, if◌then◌else◌,
}
use d_lsm.Common.{Option, some, none, List, [], ◌∷◌, All, inl, inr}
use mathlib.Core.Path.{subst}
use d_lsm.Coding.{Bytes}
use d_lsm.Cache.{Heap, Buckets, matches, set_bucket, bucket_of, move_chain, move_buckets}
use d_lsm.Cache.Chains.{find, matches→eq, matches-sym, HasDistinctKeys}

abbrev or_else : Option ℕ → Option ℕ → Option ℕ
or_else (some p) o = some p
or_else none o = o

or_else-none : (o : Option ℕ) → or_else o none ≡ o
or_else-none none = refl
or_else-none (some p) = refl

-- What holds of the new bucket and of all old ones holds of all.
pub set_bucket_lem {ℓ} :
    (Q : ℕ → List ℕ → Type ℓ) (i : ℕ) (chain : List ℕ) (list : Buckets)
    → Q i chain
    → ((j : ℕ) → Q j (list j))
    → (j : ℕ) → Q j (set_bucket i chain list j)
set_bucket_lem Q i chain list q h j = elim (Bool-cases (j == i)) [
  | inl same ↦ let here : i ≡ j = ground arith in rw same (subst (λ (x : ℕ). Q x chain) here q)
  | inr apart ↦ rw apart (h j)
]

module _ (heap : Heap) where
  -- Each entry stands in the bucket of its hash.
  abbrev pub IsHome : ℕ → Buckets → Type 0
  IsHome length list = (i : ℕ) → All (λ p. bucket_of (heap p).hash length ≡ i) (list i)

  abbrev pub AreDistinct : Buckets → Type 0
  AreDistinct list = (i : ℕ) → HasDistinctKeys heap (list i)

  find-set_bucket :
      (key : Bytes) (hash h i j : ℕ) (list : Buckets)
      → matches heap key hash h ≡ false
      → find heap key hash (set_bucket i (h ∷ list i) list j) ≡ find heap key hash (list j)
  find-set_bucket key hash h i j list no_h = elim (Bool-cases (j == i)) [
    | inl same ↦ let here : j ≡ i = ground arith in rw (same, no_h, here) refl
    | inr apart ↦ rw apart refl
  ]

  find-move_chain :
      (length : ℕ) (chain : List ℕ) (list : Buckets) (key : Bytes) (hash : ℕ)
      → HasDistinctKeys heap chain
      → find heap key hash (move_chain heap length chain list (bucket_of hash length))
        ≡ or_else (find heap key hash chain) (find heap key hash (list (bucket_of hash length)))
  unfolding move_chain
  find-move_chain length [] list key hash d = refl
  find-move_chain length (h ∷ chain) list key hash (first, d) =
      let i = bucket_of (heap h).hash length in
      let list' = set_bucket i (h ∷ list i) list in
      find-move_chain length chain list' key hash d ∙ elim (Bool-cases (matches heap key hash h)) [
        | inl yes_h ↦
            let (same_key, same_hash) = matches→eq heap key hash h yes_h in
            let here : (bucket_of hash length == i) ≡ true = rw same_hash (ground arith) in
            rw (yes_h, here, yes_h, same_key, same_hash, first) refl
        | inr no_h ↦ rw (no_h, find-set_bucket key hash h i (bucket_of hash length) list no_h) refl
      ]

  find-elsewhere :
      (length : ℕ) (key : Bytes) (hash i : ℕ) (chain : List ℕ)
      → All (λ p. bucket_of (heap p).hash length ≡ i) chain
      → (bucket_of hash length == i) ≡ false
      → find heap key hash chain ≡ none
  find-elsewhere length key hash i [] home apart = refl
  find-elsewhere length key hash i (p ∷ chain) (here, home) apart =
      elim (Bool-cases (matches heap key hash p)) [
        | inl yes_p ↦
            let (same_key, same_hash) = matches→eq heap key hash p yes_p in
            let there : bucket_of hash length ≡ i =
              ap (λ (x : ℕ). bucket_of x length) same_hash ∙ here in
            absurd (ground arith)
        | inr no_p ↦ rw no_p (find-elsewhere length key hash i chain home apart)
      ]

  move_chain-IsHome :
      (length : ℕ) (chain : List ℕ) (list : Buckets)
      → IsHome length list
      → IsHome length (move_chain heap length chain list)
  unfolding move_chain
  move_chain-IsHome length [] list home = home
  move_chain-IsHome length (h ∷ chain) list home =
      let i = bucket_of (heap h).hash length in
      move_chain-IsHome length chain (set_bucket i (h ∷ list i) list) (
        set_bucket_lem (λ j. All (λ p. bucket_of (heap p).hash length ≡ j)) i (h ∷ list i) list
          (refl, home i) home)

  find→apart :
      (h : ℕ) (chain : List ℕ)
      → find heap (heap h).key (heap h).hash chain ≡ none
      → All (λ p. matches heap (heap p).key (heap p).hash h ≡ false) chain
  find→apart h [] e = tt
  find→apart h (p ∷ chain) e = elim (Bool-cases (matches heap (heap h).key (heap h).hash p)) [
    | inl yes_p ↦ absurd (ground arith)
    | inr no_p ↦ (ground (arith, matches-sym heap p h), find→apart h chain (ground arith))
  ]

  -- No entry that is to be moved has the key of one that has been.
  abbrev AreNew : ℕ → List ℕ → Buckets → Type 0
  AreNew length chain list =
      All (λ p. find heap (heap p).key (heap p).hash (list (bucket_of (heap p).hash length)) ≡ none)
        chain

  AreNew-set_bucket :
      (length h : ℕ) (chain : List ℕ) (list : Buckets)
      → All (λ p. matches heap (heap p).key (heap p).hash h ≡ false) chain
      → AreNew length chain list
      → (let i = bucket_of (heap h).hash length in
          AreNew length chain (set_bucket i (h ∷ list i) list))
  AreNew-set_bucket length h [] list apart new = tt
  AreNew-set_bucket length h (p ∷ chain) list (no_p, apart) (new_p, new) = (
    find-set_bucket (heap p).key (heap p).hash h (bucket_of (heap h).hash length)
          (bucket_of (heap p).hash length) list no_p
        ∙ new_p,
    AreNew-set_bucket length h chain list apart new,
  )

  move_chain-AreDistinct :
      (length : ℕ) (chain : List ℕ) (list : Buckets)
      → HasDistinctKeys heap chain
      → AreNew length chain list
      → AreDistinct list
      → AreDistinct (move_chain heap length chain list)
  unfolding move_chain
  move_chain-AreDistinct length [] list d new distinct = distinct
  move_chain-AreDistinct length (h ∷ chain) list (first, d) (new_h, new) distinct =
      let i = bucket_of (heap h).hash length in
      move_chain-AreDistinct length chain (set_bucket i (h ∷ list i) list) d
        (AreNew-set_bucket length h chain list (find→apart h chain first) new)
        (set_bucket_lem (λ j. HasDistinctKeys heap) i (h ∷ list i) list (new_h, distinct i)
          distinct)

  -- The buckets below `i` have been moved.
  pub record AreMoved (old_length length : ℕ) (old : Buckets) (i : ℕ) (list : Buckets)
      : Type 0 where
    pub found :
        (key : Bytes) (hash : ℕ)
        → find heap key hash (list (bucket_of hash length)) ≡ (
            if ltb (bucket_of hash old_length) i
            then find heap key hash (old (bucket_of hash old_length))
            else none)
    pub distinct : AreDistinct list
    pub home : IsHome length list

  found_step :
      (key : Bytes) (hash old_length i : ℕ) (old : Buckets)
      → IsHome old_length old
      → or_else (find heap key hash (old i)) (
          if ltb (bucket_of hash old_length) i
          then find heap key hash (old (bucket_of hash old_length))
          else none)
        ≡ (if ltb (bucket_of hash old_length) (i + 1)
            then find heap key hash (old (bucket_of hash old_length))
            else none)
  found_step key hash old_length i old home =
      let j = bucket_of hash old_length in
      elim (Bool-cases (j == i)) [
        | inl same ↦
            let here : i ≡ j = ground arith in
            let below : ltb j (i + 1) ≡ true = ground arith in
            let not_yet : ltb j i ≡ false = ground arith in
            rw (below, not_yet, here) (or_else-none _)
        | inr apart ↦
            let later : ltb j (i + 1) ≡ ltb j i = ground arith in
            rw (later, find-elsewhere old_length key hash i (old i) (home i) apart) refl
      ]

  AreNew_lem :
      (old_length length i : ℕ) (old list : Buckets) (chain : List ℕ)
      → AreMoved old_length length old i list
      → All (λ p. bucket_of (heap p).hash old_length ≡ i) chain
      → AreNew length chain list
  AreNew_lem old_length length i old list [] moved home = tt
  AreNew_lem old_length length i old list (p ∷ chain) moved (here, home) =
      let later : ltb (bucket_of (heap p).hash old_length) i ≡ false = ground arith in
      (
        moved.found (heap p).key (heap p).hash ∙ rw later refl,
        AreNew_lem old_length length i old list chain moved home,
      )

  pub move_buckets-AreMoved :
      (old_length length n i : ℕ) (old list : Buckets)
      → IsHome old_length old
      → AreDistinct old
      → AreMoved old_length length old i list
      → AreMoved old_length length old (i + n) (move_buckets heap length old n i list)
  unfolding move_buckets
  move_buckets-AreMoved old_length length zero i old list home d moved =
      let same : i ≡ i + 0 = omega arith in
      subst (λ (x : ℕ). AreMoved old_length length old x list) same moved
  move_buckets-AreMoved old_length length (suc n) i old list home d moved =
      let same : i + 1 + n ≡ i + suc n = omega arith in
      let list' = move_chain heap length (old i) list in
      let moved' : AreMoved old_length length old (i + 1) list' = record {
        found = λ key hash.
            find-move_chain length (old i) list key hash (d i)
            ∙ ap (or_else (find heap key hash (old i))) (moved.found key hash)
            ∙ found_step key hash old_length i old home;
        distinct =
            move_chain-AreDistinct length (old i) list (d i)
              (AreNew_lem old_length length i old list (old i) moved (home i)) moved.distinct;
        home = move_chain-IsHome length (old i) list moved.home;
      } in
      subst
        (λ (x : ℕ). AreMoved old_length length old x (move_buckets heap length old n (i + 1) list'))
        same (move_buckets-AreMoved old_length length n (i + 1) old list' home d moved')
