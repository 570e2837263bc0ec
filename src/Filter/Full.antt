-- ===== src/Filter/Full.antt =====
-- The filter of a table, `FullFilterBlockBuilder` and its reader, has no false negatives.
use d_lsm.Common.{ℕ, ◌+◌, ◌*◌, ◌/◌, ◌%◌, ◌^◌, ◌<◌, ◌≡◌, refl, ap, ◌∙◌, arith}
use d_lsm.Common.{true, inl, inr, Bool-cases}
use d_lsm.Common.{List, [], ◌∷◌, ◌++◌, All, Any, take, length}
use d_lsm.Common.Bits.{bit_and_low9}
use d_lsm.Coding.{Bytes}
use d_lsm.Filter.{bloom_hash, rotate, set_probes, line_bit, line_offset, add_hash}
use d_lsm.Filter.{FullFilterBlockBuilder, last_is, add_key}
use d_lsm.Filter.{add_hashes}
use d_lsm.Filter.Probes.{Probed, length-set_probes, set_probes-Probed}
use d_lsm.Filter.Probes.{Probed-set_probes, take-set_probes}
use native.Mathlib.Nat.{mod-lt, mod-eq_of_lt}

module _ (probes lines : ℕ) where
  -- All probes of a hash value find their bits.
  abbrev pub Found : Bytes → ℕ → Type 0
  Found bytes h = Probed (line_bit 6) (line_offset 6 lines h) (rotate h) probes h bytes

  pub length-add_hashes :
      (entries : List ℕ) (bytes : Bytes)
      → length (add_hashes probes lines entries bytes) ≡ length bytes
  unfolding add_hashes add_hash
  length-add_hashes [] bytes = refl
  length-add_hashes (h ∷ entries) bytes =
      length-add_hashes entries _
      ∙ length-set_probes (line_bit 6) (line_offset 6 lines h) (rotate h) probes h bytes

  pub take-add_hashes :
      (n : ℕ) (entries : List ℕ) (bytes : Bytes)
      → take n (add_hashes probes lines entries bytes)
        ≡ add_hashes probes lines entries (take n bytes)
  unfolding add_hashes add_hash
  take-add_hashes n [] bytes = refl
  take-add_hashes n (h ∷ entries) bytes =
      take-add_hashes n entries _
      ∙ ap (add_hashes probes lines entries)
          (take-set_probes (line_bit 6) (line_offset 6 lines h) (rotate h) n probes h bytes)

  Found-add_hashes :
      (entries : List ℕ) (bytes : Bytes) (h : ℕ)
      → Found bytes h
      → Found (add_hashes probes lines entries bytes) h
  unfolding add_hashes add_hash
  Found-add_hashes [] bytes h found = found
  Found-add_hashes (other ∷ entries) bytes h found = Found-add_hashes entries _ h (
      Probed-set_probes (line_bit 6) (line_offset 6 lines h) (rotate h) (line_bit 6)
        (line_offset 6 lines other) (rotate other) probes h bytes probes other found)

  -- A probe stays within the line of its hash value.
  probe_fits :
      (h v : ℕ)
      → 0 < lines
      → lines * 64 < 2 ^ 32
      → line_offset 6 lines h + line_bit 6 v / 8 < lines * 64
  probe_fits h v hl hw =
      let inside : h % lines < lines = mod-lt h hl in
      rw
        (mod-eq_of_lt {n = h % lines * 64} {m = 2 ^ 32} (omega (arith, inside, hw)), bit_and_low9 v)
        (omega (arith, inside))

  pub add_hashes-Found :
      (entries : List ℕ) (bytes : Bytes)
      → 0 < lines
      → lines * 64 < 2 ^ 32
      → length bytes ≡ lines * 64
      → All (Found (add_hashes probes lines entries bytes)) entries
  unfolding add_hashes add_hash
  add_hashes-Found [] bytes hl hw size = tt
  add_hashes-Found (h ∷ entries) bytes hl hw size =
      let base = line_offset 6 lines h in
      let same = length-set_probes (line_bit 6) base (rotate h) probes h bytes in
      (
        Found-add_hashes entries _ h (
            set_probes-Probed (line_bit 6) base (rotate h) probes h bytes
              (λ v. rw size (probe_fits h v hl hw))),
        add_hashes-Found entries (set_probes (line_bit 6) base (rotate h) probes h bytes) hl hw
            (same ∙ size),
      )

-- `AddKey` for each key.
abbrev pub add_each : FullFilterBlockBuilder → List Bytes → FullFilterBlockBuilder
add_each b [] = b
add_each b (key ∷ keys) = add_each (add_key b key) keys

last_is-Any : (entries : List ℕ) (h : ℕ) → last_is entries h ≡ true → Any (λ x. x ≡ h) entries
last_is-Any [] h e = absurd (ground arith)
last_is-Any (x ∷ []) h e = inl (ground arith)
last_is-Any (x ∷ y ∷ entries) h e = inr (last_is-Any (y ∷ entries) h e)

Any-append_left : (P : ℕ → Type 0) (xs ys : List ℕ) → Any P xs → Any P (xs ++ ys)
Any-append_left P [] ys h = elim h [ ]
Any-append_left P (x ∷ xs) ys (inl h) = inl h
Any-append_left P (x ∷ xs) ys (inr h) = inr (Any-append_left P xs ys h)

Any-append_right : (P : ℕ → Type 0) (xs ys : List ℕ) → Any P ys → Any P (xs ++ ys)
Any-append_right P [] ys h = h
Any-append_right P (x ∷ xs) ys h = inr (Any-append_right P xs ys h)

-- The hash value of a key is among the entries.
abbrev pub Noted : FullFilterBlockBuilder → Bytes → Type 0
Noted b key = Any (λ h. h ≡ bloom_hash key) b.hash_entries

add_key-Noted : (b : FullFilterBlockBuilder) (key : Bytes) → Noted (add_key b key) key
unfolding add_key
add_key-Noted b key = elim (Bool-cases (last_is b.hash_entries (bloom_hash key))) [
  | inl t ↦ rw t (last_is-Any b.hash_entries (bloom_hash key) t)
  | inr f ↦ rw f (Any-append_right (λ h. h ≡ bloom_hash key) b.hash_entries _ (inl refl))
]

Noted-add_key :
    (b : FullFilterBlockBuilder) (other key : Bytes) → Noted b key → Noted (add_key b other) key
unfolding add_key
Noted-add_key b other key h = elim (Bool-cases (last_is b.hash_entries (bloom_hash other))) [
  | inl t ↦ rw t h
  | inr f ↦ rw f (Any-append_left (λ x. x ≡ bloom_hash key) b.hash_entries _ h)
]

Noted-add_each :
    (keys : List Bytes) (b : FullFilterBlockBuilder) (key : Bytes)
    → Noted b key
    → Noted (add_each b keys) key
Noted-add_each [] b key h = h
Noted-add_each (other ∷ keys) b key h =
    Noted-add_each keys (add_key b other) key (Noted-add_key b other key h)

pub add_each-Noted :
    (keys : List Bytes) (b : FullFilterBlockBuilder) → All (Noted (add_each b keys)) keys
add_each-Noted [] b = tt
add_each-Noted (key ∷ keys) b = (
  Noted-add_each keys (add_key b key) key (add_key-Noted b key),
  add_each-Noted keys (add_key b key),
)

-- The settings of the builder stay as they are.
pub add_each-settings :
    (keys : List Bytes) (b : FullFilterBlockBuilder)
    → ((add_each b keys).num_probes ≡ b.num_probes)
      × ((add_each b keys).bits_per_key ≡ b.bits_per_key)
unfolding add_key
add_each-settings [] b = (refl, refl)
add_each-settings (key ∷ keys) b = add_each-settings keys (add_key b key)
