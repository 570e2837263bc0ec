-- ===== src/Block/Iterate.antt =====
-- Iterating a block from its first entry gives the entries that were added to its builder.
use d_lsm.Common.{ℕ, zero, suc, ◌+◌, ◌-◌, ◌^◌, ◌≤◌, ◌<◌, ◌≡◌, refl, sym, ap, ◌∙◌, arith}
use d_lsm.Common.{
  Bool, true, false, inl, inr, Bool-cases, ltb, leb, le→ltb, lt→ltb, le→leb, ◌==◌, if◌then◌else◌,
}
use d_lsm.Common.{List, [], ◌∷◌, ◌++◌, All, All-append, take, drop, length, length-append}
use d_lsm.Common.{
  append_assoc, append-nil, drop-append_self, take-append_self, take-append-drop, length-drop,
}
use d_lsm.Coding.{Bytes, IsByte}
use d_lsm.Comparator.{diff_index}
use d_lsm.Block.{BlockBuilder, shared_length, add_entry}
use d_lsm.Block.{Block, BlockIter, set_entry, parse_next_key, valid, next}
use d_lsm.Block.Decode.{entry_code, put_entry-append, length-entry_code, IsBlockEntry}
use d_lsm.Block.Decode.{entry_code-IsByte, decode_entry-entry_code}

take-diff_index : (a b : Bytes) → take (diff_index a b) a ≡ take (diff_index a b) b
unfolding diff_index
take-diff_index [] b = refl
take-diff_index (x ∷ a) [] = refl
take-diff_index (x ∷ a) (y ∷ b) = elim (Bool-cases (x == y)) [
  | inl same ↦
      let equal : x ≡ y = ground arith in
      rw (same, equal) (ap (λ (t : Bytes). y ∷ t) (take-diff_index a b))
  | inr other ↦ rw other refl
]

diff_index-le : (a b : Bytes) → (diff_index a b ≤ length a) × (diff_index a b ≤ length b)
unfolding diff_index
diff_index-le [] b = (omega arith, omega arith)
diff_index-le (x ∷ a) [] = (omega arith, omega arith)
diff_index-le (x ∷ a) (y ∷ b) = ground (arith, diff_index-le a b)

module _ (interval : ℕ) where
  -- The calls of `Add`.
  abbrev pub add_entries : BlockBuilder → List (Bytes × Bytes) → BlockBuilder
  add_entries b [] = b
  add_entries b ((k, v) ∷ es) = add_entries (add_entry interval b k v) es

  abbrev pub codes : BlockBuilder → List (Bytes × Bytes) → Bytes
  codes b [] = []
  codes b ((k, v) ∷ es) =
      entry_code (shared_length interval b k) k v ++ codes (add_entry interval b k v) es

  pub buffer-add_entries :
      (b : BlockBuilder) (es : List (Bytes × Bytes))
      → (add_entries b es).buffer ≡ b.buffer ++ codes b es
  unfolding add_entry
  buffer-add_entries b [] = sym (append-nil b.buffer)
  buffer-add_entries b ((k, v) ∷ es) =
      buffer-add_entries (add_entry interval b k v) es
      ∙ rw (put_entry-append b.buffer (shared_length interval b k) k v)
          (append_assoc b.buffer (entry_code (shared_length interval b k) k v) _)

  pub shared_length-le :
      (b : BlockBuilder) (k : Bytes)
      → (shared_length interval b k ≤ length b.last_key)
        × (shared_length interval b k ≤ length k)
        × (take (shared_length interval b k) b.last_key ≡ take (shared_length interval b k) k)
  unfolding shared_length
  shared_length-le b k = elim (Bool-cases (ltb b.counter interval)) [
    | inl on ↦ let (l, r) = diff_index-le b.last_key k in rw on (l, r, take-diff_index b.last_key k)
    | inr off ↦ rw off (omega arith, omega arith, refl)
  ]

  pub codes-IsByte :
      (b : BlockBuilder) (es : List (Bytes × Bytes))
      → All (λ e. IsBlockEntry e.0 e.1) es
      → All IsByte (codes b es)
  codes-IsByte b [] h = tt
  codes-IsByte b ((k, v) ∷ es) (hk, h) =
      let (_, fits, _) = shared_length-le b k in
      All-append IsByte (entry_code (shared_length interval b k) k v)
        (codes (add_entry interval b k v) es)
        (entry_code-IsByte (shared_length interval b k) k v hk fits)
        (codes-IsByte (add_entry interval b k v) es h)

  pub last_key-add_entry :
      (b : BlockBuilder) (k v : Bytes) → (add_entry interval b k v).last_key ≡ k
  unfolding add_entry
  last_key-add_entry b k v =
      let (_, _, same) = shared_length-le b k in
      rw same (take-append-drop (shared_length interval b k) k)

drop-append_both : (xs ys zs : Bytes) → drop (length xs + length ys) (xs ++ (ys ++ zs)) ≡ zs
drop-append_both xs ys zs =
    rw (← append_assoc xs ys zs, ← length-append xs ys) (drop-append_self (xs ++ ys) zs)

-- What a call of `ParseNextKey` leaves when it finds an entry.
abbrev pub Parsed : Bytes → Bytes → ℕ → ℕ → Bool × BlockIter → Type 0
Parsed k v at end r =
    (r.0 ≡ true)
    × (r.1.iter_key ≡ k)
    × (r.1.iter_value ≡ v)
    × (r.1.current ≡ at)
    × (r.1.next_offset ≡ end)

module _ (block : Block) where
  set_entry-Parsed :
      (it : BlockIter) (at s : ℕ) (k v rest : Bytes)
      → s ≤ length it.iter_key
      → s ≤ length k
      → take s it.iter_key ≡ take s k
      → Parsed k v at (block.restart_offset - length rest) (
          set_entry block it at (record {
            shared = s;
            non_shared = length k - s;
            value_length = length v;
            rest = drop s k ++ (v ++ rest);
          }))
  unfolding set_entry
  set_entry-Parsed it at s k v rest hs hk same =
      let delta : length k - s ≡ length (drop s k) = sym (length-drop s k) in
      rw (le→ltb (length it.iter_key) s hs, delta)
        (
          refl,
          rw (take-append_self (drop s k) (v ++ rest), same) (take-append-drop s k),
          rw (drop-append_self (drop s k) (v ++ rest)) (take-append_self v rest),
          refl,
          ap (λ (t : Bytes). block.restart_offset - length t) (drop-append_both (drop s k) v rest),
        )

  -- `ParseNextKey` at an entry whose key shares a prefix with the last one.
  parse_next_key-Parsed :
      (it : BlockIter) (pre rest : Bytes) (s : ℕ) (k v : Bytes)
      → take block.restart_offset block.bytes ≡ pre ++ (entry_code s k v ++ rest)
      → block.restart_offset ≡ length (pre ++ (entry_code s k v ++ rest))
      → block.restart_offset < 2 ^ 32
      → it.next_offset ≡ length pre
      → IsBlockEntry k v
      → All IsByte rest
      → s ≤ length it.iter_key
      → s ≤ length k
      → take s it.iter_key ≡ take s k
      → Parsed k v (length pre) (length pre + length (entry_code s k v)) (parse_next_key block it)
  unfolding parse_next_key
  parse_next_key-Parsed it pre rest s k v content size small here h hr hs hk same =
      let code = entry_code s k v in
      let whole : block.restart_offset ≡ length pre + (length code + length rest) =
        omega (arith, size, length-append pre (code ++ rest), length-append code rest) in
      let open_end : leb block.restart_offset (length pre) ≡ false =
        ground (arith, whole, length-entry_code s k v) in
      let end : block.restart_offset - length rest ≡ length pre + length code =
        omega (arith, whole) in
      let (a, b, c, d, e) = set_entry-Parsed it it.next_offset s k v rest hs hk same in
      rw (here, open_end, content, drop-append_self pre (code ++ rest))
        (rw
          (decode_entry-entry_code s k v h rest hk hr
            (omega (arith, length-append code rest, whole, small)))
          (rw (← end) (a, b, c, d ∙ here, e)))

  -- `for (...; iter->Valid(); iter->Next())`, with the number of entries as fuel.
  abbrev pub read_all : ℕ → BlockIter → List (Bytes × Bytes)
  read_all zero it = []
  read_all (suc fuel) it =
      let rest = read_all fuel (next block it) in
      if valid block it then (it.iter_key, it.iter_value) ∷ rest else []

  parse_next_key-end :
      (it : BlockIter)
      → it.next_offset ≡ block.restart_offset
      → valid block (parse_next_key block it).1 ≡ false
  unfolding parse_next_key
  parse_next_key-end it h =
      rw (le→leb block.restart_offset it.next_offset (omega (arith, h)))
        (le→ltb block.restart_offset block.restart_offset (omega arith))

  pub read_all-entries :
      (interval fuel : ℕ) (b : BlockBuilder) (es : List (Bytes × Bytes)) (pre : Bytes)
      (it : BlockIter)
      → take block.restart_offset block.bytes ≡ pre ++ codes interval b es
      → block.restart_offset ≡ length (pre ++ codes interval b es)
      → block.restart_offset < 2 ^ 32
      → it.next_offset ≡ length pre
      → it.iter_key ≡ b.last_key
      → All (λ e. IsBlockEntry e.0 e.1) es
      → length es ≤ fuel
      → read_all fuel (next block it) ≡ es
  unfolding next
  read_all-entries interval zero b [] pre it content size small here last h hf = refl
  read_all-entries interval (suc fuel) b [] pre it content size small here last h hf =
      rw (parse_next_key-end it (here ∙ (ap length (sym (append-nil pre)) ∙ sym size))) refl
  read_all-entries interval zero b (e ∷ es) pre it content size small here last h hf =
      absurd (omega arith)
  read_all-entries interval (suc fuel) b ((k, v) ∷ es) pre it content size small here last (hk, h)
        hf =
      let s = shared_length interval b k in
      let b' = add_entry interval b k v in
      let code = entry_code s k v in
      let rest = codes interval b' es in
      let (s_last, s_key, same) = shared_length-le interval b k in
      let (_, key, value, at, end) =
        parse_next_key-Parsed it pre rest s k v content size small here hk
          (codes-IsByte interval b' es h) (rw last s_last) s_key (rw last same) in
      let open_end : ltb (parse_next_key block it).1.current block.restart_offset ≡ true =
        lt→ltb (parse_next_key block it).1.current block.restart_offset (
          omega (
            arith,
            at,
            size,
            length-append pre (code ++ rest),
            length-append code rest,
            length-entry_code s k v,
          )) in
      rw (open_end, key, value)
        (ap (λ (t : List (Bytes × Bytes)). (k, v) ∷ t)
          (read_all-entries interval fuel b' es (pre ++ code) (parse_next_key block it).1
            (content ∙ sym (append_assoc pre code rest))
            (size ∙ ap length (sym (append_assoc pre code rest))) small
            (end ∙ sym (length-append pre code)) (key ∙ sym (last_key-add_entry interval b k v)) h
            (omega (arith, hf))))
