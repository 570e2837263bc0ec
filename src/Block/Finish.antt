-- ===== src/Block/Finish.antt =====
-- From `BlockBuilder::Finish` to the iterator over the opened block.
use d_lsm.Common.{ℕ, suc, ◌+◌, ◌-◌, ◌*◌, ◌/◌, ◌^◌, ◌≤◌, ◌<◌, ◌≡◌, refl, sym, ap, ◌∙◌, arith}
use d_lsm.Common.{inl, inr, Bool-cases, ltb, le→ltb}
use d_lsm.Common.{List, [], ◌∷◌, ◌++◌, All, drop, length, length-append, some}
use d_lsm.Common.{append_assoc, append-nil, drop-append_self, take-append_self}
use d_lsm.Coding.{Bytes, encode_fixed32, decode_fixed32, put_fixed32}
use d_lsm.Coding.Fixed.{decode_fixed32-encode_fixed32}
use d_lsm.Block.{BlockBuilder, new_builder, add_entry, put_restarts, finish_block}
use d_lsm.Block.{
  Block, open_block, restart_point, new_iter, seek_to_restart_point, seek_to_first, next,
}
use d_lsm.Block.Decode.{IsBlockEntry}
use d_lsm.Block.Iterate.{add_entries, codes, buffer-add_entries, read_all, read_all-entries}

length-encode_fixed32 : (v : ℕ) → length (encode_fixed32 v) ≡ 4
unfolding encode_fixed32
length-encode_fixed32 v = refl

-- The restart array.
abbrev restart_bytes : List ℕ → Bytes
restart_bytes [] = []
restart_bytes (r ∷ restarts) = encode_fixed32 r ++ restart_bytes restarts

put_restarts-append :
    (buffer : Bytes) (restarts : List ℕ)
    → put_restarts buffer restarts ≡ buffer ++ restart_bytes restarts
unfolding put_restarts put_fixed32
put_restarts-append buffer [] = sym (append-nil buffer)
put_restarts-append buffer (r ∷ restarts) =
    put_restarts-append (buffer ++ encode_fixed32 r) restarts
    ∙ append_assoc buffer (encode_fixed32 r) (restart_bytes restarts)

length-restart_bytes : (restarts : List ℕ) → length (restart_bytes restarts) ≡ length restarts * 4
length-restart_bytes [] = refl
length-restart_bytes (r ∷ restarts) = omega (
  arith,
  length-append (encode_fixed32 r) (restart_bytes restarts),
  length-encode_fixed32 r,
  length-restart_bytes restarts,
)

-- A block of these entries and restart points.
abbrev block_bytes : Bytes → List ℕ → Bytes
block_bytes buffer restarts = buffer ++ (restart_bytes restarts ++ encode_fixed32 (length restarts))

abbrev block_of : Bytes → List ℕ → Block
block_of buffer restarts = record {
  bytes = block_bytes buffer restarts;
  restart_offset = length buffer;
  num_restarts = length restarts;
}

finish_block-bytes : (b : BlockBuilder) → finish_block b ≡ block_bytes b.buffer b.restarts
unfolding finish_block put_fixed32
finish_block-bytes b =
    rw (put_restarts-append b.buffer b.restarts)
      (append_assoc b.buffer (restart_bytes b.restarts) (encode_fixed32 (length b.restarts)))

length-block_bytes :
    (buffer : Bytes) (restarts : List ℕ)
    → length (block_bytes buffer restarts) ≡ length buffer + (length restarts * 4 + 4)
length-block_bytes buffer restarts = omega (
  arith,
  length-append buffer (restart_bytes restarts ++ encode_fixed32 (length restarts)),
  length-append (restart_bytes restarts) (encode_fixed32 (length restarts)),
  length-restart_bytes restarts,
  length-encode_fixed32 (length restarts),
)

decode_fixed32-last : (v : ℕ) → v < 2 ^ 32 → decode_fixed32 (encode_fixed32 v) ≡ v
decode_fixed32-last v h =
    ap decode_fixed32 (sym (append-nil (encode_fixed32 v))) ∙ decode_fixed32-encode_fixed32 v [] h

-- Opening the block finds the end of the entries and the number of restart points.
open_block-block_bytes :
    (buffer : Bytes) (restarts : List ℕ)
    → length (block_bytes buffer restarts) < 2 ^ 32
    → open_block (block_bytes buffer restarts) ≡ some (block_of buffer restarts)
unfolding open_block
open_block-block_bytes buffer restarts h =
    let size = length-block_bytes buffer restarts in
    let n = length restarts in
    let front = buffer ++ restart_bytes restarts in
    let split : block_bytes buffer restarts ≡ front ++ encode_fixed32 n =
      sym (append_assoc buffer (restart_bytes restarts) (encode_fixed32 n)) in
    let at : length buffer + (n * 4 + 4) - 4 ≡ length front =
      omega (arith, length-append buffer (restart_bytes restarts), length-restart_bytes restarts) in
    let tail : drop (length front) (block_bytes buffer restarts) ≡ encode_fixed32 n =
      ap (drop (length front)) split ∙ drop-append_self front (encode_fixed32 n) in
    let num : decode_fixed32 (encode_fixed32 n) ≡ n =
      decode_fixed32-last n (omega (arith, size, h)) in
    let enough : n ≤ length front / 4 =
      omega (arith, length-append buffer (restart_bytes restarts), length-restart_bytes restarts) in
    let offset : length buffer + (n * 4 + 4) - (1 + n) * 4 ≡ length buffer = omega arith in
    rw (size, at, tail, num)
      (rw
        (
          le→ltb (length buffer + (n * 4 + 4)) 4 (omega arith),
          le→ltb (length front / 4) n enough,
          offset,
        )
        refl)

add_entries-restarts :
    (interval : ℕ) (b : BlockBuilder) (es : List (Bytes × Bytes)) (more : List ℕ)
    → b.restarts ≡ 0 ∷ more
    → (more' : List ℕ) × ((add_entries interval b es).restarts ≡ 0 ∷ more')
unfolding add_entry
add_entries-restarts interval b [] more h = (more, h)
add_entries-restarts interval b ((k, v) ∷ es) more h = elim (Bool-cases (ltb b.counter interval)) [
  | inl on ↦ add_entries-restarts interval (add_entry interval b k v) es more (rw on h)
  | inr off ↦
      add_entries-restarts interval (add_entry interval b k v) es (more ++ length b.buffer ∷ [])
        (rw (off, h) refl)
]

-- The first restart point of a block whose builder started at 0.
restart_point-first :
    (buffer : Bytes) (more : List ℕ) → restart_point (block_of buffer (0 ∷ more)) 0 ≡ 0
unfolding restart_point
restart_point-first buffer more =
    let rest = restart_bytes more ++ encode_fixed32 (suc (length more)) in
    let start : length buffer + 0 * 4 ≡ length buffer = omega arith in
    rw
      (
        start,
        drop-append_self buffer (restart_bytes (0 ∷ more) ++ encode_fixed32 (suc (length more))),
      )
      (ap decode_fixed32 (
          append_assoc (encode_fixed32 0) (restart_bytes more) (encode_fixed32 (suc (length more))))
        ∙ decode_fixed32-encode_fixed32 0 rest (omega arith))

read_all-block_of :
    (interval fuel : ℕ) (es : List (Bytes × Bytes)) (more : List ℕ)
    → All (λ e. IsBlockEntry e.0 e.1) es
    → length (codes interval new_builder es) < 2 ^ 32
    → length es ≤ fuel
    → let block = block_of (codes interval new_builder es) (0 ∷ more) in
      read_all block fuel (seek_to_first block (new_iter block)) ≡ es
unfolding seek_to_first next seek_to_restart_point
read_all-block_of interval fuel es more h small enough =
    let buffer = codes interval new_builder es in
    let block = block_of buffer (0 ∷ more) in
    read_all-entries block interval fuel new_builder es []
      (seek_to_restart_point block 0 (new_iter block))
      (take-append_self buffer (restart_bytes (0 ∷ more) ++ encode_fixed32 (suc (length more))))
      refl small (restart_point-first buffer more) refl h enough

-- Iterating the finished block from its first entry on until the iterator is not valid gives the entries
-- that were added, in order, and ends, for any restart interval: the number of entries and every
-- greater one is fuel enough. The entries are such as a block holds, and the block is shorter than 2^32.
pub read_all-finish_block :
    (interval fuel : ℕ) (es : List (Bytes × Bytes))
    → All (λ e. IsBlockEntry e.0 e.1) es
    → length (finish_block (add_entries interval new_builder es)) < 2 ^ 32
    → length es ≤ fuel
    → (block : Block) × (open_block (finish_block (add_entries interval new_builder es))
        ≡ some block)
      × (read_all block fuel (seek_to_first block (new_iter block)) ≡ es)
read_all-finish_block interval fuel es h small enough =
    let b = add_entries interval new_builder es in
    let (more, starts) = add_entries-restarts interval new_builder es [] refl in
    let buffer = codes interval new_builder es in
    let whole : finish_block b ≡ block_bytes buffer (0 ∷ more) =
      finish_block-bytes b ∙ rw (buffer-add_entries interval new_builder es, starts) refl in
    let fits : length (block_bytes buffer (0 ∷ more)) < 2 ^ 32 = rw (← whole) small in
    (
      block_of buffer (0 ∷ more),
      ap open_block whole ∙ open_block-block_bytes buffer (0 ∷ more) fits,
      read_all-block_of interval fuel es more h
          (omega (arith, fits, length-block_bytes buffer (0 ∷ more))) enough,
    )
