-- ===== src/Block/Tests.antt =====
-- The theorems on blocks at concrete inputs, and moves of the iterator.
use d_lsm.Common.{◌≡◌, ◌<◌, ◌^◌, ◌+◌, arith, List, [], ◌∷◌, All, length, some}
use d_lsm.Coding.{Bytes, encode_varint32, put_varint32, put_fixed32, encode_fixed32, IsByte}
use d_lsm.Comparator.{diff_index}
use d_lsm.Block.{
  Block, new_builder, add_entry, shared_length, put_entry, put_restarts, finish_block,
}
use d_lsm.Block.{open_block, new_iter, seek_to_first}
use d_lsm.Block.Decode.{IsBlockEntry}
use d_lsm.Block.Iterate.{add_entries, read_all}
use d_lsm.Block.Finish.{read_all-finish_block}

-- Three entries, two of which share a prefix.
abbrev entries : List (Bytes × Bytes)
entries = (97 ∷ 98 ∷ 99 ∷ [], 1 ∷ []) ∷ (97 ∷ 98 ∷ 100 ∷ [], 2 ∷ 3 ∷ []) ∷ (98 ∷ [], []) ∷ []

IsBlockEntry-small :
    (k v : Bytes) → length k + length v < 100 → All IsByte k → All IsByte v → IsBlockEntry k v
IsBlockEntry-small k v h hk hv = record { fits = omega arith; key_bytes = hk; value_bytes = hv }

entries-IsBlockEntry : All (λ e. IsBlockEntry e.0 e.1) entries
entries-IsBlockEntry = (
  IsBlockEntry-small _ _ (omega arith) (omega arith) (omega arith),
  (
    IsBlockEntry-small _ _ (omega arith) (omega arith) (omega arith),
    (IsBlockEntry-small _ _ (omega arith) (omega arith) tt, tt),
  ),
)

short_block : length (finish_block (add_entries 2 new_builder entries)) < 2 ^ 32
unfolding finish_block put_restarts put_fixed32 encode_fixed32 add_entry put_entry put_varint32
    encode_varint32 shared_length diff_index
short_block = omega arith

read_all-finish_block_example :
    (block : Block) × (open_block (finish_block (add_entries 2 new_builder entries)) ≡ some block)
    × (read_all block 9 (seek_to_first block (new_iter block)) ≡ entries)
read_all-finish_block_example =
    read_all-finish_block 2 9 entries entries-IsBlockEntry short_block (omega arith)
