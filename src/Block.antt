-- ===== src/Block.antt =====
-- table/block_builder.cc and table/block.h: blocks of entries whose keys share prefixes.
pub mod Decode
pub mod Iterate
pub mod Finish
mod Tests
use Prim.Native.Nat.{Ordering}
use d_lsm.Common.{ℕ, zero, suc, ◌+◌, ◌-◌, ◌*◌, ◌/◌, ◌%◌, ◌^◌, Bool, true, false, ◌&&◌, ◌||◌}
use d_lsm.Common.{List, [], ◌∷◌, ◌++◌, length, take, drop, Option, some, none, ◌>>=◌}
use d_lsm.Common.{bit_or, ltb, leb, ◌==◌, if◌then◌else◌}
use d_lsm.Coding.{Bytes, byte_at, put_varint32, put_fixed32, decode_fixed32, get_varint32_ptr}
use d_lsm.Comparator.{diff_index, is_lt}
use d_lsm.Comparator.Interface.{Comparator}

-- `BlockBuilder`
pub record BlockBuilder : Type 0 where
  pub buffer : Bytes
  pub restarts : List ℕ
  pub counter : ℕ
  pub finished : Bool
  pub last_key : Bytes

-- The constructor, and `Reset_Forward`.
abbrev pub new_builder : BlockBuilder
new_builder = record {
  buffer = [];
  restarts = 0 ∷ [];
  counter = 0;
  finished = false;
  last_key = [];
}

unfoldable pub current_size_estimate : BlockBuilder → ℕ
current_size_estimate b = length b.buffer + length b.restarts * 4 + 4

unfoldable pub put_restarts : Bytes → List ℕ → Bytes
put_restarts buffer [] = buffer
put_restarts buffer (r ∷ restarts) = put_restarts (put_fixed32 buffer r) restarts

-- `Finish`: the block.
unfoldable pub finish_block : BlockBuilder → Bytes
finish_block b = put_fixed32 (put_restarts b.buffer b.restarts) (length b.restarts)

-- `Add`: the shared part and the delta of the key, and the entry.
unfoldable pub shared_length : ℕ → BlockBuilder → Bytes → ℕ
shared_length interval b key = if ltb b.counter interval then diff_index b.last_key key else 0

unfoldable pub put_entry : Bytes → ℕ → Bytes → Bytes → Bytes
put_entry buffer shared key value =
    let non_shared = length key - shared in
    put_varint32 (put_varint32 (put_varint32 buffer shared) non_shared) (length value)
    ++ (drop shared key ++ value)

unfoldable pub add_entry : ℕ → BlockBuilder → Bytes → Bytes → BlockBuilder
add_entry interval b key value =
    let shared = shared_length interval b key in
    record {
      buffer = put_entry b.buffer shared key value;
      restarts = if ltb b.counter interval then b.restarts else b.restarts ++ length b.buffer ∷ [];
      counter = (if ltb b.counter interval then b.counter else 0) + 1;
      finished = b.finished;
      last_key = take shared b.last_key ++ drop shared key;
    }

-- `DecodeEntry`: the three numbers, and what is left behind them up to the limit.
pub record Header : Type 0 where
  pub shared : ℕ
  pub non_shared : ℕ
  pub value_length : ℕ
  pub rest : Bytes

unfoldable pub decode_header : Bytes → Option Header
decode_header p = do
  (s, p1) ← get_varint32_ptr p
  (n, p2) ← get_varint32_ptr p1
  (v, p3) ← get_varint32_ptr p2
  some (record { shared = s; non_shared = n; value_length = v; rest = p3 })

-- The check that delta and value lie before the limit; the sum is a 32-bit word.
abbrev pub check_size : Header → Option Header
check_size e =
    if ltb (length e.rest % 2 ^ 32) ((e.non_shared + e.value_length) % 2 ^ 32) then none else some e

unfoldable pub decode_entry : Bytes → Option Header
decode_entry (a ∷ b ∷ c ∷ p) =
    if ltb (bit_or (bit_or a b) c) 128
    then check_size (record { shared = a; non_shared = b; value_length = c; rest = p })
    else decode_header (a ∷ b ∷ c ∷ p) >>= check_size
decode_entry p = none

-- `Block`: the entries are the bytes before `restart_offset`.
pub record Block : Type 0 where
  pub bytes : Bytes
  pub restart_offset : ℕ
  pub num_restarts : ℕ

unfoldable pub restart_point : Block → ℕ → ℕ
restart_point block index = decode_fixed32 (drop (block.restart_offset + index * 4) block.bytes)

-- `Block::Iter`; `next_offset` is the end of `value_`.
pub record BlockIter : Type 0 where
  pub current : ℕ
  pub restart_index : ℕ
  pub iter_key : Bytes
  pub iter_value : Bytes
  pub next_offset : ℕ
  pub corrupt : Bool

-- The constructor of `Block`; none is a block whose size does not fit, `size_ = 0`.
unfoldable pub open_block : Bytes → Option Block
open_block bytes =
    let size = length bytes in
    let num = decode_fixed32 (drop (size - 4) bytes) in
    if ltb size 4
    then none
    else if ltb ((size - 4) / 4) num
    then none
    else some (record { bytes = bytes; restart_offset = size - (1 + num) * 4; num_restarts = num })

-- The constructor of `Iter`: not valid.
abbrev pub new_iter : Block → BlockIter
new_iter block = record {
  current = block.restart_offset;
  restart_index = block.num_restarts;
  iter_key = [];
  iter_value = [];
  next_offset = 0;
  corrupt = false;
}

abbrev pub valid : Block → BlockIter → Bool
valid block it = ltb it.current block.restart_offset

-- `CorruptionError`
abbrev corruption_error : Block → BlockIter
corruption_error block = record {
  current = block.restart_offset;
  restart_index = block.num_restarts;
  iter_key = [];
  iter_value = [];
  next_offset = 0;
  corrupt = true;
}

-- `while (restart_index_ + 1 < num_restarts_ && GetRestartPoint(restart_index_ + 1) < current_)`:
-- the number of restart points is fuel enough.
unfoldable pub advance_restart : ℕ → Block → ℕ → ℕ → ℕ
advance_restart zero block current index = index
advance_restart (suc fuel) block current index =
    let more = advance_restart fuel block current (index + 1) in
    if ltb (index + 1) block.num_restarts && ltb (restart_point block (index + 1)) current
    then more
    else index

-- The entry that `ParseNextKey` has decoded at `current`, if its shared part fits.
unfoldable pub set_entry : Block → BlockIter → ℕ → Header → Bool × BlockIter
set_entry block it current e =
    if ltb (length it.iter_key) e.shared then (false, corruption_error block) else (
      true,
      record {
        current = current;
        restart_index =
            if e.shared == 0
            then advance_restart block.num_restarts block current it.restart_index
            else it.restart_index;
        iter_key = take e.shared it.iter_key ++ take e.non_shared e.rest;
        iter_value = take e.value_length (drop e.non_shared e.rest);
        next_offset = block.restart_offset - length (drop (e.non_shared + e.value_length) e.rest);
        corrupt = it.corrupt;
      },
    )

-- `ParseNextKey`
unfoldable pub parse_next_key : Block → BlockIter → Bool × BlockIter
parse_next_key block it =
    let current = it.next_offset in
    if leb block.restart_offset current
    then (
      false,
      record {
        current = block.restart_offset;
        restart_index = block.num_restarts;
        iter_key = it.iter_key;
        iter_value = it.iter_value;
        next_offset = it.next_offset;
        corrupt = it.corrupt;
      },
    )
    else (elim (decode_entry (drop current (take block.restart_offset block.bytes))) [
      | none ↦ (false, corruption_error block)
      | some e ↦ set_entry block it current e
    ])

-- `SeekToRestartPoint`
unfoldable pub seek_to_restart_point : Block → ℕ → BlockIter → BlockIter
seek_to_restart_point block index it = record {
  current = it.current;
  restart_index = index;
  iter_key = [];
  iter_value = [];
  next_offset = restart_point block index;
  corrupt = it.corrupt;
}

unfoldable pub seek_to_first : Block → BlockIter → BlockIter
seek_to_first block it = (parse_next_key block (seek_to_restart_point block 0 it)).1

unfoldable pub next : Block → BlockIter → BlockIter
next block it = (parse_next_key block it).1

-- The loops over `ParseNextKey` while entries end before `limit`: each takes three bytes at least.
unfoldable pub parse_until : ℕ → Block → ℕ → BlockIter → BlockIter
parse_until zero block limit it = it
parse_until (suc fuel) block limit it =
    let (more, it') = parse_next_key block it in
    let rest = parse_until fuel block limit it' in
    if more && ltb it'.next_offset limit then rest else it'

unfoldable pub seek_to_last : Block → BlockIter → BlockIter
seek_to_last block it =
    parse_until block.restart_offset block block.restart_offset
      (seek_to_restart_point block (block.num_restarts - 1) it)

-- The loop of `Prev`: the last restart point before `original`, if there is one.
unfoldable pub restart_before : Block → ℕ → ℕ → Option ℕ
restart_before block original zero = if leb original (restart_point block 0) then none else some 0
restart_before block original (suc index) =
    let below = restart_before block original index in
    if leb original (restart_point block (suc index)) then below else some (suc index)

unfoldable pub prev : Block → BlockIter → BlockIter
prev block it = elim (restart_before block it.current it.restart_index) [
  | none ↦ record {
    current = block.restart_offset;
    restart_index = block.num_restarts;
    iter_key = it.iter_key;
    iter_value = it.iter_value;
    next_offset = it.next_offset;
    corrupt = it.corrupt;
  }
  | some index ↦
      parse_until block.restart_offset block it.current (seek_to_restart_point block index it)
]

-- `Seek`, with the comparator of the block.
module _ (c : Comparator) where
  -- The key at a restart point, which shares nothing; none is a corruption.
  unfoldable pub restart_key : Block → ℕ → Option Bytes
  restart_key block index = do
    e ← decode_entry (drop (restart_point block index) (take block.restart_offset block.bytes))
    if e.shared == 0 then some (take e.non_shared e.rest) else none

  -- The binary search among the restart points; the number of them is fuel enough.
  unfoldable pub search_restarts : ℕ → Block → Bytes → ℕ → ℕ → Option ℕ
  search_restarts zero block target left right = some left
  search_restarts (suc fuel) block target left right =
      let mid = (left + right + 1) % 2 ^ 32 / 2 in
      if ltb left right
      then restart_key block mid >>= (λ mid_key.
        let below = is_lt (c.compare mid_key target) in
        search_restarts fuel block target (if below then mid else left)
          (if below then right else mid - 1))
      else some left

  -- The linear search for the first key that is not below the target.
  unfoldable pub parse_while_below : ℕ → Block → Bytes → BlockIter → BlockIter
  parse_while_below zero block target it = it
  parse_while_below (suc fuel) block target it =
      let (more, it') = parse_next_key block it in
      let rest = parse_while_below fuel block target it' in
      if more && is_lt (c.compare it'.iter_key target) then rest else it'

  -- The search from the interval that the present position leaves; `ahead` says that the target is
  -- behind the present key.
  unfoldable pub seek_within : Block → Bytes → BlockIter → Bool → ℕ → ℕ → BlockIter
  seek_within block target it ahead left right =
      elim (search_restarts block.num_restarts block target left right) [
        | none ↦ corruption_error block
        | some found ↦ parse_while_below block.restart_offset block target (
            if (found == it.restart_index) && ahead
            then it
            else seek_to_restart_point block found it)
      ]

  unfoldable pub seek : Block → Bytes → BlockIter → BlockIter
  seek block target it =
      let last = block.num_restarts - 1 in
      if valid block it
      then (elim (c.compare it.iter_key target) [
        | Ordering.lt ↦ seek_within block target it true it.restart_index last
        | Ordering.gt ↦ seek_within block target it false 0 it.restart_index
        | Ordering.eq ↦ it
      ])
      else seek_within block target it false 0 last
