-- ===== src/RecordMgr/Block.antt =====
-- `block` of recordmgr/blockbag.h: a stack in an array of BLOCK_SIZE cells. The pointer `next` is
-- left to the list of blocks that a bag is (RecordMgr/BlockBag.antt). `none` is an assertion that
-- fails.
pub mod Laws
use vcaslib.Common.{
  ℕ, ◌+◌, ◌-◌, ◌≤◌, ◌≡◌, Bool, true, false, Option, none, some, List, length, set, if◌then◌else◌,
  ◌==◌, ltb,
}
use vcaslib.Common.Arrays.{get_or, take, index_from}

abbrev pub block_size : ℕ
block_size = 256

pub record Block : Type 0 where
  pub cells : List ℕ
  pub size : ℕ

pub record IsBlock (b : Block) : Type 0 where
  pub whole : length b.cells ≡ block_size
  pub fits : b.size ≤ block_size

-- What the stack holds, the bottom first.
abbrev pub items : Block → List ℕ
items b = take b.size b.cells

unfoldable pub is_full : Block → Bool
is_full b = b.size == block_size

unfoldable pub is_empty : Block → Bool
is_empty b = b.size == 0

unfoldable pub push : Block → ℕ → Option Block
push b obj =
    if ltb b.size block_size
    then some (record { cells = set b.cells b.size obj; size = b.size + 1 })
    else none

unfoldable pub pop : Block → Option (Block × ℕ)
pop b =
    if ltb 0 b.size
    then some (record b { size = b.size - 1 }, get_or b.cells (b.size - 1) 0)
    else none

unfoldable pub peek : Block → ℕ → ℕ
peek b ix = get_or b.cells ix 0

unfoldable pub contains : Block → ℕ → Bool
unfolding index_from
contains b obj = elim (index_from b.cells b.size obj 0) [ none ↦ false | some i ↦ true ]

-- `erase(T * const obj)`
unfoldable pub erase_obj : Block → ℕ → Block
unfolding index_from
erase_obj b obj =
    if b.size == 0
    then b
    else if get_or b.cells (b.size - 1) 0 == obj
    then record b { size = b.size - 1 }
    else elim (index_from b.cells (b.size - 1) obj 0) [
      | none ↦ b
      | some i ↦ record { cells = set b.cells i (get_or b.cells (b.size - 1) 0); size = b.size - 1 }
    ]

-- `erase(const int ix)`
unfoldable pub erase : Block → ℕ → Block
erase b ix = if b.size == 0 then b else record {
  cells = if ix == b.size - 1 then b.cells else set b.cells ix (get_or b.cells (b.size - 1) 0);
  size = b.size - 1;
}

unfoldable pub replace : Block → ℕ → ℕ → Option Block
replace b ix obj =
    if ltb ix b.size
    then (if obj == 0 then none else some (record b { cells = set b.cells ix obj }))
    else none

unfoldable pub clear_without_freeing : Block → Block
clear_without_freeing b = record b { size = 0 }
