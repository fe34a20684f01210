-- ===== src/RecordMgr/BlockBag.antt =====
-- `blockbag` of recordmgr/blockbag.h: a bag as a list of blocks, the head first. The list stands for
-- the chain of `next` pointers from `head` to `tail`, so `tail` is its last element. The blockpool
-- enters by the memory of the blocks that it hands out: `cells`, with whatever is in it. `none` is
-- an assertion that fails.
pub mod Shape
pub mod Laws
pub mod Moves
pub mod Shared
pub mod Iterator
pub mod Erase
use vcaslib.Common.{
  ℕ, zero, suc, ◌+◌, ◌-◌, ◌<◌, ◌≡◌, Bool, true, false, ◌&&◌, Option, none, some, List, [], ◌∷◌,
  ◌++◌, length, if◌then◌else◌, ◌==◌, ltb,
}
use vcaslib.RecordMgr.Block.{
  Block, block_size, is_full, is_empty, push, pop, erase, replace, clear_without_freeing,
}
use vcaslib.RecordMgr.Block

infixl 5 ◌>>=◌
abbrev pub ◌>>=◌ {ℓ κ} : {A : Type ℓ} {B : Type κ} → Option A → (A → Option B) → Option B
none >>= f = none
some a >>= f = f a

pub record BlockBag : Type 0 where
  pub blocks : List Block
  pub size_in_blocks : ℕ

-- `allocateBlock`
abbrev pub allocate_block : List ℕ → Block
allocate_block cells = record { cells = cells; size = 0 }

-- The constructor.
unfoldable pub create : List ℕ → BlockBag
create cells = record { blocks = allocate_block cells ∷ []; size_in_blocks = 1 }

unfoldable pub compute_size_in_blocks : List Block → ℕ
compute_size_in_blocks [] = 0
compute_size_in_blocks (b ∷ bs) = compute_size_in_blocks bs + 1

unfoldable pub compute_size : List Block → ℕ
compute_size [] = 0
compute_size (b ∷ bs) = b.size + compute_size bs

unfoldable pub bag_is_empty : List Block → Bool
unfolding is_empty
bag_is_empty (b ∷ []) = is_empty b
bag_is_empty _ = false

-- `add(T * const obj)`
unfoldable pub add_to : List Block → ℕ → ℕ → List ℕ → Option BlockBag
unfolding push is_full
add_to [] n obj cells = none
add_to (head ∷ rest) n obj cells = do
  head' ← push head obj
  some (
      if is_full head'
      then record { blocks = allocate_block cells ∷ head' ∷ rest; size_in_blocks = n + 1 }
      else record { blocks = head' ∷ rest; size_in_blocks = n })

unfoldable pub add : BlockBag → ℕ → List ℕ → Option BlockBag
unfolding add_to
add bag obj cells = add_to bag.blocks bag.size_in_blocks obj cells

-- `removeFullBlock`: the second block, if a third one follows.
unfoldable pub remove_full_from : List Block → ℕ → Option (BlockBag × Option Block)
remove_full_from (head ∷ second ∷ third ∷ rest) n =
    if second.size == block_size
    then some (record { blocks = head ∷ third ∷ rest; size_in_blocks = n - 1 }, some second)
    else none
remove_full_from bs n = some (record { blocks = bs; size_in_blocks = n }, none)

unfoldable pub remove_full_block : BlockBag → Option (BlockBag × Option Block)
unfolding remove_full_from
remove_full_block bag = remove_full_from bag.blocks bag.size_in_blocks

-- `assert(b)`: a null block fails it.
abbrev pub assert_block : BlockBag × Option Block → Option (BlockBag × Option Block)
assert_block (bag, none) = none
assert_block (bag, some b) = some (bag, some b)

-- The end of `add(tid, obj, sharedBag, thresh, alloc)`: the block in the result goes to the shared
-- bag.
unfoldable pub give_full_block : BlockBag → ℕ → Option (BlockBag × Option Block)
unfolding remove_full_block
give_full_block bag thresh =
    if ltb thresh bag.size_in_blocks
    then (remove_full_block bag >>= assert_block)
    else some (bag, none)

unfoldable pub add_shared_to : List Block → ℕ → ℕ → ℕ → List ℕ → Option (BlockBag × Option Block)
unfolding push is_full give_full_block
add_shared_to [] n obj thresh cells = none
add_shared_to (head ∷ rest) n obj thresh cells = do
  head' ← push head obj
  (if is_full head'
      then give_full_block
          (record { blocks = allocate_block cells ∷ head' ∷ rest; size_in_blocks = n + 1 }) thresh
      else some (record { blocks = head' ∷ rest; size_in_blocks = n }, none))

unfoldable pub add_shared : BlockBag → ℕ → ℕ → List ℕ → Option (BlockBag × Option Block)
unfolding add_shared_to
add_shared bag obj thresh cells = add_shared_to bag.blocks bag.size_in_blocks obj thresh cells

-- `remove()`
unfoldable pub remove_from : List Block → ℕ → Option (BlockBag × ℕ)
unfolding pop is_empty
remove_from [] n = none
remove_from (head ∷ []) n = do
  (head', obj) ← pop head
  some (record { blocks = head' ∷ []; size_in_blocks = n }, obj)
remove_from (head ∷ second ∷ rest) n =
    if is_empty head
    then (do
      (second', obj) ← pop second
      some (record { blocks = second' ∷ rest; size_in_blocks = n - 1 }, obj))
    else (do
      (head', obj) ← pop head
      some (record { blocks = head' ∷ second ∷ rest; size_in_blocks = n }, obj))

unfoldable pub remove : BlockBag → Option (BlockBag × ℕ)
unfolding remove_from bag_is_empty
remove bag = if bag_is_empty bag.blocks then none else remove_from bag.blocks bag.size_in_blocks

-- `addFullBlock`
unfoldable pub add_full_block : BlockBag → Block → Option BlockBag
add_full_block bag b =
    if b.size == block_size
    then some (record { blocks = bag.blocks ++ b ∷ []; size_in_blocks = bag.size_in_blocks + 1 })
    else none

-- `appendMoveFullBlocks(other)`: the predecessor is the head of `other`. The results are this bag
-- and the other.
unfoldable pub append_move : BlockBag → List Block → ℕ → Option (BlockBag × BlockBag)
unfolding compute_size_in_blocks is_full
append_move bag [] n = none
append_move bag (head ∷ []) n = some (bag, record { blocks = head ∷ []; size_in_blocks = n })
append_move bag (head ∷ next ∷ rest) n =
    if is_full next
    then some (
      record {
        blocks = bag.blocks ++ next ∷ rest;
        size_in_blocks = compute_size_in_blocks (bag.blocks ++ next ∷ rest);
      },
      record { blocks = head ∷ []; size_in_blocks = compute_size_in_blocks (head ∷ []) },
    )
    else none

unfoldable pub append_move_full_blocks : BlockBag → BlockBag → Option (BlockBag × BlockBag)
unfolding append_move
append_move_full_blocks bag other = append_move bag other.blocks other.size_in_blocks

-- The `while` of `appendMoveAll`, with fuel; `memory` is what the pool hands out.
unfoldable pub move_loop :
    ℕ → (memory : ℕ → List ℕ) → BlockBag → BlockBag → Option (BlockBag × BlockBag)
unfolding add remove bag_is_empty
move_loop zero memory bag other = none
move_loop (suc k) memory bag other = elim (bag_is_empty other.blocks) [
  | true ↦ some (bag, other)
  | false ↦ do
    (other', obj) ← remove other
    bag' ← add bag obj (memory k)
    move_loop k memory bag' other'
]

unfoldable pub append_move_all :
    (memory : ℕ → List ℕ) → BlockBag → BlockBag → Option (BlockBag × BlockBag)
unfolding move_loop append_move_full_blocks compute_size compute_size_in_blocks
append_move_all memory bag other = do
  (bag1, other1) ← append_move_full_blocks bag other
  (bag2, other2) ← move_loop (suc (compute_size other1.blocks)) memory bag1 other1
  some (record bag2 { size_in_blocks = compute_size_in_blocks bag2.blocks }, other2)

-- `clearWithoutFreeingElements`
unfoldable pub clear : List Block → Option BlockBag
unfolding clear_without_freeing
clear [] = none
clear (head ∷ rest) = some (record { blocks = clear_without_freeing head ∷ []; size_in_blocks = 1 })
