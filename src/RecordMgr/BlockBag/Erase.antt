-- ===== src/RecordMgr/BlockBag/Erase.antt =====
-- `erase(curr, ix)` of `blockbag` of recordmgr/blockbag.h. The block `curr` is given by its place in
-- the bag, 0 for the head. `none` is an assertion that fails, or a block that the bag has not.
pub mod Laws
use vcaslib.Common.{
  ℕ, zero, suc, ◌+◌, ◌-◌, ◌<◌, ◌≡◌, ◌≢◌, refl, Bool, true, false, Option, none, some, List, [], ◌∷◌,
  inl, inr, length, length-set, set, if◌then◌else◌, ◌==◌, ltb, Bool-cases, arith, ◌∙◌,
}
use vcaslib.Common.Arrays.{take, count, one_if, count-append, count-take-set, Removed}
use vcaslib.RecordMgr.Block
use vcaslib.RecordMgr.Block.{Block, IsBlock, block_size, is_empty, items, peek, pop, replace}
use vcaslib.RecordMgr.Block.Laws.{items-erase}
use vcaslib.RecordMgr.BlockBag.{BlockBag, bag_is_empty, ◌>>=◌}
use vcaslib.RecordMgr.BlockBag.Shape.{AllFull, Shape, IsBag, contents}
use vcaslib.RecordMgr.BlockBag.Laws.{pop_one, Added-front}

-- `curr->isEmpty()`, and `curr->peek(ix)`
abbrev pub empty_at : List Block → ℕ → Option Bool
empty_at [] n = none
empty_at (b ∷ bs) zero = some (is_empty b)
empty_at (b ∷ bs) (suc n) = empty_at bs n

abbrev pub peek_at : List Block → ℕ → ℕ → ℕ
peek_at [] n ix = 0
peek_at (b ∷ bs) zero ix = peek b ix
peek_at (b ∷ bs) (suc n) ix = peek_at bs n ix

-- `curr->replace(ix, obj)`
unfoldable pub replace_at : List Block → ℕ → ℕ → ℕ → Option (List Block)
unfolding replace
replace_at [] n ix obj = none
replace_at (b ∷ bs) zero ix obj = do b' ← replace b ix obj; some (b' ∷ bs)
replace_at (b ∷ bs) (suc n) ix obj = do bs' ← replace_at bs n ix obj; some (b ∷ bs')

-- The two cases, where the head has objects.
unfoldable pub erase_in : List Block → (size_in_blocks n ix : ℕ) → Option (BlockBag × Bool)
unfolding is_empty pop replace_at
erase_in [] k n ix = none
erase_in (head ∷ rest) k zero ix =
    if is_empty head
    then none
    else some (record { blocks = Block.erase head ix ∷ rest; size_in_blocks = k }, false)
erase_in (head ∷ rest) k (suc n) ix = if is_empty head then none else (do
  (head', obj) ← pop head
  rest' ← replace_at rest n ix obj
  some (record { blocks = head' ∷ rest'; size_in_blocks = k }, true))

-- An empty head goes first.
unfoldable pub erase_from : List Block → (size_in_blocks n ix : ℕ) → Option (BlockBag × Bool)
unfolding is_empty erase_in
erase_from [] k n ix = none
erase_from (head ∷ rest) k zero ix =
    if is_empty head then none else erase_in (head ∷ rest) k zero ix
erase_from (head ∷ rest) k (suc n) ix =
    if is_empty head then erase_in rest (k - 1) n ix else erase_in (head ∷ rest) k (suc n) ix

unfoldable pub erase : BlockBag → (n ix : ℕ) → Option (BlockBag × Bool)
unfolding erase_from bag_is_empty
erase bag n ix = if bag_is_empty bag.blocks then none else (do
  e ← empty_at bag.blocks n
  (if e then none else erase_from bag.blocks bag.size_in_blocks n ix))
