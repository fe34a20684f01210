-- ===== src/RecordMgr/BlockBag/Shape.antt =====
-- The invariant that the comments of recordmgr/blockbag.h state, and the contents of a bag.
use vcaslib.Common.{ℕ, ◌+◌, ◌<◌, ◌≡◌, refl, List, [], ◌∷◌, ◌++◌, length, length-append, arith}
use vcaslib.Common.Arrays.{count, count-append, length-take_le}
use vcaslib.RecordMgr.Block.{Block, IsBlock, block_size}
use vcaslib.RecordMgr.Block
use vcaslib.RecordMgr.BlockBag.{BlockBag, compute_size, compute_size_in_blocks}

-- All blocks are full.
abbrev pub AllFull : List Block → Type 0
AllFull [] = Unit
AllFull (b ∷ bs) = IsBlock b × (b.size ≡ block_size) × AllFull bs

-- The head is there and is not full; all other blocks are full.
abbrev pub Shape : List Block → Type 0
Shape [] = ⊥
Shape (b ∷ bs) = IsBlock b × (b.size < block_size) × AllFull bs

pub record IsBag (bag : BlockBag) : Type 0 where
  pub shape : Shape bag.blocks
  pub counted : bag.size_in_blocks ≡ length bag.blocks

abbrev pub contents : List Block → List ℕ
contents [] = []
contents (b ∷ bs) = Block.items b ++ contents bs

pub AllFull-append : (bs cs : List Block) → AllFull bs → AllFull cs → AllFull (bs ++ cs)
AllFull-append [] cs h k = k
AllFull-append (b ∷ bs) cs h k = (h.0, h.1, AllFull-append bs cs h.2 k)

pub Shape-append : (bs cs : List Block) → Shape bs → AllFull cs → Shape (bs ++ cs)
Shape-append [] cs h k = absurd h
Shape-append (b ∷ bs) cs h k = (h.0, h.1, AllFull-append bs cs h.2 k)

pub count-contents :
    (y : ℕ) (bs cs : List Block)
    → count y (contents (bs ++ cs)) ≡ count y (contents bs) + count y (contents cs)
count-contents y [] cs = omega arith
count-contents y (b ∷ bs) cs = omega (
  arith,
  count-append y (Block.items b) (contents (bs ++ cs)),
  count-append y (Block.items b) (contents bs),
  count-contents y bs cs,
)

pub compute_size_in_blocks-length : (bs : List Block) → compute_size_in_blocks bs ≡ length bs
unfolding compute_size_in_blocks
compute_size_in_blocks-length [] = refl
compute_size_in_blocks-length (b ∷ bs) = omega (arith, compute_size_in_blocks-length bs)

full-size : (bs : List Block) → AllFull bs → compute_size bs ≡ length (contents bs)
unfolding compute_size
full-size [] h = refl
full-size (b ∷ bs) h = omega (
  arith,
  length-append (Block.items b) (contents bs),
  length-take_le b.size b.cells (omega (arith, h.0.whole, h.0.fits)),
  full-size bs h.2,
)

-- `computeSize` is the number of objects in a bag that satisfies the invariant.
pub compute_size-length : (bs : List Block) → Shape bs → compute_size bs ≡ length (contents bs)
unfolding compute_size
compute_size-length [] h = absurd h
compute_size-length (b ∷ bs) h = omega (
  arith,
  length-append (Block.items b) (contents bs),
  length-take_le b.size b.cells (omega (arith, h.0.whole, h.0.fits)),
  full-size bs h.2,
)
