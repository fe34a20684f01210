-- ===== src/RecordMgr/BlockBag/Iterator.antt =====
-- `blockbag_iterator` of recordmgr/blockbag.h: a position is the list of blocks from `curr` on,
-- empty where `curr` is NULL, and `ix` kept one higher, as `left`, since it goes down to -1.
-- `none` is an access through NULL or in front of an array.
use vcaslib.Common.{
  ℕ, zero, suc, ◌+◌, ◌-◌, ◌≤◌, ◌<◌, ◌≡◌, refl, Bool, true, false, Option, none, some, List, [], ◌∷◌,
  inl, inr, if◌then◌else◌, ◌==◌, leb, Bool-cases, arith, ap,
}
use vcaslib.Common.Arrays.{get_or, take, count, count-append, count-take-suc}
use vcaslib.RecordMgr.Block.{Block, IsBlock, peek}
use vcaslib.RecordMgr.BlockBag.{BlockBag, compute_size, ◌>>=◌}
use vcaslib.RecordMgr.BlockBag.Shape.{AllFull, Shape, IsBag, contents}

pub record Cursor : Type 0 where
  pub curr : List Block
  pub left : ℕ

-- `curr = curr->next; ix = (curr ? curr->computeSize()-1 : -1)`
abbrev next_block : List Block → Option Cursor
next_block [] = none
next_block (b ∷ []) = some (record { curr = []; left = 0 })
next_block (b ∷ c ∷ bs) = some (record { curr = c ∷ bs; left = c.size })

-- `operator++`
unfoldable pub advance : Cursor → Option Cursor
advance p = if leb p.left 1 then next_block p.curr else some (record p { left = p.left - 1 })

-- The constructor, for the blocks of a bag.
unfoldable pub begin : List Block → Option Cursor
unfolding advance
begin [] = some (record { curr = []; left = 0 })
begin (b ∷ bs) = advance (record { curr = b ∷ bs; left = b.size + 1 })

-- `operator*`
unfoldable pub current : List Block → ℕ → Option ℕ
unfolding peek
current [] left = none
current (b ∷ bs) zero = none
current (b ∷ bs) (suc ix) = some (peek b ix)

-- `it == bag->end()`
abbrev pub at_end : List Block → ℕ → Bool
at_end [] left = left == 0
at_end (b ∷ bs) left = false

-- What a loop from a position to `end()` sees, with fuel.
unfoldable pub visit : ℕ → Cursor → Option (List ℕ)
unfolding advance current
visit zero p = none
visit (suc k) p = elim (at_end p.curr p.left) [
  | true ↦ some []
  | false ↦ do obj ← current p.curr p.left; p' ← advance p; objs ← visit k p'; some (obj ∷ objs)
]

advance-inside :
    (bs : List Block) (m : ℕ)
    → advance (record { curr = bs; left = suc (suc m) }) ≡ some (record { curr = bs; left = suc m })
unfolding advance
advance-inside bs m =
    let f : leb (suc (suc m)) 1 ≡ false = ground arith in
    rw f (ap (λ n. some (record { curr = bs; left = n })) (omega arith))

-- From a position inside a block, a traversal ends and sees each object that is left once.
visit_from :
    (k left : ℕ) (b : Block) (bs : List Block)
    → IsBlock b
    → AllFull bs
    → 0 < left
    → left ≤ b.size
    → left + compute_size bs < k
    → (objs : List ℕ) × (visit k (record { curr = b ∷ bs; left = left }) ≡ some objs)
      × ((y : ℕ) → count y objs ≡ count y (take left b.cells) + count y (contents bs))
unfolding visit advance current compute_size peek
visit_from zero left b bs v h z l f = absurd (omega arith)
visit_from (suc k) zero b bs v h z l f = absurd (omega arith)
visit_from (suc zero) (suc zero) b [] v h z l f = absurd (omega arith)
visit_from (suc (suc k)) (suc zero) b [] v h z l f = (
  get_or b.cells 0 0 ∷ [],
  refl,
  λ y. omega (arith, count-take-suc y 0 b.cells (omega (arith, v.whole))),
)
visit_from (suc k) (suc zero) b (c ∷ bs) v h z l f =
    let (objs, e, s) =
      visit_from k c.size c bs h.0 h.2 (omega (arith, h.1)) (omega arith) (omega arith) in
    (
      get_or b.cells 0 0 ∷ objs,
      rw (visit, e) refl,
      λ y. omega (
        arith,
        s y,
        count-take-suc y 0 b.cells (omega (arith, v.whole, v.fits)),
        count-append y (take c.size c.cells) (contents bs),
      ),
    )
visit_from (suc k) (suc (suc m)) b bs v h z l f =
    let (objs, e, s) = visit_from k (suc m) b bs v h (omega arith) (omega arith) (omega arith) in
    (
      get_or b.cells (suc m) 0 ∷ objs,
      rw (visit, advance-inside (b ∷ bs) m, e) refl,
      λ y. omega (arith, s y, count-take-suc y (suc m) b.cells (omega (arith, v.whole, v.fits))),
    )

-- The traversal after the step that the constructor takes, by whether the head has objects.
abbrev Traversed : Block → List Block → Type 0
Traversed b bs =
    (p : Cursor) × (advance (record { curr = b ∷ bs; left = b.size + 1 }) ≡ some p)
    × ((objs : List ℕ) × (visit (suc (b.size + compute_size bs)) p ≡ some objs)
        × ((y : ℕ) → count y objs ≡ count y (contents (b ∷ bs))))

from_empty : (b : Block) (bs : List Block) → b.size ≡ 0 → AllFull bs → Traversed b bs
unfolding advance visit compute_size
from_empty b [] e h = rw e (record { curr = []; left = 0 }, refl, ([], refl, λ y. refl))
from_empty b (c ∷ bs) e h =
    let (objs, q, s) =
      visit_from (suc (0 + (c.size + compute_size bs))) c.size c bs h.0 h.2 (omega (arith, h.1))
        (omega arith) (omega arith) in
    rw e (
      record { curr = c ∷ bs; left = c.size },
      refl,
      (objs, q, λ y. omega (arith, s y, count-append y (take c.size c.cells) (contents bs))),
    )

advance-first :
    (bs : List Block) (n : ℕ)
    → 0 < n
    → advance (record { curr = bs; left = n + 1 }) ≡ some (record { curr = bs; left = n })
unfolding advance
advance-first bs n pos =
    let f : leb (n + 1) 1 ≡ false = ground arith in
    rw f (ap (λ k. some (record { curr = bs; left = k })) (omega arith))

from_some : (b : Block) (bs : List Block) → 0 < b.size → IsBlock b → AllFull bs → Traversed b bs
from_some b bs pos v h =
    let (objs, q, s) =
      visit_from (suc (b.size + compute_size bs)) b.size b bs v h pos (omega arith) (omega arith) in
    (
      record { curr = b ∷ bs; left = b.size },
      advance-first (b ∷ bs) b.size pos,
      (objs, q, λ y. omega (arith, s y, count-append y (take b.size b.cells) (contents bs))),
    )

begin-visit :
    (bs : List Block)
    → Shape bs
    → (p : Cursor) × (begin bs ≡ some p)
      × ((objs : List ℕ) × (visit (suc (compute_size bs)) p ≡ some objs)
          × ((y : ℕ) → count y objs ≡ count y (contents bs)))
unfolding begin compute_size
begin-visit [] h = absurd h
begin-visit (b ∷ bs) h = elim (Bool-cases (b.size == 0)) [
  | inl e ↦ from_empty b bs (ground arith) h.2
  | inr e ↦ from_some b bs (ground arith) h.0 h.2
]

-- A traversal of a bag that satisfies the invariant, from `begin()` to `end()`, goes through no null
-- pointer, ends after as many steps as there are objects, and sees each object of the bag as often
-- as it is there.
pub visit-begin :
    (bag : BlockBag)
    → IsBag bag
    → (p : Cursor) × (begin bag.blocks ≡ some p)
      × ((objs : List ℕ) × (visit (suc (compute_size bag.blocks)) p ≡ some objs)
          × ((y : ℕ) → count y objs ≡ count y (contents bag.blocks)))
visit-begin bag v = begin-visit bag.blocks v.shape
