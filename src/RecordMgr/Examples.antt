-- ===== src/RecordMgr/Examples.antt =====
-- The containers at concrete contents, and their theorems there.
use vcaslib.Common.{
  ℕ, zero, suc, ◌+◌, ◌≤◌, ◌≡◌, ◌⊎◌, refl, Bool, true, false, Option, none, some, List, [], ◌∷◌,
  ◌++◌, length, has, arith,
}
use vcaslib.Common.Arrays.{Removed, count}
use vcaslib.RecordMgr.ArrayList.{ArrayList}
use vcaslib.RecordMgr.ArrayList
use vcaslib.RecordMgr.ArrayList.Laws.{erase-items}
use vcaslib.RecordMgr.Block.{Block, IsBlock, block_size}
use vcaslib.RecordMgr.Block
use vcaslib.RecordMgr.Block.Laws.{pop-push}
use vcaslib.RecordMgr.BlockBag.{
  BlockBag, add, remove, add_shared, append_move_all, bag_is_empty, compute_size,
}
use vcaslib.RecordMgr.BlockBag.Shape.{IsBag, contents, compute_size-length}
use vcaslib.RecordMgr.BlockBag.Laws.{Added, add-IsBag, remove-IsBag}
use vcaslib.RecordMgr.BlockBag.Moves.{Emptied, append_move_all-moves}
use vcaslib.RecordMgr.BlockBag.Erase.{erase, peek_at}
use vcaslib.RecordMgr.BlockBag.Erase.Laws.{erase-IsBag}
use vcaslib.RecordMgr.BlockBag.Iterator.{Cursor, begin, visit, visit-begin}
use vcaslib.RecordMgr.BlockBag.Shared.{given, add_shared-bounded}

-- Three objects in an array of four cells.
abbrev three : ArrayList
three = record { size = 3; cells = 7 ∷ 8 ∷ 9 ∷ 0 ∷ []; capacity = 4 }

three-IsValid : ArrayList.IsValid three
three-IsValid = record { allocated = refl; fits = omega arith }

erase-items_example :
    (l' : ArrayList) × (ArrayList.erase three 8 ≡ some l')
    × ArrayList.IsValid l'
    × (((has 8 (7 ∷ 8 ∷ 9 ∷ []) ≡ false) × (l' ≡ three))
        ⊎ ((has 8 (7 ∷ 8 ∷ 9 ∷ []) ≡ true) × Removed 8 (7 ∷ 8 ∷ 9 ∷ []) (ArrayList.items l')))
erase-items_example = erase-items three three-IsValid 8

abbrev replicate : ℕ → ℕ → List ℕ
replicate zero x = []
replicate (suc n) x = x ∷ replicate n x

abbrev memory : List ℕ
memory = replicate 256 6

-- A block with four objects, and one with a single free cell.
abbrev four : Block
four = record { cells = 11 ∷ 12 ∷ 13 ∷ 12 ∷ replicate 252 6; size = 4 }

four-IsBlock : IsBlock four
four-IsBlock = record { whole = refl; fits = omega arith }

abbrev nearly_full : Block
nearly_full = record { cells = memory; size = 255 }

nearly_full-IsBlock : IsBlock nearly_full
nearly_full-IsBlock = record { whole = refl; fits = omega arith }

pop-push_example :
    (c d : Block) × (Block.push four 9 ≡ some c)
    × IsBlock c
    × (Block.items c ≡ 11 ∷ 12 ∷ 13 ∷ 12 ∷ 9 ∷ [])
    × (Block.pop c ≡ some (d, 9))
    × IsBlock d
    × (Block.items d ≡ 11 ∷ 12 ∷ 13 ∷ 12 ∷ [])
pop-push_example = pop-push four four-IsBlock 9 (unfold Block.is_full in refl)

-- Two blocks: the next `add` fills the head.
abbrev bag : BlockBag
bag = record {
  blocks = nearly_full ∷ record { cells = memory; size = 256 } ∷ [];
  size_in_blocks = 2;
}

bag-IsBag : IsBag bag
bag-IsBag = record {
  shape =
      (nearly_full-IsBlock, omega arith, (record { whole = refl; fits = omega arith }, refl, tt));
  counted = refl;
}

abbrev small : BlockBag
small = record { blocks = four ∷ []; size_in_blocks = 1 }

small-IsBag : IsBag small
small-IsBag = record { shape = (four-IsBlock, omega arith, tt); counted = refl }

compute_size-length_example : compute_size bag.blocks ≡ length (contents bag.blocks)
compute_size-length_example = compute_size-length bag.blocks bag-IsBag.shape

add-IsBag_example :
    (bag' : BlockBag) × (add bag 5 memory ≡ some bag')
    × IsBag bag'
    × Added 5 (contents bag.blocks) (contents bag'.blocks)
add-IsBag_example = add-IsBag memory refl bag 5 bag-IsBag

remove-IsBag_example :
    ((bag_is_empty small.blocks ≡ true) × (remove small ≡ none))
    ⊎ ((bag_is_empty small.blocks ≡ false)
        × (bag' : BlockBag) × (obj : ℕ) × (remove small ≡ some (bag', obj))
        × IsBag bag'
        × (compute_size bag'.blocks + 1 ≡ compute_size small.blocks)
        × Removed obj (contents small.blocks) (contents bag'.blocks))
remove-IsBag_example = remove-IsBag small small-IsBag

add_shared-bounded_example :
    (bag' : BlockBag) × (b : Option Block) × (add_shared bag 5 2 memory ≡ some (bag', b))
    × IsBag bag'
    × (bag'.size_in_blocks ≤ 2)
    × Added 5 (contents bag.blocks) (contents bag'.blocks ++ given b)
add_shared-bounded_example =
    add_shared-bounded memory refl bag 5 2 bag-IsBag (omega arith) (omega arith)

append_move_all-moves_example :
    (bag' other' : BlockBag) × (append_move_all (λ _. memory) small bag ≡ some (bag', other'))
    × Emptied small bag bag' other'
append_move_all-moves_example =
    append_move_all-moves (λ _. memory) (λ _. refl) small bag small-IsBag bag-IsBag

-- The erased object is in the second block, so one of the head takes its cell.
erase-IsBag_example :
    (bag' : BlockBag) × (moved : Bool) × (erase bag 1 3 ≡ some (bag', moved))
    × IsBag bag'
    × Removed (peek_at bag.blocks 1 3) (contents bag.blocks) (contents bag'.blocks)
erase-IsBag_example = erase-IsBag bag 1 3 bag-IsBag (omega arith) refl

visit-begin_example :
    (p : Cursor) × (begin small.blocks ≡ some p)
    × ((objs : List ℕ) × (visit (suc (compute_size small.blocks)) p ≡ some objs)
        × ((y : ℕ) → count y objs ≡ count y (contents small.blocks)))
visit-begin_example = visit-begin small small-IsBag
