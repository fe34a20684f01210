-- ===== src/RecordMgr/BlockBag/Moves.antt =====
-- `removeFullBlock`, the `add` that gives a block away, and `appendMoveAll`.
use vcaslib.Common.{
  ℕ, zero, suc, ◌+◌, ◌<◌, ◌≡◌, refl, true, some, List, [], ◌∷◌, ◌++◌, inl, inr, length, ◌==◌, arith,
}
use vcaslib.Common.Arrays.{count}
use vcaslib.RecordMgr.Block.{Block, block_size, is_full, is_empty}
use vcaslib.RecordMgr.BlockBag.{
  BlockBag, bag_is_empty, append_move, append_move_full_blocks, move_loop, append_move_all,
  compute_size, compute_size_in_blocks,
}
use vcaslib.RecordMgr.BlockBag.Shape.{
  Shape, IsBag, contents, Shape-append, count-contents, compute_size_in_blocks-length,
}
use vcaslib.RecordMgr.BlockBag.Laws.{add-IsBag, remove-IsBag}

empty-contents : (bs : List Block) → Shape bs → bag_is_empty bs ≡ true → contents bs ≡ []
unfolding bag_is_empty is_empty
empty-contents [] h e = absurd h
empty-contents (b ∷ []) h e = let z : b.size ≡ 0 = ground arith in rw z refl
empty-contents (b ∷ c ∷ bs) h e = absurd (ground arith)

-- Two bags that together hold what two others hold.
abbrev pub SameObjects : List Block → List Block → List Block → List Block → Type 0
SameObjects ws bs cs ds =
    (y : ℕ)
    → count y (contents ws) + count y (contents bs) ≡ count y (contents cs) + count y (contents ds)

append_move_items :
    (bag : BlockBag) (bs : List Block) (n : ℕ)
    → IsBag bag
    → Shape bs
    → n ≡ length bs
    → (bag' other' : BlockBag) × (append_move bag bs n ≡ some (bag', other'))
      × IsBag bag'
      × IsBag other'
      × SameObjects bag'.blocks other'.blocks bag.blocks bs
unfolding append_move is_full
append_move_items bag [] n v h e = absurd h
append_move_items bag (b ∷ []) n v h e = (
  bag,
  record { blocks = b ∷ []; size_in_blocks = n },
  refl,
  v,
  record { shape = h; counted = e },
  λ y. refl,
)
append_move_items bag (b ∷ c ∷ bs) n v h e =
    let f : (c.size == block_size) ≡ true = ground arith in
    (
      record {
        blocks = bag.blocks ++ c ∷ bs;
        size_in_blocks = compute_size_in_blocks (bag.blocks ++ c ∷ bs);
      },
      record { blocks = b ∷ []; size_in_blocks = compute_size_in_blocks (b ∷ []) },
      rw f refl,
      record {
        shape = Shape-append bag.blocks (c ∷ bs) v.shape h.2;
        counted = compute_size_in_blocks-length (bag.blocks ++ c ∷ bs);
      },
      record { shape = (h.0, h.1, tt); counted = compute_size_in_blocks-length (b ∷ []) },
      λ y. omega (arith, count-contents y bag.blocks (c ∷ bs), count-contents y (b ∷ []) (c ∷ bs)),
    )

abbrev pub Emptied : BlockBag → BlockBag → BlockBag → BlockBag → Type 0
Emptied bag other bag' other' =
    IsBag bag'
    × IsBag other'
    × (bag_is_empty other'.blocks ≡ true)
    × SameObjects bag'.blocks other'.blocks bag.blocks other.blocks

module _ (memory : ℕ → List ℕ) (w : (k : ℕ) → length (memory k) ≡ block_size) where
  move_loop_items :
      (k : ℕ) (bag other : BlockBag)
      → IsBag bag
      → IsBag other
      → compute_size other.blocks < k
      → (bag' other' : BlockBag) × (move_loop k memory bag other ≡ some (bag', other'))
        × Emptied bag other bag' other'
  unfolding move_loop
  move_loop_items zero bag other v u h = absurd (omega arith)
  move_loop_items (suc k) bag other v u h = elim (remove-IsBag other u) [
    | inl (e, _) ↦ (bag, other, rw (e, move_loop) refl, (v, u, e, λ y. refl))
    | inr (f, other1, obj, p, u1, z, r) ↦
        let (bag1, q, v1, a) = add-IsBag (memory k) (w k) bag obj v in
        let (bag', other', t, (v', u', e', s)) =
          move_loop_items k bag1 other1 v1 u1 (omega (arith, h, z)) in
        (
          bag',
          other',
          rw (f, move_loop) (rw (p, q) t),
          (v', u', e', λ y. omega (arith, a y, r y, s y)),
        )
  ]

  -- `appendMoveAll` on two bags that satisfy the invariant terminates and fails no assertion: the
  -- other bag is empty afterwards, the two together hold the objects that they held, and both
  -- satisfy the invariant.
  pub append_move_all-moves :
      (bag other : BlockBag)
      → IsBag bag
      → IsBag other
      → (bag' other' : BlockBag) × (append_move_all memory bag other ≡ some (bag', other'))
        × Emptied bag other bag' other'
  unfolding append_move_all append_move_full_blocks
  append_move_all-moves bag other v u =
      let (bag1, other1, p, v1, u1, s) =
        append_move_items bag other.blocks other.size_in_blocks v u.shape u.counted in
      let (bag2, other2, q, (v2, u2, e, t)) =
        move_loop_items (suc (compute_size other1.blocks)) bag1 other1 v1 u1 (omega arith) in
      (
        record bag2 { size_in_blocks = compute_size_in_blocks bag2.blocks },
        other2,
        rw (p, q) refl,
        (
          record { shape = v2.shape; counted = compute_size_in_blocks-length bag2.blocks },
          u2,
          e,
          λ y. omega (arith, s y, t y),
        ),
      )
