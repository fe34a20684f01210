-- ===== src/RecordMgr/BlockBag/Shared.antt =====
-- The `add` that gives a full block to the shared bag.
use vcaslib.Common.{
  ℕ, ◌+◌, ◌-◌, ◌≤◌, ◌≡◌, refl, true, Option, none, some, List, [], ◌∷◌, ◌++◌, inl, inr, length,
  ◌==◌, ltb, Bool-cases, arith,
}
use vcaslib.Common.Arrays.{count, count-append}
use vcaslib.RecordMgr.Block.{Block, block_size, items, is_full}
use vcaslib.RecordMgr.BlockBag.{
  BlockBag, allocate_block, add_shared_to, add_shared, give_full_block, remove_full_block,
  remove_full_from,
}
use vcaslib.RecordMgr.BlockBag.Shape.{Shape, IsBag, contents}
use vcaslib.RecordMgr.BlockBag.Laws.{push_one, fresh, Added, Added-front}

-- The objects of the block that is given away.
abbrev pub given : Option Block → List ℕ
given none = []
given (some b) = items b

abbrev Given : BlockBag → ℕ → Option (BlockBag × Option Block) → Type 0
Given bag thresh r =
    (bag' : BlockBag) × (b : Option Block) × (r ≡ some (bag', b))
    × IsBag bag'
    × (bag'.size_in_blocks ≤ thresh)
    × ((y : ℕ) → count y (contents bag'.blocks) + count y (given b) ≡ count y (contents bag.blocks))

give_cases :
    (bs : List Block) (n thresh : ℕ)
    → Shape bs
    → n ≡ length bs
    → 2 ≤ thresh
    → n ≤ thresh + 1
    → Given
        (record { blocks = bs; size_in_blocks = n })
        thresh
        (give_full_block (record { blocks = bs; size_in_blocks = n }) thresh)
unfolding give_full_block remove_full_block remove_full_from
give_cases bs n thresh h e t l = elim (Bool-cases (ltb thresh n)) [
  | inr f ↦ (
    record { blocks = bs; size_in_blocks = n },
    none,
    rw f refl,
    record { shape = h; counted = e },
    ground arith,
    λ y. omega arith,
  )
  | inl f ↦ go bs h e f
]
  where
    go :
        (bs : List Block)
        → Shape bs
        → n ≡ length bs
        → ltb thresh n ≡ true
        → Given
            (record { blocks = bs; size_in_blocks = n })
            thresh
            (give_full_block (record { blocks = bs; size_in_blocks = n }) thresh)
    go [] h e f = absurd h
    go (b ∷ []) h e f = absurd (ground arith)
    go (b ∷ c ∷ []) h e f = absurd (ground arith)
    go (b ∷ c ∷ d ∷ bs) h e f =
        let g : (c.size == block_size) ≡ true = ground arith in
        (
          record { blocks = b ∷ d ∷ bs; size_in_blocks = n - 1 },
          some c,
          rw (f, g) refl,
          record { shape = (h.0, h.1, h.2.2); counted = omega arith },
          omega arith,
          λ y. omega (
            arith,
            count-append y (items b) (contents (d ∷ bs)),
            count-append y (items b) (contents (c ∷ d ∷ bs)),
            count-append y (items c) (contents (d ∷ bs)),
          ),
        )

module _ (cells : List ℕ) (w : length cells ≡ block_size) where
  add_shared_items :
      (bs : List Block) (n obj thresh : ℕ)
      → Shape bs
      → n ≡ length bs
      → 2 ≤ thresh
      → n ≤ thresh
      → (bag' : BlockBag) × (b : Option Block) × (add_shared_to bs n obj thresh cells
          ≡ some (bag', b))
        × IsBag bag'
        × (bag'.size_in_blocks ≤ thresh)
        × Added obj (contents bs) (contents bag'.blocks ++ given b)
  unfolding add_shared_to is_full
  add_shared_items [] n obj thresh h e t l = absurd h
  add_shared_items (b ∷ bs) n obj thresh h e t l =
      let (c, p, v, z, a) = push_one b obj h.0 h.1 in
      elim (Bool-cases (c.size == block_size)) [
        | inl f ↦
            let (bag', r, q, v', l', s) =
              give_cases (allocate_block cells ∷ c ∷ bs) (n + 1) thresh
                (fresh cells w, omega arith, (v, ground arith, h.2)) (omega arith) t
                (omega arith) in
            (
              bag',
              r,
              rw (p, f) q,
              v',
              l',
              λ y. omega (
                arith,
                s y,
                count-append y (contents bag'.blocks) (given r),
                Added-front obj (items b) (items c) (contents bs) a y,
              ),
            )
        | inr f ↦ (
          record { blocks = c ∷ bs; size_in_blocks = n },
          none,
          rw (p, f) refl,
          record { shape = (v, ground (arith, v.fits), h.2); counted = omega arith },
          l,
          λ y. omega (
            arith,
            count-append y (contents (c ∷ bs)) [],
            Added-front obj (items b) (items c) (contents bs) a y,
          ),
        )
      ]

  -- The `add` with a shared bag, on a bag that satisfies the invariant and has at most `thresh`
  -- blocks, fails no assertion if `thresh` is at least 2: the bag and the block given away together
  -- hold one occurrence of the object more, the invariant is kept, and so is the bound.
  pub add_shared-bounded :
      (bag : BlockBag) (obj thresh : ℕ)
      → IsBag bag
      → 2 ≤ thresh
      → bag.size_in_blocks ≤ thresh
      → (bag' : BlockBag) × (b : Option Block) × (add_shared bag obj thresh cells ≡ some (bag', b))
        × IsBag bag'
        × (bag'.size_in_blocks ≤ thresh)
        × Added obj (contents bag.blocks) (contents bag'.blocks ++ given b)
  unfolding add_shared
  add_shared-bounded bag obj thresh v t l =
      add_shared_items bag.blocks bag.size_in_blocks obj thresh v.shape v.counted t l
