-- ===== src/RecordMgr/BlockBag/Laws.antt =====
-- `add` and `remove` of a bag: they keep the invariant, and change the contents by one object.
use vcaslib.Common.{
  ℕ, ◌+◌, ◌-◌, ◌<◌, ◌≡◌, ◌⊎◌, refl, ◌∙◌, true, false, none, some, List, [], ◌∷◌, ◌++◌, inl, inr,
  length, ◌==◌, lt→ltb, set, length-set, Bool-cases, arith,
}
use vcaslib.Common.Arrays.{get_or, take-push, count-append, Removed, Removed-last}
use vcaslib.RecordMgr.Block.{Block, IsBlock, block_size, is_full, is_empty, push, pop, items}
use vcaslib.RecordMgr.BlockBag.{
  BlockBag, allocate_block, bag_is_empty, add_to, add, remove_from, remove, compute_size,
}
use vcaslib.RecordMgr.BlockBag.Shape.{Shape, IsBag, contents}

-- `ys` is `xs` with one occurrence of `obj` more.
abbrev pub Added : ℕ → List ℕ → List ℕ → Type 0
Added obj xs ys = Removed obj ys xs

-- What `push` does to a block that is not full.
pub push_one :
    (b : Block) (obj : ℕ)
    → IsBlock b
    → b.size < block_size
    → (c : Block) × (push b obj ≡ some c)
      × IsBlock c
      × (c.size ≡ b.size + 1)
      × Added obj (items b) (items c)
unfolding push
push_one b obj v lt =
    let w : length (set b.cells b.size obj) ≡ block_size =
      length-set b.cells b.size obj ∙ v.whole in
    (
      record { cells = set b.cells b.size obj; size = b.size + 1 },
      rw (lt→ltb b.size block_size lt) refl,
      record { whole = w; fits = omega arith },
      refl,
      λ y.
          rw (take-push b.size obj b.cells (omega (arith, v.whole)))
            (omega (arith, count-append y (items b) (obj ∷ []))),
    )

-- What `pop` does to a block that is not empty.
pub pop_one :
    (b : Block)
    → IsBlock b
    → 0 < b.size
    → (c : Block) × (obj : ℕ) × (pop b ≡ some (c, obj))
      × IsBlock c
      × (c.size ≡ b.size - 1)
      × Removed obj (items b) (items c)
unfolding pop
pop_one b v pos = (
  record b { size = b.size - 1 },
  get_or b.cells (b.size - 1) 0,
  rw (lt→ltb 0 b.size pos) refl,
  record { whole = v.whole; fits = omega (arith, v.fits) },
  refl,
  Removed-last b.size b.cells pos (omega (arith, v.fits, v.whole)),
)

pub Added-front : (obj : ℕ) (xs ys zs : List ℕ) → Added obj xs ys → Added obj (xs ++ zs) (ys ++ zs)
Added-front obj xs ys zs a y = omega (arith, a y, count-append y xs zs, count-append y ys zs)

module _ (cells : List ℕ) (w : length cells ≡ block_size) where
  pub fresh : IsBlock (allocate_block cells)
  fresh = record { whole = w; fits = omega arith }

  add_to_items :
      (bs : List Block) (n obj : ℕ)
      → Shape bs
      → n ≡ length bs
      → (bag : BlockBag) × (add_to bs n obj cells ≡ some bag)
        × IsBag bag
        × Added obj (contents bs) (contents bag.blocks)
  unfolding add_to is_full
  add_to_items [] n obj h e = absurd h
  add_to_items (b ∷ bs) n obj h e =
      let (c, p, v, z, a) = push_one b obj h.0 h.1 in
      elim (Bool-cases (c.size == block_size)) [
        | inl f ↦ (
          record { blocks = allocate_block cells ∷ c ∷ bs; size_in_blocks = n + 1 },
          rw (p, f) refl,
          record { shape = (fresh, omega arith, (v, ground arith, h.2)); counted = omega arith },
          Added-front obj (items b) (items c) (contents bs) a,
        )
        | inr f ↦ (
          record { blocks = c ∷ bs; size_in_blocks = n },
          rw (p, f) refl,
          record { shape = (v, ground (arith, v.fits), h.2); counted = omega arith },
          Added-front obj (items b) (items c) (contents bs) a,
        )
      ]

  -- `add` succeeds on a bag that satisfies the invariant, adds one occurrence of its object, and
  -- keeps the invariant.
  pub add-IsBag :
      (bag : BlockBag) (obj : ℕ)
      → IsBag bag
      → (bag' : BlockBag) × (add bag obj cells ≡ some bag')
        × IsBag bag'
        × Added obj (contents bag.blocks) (contents bag'.blocks)
  unfolding add
  add-IsBag bag obj v = add_to_items bag.blocks bag.size_in_blocks obj v.shape v.counted

abbrev RemovesOne : List Block → ℕ → Type 0
RemovesOne bs n =
    (bag : BlockBag) × (obj : ℕ) × (remove_from bs n ≡ some (bag, obj))
    × IsBag bag
    × (compute_size bag.blocks + 1 ≡ compute_size bs)
    × Removed obj (contents bs) (contents bag.blocks)

remove_from_items :
    (bs : List Block) (n : ℕ) → Shape bs → n ≡ length bs → bag_is_empty bs ≡ false → RemovesOne bs n
unfolding remove_from bag_is_empty is_empty compute_size
remove_from_items [] n h e f = absurd h
remove_from_items (b ∷ []) n h e f =
    let pos : 0 < b.size = ground arith in
    let (c, obj, p, v, z, r) = pop_one b h.0 pos in
    (
      record { blocks = c ∷ []; size_in_blocks = n },
      obj,
      rw p refl,
      record { shape = (v, omega (arith, h.1), tt); counted = e },
      omega (arith, z),
      Added-front obj (items c) (items b) [] r,
    )
remove_from_items (b ∷ d ∷ bs) n h e f = elim (Bool-cases (b.size == 0)) [
  | inl g ↦
      let (c, obj, p, v, z, r) = pop_one d h.2.0 (omega (arith, h.2.1)) in
      (
        record { blocks = c ∷ bs; size_in_blocks = n - 1 },
        obj,
        rw (g, p) refl,
        record { shape = (v, omega (arith, h.2.1), h.2.2); counted = omega arith },
        ground (arith, z),
        let z : b.size ≡ 0 = ground arith in
            rw z (Added-front obj (items c) (items d) (contents bs) r),
      )
  | inr g ↦
      let (c, obj, p, v, z, r) = pop_one b h.0 (ground arith) in
      (
        record { blocks = c ∷ d ∷ bs; size_in_blocks = n },
        obj,
        rw (g, p) refl,
        record { shape = (v, omega (arith, h.1), h.2); counted = e },
        ground (arith, z),
        Added-front obj (items c) (items b) (contents (d ∷ bs)) r,
      )
]

-- On a bag that satisfies the invariant, `remove` fails its assertion where `isEmpty` holds, and
-- otherwise returns an object of which it takes one occurrence out, keeping the invariant, and
-- `computeSize` goes down by one.
pub remove-IsBag :
    (bag : BlockBag)
    → IsBag bag
    → ((bag_is_empty bag.blocks ≡ true) × (remove bag ≡ none))
      ⊎ ((bag_is_empty bag.blocks ≡ false)
          × (bag' : BlockBag) × (obj : ℕ) × (remove bag ≡ some (bag', obj))
          × IsBag bag'
          × (compute_size bag'.blocks + 1 ≡ compute_size bag.blocks)
          × Removed obj (contents bag.blocks) (contents bag'.blocks))
unfolding remove
remove-IsBag bag v = elim (Bool-cases (bag_is_empty bag.blocks)) [
  | inl e ↦ inl (e, rw e refl)
  | inr e ↦
      let (bag', obj, p, v', z, r) =
        remove_from_items bag.blocks bag.size_in_blocks v.shape v.counted e in
      inr (e, bag', obj, rw e p, v', z, r)
]
