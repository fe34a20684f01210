-- ===== src/RecordMgr/BlockBag/Erase/Laws.antt =====
-- `erase(curr, ix)` keeps the invariant of a bag: its cases, and the whole operation.
use vcaslib.Common.{
  ℕ, zero, suc, ◌+◌, ◌-◌, ◌<◌, ◌≡◌, ◌≢◌, refl, Bool, true, false, Option, some, List, [], ◌∷◌, inl,
  inr, length, length-set, set, ◌==◌, ltb, Bool-cases, arith, ◌∙◌,
}
use vcaslib.Common.Arrays.{take, count, one_if, count-append, count-take-set, Removed}
use vcaslib.RecordMgr.Block
use vcaslib.RecordMgr.Block.{Block, IsBlock, block_size, is_empty, items, peek, pop, replace}
use vcaslib.RecordMgr.Block.Laws.{items-erase}
use vcaslib.RecordMgr.BlockBag.{BlockBag, bag_is_empty}
use vcaslib.RecordMgr.BlockBag.Shape.{AllFull, Shape, IsBag, contents}
use vcaslib.RecordMgr.BlockBag.Laws.{pop_one, Added-front}
use vcaslib.RecordMgr.BlockBag.Erase.{empty_at, peek_at, replace_at, erase_in, erase_from, erase}

replace_at-Swapped :
    (bs : List Block) (n ix obj : ℕ)
    → AllFull bs
    → n < length bs
    → ix < block_size
    → obj ≢ 0
    → (bs' : List Block) × (replace_at bs n ix obj ≡ some bs')
      × AllFull bs'
      × (length bs' ≡ length bs)
      × ((y : ℕ)
          → count y (contents bs') + one_if (y == peek_at bs n ix)
            ≡ count y (contents bs) + one_if (y == obj))
unfolding replace_at replace peek
replace_at-Swapped [] n ix obj h l i ne = absurd (omega arith)
replace_at-Swapped (b ∷ bs) zero ix obj h l i ne =
    let f : ltb ix b.size ≡ true = ground (arith, h.1) in
    let g : (obj == 0) ≡ false = ground arith in
    let w : length (set b.cells ix obj) ≡ block_size = length-set b.cells ix obj ∙ h.0.whole in
    (
      record b { cells = set b.cells ix obj } ∷ bs,
      rw (f, g) refl,
      (record { whole = w; fits = h.0.fits }, h.1, h.2),
      refl,
      λ y. omega (
        arith,
        count-append y (take b.size (set b.cells ix obj)) (contents bs),
        count-append y (items b) (contents bs),
        count-take-set y b.size ix obj b.cells (omega (arith, h.1)) (omega (arith, h.1, h.0.whole)),
      ),
    )
replace_at-Swapped (b ∷ bs) (suc n) ix obj h l i ne =
    let (bs', e, a, z, s) = replace_at-Swapped bs n ix obj h.2 (omega arith) i ne in
    (
      b ∷ bs',
      rw (replace_at, e) refl,
      (h.0, h.1, a),
      omega (arith, z),
      λ y. omega (
        arith,
        s y,
        count-append y (items b) (contents bs'),
        count-append y (items b) (contents bs),
      ),
    )

abbrev pub size_at : List Block → ℕ → ℕ
size_at [] n = 0
size_at (b ∷ bs) zero = b.size
size_at (b ∷ bs) (suc n) = size_at bs n

full_at : (bs : List Block) (n ix : ℕ) → AllFull bs → ix < size_at bs n → ix < block_size
full_at [] n ix h l = absurd (omega arith)
full_at (b ∷ bs) zero ix h l = omega (arith, h.1)
full_at (b ∷ bs) (suc n) ix h l = full_at bs n ix h.2 l

here_at : (bs : List Block) (n ix : ℕ) → ix < size_at bs n → n < length bs
here_at [] n ix l = absurd (omega arith)
here_at (b ∷ bs) zero ix l = omega arith
here_at (b ∷ bs) (suc n) ix l = omega (arith, here_at bs n ix l)

-- What an erasure leaves.
abbrev Erased : Option (BlockBag × Bool) → ℕ → List Block → Type 0
Erased r x bs =
    (bag : BlockBag) × (moved : Bool) × (r ≡ some (bag, moved))
    × IsBag bag
    × Removed x (contents bs) (contents bag.blocks)

erase_room : (b : Block) (ix : ℕ) → IsBlock b → 0 < b.size → (Block.erase b ix).size < block_size
unfolding Block.erase
erase_room b ix v pos = let f : (b.size == 0) ≡ false = ground arith in rw f (omega (arith, v.fits))

erase_in-Erased :
    (b : Block) (bs : List Block) (k n ix : ℕ)
    → IsBlock b
    → 0 < b.size
    → AllFull bs
    → k ≡ suc (length bs)
    → ix < size_at (b ∷ bs) n
    → count 0 (items b) ≡ 0
    → Erased (erase_in (b ∷ bs) k n ix) (peek_at (b ∷ bs) n ix) (b ∷ bs)
unfolding erase_in is_empty
erase_in-Erased b bs k zero ix v pos h c l z =
    let (w, r) = items-erase b v ix l in
    let f : (b.size == 0) ≡ false = ground arith in
    (
      record { blocks = Block.erase b ix ∷ bs; size_in_blocks = k },
      false,
      rw f refl,
      record { shape = (w, erase_room b ix v pos, h); counted = c },
      Added-front (peek b ix) (items (Block.erase b ix)) (items b) (contents bs) r,
    )
erase_in-Erased b bs k (suc n) ix v pos h c l z =
    let (b', obj, p, w, d, r) = pop_one b v pos in
    let f : (b.size == 0) ≡ false = ground arith in
    let ne : obj ≢ 0 = λ e. ground (arith, r 0, e) in
    let (bs', q, a, m, s) =
      replace_at-Swapped bs n ix obj h (here_at bs n ix l) (full_at bs n ix h l) ne in
    (
      record { blocks = b' ∷ bs'; size_in_blocks = k },
      true,
      rw (f, p, q) refl,
      record { shape = (w, omega (arith, d, v.fits), a); counted = omega (arith, m) },
      λ y. omega (
        arith,
        s y,
        r y,
        count-append y (items b) (contents bs),
        count-append y (items b') (contents bs'),
      ),
    )

erase_from-Erased :
    (bs : List Block) (k n ix : ℕ)
    → Shape bs
    → k ≡ length bs
    → ix < size_at bs n
    → count 0 (contents bs) ≡ 0
    → Erased (erase_from bs k n ix) (peek_at bs n ix) bs
unfolding erase_from is_empty
erase_from-Erased [] k n ix h c l z = absurd h
erase_from-Erased (b ∷ bs) k zero ix h c l z =
    let f : (b.size == 0) ≡ false = ground arith in
    let t : Erased (erase_in (b ∷ bs) k zero ix) (peek_at (b ∷ bs) zero ix) (b ∷ bs) =
      erase_in-Erased b bs k zero ix h.0 (omega arith) h.2 c l
        (omega (arith, z, count-append 0 (items b) (contents bs))) in
    rw f (rw f at t)
erase_from-Erased (b ∷ bs) k (suc n) ix h c l z = elim (Bool-cases (b.size == 0)) [
  | inr e ↦
      let t : Erased (erase_in (b ∷ bs) k (suc n) ix) (peek_at (b ∷ bs) (suc n) ix) (b ∷ bs) =
        erase_in-Erased b bs k (suc n) ix h.0 (ground arith) h.2 c l
          (omega (arith, z, count-append 0 (items b) (contents bs))) in
      rw e (rw e at t)
  | inl e ↦ rw e (headless b bs k n ix (ground arith) h c l z)
]
  where
    headless :
        (b : Block) (bs : List Block) (k n ix : ℕ)
        → b.size ≡ 0
        → Shape (b ∷ bs)
        → k ≡ suc (length bs)
        → ix < size_at bs n
        → count 0 (contents (b ∷ bs)) ≡ 0
        → Erased (erase_in bs (k - 1) n ix) (peek_at bs n ix) (b ∷ bs)
    headless b [] k n ix e h c l z = absurd (omega arith)
    headless b (d ∷ bs) k n ix e h c l z = rw e (
        erase_in-Erased d bs (k - 1) n ix h.2.0 (omega (arith, h.2.1)) h.2.2 (omega arith) l
          (omega (arith, rw e at z, count-append 0 (items d) (contents bs))))

occupied : (bs : List Block) (n ix : ℕ) → ix < size_at bs n → empty_at bs n ≡ some false
unfolding is_empty
occupied [] n ix l = absurd (omega arith)
occupied (b ∷ bs) zero ix l = let f : (b.size == 0) ≡ false = ground arith in rw f refl
occupied (b ∷ bs) (suc n) ix l = occupied bs n ix l

not_empty : (bs : List Block) (n ix : ℕ) → Shape bs → ix < size_at bs n → bag_is_empty bs ≡ false
unfolding bag_is_empty is_empty
not_empty [] n ix h l = absurd h
not_empty (b ∷ []) zero ix h l = ground arith
not_empty (b ∷ []) (suc n) ix h l = absurd (omega arith)
not_empty (b ∷ c ∷ bs) n ix h l = refl

-- On a bag that satisfies the invariant and holds no null pointer, `erase(curr, ix)` at an index in
-- use of one of its blocks fails no assertion, takes one occurrence of the object there out of the
-- bag, and keeps the invariant.
pub erase-IsBag :
    (bag : BlockBag) (n ix : ℕ)
    → IsBag bag
    → ix < size_at bag.blocks n
    → count 0 (contents bag.blocks) ≡ 0
    → (bag' : BlockBag) × (moved : Bool) × (erase bag n ix ≡ some (bag', moved))
      × IsBag bag'
      × Removed (peek_at bag.blocks n ix) (contents bag.blocks) (contents bag'.blocks)
unfolding erase
erase-IsBag bag n ix v l z =
    let (bag', moved, e, w, r) =
      erase_from-Erased bag.blocks bag.size_in_blocks n ix v.shape v.counted l z in
    (bag', moved, rw (not_empty bag.blocks n ix v.shape l, occupied bag.blocks n ix l) e, w, r)
