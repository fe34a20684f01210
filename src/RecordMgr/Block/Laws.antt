-- ===== src/RecordMgr/Block/Laws.antt =====
-- A block is a stack: what each operation does to the list of the objects in it.
use vcaslib.Common.{
  ℕ, suc, ◌+◌, ◌-◌, ◌≤◌, ◌<◌, ◌≡◌, ◌⊎◌, refl, subst, ◌∙◌, true, false, some, [], ◌∷◌, ◌++◌, inl,
  inr, length, set, has, length-set, ◌==◌, lt→ltb, Bool-cases, arith,
}
use vcaslib.Common.Arrays.{
  get_or, take, take-suc, take-push, take-set_le, has-eq-count, get_or-set_self, Removed-has,
  Removed, Removed-swap_out, Removed-last, index_of-cases,
}
use vcaslib.RecordMgr.Block.{
  Block, IsBlock, block_size, items, is_full, is_empty, push, pop, peek, erase_obj, erase,
}

module _ (b : Block) (v : IsBlock b) where
  -- Below its bound, `push` succeeds and puts its object on top; `pop` then returns that object and
  -- leaves the objects of the first block.
  pub pop-push :
      (obj : ℕ)
      → is_full b ≡ false
      → (c d : Block) × (push b obj ≡ some c)
        × IsBlock c
        × (items c ≡ items b ++ obj ∷ [])
        × (pop c ≡ some (d, obj))
        × IsBlock d
        × (items d ≡ items b)
  unfolding push pop is_full
  pop-push obj f =
      let lt : b.size < block_size = ground (arith, v.fits) in
      let w : length (set b.cells b.size obj) ≡ block_size =
        length-set b.cells b.size obj ∙ v.whole in
      (
        record { cells = set b.cells b.size obj; size = b.size + 1 },
        record { cells = set b.cells b.size obj; size = b.size + 1 - 1 },
        rw (lt→ltb b.size block_size lt) refl,
        record { whole = w; fits = omega arith },
        take-push b.size obj b.cells (omega (arith, v.whole)),
        ground (arith, e, get_or-set_self b.cells b.size obj (omega (arith, v.whole))),
        record { whole = w; fits = omega arith },
        rw e (take-set_le b.size b.size obj b.cells (omega arith)),
      )
    where
      e : b.size + 1 - 1 ≡ b.size
      e = omega arith

  -- On a block that is not empty, `pop` succeeds and takes the top object off.
  pub pop-items :
      is_empty b ≡ false
      → (c : Block) × (obj : ℕ) × (pop b ≡ some (c, obj))
        × IsBlock c
        × (items b ≡ items c ++ obj ∷ [])
  unfolding pop is_empty
  pop-items f =
      let pos : 0 < b.size = ground arith in
      let e : suc (b.size - 1) ≡ b.size = omega arith in
      (
        record b { size = b.size - 1 },
        get_or b.cells (b.size - 1) 0,
        rw (lt→ltb 0 b.size pos) refl,
        record { whole = v.whole; fits = omega (arith, v.fits) },
        subst
            (λ n. take n b.cells ≡ take (b.size - 1) b.cells ++ get_or b.cells (b.size - 1) 0 ∷ [])
            e (take-suc (b.size - 1) b.cells (omega (arith, v.fits, v.whole))),
      )

  -- `erase(ix)` at an index in use takes one occurrence of the object there out of the block.
  pub items-erase :
      (ix : ℕ)
      → ix < b.size
      → IsBlock (erase b ix) × Removed (peek b ix) (items b) (items (erase b ix))
  unfolding erase peek
  items-erase ix h =
      let pos : (b.size == 0) ≡ false = ground arith in
      elim (Bool-cases (ix == b.size - 1)) [
        | inl e ↦
            let d : b.size - 1 ≡ ix = ground arith in
            rw (pos, e)
              (
                record { whole = v.whole; fits = omega (arith, v.fits) },
                subst
                    (λ i.
                      Removed (get_or b.cells i 0) (take b.size b.cells)
                        (take (b.size - 1) b.cells))
                    d (Removed-last b.size b.cells (omega arith) (omega (arith, v.fits, v.whole))),
              )
        | inr e ↦
            rw (pos, e)
              (
                record {
                  whole = length-set b.cells ix (get_or b.cells (b.size - 1) 0) ∙ v.whole;
                  fits = omega (arith, v.fits);
                },
                Removed-swap_out b.size ix b.cells h (omega (arith, v.fits, v.whole)),
              )
      ]

  last_absent :
      (obj : ℕ)
      → (b.size == 0) ≡ false
      → (get_or b.cells (b.size - 1) 0 == obj) ≡ false
      → has obj (take (b.size - 1) b.cells) ≡ false
      → has obj (items b) ≡ false
  last_absent obj pos e h = ground (
    arith,
    Removed-last b.size b.cells (ground arith) (omega (arith, v.fits, v.whole)) obj,
    has-eq-count obj (items b),
    has-eq-count obj (take (b.size - 1) b.cells),
  )

  abbrev ObjErased : ℕ → Block → Type 0
  ObjErased obj c =
      IsBlock c
      × (((has obj (items b) ≡ false) × (c ≡ b))
          ⊎ ((has obj (items b) ≡ true) × Removed obj (items b) (items c)))

  taken :
      (obj x : ℕ) (c : Block)
      → IsBlock c
      → x ≡ obj
      → Removed x (items b) (items c)
      → ObjErased obj c
  taken obj x c w e r =
      let q : Removed obj (items b) (items c) = subst (λ y. Removed y (items b) (items c)) e r in
      (w, inr (Removed-has obj (items b) (items c) q, q))

  -- `erase(obj)` leaves a block that does not hold the object as it is, and otherwise takes one
  -- occurrence of the object out.
  pub erase_obj-items :
      (obj : ℕ)
      → IsBlock (erase_obj b obj)
        × (((has obj (items b) ≡ false) × (erase_obj b obj ≡ b))
            ⊎ ((has obj (items b) ≡ true) × Removed obj (items b) (items (erase_obj b obj))))
  unfolding erase_obj
  erase_obj-items obj = elim (Bool-cases (b.size == 0)) [
    | inl z ↦ let e : b.size ≡ 0 = ground arith in rw z (v, inl (rw e refl, refl))
    | inr z ↦
        let pos : 0 < b.size = ground arith in
        let room : b.size ≤ length b.cells = omega (arith, v.fits, v.whole) in
        elim (Bool-cases (get_or b.cells (b.size - 1) 0 == obj)) [
          | inl e ↦
              rw (z, e)
                (taken obj (get_or b.cells (b.size - 1) 0) (record b { size = b.size - 1 })
                  (record { whole = v.whole; fits = omega (arith, v.fits) }) (ground arith)
                  (Removed-last b.size b.cells pos room))
          | inr e ↦
              rw (z, e)
                (elim (index_of-cases b.cells (b.size - 1) obj (omega arith)) [
                  | inl (u, h) ↦ rw (u, erase_obj) (v, inl (last_absent obj z e h, refl))
                  | inr (k, u, lt, g, h) ↦
                      rw (u, erase_obj)
                        (taken obj (get_or b.cells k 0)
                          (record {
                            cells = set b.cells k (get_or b.cells (b.size - 1) 0);
                            size = b.size - 1;
                          })
                          (record {
                            whole = length-set b.cells k (get_or b.cells (b.size - 1) 0) ∙ v.whole;
                            fits = omega (arith, v.fits);
                          })
                          g (Removed-swap_out b.size k b.cells (omega arith) room))
                ])
        ]
  ]
