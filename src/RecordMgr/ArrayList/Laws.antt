-- ===== src/RecordMgr/ArrayList/Laws.antt =====
-- `ArrayList` is a list to which `add` appends and from which `erase` takes one occurrence.
use vcaslib.Common.{
  ℕ, ◌+◌, ◌-◌, ◌<◌, ◌≡◌, ◌⊎◌, refl, sym, subst, ◌∙◌, true, false, none, some, [], ◌∷◌, ◌++◌, inl,
  inr, set, has, length-set, ◌==◌, ltb, lt→ltb, Bool-cases, arith,
}
use vcaslib.Common.Arrays.{
  get_or, take-push, take-set_le, Removed, Removed-swap_out, index_of-cases,
}
use vcaslib.RecordMgr.ArrayList.{
  ArrayList, IsValid, items, get, add, erase_at, atomic_erase_at, get_index, erase, contains,
  is_full,
}

module _ (l : ArrayList) (v : IsValid l) where
  -- On a list that is not full, `add` succeeds, appends its object and keeps the list valid.
  pub add-items :
      (obj : ℕ)
      → is_full l ≡ false
      → (l' : ArrayList) × (add l obj ≡ some l') × IsValid l' × (items l' ≡ items l ++ obj ∷ [])
  unfolding add is_full
  add-items obj f =
      let lt : ltb l.size l.capacity ≡ true = ground (arith, v.fits) in
      (
        record l { cells = set l.cells l.size obj; size = l.size + 1 },
        rw lt refl,
        record { allocated = length-set l.cells l.size obj ∙ v.allocated; fits = ground arith },
        take-push l.size obj l.cells (ground (arith, v.allocated)),
      )

  -- `erase(ix)` at an index in use succeeds, takes one occurrence of the object at that index out
  -- of the list, and keeps the list valid.
  pub erase_at-items :
      (ix : ℕ)
      → ix < l.size
      → (l' : ArrayList) × (erase_at l ix ≡ some l')
        × IsValid l'
        × Removed (get l ix) (items l) (items l')
  unfolding erase_at get
  erase_at-items ix h = (
    record l { cells = set l.cells ix (get_or l.cells (l.size - 1) 0); size = l.size - 1 },
    rw (lt→ltb ix l.size h) refl,
    record {
      allocated = length-set l.cells ix (get_or l.cells (l.size - 1) 0) ∙ v.allocated;
      fits = omega (arith, v.fits);
    },
    Removed-swap_out l.size ix l.cells h (omega (arith, v.fits, v.allocated)),
  )

  -- The erasure of `AtomicArrayList`, which does not write where the last object is erased, leaves
  -- the same list as that of `ArrayList`, and fails its assertion at the same indices.
  pub atomic_erase_at-items :
      (ix : ℕ)
      → ((atomic_erase_at l ix ≡ none) × (erase_at l ix ≡ none))
        ⊎ ((k m : ArrayList) × (atomic_erase_at l ix ≡ some k)
            × (erase_at l ix ≡ some m)
            × (items k ≡ items m))
  unfolding erase_at atomic_erase_at
  atomic_erase_at-items ix = elim (Bool-cases (ltb ix l.size)) [
    | inr e ↦ inl (rw e refl, rw e refl)
    | inl e ↦ elim (Bool-cases (ix == l.size - 1)) [
      | inr d ↦ inr (swapped, swapped, rw (e, d) refl, rw e refl, refl)
      | inl d ↦ inr (
        record l { size = l.size - 1 },
        swapped,
        rw (e, d) refl,
        rw e refl,
        sym (take-set_le (l.size - 1) ix _ l.cells (ground arith)),
      )
    ]
  ]
    where
      swapped : ArrayList
      swapped = record l {
        cells = set l.cells ix (get_or l.cells (l.size - 1) 0);
        size = l.size - 1;
      }

  -- `contains` decides membership.
  pub contains-has : (obj : ℕ) → contains l obj ≡ has obj (items l)
  unfolding contains get_index
  contains-has obj = elim (index_of-cases l.cells l.size obj (omega (arith, v.fits, v.allocated))) [
    | inl (u, h) ↦ rw (u, contains) (sym h)
    | inr (k, u, lt, g, h) ↦ rw (u, contains) (sym h)
  ]

  -- `erase(obj)` always succeeds and keeps the list valid. It leaves a list that does not hold the
  -- object as it is, and otherwise takes one occurrence of the object out.
  pub erase-items :
      (obj : ℕ)
      → (l' : ArrayList) × (erase l obj ≡ some l')
        × IsValid l'
        × (((has obj (items l) ≡ false) × (l' ≡ l))
            ⊎ ((has obj (items l) ≡ true) × Removed obj (items l) (items l')))
  unfolding erase get_index get
  erase-items obj = elim (index_of-cases l.cells l.size obj (omega (arith, v.fits, v.allocated))) [
    | inl (u, h) ↦ (l, rw (u, erase) refl, v, inl (h, refl))
    | inr (k, u, lt, g, h) ↦
        let (l', e, v', r) = erase_at-items k lt in
        (l', rw (u, erase) e, v', inr (h, subst (λ x. Removed x (items l) (items l')) g r))
  ]
