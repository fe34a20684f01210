-- ===== src/LazyList/Alone/Queries.antt =====
-- `rangeQuery` of artifact/cpp/lazylist while no other thread runs.
use vcaslib.Common.{
  ℕ, ◌≤◌, ◌<◌, ◌≡◌, refl, inl, inr, ap, sym, subst, fun_ext, ◌∙◌, true, false, ◌&&◌, List, [], ◌∷◌,
  has, Option, none, some, if◌then◌else◌, ltb, leb, ◌==◌, ==→≡, ==-refl, Bool-cases, arith,
}
use vcaslib.Rq.{Ptr}
use vcaslib.LazyList.{Nodes, Pc, queried, enter, skip, scan, advance, is_in_range, exec}
use vcaslib.LazyList.Machine.{System, Reach, at_rest}
use vcaslib.LazyList.Chain.{Links, keys_rise}
use vcaslib.LazyList.Content.{content-missed}
use vcaslib.LazyList.Effects.{contents}
use vcaslib.LazyList.Settled.{settled}
use vcaslib.LazyList.Alone.{Goes, arrived, then_on}
use vcaslib.LazyList.Laws.{Shows, Links-once}

-- The value that results have for a key, and that a map has in a range.
abbrev pub lookup : List (ℕ × ℕ) → ℕ → Option ℕ
lookup [] k = none
lookup ((a, b) ∷ rest) k = if a == k then some b else lookup rest k

abbrev pub ranged : (lo hi : ℕ) → (ℕ → Option ℕ) → ℕ → Option ℕ
ranged lo hi f k = if is_in_range k lo hi then f k else none

abbrev or_else : Option ℕ → Option ℕ → Option ℕ
or_else none b = b
or_else (some v) b = some v

module _ (max no_value : ℕ) (head n : Ptr) (h : Nodes) (lo hi : ℕ) (below : hi < max) where
  -- The nodes from `c` on.
  abbrev from : Ptr → List Ptr → ℕ → Option ℕ
  from c rest = contents h (c ∷ rest)

  beyond :
      (c : Ptr) (rest : List Ptr) (k : ℕ)
      → Links max h.next h.key c rest
      → k < h.key c
      → from c rest k ≡ none
  beyond c rest k l up = content-missed h.key h.val h.marked (c ∷ rest) k (λ m i e.
      elim (Bool-cases (m == c)) [
        | inl d ↦ absurd (omega (arith, up, e, ap h.key (==→≡ m c d)))
        | inr d ↦
            let j : has m rest ≡ true = rw d at i in
            absurd (omega (arith, up, e, keys_rise max h.next h.key c rest m l j))
      ])

  Scans : Ptr → List Ptr → List (ℕ × ℕ) → Type 0
  Scans c rest out =
      (out' : List (ℕ × ℕ)) × (Goes no_value head n (scan lo hi c out) h (h, queried lo hi out'))
      × ((k : ℕ) → lookup out' k ≡ or_else (ranged lo hi (from c rest) k) (lookup out k))

  none_above :
      (c : Ptr) (rest : List Ptr) (k : ℕ)
      → Links max h.next h.key c rest
      → hi < h.key c
      → ranged lo hi (from c rest) k ≡ none
  none_above c rest k l up = elim (Bool-cases (leb lo k && leb k hi)) [
    | inl d ↦ rw d (beyond c rest k l (ground (arith, d, up)))
    | inr d ↦ rw d refl
  ]

  scan-stops :
      (c : Ptr) (rest : List Ptr) (out : List (ℕ × ℕ))
      → Links max h.next h.key c rest
      → hi < h.key c
      → Scans c rest out
  unfolding exec Scans
  scan-stops c rest out l up =
      let e : leb (h.key c) hi ≡ false = ground (arith, up) in
      (
        out,
        then_on no_value head n (scan lo hi c out) h (queried lo hi out) h (h, queried lo hi out)
            (rw e refl) (arrived no_value head n (queried lo hi out) h),
        λ k. sym (ap (λ o. or_else o (lookup out k)) (none_above c rest k l up)),
      )

  -- A node in the range goes in front of the results.
  found_in :
      (c r : Ptr) (rs : List Ptr) (k : ℕ) (out : List (ℕ × ℕ))
      → Links max h.next h.key c (r ∷ rs)
      → lo ≤ h.key c
      → h.key c ≤ hi
      → h.marked c ≡ false
      → or_else (ranged lo hi (from r rs) k) (lookup ((h.key c, h.val c) ∷ out) k)
        ≡ or_else (ranged lo hi (from c (r ∷ rs)) k) (lookup out k)
  found_in c r rs k out l above low clean = elim (Bool-cases (h.key c == k)) [
    | inl d ↦
        let w : h.key c ≡ k = ==→≡ (h.key c) k d in
        let i : leb lo k && leb k hi ≡ true = ground (arith, above, low, w) in
        let a : ranged lo hi (from r rs) k ≡ none =
          rw i (beyond r rs k l.2 (omega (arith, l.1, w))) in
        ap (λ o. or_else o (lookup ((h.key c, h.val c) ∷ out) k)) a ∙ at_key i d
    | inr d ↦ rw d refl
  ]
    where
      at_key :
          (leb lo k && leb k hi) ≡ true
          → (h.key c == k) ≡ true
          → lookup ((h.key c, h.val c) ∷ out) k
            ≡ or_else (ranged lo hi (from c (r ∷ rs)) k) (lookup out k)
      at_key i d = rw (i, d, clean) refl

  scan-alone :
      (c : Ptr) (rest : List Ptr) (out : List (ℕ × ℕ))
      → Links max h.next h.key c rest
      → lo ≤ h.key c
      → ((m : Ptr) → has m (c ∷ rest) ≡ true → h.marked m ≡ false)
      → Scans c rest out
  unfolding exec Scans
  scan-alone c [] out l above clean = scan-stops c [] out l (omega (arith, l, below))
  scan-alone c (r ∷ rs) out l above clean = elim (Bool-cases (leb (h.key c) hi)) [
    | inl e ↦
        let out1 : List (ℕ × ℕ) = (h.key c, h.val c) ∷ out in
        let (out', go, same) =
          scan-alone r rs out1 l.2 (omega (arith, above, l.1))
            (λ m i. clean m (ground (arith, i))) in
        let low : leb lo (h.key c) ≡ true = ground (arith, above) in
        (
          out',
          then_on no_value head n (scan lo hi c out) h (advance lo hi c out1) h
              (h, queried lo hi out') (rw (e, low) refl)
              (then_on no_value head n (advance lo hi c out1) h (scan lo hi (h.next c) out1) h
                (h, queried lo hi out') refl
                (subst (λ y. Goes no_value head n (scan lo hi y out1) h (h, queried lo hi out'))
                  (sym l.0) go)),
          λ k.
              same k
              ∙ found_in c r rs k out l above (ground (arith, e))
                  (clean c (ground (arith, ==-refl c))),
        )
    | inr e ↦ scan-stops c (r ∷ rs) out l (ground (arith, e))
  ]

  Skips : Pc → Ptr → List Ptr → Type 0
  Skips q c rest =
      (out : List (ℕ × ℕ)) × (Goes no_value head n q h (h, queried lo hi out))
      × ((k : ℕ) → lookup out k ≡ ranged lo hi (from c rest) k)

  or_none : (o : Option ℕ) → or_else o none ≡ o
  or_none none = refl
  or_none (some v) = refl

  skip-alone :
      (c : Ptr) (rest : List Ptr)
      → Links max h.next h.key c rest
      → lo < max
      → ((m : Ptr) → has m (c ∷ rest) ≡ true → h.marked m ≡ false)
      → Skips (skip lo hi c) c rest
  unfolding exec Scans Skips
  skip-alone c [] l up clean =
      let e : ltb (h.key c) lo ≡ false = ground (arith, l, up) in
      let (out, go, same) = scan-alone c [] [] l (ground (arith, e)) clean in
      (
        out,
        then_on no_value head n (skip lo hi c) h (scan lo hi c []) h (h, queried lo hi out)
            (rw e refl) go,
        λ k. same k ∙ or_none (ranged lo hi (from c []) k),
      )
  skip-alone c (r ∷ rs) l up clean = elim (Bool-cases (ltb (h.key c) lo)) [
    | inl e ↦
        let (out, go, same) = skip-alone r rs l.2 up (λ m i. clean m (ground (arith, i))) in
        (
          out,
          then_on no_value head n (skip lo hi c) h (skip lo hi (h.next c)) h (h, queried lo hi out)
              (rw e refl)
              (subst (λ y. Goes no_value head n (skip lo hi y) h (h, queried lo hi out)) (sym l.0)
                go),
          λ k. same k ∙ passed c r rs k (ground (arith, e)),
        )
    | inr e ↦
        let (out, go, same) = scan-alone c (r ∷ rs) [] l (ground (arith, e)) clean in
        (
          out,
          then_on no_value head n (skip lo hi c) h (scan lo hi c []) h (h, queried lo hi out)
              (rw e refl) go,
          λ k. same k ∙ or_none (ranged lo hi (from c (r ∷ rs)) k),
        )
  ]
    where
      passed :
          (c r : Ptr) (rs : List Ptr) (k : ℕ)
          → h.key c < lo
          → ranged lo hi (from r rs) k ≡ ranged lo hi (from c (r ∷ rs)) k
      passed c r rs k low = elim (Bool-cases (leb lo k && leb k hi)) [
        | inl d ↦ let e : (h.key c == k) ≡ false = ground (arith, d, low) in rw (d, e) refl
        | inr d ↦ rw d refl
      ]

  enter-alone :
      (chain : List Ptr)
      → Links max h.next h.key head chain
      → h.key head < max
      → lo < max
      → ((m : Ptr) → has m (head ∷ chain) ≡ true → h.marked m ≡ false)
      → (out : List (ℕ × ℕ)) × (Goes no_value head n (enter lo hi) h (h, queried lo hi out))
        × ((k : ℕ) → lookup out k ≡ ranged lo hi (contents h chain) k)
  unfolding exec Skips
  enter-alone [] l low up clean = absurd (omega (arith, l, low))
  enter-alone (c ∷ rest) l low up clean =
      let (out, go, same) = skip-alone c rest l.2 up (λ m i. clean m (ground (arith, i))) in
      (
        out,
        then_on no_value head n (enter lo hi) h (skip lo hi (h.next head)) h (h, queried lo hi out)
            refl
            (subst (λ y. Goes no_value head n (skip lo hi y) h (h, queried lo hi out)) (sym l.0)
              go),
        same,
      )

module _ (min max no_value : ℕ) (head last : Ptr) (ordered : min < max)
    (two : (head == last) ≡ false) (s : System) (r : Reach min max no_value head last s) where
  -- Let the list stand for a map `f` while no call is pending, and the bounds of a range lie below
  -- KEY_MAX. A rangeQuery that now runs by itself comes to its end and leaves the nodes as they are;
  -- a key has in its results the value that `f` has there if it lies in the range, and none else.
  pub range_alone :
      (f : ℕ → Option ℕ) (lo hi : ℕ) (n : Ptr)
      → ((t : ℕ) → at_rest (s.pc t) ≡ true)
      → Shows max head s.heap f
      → lo < max
      → hi < max
      → (out : List (ℕ × ℕ)) × (Goes no_value head n
          (enter lo hi)
          s.heap
          (s.heap, queried lo hi out))
        × ((k : ℕ) → lookup out k ≡ ranged lo hi f k)
  range_alone f lo hi n rest (shown, l, same) l_lo l_hi =
      let (chain, inv, free, clean) = settled min max no_value head last ordered two r rest in
      let e : chain ≡ shown =
        Links-once max s.heap.next s.heap.key head chain shown inv.tidy.links l in
      let e' : contents s.heap chain ≡ f = ap (λ c. contents s.heap c) e ∙ fun_ext same in
      subst
        (λ g.
          (out : List (ℕ × ℕ)) × (Goes no_value head n (enter lo hi) s.heap
            (s.heap, queried lo hi out))
          × ((k : ℕ) → lookup out k ≡ ranged lo hi g k))
        e'
        (enter-alone max no_value head n s.heap lo hi l_hi chain inv.tidy.links inv.tidy.low l_lo
          clean)
