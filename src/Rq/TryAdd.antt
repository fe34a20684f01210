-- ===== src/Rq/TryAdd.antt =====
-- `traversal_try_add` of rq/rq_vcas.h: the result arrays of a range query, as far as the query has
-- got. The data structure's `getKeys`, which writes the keys and values of a node into the arrays
-- from an index on and returns their number, its `isInRange` for the query's bounds, the limit
-- of the first assertion and RQSIZE, that of the last (under MICROBENCH), are arguments. `none` is
-- an assertion that fails.
use vcaslib.Common.{
  ℕ, zero, suc, ◌+◌, ◌≤◌, ◌<◌, ◌≡◌, refl, ap, ◌∙◌, Bool, true, Option, none, some, List, [], ◌∷◌,
  ◌++◌, ◌||◌, inl, inr, length, length-set, set, if◌then◌else◌, ◌==◌, ltb, leb, lt→ltb, Bool-cases,
  arith,
}
use vcaslib.Common.Arrays.{get_or, take, take-push}

pub record Results : Type 0 where
  pub keys : List ℕ
  pub values : List ℕ

-- The two assignments of the loop.
abbrev pub copy : Results → (location i : ℕ) → Results
copy r location i = record {
  keys = set r.keys location (get_or r.keys i 0);
  values = set r.values location (get_or r.values i 0);
}

-- The loop from index `i` on, with `n` rounds left.
unfoldable pub compact : (in_range : ℕ → Bool) → ℕ → (i location : ℕ) → Results → Results × ℕ
compact in_range zero i location r = (r, location)
compact in_range (suc n) i location r =
    let kept = compact in_range n (i + 1) (location + 1) (copy r location i) in
    let left = compact in_range n (i + 1) location r in
    if in_range (get_or r.keys i 0) then kept else left

-- The end, after the loop.
abbrev pub sized : (rq_size : ℕ) → Results × ℕ → Option (Results × ℕ)
sized rq_size (r, location) = if leb location rq_size then some (r, location) else none

unfoldable pub try_add :
    (in_range : ℕ → Bool)
    → (get_keys : Results → ℕ → Results × ℕ) → (limit rq_size : ℕ) → Results
    → ℕ
    → Option (Results × ℕ)
unfolding compact
try_add in_range get_keys limit rq_size r start =
    let (r', found) = get_keys r start in
    if ltb found limit
    then (if found == 0
        then some (r', start)
        else sized rq_size (compact in_range found start start r'))
    else none

-- The elements of `xs` from index `i` to `i + n` whose keys are in range.
abbrev pub picked : (in_range : ℕ → Bool) → (n i : ℕ) → (keys xs : List ℕ) → List ℕ
picked in_range zero i keys xs = []
picked in_range (suc n) i keys xs =
    let rest = picked in_range n (i + 1) keys xs in
    if in_range (get_or keys i 0) then get_or xs i 0 ∷ rest else rest

get_or-set_below : (xs : List ℕ) (i j v : ℕ) → i < j → get_or (set xs i v) j 0 ≡ get_or xs j 0
get_or-set_below [] i j v h = refl
get_or-set_below (x ∷ xs) zero zero v h = absurd (omega arith)
get_or-set_below (x ∷ xs) zero (suc j) v h = refl
get_or-set_below (x ∷ xs) (suc i) zero v h = absurd (omega arith)
get_or-set_below (x ∷ xs) (suc i) (suc j) v h = get_or-set_below xs i j v (omega arith)

append-push : (xs ys : List ℕ) (a : ℕ) → (xs ++ a ∷ []) ++ ys ≡ xs ++ a ∷ ys
append-push [] ys a = refl
append-push (x ∷ xs) ys a = ap (λ l. x ∷ l) (append-push xs ys a)

module _ (in_range : ℕ → Bool) where
  -- A write below the index does not change what is picked.
  picked-set :
      (n i l u v : ℕ) (keys xs : List ℕ)
      → l < i
      → picked in_range n i (set keys l u) (set xs l v) ≡ picked in_range n i keys xs
  picked-set zero i l u v keys xs h = refl
  picked-set (suc n) i l u v keys xs h =
      rw
        (
          get_or-set_below keys l i u h,
          get_or-set_below xs l i v h,
          picked-set n (i + 1) l u v keys xs (omega arith),
        )
        refl

  -- What the loop leaves in front of the location that it returns.
  abbrev Compacted : Results × ℕ → (n i location : ℕ) → Results → Type 0
  Compacted (r', location') n i location r =
      (location' ≡ location + length (picked in_range n i r.keys r.keys))
      × (take location' r'.keys ≡ take location r.keys ++ picked in_range n i r.keys r.keys)
      × (take location' r'.values ≡ take location r.values ++ picked in_range n i r.keys r.values)

  append_nil : (xs : List ℕ) → xs ≡ xs ++ []
  append_nil [] = refl
  append_nil (x ∷ xs) = ap (λ l. x ∷ l) (append_nil xs)

  compact-Compacted :
      (n i location : ℕ) (r : Results)
      → location ≤ i
      → i + n ≤ length r.keys
      → i + n ≤ length r.values
      → Compacted (compact in_range n i location r) n i location r
  unfolding compact
  compact-Compacted zero i location r h k v =
      (omega arith, append_nil (take location r.keys), append_nil (take location r.values))
  compact-Compacted (suc n) i location r h k v = elim (Bool-cases (in_range (get_or r.keys i 0))) [
    | inl e ↦
        let x : ℕ = get_or r.keys i 0 in
        let y : ℕ = get_or r.values i 0 in
        let (a, b, c) =
          compact-Compacted n (i + 1) (location + 1) (copy r location i) (omega arith)
            (omega (arith, length-set r.keys location x))
            (omega (arith, length-set r.values location y)) in
        let p = picked-set n (i + 1) location x x r.keys r.keys (omega arith) in
        let q = picked-set n (i + 1) location x y r.keys r.values (omega arith) in
        rw e (
          a ∙ rw p (omega arith),
          b ∙ rw (p, take-push location x r.keys (omega arith)) (append-push _ _ x),
          c ∙ rw (q, take-push location y r.values (omega arith)) (append-push _ _ y),
        )
    | inr e ↦
        rw e (compact-Compacted n (i + 1) location r (omega arith) (omega arith) (omega arith))
  ]

  -- If `getKeys` returns fewer keys than the limit and the arrays have room for them,
  -- `traversal_try_add` fails an assertion exactly if `getKeys` returns some keys and the start index
  -- and the number of those in range are together above RQSIZE. Otherwise, of the arrays as `getKeys`
  -- leaves them, the part in front of the start index stays, behind it come the keys in range with
  -- their values, in the order of `getKeys`, and the start index moves behind these.
  pub try_add-picked :
      (get_keys : Results → ℕ → Results × ℕ) (limit rq_size : ℕ) (r : Results) (start : ℕ)
      → (get_keys r start).1 < limit
      → start + (get_keys r start).1 ≤ length (get_keys r start).0.keys
      → start + (get_keys r start).1 ≤ length (get_keys r start).0.values
      → (out : Results × ℕ) × (try_add in_range get_keys limit rq_size r start ≡ (
          if ((get_keys r start).1 == 0)
            || leb
                (start
                  + length (
                      picked in_range
                        (get_keys r start).1
                        start
                        (get_keys r start).0.keys
                        (get_keys r start).0.keys))
                rq_size
          then some out
          else none))
        × Compacted out (get_keys r start).1 start start (get_keys r start).0
  unfolding try_add
  try_add-picked get_keys limit rq_size r start l k v =
      let r' = (get_keys r start).0 in
      let found = (get_keys r start).1 in
      let f : ltb found limit ≡ true = lt→ltb found limit l in
      elim (Bool-cases (found == 0)) [
        | inr e ↦
            let all = compact-Compacted found start start r' (omega arith) k v in
            (
              compact in_range found start start r',
              rw (f, e)
                  (ap
                    (λ z.
                      if leb z rq_size then some (compact in_range found start start r') else none)
                    (all.0)),
              all,
            )
        | inl e ↦
            let z : found ≡ 0 = ground arith in
            (
              (r', start),
              rw (f, e) refl,
              rw z
                  (omega arith, append_nil (take start r'.keys), append_nil (take start r'.values)),
            )
      ]
