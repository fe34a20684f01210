-- ===== src/Bst/Erase/Forks.antt =====
-- The node above a leaf that an erasure removes: the leaf on one side of it, the sibling `t` on the
-- other.
use vcaslib.Common.{
  ℕ, ◌+◌, ◌≤◌, ◌≡◌, ◌≢◌, inl, inr, refl, sym, subst, ◌∙◌, Bool, true, false, none, [], ◌∷◌, has,
  if◌then◌else◌, ◌==◌, Bool-cases, arith,
}
use vcaslib.Common.Arrays.{count, one_if, count-append}
use vcaslib.Rq.{Ptr, Addr, null}
use vcaslib.Bst.{left_of, right_of}
use vcaslib.Bst.Search.Laws.{Proper}
use vcaslib.Bst.Tidy.{Rooted, Sentinel}
use vcaslib.Bst.Tree.{
  Tree, leaf, node, ptrs, top, At, goes_left, get, keys, Ordered, Way, stop, turn_left, turn_right,
  copied,
}
use vcaslib.Bst.Tree.Frame.{At-top, At-null}
use vcaslib.Bst.Tree.Order.{Side, tops_differ, has-append, in_left, in_right}

-- `Fork no_key x p m c v t e b`: `e` has the leaf `m`, at the address `b`, and `t` below its top `p`.
pub data Fork (no_key x : ℕ) (p m : Ptr) (c v : ℕ) (t : Tree) : Tree → Addr → Type 0 where
  left_fork :
      {k : ℕ}
      → goes_left no_key x k ≡ true
      → Fork no_key x p m c v t (node p k (leaf m c v) t) (left_of p)
  right_fork :
      {k : ℕ}
      → goes_left no_key x k ≡ false
      → Fork no_key x p m c v t (node p k t (leaf m c v)) (right_of p)

-- A path is empty, or comes to a node and takes one more step.
pub data Parting (no_key x : ℕ)
    : (a : Addr) → (gp p : Ptr) → Tree → Addr → (gp' p' : Ptr) → Tree → Type 0 where
  no_step : {a : Addr} {gp p : Ptr} {t : Tree} → Parting no_key x a gp p t a gp p t
  step_left :
      {a b : Addr} {gp p gp' p' q : Ptr} {t l r : Tree} {k : ℕ}
      → Way no_key x a gp p t b gp' p' (node q k l r)
      → goes_left no_key x k ≡ true
      → Parting no_key x a gp p t (left_of q) p' q l
  step_right :
      {a b : Addr} {gp p gp' p' q : Ptr} {t l r : Tree} {k : ℕ}
      → Way no_key x a gp p t b gp' p' (node q k l r)
      → goes_left no_key x k ≡ false
      → Parting no_key x a gp p t (right_of q) p' q r

module _ {no_key x : ℕ} where
  under_left :
      (a : Addr) {gp p q gp' p' : Ptr} {b : Addr} {k : ℕ} {l r e : Tree}
      → goes_left no_key x k ≡ true
      → Parting no_key x (left_of q) p q l b gp' p' e
      → Parting no_key x a gp p (node q k l r) b gp' p' e
  under_left a g no_step = step_left stop g
  under_left a g (step_left w h) = step_left (turn_left g w) h
  under_left a g (step_right w h) = step_right (turn_left g w) h

  under_right :
      (a : Addr) {gp p q gp' p' : Ptr} {b : Addr} {k : ℕ} {l r e : Tree}
      → goes_left no_key x k ≡ false
      → Parting no_key x (right_of q) p q r b gp' p' e
      → Parting no_key x a gp p (node q k l r) b gp' p' e
  under_right a g no_step = step_right stop g
  under_right a g (step_left w h) = step_left (turn_right g w) h
  under_right a g (step_right w h) = step_right (turn_right g w) h

  pub part :
      {a b : Addr} {gp p gp' p' : Ptr} {t e : Tree}
      → Way no_key x a gp p t b gp' p' e
      → Parting no_key x a gp p t b gp' p' e
  part stop = no_step
  part {a = a} (turn_left g w) = under_left a g (part w)
  part {a = a} (turn_right g w) = under_right a g (part w)

-- The last step of a path to a leaf.
pub forked :
    {no_key x : ℕ} {a b' : Addr} {gp0 p0 gp p y m : Ptr} {k c v : ℕ} {l r : Tree}
    → Parting no_key x a gp0 p0 (node y k l r) b' gp p (leaf m c v)
    → (b : Addr) × (gpp : Ptr) × (e t : Tree) × Way no_key x a gp0 p0 (node y k l r) b gpp gp e
      × Fork no_key x p m c v t e b'
forked {m = m} {c = c} {v = v} (step_left {b = b} {gp' = gpp} {q = q} {r = r} {k = k} w g) =
    (b, gpp, node q k (leaf m c v) r, r, w, left_fork g)
forked {m = m} {c = c} {v = v} (step_right {b = b} {gp' = gpp} {q = q} {l = l} {k = k} w g) =
    (b, gpp, node q k l (leaf m c v), l, w, right_fork g)

pub get-absent :
    (no_key : ℕ) (t : Tree) (y : ℕ)
    → y ≢ no_key
    → has y (keys no_key t) ≡ false
    → get no_key t y ≡ none
unfolding get
get-absent no_key (leaf p k v) y ne h = let i : (y == k) ≡ false = leaf_case k ne h in rw i refl
  where
    leaf_case : (k : ℕ) → y ≢ no_key → has y (keys no_key (leaf p k v)) ≡ false → (y == k) ≡ false
    leaf_case k ne h = ground arith
get-absent no_key (node p k l r) y ne h =
    let a = has-append y (keys no_key l) (keys no_key r) in
    let hl : has y (keys no_key l) ≡ false = ground (arith, a, h) in
    let hr : has y (keys no_key r) ≡ false = ground (arith, a, h) in
    elim (Bool-cases (goes_left no_key y k)) [
      | inl e ↦ rw e (get-absent no_key l y ne hl)
      | inr e ↦ rw e (get-absent no_key r y ne hr)
    ]

pub get-copied :
    (no_key : ℕ) (n : Ptr) (t : Tree) (y : ℕ) → get no_key (copied n t) y ≡ get no_key t y
unfolding get
get-copied no_key n (leaf p k v) y = refl
get-copied no_key n (node p k l r) y = refl

module _ {no_key x : ℕ} {p m : Ptr} {c v : ℕ} {t : Tree} where
  pub Fork-top : {e : Tree} {b : Addr} → Fork no_key x p m c v t e b → top e ≡ p
  Fork-top (left_fork g) = refl
  Fork-top (right_fork g) = refl

  pub Fork-count :
      {e : Tree} {b : Addr} (y : Ptr)
      → Fork no_key x p m c v t e b
      → count y (ptrs e) ≡ one_if (y == p) + (one_if (y == m) + count y (ptrs t))
  Fork-count y (left_fork g) = omega arith
  Fork-count y (right_fork g) = omega (arith, count-append y (ptrs t) (m ∷ []))

  pub Fork-Ordered :
      {e : Tree} {b : Addr} → Fork no_key x p m c v t e b → Ordered no_key e → Ordered no_key t
  Fork-Ordered (left_fork g) o = o.3
  Fork-Ordered (right_fork g) o = o.2

  pub Fork-Proper :
      {e : Tree} {b : Addr} → Fork no_key x p m c v t e b → Proper no_key e → Proper no_key t
  Fork-Proper (left_fork g) o = o.2
  Fork-Proper (right_fork g) o = o.1

  pub Fork-Rooted :
      {e : Tree} {b : Addr}
      → Fork no_key x p m c v t e b
      → c ≢ no_key
      → Rooted no_key e
      → Sentinel no_key t
  Fork-Rooted (left_fork g) ne o = o.2
  Fork-Rooted (right_fork g) ne o = absurd (ne o.2)

  pub Fork-has :
      {e : Tree} {b : Addr} (y : ℕ)
      → Fork no_key x p m c v t e b
      → has y (keys no_key t) ≡ true
      → has y (keys no_key e) ≡ true
  Fork-has y (left_fork g) h = in_right y (keys no_key (leaf m c v)) (keys no_key t) h
  Fork-has y (right_fork g) h = in_left y (keys no_key t) (keys no_key (leaf m c v)) h

  pub Fork-get :
      {e : Tree} {b : Addr} (y : ℕ)
      → Fork no_key x p m c v t e b
      → Ordered no_key e
      → c ≡ x
      → x ≢ no_key
      → y ≢ no_key
      → get no_key t y ≡ (if y == x then none else get no_key e y)
  unfolding get
  Fork-get y (left_fork {k = k} g) o cx ne nz = elim (Bool-cases (goes_left no_key y k)) [
    | inl d ↦
        let absent : get no_key t y ≡ none =
          get-absent no_key t y nz (elim (Bool-cases (has y (keys no_key t))) [
            | inl i ↦ absurd (clash (o.1 y i) d)
            | inr i ↦ i
          ]) in
        elim (Bool-cases (y == x)) [
          | inl z ↦ rw z absent
          | inr z ↦ let w : (y == c) ≡ false = ground (arith, cx) in rw (z, d, w) absent
        ]
    | inr d ↦ let z : (y == x) ≡ false = ground (arith, g, d) in rw (z, d) refl
  ]
    where
      clash : {z : Bool} → z ≡ false → z ≡ true → ⊥
      clash e f = ground arith
  Fork-get y (right_fork {k = k} g) o cx ne nz = elim (Bool-cases (goes_left no_key y k)) [
    | inr d ↦
        let absent : get no_key t y ≡ none =
          get-absent no_key t y nz (elim (Bool-cases (has y (keys no_key t))) [
            | inl i ↦ absurd (clash d (o.0 y i))
            | inr i ↦ i
          ]) in
        elim (Bool-cases (y == x)) [
          | inl z ↦ rw z absent
          | inr z ↦ let w : (y == c) ≡ false = ground (arith, cx) in rw (z, d, w) absent
        ]
    | inl d ↦ let z : (y == x) ≡ false = ground (arith, g, d) in rw (z, d) refl
  ]
    where
      clash : {z : Bool} → z ≡ false → z ≡ true → ⊥
      clash e f = ground arith

  -- The children of the fork in a memory.
  pub Fork-fields :
      {e : Tree} {b : Addr} (f : Addr → Ptr) (key value : Ptr → ℕ) (q : Ptr)
      → Fork no_key x p m c v t e b
      → At f key value q e
      → ((y : Ptr) → count y (ptrs e) ≤ 1)
      → (f (left_of p) ≢ null)
        × Side f b p
        × (f b ≡ m)
        × ((if m == f (left_of p) then f (right_of p) else f (left_of p)) ≡ top t)
        × At f key value (top t) t
  Fork-fields f key value q (left_fork g) h once =
      let d : f (right_of p) ≡ top t = At-top f key value _ t h.4 in
      let z : (m == f (left_of p)) ≡ true = ground (arith, h.3.0) in
      (λ z. h.3.1 (sym h.3.0 ∙ z), inl refl, h.3.0, rw z d, subst (λ r. At f key value r t) d h.4)
  Fork-fields f key value q (right_fork g) h once =
      let d : f (left_of p) ≡ top t = At-top f key value _ t h.3 in
      let other : top t ≢ m = tops_differ p t (leaf m c v) once in
      let z : (m == f (left_of p)) ≡ false = ground (arith, d, other) in
      (
        At-null f key value _ t h.3,
        inr (refl, λ w. other (sym d ∙ w ∙ h.4.0)),
        h.4.0,
        rw z d,
        subst (λ r. At f key value r t) d h.3,
      )
