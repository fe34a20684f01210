-- ===== src/Bst/Tree/Plug.antt =====
-- A change at the end of a search path: the tree that it makes, and its order.
use vcaslib.Common.{
  ℕ, ◌+◌, ◌*◌, ◌≤◌, ◌<◌, ◌≡◌, ◌≢◌, ◌⊎◌, inl, inr, ap, sym, subst, ◌∙◌, List, ◌∷◌, ◌++◌, ◌==◌,
  ==-refl, arith,
}
use vcaslib.Common.Arrays.{count, one_if, count-append}
use vcaslib.Rq.{Ptr, Addr}
use vcaslib.Bst.Tree.{Tree, leaf, node, ptrs, top, At, Way, stop, turn_left, turn_right, plug}
use vcaslib.Bst.Tree.Frame.{Alike, At-frame, owner, Way-owner}

pub top-in : (t : Tree) → 0 < count (top t) (ptrs t)
top-in (leaf p k v) = rw (==-refl p) (omega arith)
top-in (node p k l r) = rw (==-refl p) (omega arith)

pub self_owner : (a : Addr) (xs : List Ptr) → 1 ≤ count (owner a) (owner a ∷ xs)
self_owner a xs = rw (==-refl (owner a)) (omega arith)

-- The node `q` with the owner `o` of the address above it, and counts below it.
abbrev Once : (o q y cl cr : ℕ) → Type 0
Once o q y cl cr = one_if (y == o) + (one_if (y == q) + (cl + cr)) ≤ 1

not_above : (o q y cl cr : ℕ) → Once o q y cl cr → (y ≡ q) ⊎ (0 < cl) → y ≢ o
not_above o q y cl cr h i = ground arith

not_beside : (o q y cl cr : ℕ) → Once o q y cl cr → (y ≡ q) ⊎ (0 < cl) → cr ≡ 0
not_beside o q y cl cr h i = ground arith

not_both : (o q y cl cr : ℕ) → Once o q y cl cr → 0 < cl → y ≢ q
not_both o q y cl cr h i = ground arith

Once-node :
    (o q : Ptr) (l r : List Ptr)
    → ((y : Ptr) → count y (o ∷ q ∷ l ++ r) ≤ 1)
    → (y : Ptr) → Once o q y (count y l) (count y r)
Once-node o q l r h y = omega (arith, h y, count-append y l r)

Once-swap : (o q y cl cr : ℕ) → Once o q y cl cr → Once o q y cr cl
Once-swap o q y cl cr h = omega (arith, h)

-- The slot at the end of the rest of a path: a child slot `c` of `q`, or one below it.
module _ (o q : Ptr) (b : Addr) (l r : List Ptr)
    (once : (y : Ptr) → Once o q y (count y l) (count y r))
    (below : (owner b ≡ q) ⊎ (0 < count (owner b) l)) where
  slot-above : owner b ≢ o
  slot-above = not_above o q (owner b) _ _ (once (owner b)) below

  slot-beside : count (owner b) r ≡ 0
  slot-beside = not_beside o q (owner b) _ _ (once (owner b)) below

module _ (f f' : Addr → Ptr) (key key' value value' : Ptr → ℕ) where
  -- The step of `plug-At` at a node, for the side that the path takes.
  side-kept :
      {a b c e : Addr} {q : Ptr} (l r : Tree)
      → ((d : Addr) → 0 < count (owner d) (owner a ∷ q ∷ ptrs l ++ ptrs r) → d ≢ b → f' d ≡ f d)
      → ((y : Ptr) → 0 < count y (q ∷ ptrs l ++ ptrs r) → (key' y ≡ key y) × (value' y ≡ value y))
      → ((y : Ptr) → Once (owner a) q y (count y (ptrs l)) (count y (ptrs r)))
      → (owner c ≡ q) × (owner e ≡ q) × (e ≢ c)
      → (b ≡ c) ⊎ (0 < count (owner b) (ptrs l))
      → (f' a ≡ f a)
        × (key' q ≡ key q)
        × (f' e ≡ f e)
        × (At f key value (f e) r → At f' key' value' (f' e) r)
  side-kept {a} {b} {c} {e} {q} l r kept same once (oc, oe, ne) w = (
    kept a (omega (arith, self_owner a (q ∷ ptrs l ++ ptrs r)))
        (λ z. slot-above (owner a) q b (ptrs l) (ptrs r) once below (ap owner (sym z))),
    (same q (rw (==-refl q) (omega arith))).0,
    at_e,
    λ h.
        subst (λ z. At f' key' value' z r) (sym at_e)
          (At-frame f f' key key' value value' (f e) r rest h),
  )
    where
      below : (owner b ≡ q) ⊎ (0 < count (owner b) (ptrs l))
      below = elim w [ inl z ↦ inl (ap owner z ∙ oc) | inr z ↦ inr z ]

      self : 0 < count q (owner a ∷ q ∷ ptrs l ++ ptrs r)
      self = rw (==-refl q) (omega arith)

      at_e : f' e ≡ f e
      at_e = kept e (subst (λ y. 0 < count y (owner a ∷ q ∷ ptrs l ++ ptrs r)) (sym oe) self) (λ z.
          elim w [
            | inl y ↦ ne (z ∙ y)
            | inr y ↦ not_both (owner a) q (owner b) _ _ (once (owner b)) y (ap owner (sym z) ∙ oe)
          ])

      fields : (y : Ptr) (d : Addr) → 0 < count y (ptrs r) → owner d ≡ y → f' d ≡ f d
      fields y d i z =
          kept d
            (subst (λ y. 0 < count y (owner a ∷ q ∷ ptrs l ++ ptrs r)) (sym z)
              (omega (arith, i, count-append y (ptrs l) (ptrs r))))
            (λ u. omega (
              arith,
              i,
              ap (λ g. count (owner g) (ptrs r)) u,
              ap (λ g. count g (ptrs r)) z,
              slot-beside (owner a) q b (ptrs l) (ptrs r) once below,
            ))

      rest : (y : Ptr) → 0 < count y (ptrs r) → Alike f f' key key' value value' y
      rest y i =
          let (k, v) = same y (omega (arith, i, count-append y (ptrs l) (ptrs r))) in
          (fields y (2 * y) i (omega arith), fields y (2 * y + 1) i (omega arith), k, v)

module _ {no_key x : ℕ} (f f' : Addr → Ptr) (key key' value value' : Ptr → ℕ) where
  -- What is above the path's end stays, and the new subtree comes there.
  pub plug-At :
      {a b : Addr} {gp p gp' p' : Ptr} {t e : Tree} (t' : Tree)
      → (w : Way no_key x a gp p t b gp' p' e)
      → ((d : Addr) → 0 < count (owner d) (owner a ∷ ptrs t) → d ≢ b → f' d ≡ f d)
      → ((y : Ptr) → 0 < count y (ptrs t) → (key' y ≡ key y) × (value' y ≡ value y))
      → ((y : Ptr) → count y (owner a ∷ ptrs t) ≤ 1)
      → At f key value (f a) t
      → At f' key' value' (f' b) t'
      → At f' key' value' (f' a) (plug w t')
  unfolding plug
  plug-At t' stop kept same once h h' = h'
  plug-At {a = a} {b = b} t' (turn_left {q = q} {l = l} {r = r} g w) kept same once h h' =
      let o : owner (2 * q) ≡ q = omega arith in
      let o' : owner (2 * q + 1) ≡ q = omega arith in
      let each = Once-node (owner a) q (ptrs l) (ptrs r) once in
      let (fa, kq, fe, fr) =
        side-kept f f' key key' value value' {c = 2 * q} {e = 2 * q + 1} l r kept same each
          (o, o', λ z. omega (arith, z)) (Way-owner w) in
      (
        fa ∙ h.0,
        h.1,
        kq ∙ h.2,
        plug-At t' w
            (λ d i. kept d (omega (arith, rw o at i, count-append (owner d) (ptrs l) (ptrs r))))
            (λ y i. same y (omega (arith, i, count-append y (ptrs l) (ptrs r))))
            (λ y. rw o (omega (arith, each y))) h.3 h',
        fr h.4,
      )
  plug-At {a = a} {b = b} t' (turn_right {q = q} {l = l} {r = r} g w) kept same once h h' =
      let o : owner (2 * q) ≡ q = omega arith in
      let o' : owner (2 * q + 1) ≡ q = omega arith in
      let each = Once-node (owner a) q (ptrs l) (ptrs r) once in
      let (fa, kq, fe, fr) =
        side-kept f f' key key' value value' {c = 2 * q + 1} {e = 2 * q} r l
          (λ d i. kept d (
            omega (
              arith,
              i,
              count-append (owner d) (ptrs l) (ptrs r),
              count-append (owner d) (ptrs r) (ptrs l),
            )))
          (λ y i.
            same y (
              omega (arith, i, count-append y (ptrs l) (ptrs r), count-append y (ptrs r) (ptrs l))))
          (λ y. Once-swap (owner a) q y _ _ (each y)) (o', o, λ z. omega (arith, z))
          (Way-owner w) in
      (
        fa ∙ h.0,
        h.1,
        kq ∙ h.2,
        fr h.3,
        plug-At t' w
            (λ d i. kept d (omega (arith, rw o' at i, count-append (owner d) (ptrs l) (ptrs r))))
            (λ y i. same y (omega (arith, i, count-append y (ptrs l) (ptrs r))))
            (λ y. rw o' (omega (arith, each y))) h.4 h',
      )
