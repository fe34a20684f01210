-- ===== src/Bst/Count.antt =====
-- The traversals that count: `size` and `debugKeySum`.
use vcaslib.Common.{
  ℕ, zero, suc, ◌+◌, ◌<◌, ◌≡◌, refl, ap, sym, subst, ◌∙◌, true, false, Option, none, some, List, [],
  ◌∷◌, ◌++◌, if◌then◌else◌, ◌==◌, arith,
}
use vcaslib.Rq.{Ptr, null}
use vcaslib.Bst.{Store, left_of, right_of}
use vcaslib.Bst.Search.Laws.{Proper}
use vcaslib.Bst.Tidy.{Tidy, Sentinel}
use vcaslib.Bst.Tree.{Tree, leaf, node, height, At, contents}
use vcaslib.Bst.Tree.Frame.{At-null}

-- The recursion of both: `at_leaf` is what a leaf gives.
unfoldable pub sum_leaves : (at_leaf : Store → Ptr → ℕ) → ℕ → Store → Ptr → Option ℕ
sum_leaves at_leaf zero s p = none
sum_leaves at_leaf (suc n) s p =
    let left = sum_leaves at_leaf n s (s.mem.field (left_of p)) in
    let right = sum_leaves at_leaf n s (s.mem.field (right_of p)) in
    if p == null
    then some 0
    else if s.mem.field (left_of p) == null
    then some (at_leaf s p)
    else elim left [ none ↦ none | some a ↦ elim right [ none ↦ none | some b ↦ some (a + b) ] ]

-- `computeSize`
unfoldable pub compute_size : ℕ → Store → Ptr → Option ℕ
unfolding sum_leaves
compute_size n s p = sum_leaves (λ s' q. 1) n s p

-- `debugKeySum` of a node
unfoldable pub key_sum : ℕ → Store → Ptr → Option ℕ
unfolding sum_leaves
key_sum n s p = sum_leaves (λ s' q. s'.key q) n s p

module _ (root : Ptr) where
  -- `(root->left)->left`
  abbrev pub below_top : Store → Ptr
  below_top s = s.mem.field (left_of (s.mem.field (left_of root)))

  -- `size`
  unfoldable pub size : ℕ → Store → Option ℕ
  unfolding compute_size
  size n s = compute_size n s (below_top s)

  -- `debugKeySum` of the tree
  unfoldable pub debug_key_sum : ℕ → Store → Option ℕ
  unfolding key_sum
  debug_key_sum n s = key_sum n s (below_top s)

abbrev pub total : (g : ℕ → ℕ → ℕ) → List (ℕ × ℕ) → ℕ
total g [] = 0
total g (x ∷ xs) = g x.0 x.1 + total g xs

total-append : (g : ℕ → ℕ → ℕ) (xs ys : List (ℕ × ℕ)) → total g (xs ++ ys) ≡ total g xs + total g ys
total-append g [] ys = omega arith
total-append g (x ∷ xs) ys = omega (arith, total-append g xs ys)

sum_leaves-contents :
    (no_key : ℕ) (g : ℕ → ℕ → ℕ) (n : ℕ) (s : Store) (q : Ptr) (t : Tree)
    → At s.mem.field s.key s.value q t
    → Proper no_key t
    → height t < n
    → sum_leaves (λ s' p. g (s'.key p) (s'.value p)) n s q ≡ some (total g (contents no_key t))
unfolding sum_leaves
sum_leaves-contents no_key g zero s q t h c lt = absurd (omega arith)
sum_leaves-contents no_key g (suc n) s q (leaf p k v) h c lt =
    let z : (q == null) ≡ false = ground (arith, h.0, h.1) in
    let e : (s.mem.field (left_of q) == null) ≡ true =
      ground (arith, ap (λ y. s.mem.field (left_of y)) h.0 ∙ h.4) in
    let i : (k == no_key) ≡ false = ground (arith, c) in
    let j : g (s.key q) (s.value q) ≡ g k v + 0 =
      ap (λ y. g (s.key y) (s.value y)) h.0
      ∙ ap (λ y. g y (s.value p)) h.2
      ∙ ap (λ y. g k y) h.3
      ∙ omega arith in
    rw (z, e, i) (ap some j)
sum_leaves-contents no_key g (suc n) s q (node p k l r) h c lt =
    let z : (q == null) ≡ false = ground (arith, h.0, h.1) in
    let hl : At s.mem.field s.key s.value (s.mem.field (left_of q)) l =
      subst (λ y. At s.mem.field s.key s.value (s.mem.field (left_of y)) l) (sym h.0) h.3 in
    let hr : At s.mem.field s.key s.value (s.mem.field (right_of q)) r =
      subst (λ y. At s.mem.field s.key s.value (s.mem.field (right_of y)) r) (sym h.0) h.4 in
    let e : (s.mem.field (left_of q) == null) ≡ false =
      ground (arith, At-null s.mem.field s.key s.value _ l hl) in
    let a =
      sum_leaves-contents no_key g n s (s.mem.field (left_of q)) l hl c.1 (ground (arith, lt)) in
    let b =
      sum_leaves-contents no_key g n s (s.mem.field (right_of q)) r hr c.2 (ground (arith, lt)) in
    rw (z, e, a, b) (ap some (sym (total-append g (contents no_key l) (contents no_key r))))

Sentinel-contents :
    (no_key : ℕ) (g : ℕ → ℕ → ℕ) (z : Tree) → Sentinel no_key z → total g (contents no_key z) ≡ 0
Sentinel-contents no_key g (leaf p k v) h =
    let i : (k == no_key) ≡ true = ground (arith, h) in rw i refl
Sentinel-contents no_key g (node p k l r) h = absurd h

below_top-contents :
    (no_key : ℕ) (root : Ptr) (g : ℕ → ℕ → ℕ) (n : ℕ) (s : Store) (u : Tree)
    → Tidy no_key root s u
    → height u < n
    → sum_leaves (λ s' p. g (s'.key p) (s'.value p)) n s (below_top root s)
      ≡ some (total g (contents no_key u))
unfolding sum_leaves
below_top-contents no_key root g zero s u h lt = absurd (omega arith)
below_top-contents no_key root g (suc n) s (leaf p k v) h lt =
    let i : (k == no_key) ≡ true = ground (arith, h.rooted) in
    let e : (s.mem.field (left_of (s.mem.field (left_of root))) == null) ≡ true =
      ground (arith, ap (λ y. s.mem.field (left_of y)) h.shows.0 ∙ h.shows.4) in
    rw (i, e) refl
below_top-contents no_key root g (suc n) s (node p k t z) h lt =
    let at_t : At s.mem.field s.key s.value (below_top root s) t =
      subst (λ y. At s.mem.field s.key s.value (s.mem.field (left_of y)) t) (sym h.shows.0)
        h.shows.3 in
    sum_leaves-contents no_key g (suc n) s (below_top root s) t at_t h.rooted.1 (ground (arith, lt))
    ∙ ap some (
        let a = total-append g (contents no_key t) (contents no_key z) in
        let b = Sentinel-contents no_key g z h.rooted.2 in omega (arith, a, b))

-- On a memory that holds a search tree, and with more fuel than it is high, `size` is the number of
-- keys in the tree, and `debugKeySum` is their sum.
pub size-contents :
    (no_key : ℕ) (root : Ptr) (n : ℕ) (s : Store) (u : Tree)
    → Tidy no_key root s u
    → height u < n
    → (size root n s ≡ some (total (λ k v. 1) (contents no_key u)))
      × (debug_key_sum root n s ≡ some (total (λ k v. k) (contents no_key u)))
unfolding size debug_key_sum
size-contents no_key root n s u h lt = (
  below_top-contents no_key root (λ k v. 1) n s u h lt,
  below_top-contents no_key root (λ k v. k) n s u h lt,
)
