-- ===== src/Bst/Erase/Copies.antt =====
-- The copy of the sibling that an erasure puts in place of the leaf's parent.
use vcaslib.Common.{
  ℕ, ◌+◌, ◌*◌, ◌≤◌, ◌<◌, ◌≡◌, ◌≢◌, inl, inr, refl, ap, sym, subst, ◌∙◌, true, List, [], ◌∷◌, ◌++◌,
  has, ◌==◌, ==-refl, ==→≡, Bool-cases, arith,
}
use vcaslib.Common.Arrays.{count, one_if, count-append}
use vcaslib.Rq.{Ptr, Addr, null}
use vcaslib.Descriptors.{mutables_dummy}
use vcaslib.Bst.{Store, left_of, right_of, initialize_node}
use vcaslib.Bst.Llx.Settled.{Settled}
use vcaslib.Bst.Search.Laws.{Proper}
use vcaslib.Bst.Tidy.{Tidy, Rooted, Sentinel}
use vcaslib.Bst.Attach.{Graft}
use vcaslib.Bst.Grow.{Grown, initialize-Grown, initialize-new}
use vcaslib.Bst.Erase.Forks.{
  Fork, Fork-top, Fork-count, Fork-Ordered, Fork-Proper, Fork-Rooted, Fork-has,
}
use vcaslib.Bst.Tree.{Tree, leaf, node, ptrs, top, At, keys, Ordered, Way, copied}
use vcaslib.Bst.Tree.Frame.{At-frame, Alike, count-end, owner}
use vcaslib.Bst.Tree.Order.{Ordered-end}

-- The nodes below the top.
abbrev pub rest : Tree → List Ptr
rest (leaf p k v) = []
rest (node p k l r) = ptrs l ++ ptrs r

pub count-rest : (y : Ptr) (t : Tree) → count y (ptrs t) ≡ one_if (y == top t) + count y (rest t)
count-rest y (leaf p k v) = refl
count-rest y (node p k l r) = refl

pub count-copied :
    (y n : Ptr) (t : Tree) → count y (ptrs (copied n t)) ≡ one_if (y == n) + count y (rest t)
count-copied y n (leaf p k v) = refl
count-copied y n (node p k l r) = refl

pub copied-top : (n : Ptr) (t : Tree) → top (copied n t) ≡ n
copied-top n (leaf p k v) = refl
copied-top n (node p k l r) = refl

keys-copied : (no_key : ℕ) (n : Ptr) (t : Tree) → keys no_key (copied n t) ≡ keys no_key t
keys-copied no_key n (leaf p k v) = refl
keys-copied no_key n (node p k l r) = refl

Ordered-copied : (no_key : ℕ) (n : Ptr) (t : Tree) → Ordered no_key t → Ordered no_key (copied n t)
Ordered-copied no_key n (leaf p k v) o = o
Ordered-copied no_key n (node p k l r) o = o

Proper-copied : (no_key : ℕ) (n : Ptr) (t : Tree) → Proper no_key t → Proper no_key (copied n t)
Proper-copied no_key n (leaf p k v) o = o
Proper-copied no_key n (node p k l r) o = o

Rooted-copied : (no_key : ℕ) (n : Ptr) (t : Tree) → Sentinel no_key t → Rooted no_key (copied n t)
Rooted-copied no_key n (leaf p k v) o = o
Rooted-copied no_key n (node p k l r) o = absurd o

-- The memory with the copy.
abbrev pub copy_store : Store → (n q : Ptr) → Store
copy_store s n q =
    initialize_node s n (s.key q) (s.value q) (s.mem.field (left_of q)) (s.mem.field (right_of q))

same_nodes :
    (s s' : Store) (ps : List Ptr) (y : Ptr)
    → Grown s s' ps
    → 0 < count y ps
    → Alike s.mem.field s'.mem.field s.key s'.key s.value s'.value y
same_nodes s s' ps y g i =
    let half : owner (2 * y) ≡ y = omega arith in
    let half' : owner (2 * y + 1) ≡ y = omega arith in
    (
      g.fields (left_of y) (subst (λ m. 0 < count m ps) (sym half) i),
      g.fields (right_of y) (subst (λ m. 0 < count m ps) (sym half') i),
      (g.items y i).0,
      (g.items y i).1,
    )

At-copied :
    (s : Store) (n : Ptr) (t : Tree)
    → (s.records 1022).mutables ≡ mutables_dummy
    → n ≢ null
    → count n (ptrs t) ≡ 0
    → At s.mem.field s.key s.value (top t) t
    → let s' = copy_store s n (top t) in At s'.mem.field s'.key s'.value n (copied n t)
At-copied s n (leaf p k v) dum nz new h =
    let (l, r, kn, vn, sn) =
      initialize-new s n (s.key p) (s.value p) (s.mem.field (left_of p)) (s.mem.field (right_of p))
        dum in
    (refl, nz, kn ∙ h.2, vn ∙ h.3, l ∙ h.4)
At-copied s n (node p k l r) dum nz new h =
    let (nl, nr, kn, vn, sn) =
      initialize-new s n (s.key p) (s.value p) (s.mem.field (left_of p)) (s.mem.field (right_of p))
        dum in
    let s' = copy_store s n p in
    let g =
      initialize-Grown s n (s.key p) (s.value p) (s.mem.field (left_of p))
        (s.mem.field (right_of p)) (ptrs (node p k l r)) new in
    let below : (q : Ptr) (t : Tree)
        → ((y : Ptr) → count y (ptrs t) ≤ count y (ptrs l ++ ptrs r))
        → At s.mem.field s.key s.value q t
        → At s'.mem.field s'.key s'.value q t =
      λ q t inside i.
        At-frame s.mem.field s'.mem.field s.key s'.key s.value s'.value q t
          (λ y j. same_nodes s s' (ptrs (node p k l r)) y g (omega (arith, j, inside y))) i in
    (
      refl,
      nz,
      kn ∙ h.2,
      subst (λ z. At s'.mem.field s'.key s'.value z l) (sym nl)
          (below (s.mem.field (left_of p)) l (λ y. omega (arith, count-append y (ptrs l) (ptrs r)))
            h.3),
      subst (λ z. At s'.mem.field s'.key s'.value z r) (sym nr)
          (below (s.mem.field (right_of p)) r (λ y. omega (arith, count-append y (ptrs l) (ptrs r)))
            h.4),
    )

-- The copy may take the parent's place.
pub copied-Graft :
    {no_key x : ℕ} {root : Ptr} {b b' : Addr} {gpp gp p m : Ptr} {c v : ℕ} {u e t : Tree}
    (s : Store) (n : Ptr)
    → Tidy no_key root s u
    → Way no_key x (left_of root) root root u b gpp gp e
    → Fork no_key x p m c v t e b'
    → At s.mem.field s.key s.value (top t) t
    → n ≢ null
    → count n (root ∷ ptrs u) ≡ 0
    → c ≢ no_key
    → Graft no_key x root (copy_store s n (top t)) u e (copied n t)
copied-Graft {no_key = no_key} {root = root} {p = p} {m = m} {u = u} {e = e} {t = t} s n h w fork at
      nz new ne =
    record {
      shows =
          subst (λ q. At s'.mem.field s'.key s'.value q (copied n t)) (sym (copied-top n t))
            (At-copied s n t h.dummy nz (omega (arith, inside n, new)) at);
      fresh = λ y. elim (Bool-cases (y == n)) [
        | inl z ↦
            let zero_at : count y (root ∷ ptrs u) ≡ 0 =
              ap (λ q. count q (root ∷ ptrs u)) (==→≡ y n z) ∙ new in
            omega (arith, zero_at, inside y, count-rest y t, count-copied y n t, ap one_if z)
        | inr z ↦
            omega (arith, h.distinct y, part_of y, count-rest y t, count-copied y n t, ap one_if z)
      ];
      another = λ z. omega (
        arith,
        new,
        above p,
        count-end p w,
        Fork-count p fork,
        ap (λ q. count q (root ∷ ptrs u)) (sym (copied-top n t) ∙ z ∙ Fork-top fork),
        ap one_if (==-refl p),
      );
      settled = λ y i. elim (Bool-cases (y == n)) [
        | inl z ↦ subst (λ q. Settled s' q) (sym (==→≡ y n z)) made
        | inr z ↦
            let j : 0 < count y (root ∷ ptrs u) =
              omega (arith, i, inside y, count-rest y t, count-copied y n t, ap one_if z) in
            grown.settled y j (h.settled y j)
      ];
      same_keys =
          λ y i. inr (Fork-has y fork (subst (λ ks. has y ks ≡ true) (keys-copied no_key n t) i));
      ordered = Ordered-copied no_key n t (Fork-Ordered fork (Ordered-end w h.ordered));
      proper = λ z. Proper-copied no_key n t (Fork-Proper fork z);
      rooted = λ z. Rooted-copied no_key n t (Fork-Rooted fork ne z);
    }
  where
    s' : Store
    s' = copy_store s n (top t)

    grown : Grown s s' (root ∷ ptrs u)
    grown = initialize-Grown s n (s.key (top t)) (s.value (top t)) _ _ (root ∷ ptrs u) new

    made : Settled s' n
    made = (initialize-new s n (s.key (top t)) (s.value (top t)) _ _ h.dummy).4

    part_of : (y : Ptr) → count y (ptrs t) ≤ count y (ptrs e)
    part_of y = omega (arith, Fork-count y fork)

    inside : (y : Ptr) → count y (ptrs t) ≤ count y (root ∷ ptrs u)
    inside y = omega (arith, part_of y, count-end y w)

    above : (y : Ptr) → count y (ptrs u) ≤ count y (root ∷ ptrs u)
    above y = omega arith
