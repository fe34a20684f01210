-- ===== src/Bst/Tidy.antt =====
-- A memory in which no operation is under way: it holds a search tree below `root`, whose top has
-- NO_KEY, and whose nodes are settled. What `find` does there.
use vcaslib.Common.{
  ℕ, ◌≤◌, ◌<◌, ◌≡◌, ◌≢◌, inl, inr, refl, ap, sym, subst, ◌∙◌, Bool, true, false, Option, none, some,
  ◌∷◌, ◌==◌, Bool-cases, arith,
}
use vcaslib.Common.Arrays.{count}
use vcaslib.Rq.{Ptr, Addr, null, Mem}
use vcaslib.Rq.Sequential.{read_addr}
use vcaslib.Descriptors.{mutables_dummy}
use vcaslib.Bst.{Store, left_of}
use vcaslib.Bst.Search.{Place, descend, find, seek}
use vcaslib.Bst.Search.Laws.{Proper, Arrives, descend-Arrives}
use vcaslib.Bst.Llx.Settled.{Settled, read-field, read-result}
use vcaslib.Bst.Tree.{Tree, leaf, node, ptrs, top, height, At, get, Ordered, Way, stop, turn_left}
use vcaslib.Bst.Tree.Frame.{At-null, Way-leaf, Way-get}

abbrev pub Sentinel : ℕ → Tree → Type 0
Sentinel no_key (leaf p k v) = k ≡ no_key
Sentinel no_key (node p k l r) = ⊥

-- The tree below `root`: one leaf with NO_KEY, or a node with NO_KEY over the keys and such a leaf.
abbrev pub Rooted : ℕ → Tree → Type 0
Rooted no_key (leaf p k v) = k ≡ no_key
Rooted no_key (node p k l r) = (k ≡ no_key) × Proper no_key l × Sentinel no_key r

pub record Tidy (no_key : ℕ) (root : Ptr) (s : Store) (u : Tree) : Type 0 where
  pub shows : At s.mem.field s.key s.value (s.mem.field (left_of root)) u
  pub rooted : Rooted no_key u
  pub ordered : Ordered no_key u
  pub distinct : (y : Ptr) → count y (root ∷ ptrs u) ≤ 1
  pub settled : (y : Ptr) → 0 < count y (root ∷ ptrs u) → Settled s y
  pub root_node : root ≢ null
  pub dummy : (s.records 1022).mutables ≡ mutables_dummy

-- The result of a search.
abbrev pub found : ℕ → Option ℕ → ℕ × Bool
found no_value none = (no_value, false)
found no_value (some v) = (v, true)

module _ (no_key : ℕ) (root : Ptr) (s : Store) where
  abbrev pub Seeks : (key : ℕ) → Tree → Option (Store × Place) → Type 0
  Seeks key u r = Arrives no_key key s (left_of root) root root u r

  -- The way down from below the top.
  pub enter :
      (n key : ℕ) (y k : ℕ) (t z : Tree) (m : Mem) (p l : Ptr)
      → Tidy no_key root s (node y k t z)
      → height (node y k t z) < n
      → m.field ≡ s.mem.field
      → p ≡ y
      → l ≡ s.mem.field (left_of y)
      → Seeks key (node y k t z) (descend n (record s { mem = m }) key root p l)
  enter n key y k t z m p l h lt e ep el =
      let i : At m.field s.key s.value l t =
        subst (λ f. At f s.key s.value l t) (sym e)
          (subst (λ w. At s.mem.field s.key s.value w t) (sym el) h.shows.3) in
      let (m', b, place, k', v', d, fe, w) =
        descend-Arrives no_key n (record s { mem = m }) key (left_of y) root p l t i h.rooted.1
          (ground (arith, lt)) in
      let top : (k == no_key) ≡ true = ground (arith, h.rooted.0) in
      (
        m',
        b,
        place,
        k',
        v',
        d,
        fe ∙ e,
        turn_left (rw top refl) (
            subst
              (λ c.
                Way no_key key (left_of y) root c t b place.grandparent place.parent
                  (leaf place.leaf k' v'))
              ep w),
      )

  module _ (m1 : Mem) (e1 : m1.field ≡ s.mem.field) where
    -- A read after other reads.
    pub reads :
        (a : Addr) → ((read_addr m1 a).0.field ≡ s.mem.field) × ((read_addr m1 a).1 ≡ s.mem.field a)
    reads a = (read-field m1 a ∙ e1, read-result m1 a ∙ ap (λ f. f a) e1)

  pub top-left : (u : Tree) → Tidy no_key root s u → s.mem.field (left_of root) ≡ top u
  top-left (leaf p k v) h = h.shows.0
  top-left (node p k l r) h = h.shows.0

  -- On a memory that holds a search tree, and with more fuel than the tree is high, `find` ends with
  -- the value of the key in the tree, or with NO_VALUE, and changes no pointer.
  pub find-get :
      (no_value n key : ℕ) (u : Tree)
      → Tidy no_key root s u
      → key ≢ no_key
      → height u < n
      → (m : Mem) × (find no_value root n s key
          ≡ some (record s { mem = m }, found no_value (get no_key u key)))
        × (m.field ≡ s.mem.field)
  unfolding find get
  find-get no_value n key (leaf y k v) h ne lt =
      let (e1, r1) = reads s.mem refl (left_of root) in
      let m1 = (read_addr s.mem (left_of root)).0 in
      let (e2, r2) = reads m1 e1 (left_of (read_addr s.mem (left_of root)).1) in
      let below : (read_addr m1 (left_of (read_addr s.mem (left_of root)).1)).1 ≡ null =
        r2 ∙ ap (λ z. s.mem.field (left_of z)) (r1 ∙ h.shows.0) ∙ h.shows.4 in
      let g : (key == k) ≡ false = ground (arith, h.rooted) in
      ((read_addr m1 (left_of (read_addr s.mem (left_of root)).1)).0, rw (below, g) refl, e2)
  find-get no_value n key (node y k t z) h ne lt =
      let (e1, r1) = reads s.mem refl (left_of root) in
      let m1 = (read_addr s.mem (left_of root)).0 in
      let p = (read_addr s.mem (left_of root)).1 in
      let (e2, r2) = reads m1 e1 (left_of p) in
      let m2 = (read_addr m1 (left_of p)).0 in
      let l = (read_addr m1 (left_of p)).1 in
      let ep : p ≡ y = r1 ∙ h.shows.0 in
      let el : l ≡ s.mem.field (left_of y) = r2 ∙ ap (λ c. s.mem.field (left_of c)) ep in
      let more : (l == null) ≡ false =
        ground (arith, el, At-null s.mem.field s.key s.value _ t h.shows.3) in
      let (m, b, place, c, v, d, fe, w) = enter n key y k t z m2 p l h lt e2 ep el in
      let (i, j, _) = Way-leaf s.mem.field s.key s.value w h.shows in
      elim (Bool-cases (key == c)) [
        | inl g ↦ (m, rw (more, d, j.2, j.3, Way-get w, g) refl, fe)
        | inr g ↦ (m, rw (more, d, j.2, j.3, Way-get w, g) refl, fe)
      ]

  -- The search phase of an insertion comes to the end of the path of its key.
  pub seek-Arrives :
      (n key : ℕ) (u : Tree) → Tidy no_key root s u → height u < n → Seeks key u (seek root n s key)
  unfolding seek
  seek-Arrives n key (leaf y k v) h lt =
      let (e1, r1) = reads s.mem refl (left_of root) in
      let m1 = (read_addr s.mem (left_of root)).0 in
      let l = (read_addr s.mem (left_of root)).1 in
      let (e2, r2) = reads m1 e1 (left_of l) in
      let el : l ≡ y = r1 ∙ h.shows.0 in
      let below : (read_addr m1 (left_of l)).1 ≡ null =
        r2 ∙ ap (λ z. s.mem.field (left_of z)) el ∙ h.shows.4 in
      (
        (read_addr m1 (left_of l)).0,
        left_of root,
        record { grandparent = root; parent = root; leaf = l },
        k,
        v,
        rw below refl,
        e2,
        subst
            (λ z.
              Way no_key key (left_of root) root root (leaf z k v) (left_of root) root root
                (leaf l k v))
            el stop,
      )
  seek-Arrives n key (node y k t z) h lt =
      let (e1, r1) = reads s.mem refl (left_of root) in
      let m1 = (read_addr s.mem (left_of root)).0 in
      let p = (read_addr s.mem (left_of root)).1 in
      let (e2, r2) = reads m1 e1 (left_of p) in
      let m2 = (read_addr m1 (left_of p)).0 in
      let (e3, r3) = reads m2 e2 (left_of p) in
      let m3 = (read_addr m2 (left_of p)).0 in
      let ep : p ≡ y = r1 ∙ h.shows.0 in
      let el : (read_addr m2 (left_of p)).1 ≡ s.mem.field (left_of y) =
        r3 ∙ ap (λ c. s.mem.field (left_of c)) ep in
      let more : ((read_addr m1 (left_of p)).1 == null) ≡ false = ground (
        arith,
        r2,
        ap (λ c. s.mem.field (left_of c)) ep,
        At-null s.mem.field s.key s.value _ t h.shows.3,
      ) in
      let (m, b, place, c, v, d, fe, w) =
        enter n key y k t z m3 p (read_addr m2 (left_of p)).1 h lt e3 ep el in
      (m, b, place, c, v, rw more d, fe, w)
