-- ===== src/Bst/Erase.antt =====
-- Erasure on a tidy memory: it commits at the first attempt, and the tree after it.
pub mod Forks
pub mod Copies
pub mod Steps
pub mod Alone
use vcaslib.Common.{
  ℕ, zero, suc, ◌+◌, ◌*◌, ◌≤◌, ◌<◌, ◌≡◌, ◌≢◌, ◌⊎◌, inl, inr, refl, ap, sym, subst, ◌∙◌, Bool, true,
  false, not, Option, none, some, List, [], ◌∷◌, if◌then◌else◌, ◌==◌, ltb, ==-refl, ==→≡,
  Bool-cases, arith,
}
use vcaslib.Common.Arrays.{count}
use vcaslib.Rq.{Ptr, Addr, null, Mem}
use vcaslib.Rq.Sequential.{read_addr}
use vcaslib.Bst.{Store, left_of, right_of, read}
use vcaslib.Bst.Search.{Place, descend, ◌>>=◌}
use vcaslib.Bst.Update.{remove_leaf, try_erase, erase}
use vcaslib.Bst.Tidy.{Tidy, Seeks, enter, reads}
use vcaslib.Bst.Above.{Tidy-reads}
use vcaslib.Bst.Insert.Grafts.{Room}
use vcaslib.Bst.Erase.Forks.{part, forked, Fork-get, get-copied}
use vcaslib.Bst.Erase.Alone.{remove_leaf-alone}
use vcaslib.Bst.Tree.{Tree, leaf, node, ptrs, height, get, Way, plug, copied}
use vcaslib.Bst.Tree.Frame.{At-null, Way-leaf, Way-get, get-plug}
use vcaslib.Bst.Tree.Order.{Ordered-end}

-- What an erasure returns: NO_VALUE where the key is absent.
abbrev pub taken_value : (no_value : ℕ) → Option ℕ → ℕ
taken_value no_value none = no_value
taken_value no_value (some v) = v

module _ (no_key no_value : ℕ) (root : Ptr) (tid : ℕ) where
  -- What an attempt does once the search has come to a leaf.
  abbrev at_leaf : (n0 : Ptr) → (key : ℕ) → Store × Place → Option (Store × Option ℕ)
  at_leaf n0 key q = some (
      if key == q.0.key q.1.leaf
      then remove_leaf no_key no_value root tid q.0 n0 q.1.grandparent q.1.parent q.1.leaf
      else (q.0, some no_value))

  try_erase-steps :
      (n : ℕ) (s s1 : Store) (place : Place) (n0 : Ptr) (key : ℕ)
      → let p = (read_addr s.mem (left_of root)).1 in
        let m1 = (read_addr s.mem (left_of root)).0 in
        let m2 = (read_addr m1 (left_of p)).0 in
        ((read_addr m1 (left_of p)).1 == null) ≡ false
        → descend n
            (record s { mem = (read_addr m2 (left_of p)).0 })
            key
            root
            p
            (read_addr m2 (left_of p)).1
          ≡ some (s1, place)
        → try_erase no_key no_value root tid n s n0 key ≡ at_leaf n0 key (s1, place)
  unfolding try_erase
  try_erase-steps n s s1 place n0 key more e = rw more (ap (λ z. z >>= at_leaf n0 key) e)

  try_erase-empty :
      (n : ℕ) (s : Store) (n0 : Ptr) (key : ℕ)
      → let p = (read_addr s.mem (left_of root)).1 in
        let m1 = (read_addr s.mem (left_of root)).0 in
        ((read_addr m1 (left_of p)).1 == null) ≡ true
        → try_erase no_key no_value root tid n s n0 key
          ≡ some (record s { mem = (read_addr m1 (left_of p)).0 }, some no_value)
  unfolding try_erase
  try_erase-empty n s n0 key none_below = rw none_below refl

  erase-steps :
      (m n : ℕ) (s s1 : Store) (n0 : Ptr) (key r : ℕ)
      → try_erase no_key no_value root tid n s n0 key ≡ some (s1, some r)
      → erase no_key no_value root tid (suc m) n s n0 key ≡ some (s1, r, not (r == no_value))
  unfolding erase
  erase-steps m n s s1 n0 key r e = rw e refl

  -- What an erasure that ends in one attempt does to a tree.
  abbrev Erases : Tree → (key : ℕ) → Option (Store × Option ℕ) → Type 0
  Erases u key attempt =
      (s' : Store) × (u' : Tree) × (attempt
        ≡ some (s', some (taken_value no_value (get no_key u key))))
      × Tidy no_key root s' u'
      × ((y : ℕ) → y ≢ no_key → get no_key u' y ≡ (if y == key then none else get no_key u y))

  -- Nothing to remove.
  absent_kept :
      (u : Tree) (key : ℕ) (y : ℕ)
      → get no_key u key ≡ none
      → get no_key u y ≡ (if y == key then none else get no_key u y)
  absent_kept u key y e = elim (Bool-cases (y == key)) [
    | inl z ↦ rw z (ap (get no_key u) (==→≡ y key z) ∙ e)
    | inr z ↦ rw z refl
  ]

  -- The search has come to the leaf of a tree with keys.
  at_leaf-get :
      {b : Addr} {c v y k : ℕ} {t z : Tree} (s : Store) (place : Place) (n0 : Ptr) (key : ℕ)
      → Tidy no_key root s (node y k t z)
      → Way no_key key
          (left_of root)
          root
          root
          (node y k t z)
          b
          place.grandparent
          place.parent
          (leaf place.leaf c v)
      → n0 ≢ null
      → count n0 (root ∷ ptrs (node y k t z)) ≡ 0
      → Room s tid
      → key ≢ no_key
      → Erases (node y k t z) key (at_leaf n0 key (s, place))
  at_leaf-get {c = c} {v = v} {y = y} {k = k} {t = t} {z = z} s place n0 key h w nz new room ne =
      let u = node y k t z in
      let (_, at_l, _) = Way-leaf s.mem.field s.key s.value w h.shows in
      elim (Bool-cases (key == c)) [
        | inl d ↦
            let cx : c ≡ key = sym (==→≡ key c d) in
            let found : get no_key u key ≡ some v = Way-get w ∙ rw d refl in
            let (b2, gpp, e, t2, w2, fork) = forked (part w) in
            let (s5, r, t5) =
              remove_leaf-alone no_value tid s n0 h w2 fork nz new room (λ q. ne (sym cx ∙ q)) in
            (
              s5,
              plug w2 (copied n0 t2),
              rw (at_l.2, d, found) (ap some (r ∙ ap (λ q. (s5, some q)) at_l.3)),
              t5,
              λ x hx.
                  get-plug (copied n0 t2) none x w2 (
                    get-copied no_key n0 t2 x
                    ∙ Fork-get x fork (Ordered-end w2 h.ordered) cx ne hx),
            )
        | inr d ↦
            let absent : get no_key u key ≡ none = Way-get w ∙ rw d refl in
            (s, u, rw (at_l.2, d, absent) refl, h, λ x hx. absent_kept u key x absent)
      ]

  try_erase-get :
      (n : ℕ) (s : Store) (u : Tree) (n0 : Ptr) (key : ℕ)
      → Tidy no_key root s u
      → n0 ≢ null
      → count n0 (root ∷ ptrs u) ≡ 0
      → Room s tid
      → key ≢ no_key
      → height u < n
      → Erases u key (try_erase no_key no_value root tid n s n0 key)
  unfolding get
  try_erase-get n s (leaf y k v) n0 key h nz new room ne lt =
      let (e1, r1) = reads no_key root s s.mem refl (left_of root) in
      let m1 = (read_addr s.mem (left_of root)).0 in
      let p = (read_addr s.mem (left_of root)).1 in
      let (e2, r2) = reads no_key root s m1 e1 (left_of p) in
      let below : ((read_addr m1 (left_of p)).1 == null) ≡ true =
        ground (arith, r2 ∙ ap (λ z. s.mem.field (left_of z)) (r1 ∙ h.shows.0) ∙ h.shows.4) in
      let g : (key == k) ≡ false = ground (arith, h.rooted, ne) in
      let absent : get no_key (leaf y k v) key ≡ none = rw g refl in
      let m2 = (read_addr m1 (left_of p)).0 in
      (
        record s { mem = m2 },
        leaf y k v,
        try_erase-empty n s n0 key below
            ∙ ap (λ q. some (record s { mem = m2 }, some (taken_value no_value q))) (sym absent),
        Tidy-reads no_key root s m2 (leaf y k v) h e2,
        λ x hx. absent_kept (leaf y k v) key x absent,
      )
  try_erase-get n s (node y k t z) n0 key h nz new room ne lt =
      let (e1, r1) = reads no_key root s s.mem refl (left_of root) in
      let m1 = (read_addr s.mem (left_of root)).0 in
      let p = (read_addr s.mem (left_of root)).1 in
      let (e2, r2) = reads no_key root s m1 e1 (left_of p) in
      let m2 = (read_addr m1 (left_of p)).0 in
      let (e3, r3) = reads no_key root s m2 e2 (left_of p) in
      let m3 = (read_addr m2 (left_of p)).0 in
      let ep : p ≡ y = r1 ∙ h.shows.0 in
      let el : (read_addr m2 (left_of p)).1 ≡ s.mem.field (left_of y) =
        r3 ∙ ap (λ c. s.mem.field (left_of c)) ep in
      let more : ((read_addr m1 (left_of p)).1 == null) ≡ false = ground (
        arith,
        r2,
        ap (λ c. s.mem.field (left_of c)) ep,
        At-null s.mem.field s.key s.value _ t h.shows.3,
      ) in
      let (m, b, place, c, v, d, fe, w) =
        enter no_key root s n key y k t z m3 p (read_addr m2 (left_of p)).1 h lt e3 ep el in
      let s1 : Store = record s { mem = m } in
      let (s', u', r, t', g) =
        at_leaf-get s1 place n0 key (Tidy-reads no_key root s m (node y k t z) h fe) w nz new room
          ne in
      (s', u', try_erase-steps n s s1 place n0 key more d ∙ r, t', g)

  -- On a memory that holds a search tree below `root`, with a fresh node, a descriptor of the
  -- thread's own whose sequence number does not wrap, and more fuel than the tree is high, `erase`
  -- ends at its first attempt. It returns the value of the key and whether that is other than
  -- NO_VALUE, or NO_VALUE and false where the key was absent. The memory holds a search tree again, in
  -- which the key is absent and all other keys are as they were.
  pub erase-get :
      (m n : ℕ) (s : Store) (u : Tree) (n0 : Ptr) (key : ℕ)
      → Tidy no_key root s u
      → n0 ≢ null
      → count n0 (root ∷ ptrs u) ≡ 0
      → Room s tid
      → key ≢ no_key
      → height u < n
      → (s' : Store) × (u' : Tree) × (erase no_key no_value root tid (suc m) n s n0 key
          ≡ some (
            s',
            taken_value no_value (get no_key u key),
            not (taken_value no_value (get no_key u key) == no_value),
          ))
        × Tidy no_key root s' u'
        × ((y : ℕ) → y ≢ no_key → get no_key u' y ≡ (if y == key then none else get no_key u y))
  erase-get m n s u n0 key h nz new room ne lt =
      let (s', u', e, t, g) = try_erase-get n s u n0 key h nz new room ne lt in
      (s', u', erase-steps m n s s' n0 key _ e, t, g)
