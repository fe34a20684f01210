-- ===== src/Bst/Insert.antt =====
-- Insertion on a tidy memory: it commits at the first attempt, and the tree after it.
pub mod Trees
pub mod Alone
pub mod Grafts
use vcaslib.Common.{
  ℕ, zero, suc, ◌+◌, ◌*◌, ◌^◌, ◌≤◌, ◌<◌, ◌≡◌, ◌≢◌, ◌⊎◌, inl, inr, refl, ap, sym, subst, ◌∙◌, Bool,
  true, false, ◌||◌, Option, none, some, List, [], ◌∷◌, if◌then◌else◌, ◌==◌, ltb, ==-refl, ==→≡,
  Bool-cases, arith,
}
use vcaslib.Common.Arrays.{count}
use vcaslib.Rq.{Ptr, Addr, null, Mem}
use vcaslib.Descriptors.{unpack_seq}
use vcaslib.Bst.{Store, left_of, right_of, initialize_node}
use vcaslib.Bst.Llx.{scx}
use vcaslib.Bst.Update.{
  Family, when_linked, llx_parent, side_of, outcome, replace_leaf, split_leaf, try_insert,
  do_insert,
}
use vcaslib.Bst.Search.{Place, seek, ◌>>=◌}
use vcaslib.Bst.Tidy.{Tidy, seek-Arrives}
use vcaslib.Bst.Attach.{parent-fields, attach, Graft}
use vcaslib.Bst.Above.{Settled-mem, Tidy-reads, llx_parent-alone}
use vcaslib.Bst.Grow.{Grown, Grown-then, initialize-Grown}
use vcaslib.Bst.Insert.Grafts.{Fresh, Room, leaf-Graft, split-Graft, split_store, split-Grown}
use vcaslib.Bst.Insert.Trees.{split_tree, split_tree-top, get-leaf, get-split}
use vcaslib.Bst.Tree.{Tree, leaf, node, ptrs, top, At, height, get, Way, plug}
use vcaslib.Bst.Tree.Frame.{Way-leaf, Way-get, get-plug}
use vcaslib.Bst.Insert.Alone.{replace_leaf-alone, split_leaf-alone}

-- What an insertion returns: the value it finds, or NO_VALUE. `insertIfAbsent` returns its own
-- argument where the key is present.
abbrev pub returned : (no_value : ℕ) → (only_if_absent : Bool) → (val : ℕ) → Option ℕ → ℕ
returned no_value only_if_absent val none = no_value
returned no_value true val (some v) = val
returned no_value false val (some v) = v

-- What it leaves at the key.
abbrev pub stored : (only_if_absent : Bool) → (val : ℕ) → Option ℕ → ℕ
stored only_if_absent val none = val
stored true val (some v) = v
stored false val (some v) = val

module _ (no_key no_value : ℕ) (root : Ptr) (tid : ℕ) where
  try_insert-steps :
      (n : ℕ) (s s1 : Store) (place : Place) (n0 n1 : Ptr) (key val : ℕ) (only_if_absent : Bool)
      → seek root n s key ≡ some (s1, place)
      → try_insert no_key no_value root tid n s n0 n1 key val only_if_absent
        ≡ some (
            if key == s1.key place.leaf
            then (if only_if_absent
                then (s1, some val)
                else replace_leaf no_key no_value root tid s1 n0 place.parent place.leaf key val)
            else split_leaf no_key no_value root tid s1 n0 n1 place.parent place.leaf key val)
  unfolding try_insert
  try_insert-steps n s s1 place n0 n1 key val only_if_absent e =
      ap
        (λ z. z >>= (λ q. some (
          if key == q.0.key q.1.leaf
          then (if only_if_absent
              then (q.0, some val)
              else replace_leaf no_key no_value root tid q.0 n0 q.1.parent q.1.leaf key val)
          else split_leaf no_key no_value root tid q.0 n0 n1 q.1.parent q.1.leaf key val)))
        e

  do_insert-steps :
      (m n : ℕ) (s s1 : Store) (n0 n1 : Ptr) (key val r : ℕ) (only_if_absent : Bool)
      → try_insert no_key no_value root tid n s n0 n1 key val only_if_absent ≡ some (s1, some r)
      → do_insert no_key no_value root tid (suc m) n s n0 n1 key val only_if_absent ≡ some (s1, r)
  unfolding do_insert
  do_insert-steps m n s s1 n0 n1 key val r only_if_absent e = rw e refl

  -- What an insertion that ends in one attempt does to a tree.
  abbrev Inserts : Store → Tree → (key val : ℕ) → Bool → Option (Store × Option ℕ) → Type 0
  Inserts s u key val only_if_absent attempt =
      (s' : Store) × (u' : Tree) × (attempt
        ≡ some (s', some (returned no_value only_if_absent val (get no_key u key))))
      × Tidy no_key root s' u'
      × ((y : ℕ)
          → y ≢ no_key
          → get no_key u' y ≡ (
              if y == key
              then some (stored only_if_absent val (get no_key u key))
              else get no_key u y))

  try_insert-get :
      (n : ℕ) (s : Store) (u : Tree) (n0 n1 : Ptr) (key val : ℕ) (only_if_absent : Bool)
      → Tidy no_key root s u
      → Fresh n0 n1 root u
      → Room s tid
      → key ≢ no_key
      → height u < n
      → Inserts s u key val only_if_absent
          (try_insert no_key no_value root tid n s n0 n1 key val only_if_absent)
  try_insert-get n s u n0 n1 key val only_if_absent h fr room ne lt =
      let (m, b, place, c, v, e, fe, w) = seek-Arrives no_key root s n key u h lt in
      let s1 : Store = record s { mem = m } in
      let h1 : Tidy no_key root s1 u = Tidy-reads no_key root s m u h fe in
      let (_, at_l, il) = Way-leaf s.mem.field s.key s.value w h.shows in
      let step = try_insert-steps n s s1 place n0 n1 key val only_if_absent e in
      elim (Bool-cases (key == c)) [
        | inl d ↦
            let found : get no_key u key ≡ some v = Way-get w ∙ rw d refl in
            elim (Bool-cases only_if_absent) [
              | inl o ↦ (
                s1,
                u,
                step ∙ rw (at_l.2, d, o, found) refl,
                h1,
                λ y hy. elim (Bool-cases (y == key)) [
                  | inl z ↦
                      let z' : y ≡ key = ==→≡ y key z in
                      rw (z, o, found) (ap (get no_key u) z' ∙ found)
                  | inr z ↦ rw z refl
                ],
              )
              | inr o ↦
                  let (s3, r, t3) =
                    replace_leaf-alone no_value tid s1 n0 n1 val h1 w fr room ne
                      (sym (==→≡ key c d)) in
                  (
                    s3,
                    plug w (leaf n0 key val),
                    step ∙ rw (at_l.2, d, o, found) (ap some r),
                    t3,
                    λ y hy.
                        rw (o, found)
                          (get-plug (leaf n0 key val) (some val) y w
                            (get-leaf no_key n0 place.leaf key val v y c d)),
                  )
            ]
        | inr d ↦
            let found : get no_key u key ≡ none = Way-get w ∙ rw d refl in
            let (s3, r, t3) = split_leaf-alone no_value tid s1 n0 n1 val h1 w fr room ne d in
            let t' = split_tree no_key n0 n1 place.leaf key val c v in
            (
              s3,
              plug w t',
              step ∙ rw (at_l.2, d, found) (ap some r),
              t3,
              λ y hy. rw found (
                  get-plug t' (some val) y w
                    (get-split no_key n0 n1 place.leaf key val c v y ne hy d)),
            )
      ]

  -- On a memory that holds a search tree below `root`, with two fresh nodes, a descriptor of the
  -- thread's own whose sequence number does not wrap, and more fuel than the tree is high, `insert`
  -- and `insertIfAbsent` end at their first attempt. They return NO_VALUE where the key was absent;
  -- where it was present, `insert` returns the value that was there, `insertIfAbsent` its argument.
  -- The memory holds a search tree again, in which the key has the new value, but the old one if
  -- `insertIfAbsent` found it, and all other keys are as they were.
  pub insert-get :
      (m n : ℕ) (s : Store) (u : Tree) (n0 n1 : Ptr) (key val : ℕ) (only_if_absent : Bool)
      → Tidy no_key root s u
      → Fresh n0 n1 root u
      → Room s tid
      → key ≢ no_key
      → height u < n
      → (s' : Store) × (u' : Tree) × (do_insert no_key no_value root tid
            (suc m)
            n
            s
            n0
            n1
            key
            val
            only_if_absent
          ≡ some (s', returned no_value only_if_absent val (get no_key u key)))
        × Tidy no_key root s' u'
        × ((y : ℕ)
            → y ≢ no_key
            → get no_key u' y ≡ (
                if y == key
                then some (stored only_if_absent val (get no_key u key))
                else get no_key u y))
  insert-get m n s u n0 n1 key val only_if_absent h fr room ne lt =
      let (s', u', e, t, g) = try_insert-get n s u n0 n1 key val only_if_absent h fr room ne lt in
      (s', u', do_insert-steps m n s s' n0 n1 key val _ only_if_absent e, t, g)
