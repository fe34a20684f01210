-- ===== src/Bst/Insert/Alone.antt =====
-- The two ways in which an insertion changes a tidy memory: its LLX and its SCX succeed.
use vcaslib.Common.{ℕ, ◌<◌, ◌≡◌, ◌≢◌, ap, sym, subst, ◌∙◌, true, false, some, [], ◌∷◌, ◌==◌, arith}
use vcaslib.Common.Arrays.{count}
use vcaslib.Rq.{Ptr, Addr, null}
use vcaslib.Bst.{Store, left_of, initialize_node}
use vcaslib.Bst.Llx.{scx}
use vcaslib.Bst.Update.{Family, when_linked, llx_parent, side_of, outcome, replace_leaf, split_leaf}
use vcaslib.Bst.Tidy.{Tidy}
use vcaslib.Bst.Attach.{parent-fields, attach}
use vcaslib.Bst.Above.{Tidy-reads, llx_parent-alone}
use vcaslib.Bst.Grow.{initialize-Grown}
use vcaslib.Bst.Insert.Grafts.{Fresh, Room, leaf-Graft, split-Graft, split_store, split-Grown}
use vcaslib.Bst.Insert.Trees.{split_tree, split_tree-top}
use vcaslib.Bst.Tree.{Tree, leaf, ptrs, At, Way, plug}
use vcaslib.Bst.Tree.Frame.{Way-leaf}

-- An attempt whose LLX and SCX succeed.
module _ (no_key no_value : ℕ) (root : Ptr) (tid : ℕ) where
  replace_leaf-steps :
      (s s1 s3 : Store) (f : Family) (n0 p l : Ptr) (key val : ℕ)
      → llx_parent s p l ≡ (s1, some f)
      → scx
          (initialize_node s1 n0 key val null null)
          tid
          (p ∷ l ∷ [])
          (f.seen ∷ [])
          1
          (side_of f p l)
          n0
        ≡ (s3, true)
      → replace_leaf no_key no_value root tid s n0 p l key val ≡ (s3, some (s1.value l))
  unfolding replace_leaf
  replace_leaf-steps s s1 s3 f n0 p l key val e e' =
      ap
        (λ z. when_linked z (λ s2 g.
          outcome
            (scx (initialize_node s2 n0 key val null null) tid (p ∷ l ∷ []) (g.seen ∷ []) 1
              (side_of g p l) n0)
            (s2.value l)))
        e
      ∙ ap (λ z. outcome z (s1.value l)) e'

  split_leaf-steps :
      (s s1 s3 : Store) (f : Family) (n0 n1 p l : Ptr) (key val : ℕ)
      → llx_parent s p l ≡ (s1, some f)
      → let s2 = initialize_node s1 n0 key val null null in
        scx
            (split_store no_key s1 n0 n1 l key val (s2.key l) (s2.value l))
            tid
            (p ∷ l ∷ [])
            (f.seen ∷ [])
            1
            (side_of f p l)
            n1
          ≡ (s3, true)
        → split_leaf no_key no_value root tid s n0 n1 p l key val ≡ (s3, some no_value)
  unfolding split_leaf
  split_leaf-steps s s1 s3 f n0 n1 p l key val e e' =
      ap
        (λ z. when_linked z (λ s0 g.
          let s2 = initialize_node s0 n0 key val null null in
          outcome
            (scx (split_store no_key s0 n0 n1 l key val (s2.key l) (s2.value l)) tid (p ∷ l ∷ [])
              (g.seen ∷ []) 1 (side_of g p l) n1)
            no_value))
        e
      ∙ ap (λ z. outcome z no_value) e'

module _ {no_key : ℕ} {root : Ptr} {u : Tree} {x : ℕ} {b : Addr} {gp p l : Ptr} {c v : ℕ}
    (no_value tid : ℕ) (s : Store) (n0 n1 : Ptr) (val : ℕ) where
  pub replace_leaf-alone :
      Tidy no_key root s u
      → (w : Way no_key x (left_of root) root root u b gp p (leaf l c v)) → Fresh n0 n1 root u
      → Room s tid
      → x ≢ no_key
      → c ≡ x
      → (s3 : Store) × (replace_leaf no_key no_value root tid s n0 p l x val ≡ (s3, some v))
        × Tidy no_key root s3 (plug w (leaf n0 x val))
  replace_leaf-alone h w fr room ne e =
      let (i, j, d, side, at_b) = parent-fields s s h w in
      let (_, at_l, il) = Way-leaf s.mem.field s.key s.value w h.shows in
      let (m, f, r, fe, seen, _, _, so) = llx_parent-alone s p l b (h.settled p j) i side at_b in
      let s1 : Store = record s { mem = m } in
      let h1 = Tidy-reads no_key root s m u h fe in
      let (s3, r3, t3) =
        attach s1 (initialize_node s1 n0 x val null null) tid (leaf n0 x val) h1 w
          (initialize-Grown s1 n0 x val null null (root ∷ ptrs u) fr.new0)
          (leaf-Graft no_key root s1 u n0 n1 x val l c v h1 fr il ne e) room.0 room.1 in
      (
        s3,
        replace_leaf-steps no_key no_value root tid s s1 s3 f n0 p l x val r (rw (so, seen) r3)
            ∙ ap (λ z. (s3, some z)) at_l.3,
        t3,
      )

  pub split_leaf-alone :
      Tidy no_key root s u
      → (w : Way no_key x (left_of root) root root u b gp p (leaf l c v)) → Fresh n0 n1 root u
      → Room s tid
      → x ≢ no_key
      → (x == c) ≡ false
      → (s3 : Store) × (split_leaf no_key no_value root tid s n0 n1 p l x val ≡ (s3, some no_value))
        × Tidy no_key root s3 (plug w (split_tree no_key n0 n1 l x val c v))
  split_leaf-alone h w fr room ne e =
      let (i, j, d, side, at_b) = parent-fields s s h w in
      let (_, at_l, il) = Way-leaf s.mem.field s.key s.value w h.shows in
      let (m, f, r, fe, seen, _, _, so) = llx_parent-alone s p l b (h.settled p j) i side at_b in
      let s1 : Store = record s { mem = m } in
      let h1 = Tidy-reads no_key root s m u h fe in
      let at_l1 : At s1.mem.field s1.key s1.value l (leaf l c v) =
        subst (λ f. At f s.key s.value l (leaf l c v)) (sym fe) at_l in
      let (s3, r3, t3) =
        attach s1 (split_store no_key s1 n0 n1 l x val c v) tid
          (split_tree no_key n0 n1 l x val c v) h1 w
          (split-Grown no_key root s1 u n0 n1 x val l c v fr)
          (split-Graft no_key root s1 u n0 n1 x val l c v h1 fr il at_l1 ne e) room.0 room.1 in
      let g = initialize-Grown s1 n0 x val null null (root ∷ ptrs u) fr.new0 in
      let o : 0 < count l (root ∷ ptrs u) = omega (arith, il) in
      let kc : (initialize_node s1 n0 x val null null).key l ≡ c = (g.items l o).0 ∙ at_l.2 in
      let vc : (initialize_node s1 n0 x val null null).value l ≡ v = (g.items l o).1 ∙ at_l.3 in
      (
        s3,
        split_leaf-steps no_key no_value root tid s s1 s3 f n0 n1 p l x val r (
            rw (so, seen)
              (subst
                (λ k.
                  scx
                    (split_store no_key s1 n0 n1 l x val k
                      ((initialize_node s1 n0 x val null null).value l))
                    tid (p ∷ l ∷ []) (s.scx_record p ∷ []) 1 b n1
                  ≡ (s3, true))
                (sym kc)
                (subst
                  (λ k.
                    scx (split_store no_key s1 n0 n1 l x val c k) tid (p ∷ l ∷ [])
                      (s.scx_record p ∷ []) 1 b n1
                    ≡ (s3, true))
                  (sym vc)
                  (subst
                    (λ z.
                      scx (split_store no_key s1 n0 n1 l x val c v) tid (p ∷ l ∷ [])
                        (s.scx_record p ∷ []) 1 b z
                      ≡ (s3, true))
                    (split_tree-top no_key n0 n1 l x val c v) r3)))),
        t3,
      )
