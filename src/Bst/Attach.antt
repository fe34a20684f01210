-- ===== src/Bst/Attach.antt =====
-- The SCX that puts a new subtree at the end of a search path.
use vcaslib.Common.{
  ℕ, ◌+◌, ◌^◌, ◌≤◌, ◌<◌, ◌≡◌, ◌≢◌, ◌⊎◌, inl, inr, refl, ap, sym, subst, ◌∙◌, true, false, List, [],
  ◌∷◌, has, ◌==◌, ltb, ==-refl, Bool-cases, arith,
}
use vcaslib.Common.Arrays.{count, get_or}
use vcaslib.Rq.{Ptr, Addr, null}
use vcaslib.Descriptors.{unpack_seq, leaf_tag}
use vcaslib.Bst.{Store, left_of, right_of}
use vcaslib.Bst.Llx.{scx}
use vcaslib.Bst.Llx.Alone.{scx-commits, Committed}
use vcaslib.Bst.Llx.Settled.{Settled}
use vcaslib.Bst.Grow.{Grown}
use vcaslib.Bst.Search.Laws.{Proper}
use vcaslib.Bst.Tidy.{Tidy, Rooted}
use vcaslib.Bst.Tree.{
  Tree, ptrs, top, At, goes_left, keys, Ordered, Way, stop, turn_left, turn_right, plug,
}
use vcaslib.Bst.Tree.Frame.{At-top, At-null, At-frame, Way-apart, Way-end, owner, count-plug}
use vcaslib.Bst.Tree.Plug.{plug-At}
use vcaslib.Bst.Tree.Order.{Side, Way-Side, plug-Ordered}
use vcaslib.Bst.Above.{Way-parent}

-- The tree below `root` stays well-formed when the end of a path gives way to a tree that is.
pub plug-Proper :
    {no_key x : ℕ} {a b : Addr} {gp p gp' p' : Ptr} {t e : Tree} (t' : Tree)
    → (w : Way no_key x a gp p t b gp' p' e) → Proper no_key t
    → (Proper no_key e → Proper no_key t')
    → Proper no_key (plug w t')
unfolding plug
plug-Proper t' stop h k = k h
plug-Proper t' (turn_left g w) h k = (h.0, plug-Proper t' w h.1 k, h.2)
plug-Proper t' (turn_right g w) h k = (h.0, h.1, plug-Proper t' w h.2 k)

pub plug-Rooted :
    {no_key x : ℕ} {a b : Addr} {gp p gp' p' : Ptr} {u e : Tree} (t' : Tree)
    → (w : Way no_key x a gp p u b gp' p' e) → Rooted no_key u
    → (Proper no_key e → Proper no_key t')
    → (Rooted no_key e → Rooted no_key t')
    → Rooted no_key (plug w t')
unfolding plug
plug-Rooted t' stop h k k' = k' h
plug-Rooted t' (turn_left g w) h k k' = (h.0, plug-Proper t' w h.1 k, h.2)
plug-Rooted {no_key = no_key} {x = x} t' (turn_right {k = k} g w) h q q' =
    absurd (above x k no_key h.0 g)
  where
    above : (x k no_key : ℕ) → k ≡ no_key → goes_left no_key x k ≡ false → ⊥
    above x k no_key e g = ground arith

-- A tree that may come to the end of a search path, for the tree `e`: `fresh` says that its nodes are
-- new or from `e`.
pub record Graft (no_key x : ℕ) (root : Ptr) (s2 : Store) (u e t' : Tree) : Type 0 where
  pub shows : At s2.mem.field s2.key s2.value (top t') t'
  pub fresh : (y : Ptr) → count y (root ∷ ptrs u) + count y (ptrs t') ≤ count y (ptrs e) + 1
  pub another : top t' ≢ top e
  pub settled : (y : Ptr) → 0 < count y (ptrs t') → Settled s2 y
  pub same_keys : (y : ℕ) → has y (keys no_key t') ≡ true → (y ≡ x) ⊎ (has y (keys no_key e) ≡ true)
  pub ordered : Ordered no_key t'
  pub proper : Proper no_key e → Proper no_key t'
  pub rooted : Rooted no_key e → Rooted no_key t'

owner_of : (f : Addr → Ptr) (b : Addr) (p : Ptr) → Side f b p → owner b ≡ p
owner_of f b p (inl e) = omega (arith, e)
owner_of f b p (inr (e, d)) = omega (arith, e)

module _ {no_key x : ℕ} {root : Ptr} {b : Addr} {gp p : Ptr} {u e : Tree} (s s2 : Store) where
  -- The parent at the end of a path from the root: it is a node of the tree above the end.
  pub parent-fields :
      Tidy no_key root s u
      → (w : Way no_key x (left_of root) root root u b gp p e)
      → (s.mem.field (left_of p) ≢ null)
        × (0 < count p (root ∷ ptrs u))
        × (count p (ptrs e) ≡ 0)
        × Side s.mem.field b p
        × (s.mem.field b ≡ top e)
  parent-fields h w =
      let (i, j) =
        Way-parent s.mem.field s.key s.value w h.shows
          (At-null s.mem.field s.key s.value _ u h.shows) in
      let o : owner (left_of root) ≡ root = omega arith in
      let side =
        Way-Side s.mem.field s.key s.value w h.shows (λ y. omega (arith, h.distinct y))
          (inl refl) in
      let apart : count (owner b) (ptrs e) ≡ 0 =
        Way-apart w (λ y. subst (λ z. count y (z ∷ ptrs u) ≤ 1) (sym o) (h.distinct y)) in
      (
        i,
        elim j [ inl z ↦ rw (z, ==-refl root) (omega arith) | inr z ↦ omega (arith, z) ],
        subst (λ z. count z (ptrs e) ≡ 0) (owner_of s.mem.field b p side) apart,
        side,
        At-top s.mem.field s.key s.value (s.mem.field b) e
            (Way-end s.mem.field s.key s.value w h.shows),
      )

  -- The memory after the SCX.
  attached :
      (tid : ℕ) (nodes : List Ptr) (n : ℕ) (t' : Tree) (s3 : Store)
      → Tidy no_key root s u
      → (w : Way no_key x (left_of root) root root u b gp p e) → Grown s s2 (root ∷ ptrs u)
      → Graft no_key x root s2 u e t'
      → tid < 1022
      → ((y : Ptr)
          → 0 < count y (root ∷ ptrs (plug w t'))
          → (j : ℕ) → 1 ≤ j
          → j < n
          → y ≢ get_or nodes j 0)
      → Committed s2 s3 tid nodes n b (top t')
      → Tidy no_key root s3 (plug w t')
  attached tid nodes n t' s3 h w grown graft lt spared k =
      let (i, j, ne, side, _) = parent-fields h w in
      let ob = owner_of s.mem.field b p side in
      let o : owner (left_of root) ≡ root = omega arith in
      let in_s : (d : Addr) → d ≢ b → s3.mem.field d ≡ s2.mem.field d = λ d z.
        ap (λ f. f d) k.linked_in ∙ (let z' : (b == d) ≡ false = ground (arith, z) in rw z' refl) in
      let here : s3.mem.field b ≡ top t' = ap (λ f. f b) k.linked_in ∙ rw (==-refl b) refl in
      let apart : (y : Ptr) (d : Addr) → 0 < count y (ptrs t') → owner d ≡ y → d ≢ b =
        λ y d q z z'. not_in y d q z z' ob j ne (graft.fresh p) in
      record {
        shows =
            plug-At s.mem.field s3.mem.field s.key s3.key s.value s3.value t' w
              (λ d q z.
                in_s d z ∙ grown.fields d (subst (λ y. 0 < count (owner d) (y ∷ ptrs u)) o q))
              (λ y q.
                let g = grown.items y (omega (arith, q)) in
                (ap (λ f. f y) k.same_key ∙ g.0, ap (λ f. f y) k.same_value ∙ g.1))
              (λ y. subst (λ z. count y (z ∷ ptrs u) ≤ 1) (sym o) (h.distinct y)) h.shows
              (subst (λ q. At s3.mem.field s3.key s3.value q t') (sym here)
                (At-frame s2.mem.field s3.mem.field s2.key s3.key s2.value s3.value (top t') t'
                  (λ y q. (
                    in_s (left_of y) (apart y (left_of y) q (omega arith)),
                    in_s (right_of y) (apart y (right_of y) q (omega arith)),
                    ap (λ f. f y) k.same_key,
                    ap (λ f. f y) k.same_value,
                  ))
                  graft.shows));
        rooted = plug-Rooted t' w h.rooted graft.proper graft.rooted;
        ordered = plug-Ordered t' w graft.same_keys h.ordered graft.ordered;
        distinct = λ y. omega (arith, count-plug t' y w, graft.fresh y, h.distinct y);
        settled = λ y q.
            k.settles y
              (elim (in_either y q) [
                | inl z ↦ grown.settled y z (h.settled y z)
                | inr z ↦ graft.settled y z
              ])
              (spared y q);
        root_node = h.root_node;
        dummy =
            ap (λ z. z.mutables) (k.others 1022 (omega (arith, lt)))
            ∙ ap (λ q. (q 1022).mutables) grown.records
            ∙ h.dummy;
      }
    where
      not_in :
          (y : Ptr) (d : Addr)
          → 0 < count y (ptrs t')
          → owner d ≡ y
          → d ≡ b
          → owner b ≡ p
          → 0 < count p (root ∷ ptrs u)
          → count p (ptrs e) ≡ 0
          → count p (root ∷ ptrs u) + count p (ptrs t') ≤ count p (ptrs e) + 1
          → ⊥
      not_in y d q z z' ob j ne fr =
          let yp : y ≡ p = sym z ∙ ap owner z' ∙ ob in
          omega (arith, fr, ne, ap (λ m. count m (ptrs t')) yp)

      in_either :
          (y : Ptr)
          → 0 < count y (root ∷ ptrs (plug w t'))
          → (0 < count y (root ∷ ptrs u)) ⊎ (0 < count y (ptrs t'))
      in_either y q = elim (Bool-cases (ltb 0 (count y (ptrs t')))) [
        | inl z ↦ inr (ground arith)
        | inr z ↦
            inl
              (let z' : count y (ptrs t') ≡ 0 = ground arith in omega (arith, count-plug t' y w, q))
      ]

  -- SCX puts the tree to the end of the path.
  pub attach-nodes :
      (tid : ℕ) (nodes : List Ptr) (seen : List ℕ) (n : ℕ) (t' : Tree)
      → Tidy no_key root s u
      → (w : Way no_key x (left_of root) root root u b gp p e) → Grown s s2 (root ∷ ptrs u)
      → Graft no_key x root s2 u e t'
      → tid < 1022
      → unpack_seq (s.records tid).mutables + 2 < 2 ^ 48
      → 1 ≤ n
      → ((j : ℕ)
          → j < n
          → (get_or seen j 0 ≡ leaf_tag)
            ⊎ ((0 < count (get_or nodes j 0) (root ∷ ptrs u))
                × (s.scx_record (get_or nodes j 0) ≡ get_or seen j 0)))
      → get_or nodes 1 0 ≡ top e
      → ((y : Ptr)
          → 0 < count y (root ∷ ptrs (plug w t'))
          → (j : ℕ) → 1 ≤ j
          → j < n
          → y ≢ get_or nodes j 0)
      → (s3 : Store) × (scx s2 tid nodes seen n b (top t') ≡ (s3, true))
        × Tidy no_key root s3 (plug w t')
  attach-nodes tid nodes seen n t' h w grown graft lt room pos fit old spared =
      let (i, j, ne, side, eb) = parent-fields h w in
      let ob = owner_of s.mem.field b p side in
      let at_b : s2.mem.field b ≡ get_or nodes 1 0 =
        grown.fields b (subst (λ z. 0 < count z (root ∷ ptrs u)) (sym ob) j) ∙ eb ∙ sym old in
      let another : top t' ≢ get_or nodes 1 0 = λ z. graft.another (z ∙ old) in
      let (s3, r, k, _) =
        scx-commits s2 tid nodes seen n b (top t') (omega (arith, lt))
          (omega (arith, room, ap (λ q. unpack_seq (q tid).mutables) grown.records)) pos
          (λ j' u'. elim (fit j' u') [
            | inl z ↦ inl z
            | inr z ↦ inr (grown.scx_records (get_or nodes j' 0) z.0 ∙ z.1)
          ])
          at_b another in
      (s3, r, attached tid nodes n t' s3 h w grown graft lt spared k)

  pub attach :
      (tid : ℕ) (t' : Tree)
      → Tidy no_key root s u
      → (w : Way no_key x (left_of root) root root u b gp p e) → Grown s s2 (root ∷ ptrs u)
      → Graft no_key x root s2 u e t'
      → tid < 1022
      → unpack_seq (s.records tid).mutables + 2 < 2 ^ 48
      → (s3 : Store) × (scx s2 tid (p ∷ top e ∷ []) (s.scx_record p ∷ []) 1 b (top t') ≡ (s3, true))
        × Tidy no_key root s3 (plug w t')
  attach tid t' h w grown graft lt room =
      attach-nodes tid (p ∷ top e ∷ []) (s.scx_record p ∷ []) 1 t' h w grown graft lt room
        (omega arith)
        (λ j' u'. inr (
          let z : j' ≡ 0 = omega (arith, u') in
          subst
            (λ i.
              (0 < count (get_or (p ∷ top e ∷ []) i 0) (root ∷ ptrs u))
              × (s.scx_record (get_or (p ∷ top e ∷ []) i 0) ≡ get_or (s.scx_record p ∷ []) i 0))
            (sym z) ((parent-fields h w).1, refl)))
        refl (λ y q j' a a'. absurd (omega (arith, a, a')))
