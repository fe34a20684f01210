-- ===== src/Bst/Erase/Alone.antt =====
-- The removal of a leaf from a tidy memory: its LLXs and its SCX succeed.
use vcaslib.Common.{
  ℕ, zero, suc, ◌≤◌, ◌<◌, ◌≡◌, ◌≢◌, ◌⊎◌, inl, inr, refl, ap, sym, subst, ◌∙◌, true, some, [], ◌∷◌,
  ◌==◌, ==-refl, ==→≡, Bool-cases, arith,
}
use vcaslib.Common.Arrays.{count, one_if, get_or}
use vcaslib.Rq.{Ptr, Addr, null}
use vcaslib.Descriptors.{leaf_tag}
use vcaslib.Bst.{Store, left_of, right_of}
use vcaslib.Bst.Llx.{llx, scx}
use vcaslib.Bst.Llx.Settled.{llx-alone, llx_value}
use vcaslib.Bst.Update.{remove_leaf}
use vcaslib.Bst.Tidy.{Tidy}
use vcaslib.Bst.Attach.{parent-fields, attach-nodes}
use vcaslib.Bst.Above.{Tidy-reads, llx_parent-alone}
use vcaslib.Bst.Grow.{initialize-Grown}
use vcaslib.Bst.Insert.Grafts.{Room}
use vcaslib.Bst.Erase.Forks.{Fork, Fork-top, Fork-count, Fork-fields}
use vcaslib.Bst.Erase.Copies.{count-rest, count-copied, copied-top, copy_store, copied-Graft}
use vcaslib.Bst.Tree.{Tree, ptrs, top, At, Way, plug, copied}
use vcaslib.Bst.Tree.Frame.{Way-end, count-end, count-plug}
use vcaslib.Bst.Erase.Steps.{family-value, remove_leaf-steps, scx-same, sibling_of}

module _ {no_key x : ℕ} {root : Ptr} {b b' : Addr} {gpp gp p m : Ptr} {c v : ℕ} {u e t : Tree}
    (no_value tid : ℕ) (s : Store) (n0 : Ptr) where
  -- The nodes that the removal takes out.
  taken :
      Tidy no_key root s u
      → (w : Way no_key x (left_of root) root root u b gpp gp e) → Fork no_key x p m c v t e b'
      → count n0 (root ∷ ptrs u) ≡ 0
      → (y : Ptr) → 0 < count y (root ∷ ptrs (plug w (copied n0 t)))
      → (j : ℕ) → 1 ≤ j
      → j < 3
      → y ≢ get_or (gp ∷ p ∷ top t ∷ m ∷ []) j 0
  taken h w fork new y i j a l eq = elim (Bool-cases (j == 1)) [
    | inl z ↦
        let yp : y ≡ p = eq ∙ (let j1 : j ≡ 1 = ==→≡ j 1 z in rw j1 refl) in
        omega (
          arith,
          i,
          count-plug (copied n0 t) y w,
          h.distinct y,
          count-copied y n0 t,
          count-rest y t,
          Fork-count y fork,
          count-end y w,
          one yp,
          fresh yp (omega (arith, Fork-count p fork, count-end p w, self p)),
        )
    | inr z ↦
        let yt : y ≡ top t = eq ∙ (let j2 : j ≡ 2 = ground arith in rw j2 refl) in
        omega (
          arith,
          i,
          count-plug (copied n0 t) y w,
          h.distinct y,
          count-copied y n0 t,
          count-rest y t,
          Fork-count y fork,
          count-end y w,
          one yt,
          fresh yt (
              omega (
                arith,
                Fork-count (top t) fork,
                count-end (top t) w,
                count-rest (top t) t,
                self (top t),
              )),
        )
  ]
    where
      self : (q : Ptr) → one_if (q == q) ≡ 1
      self q = rw (==-refl q) refl

      one : {q : Ptr} → y ≡ q → one_if (y == q) ≡ 1
      one {q} z = rw z (self q)

      fresh : {q : Ptr} → y ≡ q → 0 < count q (ptrs u) → one_if (y == n0) ≡ 0
      fresh {q} z k = elim (Bool-cases (y == n0)) [
        | inl d ↦ absurd (omega (arith, k, new, ap (λ r. count r (ptrs u)) (sym z ∙ ==→≡ y n0 d)))
        | inr d ↦ rw d refl
      ]

  pub remove_leaf-alone :
      Tidy no_key root s u
      → (w : Way no_key x (left_of root) root root u b gpp gp e) → Fork no_key x p m c v t e b'
      → n0 ≢ null
      → count n0 (root ∷ ptrs u) ≡ 0
      → Room s tid
      → c ≢ no_key
      → (s5 : Store) × (remove_leaf no_key no_value root tid s n0 gp p m ≡ (s5, some (s.value m)))
        × Tidy no_key root s5 (plug w (copied n0 t))
  remove_leaf-alone h w fork nz new room ne =
      let (i, j, d, side, at_b) = parent-fields s s h w in
      let in_p : 0 < count p (root ∷ ptrs u) =
        omega (arith, Fork-count p fork, count-end p w, ap one_if (==-refl p)) in
      let in_t : 0 < count (top t) (root ∷ ptrs u) = omega (
        arith,
        Fork-count (top t) fork,
        count-end (top t) w,
        count-rest (top t) t,
        ap one_if (==-refl (top t)),
      ) in
      let (m1, g, r1, f1, seen1, _, _, so1) =
        llx_parent-alone s gp p b (h.settled gp j) i side (at_b ∙ Fork-top fork) in
      let s1 : Store = record s { mem = m1 } in
      let h1 : Tidy no_key root s1 u = Tidy-reads no_key root s m1 u h f1 in
      let (i1, side1, at_m, sib1, at_t) =
        Fork-fields s1.mem.field s.key s.value (s1.mem.field b) fork
          (Way-end s1.mem.field s.key s.value w h1.shows)
          (λ y. omega (arith, count-end y w, h.distinct y)) in
      let (m2, f, r2, f2, seen2, left2, right2, so2) =
        llx_parent-alone s1 p m b' (h1.settled p in_p) i1 side1 at_m in
      let s2 : Store = record s { mem = m2 } in
      let h2 : Tidy no_key root s2 u = Tidy-reads no_key root s1 m2 u h1 f2 in
      let sib : sibling_of f m ≡ top t = rw (left2, right2) sib1 in
      let (m3, f3, r3) = llx-alone s2 (top t) (h2.settled (top t) in_t) in
      let s3 : Store = record s { mem = m3 } in
      let h3 : Tidy no_key root s3 u = Tidy-reads no_key root s2 m3 u h2 f3 in
      let (below, r4, left4, right4, seen4) = family-value s2 (top t) in
      let at_t3 : At s3.mem.field s3.key s3.value (top t) t =
        subst (λ q. At q s.key s.value (top t) t) (sym (f3 ∙ f2)) at_t in
      let (s5, r5, t5) =
        attach-nodes s3 (copy_store s3 n0 (top t)) tid (gp ∷ p ∷ top t ∷ m ∷ [])
          (s.scx_record gp ∷ s.scx_record p ∷ below.seen ∷ []) 3 (copied n0 t) h3 w
          (initialize-Grown s3 n0 (s.key (top t)) (s.value (top t)) _ _ (root ∷ ptrs u) new)
          (copied-Graft s3 n0 h3 w fork at_t3 nz new ne) room.0 room.1 (omega arith)
          (λ j' l'. fits j' l' below.seen j in_p in_t seen4) (sym (Fork-top fork))
          (taken h w fork new) in
      let left3 : below.left ≡ s3.mem.field (left_of (top t)) =
        left4 ∙ ap (λ q. q (left_of (top t))) (sym f3) in
      let right3 : below.right ≡ s3.mem.field (right_of (top t)) =
        right4 ∙ ap (λ q. q (right_of (top t))) (sym f3) in
      let r6 : scx (copy_store s3 n0 (top t)) tid (gp ∷ p ∷ top t ∷ m ∷ [])
            (s.scx_record gp ∷ s.scx_record p ∷ below.seen ∷ []) 3 b n0
          ≡ (s5, true) =
        subst
          (λ q.
            scx (copy_store s3 n0 (top t)) tid (gp ∷ p ∷ top t ∷ m ∷ [])
              (s.scx_record gp ∷ s.scx_record p ∷ below.seen ∷ []) 3 b q
            ≡ (s5, true))
          (copied-top n0 t) r5 in
      (
        s5,
        remove_leaf-steps no_key no_value root tid s s1 s2 s3 s5 g f below (llx_value s2 (top t)) n0
            gp p m r1 r2 (subst (λ q. llx s2 q ≡ (s3, llx_value s2 (top t))) (sym sib) r3) r4
            (scx-same s3 s5 tid n0 gp p m below.seen sib left3 right3 seen1 seen2 so1 r6),
        t5,
      )
    where
      fits :
          (j' : ℕ)
          → j' < 3
          → (q : ℕ) → 0 < count gp (root ∷ ptrs u)
          → 0 < count p (root ∷ ptrs u)
          → 0 < count (top t) (root ∷ ptrs u)
          → (q ≡ leaf_tag) ⊎ (q ≡ s.scx_record (top t))
          → (get_or (s.scx_record gp ∷ s.scx_record p ∷ q ∷ []) j' 0 ≡ leaf_tag)
            ⊎ ((0 < count (get_or (gp ∷ p ∷ top t ∷ m ∷ []) j' 0) (root ∷ ptrs u))
                × (s.scx_record (get_or (gp ∷ p ∷ top t ∷ m ∷ []) j' 0)
                    ≡ get_or (s.scx_record gp ∷ s.scx_record p ∷ q ∷ []) j' 0))
      fits zero l q a b c d = inr (a, refl)
      fits (suc zero) l q a b c d = inr (b, refl)
      fits (suc (suc zero)) l q a b c (inl d) = inl d
      fits (suc (suc zero)) l q a b c (inr d) = inr (c, sym d)
      fits (suc (suc (suc j'))) l q a b c d = absurd (omega (arith, l))
