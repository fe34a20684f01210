-- ===== src/Bst/Above.antt =====
-- The node above the end of a search path, and LLX of it.
use vcaslib.Common.{
  ℕ, ◌<◌, ◌≡◌, ◌≢◌, ◌⊎◌, inl, inr, refl, ap, sym, subst, ◌∙◌, true, false, some, ◌==◌, ==-refl,
  arith,
}
use vcaslib.Common.Arrays.{count, count-append}
use vcaslib.Rq.{Ptr, Addr, null, Mem}
use vcaslib.Bst.{Store, left_of, right_of}
use vcaslib.Bst.Llx.Settled.{Settled, llx-alone, llx_value}
use vcaslib.Bst.Update.{Family, llx_parent, side_of}
use vcaslib.Bst.Tidy.{Tidy}
use vcaslib.Bst.Tree.{Tree, ptrs, At, Way, stop, turn_left, turn_right}
use vcaslib.Bst.Tree.Frame.{At-null}
use vcaslib.Bst.Tree.Order.{Side}

pub Settled-mem : (s : Store) (m : Mem) (y : Ptr) → Settled s y → Settled (record s { mem = m }) y
Settled-mem s m y h = record { unmarked = h.unmarked; past = h.past; done = h.done }

pub Tidy-reads :
    (no_key : ℕ) (root : Ptr) (s : Store) (m : Mem) (u : Tree)
    → Tidy no_key root s u
    → m.field ≡ s.mem.field
    → Tidy no_key root (record s { mem = m }) u
Tidy-reads no_key root s m u h e = record {
  shows = subst (λ f. At f s.key s.value (f (left_of root)) u) (sym e) h.shows;
  rooted = h.rooted;
  ordered = h.ordered;
  distinct = h.distinct;
  settled = λ y i. Settled-mem s m y (h.settled y i);
  root_node = h.root_node;
  dummy = h.dummy;
}

-- The last inner node of a path has children, and is in the tree or was there before.
pub Way-parent :
    {no_key x : ℕ} {a b : Addr} {gp p gp' p' : Ptr} {t e : Tree} (f : Addr → Ptr)
    (key value : Ptr → ℕ)
    → Way no_key x a gp p t b gp' p' e
    → At f key value (f a) t
    → f (left_of p) ≢ null
    → (f (left_of p') ≢ null) × ((p' ≡ p) ⊎ (0 < count p' (ptrs t)))
Way-parent f key value stop h ne = (ne, inl refl)
Way-parent {p' = p'} f key value (turn_left {q = q} {l = l} {r = r} g w) h ne =
    let (i, j) = Way-parent f key value w h.3 (At-null f key value _ l h.3) in
    (
      i,
      elim j [
        | inl e ↦ inr (rw (e, ==-refl q) (omega arith))
        | inr k ↦ inr (omega (arith, k, count-append p' (ptrs l) (ptrs r)))
      ],
    )
Way-parent {p' = p'} f key value (turn_right {q = q} {l = l} {r = r} g w) h ne =
    let (i, j) = Way-parent f key value w h.4 (At-null f key value _ l h.3) in
    (
      i,
      elim j [
        | inl e ↦ inr (rw (e, ==-refl q) (omega arith))
        | inr k ↦ inr (omega (arith, k, count-append p' (ptrs l) (ptrs r)))
      ],
    )

-- An LLX of a settled node with children, one of which is at the address `b`.
pub llx_parent-alone :
    (s : Store) (p l : Ptr) (b : Addr)
    → Settled s p
    → s.mem.field (left_of p) ≢ null
    → Side s.mem.field b p
    → s.mem.field b ≡ l
    → (m : Mem) × (f : Family) × (llx_parent s p l ≡ (record s { mem = m }, some f))
      × (m.field ≡ s.mem.field)
      × (f.seen ≡ s.scx_record p)
      × (f.left ≡ s.mem.field (left_of p))
      × (f.right ≡ s.mem.field (right_of p))
      × (side_of f p l ≡ b)
unfolding llx_parent llx_value
llx_parent-alone s p l b h ne side e =
    let (m, fe, r) = llx-alone s p h in
    let more : (s.mem.field (left_of p) == 0) ≡ false = ground arith in
    let left = s.mem.field (left_of p) in
    let right = s.mem.field (right_of p) in
    let f : Family = record { seen = s.scx_record p; left = left; right = right } in
    elim side [
      | inl z ↦
          let c : (l == left) ≡ true = ground (arith, sym e ∙ ap s.mem.field z) in
          (m, f, rw (r, more, c) refl, fe, refl, refl, refl, rw c (sym z))
      | inr (z, d) ↦
          let k : l ≡ right = sym e ∙ ap s.mem.field z in
          let cl : l ≢ left = λ w. d (sym w ∙ sym e) in
          let c : (l == left) ≡ false = ground (arith, cl) in
          let c' : (l == right) ≡ true = ground (arith, k) in
          (m, f, rw (r, more, c, c') refl, fe, refl, refl, refl, rw c (sym z))
    ]
