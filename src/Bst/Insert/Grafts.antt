-- ===== src/Bst/Insert/Grafts.antt =====
-- The two trees that an insertion may put to the end of its path.
use vcaslib.Common.{
  ℕ, ◌+◌, ◌*◌, ◌/◌, ◌^◌, ◌<◌, ◌≡◌, ◌≢◌, ◌⊎◌, inl, inr, refl, ap, sym, subst, ◌∙◌, true, false, ◌||◌,
  [], ◌∷◌, has, if◌then◌else◌, ◌==◌, ltb, ==-refl, ==→≡, Bool-cases, arith,
}
use vcaslib.Common.Arrays.{count}
use vcaslib.Rq.{Ptr, null}
use vcaslib.Descriptors.{unpack_seq, mutables_dummy}
use vcaslib.Bst.{Store, left_of, right_of, initialize_node}
use vcaslib.Bst.Llx.Settled.{Settled}
use vcaslib.Bst.Tidy.{Tidy}
use vcaslib.Bst.Attach.{Graft}
use vcaslib.Bst.Grow.{Grown, Grown-then, initialize-Grown, initialize-new}
use vcaslib.Bst.Tree.{Tree, leaf, node, ptrs, At, keys}
use vcaslib.Bst.Tree.Frame.{At-frame}
use vcaslib.Bst.Insert.Trees.{both_new, count_new, split_tree}

-- The two nodes that a thread has prepared.
pub record Fresh (n0 n1 : Ptr) (root : Ptr) (u : Tree) : Type 0 where
  pub not_null0 : n0 ≢ null
  pub not_null1 : n1 ≢ null
  pub differ : n0 ≢ n1
  pub new0 : count n0 (root ∷ ptrs u) ≡ 0
  pub new1 : count n1 (root ∷ ptrs u) ≡ 0

-- The thread has a descriptor of its own, whose sequence number can grow.
abbrev pub Room : Store → ℕ → Type 0
Room s tid = (tid < 1022) × (unpack_seq (s.records tid).mutables + 2 < 2 ^ 48)

-- The memory with the new leaf and the new node, as `split_leaf` prepares them.
abbrev pub split_store : (no_key : ℕ) → Store → (n0 n1 l : Ptr) → (x val c v : ℕ) → Store
split_store no_key s n0 n1 l x val c v =
    let s2 = initialize_node s n0 x val null null in
    if (c == no_key) || ltb x c
    then initialize_node s2 n1 c v n0 l
    else initialize_node s2 n1 x val l n0

-- A node over two leaves of a memory.
over_leaves :
    (s : Store) (n : Ptr) (k v a b : ℕ) (c d e f : ℕ)
    → n ≢ null
    → count n (a ∷ b ∷ []) ≡ 0
    → At s.mem.field s.key s.value a (leaf a c d)
    → At s.mem.field s.key s.value b (leaf b e f)
    → (s.records 1022).mutables ≡ 3
    → let s' = initialize_node s n k v a b in
      At s'.mem.field s'.key s'.value n (node n k (leaf a c d) (leaf b e f))
over_leaves s n k v a b c d e f nz new ha hb dum =
    let s' = initialize_node s n k v a b in
    let g = initialize-Grown s n k v a b (a ∷ b ∷ []) new in
    let (l, r, kn, vn, sn) = initialize-new s n k v a b dum in
    let below : (y : Ptr) (t : Tree)
        → 0 < count y (a ∷ b ∷ [])
        → At s.mem.field s.key s.value y t
        → ptrs t ≡ y ∷ []
        → At s'.mem.field s'.key s'.value y t =
      λ y t i h z.
        At-frame s.mem.field s'.mem.field s.key s'.key s.value s'.value y t
          (λ q j.
            let w : q ≡ y = single q y (subst (λ ps. 0 < count q ps) z j) in
            let o : 0 < count q (a ∷ b ∷ []) = subst (λ m. 0 < count m (a ∷ b ∷ [])) (sym w) i in
            let half : (2 * q) / 2 ≡ q = omega arith in
            let half' : (2 * q + 1) / 2 ≡ q = omega arith in
            (
              g.fields (left_of q) (subst (λ m. 0 < count m (a ∷ b ∷ [])) (sym half) o),
              g.fields (right_of q) (subst (λ m. 0 < count m (a ∷ b ∷ [])) (sym half') o),
              (g.items q o).0,
              (g.items q o).1,
            ))
          h in
    (
      refl,
      nz,
      kn,
      subst (λ q. At s'.mem.field s'.key s'.value q (leaf a c d)) (sym l)
          (below a (leaf a c d) (rw (==-refl a) (omega arith)) ha refl),
      subst (λ q. At s'.mem.field s'.key s'.value q (leaf b e f)) (sym r)
          (below b (leaf b e f) (rw (==-refl b) (omega arith)) hb refl),
    )
  where
    single : (q y : Ptr) → 0 < count q (y ∷ []) → q ≡ y
    single q y h = ground arith

module _ (no_key : ℕ) (root : Ptr) (s : Store) (u : Tree) (n0 n1 : Ptr) (x val : ℕ) where
  pub leaf-Graft :
      (l : Ptr) (c v : ℕ)
      → Tidy no_key root s u
      → Fresh n0 n1 root u
      → 0 < count l (ptrs u)
      → x ≢ no_key
      → c ≡ x
      → Graft no_key x root (initialize_node s n0 x val null null) u (leaf l c v) (leaf n0 x val)
  leaf-Graft l c v h fr i ne e =
      let (left, right, kn, vn, sn) = initialize-new s n0 x val null null h.dummy in
      record {
        shows = (refl, fr.not_null0, kn, vn, left);
        fresh = λ y. omega (arith, count_new n0 y (root ∷ ptrs u) fr.new0 (h.distinct y));
        another = λ z. omega (arith, ap (λ m. count m (ptrs u)) z, i, fr.new0);
        settled =
            λ y j. subst (λ q. Settled (initialize_node s n0 x val null null) q) (single y j) sn;
        same_keys = λ y j. inl (only y j);
        ordered = tt;
        proper = λ z. ne;
        rooted = λ z. absurd (ne (sym e ∙ z));
      }
    where
      single : (y : Ptr) → 0 < count y (n0 ∷ []) → n0 ≡ y
      single y j = ground arith

      only : (y : ℕ) → has y (keys no_key (leaf n0 x val)) ≡ true → y ≡ x
      only y j = ground (arith, ne)

  pub split-Grown :
      (l : Ptr) (c v : ℕ)
      → Fresh n0 n1 root u
      → Grown s (split_store no_key s n0 n1 l x val c v) (root ∷ ptrs u)
  split-Grown l c v fr =
      let s2 = initialize_node s n0 x val null null in
      let g = initialize-Grown s n0 x val null null (root ∷ ptrs u) fr.new0 in
      elim (Bool-cases ((c == no_key) || ltb x c)) [
        | inl e ↦ rw e (
            Grown-then s s2 _ (root ∷ ptrs u) g
              (initialize-Grown s2 n1 c v n0 l (root ∷ ptrs u) fr.new1))
        | inr e ↦ rw e (
            Grown-then s s2 _ (root ∷ ptrs u) g
              (initialize-Grown s2 n1 x val l n0 (root ∷ ptrs u) fr.new1))
      ]

  module _ (l : Ptr) (c v : ℕ) (h : Tidy no_key root s u) (fr : Fresh n0 n1 root u)
      (il : 0 < count l (ptrs u)) (at_l : At s.mem.field s.key s.value l (leaf l c v)) where
    -- The memory with the new leaf.
    abbrev with_leaf : Store
    with_leaf = initialize_node s n0 x val null null

    leaf_new : At with_leaf.mem.field with_leaf.key with_leaf.value n0 (leaf n0 x val)
    leaf_new =
        let (left, right, kn, vn, sn) = initialize-new s n0 x val null null h.dummy in
        (refl, fr.not_null0, kn, vn, left)

    leaf_old : At with_leaf.mem.field with_leaf.key with_leaf.value l (leaf l c v)
    leaf_old =
        let g = initialize-Grown s n0 x val null null (root ∷ ptrs u) fr.new0 in
        let half : (2 * l) / 2 ≡ l = omega arith in
        let o : 0 < count l (root ∷ ptrs u) = omega (arith, il) in
        (
          refl,
          at_l.1,
          (g.items l o).0 ∙ at_l.2,
          (g.items l o).1 ∙ at_l.3,
          g.fields (left_of l) (subst (λ m. 0 < count m (root ∷ ptrs u)) (sym half) o) ∙ at_l.4,
        )

    dummy_kept : (with_leaf.records 1022).mutables ≡ mutables_dummy
    dummy_kept =
        let g = initialize-Grown s n0 x val null null (root ∷ ptrs u) fr.new0 in
        ap (λ q. (q 1022).mutables) g.records ∙ h.dummy

    apart1 : count n1 (n0 ∷ l ∷ []) ≡ 0
    apart1 =
        let d : n1 ≢ l = λ z. omega (arith, ap (λ m. count m (ptrs u)) z, il, fr.new1) in
        let e : (n1 == l) ≡ false = ground (arith, d) in
        let e' : (n1 == n0) ≡ false = ground (arith, fr.differ) in rw (e, e') refl

    -- The nodes of the new tree are settled.
    Settled-over :
        (k w a b : ℕ) (y : Ptr)
        → count n1 (a ∷ b ∷ []) ≡ 0
        → (0 < count y (a ∷ b ∷ []) → (y ≡ n0) ⊎ (y ≡ l))
        → 0 < count y (n1 ∷ a ∷ b ∷ [])
        → Settled (initialize_node with_leaf n1 k w a b) y
    Settled-over k w a b y new cover i =
        let g = initialize-Grown with_leaf n1 k w a b (a ∷ b ∷ []) new in
        let (_, _, _, _, sn) = initialize-new with_leaf n1 k w a b dummy_kept in
        let (_, _, _, _, s0) = initialize-new s n0 x val null null h.dummy in
        let g0 = initialize-Grown s n0 x val null null (root ∷ ptrs u) fr.new0 in
        let o : 0 < count l (root ∷ ptrs u) = omega (arith, il) in
        elim (Bool-cases (y == n1)) [
          | inl e ↦
              subst (λ q. Settled (initialize_node with_leaf n1 k w a b) q) (sym (==→≡ y n1 e)) sn
          | inr e ↦
              let j : 0 < count y (a ∷ b ∷ []) = omega (arith, rw e at i) in
              g.settled y j (elim (cover j) [
                | inl z ↦ subst (λ q. Settled with_leaf q) (sym z) s0
                | inr z ↦ subst (λ q. Settled with_leaf q) (sym z) (g0.settled l o (h.settled l o))
              ])
        ]

    left-Graft :
        x ≢ no_key
        → ((c == no_key) || ltb x c) ≡ true
        → Graft no_key x root
            (initialize_node with_leaf n1 c v n0 l)
            u
            (leaf l c v)
            (node n1 c (leaf n0 x val) (leaf l c v))
    left-Graft ne e = record {
      shows =
          over_leaves with_leaf n1 c v n0 l x val c v fr.not_null1 apart1 leaf_new leaf_old
            dummy_kept;
      fresh = λ y.
          omega (arith, both_new n0 n1 y (root ∷ ptrs u) fr.differ fr.new0 fr.new1 (h.distinct y));
      another = λ z. omega (arith, ap (λ m. count m (ptrs u)) z, il, fr.new1);
      settled = λ y i. Settled-over c v n0 l y apart1 (λ j. ground arith) i;
      same_keys = λ y i. ground (arith, ne);
      ordered = (λ y i. ground (arith, ne), λ y i. ground arith, tt, tt);
      proper = λ z. (z, ne, z);
      rooted = λ z. (z, ne, z);
    }

    right-Graft :
        x ≢ no_key
        → (x == c) ≡ false
        → ((c == no_key) || ltb x c) ≡ false
        → Graft no_key x root
            (initialize_node with_leaf n1 x val l n0)
            u
            (leaf l c v)
            (node n1 x (leaf l c v) (leaf n0 x val))
    right-Graft ne d e =
        let new : count n1 (l ∷ n0 ∷ []) ≡ 0 = omega (arith, apart1) in
        record {
          shows =
              over_leaves with_leaf n1 x val l n0 c v x val fr.not_null1 new leaf_old leaf_new
                dummy_kept;
          fresh = λ y.
              omega
                (arith, both_new n0 n1 y (root ∷ ptrs u) fr.differ fr.new0 fr.new1 (h.distinct y));
          another = λ z. omega (arith, ap (λ m. count m (ptrs u)) z, il, fr.new1);
          settled = λ y i. Settled-over x val l n0 y new (λ j. ground arith) i;
          same_keys = λ y i. ground (arith, ne);
          ordered = (λ y i. ground (arith, ne), λ y i. ground arith, tt, tt);
          proper = λ z. (ne, z, ne);
          rooted = λ z. absurd (ground arith);
        }

    pub split-Graft :
        x ≢ no_key
        → (x == c) ≡ false
        → Graft no_key x root
            (split_store no_key s n0 n1 l x val c v)
            u
            (leaf l c v)
            (split_tree no_key n0 n1 l x val c v)
    split-Graft ne d = elim (Bool-cases ((c == no_key) || ltb x c)) [
      | inl e ↦ rw e (left-Graft ne e)
      | inr e ↦ rw e (right-Graft ne d e)
    ]
