-- ===== src/Bst/Grow.antt =====
-- `initializeNode` of a fresh node: the nodes of a tree stay as they are, and the new node is
-- settled.
use vcaslib.Common.{
  ℕ, ◌<◌, ◌≡◌, inl, inr, refl, ap, ◌∙◌, false, List, update, ◌==◌, ==-refl, ==→≡, Bool-cases, arith,
}
use vcaslib.Common.Arrays.{count}
use vcaslib.Rq.{Ptr, Addr, null, Mem, init_node, is_tbd, set_field}
use vcaslib.Rq.Sequential.{write_addr, init_ts_simple}
use vcaslib.Descriptors.{mutables_dummy}
use vcaslib.Bst.{Store, left_of, right_of, initialize_node}
use vcaslib.Bst.Llx.Settled.{Settled}
use vcaslib.Bst.Tree.Frame.{owner}

init_ts_simple-field : (m : Mem) (p : Ptr) → (init_ts_simple m p).field ≡ m.field
unfolding init_ts_simple
init_ts_simple-field m p = elim (Bool-cases (is_tbd (m.ts p))) [
  | inl e ↦ rw e refl
  | inr e ↦ rw e refl
]

pub write-field : (m : Mem) (a : Addr) (v : Ptr) → (write_addr m a v).field ≡ update m.field a v
unfolding write_addr init_ts_simple
write-field m a v = elim (Bool-cases (v == null)) [
  | inl e ↦ rw e refl
  | inr e ↦ rw e (init_ts_simple-field (set_field m a v) v)
]

initialize-field :
    (s : Store) (n key value : ℕ) (l r : Ptr)
    → (initialize_node s n key value l r).mem.field
      ≡ update (update s.mem.field (left_of n) l) (right_of n) r
unfolding initialize_node init_node
initialize-field s n key value l r =
    write-field _ (right_of n) r ∙ ap (λ f. update f (right_of n) r) (write-field _ (left_of n) l)

-- A change that keeps everything at the nodes of a list.
pub record Grown (s s' : Store) (ps : List Ptr) : Type 0 where
  pub fields : (a : Addr) → 0 < count (owner a) ps → s'.mem.field a ≡ s.mem.field a
  pub items : (y : Ptr) → 0 < count y ps → (s'.key y ≡ s.key y) × (s'.value y ≡ s.value y)
  pub scx_records : (y : Ptr) → 0 < count y ps → s'.scx_record y ≡ s.scx_record y
  pub settled : (y : Ptr) → 0 < count y ps → Settled s y → Settled s' y
  pub records : s'.records ≡ s.records

pub Grown-then :
    (s s' s'' : Store) (ps : List Ptr) → Grown s s' ps → Grown s' s'' ps → Grown s s'' ps
Grown-then s s' s'' ps g h = record {
  fields = λ a i. h.fields a i ∙ g.fields a i;
  items = λ y i. ((h.items y i).0 ∙ (g.items y i).0, (h.items y i).1 ∙ (g.items y i).1);
  scx_records = λ y i. h.scx_records y i ∙ g.scx_records y i;
  settled = λ y i k. h.settled y i (g.settled y i k);
  records = h.records ∙ g.records;
}

other : (n y : ℕ) (ps : List ℕ) → count n ps ≡ 0 → 0 < count y ps → (n == y) ≡ false
other n y ps c i = elim (Bool-cases (n == y)) [
  | inl e ↦ absurd (omega (arith, ap (λ z. count z ps) (==→≡ n y e)))
  | inr e ↦ e
]

pub initialize-Grown :
    (s : Store) (n key value : ℕ) (l r : Ptr) (ps : List Ptr)
    → count n ps ≡ 0
    → Grown s (initialize_node s n key value l r) ps
unfolding initialize_node
initialize-Grown s n key value l r ps c = record {
  fields = λ a i.
      let o : (n == owner a) ≡ false = other n (owner a) ps c i in
      let z : (left_of n == a) ≡ false = ground arith in
      let z' : (right_of n == a) ≡ false = ground arith in
      ap (λ f. f a) (initialize-field s n key value l r) ∙ rw (z, z') refl;
  items = λ y i. let o : (n == y) ≡ false = other n y ps c i in rw o (refl, refl);
  scx_records = λ y i. let o : (n == y) ≡ false = other n y ps c i in rw o refl;
  settled = λ y i h.
      let o : (n == y) ≡ false = other n y ps c i in
      record { unmarked = rw o h.unmarked; past = rw o h.past; done = rw o h.done };
  records = refl;
}

-- The new node.
pub initialize-new :
    (s : Store) (n key value : ℕ) (l r : Ptr)
    → (s.records 1022).mutables ≡ mutables_dummy
    → let s' = initialize_node s n key value l r in
      (s'.mem.field (left_of n) ≡ l)
      × (s'.mem.field (right_of n) ≡ r)
      × (s'.key n ≡ key)
      × (s'.value n ≡ value)
      × Settled s' n
unfolding initialize_node
initialize-new s n key value l r d =
    let f = initialize-field s n key value l r in
    let z : (right_of n == left_of n) ≡ false = ground arith in
    let t = ==-refl n in
    (
      ap (λ f. f (left_of n)) f ∙ rw (z, ==-refl (left_of n)) refl,
      ap (λ f. f (right_of n)) f ∙ rw (==-refl (right_of n)) refl,
      rw t refl,
      rw t refl,
      record {
        unmarked = rw t refl;
        past = rw (t, d) (omega arith);
        done = rw (t, d) (λ z. inl refl);
      },
    )
