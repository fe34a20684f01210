-- ===== src/Bst/Create.antt =====
-- The constructor `vcas_bst`: what it stores, and that the new tree is tidy.
use vcaslib.Common.{
  ℕ, ◌*◌, ◌/◌, ◌<◌, ◌≡◌, ◌≢◌, inl, inr, refl, ap, sym, subst, ◌∙◌, false, [], ◌∷◌, update,
  if◌then◌else◌, ◌==◌, ltb, ==-refl, ==→≡, Bool-cases, arith,
}
use vcaslib.Common.Arrays.{count}
use vcaslib.Rq.{Ptr, Addr, null, Mem}
use vcaslib.Rq.Sequential.{update_at_write}
use vcaslib.Descriptors.{mutables_new, mutables_dummy}
use vcaslib.Bst.{Store, ScxRecord, left_of, initialize_node}
use vcaslib.Bst.Llx.Settled.{Settled}
use vcaslib.Bst.Grow.{initialize-Grown, initialize-new, write-field}
use vcaslib.Bst.Above.{Settled-mem}
use vcaslib.Bst.Tidy.{Tidy}
use vcaslib.Bst.Tree.{leaf}

-- `&root`, the tree's own field
abbrev pub entry : Addr
entry = 0

-- `DESC1_INIT_ALL`, and the words of the dummy descriptor
unfoldable pub init_mutables : (processes : ℕ) → (ℕ → ScxRecord) → ℕ → ScxRecord
unfolding mutables_new
init_mutables processes records t =
    if t == 1022
    then record (records t) { mutables = mutables_dummy }
    else if ltb t processes
    then record (records t) { mutables = mutables_new 0 }
    else records t

-- The constructor, where `root` and `rootleft` are the nodes that the allocator hands out.
unfoldable pub create : (no_key no_value processes : ℕ) → Store → (rootleft root : Ptr) → Store
unfolding init_mutables initialize_node update_at_write
create no_key no_value processes s rootleft root =
    let s0 = record s { records = init_mutables processes s.records } in
    let s1 = initialize_node s0 rootleft no_key no_value null null in
    let s2 = initialize_node s1 root no_key no_value rootleft null in
    record s2 { mem = update_at_write s2.mem entry root }

update_at_write-field :
    (m : Mem) (a : Addr) (v : Ptr) → (update_at_write m a v).field ≡ update m.field a v
unfolding update_at_write
update_at_write-field m a v = write-field m a v

made :
    (no_key no_value : ℕ) (s0 : Store) (rootleft root : Ptr) (m : Mem)
    → (s0.records 1022).mutables ≡ mutables_dummy
    → rootleft ≢ null
    → root ≢ null
    → rootleft ≢ root
    → let s1 = initialize_node s0 rootleft no_key no_value null null in
      let s2 = initialize_node s1 root no_key no_value rootleft null in
      m.field ≡ update s2.mem.field entry root
      → Tidy no_key root (record s2 { mem = m }) (leaf rootleft no_key no_value)
made no_key no_value s0 rootleft root m dum nl nr d e =
    let s1 = initialize_node s0 rootleft no_key no_value null null in
    let s2 = initialize_node s1 root no_key no_value rootleft null in
    let g0 = initialize-Grown s0 rootleft no_key no_value null null [] refl in
    let dum1 : (s1.records 1022).mutables ≡ mutables_dummy =
      ap (λ q. (q 1022).mutables) g0.records ∙ dum in
    let z : (root == rootleft) ≡ false = ground (arith, d) in
    let g = initialize-Grown s1 root no_key no_value rootleft null (rootleft ∷ []) (rw z refl) in
    let (fl, _, kl, vl, sl) = initialize-new s0 rootleft no_key no_value null null dum in
    let (fr, _, _, _, sr) = initialize-new s1 root no_key no_value rootleft null dum1 in
    let one : 0 < count rootleft (rootleft ∷ []) = rw (==-refl rootleft) (omega arith) in
    let half : (2 * rootleft) / 2 ≡ rootleft = omega arith in
    let at_root : m.field (left_of root) ≡ rootleft =
      ap (λ f. f (left_of root)) e
      ∙ (let w : (entry == left_of root) ≡ false = ground (arith, nr) in rw w fr) in
    let at_leaf : m.field (left_of rootleft) ≡ null =
      ap (λ f. f (left_of rootleft)) e
      ∙ (let w : (entry == left_of rootleft) ≡ false = ground (arith, nl) in
          rw w (
            g.fields (left_of rootleft) (subst (λ q. 0 < count q (rootleft ∷ [])) (sym half) one)
            ∙ fl)) in
    record {
      shows = (at_root, nl, (g.items rootleft one).0 ∙ kl, (g.items rootleft one).1 ∙ vl, at_leaf);
      rooted = refl;
      ordered = tt;
      distinct = λ y. ground (arith, d);
      settled = λ y i. elim (Bool-cases (y == root)) [
        | inl w ↦
            subst (λ q. Settled (record s2 { mem = m }) q) (sym (==→≡ y root w))
              (Settled-mem s2 m root sr)
        | inr w ↦
            let v : y ≡ rootleft = ground (arith, i) in
            subst (λ q. Settled (record s2 { mem = m }) q) (sym v)
              (Settled-mem s2 m rootleft (g.settled rootleft one sl))
      ];
      root_node = nr;
      dummy = ap (λ q. (q 1022).mutables) g.records ∙ dum1;
    }

init_mutables-dummy :
    (processes : ℕ) (r : ℕ → ScxRecord) → (init_mutables processes r 1022).mutables ≡ mutables_dummy
unfolding init_mutables
init_mutables-dummy processes r = refl

-- From any memory, the constructor makes a tidy tree that holds no key.
pub create-Tidy :
    (no_key no_value processes : ℕ) (s : Store) (rootleft root : Ptr)
    → rootleft ≢ null
    → root ≢ null
    → rootleft ≢ root
    → Tidy no_key root
        (create no_key no_value processes s rootleft root)
        (leaf rootleft no_key no_value)
unfolding create
create-Tidy no_key no_value processes s rootleft root nl nr d =
    let s0 : Store = record s { records = init_mutables processes s.records } in
    let s1 = initialize_node s0 rootleft no_key no_value null null in
    let s2 = initialize_node s1 root no_key no_value rootleft null in
    made no_key no_value s0 rootleft root (update_at_write s2.mem entry root)
      (init_mutables-dummy processes s.records) nl nr d (update_at_write-field s2.mem entry root)
