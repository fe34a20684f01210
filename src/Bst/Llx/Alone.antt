-- ===== src/Bst/Llx/Alone.antt =====
-- SCX of settled nodes: it commits, and what it leaves.
use vcaslib.Common.{
  ℕ, ◌+◌, ◌-◌, ◌^◌, ◌≤◌, ◌<◌, ◌≡◌, ◌≢◌, ◌⊎◌, inl, inr, refl, ap, sym, ◌∙◌, Bool, true, false, none,
  List, update, ◌==◌, ==-refl, ==→≡, Bool-cases, arith,
}
use vcaslib.Common.Arrays.{get_or}
use vcaslib.Rq.{Ptr, Addr, Mem, is_tbd, set_field, set_nextv}
use vcaslib.Rq.Sequential.{update_at_cas, init_ts, stamp_head}
use vcaslib.Rq.Sequential.Laws.{stamp_head-field}
use vcaslib.Descriptors.{
  unpack_seq, unpack_tid, tag_new, leaf_tag, committed, state_of, write_state, write_all_frozen,
  renew,
}
use vcaslib.Descriptors.Laws.{
  tag_new-unpack, write_state-fields, write_all_frozen-fields, renew-fields,
}
use vcaslib.Bst.{Store, ScxRecord}
use vcaslib.Bst.Llx.{freeze, commit, finish, help, scx, set_mutables}
use vcaslib.Bst.Llx.Settled.{Settled}
use vcaslib.Bst.Llx.Frozen.{freeze-alone, mark-alone, Finalized}

init_ts-field : (m : Mem) (p : Ptr) → (init_ts m p).field ≡ m.field
unfolding init_ts
init_ts-field m p = elim (Bool-cases (is_tbd (m.ts p))) [ inl e ↦ rw e refl | inr e ↦ rw e refl ]

-- The provider's update where the address holds the expected value, and the new one is another.
pub update-field :
    (m : Mem) (a : Addr) (old new : Ptr)
    → m.field a ≡ old
    → new ≢ old
    → (update_at_cas m a old new).0.field ≡ update m.field a new
unfolding update_at_cas init_ts
update-field m a old new e ne =
    let f : (m.field a == old) ≡ true = ground arith in
    let g : (new == old) ≡ false = ground arith in
    rw (f, g)
      (init_ts-field (set_field (set_nextv (stamp_head m (m.field a)) new old) a new) new
        ∙ ap (λ h. update h a new) (stamp_head-field m (m.field a)))

-- What the descriptors of other threads and the thread's own word are after a commit.
record Closed (before after : ℕ → ScxRecord) (tid : ℕ) (word : ℕ) : Type 0 where
  pub others : (t : ℕ) → t ≢ tid → after t ≡ before t
  pub seq_kept : unpack_seq (after tid).mutables ≡ unpack_seq word
  pub state_set : state_of (after tid).mutables ≡ committed

abbrev Spared : (Ptr → Bool) → (Ptr → Bool) → ScxRecord → Type 0
Spared before after snap =
    (q : Ptr)
    → ((j : ℕ)
        → 1 ≤ j
        → j < snap.nodes_to_freeze
        → get_or snap.seen j 0 ≢ leaf_tag
        → q ≢ get_or snap.nodes j 0)
    → after q ≡ before q

close :
    (records : ℕ → ScxRecord) (tid : ℕ) (snap : ℕ)
    → unpack_seq (records tid).mutables ≡ unpack_seq snap
    → let first : ScxRecord = record (records tid) {
      mutables = write_all_frozen (records tid).mutables snap;
    } in
      let mid = update records tid first in
      Closed records
        (update mid tid
          (record (mid tid) { mutables = write_state (mid tid).mutables snap committed }))
        tid
        (records tid).mutables
close records tid snap e =
    let w = (records tid).mutables in
    let (a, b) = write_all_frozen-fields w snap in
    let (c, d, f) = write_state-fields (write_all_frozen w snap) snap committed (omega arith) in
    let t = ==-refl tid in
    record {
      others = λ u ne. let g : (tid == u) ≡ false = ground (arith, ne) in rw g refl;
      seq_kept = rw t (c ∙ a);
      state_set = rw t (
          f
          ∙ let g : (unpack_seq (write_all_frozen w snap) == unpack_seq snap) ≡ true =
              ground (arith, a, e) in
            rw g refl);
    }

commit-alone :
    (s : Store) (tag : ℕ) (snap : ScxRecord)
    → s.mem.field snap.target ≡ get_or snap.nodes 1 0
    → snap.new_node ≢ get_or snap.nodes 1 0
    → unpack_seq (s.records (unpack_tid tag)).mutables ≡ unpack_seq snap.mutables
    → 1 ≤ snap.nodes_to_freeze
    → (m : Mem) × (g : Ptr → Bool) × (r : ℕ → ScxRecord) × (commit s tag snap
        ≡ record s { mem = m; marked = g; records = r })
      × (m.field ≡ update s.mem.field snap.target snap.new_node)
      × Spared s.marked g snap
      × Finalized g snap 1 (snap.nodes_to_freeze - 1)
      × Closed s.records r (unpack_tid tag) (s.records (unpack_tid tag)).mutables
unfolding commit
commit-alone s tag snap e ne q pos =
    let tid = unpack_tid tag in
    let s1 : Store = set_mutables s tid (write_all_frozen (s.records tid).mutables snap.mutables) in
    let (g, p, c, d, _) = mark-alone (snap.nodes_to_freeze - 1) 1 s1 snap in
    (
      (update_at_cas s.mem snap.target (get_or snap.nodes 1 0) snap.new_node).0,
      g,
      update s1.records tid (record (s1.records tid) {
        mutables = write_state (s1.records tid).mutables snap.mutables committed;
      }),
      rw p refl,
      update-field s.mem snap.target (get_or snap.nodes 1 0) snap.new_node e ne,
      λ y h. c y (λ j l u. h j l (omega arith)),
      d,
      close s.records tid snap.mutables q,
    )

-- What an SCX that commits leaves: the child pointer is changed, and settled nodes stay settled,
-- but for those that it removes.
pub record Committed (s s' : Store) (tid : ℕ) (nodes : List Ptr) (n : ℕ) (a : Addr) (new : Ptr)
    : Type 0 where
  pub same_key : s'.key ≡ s.key
  pub same_value : s'.value ≡ s.value
  pub linked_in : s'.mem.field ≡ update s.mem.field a new
  pub settles :
      (q : Ptr) → Settled s q → ((j : ℕ) → 1 ≤ j → j < n → q ≢ get_or nodes j 0) → Settled s' q
  pub seq_up : unpack_seq (s'.records tid).mutables ≡ unpack_seq (s.records tid).mutables + 2
  pub others : (t : ℕ) → t ≢ tid → s'.records t ≡ s.records t

-- Which nodes such an SCX freezes and finalizes: all that it freezes point to its descriptor, whose
-- state is set, and all of them but the first are marked.
pub record Finished (s s' : Store) (tid : ℕ) (nodes seen : List ℕ) (n : ℕ) : Type 0 where
  pub ended : state_of (s'.records tid).mutables ≡ committed
  pub frozen :
      (j : ℕ)
      → j < n
      → get_or seen j 0 ≢ leaf_tag
      → (unpack_tid (s'.scx_record (get_or nodes j 0)) ≡ tid)
        × (unpack_seq (s'.scx_record (get_or nodes j 0)) ≡ unpack_seq (s'.records tid).mutables)
  pub finalized :
      (j : ℕ) → 1 ≤ j → j < n → get_or seen j 0 ≢ leaf_tag → s'.marked (get_or nodes j 0) ≡ true
  pub not_frozen :
      (q : Ptr)
      → ((j : ℕ) → j < n → get_or seen j 0 ≢ leaf_tag → q ≢ get_or nodes j 0)
      → s'.scx_record q ≡ s.scx_record q
  pub not_finalized :
      (q : Ptr)
      → ((j : ℕ) → 1 ≤ j → j < n → get_or seen j 0 ≢ leaf_tag → q ≢ get_or nodes j 0)
      → s'.marked q ≡ s.marked q

Settled-after :
    (s : Store) (tid word : ℕ) (f : Ptr → ℕ) (g : Ptr → Bool) (r : ℕ → ScxRecord) (m : Mem)
    (q : Ptr)
    → tid ≤ 1023
    → unpack_seq word ≡ unpack_seq (s.records tid).mutables + 2
    → ((t : ℕ) → t ≢ tid → r t ≡ s.records t)
    → unpack_seq (r tid).mutables ≡ unpack_seq word
    → state_of (r tid).mutables ≡ committed
    → (f q ≡ s.scx_record q) ⊎ (f q ≡ tag_new tid word)
    → g q ≡ s.marked q
    → Settled s q
    → Settled (record s { mem = m; scx_record = f; marked = g; records = r }) q
Settled-after s tid word f g r m q lt up others kept done (inr t) e h =
    let (a, b, c) = tag_new-unpack tid word lt in
    let d : unpack_tid (f q) ≡ tid = rw t a in
    let k : unpack_seq (f q) ≡ unpack_seq word = rw t b in
    record {
      unmarked = e ∙ h.unmarked;
      past = rw d (omega (arith, kept, k));
      done = λ z. inl (rw d done);
    }
Settled-after s tid word f g r m q lt up others kept done (inl t) e h =
    elim (Bool-cases (unpack_tid (s.scx_record q) == tid)) [
      | inl d ↦
          let d' : unpack_tid (s.scx_record q) ≡ tid = ==→≡ _ _ d in
          let old : unpack_seq (s.scx_record q) ≤ unpack_seq (s.records tid).mutables =
            rw d' at h.past in
          record {
            unmarked = e ∙ h.unmarked;
            past = rw (t, d') (omega (arith, old, kept, up));
            done = rw (t, d') (λ z. absurd (omega (arith, z, old, kept, up)));
          }
      | inr d ↦
          let o : r (unpack_tid (s.scx_record q)) ≡ s.records (unpack_tid (s.scx_record q)) =
            others _ (ground arith) in
          record { unmarked = e ∙ h.unmarked; past = rw (t, o) h.past; done = rw (t, o) h.done }
    ]

help-own :
    (s s2 s3 : Store) (tag : ℕ) (snap : ScxRecord)
    → freeze snap.nodes_to_freeze 0 s tag snap ≡ (s2, none)
    → commit s2 tag snap ≡ s3
    → help s tag snap false ≡ (s3, committed)
unfolding help
help-own s s2 s3 tag snap p k = ap (λ r. finish r tag snap) p ∙ ap (λ t. (t, committed)) k

module _ (s : Store) (tid : ℕ) (nodes : List Ptr) (seen : List ℕ) (n : ℕ) (a : Addr)
    (new : Ptr) where
  -- Also where the first node is a leaf.
  pub scx-commits :
      tid ≤ 1023
      → unpack_seq (s.records tid).mutables + 2 < 2 ^ 48
      → 1 ≤ n
      → ((j : ℕ)
          → j < n
          → (get_or seen j 0 ≡ leaf_tag) ⊎ (s.scx_record (get_or nodes j 0) ≡ get_or seen j 0))
      → s.mem.field a ≡ get_or nodes 1 0
      → new ≢ get_or nodes 1 0
      → (s' : Store) × (scx s tid nodes seen n a new ≡ (s', true))
        × (Committed s s' tid nodes n a new)
        × Finished s s' tid nodes seen n
  unfolding scx
  scx-commits lt room pos fit e ne =
      let snap : ScxRecord = record {
        mutables = renew (s.records tid).mutables;
        new_node = new;
        target = a;
        nodes_to_freeze = n;
        nodes = nodes;
        seen = seen;
      } in
      let s1 : Store = record s { records = update s.records tid snap } in
      let tag = tag_new tid snap.mutables in
      let (b, c, _) = tag_new-unpack tid snap.mutables lt in
      let (up, _, _) = renew-fields (s.records tid).mutables room in
      let (f, p, fs, tags) =
        freeze-alone n 0 s1 tag snap
          (λ j l u. elim (fit j (omega arith)) [ inl x ↦ inl x | inr x ↦ inr (inl x) ]) in
      let s2 : Store = record s1 { scx_record = f } in
      let t : (s2.records tid).mutables ≡ snap.mutables = rw (==-refl tid) refl in
      let (m, g, r, k, changed, spared, marks, closed) =
        commit-alone s2 tag snap e ne (rw b (ap unpack_seq t)) pos in
      let closed' : Closed s2.records r tid (s2.records tid).mutables = rw b at closed in
      let kept : unpack_seq (r tid).mutables ≡ unpack_seq snap.mutables =
        closed'.seq_kept ∙ ap unpack_seq t in
      let others : (u : ℕ) → u ≢ tid → r u ≡ s.records u =
        λ u d. closed'.others u d ∙ (let z : (tid == u) ≡ false = ground (arith, d) in rw z refl) in
      (
        record s2 { mem = m; marked = g; records = r },
        rw (help-own s1 s2 (record s2 { mem = m; marked = g; records = r }) tag snap p k) refl,
        record {
          same_key = refl;
          same_value = refl;
          linked_in = changed;
          settles = λ q h u.
              Settled-after s tid snap.mutables f g r m q lt up others kept closed'.state_set (fs q)
                (spared q (λ j l v ne. u j l v)) h;
          seq_up = kept ∙ up;
          others = others;
        },
        record {
          ended = closed'.state_set;
          frozen = λ j u ne.
              let z : f (get_or nodes j 0) ≡ tag = tags.0 j (omega arith) (omega (arith, u)) ne in
              rw z (b, c ∙ sym kept);
          finalized = λ j l u ne. marks j l (omega (arith, u, pos)) ne;
          not_frozen = λ q w. tags.1 q (λ j l u ne. w j (omega (arith, u)) ne);
          not_finalized = λ q w. spared q w;
        },
      )

  -- An SCX commits if the thread has a descriptor of its own whose sequence number does not wrap, the
  -- nodes to freeze are leaves, but for the first, or have the descriptors that LLX has seen, and the
  -- address holds the second node, which is not the new one. It changes that address alone, keeps all
  -- keys and values, and leaves its descriptor committed. The nodes to freeze that are not leaves then
  -- point to this descriptor and all of them but the first are marked; no other node is frozen or
  -- marked by it; and a settled node that it does not remove is settled afterwards.
  pub scx-alone :
      tid ≤ 1023
      → unpack_seq (s.records tid).mutables + 2 < 2 ^ 48
      → 1 ≤ n
      → get_or seen 0 0 ≢ leaf_tag
      → ((j : ℕ)
          → j < n
          → (get_or seen j 0 ≡ leaf_tag) ⊎ (s.scx_record (get_or nodes j 0) ≡ get_or seen j 0))
      → s.mem.field a ≡ get_or nodes 1 0
      → new ≢ get_or nodes 1 0
      → (s' : Store) × (scx s tid nodes seen n a new ≡ (s', true))
        × (Committed s s' tid nodes n a new)
        × Finished s s' tid nodes seen n
  scx-alone lt room pos first fit e ne = scx-commits lt room pos fit e ne
