-- ===== src/Rq/Sequential/Laws.antt =====
-- The operations of rq/rq_vcas.h by a thread of the interleaved machine while no other thread moves.
use vcaslib.Common.{
  ℕ, zero, suc, ◌<◌, ◌≡◌, refl, sym, ◌∙◌, ap, Bool, true, false, not, ◌&&◌, ◌||◌, update,
  if◌then◌else◌, ==→≡, some, List, [], ◌∷◌, inl, inr, subst, length, ◌==◌, ltb, Bool-cases, arith,
}
use vcaslib.Rq.{Ptr, Addr, null, Stamp, tbd, at, Mem, is_tbd, later, set_field, set_nextv}
use vcaslib.Rq.Sequential.{init_ts, stamp_head, read_addr, walk, read_version, update_at_cas}
use vcaslib.Rq.Interleaved.{
  Cont, to_walk, to_compare, to_win, to_read, Pc, update_load, update_compare, updated, read_load,
  read_done, version_load, version_walk, version_done, init_test, exec, resume, init_head,
}
use vcaslib.Rq.Interleaved.History.{Linked, Below}
use vcaslib.Rq.Interleaved.Frozen.{version}

-- The accesses of one thread that moves alone.
pub data Runs : Pc → Mem → Pc → Mem → Type 0 where
  stop : {p : Pc} {m : Mem} → Runs p m p m
  more : {p r : Pc} {m o : Mem} → Runs (exec p m).1 (exec p m).0 r o → Runs p m r o

module _ {q : Pc} {n : Mem} (a : Addr) (p : Ptr) (k : Cont) (m : Mem) where
  init_alone : Runs (resume a p k) (init_ts m p) q n → Runs (init_test a p k) m q n
  unfolding exec init_ts
  init_alone r = elim (Bool-cases (is_tbd (m.ts p))) [
    | inl t ↦ more (rw t (more (more (rw t (rw t at r)))))
    | inr t ↦ more (rw t (rw t at r))
  ]

  head_alone : Runs (resume a p k) (stamp_head m p) q n → Runs (init_head a p k) m q n
  unfolding init_head stamp_head
  head_alone r = elim (Bool-cases (p == null)) [
    | inl t ↦ rw t (rw t at r)
    | inr t ↦ rw t (init_alone (rw t at r))
  ]

-- The stamps after `initTS` of the nodes that `p` picks, at the time of the memory.
abbrev pub Stamped : (before after : Mem) → (p : Ptr → Bool) → Type 0
Stamped before after p =
    (q : Ptr)
    → after.ts q ≡ (if p q && is_tbd (before.ts q) then at before.timestamp else before.ts q)

-- Nothing else in the memory changes when `initTS` runs.
abbrev pub Stable : (before after : Mem) → Type 0
Stable before after =
    (after.timestamp ≡ before.timestamp)
    × (after.field ≡ before.field)
    × (after.nextv ≡ before.nextv)

init_ts-Stable : (m : Mem) (p : Ptr) → Stable m (init_ts m p)
unfolding init_ts
init_ts-Stable m p = elim (Bool-cases (is_tbd (m.ts p))) [
  | inl e ↦ rw e (refl, refl, refl)
  | inr e ↦ rw e (refl, refl, refl)
]

init_ts-Stamped : (m : Mem) (p : Ptr) → Stamped m (init_ts m p) (λ q. p == q)
unfolding init_ts
init_ts-Stamped m p q = elim (Bool-cases (p == q)) [
  | inl d ↦
      let z : is_tbd (m.ts q) ≡ is_tbd (m.ts p) = ap (λ x. is_tbd (m.ts x)) (sym (==→≡ p q d)) in
      let y : m.ts q ≡ m.ts p = ap m.ts (sym (==→≡ p q d)) in
      elim (Bool-cases (is_tbd (m.ts p))) [
        | inl e ↦ rw (e, d, z ∙ e) refl
        | inr e ↦ rw (e, d, z ∙ e) refl
      ]
  | inr d ↦ elim (Bool-cases (is_tbd (m.ts p))) [ inl e ↦ rw (e, d) refl | inr e ↦ rw (e, d) refl ]
]

stamp_head-Stable : (m : Mem) (p : Ptr) → Stable m (stamp_head m p)
unfolding stamp_head
stamp_head-Stable m p = elim (Bool-cases (p == null)) [
  | inl e ↦ rw e (refl, refl, refl)
  | inr e ↦ rw e (init_ts-Stable m p)
]

stamp_head-Stamped :
    (m : Mem) (p : Ptr) → Stamped m (stamp_head m p) (λ q. not (p == null) && (p == q))
unfolding stamp_head
stamp_head-Stamped m p q = elim (Bool-cases (p == null)) [
  | inl e ↦ rw e refl
  | inr e ↦ rw e (init_ts-Stamped m p q)
]

read-Runs :
    (m : Mem) (a : Addr) → Runs (read_load a) m (read_done (read_addr m a).1) (read_addr m a).0
unfolding exec read_addr resume
read-Runs m a = more (head_alone a (m.field a) to_read m stop)

-- A call of `read_addr(tid, addr)` that no other thread disturbs returns what the address holds. It
-- changes no address, no `nextv` and not the clock, and of the stamps only that of the node that it
-- returns, if there is one and its stamp is TBD: this becomes the time of the clock.
pub read_addr_alone :
    (m : Mem) (a : Addr)
    → (o : Mem) × (Runs (read_load a) m (read_done (m.field a)) o)
      × (Stable m o)
      × Stamped m o (λ q. not (m.field a == null) && (m.field a == q))
unfolding read_addr
read_addr_alone m a =
    let h = m.field a in
    (stamp_head m h, read-Runs m a, stamp_head-Stable m h, stamp_head-Stamped m h)

pub stamp_head-field : (m : Mem) (p : Ptr) → (stamp_head m p).field ≡ m.field
unfolding stamp_head init_ts
stamp_head-field m p = elim (Bool-cases (p == null)) [
  | inl t ↦ rw t refl
  | inr t ↦ rw t (elim (Bool-cases (is_tbd (m.ts p))) [ inl e ↦ rw e refl | inr e ↦ rw e refl ])
]

compare_alone :
    (m : Mem) (a : Addr) (old new : Ptr)
    → Runs
        (update_compare a old new (m.field a))
        (stamp_head m (m.field a))
        (updated (update_at_cas m a old new).1)
        (update_at_cas m a old new).0
unfolding exec update_at_cas resume
compare_alone m a old new = elim (Bool-cases (m.field a == old)) [
  | inr t ↦ rw t (more (rw t stop))
  | inl t ↦ rw t (elim (Bool-cases (new == old)) [
    | inl e ↦ rw e (more (rw (t, e) stop))
    | inr e ↦ rw e (
        more (
          rw (t, e)
            (more
              (more (rw (stamp_head-field m (m.field a), t) (init_alone a new to_win _ stop))))))
  ])
]

update-Runs :
    (m : Mem) (a : Addr) (old new : Ptr)
    → Runs
        (update_load a old new)
        m
        (updated (update_at_cas m a old new).1)
        (update_at_cas m a old new).0
unfolding exec resume
update-Runs m a old new =
    more (head_alone a (m.field a) (to_compare old new) m (compare_alone m a old new))

-- Whether an update writes, and which nodes it gives a stamp.
abbrev pub writes : Mem → Addr → (old new : Ptr) → Bool
writes m a old new = (m.field a == old) && not (new == old)

abbrev pub stamps : Mem → Addr → (old new : Ptr) → Ptr → Bool
stamps m a old new q =
    (not (m.field a == null) && (m.field a == q)) || (writes m a old new && (new == q))

update-result :
    (m : Mem) (a : Addr) (old new : Ptr) → (update_at_cas m a old new).1 ≡ (m.field a == old)
unfolding update_at_cas
update-result m a old new = elim (Bool-cases (m.field a == old)) [
  | inr e ↦ rw e refl
  | inl e ↦ elim (Bool-cases (new == old)) [ inl d ↦ rw (e, d) refl | inr d ↦ rw (e, d) refl ]
]

-- One stamp after another.
stamp_twice :
    (x y : Bool) (c : ℕ) (v : Stamp)
    → let w = if x && is_tbd v then at c else v in
      (if y && is_tbd w then at c else w) ≡ (if (x || y) && is_tbd v then at c else v)
stamp_twice true true c tbd = refl
stamp_twice true false c tbd = refl
stamp_twice false true c tbd = refl
stamp_twice false false c tbd = refl
stamp_twice true true c (at n) = refl
stamp_twice true false c (at n) = refl
stamp_twice false true c (at n) = refl
stamp_twice false false c (at n) = refl

or_no : (x : Bool) → (x || false) ≡ x
or_no true = refl
or_no false = refl

update-fields :
    (m : Mem) (a : Addr) (old new : Ptr)
    → let o = (update_at_cas m a old new).0 in
      (o.timestamp ≡ m.timestamp)
      × (o.field ≡ (if writes m a old new then update m.field a new else m.field))
      × (o.nextv ≡ (if writes m a old new then update m.nextv new old else m.nextv))
      × Stamped m o (stamps m a old new)
unfolding update_at_cas
update-fields m a old new =
    let head = m.field a in
    let m1 = stamp_head m head in
    let (t, f, v) = stamp_head-Stable m head in
    let st = stamp_head-Stamped m head in
    elim (Bool-cases (head == old)) [
      | inr e ↦ rw e (t, f, v, λ q. rw (or_no (not (head == null) && (head == q))) (st q))
      | inl e ↦ elim (Bool-cases (new == old)) [
        | inl d ↦ rw (e, d) (t, f, v, λ q. rw (or_no (not (head == null) && (head == q))) (st q))
        | inr d ↦
            let m2 = set_field (set_nextv m1 new old) a new in
            let (t2, f2, v2) = init_ts-Stable m2 new in
            let st2 = init_ts-Stamped m2 new in
            rw (e, d)
              (
                t2 ∙ t,
                f2 ∙ ap (λ z. update z a new) f,
                v2 ∙ ap (λ z. update z new old) v,
                λ q.
                    st2 q
                    ∙ ap (λ c. if (new == q) && is_tbd (m1.ts q) then at c else m1.ts q) t
                    ∙ ap (λ w. if (new == q) && is_tbd w then at m.timestamp else w) (st q)
                    ∙ stamp_twice (not (head == null) && (head == q)) (new == q) m.timestamp
                        (m.ts q),
              )
      ]
    ]

-- A call of `linearize_update_at_cas` that no other thread disturbs comes to its end, and `res` then
-- tells whether the address held `old`. If it did, and `new` is another node, the address holds `new`
-- and the `nextv` of `new` is `old`; no other address and no other `nextv` changes, nor the clock. Of
-- the stamps only those of the node that the address held and, where `new` was written, of `new`
-- change, from TBD to the time of the clock.
pub update_at_cas_alone :
    (m : Mem) (a : Addr) (old new : Ptr)
    → (o : Mem) × (Runs (update_load a old new) m (updated (m.field a == old)) o)
      × (o.timestamp ≡ m.timestamp)
      × (o.field ≡ (if writes m a old new then update m.field a new else m.field))
      × (o.nextv ≡ (if writes m a old new then update m.nextv new old else m.nextv))
      × Stamped m o (stamps m a old new)
update_at_cas_alone m a old new =
    let (t, f, v, st) = update-fields m a old new in
    (
      (update_at_cas m a old new).0,
      subst (λ b. Runs (update_load a old new) m (updated b) (update_at_cas m a old new).0)
          (update-result m a old new) (update-Runs m a old new),
      t,
      f,
      v,
      st,
    )

walk_alone :
    (k : ℕ) (m : Mem) (a : Addr) (t : ℕ) (p : Ptr) {q : Ptr}
    → walk k m t p ≡ some q
    → Runs (version_walk a t p) m (version_done a t q) m
unfolding exec walk
walk_alone zero m a t p h = cc
walk_alone (suc k) m a t p {q} h = elim (Bool-cases (p == null)) [
  | inl e ↦ more (
      rw e (
        subst (λ x. Runs (version_done a t p) m (version_done a t x) m) (some-eq (rw e at h)) stop))
  | inr e ↦ elim (Bool-cases (later (m.ts p) t)) [
    | inl l ↦ more (rw (e, l) (walk_alone k m a t (m.nextv p) (rw (e, l) at h)))
    | inr l ↦ more (
        rw (e, l)
          (subst (λ x. Runs (version_done a t p) m (version_done a t x) m)
            (some-eq (rw (e, l) at h)) stop))
  ]
]
  where
    some-eq : {x y : Ptr} → some x ≡ some y → x ≡ y
    some-eq d = cc

-- The loop ends, one round after the last node at the latest, and finds the version.
pub walk-version :
    (k : ℕ) (m : Mem) (b t : ℕ) (p : Ptr) (xs : List Ptr)
    → Linked m.nextv p xs
    → Below m.ts b xs
    → length xs < k
    → walk k m t p ≡ some (version m.ts t xs)
unfolding walk version
walk-version zero m b t p xs i h l = absurd (omega arith)
walk-version (suc k) m b t p [] i h l = ground (arith, i)
walk-version (suc k) m b t p (x ∷ xs) i (n, u, le, h) l =
    let e : (p == null) ≡ false = ground (arith, i.0, i.1) in
    let d : m.ts p ≡ at n = subst (λ y. m.ts y ≡ at n) (sym i.0) u in
    let rest = walk-version k m n t (m.nextv x) xs i.2 h (omega arith) in
    elim (Bool-cases (ltb t n)) [
      | inl f ↦ rw (e, d, u, f) (ap (λ y. walk k m t (m.nextv y)) i.0 ∙ rest)
      | inr f ↦ rw (e, d, u, f) (ap some i.0)
    ]

-- A call of `read_addr(tid, addr, ts)` that no other thread disturbs, on an address whose history
-- has stamps on all nodes but perhaps the newest, returns the newest node that is stamped at most
-- `ts` once the newest has its stamp; the fuel needed is one more than the history is long.
pub read_version_alone :
    (m : Mem) (a : Addr) (t b : ℕ) (xs : List Ptr)
    → Linked (stamp_head m (m.field a)).nextv (m.field a) xs
    → Below (stamp_head m (m.field a)).ts b xs
    → Runs
        (version_load a t)
        m
        (version_done a t (version (stamp_head m (m.field a)).ts t xs))
        (read_version (suc (length xs)) m a t).0
unfolding exec read_version resume
read_version_alone m a t b xs i h = more (
    head_alone a (m.field a) (to_walk t) m (
      walk_alone (suc (length xs)) (stamp_head m (m.field a)) a t (m.field a) (
        walk-version (suc (length xs)) (stamp_head m (m.field a)) b t (m.field a) xs i h
          (omega arith))))
