-- ===== src/LazyList/Pending.antt =====
-- What an access of a thread of artifact/cpp/lazylist can leave undone: a lock that is set, and a
-- marked node that is still linked.
use vcaslib.Common.{
  ℕ, ◌<◌, ◌≡◌, ◌⊎◌, refl, inl, inr, ap, sym, ◌∙◌, Bool, true, false, ◌||◌, List, [], ◌∷◌, has,
  update, if◌then◌else◌, ◌==◌, ==→≡, ==-refl, Bool-cases, arith,
}
use vcaslib.Rq.{Ptr}
use vcaslib.LazyList.{
  Nodes, put, del, Pc, idle, done, answered, queried, start, walk, lock_pred, lock_curr, test_pred,
  test_curr, test_link, retry_curr, retry_pred, recheck, peek, grab, fetch, store, link, take,
  after, mark, unlink, free_curr, free_pred, seek, check, look, enter, skip, scan, advance, exec,
  valid,
}
use vcaslib.LazyList.Chain.{Links, drop_after, keys_rise}
use vcaslib.LazyList.Chain.Changes.{in_put_from, in_drop_from}
use vcaslib.LazyList.Known.{Tidy, in_chain, linked}
use vcaslib.LazyList.Good.{Good, holds}
use vcaslib.LazyList.Quiet.{chain_after}

abbrev pub unlinks : Pc → Ptr → Bool
unlinks (unlink p c r next) a = a == c
unlinks _ a = false

-- The node taken out is not there any more.
drop_after-gone :
    (max : ℕ) (next : Ptr → Ptr) (key : Ptr → ℕ) (q : Ptr) (qs : List Ptr) (p : Ptr)
    → Links max next key q qs
    → has p (q ∷ qs) ≡ true
    → key p < key (next p)
    → has (next p) (drop_after q qs p) ≡ false
drop_after-gone max next key q [] p l i up = refl
drop_after-gone max next key q (r ∷ rs) p l i up = elim (Bool-cases (p == q)) [
  | inl e ↦
      let z : next p ≡ r = ap next (==→≡ p q e) ∙ l.0 in
      rw (e, z)
        (elim (Bool-cases (has r rs)) [
          | inl d ↦ absurd (omega (arith, keys_rise max next key r rs r l.2 d))
          | inr d ↦ d
        ])
  | inr e ↦
      let i' : has p (r ∷ rs) ≡ true = rw e at i in
      let above : key r < key (next p) = elim (Bool-cases (p == r)) [
        | inl d ↦ omega (arith, up, ap key (==→≡ p r d))
        | inr d ↦
            let k : has p rs ≡ true = rw d at i' in
            omega (arith, up, keys_rise max next key r rs p l.2 k)
      ] in
      let ne : (next p == r) ≡ false = elim (Bool-cases (next p == r)) [
        | inl d ↦ absurd (omega (arith, above, ap key (==→≡ (next p) r d)))
        | inr d ↦ d
      ] in
      rw (e, ne) (drop_after-gone max next key r rs p l.2 i' up)
]

-- A lock that is set after an access is the thread's, or was set and is not the thread's.
module _ (max no_value : ℕ) (head : Ptr) (h : Nodes) (chain : List Ptr) (n a : Ptr) where
  abbrev pub HeldBy : Pc → Type 0
  HeldBy q =
      let e = exec no_value head q n h in
      e.0.lock a ≡ true → (holds e.1 a ≡ true) ⊎ ((h.lock a ≡ true) × (holds q a ≡ false))

  -- The thread keeps what it holds.
  same :
      {A : Type 0} (b : Bool)
      → (b ≡ true → A)
      → h.lock a ≡ true
      → A ⊎ ((h.lock a ≡ true) × (b ≡ false))
  same b keep l = elim (Bool-cases b) [ inl e ↦ inl (keep e) | inr e ↦ inr (l, e) ]

  either :
      (b : Bool) (q q' : Pc)
      → holds q a ≡ true
      → holds q' a ≡ true
      → holds (if b then q else q') a ≡ true
  either true q q' m m' = m
  either false q q' m m' = m'

  -- After a release.
  released :
      (p : Ptr) (b : Bool)
      → update h.lock p false a ≡ true
      → ((a == p) ≡ false → b ≡ false)
      → (h.lock a ≡ true) × (b ≡ false)
  released p b l w = elim (Bool-cases (p == a)) [
    | inl e ↦ let z : false ≡ true = rw e at l in absurd (ground (arith, z))
    | inr e ↦
        let z : h.lock a ≡ true = rw e at l in
        let d : (a == p) ≡ false = elim (Bool-cases (a == p)) [
          | inl y ↦ absurd (ground (arith, e, ==→≡ a p y, ==-refl p))
          | inr y ↦ y
        ] in
        (z, w d)
  ]

  -- After taking the lock of `p`.
  took :
      (p : Ptr)
      → update h.lock p true a ≡ true
      → ((a == p) ≡ true) ⊎ (((a == p) ≡ false) × (h.lock a ≡ true))
  took p l = elim (Bool-cases (a == p)) [
    | inl e ↦ inl e
    | inr e ↦ elim (Bool-cases (p == a)) [
      | inl d ↦ absurd (ground (arith, e, ==→≡ p a d, ==-refl a))
      | inr d ↦ let z : h.lock a ≡ true = rw d at l in inr (e, z)
    ]
  ]

  pub HeldBy-exec : (q : Pc) → Good max head h chain q → HeldBy q
  unfolding exec
  HeldBy-exec idle g l = inr (l, refl)
  HeldBy-exec (done r) g l = inr (l, refl)
  HeldBy-exec (answered b) g l = inr (l, refl)
  HeldBy-exec (queried lo hi out) g l = inr (l, refl)
  HeldBy-exec (start op x) g l = inr (l, refl)
  HeldBy-exec (walk op x p c) g l = inr (l, refl)
  HeldBy-exec (seek x c) g l = inr (l, refl)
  HeldBy-exec (check x c) g l = inr (l, refl)
  HeldBy-exec (look x c) g l = inr (l, refl)
  HeldBy-exec (enter lo hi) g l = inr (l, refl)
  HeldBy-exec (skip lo hi c) g l = inr (l, refl)
  HeldBy-exec (scan lo hi c out) g l = inr (l, refl)
  HeldBy-exec (advance lo hi c out) g l = inr (l, refl)
  HeldBy-exec (lock_pred (put v o) x p c) g l = elim (Bool-cases (h.lock p)) [
    | inl e ↦ let z : h.lock a ≡ true = rw e at l in inr (z, refl)
    | inr e ↦
        let z : update h.lock p true a ≡ true = rw e at l in
        elim (took p z) [ inl m ↦ inl (rw e m) | inr w ↦ inr (w.1, refl) ]
  ]
  HeldBy-exec (lock_pred del x p c) g l = elim (Bool-cases (h.lock p)) [
    | inl e ↦ let z : h.lock a ≡ true = rw e at l in inr (z, refl)
    | inr e ↦
        let z : update h.lock p true a ≡ true = rw e at l in
        elim (took p z) [ inl m ↦ inl (rw e m) | inr w ↦ inr (w.1, refl) ]
  ]
  HeldBy-exec (lock_curr x p c) g l = elim (Bool-cases (h.lock c)) [
    | inl e ↦ let z : h.lock a ≡ true = rw e at l in rw e (same (a == p) (λ m. m) z)
    | inr e ↦
        let z : update h.lock c true a ≡ true = rw e at l in
        elim (took c z) [
          | inl m ↦ inl (rw e (ground (arith, m)))
          | inr w ↦ rw e (same (a == p) (λ m. ground (arith, m)) w.1)
        ]
  ]
  HeldBy-exec (grab v x p c) g l = elim (Bool-cases (h.lock c)) [
    | inl e ↦ let z : h.lock a ≡ true = rw e at l in rw e (same (a == p) (λ m. m) z)
    | inr e ↦
        let z : update h.lock c true a ≡ true = rw e at l in
        elim (took c z) [
          | inl m ↦ inl (rw e (ground (arith, m)))
          | inr w ↦ rw e (same (a == p) (λ m. ground (arith, m)) w.1)
        ]
  ]
  HeldBy-exec (test_pred (put v o) x p c) g l =
      same (a == p)
        (λ m. either (h.marked p) (retry_pred (put v o) x p) (test_curr (put v o) x p c) m m) l
  HeldBy-exec (test_curr (put v o) x p c) g l =
      same (a == p)
        (λ m. either (h.marked c) (retry_pred (put v o) x p) (test_link (put v o) x p c) m m) l
  HeldBy-exec (test_pred del x p c) g l =
      same ((a == p) || (a == c))
        (λ m. either (h.marked p) (retry_curr x p c) (test_curr del x p c) m m) l
  HeldBy-exec (test_curr del x p c) g l =
      same ((a == p) || (a == c))
        (λ m. either (h.marked c) (retry_curr x p c) (test_link del x p c) m m) l
  HeldBy-exec (test_link (put v o) x p c) g l =
      same (a == p)
        (λ m.
          either (h.next p == c) (valid (put v o) x p c (h.key c)) (retry_pred (put v o) x p)
            (either (h.key c == x) (recheck v o x p c) (link v o x p c) m m) m)
        l
  HeldBy-exec (test_link del x p c) g l =
      same ((a == p) || (a == c)) (λ m. either (h.next p == c) (take x p c) (retry_curr x p c) m m)
        l
  HeldBy-exec (recheck v o x p c) g l =
      same (a == p)
        (λ m.
          either (h.marked c) (retry_pred (put v o) x p) (if o then peek x p c else grab v x p c) m
            (either o (peek x p c) (grab v x p c) m m))
        l
  HeldBy-exec (peek x p c) g l = same (a == p) (λ m. m) l
  HeldBy-exec (fetch v x p c) g l = same ((a == p) || (a == c)) (λ m. m) l
  HeldBy-exec (store v x p c r) g l = same ((a == p) || (a == c)) (λ m. m) l
  HeldBy-exec (take x p c) g l = same ((a == p) || (a == c)) (λ m. m) l
  HeldBy-exec (after x p c r) g l = same ((a == p) || (a == c)) (λ m. m) l
  HeldBy-exec (mark x p c r next) g l = same ((a == p) || (a == c)) (λ m. m) l
  HeldBy-exec (unlink p c r next) g l = same ((a == p) || (a == c)) (λ m. m) l
  HeldBy-exec (link v o x p c) g l = elim (Bool-cases (n == a)) [
    | inl e ↦ let z : false ≡ true = rw e at l in absurd (ground (arith, z))
    | inr e ↦ let z : h.lock a ≡ true = rw e at l in same (a == p) (λ m. m) z
  ]
  HeldBy-exec (retry_curr x p c) g l = elim (Bool-cases (a == p)) [
    | inl e ↦ inl e
    | inr e ↦ inr (released c ((a == p) || (a == c)) l (λ d. ground (arith, d, e)))
  ]
  HeldBy-exec (free_curr p c r) g l = elim (Bool-cases (a == p)) [
    | inl e ↦ inl e
    | inr e ↦ inr (released c ((a == p) || (a == c)) l (λ d. ground (arith, d, e)))
  ]
  HeldBy-exec (retry_pred op x p) g l = inr (released p (a == p) l (λ d. d))
  HeldBy-exec (free_pred p r) g l = inr (released p (a == p) l (λ d. d))

-- A linked and marked node after an access: the thread is about to unlink it, or it was there before
-- and not the thread's.
module _ (max no_value : ℕ) (head : Ptr) (h : Nodes) (used : Ptr → Bool) (chain : List Ptr)
    (tidy : Tidy max head h used chain) (n : Ptr) where
  abbrev pub MarkedBy : Pc → Ptr → Type 0
  MarkedBy q a =
      let e = exec no_value head q n h in
      has a (head ∷ chain_after head q n chain) ≡ true
      → e.0.marked a ≡ true
      → (unlinks e.1 a ≡ true)
        ⊎ ((has a (head ∷ chain) ≡ true) × (h.marked a ≡ true) × (unlinks q a ≡ false))

  gone :
      (p c a : Ptr) (r : ℕ) (next : Ptr)
      → Good max head h chain (unlink p c r next)
      → has a (head ∷ drop_after head chain p) ≡ true
      → a ≡ c
      → ⊥
  gone p c a r next (a0, a1, a2, a3, a4, a5, a6) i z =
      let at_p = in_chain max head h used chain tidy p a0 a1 in
      let up = (linked max head h used chain tidy p a0 a1 a6).1 in
      let z' : a ≡ h.next p = z ∙ sym a2 in
      elim (Bool-cases (a == head)) [
        | inl e ↦
            let w : h.key (h.next p) ≡ h.key head = ap h.key (sym z' ∙ ==→≡ a head e) in
            elim (Bool-cases (p == head)) [
              | inl d ↦ omega (arith, up, w, ap h.key (==→≡ p head d))
              | inr d ↦
                  let k : has p chain ≡ true = rw d at at_p in
                  omega (arith, up, w, keys_rise max h.next h.key head chain p tidy.links k)
            ]
        | inr e ↦
            let k : has a (drop_after head chain p) ≡ true = rw e at i in
            ground (
              arith,
              k,
              ap (λ b. has b (drop_after head chain p)) z',
              drop_after-gone max h.next h.key head chain p tidy.links at_p up,
            )
      ]

  pub MarkedBy-exec : (q : Pc) (a : Ptr) → Good max head h chain q → MarkedBy q a
  unfolding exec
  MarkedBy-exec idle a g i m = inr (i, m, refl)
  MarkedBy-exec (done r) a g i m = inr (i, m, refl)
  MarkedBy-exec (answered b) a g i m = inr (i, m, refl)
  MarkedBy-exec (queried lo hi out) a g i m = inr (i, m, refl)
  MarkedBy-exec (start op x) a g i m = inr (i, m, refl)
  MarkedBy-exec (walk op x p c) a g i m = inr (i, m, refl)
  MarkedBy-exec (test_pred op x p c) a g i m = inr (i, m, refl)
  MarkedBy-exec (test_curr op x p c) a g i m = inr (i, m, refl)
  MarkedBy-exec (test_link op x p c) a g i m = inr (i, m, refl)
  MarkedBy-exec (retry_curr x p c) a g i m = inr (i, m, refl)
  MarkedBy-exec (retry_pred op x p) a g i m = inr (i, m, refl)
  MarkedBy-exec (recheck v o x p c) a g i m = inr (i, m, refl)
  MarkedBy-exec (peek x p c) a g i m = inr (i, m, refl)
  MarkedBy-exec (fetch v x p c) a g i m = inr (i, m, refl)
  MarkedBy-exec (store v x p c r) a g i m = inr (i, m, refl)
  MarkedBy-exec (take x p c) a g i m = inr (i, m, refl)
  MarkedBy-exec (after x p c r) a g i m = inr (i, m, refl)
  MarkedBy-exec (free_curr p c r) a g i m = inr (i, m, refl)
  MarkedBy-exec (free_pred p r) a g i m = inr (i, m, refl)
  MarkedBy-exec (seek x c) a g i m = inr (i, m, refl)
  MarkedBy-exec (check x c) a g i m = inr (i, m, refl)
  MarkedBy-exec (look x c) a g i m = inr (i, m, refl)
  MarkedBy-exec (enter lo hi) a g i m = inr (i, m, refl)
  MarkedBy-exec (skip lo hi c) a g i m = inr (i, m, refl)
  MarkedBy-exec (scan lo hi c out) a g i m = inr (i, m, refl)
  MarkedBy-exec (advance lo hi c out) a g i m = inr (i, m, refl)
  MarkedBy-exec (lock_pred op x p c) a g i m = elim (Bool-cases (h.lock p)) [
    | inl e ↦ let z : h.marked a ≡ true = rw e at m in inr (i, z, refl)
    | inr e ↦ let z : h.marked a ≡ true = rw e at m in inr (i, z, refl)
  ]
  MarkedBy-exec (lock_curr x p c) a g i m = elim (Bool-cases (h.lock c)) [
    | inl e ↦ let z : h.marked a ≡ true = rw e at m in inr (i, z, refl)
    | inr e ↦ let z : h.marked a ≡ true = rw e at m in inr (i, z, refl)
  ]
  MarkedBy-exec (grab v x p c) a g i m = elim (Bool-cases (h.lock c)) [
    | inl e ↦ let z : h.marked a ≡ true = rw e at m in inr (i, z, refl)
    | inr e ↦ let z : h.marked a ≡ true = rw e at m in inr (i, z, refl)
  ]
  MarkedBy-exec (link v o x p c) a g i m = elim (Bool-cases (n == a)) [
    | inl e ↦ let z : false ≡ true = rw e at m in absurd (ground (arith, z))
    | inr e ↦
        let z : h.marked a ≡ true = rw e at m in
        elim (in_put_from head chain p n a i) [
          | inl j ↦ inr (j, z, refl)
          | inr y ↦ absurd (ground (arith, e, y, ==-refl a))
        ]
  ]
  MarkedBy-exec (mark x p c r next) a g i m = elim (Bool-cases (c == a)) [
    | inl e ↦ inl (ground (arith, ==→≡ c a e, ==-refl a))
    | inr e ↦ let z : h.marked a ≡ true = rw e at m in inr (i, z, refl)
  ]
  MarkedBy-exec (unlink p c r next) a g i m = inr (
    in_drop_from head chain p a i,
    m,
    elim (Bool-cases (a == c)) [ inl e ↦ absurd (gone p c a r next g i (==→≡ a c e)) | inr e ↦ e ],
  )
