-- ===== src/LazyList/Locks.antt =====
-- The locks of artifact/cpp/lazylist around one access of a thread: its own, and those of the others.
use vcaslib.Common.{
  ℕ, ◌≡◌, ◌⊎◌, refl, inl, inr, sym, subst, Bool, true, false, ◌||◌, List, [], update, if◌then◌else◌,
  ltb, leb, ◌==◌, ==→≡, ==-refl, Bool-cases, arith,
}
use vcaslib.Rq.{Ptr}
use vcaslib.LazyList.{
  Nodes, put, del, Pc, idle, done, answered, queried, start, walk, lock_pred, lock_curr, test_pred,
  test_curr, test_link, retry_curr, retry_pred, recheck, peek, grab, fetch, store, link, take,
  after, mark, unlink, free_curr, free_pred, seek, check, look, enter, skip, scan, advance, exec,
  try_add, arrive, valid,
}
use vcaslib.LazyList.Known.{known}
use vcaslib.LazyList.Good.{Good, holds}

pick :
    (b : Bool) (q q' : Pc) (a : Ptr)
    → holds (if b then q else q') a ≡ true
    → (holds q a ≡ true) ⊎ (holds q' a ≡ true)
pick true q q' a m = inl m
pick false q q' a m = inr m

merge : {P : Type 0} → P ⊎ P → P
merge (inl p) = p
merge (inr p) = p

no : {P : Type 0} → false ≡ true → P
no e = absurd (ground (arith, e))

module _ (max no_value : ℕ) (head : Ptr) (h : Nodes) (chain : List Ptr) (n a : Ptr) where
  abbrev Taken : Pc → Type 0
  Taken q = (holds q a ≡ true) ⊎ ((h.lock a ≡ false) × (known head h chain a ≡ true))

  -- What the thread holds after its access is locked.
  abbrev pub Own : Pc → Type 0
  Own q =
      let e = exec no_value head q n h in
      holds e.1 a ≡ true
      → (e.0.lock a ≡ true)
        × ((holds q a ≡ true) ⊎ ((h.lock a ≡ false) × (known head h chain a ≡ true)))

  -- What is locked and not its own stays locked.
  abbrev pub Others : Pc → Type 0
  Others q = holds q a ≡ false → (exec no_value head q n h).0.lock a ≡ true

  took :
      (p : Ptr)
      → known head h chain p ≡ true
      → h.lock p ≡ false
      → (a == p) ≡ true
      → (update h.lock p true a ≡ true) × ((h.lock a ≡ false) × (known head h chain a ≡ true))
  took p k e m =
      let z : a ≡ p = ==→≡ a p m in
      (
        rw (z, ==-refl p) refl,
        (
          subst (λ b. h.lock b ≡ false) (sym z) e,
          subst (λ b. known head h chain b ≡ true) (sym z) k,
        ),
      )

  kept : (p : Ptr) → h.lock a ≡ true → update h.lock p true a ≡ true
  kept p e = elim (Bool-cases (p == a)) [ inl d ↦ rw d refl | inr d ↦ rw d e ]

  freed : (p : Ptr) → (p == a) ≡ false → h.lock a ≡ true → update h.lock p false a ≡ true
  freed p d e = rw d e

  apart : (p c : Ptr) → (c == p) ≡ false → (a == p) ≡ true → (c == a) ≡ false
  apart p c d e = let z : a ≡ p = ==→≡ a p e in rw z d

  pub holds-exec :
      (q : Pc)
      → Good max head h chain q
      → (holds q a ≡ true → h.lock a ≡ true)
      → (holds q a ≡ true → (n == a) ≡ false)
      → Own q
  unfolding exec
  holds-exec idle g mine f m = no m
  holds-exec (done r) g mine f m = no m
  holds-exec (answered b) g mine f m = no m
  holds-exec (queried lo hi out) g mine f m = no m
  holds-exec (start op x) g mine f m = no m
  holds-exec (look x c) g mine f m = no m
  holds-exec (enter lo hi) g mine f m = no m
  holds-exec (advance lo hi c out) g mine f m = no m
  holds-exec (walk (put v o) x p c) g mine f m = no (
      merge
        (pick (ltb (h.key c) x) (walk (put v o) x c (h.next c)) (lock_pred (put v o) x p c) a m))
  holds-exec (walk del x p c) g mine f m =
      elim (pick (ltb (h.key c) x) (walk del x c (h.next c)) (arrive no_value del x p c (h.key c)) a
        m) [
          | inl z ↦ no z
          | inr z ↦ no (merge (pick (h.key c == x) (lock_pred del x p c) (done no_value) a z))
        ]
  holds-exec (seek x c) g mine f m =
      let rest = if h.key c == x then check x c else answered false in
      elim (pick (ltb (h.key c) x) (seek x (h.next c)) rest a m) [
        | inl z ↦ no z
        | inr z ↦ no (merge (pick (h.key c == x) (check x c) (answered false) a z))
      ]
  holds-exec (check x c) g mine f m = no (merge (pick (h.marked c) (answered false) (look x c) a m))
  holds-exec (skip lo hi c) g mine f m =
      no (merge (pick (ltb (h.key c) lo) (skip lo hi (h.next c)) (scan lo hi c []) a m))
  holds-exec (scan lo hi c out) g mine f m =
      let more = try_add lo hi (h.key c) (h.val c) out in
      no (merge (pick (leb (h.key c) hi) (advance lo hi c more) (queried lo hi out) a m))
  holds-exec (lock_pred (put v o) x p c) g mine f m = elim (Bool-cases (h.lock p)) [
    | inl e ↦ let z : false ≡ true = rw e at m in no z
    | inr e ↦
        let z : (a == p) ≡ true = rw e at m in let (l, new) = took p g.2 e z in rw e (l, inr new)
  ]
  holds-exec (lock_pred del x p c) g mine f m = elim (Bool-cases (h.lock p)) [
    | inl e ↦ let z : false ≡ true = rw e at m in no z
    | inr e ↦
        let z : (a == p) ≡ true = rw e at m in let (l, new) = took p g.2 e z in rw e (l, inr new)
  ]
  holds-exec (lock_curr x p c) g mine f m = elim (Bool-cases (h.lock c)) [
    | inl e ↦ let z : (a == p) ≡ true = rw e at m in rw e (mine z, inl z)
    | inr e ↦
        let z : (a == p) || (a == c) ≡ true = rw e at m in
        elim (Bool-cases (a == c)) [
          | inl d ↦ let (l, new) = took c g.3 e d in rw e (l, inr new)
          | inr d ↦ let w : (a == p) ≡ true = ground (arith, z, d) in rw e (kept c (mine w), inl w)
        ]
  ]
  holds-exec (test_pred (put v o) x p c) g mine f m =
      let z =
        merge (pick (h.marked p) (retry_pred (put v o) x p) (test_curr (put v o) x p c) a m) in
      (mine z, inl z)
  holds-exec (test_curr (put v o) x p c) g mine f m =
      let z =
        merge (pick (h.marked c) (retry_pred (put v o) x p) (test_link (put v o) x p c) a m) in
      (mine z, inl z)
  holds-exec (test_pred del x p c) g mine f m =
      let z = merge (pick (h.marked p) (retry_curr x p c) (test_curr del x p c) a m) in
      (mine z, inl z)
  holds-exec (test_curr del x p c) g mine f m =
      let z = merge (pick (h.marked c) (retry_curr x p c) (test_link del x p c) a m) in
      (mine z, inl z)
  holds-exec (test_link (put v o) x p c) g mine f m =
      let found = valid (put v o) x p c (h.key c) in
      let z : (a == p) ≡ true = elim (pick (h.next p == c) found (retry_pred (put v o) x p) a m) [
        | inl z ↦ merge (pick (h.key c == x) (recheck v o x p c) (link v o x p c) a z)
        | inr z ↦ z
      ] in
      (mine z, inl z)
  holds-exec (test_link del x p c) g mine f m =
      let z = merge (pick (h.next p == c) (take x p c) (retry_curr x p c) a m) in (mine z, inl z)
  holds-exec (retry_curr x p c) g mine f m =
      let z : (a == p) || (a == c) ≡ true = ground (arith, m) in
      (freed c (apart p c g.2 m) (mine z), inl z)
  holds-exec (retry_pred op x p) g mine f m = no m
  holds-exec (recheck v o x p c) g mine f m =
      let rest = if o then peek x p c else grab v x p c in
      let z : (a == p) ≡ true = elim (pick (h.marked c) (retry_pred (put v o) x p) rest a m) [
        | inl z ↦ z
        | inr z ↦ merge (pick o (peek x p c) (grab v x p c) a z)
      ] in
      (mine z, inl z)
  holds-exec (peek x p c) g mine f m = (mine m, inl m)
  holds-exec (grab v x p c) g mine f m = elim (Bool-cases (h.lock c)) [
    | inl e ↦ let z : (a == p) ≡ true = rw e at m in rw e (mine z, inl z)
    | inr e ↦
        let z : (a == p) || (a == c) ≡ true = rw e at m in
        elim (Bool-cases (a == c)) [
          | inl d ↦ let (l, new) = took c (g.0).1 e d in rw e (l, inr new)
          | inr d ↦ let w : (a == p) ≡ true = ground (arith, z, d) in rw e (kept c (mine w), inl w)
        ]
  ]
  holds-exec (fetch v x p c) g mine f m = (mine m, inl m)
  holds-exec (store v x p c r) g mine f m = (mine m, inl m)
  holds-exec (take x p c) g mine f m = (mine m, inl m)
  holds-exec (after x p c r) g mine f m = (mine m, inl m)
  holds-exec (mark x p c r next) g mine f m = (mine m, inl m)
  holds-exec (unlink p c r next) g mine f m = (mine m, inl m)
  holds-exec (link v o x p c) g mine f m = (rw (f m) (mine m), inl m)
  holds-exec (free_curr p c r) g mine f m =
      let z : (a == p) || (a == c) ≡ true = ground (arith, m) in
      (freed c (apart p c g m) (mine z), inl z)
  holds-exec (free_pred p r) g mine f m = no m

  -- A lock that another thread holds.
  pub locked-exec : (q : Pc) → h.lock a ≡ true → (n == a) ≡ false → Others q
  unfolding exec
  locked-exec idle l f m = l
  locked-exec (done r) l f m = l
  locked-exec (answered b) l f m = l
  locked-exec (queried lo hi out) l f m = l
  locked-exec (start op x) l f m = l
  locked-exec (walk op x p c) l f m = l
  locked-exec (test_pred op x p c) l f m = l
  locked-exec (test_curr op x p c) l f m = l
  locked-exec (test_link op x p c) l f m = l
  locked-exec (recheck v o x p c) l f m = l
  locked-exec (peek x p c) l f m = l
  locked-exec (fetch v x p c) l f m = l
  locked-exec (store v x p c r) l f m = l
  locked-exec (take x p c) l f m = l
  locked-exec (after x p c r) l f m = l
  locked-exec (mark x p c r next) l f m = l
  locked-exec (unlink p c r next) l f m = l
  locked-exec (seek x c) l f m = l
  locked-exec (check x c) l f m = l
  locked-exec (look x c) l f m = l
  locked-exec (enter lo hi) l f m = l
  locked-exec (skip lo hi c) l f m = l
  locked-exec (scan lo hi c out) l f m = l
  locked-exec (advance lo hi c out) l f m = l
  locked-exec (lock_pred op x p c) l f m = elim (Bool-cases (h.lock p)) [
    | inl e ↦ rw e l
    | inr e ↦ rw e (kept p l)
  ]
  locked-exec (lock_curr x p c) l f m = elim (Bool-cases (h.lock c)) [
    | inl e ↦ rw e l
    | inr e ↦ rw e (kept c l)
  ]
  locked-exec (grab v x p c) l f m = elim (Bool-cases (h.lock c)) [
    | inl e ↦ rw e l
    | inr e ↦ rw e (kept c l)
  ]
  locked-exec (link v o x p c) l f m = rw f l
  locked-exec (retry_curr x p c) l f m = freed c (ground (arith, m)) l
  locked-exec (retry_pred op x p) l f m = freed p (ground (arith, m)) l
  locked-exec (free_curr p c r) l f m = freed c (ground (arith, m)) l
  locked-exec (free_pred p r) l f m = freed p (ground (arith, m)) l
