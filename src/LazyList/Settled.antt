-- ===== src/LazyList/Settled.antt =====
-- artifact/cpp/lazylist between calls: what could be left undone there, by whom, and the state in
-- which every thread is at rest.
use vcaslib.Common.{
  ℕ, ◌<◌, ◌≡◌, refl, inl, inr, ap, Bool, true, false, List, [], ◌∷◌, has, update, ◌==◌, ==→≡,
  ==-refl, Bool-cases, arith,
}
use vcaslib.Rq.{Ptr}
use vcaslib.LazyList.{
  Pc, idle, done, answered, queried, start, walk, lock_pred, lock_curr, test_pred, test_curr,
  test_link, retry_curr, retry_pred, recheck, peek, grab, fetch, store, link, take, after, mark,
  unlink, free_curr, free_pred, seek, check, look, enter, skip, scan, advance, exec,
}
use vcaslib.LazyList.Machine.{
  System, access, update_call, contains_call, range_call, run, call, Reach, here, later, at_rest,
}
use vcaslib.LazyList.Good.{holds}
use vcaslib.LazyList.Quiet.{chain_after}
use vcaslib.LazyList.Invariant.{Inv, Inv-run, Inv-call, Inv-lazylist}
use vcaslib.LazyList.Known.{head-known}
use vcaslib.LazyList.Pending.{unlinks, HeldBy-exec, MarkedBy-exec}

pub record Pending (head : Ptr) (s : System) (chain : List Ptr) : Type 0 where
  pub locked : (a : Ptr) → s.heap.lock a ≡ true → (t : ℕ) × holds (s.pc t) a ≡ true
  pub marked :
      (a : Ptr)
      → has a (head ∷ chain) ≡ true
      → s.heap.marked a ≡ true
      → (t : ℕ) × unlinks (s.pc t) a ≡ true

busy : {A : Type 0} → false ≡ true → A
busy e = absurd (ground (arith, e))

-- Where a thread at rest stands, nothing is held.
rest-holds : (q : Pc) (a : Ptr) → at_rest q ≡ true → (holds q a ≡ false) × (unlinks q a ≡ false)
rest-holds idle a r = (refl, refl)
rest-holds (done v) a r = (refl, refl)
rest-holds (answered b) a r = (refl, refl)
rest-holds (queried lo hi out) a w = (refl, refl)
rest-holds (start op x) a w = busy w
rest-holds (walk op x p c) a w = busy w
rest-holds (lock_pred op x p c) a w = busy w
rest-holds (lock_curr x p c) a w = busy w
rest-holds (test_pred op x p c) a w = busy w
rest-holds (test_curr op x p c) a w = busy w
rest-holds (test_link op x p c) a w = busy w
rest-holds (retry_curr x p c) a w = busy w
rest-holds (retry_pred op x p) a w = busy w
rest-holds (recheck v o x p c) a w = busy w
rest-holds (peek x p c) a w = busy w
rest-holds (grab v x p c) a w = busy w
rest-holds (fetch v x p c) a w = busy w
rest-holds (store v x p c r) a w = busy w
rest-holds (link v o x p c) a w = busy w
rest-holds (take x p c) a w = busy w
rest-holds (after x p c r) a w = busy w
rest-holds (mark x p c r next) a w = busy w
rest-holds (unlink p c r next) a w = busy w
rest-holds (free_curr p c r) a w = busy w
rest-holds (free_pred p r) a w = busy w
rest-holds (seek x c) a w = busy w
rest-holds (check x c) a w = busy w
rest-holds (look x c) a w = busy w
rest-holds (enter lo hi) a w = busy w
rest-holds (skip lo hi c) a w = busy w
rest-holds (scan lo hi c out) a w = busy w
rest-holds (advance lo hi c out) a w = busy w

-- The thread of a property that another thread than `t` has.
elsewhere :
    (f : Pc → Bool) (pc : ℕ → Pc) (t : ℕ) (q : Pc)
    → f (pc t) ≡ false
    → (u : ℕ) × f (pc u) ≡ true
    → (u : ℕ) × f (update pc t q u) ≡ true
elsewhere f pc t q free (u, m) = elim (Bool-cases (t == u)) [
  | inl e ↦ absurd (ground (arith, free, m, ap (λ v. f (pc v)) (==→≡ t u e)))
  | inr e ↦ (u, rw e m)
]

here_now :
    (f : Pc → Bool) (pc : ℕ → Pc) (t : ℕ) (q : Pc)
    → f q ≡ true
    → (u : ℕ) × f (update pc t q u) ≡ true
here_now f pc t q m = (t, rw (==-refl t) m)

module _ (max no_value : ℕ) (head : Ptr) (s : System) (chain : List Ptr)
    (inv : Inv max head s chain) (pending : Pending head s chain) (t : ℕ) where
  Pending-run :
      (n : Ptr) → Pending head (run no_value head s t n) (chain_after head (s.pc t) n chain)
  Pending-run n = record {
    locked = λ a l. elim (HeldBy-exec max no_value head s.heap chain n a (s.pc t) (inv.good t) l) [
      | inl m ↦ here_now (λ q. holds q a) s.pc t (exec no_value head (s.pc t) n s.heap).1 m
      | inr w ↦
          elsewhere (λ q. holds q a) s.pc t (exec no_value head (s.pc t) n s.heap).1 w.1
            (pending.locked a w.0)
    ];
    marked = λ a i m.
        elim (MarkedBy-exec max no_value head s.heap s.used chain inv.tidy n (s.pc t) a (inv.good t)
          i m) [
            | inl w ↦ here_now (λ q. unlinks q a) s.pc t (exec no_value head (s.pc t) n s.heap).1 w
            | inr w ↦
                elsewhere (λ q. unlinks q a) s.pc t (exec no_value head (s.pc t) n s.heap).1 w.2
                  (pending.marked a w.0 w.1)
          ];
  }

  Pending-call : (p : Pc) → at_rest (s.pc t) ≡ true → Pending head (call s t p) chain
  Pending-call p rest = record {
    locked = λ a l.
        elsewhere (λ q. holds q a) s.pc t p (rest-holds (s.pc t) a rest).0 (pending.locked a l);
    marked = λ a i m.
        elsewhere (λ q. unlinks q a) s.pc t p (rest-holds (s.pc t) a rest).1 (pending.marked a i m);
  }

module _ (min max no_value : ℕ) (head last : Ptr) (ordered : min < max)
    (two : (head == last) ≡ false) where
  Reach-Pending :
      {s : System}
      → Reach min max no_value head last s
      → (chain : List Ptr) × (Inv max head s chain) × Pending head s chain
  Reach-Pending here = (
    last ∷ [],
    Inv-lazylist min max no_value head last ordered two,
    record {
      locked = λ a l. absurd (ground (arith, l));
      marked = λ a i m. absurd (ground (arith, m));
    },
  )
  Reach-Pending (later {s} r (access t n new)) =
      let (chain, inv, pending) = Reach-Pending r in
      (
        _,
        Inv-run max no_value head s chain inv t n new,
        Pending-run max no_value head s chain inv pending t n,
      )
  Reach-Pending (later {s} r (update_call t op x rest above below)) =
      let (chain, inv, pending) = Reach-Pending r in
      (
        chain,
        Inv-call max head s chain inv t (start op x) (above, below) (λ a. refl),
        Pending-call max no_value head s chain inv pending t (start op x) rest,
      )
  Reach-Pending (later {s} r (contains_call t x rest above below)) =
      let (chain, inv, pending) = Reach-Pending r in
      let k = head-known max head s.heap s.used chain inv.tidy in
      (
        chain,
        Inv-call max head s chain inv t (seek x head) (above, below, k) (λ a. refl),
        Pending-call max no_value head s chain inv pending t (seek x head) rest,
      )
  Reach-Pending (later {s} r (range_call t lo hi rest l h)) =
      let (chain, inv, pending) = Reach-Pending r in
      (
        chain,
        Inv-call max head s chain inv t (enter lo hi) (l, h) (λ a. refl),
        Pending-call max no_value head s chain inv pending t (enter lo hi) rest,
      )

  -- Everyone at rest.
  pub settled :
      {s : System}
      → Reach min max no_value head last s
      → ((t : ℕ) → at_rest (s.pc t) ≡ true)
      → (chain : List Ptr) × (Inv max head s chain)
        × ((a : Ptr) → s.heap.lock a ≡ false)
        × ((a : Ptr) → has a (head ∷ chain) ≡ true → s.heap.marked a ≡ false)
  settled {s} r rest =
      let (chain, inv, pending) = Reach-Pending r in
      (
        chain,
        inv,
        λ a. elim (Bool-cases (s.heap.lock a)) [
          | inl e ↦
              let (t, m) = pending.locked a e in
              absurd (ground (arith, m, (rest-holds (s.pc t) a (rest t)).0))
          | inr e ↦ e
        ],
        λ a i. elim (Bool-cases (s.heap.marked a)) [
          | inl e ↦
              let (t, m) = pending.marked a i e in
              absurd (ground (arith, m, (rest-holds (s.pc t) a (rest t)).1))
          | inr e ↦ e
        ],
      )
