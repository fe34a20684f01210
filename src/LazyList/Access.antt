-- ===== src/LazyList/Access.antt =====
-- One access of a thread of artifact/cpp/lazylist, for the store and for the other threads.
use vcaslib.Common.{
  ℕ, ◌≡◌, refl, inl, inr, Bool, true, false, List, update, if◌then◌else◌, ◌==◌, ==→≡, ==-refl,
  Bool-cases, arith,
}
use vcaslib.Rq.{Ptr}
use vcaslib.LazyList.{
  Nodes, Pc, idle, done, answered, queried, start, walk, lock_pred, lock_curr, test_pred, test_curr,
  test_link, retry_curr, retry_pred, recheck, peek, grab, fetch, store, link, take, after, mark,
  unlink, free_curr, free_pred, seek, check, look, enter, skip, scan, advance, exec, set_lock,
}
use vcaslib.LazyList.Machine.{allocates}
use vcaslib.LazyList.Known.{Tidy}
use vcaslib.LazyList.Good.{Good, holds}
use vcaslib.LazyList.Quiet.{chain_after}
use vcaslib.LazyList.Keeps.{Keeps}
use vcaslib.LazyList.Writes.{Keeps-refl, Tidy-store, Keeps-store, Tidy-mark, Keeps-mark}
use vcaslib.LazyList.Linking.{Tidy-link, Keeps-link, Tidy-unlink, Keeps-unlink}

relock :
    (max : ℕ) (head : Ptr) (h : Nodes) (used : Ptr → Bool) (chain : List Ptr) (a : Ptr) (b : Bool)
    → Tidy max head h used chain
    → Tidy max head (set_lock h a b) used chain
relock max head h used chain a b tidy = record {
  links = tidy.links;
  low = tidy.low;
  tails = tidy.tails;
  taken = tidy.taken;
}

Keeps-relock :
    (max : ℕ) (head : Ptr) (h : Nodes) (chain : List Ptr) (a : Ptr) (b : Bool) (others : Ptr → Bool)
    → Keeps max head h (set_lock h a b) chain chain others
Keeps-relock max head h chain a b others = record {
  keys = λ n k. refl;
  stays = λ n k. k;
  own = λ n m k. (refl, refl, refl);
  behind = λ n m k u l. refl;
}

swap : (b a : Ptr) → (a == b) ≡ false → (b == a) ≡ false
swap b a e = elim (Bool-cases (b == a)) [
  | inl d ↦ absurd (ground (arith, e, ==→≡ b a d))
  | inr d ↦ d
]

module _ (max no_value : ℕ) (head : Ptr) (h : Nodes) (used : Ptr → Bool) (chain : List Ptr)
    (tidy : Tidy max head h used chain) (n : Ptr) (new : used n ≡ false) where
  pub Tidy-exec :
      (q : Pc)
      → Good max head h chain q
      → Tidy max head
          (exec no_value head q n h).0
          (if allocates q then update used n true else used)
          (chain_after head q n chain)
  unfolding exec
  Tidy-exec idle g = tidy
  Tidy-exec (done r) g = tidy
  Tidy-exec (answered b) g = tidy
  Tidy-exec (queried lo hi out) g = tidy
  Tidy-exec (start op x) g = tidy
  Tidy-exec (walk op x p c) g = tidy
  Tidy-exec (test_pred op x p c) g = tidy
  Tidy-exec (test_curr op x p c) g = tidy
  Tidy-exec (test_link op x p c) g = tidy
  Tidy-exec (recheck v o x p c) g = tidy
  Tidy-exec (peek x p c) g = tidy
  Tidy-exec (fetch v x p c) g = tidy
  Tidy-exec (take x p c) g = tidy
  Tidy-exec (after x p c r) g = tidy
  Tidy-exec (seek x c) g = tidy
  Tidy-exec (check x c) g = tidy
  Tidy-exec (look x c) g = tidy
  Tidy-exec (enter lo hi) g = tidy
  Tidy-exec (skip lo hi c) g = tidy
  Tidy-exec (scan lo hi c out) g = tidy
  Tidy-exec (advance lo hi c out) g = tidy
  Tidy-exec (lock_pred op x p c) g = elim (Bool-cases (h.lock p)) [
    | inl e ↦ rw e tidy
    | inr e ↦ rw e (relock max head h used chain p true tidy)
  ]
  Tidy-exec (lock_curr x p c) g = elim (Bool-cases (h.lock c)) [
    | inl e ↦ rw e tidy
    | inr e ↦ rw e (relock max head h used chain c true tidy)
  ]
  Tidy-exec (grab v x p c) g = elim (Bool-cases (h.lock c)) [
    | inl e ↦ rw e tidy
    | inr e ↦ rw e (relock max head h used chain c true tidy)
  ]
  Tidy-exec (retry_curr x p c) g = relock max head h used chain c false tidy
  Tidy-exec (retry_pred op x p) g = relock max head h used chain p false tidy
  Tidy-exec (free_curr p c r) g = relock max head h used chain c false tidy
  Tidy-exec (free_pred p r) g = relock max head h used chain p false tidy
  Tidy-exec (store v x p c r) g = Tidy-store max head h used chain tidy c v
  Tidy-exec (mark x p c r next) g =
      let ((held, b, d), _, _) = g in
      Tidy-mark max head h used chain tidy c held.1 d (omega (arith, b, held.5))
  Tidy-exec (link v o x p c) ((a0, a1, a2, a3, a4, a5, a6), above) =
      Tidy-link max head h used chain tidy p c a0 a2 (omega (arith, a4, a5)) a3 n x v new a4 above
  Tidy-exec (unlink p c r next) (a0, a1, a2, a3, a4, a5, a6) =
      Tidy-unlink max head h used chain tidy p c a0 a1 a6 a2 next a4 a3 a5

  pub Keeps-exec :
      (others : Ptr → Bool) (q : Pc)
      → Good max head h chain q
      → ((a : Ptr) → others a ≡ true → holds q a ≡ false)
      → Keeps max head h (exec no_value head q n h).0 chain (chain_after head q n chain) others
  unfolding exec
  Keeps-exec others idle g apart = Keeps-refl max head h used chain tidy others
  Keeps-exec others (done r) g apart = Keeps-refl max head h used chain tidy others
  Keeps-exec others (answered b) g apart = Keeps-refl max head h used chain tidy others
  Keeps-exec others (queried lo hi out) g apart = Keeps-refl max head h used chain tidy others
  Keeps-exec others (start op x) g apart = Keeps-refl max head h used chain tidy others
  Keeps-exec others (walk op x p c) g apart = Keeps-refl max head h used chain tidy others
  Keeps-exec others (test_pred op x p c) g apart = Keeps-refl max head h used chain tidy others
  Keeps-exec others (test_curr op x p c) g apart = Keeps-refl max head h used chain tidy others
  Keeps-exec others (test_link op x p c) g apart = Keeps-refl max head h used chain tidy others
  Keeps-exec others (recheck v o x p c) g apart = Keeps-refl max head h used chain tidy others
  Keeps-exec others (peek x p c) g apart = Keeps-refl max head h used chain tidy others
  Keeps-exec others (fetch v x p c) g apart = Keeps-refl max head h used chain tidy others
  Keeps-exec others (take x p c) g apart = Keeps-refl max head h used chain tidy others
  Keeps-exec others (after x p c r) g apart = Keeps-refl max head h used chain tidy others
  Keeps-exec others (seek x c) g apart = Keeps-refl max head h used chain tidy others
  Keeps-exec others (check x c) g apart = Keeps-refl max head h used chain tidy others
  Keeps-exec others (look x c) g apart = Keeps-refl max head h used chain tidy others
  Keeps-exec others (enter lo hi) g apart = Keeps-refl max head h used chain tidy others
  Keeps-exec others (skip lo hi c) g apart = Keeps-refl max head h used chain tidy others
  Keeps-exec others (scan lo hi c out) g apart = Keeps-refl max head h used chain tidy others
  Keeps-exec others (advance lo hi c out) g apart = Keeps-refl max head h used chain tidy others
  Keeps-exec others (lock_pred op x p c) g apart = elim (Bool-cases (h.lock p)) [
    | inl e ↦ rw e (Keeps-refl max head h used chain tidy others)
    | inr e ↦ rw e (Keeps-relock max head h chain p true others)
  ]
  Keeps-exec others (lock_curr x p c) g apart = elim (Bool-cases (h.lock c)) [
    | inl e ↦ rw e (Keeps-refl max head h used chain tidy others)
    | inr e ↦ rw e (Keeps-relock max head h chain c true others)
  ]
  Keeps-exec others (grab v x p c) g apart = elim (Bool-cases (h.lock c)) [
    | inl e ↦ rw e (Keeps-refl max head h used chain tidy others)
    | inr e ↦ rw e (Keeps-relock max head h chain c true others)
  ]
  Keeps-exec others (retry_curr x p c) g apart = Keeps-relock max head h chain c false others
  Keeps-exec others (retry_pred op x p) g apart = Keeps-relock max head h chain p false others
  Keeps-exec others (free_curr p c r) g apart = Keeps-relock max head h chain c false others
  Keeps-exec others (free_pred p r) g apart = Keeps-relock max head h chain p false others
  Keeps-exec others (store v x p c r) g apart =
      Keeps-store max head h used chain tidy c v others
        (λ a m. swap c a (ground (arith, apart a m)))
  Keeps-exec others (mark x p c r next) g apart =
      let ((held, b, d), _, _) = g in
      Keeps-mark max head h used chain tidy p c others held.0 held.2 (omega (arith, held.4, held.5))
        held.3
        (λ a m.
          (swap c a (ground (arith, apart a m)), λ e. ground (arith, apart a m, e, ==-refl a)))
  Keeps-exec others (link v o x p c) ((a0, a1, a2, a3, a4, a5, a6), above) apart =
      Keeps-link max head h used chain tidy p c a0 a2 (omega (arith, a4, a5)) a3 n x v new others
        (λ a m. swap p a (apart a m))
  Keeps-exec others (unlink p c r next) (a0, a1, a2, a3, a4, a5, a6) apart =
      Keeps-unlink max head h used chain tidy p c a0 a1 a6 a2 next a4 a3 a5 others
        (λ a m. swap p a (ground (arith, apart a m)))
