-- ===== src/LazyList/Tasks.antt =====
-- The call of artifact/cpp/lazylist that a thread works on, which an access does not change.
use vcaslib.Common.{
  ℕ, ◌≡◌, ◌⊎◌, refl, inl, inr, true, false, Option, none, some, ltb, leb, ◌==◌, Bool-cases,
}
use vcaslib.Rq.{Ptr}
use vcaslib.LazyList.{
  Nodes, Op, put, del, Pc, idle, done, answered, queried, start, walk, lock_pred, lock_curr,
  test_pred, test_curr, test_link, retry_curr, retry_pred, recheck, peek, grab, fetch, store, link,
  take, after, mark, unlink, free_curr, free_pred, seek, check, look, enter, skip, scan, advance,
  exec,
}

-- The update and its key, until its answer is found.
abbrev pub task : Pc → Option (Op × ℕ)
task (start op x) = some (op, x)
task (walk op x p c) = some (op, x)
task (lock_pred op x p c) = some (op, x)
task (lock_curr x p c) = some (del, x)
task (test_pred op x p c) = some (op, x)
task (test_curr op x p c) = some (op, x)
task (test_link op x p c) = some (op, x)
task (retry_curr x p c) = some (del, x)
task (retry_pred op x p) = some (op, x)
task (recheck v o x p c) = some (put v o, x)
task (grab v x p c) = some (put v false, x)
task (fetch v x p c) = some (put v false, x)
task (store v x p c r) = some (put v false, x)
task (link v o x p c) = some (put v o, x)
task (take x p c) = some (del, x)
task (after x p c r) = some (del, x)
task (mark x p c r next) = some (del, x)
task _ = none

-- Before and after an access.
abbrev pub Kept : (before after : Pc) → Type 0
Kept q q' = (task q' ≡ task q) ⊎ (task q' ≡ none)

module _ (no_value : ℕ) (head : Ptr) (h : Nodes) (n : Ptr) where
  pub Kept-exec : (q : Pc) → Kept q (exec no_value head q n h).1
  unfolding exec
  Kept-exec idle = inl refl
  Kept-exec (done r) = inl refl
  Kept-exec (answered b) = inl refl
  Kept-exec (queried lo hi out) = inl refl
  Kept-exec (start op x) = inl refl
  Kept-exec (retry_curr x p c) = inl refl
  Kept-exec (retry_pred op x p) = inl refl
  Kept-exec (peek x p c) = inl refl
  Kept-exec (fetch v x p c) = inl refl
  Kept-exec (take x p c) = inl refl
  Kept-exec (after x p c r) = inl refl
  Kept-exec (unlink p c r next) = inl refl
  Kept-exec (free_curr p c r) = inl refl
  Kept-exec (free_pred p r) = inl refl
  Kept-exec (look x c) = inl refl
  Kept-exec (enter lo hi) = inl refl
  Kept-exec (advance lo hi c out) = inl refl
  Kept-exec (store v x p c r) = inr refl
  Kept-exec (link v o x p c) = inr refl
  Kept-exec (mark x p c r next) = inr refl
  Kept-exec (walk (put v o) x p c) = elim (Bool-cases (ltb (h.key c) x)) [
    | inl e ↦ inl (rw e refl)
    | inr e ↦ inl (rw e refl)
  ]
  Kept-exec (walk del x p c) = elim (Bool-cases (ltb (h.key c) x)) [
    | inl e ↦ inl (rw e refl)
    | inr e ↦ elim (Bool-cases (h.key c == x)) [
      | inl d ↦ inl (rw (e, d) refl)
      | inr d ↦ inr (rw (e, d) refl)
    ]
  ]
  Kept-exec (lock_pred (put v o) x p c) = elim (Bool-cases (h.lock p)) [
    | inl e ↦ inl (rw e refl)
    | inr e ↦ inl (rw e refl)
  ]
  Kept-exec (test_pred (put v o) x p c) = elim (Bool-cases (h.marked p)) [
    | inl e ↦ inl (rw e refl)
    | inr e ↦ inl (rw e refl)
  ]
  Kept-exec (test_curr (put v o) x p c) = elim (Bool-cases (h.marked c)) [
    | inl e ↦ inl (rw e refl)
    | inr e ↦ inl (rw e refl)
  ]
  Kept-exec (lock_pred del x p c) = elim (Bool-cases (h.lock p)) [
    | inl e ↦ inl (rw e refl)
    | inr e ↦ inl (rw e refl)
  ]
  Kept-exec (test_pred del x p c) = elim (Bool-cases (h.marked p)) [
    | inl e ↦ inl (rw e refl)
    | inr e ↦ inl (rw e refl)
  ]
  Kept-exec (test_curr del x p c) = elim (Bool-cases (h.marked c)) [
    | inl e ↦ inl (rw e refl)
    | inr e ↦ inl (rw e refl)
  ]
  Kept-exec (lock_curr x p c) = elim (Bool-cases (h.lock c)) [
    | inl e ↦ inl (rw e refl)
    | inr e ↦ inl (rw e refl)
  ]
  Kept-exec (grab v x p c) = elim (Bool-cases (h.lock c)) [
    | inl e ↦ inl (rw e refl)
    | inr e ↦ inl (rw e refl)
  ]
  Kept-exec (test_link del x p c) = elim (Bool-cases (h.next p == c)) [
    | inl e ↦ inl (rw e refl)
    | inr e ↦ inl (rw e refl)
  ]
  Kept-exec (test_link (put v o) x p c) = elim (Bool-cases (h.next p == c)) [
    | inl e ↦ elim (Bool-cases (h.key c == x)) [
      | inl d ↦ inl (rw (e, d) refl)
      | inr d ↦ inl (rw (e, d) refl)
    ]
    | inr e ↦ inl (rw e refl)
  ]
  Kept-exec (recheck v true x p c) = elim (Bool-cases (h.marked c)) [
    | inl e ↦ inl (rw e refl)
    | inr e ↦ inr (rw e refl)
  ]
  Kept-exec (recheck v false x p c) = elim (Bool-cases (h.marked c)) [
    | inl e ↦ inl (rw e refl)
    | inr e ↦ inl (rw e refl)
  ]
  Kept-exec (seek x c) = elim (Bool-cases (ltb (h.key c) x)) [
    | inl e ↦ inl (rw e refl)
    | inr e ↦ elim (Bool-cases (h.key c == x)) [
      | inl d ↦ inl (rw (e, d) refl)
      | inr d ↦ inl (rw (e, d) refl)
    ]
  ]
  Kept-exec (check x c) = elim (Bool-cases (h.marked c)) [
    | inl e ↦ inl (rw e refl)
    | inr e ↦ inl (rw e refl)
  ]
  Kept-exec (skip lo hi c) = elim (Bool-cases (ltb (h.key c) lo)) [
    | inl e ↦ inl (rw e refl)
    | inr e ↦ inl (rw e refl)
  ]
  Kept-exec (scan lo hi c out) = elim (Bool-cases (leb (h.key c) hi)) [
    | inl e ↦ inl (rw e refl)
    | inr e ↦ inl (rw e refl)
  ]
