-- ===== src/LazyList.antt =====
-- artifact/cpp/lazylist: the lazy list, cut at its accesses to shared memory, over the provider of
-- rq/rq_unsafe.h, whose `read_addr`, `write_addr` and `linearize_update_at_write` are one access
-- each. `acquireLock` and `releaseLock` are those of common/locks_impl.h; the read in front of the
-- compare-and-swap of `acquireLock` decides nothing that the compare-and-swap does not decide again,
-- so that one access stands for both. A key does not change once its node is there, so that reading
-- it is no access of its own.
pub mod Chain
pub mod Machine
pub mod Known
pub mod Good
pub mod Quiet
pub mod Keeps
pub mod Locks
pub mod Writes
pub mod Linking
pub mod Access
pub mod Invariant
pub mod Content
pub mod Count
pub mod Effects
pub mod Tasks
pub mod Pending
pub mod Settled
pub mod Alone
pub mod Laws
mod Examples
use vcaslib.Common.{
  ℕ, ◌≡◌, Bool, true, false, not, ◌&&◌, List, [], ◌∷◌, update, if◌then◌else◌, ◌==◌, ltb, leb,
}
use vcaslib.Rq.{Ptr}

-- The fields of `node_t`.
pub record Nodes : Type 0 where
  pub key : Ptr → ℕ
  pub val : Ptr → ℕ
  pub next : Ptr → Ptr
  pub marked : Ptr → Bool
  pub lock : Ptr → Bool

-- `doInsert` of a value, with `onlyIfAbsent`, or `erase`.
pub data Op : Type 0 where
  put : (v : ℕ) → (only_if_absent : Bool) → Op
  del : Op

-- Where a thread stands, named for the access that comes next: `x` is the key, `p` and `c` are
-- `pred` and `curr`, `r` is the result.
pub data Pc : Type 0 where
  idle : Pc
  done : (r : ℕ) → Pc
  answered : Bool → Pc
  queried : (lo hi : ℕ) → List (ℕ × ℕ) → Pc
  -- the search of `doInsert` and `erase`, and the locks
  start : Op → (x : ℕ) → Pc
  walk : Op → (x : ℕ) → (p c : Ptr) → Pc
  lock_pred : Op → (x : ℕ) → (p c : Ptr) → Pc
  lock_curr : (x : ℕ) → (p c : Ptr) → Pc
  -- `validateLinks`
  test_pred : Op → (x : ℕ) → (p c : Ptr) → Pc
  test_curr : Op → (x : ℕ) → (p c : Ptr) → Pc
  test_link : Op → (x : ℕ) → (p c : Ptr) → Pc
  retry_curr : (x : ℕ) → (p c : Ptr) → Pc
  retry_pred : Op → (x : ℕ) → (p : Ptr) → Pc
  -- the rest of `doInsert`
  recheck : (v : ℕ) → Bool → (x : ℕ) → (p c : Ptr) → Pc
  peek : (x : ℕ) → (p c : Ptr) → Pc
  grab : (v x : ℕ) → (p c : Ptr) → Pc
  fetch : (v x : ℕ) → (p c : Ptr) → Pc
  store : (v x : ℕ) → (p c : Ptr) → (r : ℕ) → Pc
  link : (v : ℕ) → Bool → (x : ℕ) → (p c : Ptr) → Pc
  -- the rest of `erase`
  take : (x : ℕ) → (p c : Ptr) → Pc
  after : (x : ℕ) → (p c : Ptr) → (r : ℕ) → Pc
  mark : (x : ℕ) → (p c : Ptr) → (r : ℕ) → (next : Ptr) → Pc
  unlink : (p c : Ptr) → (r : ℕ) → (next : Ptr) → Pc
  free_curr : (p c : Ptr) → (r : ℕ) → Pc
  free_pred : (p : Ptr) → (r : ℕ) → Pc
  -- `contains`
  seek : (x : ℕ) → (c : Ptr) → Pc
  check : (x : ℕ) → (c : Ptr) → Pc
  look : (x : ℕ) → (c : Ptr) → Pc
  -- `rangeQuery`; the results are kept newest first
  enter : (lo hi : ℕ) → Pc
  skip : (lo hi : ℕ) → (c : Ptr) → Pc
  scan : (lo hi : ℕ) → (c : Ptr) → List (ℕ × ℕ) → Pc
  advance : (lo hi : ℕ) → (c : Ptr) → List (ℕ × ℕ) → Pc

abbrev pub set_lock : Nodes → Ptr → Bool → Nodes
set_lock h a b = record h { lock = update h.lock a b }

-- `new_node`, and the write that links it: no other thread can see the node in between.
abbrev pub link_new : Nodes → (n : Ptr) → (x v : ℕ) → (p c : Ptr) → Nodes
link_new h n x v p c = record {
  key = update h.key n x;
  val = update h.val n v;
  next = update (update h.next n c) p n;
  marked = update h.marked n false;
  lock = update h.lock n false;
}

module _ (no_value : ℕ) where
  -- The end of a search at a node with key `k`.
  abbrev pub arrive : Op → (x : ℕ) → (p c : Ptr) → (k : ℕ) → Pc
  arrive (put v o) x p c k = lock_pred (put v o) x p c
  arrive del x p c k = if k == x then lock_pred del x p c else done no_value

-- After the first lock; `erase` takes both before it validates.
abbrev pub locked : Op → (x : ℕ) → (p c : Ptr) → Pc
locked (put v o) x p c = test_pred (put v o) x p c
locked del x p c = lock_curr x p c

-- After `validateLinks`.
abbrev pub failed : Op → (x : ℕ) → (p c : Ptr) → Pc
failed (put v o) x p c = retry_pred (put v o) x p
failed del x p c = retry_curr x p c

abbrev pub valid : Op → (x : ℕ) → (p c : Ptr) → (k : ℕ) → Pc
valid (put v o) x p c k = if k == x then recheck v o x p c else link v o x p c
valid del x p c k = take x p c

-- `isInRange`, and `traversal_try_add` without its assertions, which NDEBUG leaves out.
abbrev pub is_in_range : (key lo hi : ℕ) → Bool
is_in_range key lo hi = leb lo key && leb key hi

abbrev pub try_add : (lo hi key val : ℕ) → List (ℕ × ℕ) → List (ℕ × ℕ)
try_add lo hi key val out = if is_in_range key lo hi then (key, val) ∷ out else out

-- One access of a thread. `n` is the node that the allocator would hand out.
module _ (no_value : ℕ) (head : Ptr) where
  unfoldable pub exec : Pc → (n : Ptr) → Nodes → Nodes × Pc
  exec idle n h = (h, idle)
  exec (done r) n h = (h, done r)
  exec (answered b) n h = (h, answered b)
  exec (queried lo hi out) n h = (h, queried lo hi out)
  exec (start op x) n h = (h, walk op x head (h.next head))
  exec (walk op x p c) n h =
      (h, if ltb (h.key c) x then walk op x c (h.next c) else arrive no_value op x p c (h.key c))
  exec (lock_pred op x p c) n h =
      if h.lock p then (h, lock_pred op x p c) else (set_lock h p true, locked op x p c)
  exec (lock_curr x p c) n h =
      if h.lock c then (h, lock_curr x p c) else (set_lock h c true, test_pred del x p c)
  exec (test_pred op x p c) n h = (h, if h.marked p then failed op x p c else test_curr op x p c)
  exec (test_curr op x p c) n h = (h, if h.marked c then failed op x p c else test_link op x p c)
  exec (test_link op x p c) n h =
      (h, if h.next p == c then valid op x p c (h.key c) else failed op x p c)
  exec (retry_curr x p c) n h = (set_lock h c false, retry_pred del x p)
  exec (retry_pred op x p) n h = (set_lock h p false, start op x)
  exec (recheck v o x p c) n h =
      (h, if h.marked c then retry_pred (put v o) x p else if o then peek x p c else grab v x p c)
  exec (peek x p c) n h = (h, free_pred p (h.val c))
  exec (grab v x p c) n h =
      if h.lock c then (h, grab v x p c) else (set_lock h c true, fetch v x p c)
  exec (fetch v x p c) n h = (h, store v x p c (h.val c))
  exec (store v x p c r) n h = (record h { val = update h.val c v }, free_curr p c r)
  exec (link v o x p c) n h = (link_new h n x v p c, free_pred p no_value)
  exec (take x p c) n h = (h, after x p c (h.val c))
  exec (after x p c r) n h = (h, mark x p c r (h.next c))
  exec (mark x p c r next) n h = (record h { marked = update h.marked c true }, unlink p c r next)
  exec (unlink p c r next) n h = (record h { next = update h.next p next }, free_curr p c r)
  exec (free_curr p c r) n h = (set_lock h c false, free_pred p r)
  exec (free_pred p r) n h = (set_lock h p false, done r)
  exec (seek x c) n h = (
    h,
    if ltb (h.key c) x
        then seek x (h.next c)
        else if h.key c == x
        then check x c
        else answered false,
  )
  exec (check x c) n h = (h, if h.marked c then answered false else look x c)
  exec (look x c) n h = (h, answered (not (h.val c == no_value)))
  exec (enter lo hi) n h = (h, skip lo hi (h.next head))
  exec (skip lo hi c) n h = (h, if ltb (h.key c) lo then skip lo hi (h.next c) else scan lo hi c [])
  exec (scan lo hi c out) n h = (
    h,
    if leb (h.key c) hi
        then advance lo hi c (try_add lo hi (h.key c) (h.val c) out)
        else queried lo hi out,
  )
  exec (advance lo hi c out) n h = (h, scan lo hi (h.next c) out)
