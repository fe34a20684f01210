-- ===== src/Bst/Range.antt =====
-- Range queries of bst/vcas_bst_impl.h: a traversal that reads every child pointer at the time of a
-- snapshot, over the stack of recordmgr/blockbag.h and `traversal_try_add` of the provider. `none`
-- is an assertion that fails, or fuel that ran out.
use vcaslib.Common.{
  ℕ, zero, suc, Bool, true, false, not, ◌&&◌, ◌||◌, Option, none, some, set, if◌then◌else◌, ◌==◌,
  ltb,
}
use vcaslib.Rq.{Ptr, Addr, null}
use vcaslib.Rq.Sequential.{read_version, take_snapshot}
use vcaslib.Rq.TryAdd.{Results, try_add}
use vcaslib.RecordMgr.Block.{Block, is_empty, push, pop}
use vcaslib.Bst.{Store, left_of, right_of}
use vcaslib.Bst.Search.{◌>>=◌}

-- `isInRange`
unfoldable pub is_in_range : (no_key lo hi key : ℕ) → Bool
is_in_range no_key lo hi key = not (key == no_key) && (not (ltb key lo) && not (ltb hi key))

-- `getKeys`, where `left` is what its read of the left child has returned
unfoldable pub get_keys :
    (no_key : ℕ) → Store → (node left : Ptr) → Results → (start : ℕ) → Results × ℕ
get_keys no_key s node left r start =
    if (left == null) && not (s.key node == no_key)
    then (
      record { keys = set r.keys start (s.key node); values = set r.values start (s.value node) },
      1,
    )
    else (r, 0)

pub record Traversal : Type 0 where
  pub store : Store
  pub stack : Block
  pub results : Results
  pub size : ℕ

-- `rqProvider->read_addr(tid, addr, ts)`, with fuel for the walk
abbrev pub read_at : (k : ℕ) → Traversal → Addr → (ts : ℕ) → Option (Traversal × Ptr)
read_at k q a ts = do
  p ← (read_version k q.store.mem a ts).1
  some (record q { store = record (q.store) { mem = (read_version k q.store.mem a ts).0 } }, p)

abbrev pub push_if : Bool → Traversal → Ptr → Option Traversal
push_if false q p = some q
push_if true q p = do stack ← push q.stack p; some (record q { stack = stack })

module _ (no_key lo hi limit rq_size : ℕ) (k ts : ℕ) where
  -- The body of the loop for an internal node: the right child is read only if it is pushed.
  unfoldable pub explore : Traversal → (node left : Ptr) → Option Traversal
  unfolding read_version push
  explore q node left =
      let key = q.store.key node in
      let wanted = not (key == no_key) && not (ltb hi key) in
      let with_right = (do (q', right) ← read_at k q (right_of node) ts; push_if true q' right) in
      let right_done = if wanted then with_right else some q in
      do q' ← right_done; push_if ((key == no_key) || ltb lo key) q' left

  -- For a leaf: `traversal_try_add`.
  unfoldable pub add_leaf : Traversal → (node : Ptr) → Option Traversal
  unfolding read_version get_keys is_in_range try_add
  add_leaf q node = do
    (q', left) ← read_at k q (left_of node) ts
    (results, size) ←
        try_add (is_in_range no_key lo hi) (get_keys no_key q'.store node left) limit rq_size
          q'.results q'.size
    some (record q' { results = results; size = size })

  -- The loop, with `n` rounds left.
  unfoldable pub traverse : (n : ℕ) → Traversal → Option Traversal
  unfolding read_version explore add_leaf is_empty pop
  traverse zero q = if is_empty q.stack then some q else none
  traverse (suc n) q =
      let next = (do
        (stack, node) ← pop q.stack
        (q', left) ← read_at k (record q { stack = stack }) (left_of node) ts
        q'' ← (if left == null then add_leaf q' node else explore q' node left)
        traverse n q'') in
      if is_empty q.stack then some q else next

-- `rangeQuery`, with `b` for the thread's back-off, a new block as the stack, and the arrays of the
-- results; the number of results is `size`.
unfoldable pub range_query :
    (no_key : ℕ) (root : Ptr) (limit rq_size k n b : ℕ)
    → Store
    → (stack : Block) → Results
    → (lo hi : ℕ) → Option Traversal
unfolding take_snapshot push traverse
range_query no_key root limit rq_size k n b s stack results lo hi =
    let (m, ts, _) = take_snapshot s.mem b in
    do
      started ← push stack root
      traverse no_key lo hi limit rq_size k ts n
          (record { store = record s { mem = m }; stack = started; results = results; size = 0 })
