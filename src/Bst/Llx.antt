-- ===== src/Bst/Llx.antt =====
-- LLX and SCX of bst/vcas_bst_impl.h over the descriptors of descriptors/descriptors_impl.h. What
-- the copies of the inserted and the deleted nodes are for, retirement, is left out, as is the
-- replacement of the thread's preallocated nodes after a commit. `assert(i > 0)` at a leaf, which
-- says that the first node is none, is left out, as it is by the NDEBUG of the builds.
pub mod Settled
pub mod Frozen
pub mod Alone
use vcaslib.Common.{
  ℕ, zero, suc, ◌+◌, ◌-◌, ◌/◌, ◌%◌, ◌≡◌, Bool, true, false, not, ◌&&◌, ◌||◌, Option, none, some,
  List, [], ◌∷◌, update, if◌then◌else◌, ◌==◌,
}
use vcaslib.Common.Arrays.{get_or}
use vcaslib.Rq.{Ptr, Addr, null}
use vcaslib.Rq.Sequential.{read_addr, update_at_cas}
use vcaslib.Descriptors.{
  unpack_seq, unpack_tid, tag_new, dummy_tag, leaf_tag, committed, aborted, mutables_new,
  all_frozen, state_of, write_state, write_all_frozen, read_state, renew,
}
use vcaslib.Bst.{Store, ScxRecord, left_of, right_of, read}

abbrev pub set_mutables : Store → (tid mutables : ℕ) → Store
set_mutables s tid mutables = record s {
  records = update s.records tid (record (s.records tid) { mutables = mutables });
}

-- The loop of `help` that freezes nodes, from index `i` on, with `n` rounds left. The second result
-- is the state with which `help` returns from inside the loop.
unfoldable pub freeze : ℕ → (i : ℕ) → Store → (tag : ℕ) → ScxRecord → Store × Option ℕ
unfolding write_state
freeze zero i s tag snap = (s, none)
freeze (suc n) i s tag snap =
    let expected = get_or snap.seen i 0 in
    let p = get_or snap.nodes i 0 in
    let found = s.scx_record p in
    let frozen = record s { scx_record = update s.scx_record p tag } in
    let leaf = expected == leaf_tag in
    let s' = if leaf then s else if found == expected then frozen else s in
    let rest = freeze n (i + 1) s' tag snap in
    let mutables = (s.records (unpack_tid tag)).mutables in
    let state = if all_frozen mutables then committed else aborted in
    if leaf
    then rest
    else if found == expected
    then rest
    else if found == tag
    then rest
    else if unpack_seq mutables == unpack_seq tag
    then (set_mutables s (unpack_tid tag) (write_state mutables snap.mutables state), some state)
    else (s, some aborted)

-- The loop of `help` that marks nodes.
unfoldable pub mark : ℕ → (i : ℕ) → Store → ScxRecord → Store
mark zero i s snap = s
mark (suc n) i s snap =
    mark n (i + 1)
      (if get_or snap.seen i 0 == leaf_tag
        then s
        else record s { marked = update s.marked (get_or snap.nodes i 0) true })
      snap

-- The end of `help`, where all nodes are frozen.
unfoldable pub commit : Store → (tag : ℕ) → ScxRecord → Store
unfolding write_state write_all_frozen mark update_at_cas
commit s tag snap =
    let tid = unpack_tid tag in
    let s1 = set_mutables s tid (write_all_frozen (s.records tid).mutables snap.mutables) in
    let s2 = mark (snap.nodes_to_freeze - 1) 1 s1 snap in
    let s3 = record s2 {
      mem = (update_at_cas s2.mem snap.target (get_or snap.nodes 1 0) snap.new_node).0;
    } in
    set_mutables s3 tid (write_state (s3.records tid).mutables snap.mutables committed)

-- How `help` goes on after the loop.
abbrev pub finish : Store × Option ℕ → (tag : ℕ) → ScxRecord → Store × ℕ
finish (s, some state) tag snap = (s, state)
finish (s, none) tag snap = (commit s tag snap, committed)

-- `help`: the new store, and the state that is returned. A helper does not freeze the first node.
unfoldable pub help : Store → (tag : ℕ) → ScxRecord → (helping_other : Bool) → Store × ℕ
unfolding freeze commit
help s tag snap true = finish (freeze (snap.nodes_to_freeze - 1) 1 s tag snap) tag snap
help s tag snap false = finish (freeze snap.nodes_to_freeze 0 s tag snap) tag snap

-- `helpOther`
unfoldable pub help_other : Store → (tag : ℕ) → Store
unfolding help
help_other s tag =
    let snap = s.records (unpack_tid tag) in
    if tag == dummy_tag
    then s
    else if unpack_seq snap.mutables == unpack_seq tag
    then (help s tag snap true).0
    else s

pub data Llx : Type 0 where
  failed : Llx
  is_leaf : (left right : Ptr) → Llx
  linked : (tag : ℕ) → (left right : Ptr) → Llx

-- The value that `llx` returns, as SCX keeps it.
abbrev pub seen_of : Llx → ℕ
seen_of failed = 0
seen_of (is_leaf left right) = leaf_tag
seen_of (linked tag left right) = tag

-- `llx`, if the node has not been frozen when the descriptor and the mark are read.
unfoldable pub llx_read : Store → Ptr → (tag : ℕ) → Store × Llx
unfolding help_other
llx_read s p tag =
    let (s1, left) = read s (left_of p) in
    let (s2, right) = read s1 (right_of p) in
    let tag2 = s2.scx_record p in
    if left == 0
    then (s2, is_leaf left right)
    else if tag == tag2
    then (s2, linked tag left right)
    else (help_other s2 tag2, failed)

-- `llx`; helping is not switched off (`shouldHelp`).
unfoldable pub llx : Store → Ptr → Store × Llx
unfolding help_other llx_read read_state
llx s p =
    let tag = s.scx_record p in
    let (current, read_value) = read_state (s.records (unpack_tid tag)).mutables tag in
    let state = if current then read_value else committed in
    if ((state % 2 == 1) && not (s.marked p)) || (state / 2 % 2 == 1)
    then llx_read s p tag
    else if state == 0
    then (help_other s tag, failed)
    else (help_other s (s.scx_record p), failed)

-- `scx`: whether it committed.
unfoldable pub scx :
    Store
    → (tid : ℕ) → (nodes : List Ptr) → (seen : List ℕ) → (nodes_to_freeze : ℕ) → (target : Addr)
    → (new_node : Ptr) → Store × Bool
unfolding help renew tag_new
scx s tid nodes seen nodes_to_freeze target new_node =
    let snap : ScxRecord = record {
      mutables = renew (s.records tid).mutables;
      new_node = new_node;
      target = target;
      nodes_to_freeze = nodes_to_freeze;
      nodes = nodes;
      seen = seen;
    } in
    let s1 = record s { records = update s.records tid snap } in
    let (s2, state) = help s1 (tag_new tid snap.mutables) snap false in (s2, state % 2 == 1)
