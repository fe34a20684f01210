-- ===== src/Rq/Interleaved.antt =====
-- The operations of rq/rq_vcas.h cut at their accesses to shared memory, so that threads may
-- interleave: `Pc` says where a thread stands, with the local variables that are live there, and
-- `exec` does its next access. Accesses are sequentially consistent.
pub mod Machine
pub mod History
pub mod Inv
pub mod Keeps
pub mod Frozen
pub mod Snapshots
pub mod Clock
pub mod Updates
use vcaslib.Common.{ℕ, ◌+◌, ◌*◌, ◌/◌, Bool, true, false, if◌then◌else◌, ◌==◌, ltb}
use vcaslib.Rq.{Ptr, Addr, null, Stamp, tbd, at, Mem, is_tbd, later, set_ts, set_nextv, set_field}
use vcaslib.Rq.Sequential.{clamp_backoff}

-- What follows a call of `initTS`.
pub data Cont : Type 0 where
  to_compare : (old new : Ptr) → Cont  -- `if(head != lin_oldval)`
  to_win : Cont  -- the end of the branch `if(res)`
  to_lose : Cont  -- the end of its `else`
  to_read : Cont  -- `return head` of `read_addr(tid, addr)`
  to_walk : (t : ℕ) → Cont  -- the `while` of `read_addr(tid, addr, ts)`

pub data Pc : Type 0 where
  idle : Pc
  -- linearize_update_at_cas
  update_load : (a : Addr) (old new : Ptr) → Pc
  update_compare : (a : Addr) (old new head : Ptr) → Pc
  update_link : (a : Addr) (old new : Ptr) → Pc
  update_cas : (a : Addr) (old new : Ptr) → Pc
  update_reload : (a : Addr) → Pc
  updated : (res : Bool) → Pc
  -- initTS
  init_test : (a : Addr) (p : Ptr) (k : Cont) → Pc
  init_clock : (a : Addr) (p : Ptr) (k : Cont) → Pc
  init_cas : (a : Addr) (p : Ptr) (cur : ℕ) (k : Cont) → Pc
  -- the two forms of read_addr
  read_load : (a : Addr) → Pc
  read_done : (p : Ptr) → Pc
  version_load : (a : Addr) (t : ℕ) → Pc
  version_walk : (a : Addr) (t : ℕ) (p : Ptr) → Pc
  version_done : (a : Addr) (t : ℕ) (p : Ptr) → Pc
  -- takeSnapshot
  snapshot_load : Pc
  snapshot_test : (t : ℕ) → Pc
  snapshot_add : (t : ℕ) → Pc
  snapshot_done : (t : ℕ) → Pc

unfoldable pub resume : Addr → Ptr → Cont → Pc
resume a p (to_compare old new) = update_compare a old new p
resume a p to_win = updated true
resume a p to_lose = updated false
resume a p to_read = read_done p
resume a p (to_walk t) = version_walk a t p

-- `if(head != NULL) initTS(head);`
unfoldable pub init_head : Addr → Ptr → Cont → Pc
unfolding resume
init_head a p k = if p == null then resume a p k else init_test a p k

-- One access of a thread that stands at a point of the code. A thread that has finished, or has
-- not begun, does nothing here.
unfoldable pub exec : Pc → Mem → Mem × Pc
unfolding init_head
exec (update_load a old new) m = (m, init_head a (m.field a) (to_compare old new))
exec (update_compare a old new head) m = (
  m,
  if head == old
      then (if new == old then updated true else update_link a old new)
      else updated false,
)
exec (update_link a old new) m = (set_nextv m new old, update_cas a old new)
exec (update_cas a old new) m =
    if m.field a == old then (set_field m a new, init_test a new to_win) else (m, update_reload a)
exec (update_reload a) m = (m, init_test a (m.field a) to_lose)
exec (init_test a p k) m = (m, if is_tbd (m.ts p) then init_clock a p k else resume a p k)
exec (init_clock a p k) m = (m, init_cas a p m.timestamp k)
exec (init_cas a p cur k) m = (if is_tbd (m.ts p) then set_ts m p (at cur) else m, resume a p k)
exec (read_load a) m = (m, init_head a (m.field a) to_read)
exec (version_load a t) m = (m, init_head a (m.field a) (to_walk t))
exec (version_walk a t p) m = (
  m,
  if p == null
      then version_done a t p
      else if later (m.ts p) t
      then version_walk a t (m.nextv p)
      else version_done a t p,
)
exec snapshot_load m = (m, snapshot_test m.timestamp)
exec (snapshot_test t) m = (m, if t == m.timestamp then snapshot_add t else snapshot_done t)
exec (snapshot_add t) m = (record m { timestamp = m.timestamp + 1 }, snapshot_done t)
exec p m = (m, p)

-- The thread-local `backoff_amount`: halved if the add of `takeSnapshot` returned the time that
-- was read, doubled if it returned another, and clamped at the end of the call either way.
unfoldable pub adjust : Pc → Mem → ℕ → ℕ
unfolding clamp_backoff
adjust (snapshot_test t) m b = if t == m.timestamp then b else clamp_backoff b
adjust (snapshot_add t) m b = clamp_backoff (if m.timestamp == t then b / 2 else b * 2)
adjust _ m b = b
