-- ===== src/Rq.antt =====
-- artifact/cpp/rq/rq_vcas.h: the versioned-CAS range query provider. This file has the memory
-- that its operations share. A camera is the field `timestamp`; an object is an address that
-- holds a pointer to a node; the node is itself the newest version of the object, with its time
-- stamp `ts` and the pointer `nextv` to the version before it.
--
-- Pointers and addresses are numbers, and 0 is NULL. The stamp TBD (-1 in the source) is a
-- constructor of its own: it is smaller than every stamp that a clock has shown.
pub mod Sequential
pub mod Interleaved
pub mod TryAdd
mod Examples
use vcaslib.Common.{ℕ, ◌≡◌, Bool, true, false, update, ltb}

abbrev pub Ptr : Type 0
Ptr = ℕ

abbrev pub Addr : Type 0
Addr = ℕ

abbrev pub null : Ptr
null = 0

pub data Stamp : Type 0 where
  tbd : Stamp
  at : ℕ → Stamp

pub record Mem : Type 0 where
  pub timestamp : ℕ
  pub field : Addr → Ptr
  pub ts : Ptr → Stamp
  pub nextv : Ptr → Ptr

-- `node->ts == TBD`
abbrev pub is_tbd : Stamp → Bool
is_tbd tbd = true
is_tbd (at n) = false

-- `node->ts > ts`
abbrev pub later : Stamp → ℕ → Bool
later tbd t = false
later (at n) t = ltb t n

-- The stores and the tick that the operations are made of.
abbrev pub set_ts : Mem → Ptr → Stamp → Mem
set_ts m p c = record m { ts = update m.ts p c }

abbrev pub set_nextv : Mem → Ptr → Ptr → Mem
set_nextv m p q = record m { nextv = update m.nextv p q }

abbrev pub set_field : Mem → Addr → Ptr → Mem
set_field m a p = record m { field = update m.field a p }

-- `init_node`
unfoldable pub init_node : Mem → Ptr → Mem
init_node m p = set_nextv (set_ts m p tbd) p null
