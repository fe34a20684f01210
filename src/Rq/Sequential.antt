-- ===== src/Rq/Sequential.antt =====
-- The operations of rq/rq_vcas.h as a caller sees them when no other thread runs: what each does
-- to the memory, and what it returns. `recmgr` (reclamation) and the counters kept under
-- VCAS_STATS are left out: they touch no field of `Mem`.
pub mod Laws
use vcaslib.Common.{
  ℕ, zero, suc, ◌+◌, ◌*◌, ◌/◌, ◌≡◌, Bool, true, false, Option, none, some, if◌then◌else◌, ◌==◌, ltb,
}
use vcaslib.Rq.{Ptr, Addr, null, Stamp, tbd, at, Mem, is_tbd, later, set_ts, set_nextv, set_field}

-- `initTS`, `initTSSimple`
unfoldable pub init_ts : Mem → Ptr → Mem
init_ts m p = if is_tbd (m.ts p) then set_ts m p (at m.timestamp) else m

unfoldable pub init_ts_simple : Mem → Ptr → Mem
init_ts_simple m p = if is_tbd (m.ts p) then set_ts m p (at 0) else m

-- `write_addr`
unfoldable pub write_addr : Mem → Addr → Ptr → Mem
unfolding init_ts_simple
write_addr m a v = let m' = set_field m a v in if v == null then m' else init_ts_simple m' v

-- `read_addr(tid, addr)`: `initTS` of what is there, unless it is NULL.
unfoldable pub stamp_head : Mem → Ptr → Mem
unfolding init_ts
stamp_head m head = if head == null then m else init_ts m head

unfoldable pub read_addr : Mem → Addr → Mem × Ptr
unfolding stamp_head
read_addr m a = let head = m.field a in (stamp_head m head, head)

-- The `while` of `read_addr(tid, addr, ts)`; `none` means that the fuel ran out.
unfoldable pub walk : ℕ → Mem → ℕ → Ptr → Option Ptr
walk zero m t head = none
walk (suc k) m t head =
    let rest = walk k m t (m.nextv head) in
    if head == null then some head else if later (m.ts head) t then rest else some head

-- `read_addr(tid, addr, ts)`
unfoldable pub read_version : ℕ → Mem → Addr → ℕ → Mem × Option Ptr
unfolding stamp_head walk
read_version k m a t = let head = m.field a in let m' = stamp_head m head in (m', walk k m' t head)

-- `linearize_update_at_cas`: the new memory and the local variable `res`.
unfoldable pub update_at_cas : Mem → Addr → (old new : Ptr) → Mem × Bool
unfolding stamp_head init_ts
update_at_cas m a old new =
    let head = m.field a in
    let m' = stamp_head m head in
    if head == old
    then (if new == old
        then (m', true)
        else (init_ts (set_field (set_nextv m' new old) a new) new, true))
    else (m', false)

-- `linearize_update_at_write`
unfoldable pub update_at_write : Mem → Addr → Ptr → Mem
unfolding write_addr
update_at_write m a new = write_addr m a new

-- The two clamps at the end of `takeSnapshot`.
unfoldable pub clamp_backoff : ℕ → ℕ
clamp_backoff b = let c = (if ltb b 1 then 1 else b) in if ltb 512 c then 512 else c

-- `takeSnapshot` with no other thread: both tests pass.
unfoldable pub take_snapshot : Mem → ℕ → Mem × ℕ × ℕ
unfolding clamp_backoff
take_snapshot m b = (record m { timestamp = m.timestamp + 1 }, m.timestamp, clamp_backoff (b / 2))
