-- ===== src/Rq/Examples.antt =====
-- A run of the provider with three threads, and the theorems at its states: address 10 holds node 1,
-- thread 1 takes a snapshot, thread 0 replaces node 1 by node 2, and threads 2 and 3 read the
-- address at the time of the snapshot.
use vcaslib.Common.{
  not, ◌&&◌, update, Bool, some, ltb, set, ◌+◌, ℕ, ◌<◌, ◌≤◌, ◌≡◌, ◌≢◌, ◌⊎◌, refl, true, List, [],
  ◌∷◌, arith, if◌then◌else◌, ◌==◌,
}
use vcaslib.Rq.{Ptr, null, tbd, at, Mem, init_node}
use vcaslib.Rq.TryAdd.{Results, try_add, try_add-picked}
use vcaslib.Common.Arrays.{take}
use vcaslib.Rq.Sequential.{write_addr, read_version, stamp_head, init_ts}
use vcaslib.Rq.Sequential.Laws.{
  Runs, Stamped, Stable, stamps, read_addr_alone, update_at_cas_alone, read_version_alone,
}
use vcaslib.Rq.Interleaved.{
  update_load, updated, read_load, read_done, version_load, version_done, exec, adjust,
}
use vcaslib.Rq.Interleaved.Machine.{
  System, run, start, access, open_new, make_node, call_update, call_read_version, call_snapshot,
  Reach, here,
}
use vcaslib.Rq.Interleaved.History.{Linked, Stamps}
use vcaslib.Rq.Interleaved.Frozen.{version, version_at}
use vcaslib.Rq.Interleaved.Snapshots.{
  Later, now, after_step, Reach-Later, read_version-newest, read_version-repeatable, version-newest,
}
use vcaslib.Rq.Interleaved.Clock.{snapshot-lt-clock, backoff_bounds}
use vcaslib.Rq.Interleaved.Updates.{Same, Swapped, update_atomic, hist-sorted, init_ts-ne-null}

abbrev From : System → Type 0
From s = (t : System) × Later s t

abbrev turns : {s : System} → From s → List ℕ → From s
turns f [] = f
turns (t, l) (i ∷ is) = turns (run t i, after_step l (access i)) is

abbrev garbage : System
garbage = start (λ _. at 7) (λ _. 3)

-- Address 10 holds node 1; node 2 is made to replace it.
abbrev ready : From garbage
ready = (
  _,
  after_step (after_step now (open_new 10 1 refl (omega arith) refl))
      (make_node 2 10 1 refl (omega arith) refl),
)

-- Thread 1 has its snapshot: the time 1.
abbrev snapped : From garbage
snapped = turns (_, after_step ready.1 (call_snapshot 1)) (1 ∷ 1 ∷ 1 ∷ [])

abbrev replacing : From garbage
unfolding exec write_addr init_node adjust
replacing = turns (_, after_step snapped.1 (call_update 0 10 1 2 refl)) (0 ∷ 0 ∷ 0 ∷ 0 ∷ [])

abbrev replaced : From garbage
unfolding exec write_addr init_node adjust
replaced = turns replacing (0 ∷ 0 ∷ 0 ∷ 0 ∷ [])

-- Thread 2 has read the old version, and thread 3 reads it again.
abbrev read_once : From garbage
unfolding exec write_addr init_node adjust
read_once =
    turns (_, after_step replaced.1 (call_read_version 2 10 1 refl (omega arith)))
      (2 ∷ 2 ∷ 2 ∷ 2 ∷ [])

abbrev read_twice : From read_once.0
unfolding exec write_addr init_node adjust
read_twice =
    turns (_, after_step now (call_read_version 3 10 1 refl (omega arith))) (3 ∷ 3 ∷ 3 ∷ 3 ∷ [])

reach : {s : System} → Later garbage s → Reach s
reach l = Reach-Later (here _ _) l

run_result :
    (replaced.0.pc 0 ≡ updated true)
    × (replaced.0.hist 10 ≡ 2 ∷ 1 ∷ [])
    × (read_once.0.pc 2 ≡ version_done 10 1 1)
unfolding exec write_addr init_node adjust
run_result = (refl, refl, refl)

read_version-newest_example :
    (version_at read_once.0.world 10 1 ≡ 1) × (version_at read_twice.0.world 10 1 ≡ 1)
unfolding exec write_addr init_node adjust
read_version-newest_example =
    read_version-newest (Reach-Later (here _ _) read_once.1) 2 {a = 10} {u = 1} {p = 1} refl
      read_twice.1

read_version-repeatable_example : ◌≡◌ {A = Ptr} 1 1
unfolding exec write_addr init_node adjust
read_version-repeatable_example =
    read_version-repeatable (Reach-Later (here _ _) read_once.1) read_twice.1 2 3 {a = 10} {u = 1}
      {p = 1} {q = 1} refl refl

version-newest_example : (replaced.0.mem.field 10 ≡ 2) × (version_at replaced.0.world 10 5 ≡ 2)
unfolding exec write_addr init_node adjust
version-newest_example =
    version-newest (Reach-Later (here _ _) replaced.1) 10 {p = 2} {ps = 1 ∷ []} 5 refl (λ e. cc)
      (omega arith)

snapshot-lt-clock_example : 1 < snapped.0.mem.timestamp
unfolding exec write_addr init_node adjust
snapshot-lt-clock_example = snapshot-lt-clock (Reach-Later (here _ _) snapped.1) 1 {t = 1} refl

backoff_bounds_example : (1 ≤ snapped.0.backoff 1) × (snapped.0.backoff 1 ≤ 512)
unfolding exec write_addr init_node adjust
backoff_bounds_example = backoff_bounds (Reach-Later (here _ _) snapped.1) 1

update_atomic_example :
    Same replacing.0.world (run replacing.0 0).world 10
    ⊎ ((i : ℕ) × Swapped replacing.0.world (run replacing.0 0).world (replacing.0.pc i) 10)
unfolding exec write_addr init_node adjust
update_atomic_example = update_atomic (Reach-Later (here _ _) replacing.1) (access 0) 10 refl

hist-sorted_example :
    Linked replaced.0.mem.nextv 2 (2 ∷ 1 ∷ []) × Stamps replaced.0.mem.ts 2 (2 ∷ 1 ∷ [])
unfolding exec write_addr init_node adjust
hist-sorted_example = hist-sorted (Reach-Later (here _ _) replaced.1) 10

-- Before its compare-and-swap has its stamp, node 2 is the argument of `initTS`.
init_ts-ne-null_example : ◌≢◌ {A = Ptr} 2 0
unfolding exec write_addr init_node adjust
init_ts-ne-null_example =
    init_ts-ne-null (Reach-Later (here _ _) (turns replacing (0 ∷ [])).1) 0 {p = 2} refl

-- One thread alone: the same address and nodes.
abbrev small : Mem
small = record {
  timestamp = 4;
  field = λ a. if a == 10 then 1 else null;
  ts = λ p. if p == 1 then at 3 else tbd;
  nextv = λ p. null;
}

read_addr_alone_example :
    (o : Mem) × (Runs (read_load 10) small (read_done 1) o)
    × (Stable small o)
    × Stamped small o (λ q. not (1 == null) && (1 == q))
read_addr_alone_example = read_addr_alone small 10

update_at_cas_alone_example :
    (o : Mem) × (Runs (update_load 10 1 2) small (updated true) o)
    × (o.timestamp ≡ 4)
    × (o.field ≡ update small.field 10 2)
    × (o.nextv ≡ update small.nextv 2 1)
    × Stamped small o (stamps small 10 1 2)
update_at_cas_alone_example = update_at_cas_alone small 10 1 2

read_version_alone_example :
    Runs
      (version_load 10 3)
      small
      (version_done 10 3 (version (stamp_head small 1).ts 3 (1 ∷ [])))
      (read_version 2 small 10 3).0
unfolding stamp_head init_ts
read_version_alone_example =
    read_version_alone small 10 3 4 (1 ∷ []) (omega arith) (3, refl, omega arith, tt)

-- A node with the keys 5, 9 and 6, of which a query for keys below 8 takes two.
abbrev in_range : ℕ → Bool
in_range k = ltb k 8

abbrev get_keys : Results → ℕ → Results × ℕ
get_keys r start = (
  record {
    keys = set (set (set r.keys start 5) (start + 1) 9) (start + 2) 6;
    values = set (set (set r.values start 50) (start + 1) 90) (start + 2) 60;
  },
  3,
)

abbrev results : Results
results = record { keys = 1 ∷ 0 ∷ 0 ∷ 0 ∷ []; values = 10 ∷ 0 ∷ 0 ∷ 0 ∷ [] }

try_add-picked_example :
    (out : Results × ℕ) × (try_add in_range get_keys 100 8 results 1 ≡ some out)
    × ((out.1 ≡ 3)
        × (take out.1 out.0.keys ≡ 1 ∷ 5 ∷ 6 ∷ [])
        × (take out.1 out.0.values ≡ 10 ∷ 50 ∷ 60 ∷ []))
try_add-picked_example =
    try_add-picked in_range get_keys 100 8 results 1 (omega arith) (omega arith) (omega arith)
