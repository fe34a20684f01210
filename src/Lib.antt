-- ===== src/Lib.antt =====
-- Verification of the C++ part of the artifact (artifact/cpp): linearizable range queries by
-- versioned compare-and-swap objects, the search tree over them, and the containers below its memory
-- reclamation.
--
-- Parts of the program and the files here:
--   artifact/cpp/rq/rq_vcas.h (with the fields `ts` and `nextv` of artifact/cpp/bst/vcas_node.h)
--     Rq.antt: the memory: the camera `timestamp`, addresses that hold nodes, the stamp and the
--       previous version of a node. `init_node` is `init_node`.
--     Rq/Sequential.antt: each operation as a function of the memory: `init_ts` is `initTS`,
--       `init_ts_simple` `initTSSimple`, `write_addr`, `read_addr` and `read_version` are
--       `write_addr` and the two forms of `read_addr`, `update_at_cas` is
--       `linearize_update_at_cas`, `update_at_write` the write of `linearize_update_at_write`,
--       `take_snapshot` is `takeSnapshot`.
--     Rq/TryAdd.antt: `traversal_try_add`, over arguments for the data structure's `getKeys` and
--       `isInRange`.
--     Rq/Interleaved.antt: the same operations cut at their accesses to shared memory (`Pc`,
--       `exec`); Rq/Interleaved/Machine.antt: any number of threads over one memory, the calls that
--       the provider's clients may make, and the states that can be reached. `hist`, `goal` and
--       `opened` are bookkeeping that no access reads.
--     Rq/Interleaved/Inv.antt and History.antt: the invariant; Keeps.antt: every step keeps it;
--       Frozen.antt: when the version of an address at a time is settled; Snapshots.antt, Clock.antt
--       and Updates.antt: what readers, snapshots and updates get from it.
--   artifact/cpp/recordmgr/arraylist.h
--     RecordMgr/ArrayList.antt: `ArrayList`, and of `AtomicArrayList` the erasure that differs.
--   artifact/cpp/recordmgr/blockbag.h
--     RecordMgr/Block.antt: `block`; RecordMgr/BlockBag.antt: `blockbag` over it, with the blockpool
--       as the memory that it hands out. BlockBag/Shape.antt has the invariant of `validate`,
--       BlockBag/Erase.antt `erase(curr, ix)`, BlockBag/Iterator.antt `blockbag_iterator`.
--   artifact/cpp/common/rwlock.h
--     Lock.antt: the tests of the word that both locks keep; Lock/FavorReaders.antt and
--       Lock/FavorWriters.antt: the locks, cut at their accesses (`exec`), with any number of
--       threads; Lock/Tally.antt: sums over threads.
--   artifact/cpp/descriptors/descriptors_impl.h, with the layout of artifact/cpp/bst/vcas_bst.h
--     Descriptors.antt: the words of a descriptor; a macro per function, in its own words.
--   artifact/cpp/bst/vcas_bst.h, vcas_bst_impl.h, vcas_scxrecord.h and vcas_node.h
--     Bst.antt: nodes and descriptors beside the provider's memory (`Store`). Bst/Llx.antt: `llx`,
--       `scx`, `help`, `helpOther`. Bst/Search.antt: `find`, `contains`; Bst/Update.antt: insertion
--       (`do_insert` is `doInsert`, `try_insert` `updateInsert_search_llx_scx`) and erasure
--       (`try_erase` is `updateErase_search_llx_scx`); Bst/Range.antt: `rangeQuery` over `block` and
--       `traversal_try_add`; Bst/Count.antt: `size`, `debugKeySum`; Bst/Create.antt: the constructor.
--     Bst/Tree.antt: the tree as a value, `At` for the tree that a memory holds at a pointer, `get`
--       for the finite map that it stands for. Bst/Tidy.antt: the invariant between operations.
--       Tree/ has the search paths, and what a change at the end of one makes of the tree; Llx/,
--       Grow.antt, Above.antt and Attach.antt what LLX, a new node and SCX do to such a memory;
--       Insert.antt and Erase.antt put these together.
--   artifact/cpp/lazylist, with artifact/cpp/common/locks_impl.h, over artifact/cpp/rq/rq_unsafe.h
--     LazyList.antt: the nodes, and `doInsert`, `erase`, `contains` and `rangeQuery` cut at
--       their accesses (`Pc`, `exec`); LazyList/Machine.antt: any number of threads over one list,
--       from the constructor's two nodes on. Chain.antt, its child and Content.antt: the nodes
--       that are linked, and the map that they stand for. Known.antt: where the links of all nodes
--       lead; Good.antt: what a thread knows at each step, and which locks it holds. Quiet.antt,
--       Locks.antt, Keeps.antt, Writes.antt, Linking.antt and Access.antt: one access, for its
--       thread, the locks, the other threads and the store; Tasks.antt: the call that it belongs
--       to; Invariant.antt and Effects.antt put these together for Laws.antt. Pending.antt and
--       Settled.antt: what is left undone, and by whom; Alone.antt and its children: updates and
--       range queries without interference (`alone` is the accesses of one thread in a row).
--       Count.antt: `debugKeySum`, `getSizeInNodes` and `getSize`.
--   Common.antt and its children: tests on numbers, lists and arrays that all of these share.
--
-- How the parts interact: the search trees call the provider around each access to a versioned
-- pointer; a range query takes a snapshot and reads every pointer at that time. The record manager
-- keeps retired nodes in block bags. The lock-based providers hold a `RWLock` around updates and
-- snapshots.
--
-- Bounds and fuel: `walk`, the loop of `read_addr(tid, addr, ts)`, has fuel one above the length
-- of the history; interleaved, it takes one step per round and needs none. `move_loop`, the loop
-- of `appendMoveAll`, has fuel one above the size of the other bag, which falls in each round. A
-- traversal of a bag has fuel one above the number of its objects. A block has 256 cells.
-- A search has fuel above the height of the tree; an update that runs alone needs one attempt.
-- Pointers, addresses and times are unbounded numbers: the clock is a `long long`, which ticks
-- once per snapshot. Accesses are taken to be sequentially consistent.
--
-- The loops that measure the lazy list have fuel, of which the number of nodes is enough.
-- A search of the lazy list takes one access per node and needs no fuel; its keys lie between
-- KEY_MIN and KEY_MAX.
--
-- Assumed of the clients of the provider, as the rules of `Step`: an address gets its first write
-- by `write_addr` before it is used; a node goes through `init_node` once, and is from then on
-- offered to one address and one expected value, by its maker or by helpers; a read at a time uses
-- a time that is below the clock, as each finished snapshot is. Nodes are not freed while in use.
--
-- Not modelled: the assertions of `help`, of the lazy list and of its `traversal_try_add`, which
-- the builds of the benchmarks leave out (NDEBUG); retirement of nodes, statistics, debugging
-- hooks; the lock-free list and the skip list, the lazy list over the other providers, the other
-- search trees and providers, `dcss_plus`, the cohort locks, the reclamation schemes; the tree's
-- operations beside other threads, `reclaimMemoryAfterSCX`, and the tree's printing and debugging;
-- `swap` and `erase` of the iterator of `blockbag`, and its `remove` with a shared bag; the
-- benchmarks, the copies of other projects, and the Java part. Range queries of the tree are
-- modelled and run on examples; what they return is proved only of the provider's parts.
pub mod Common
pub mod Rq
pub mod RecordMgr
pub mod Lock
pub mod Descriptors
pub mod Bst
pub mod LazyList
