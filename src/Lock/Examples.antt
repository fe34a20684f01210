-- ===== src/Lock/Examples.antt =====
-- Runs of the two locks with two threads: thread 0 gets the lock for writing while thread 1 waits
-- to read.
use vcaslib.Common.{◌*◌, ◌+◌, ◌≤◌, ◌≡◌, ◌≢◌, refl, ltb, arith}
use vcaslib.Lock.{is_read_locked, is_write_locked}
use vcaslib.Lock.Tally.{tally}
use vcaslib.Lock.FavorReaders
use vcaslib.Lock.FavorReaders.Laws.{readers_exclusive, readers_word}
use vcaslib.Lock.FavorReaders.Laws as FavorReadersLaws
use vcaslib.Lock.FavorWriters
use vcaslib.Lock.FavorWriters.Laws.{writers_exclusive, writers_word}
use vcaslib.Lock.FavorWriters.Laws as FavorWritersLaws

abbrev readers_run : (s : FavorReaders.System) × FavorReaders.Reach 2 s
unfolding FavorReaders.exec is_write_locked
readers_run =
    let a = FavorReaders.next FavorReaders.here (FavorReaders.write_lock 0 (omega arith) refl) in
    let b = FavorReaders.next a (FavorReaders.read_lock 1 (omega arith) refl) in
    let c = FavorReaders.next b (FavorReaders.access 0 (omega arith)) in
    let d = FavorReaders.next c (FavorReaders.access 0 (omega arith)) in
    let e = FavorReaders.next d (FavorReaders.access 1 (omega arith)) in
    (_, FavorReaders.next e (FavorReaders.access 1 (omega arith)))

readers_exclusive_example :
    (readers_run.0.pc 1 ≢ FavorReaders.writing) × (readers_run.0.pc 1 ≢ FavorReaders.reading)
readers_exclusive_example =
    readers_exclusive 2 readers_run.1 0 1 (omega arith) (omega arith) (λ e. omega (arith, e))
      (unfold FavorReaders.exec in refl)

readers_word_example :
    (is_read_locked readers_run.0.lock
      ≡ ltb 0 (tally FavorReadersLaws.announced readers_run.0.pc 2))
    × (is_write_locked readers_run.0.lock
        ≡ ltb 0 (tally FavorReadersLaws.writes readers_run.0.pc 2))
    × (readers_run.0.lock ≤ 2 * 2 + 1)
readers_word_example = readers_word 2 readers_run.1

-- The word is 3: one reader announced, and the writer.
readers_run_lock : readers_run.0.lock ≡ 3
unfolding FavorReaders.exec
readers_run_lock = refl

abbrev writers_run : (s : FavorWriters.System) × FavorWriters.Reach 2 s
writers_run =
    let a = FavorWriters.next FavorWriters.here (FavorWriters.write_lock 0 (omega arith) refl) in
    let b = FavorWriters.next a (FavorWriters.read_lock 1 (omega arith) refl) in
    let c = FavorWriters.next b (FavorWriters.access 1 (omega arith)) in
    let d = FavorWriters.next c (FavorWriters.access 0 (omega arith)) in
    let e = FavorWriters.next d (FavorWriters.access 0 (omega arith)) in
    (_, FavorWriters.next e (FavorWriters.access 1 (omega arith)))

writers_exclusive_example :
    (writers_run.0.pc 1 ≢ FavorWriters.writing) × (writers_run.0.pc 1 ≢ FavorWriters.reading)
writers_exclusive_example =
    writers_exclusive 2 writers_run.1 0 1 (omega arith) (omega arith) (λ e. omega (arith, e))
      (unfold FavorWriters.exec in refl)

writers_word_example :
    (is_read_locked writers_run.0.lock
      ≡ ltb 0 (tally FavorWritersLaws.announced writers_run.0.pc 2))
    × (is_write_locked writers_run.0.lock ≡ ltb 0 (tally FavorWritersLaws.marks writers_run.0.pc 2))
    × (writers_run.0.lock ≤ 2 * 2 + 1)
writers_word_example = writers_word 2 writers_run.1

writers_run_lock : writers_run.0.lock ≡ 3
unfolding FavorWriters.exec
writers_run_lock = refl
