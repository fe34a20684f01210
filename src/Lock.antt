-- ===== src/Lock.antt =====
-- artifact/cpp/common/rwlock.h: the two reader-writer locks that are written out there, one for
-- RWLOCK_FAVOR_READERS and one for RWLOCK_FAVOR_WRITERS. Both keep one word: twice the number of
-- readers, and a bit for the writer. The operations are cut at their accesses to the word, and
-- `size` threads interleave. A thread calls an unlock only after the lock that it undoes.
pub mod Tally
pub mod FavorReaders
pub mod FavorWriters
mod Examples
use vcaslib.Common.{ℕ, ◌%◌, ◌/◌, Bool, ◌==◌}
use mathlib.Core.Bool.{not}

-- `lock & 1`
unfoldable pub is_write_locked : ℕ → Bool
is_write_locked lock = lock % 2 == 1

-- `lock & ~1`
unfoldable pub is_read_locked : ℕ → Bool
is_read_locked lock = not (lock / 2 == 0)

-- `lock`
unfoldable pub is_locked : ℕ → Bool
is_locked lock = not (lock == 0)
