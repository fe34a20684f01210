-- ===== src/Lock/FavorWriters.antt =====
-- `RWLock` under RWLOCK_FAVOR_WRITERS: a writer sets its bit while readers are still there and waits
-- until they have gone; a reader takes itself back if it finds the bit set.
pub mod Laws
use vcaslib.Common.{
  ℕ, ◌+◌, ◌-◌, ◌*◌, ◌%◌, ◌≤◌, ◌<◌, ◌≡◌, ◌≢◌, ◌⊎◌, refl, inl, inr, if◌then◌else◌, ◌==◌, update,
  Bool-cases, arith, ap, ltb,
}
use vcaslib.Lock.{is_write_locked, is_read_locked, is_locked}
use vcaslib.Lock.Tally.{
  tally, tally-update, tally-one, tally-two, tally-zero, tally_mono, tally-bound,
}

pub data Pc : Type 0 where
  idle : Pc
  -- readLock, and readUnlock
  reader_wait : Pc
  reader_add : Pc
  reader_back : Pc
  reading : Pc
  reader_release : Pc
  -- writeLock with its local variable `v`, and writeUnlock
  writer_load : Pc
  writer_cas : (v : ℕ) → Pc
  writer_drain : Pc
  writing : Pc
  writer_release : Pc

-- `v & ~1`, and the test of it by `while`.
abbrev pub without_bit : ℕ → ℕ
without_bit v = v - v % 2

abbrev pub drain : ℕ → Pc
drain v = if without_bit v == 0 then writing else writer_drain

-- One access of a thread to the word.
unfoldable pub exec : Pc → ℕ → ℕ × Pc
unfolding is_locked
exec idle lock = (lock, idle)
exec reader_wait lock = (lock, if is_locked lock then reader_wait else reader_add)
exec reader_add lock = (lock + 2, if (lock + 2) % 2 == 0 then reading else reader_back)
exec reader_back lock = (lock - 2, reader_wait)
exec reading lock = (lock, reading)
exec reader_release lock = (lock - 2, idle)
exec writer_load lock = (lock, writer_cas lock)
exec (writer_cas v) lock =
    if lock == without_bit v then (without_bit v + 1, drain v) else (lock, writer_load)
exec writer_drain lock = (lock, drain lock)
exec writing lock = (lock, writing)
exec writer_release lock = (lock - 1, idle)

pub record System : Type 0 where
  pub lock : ℕ
  pub pc : ℕ → Pc

abbrev pub run : System → ℕ → System
run s i = record { lock = (exec (s.pc i) s.lock).0; pc = update s.pc i (exec (s.pc i) s.lock).1 }

abbrev pub begin : System → ℕ → Pc → System
begin s i p = record s { pc = update s.pc i p }

pub data Step (size : ℕ) (s : System) : System → Type 0 where
  access : (i : ℕ) → i < size → Step size s (run s i)
  read_lock : (i : ℕ) → i < size → s.pc i ≡ idle → Step size s (begin s i reader_wait)
  read_unlock : (i : ℕ) → i < size → s.pc i ≡ reading → Step size s (begin s i reader_release)
  write_lock : (i : ℕ) → i < size → s.pc i ≡ idle → Step size s (begin s i writer_load)
  write_unlock : (i : ℕ) → i < size → s.pc i ≡ writing → Step size s (begin s i writer_release)

abbrev pub start : System
start = record { lock = 0; pc = λ _. idle }

pub data Reach (size : ℕ) : System → Type 0 where
  here : Reach size start
  next : {s t : System} → Reach size s → Step size s t → Reach size t
