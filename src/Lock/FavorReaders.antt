-- ===== src/Lock/FavorReaders.antt =====
-- `RWLock` under RWLOCK_FAVOR_READERS: a reader announces itself and then waits for the writer; a
-- writer takes the word when it is 0.
pub mod Laws
use vcaslib.Common.{
  ℕ, ◌+◌, ◌-◌, ◌*◌, ◌≤◌, ◌<◌, ◌≡◌, ◌≢◌, ◌⊎◌, refl, inl, inr, if◌then◌else◌, ◌==◌, update,
  Bool-cases, arith, ap, ltb,
}
use vcaslib.Lock.{is_write_locked, is_read_locked, is_locked}
use vcaslib.Lock.Tally.{
  tally, tally-update, tally-one, tally-two, tally-zero, tally_mono, tally-bound,
}

pub data Pc : Type 0 where
  idle : Pc
  -- readLock, and readUnlock
  reader_add : Pc
  reader_wait : Pc
  reading : Pc
  reader_release : Pc
  -- writeLock, and writeUnlock
  writer_wait : Pc
  writer_cas : Pc
  writing : Pc
  writer_release : Pc

-- One access of a thread to the word.
unfoldable pub exec : Pc → ℕ → ℕ × Pc
unfolding is_write_locked is_locked
exec idle lock = (lock, idle)
exec reader_add lock = (lock + 2, reader_wait)
exec reader_wait lock = (lock, if is_write_locked lock then reader_wait else reading)
exec reading lock = (lock, reading)
exec reader_release lock = (lock - 2, idle)
exec writer_wait lock = (lock, if is_locked lock then writer_wait else writer_cas)
exec writer_cas lock = if lock == 0 then (1, writing) else (lock, writer_wait)
exec writing lock = (lock, writing)
exec writer_release lock = (lock - 1, idle)

pub record System : Type 0 where
  pub lock : ℕ
  pub pc : ℕ → Pc

abbrev pub run : System → ℕ → System
run s i = record { lock = (exec (s.pc i) s.lock).0; pc = update s.pc i (exec (s.pc i) s.lock).1 }

abbrev pub begin : System → ℕ → Pc → System
begin s i p = record s { pc = update s.pc i p }

pub data Step (size : ℕ) (s : System) : System → Type 0 where
  access : (i : ℕ) → i < size → Step size s (run s i)
  read_lock : (i : ℕ) → i < size → s.pc i ≡ idle → Step size s (begin s i reader_add)
  read_unlock : (i : ℕ) → i < size → s.pc i ≡ reading → Step size s (begin s i reader_release)
  write_lock : (i : ℕ) → i < size → s.pc i ≡ idle → Step size s (begin s i writer_wait)
  write_unlock : (i : ℕ) → i < size → s.pc i ≡ writing → Step size s (begin s i writer_release)

abbrev pub start : System
start = record { lock = 0; pc = λ _. idle }

pub data Reach (size : ℕ) : System → Type 0 where
  here : Reach size start
  next : {s t : System} → Reach size s → Step size s t → Reach size t
