-- ===== src/Rq/Interleaved/Machine.antt =====
-- Any number of threads over one memory. `hist`, `goal` and `opened` are bookkeeping that no access
-- reads: the nodes that an address has held, newest first; the address and the expected value for
-- which a node was made; and whether an address has had its first write. A node is made once, by
-- `init_node`; from then on any thread, the maker or a helper, may run the update that it was made
-- for, and only that one.
use vcaslib.Common.{
  ℕ, ◌<◌, ◌≡◌, ◌≢◌, Bool, true, false, Option, none, some, List, [], ◌∷◌, if◌then◌else◌, ◌==◌,
  update, has,
}
use vcaslib.Rq.{Ptr, Addr, null, Stamp, at, Mem, init_node}
use vcaslib.Rq.Sequential.{write_addr}
use vcaslib.Rq.Interleaved.{
  Pc, idle, update_load, update_cas, read_load, version_load, snapshot_load, exec, adjust,
}

pub record World : Type 0 where
  pub mem : Mem
  pub hist : Addr → List Ptr
  pub goal : Ptr → Option (Addr × Ptr)
  pub opened : Addr → Bool

pub record System : Type 0 where
  pub world : World
  pub open world use *
  pub pc : ℕ → Pc
  pub backoff : ℕ → ℕ

-- A compare-and-swap that succeeds puts its node on top of the history.
abbrev pub push_hist : Pc → Mem → (Addr → List Ptr) → Addr → List Ptr
push_hist (update_cas a old new) m h = if m.field a == old then update h a (new ∷ h a) else h
push_hist idle m h = h
push_hist _ m h = h

abbrev pub after : Pc → World → World
after p w = record w { mem = (exec p w.mem).0; hist = push_hist p w.mem w.hist }

abbrev pub run : System → ℕ → System
run s i = record {
  world = after (s.pc i) s.world;
  pc = update s.pc i (exec (s.pc i) s.mem).1;
  backoff = update s.backoff i (adjust (s.pc i) s.mem (s.backoff i));
}

abbrev pub begin : System → ℕ → Pc → System
begin s i p = record s { pc = update s.pc i p }

-- The part of a history from a node on.
unfoldable pub from : Ptr → List Ptr → List Ptr
from p [] = []
from p (q ∷ qs) = if p == q then q ∷ qs else from p qs

-- The first writes of an address, by `write_addr`: NULL, a node that no other thread knows, or a
-- node that a read of some other address has returned.
abbrev pub open_null_at : World → Addr → World
open_null_at w a = record w { mem = write_addr w.mem a null; opened = update w.opened a true }

abbrev pub open_new_at : World → Addr → Ptr → World
open_new_at w a p = record {
  mem = write_addr (init_node w.mem p) a p;
  hist = update w.hist a (p ∷ []);
  goal = update w.goal p (some (a, null));
  opened = update w.opened a true;
}

abbrev pub open_shared_at : World → Addr → Addr → Ptr → World
open_shared_at w a b p = record w {
  mem = write_addr w.mem a p;
  hist = update w.hist a (from p (w.hist b));
  opened = update w.opened a true;
}

abbrev pub make_node_for : World → Ptr → Addr → Ptr → World
make_node_for w p a old = record w {
  mem = init_node w.mem p;
  goal = update w.goal p (some (a, old));
}

-- A thread takes its next access, or calls an operation of the provider. A call of
-- `read_addr(tid, addr, ts)` gets a time that `takeSnapshot` has returned, one below the clock.
pub data Step (s : System) : System → Type 0 where
  access : (i : ℕ) → Step s (run s i)
  open_null : (a : Addr) → s.opened a ≡ false → Step s (record s { world = open_null_at s.world a })
  open_new :
      (a : Addr) (p : Ptr)
      → s.opened a ≡ false
      → p ≢ null
      → s.goal p ≡ none
      → Step s (record s { world = open_new_at s.world a p })
  open_shared :
      (a b : Addr) (p : Ptr) (n : ℕ)
      → s.opened a ≡ false
      → has p (s.hist b) ≡ true
      → s.mem.ts p ≡ at n
      → Step s (record s { world = open_shared_at s.world a b p })
  make_node :
      (p : Ptr) (a : Addr) (old : Ptr)
      → s.opened a ≡ true
      → p ≢ null
      → s.goal p ≡ none
      → Step s (record s { world = make_node_for s.world p a old })
  call_update :
      (i : ℕ) (a : Addr) (old new : Ptr)
      → s.goal new ≡ some (a, old)
      → Step s (begin s i (update_load a old new))
  call_read : (i : ℕ) (a : Addr) → Step s (begin s i (read_load a))
  call_read_version :
      (i : ℕ) (a : Addr) (t : ℕ)
      → s.opened a ≡ true
      → t < s.mem.timestamp
      → Step s (begin s i (version_load a t))
  call_snapshot : (i : ℕ) → Step s (begin s i snapshot_load)

-- Nothing written yet, the clock at its first value, and any values in memory not yet allocated.
abbrev pub start : (Ptr → Stamp) → (Ptr → Ptr) → System
start ts nextv = record {
  world = record {
    mem = record { timestamp = 1; field = λ _. null; ts = ts; nextv = nextv };
    hist = λ _. [];
    goal = λ _. none;
    opened = λ _. false;
  };
  pc = λ _. idle;
  backoff = λ _. 1;
}

pub data Reach : System → Type 0 where
  here : (ts : Ptr → Stamp) (nextv : Ptr → Ptr) → Reach (start ts nextv)
  next : {s t : System} → Reach s → Step s t → Reach t
