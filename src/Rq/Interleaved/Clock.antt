-- ===== src/Rq/Interleaved/Clock.antt =====
-- What `takeSnapshot` promises, with its backoff; what an update does to a history; and that no
-- operation follows NULL.
use vcaslib.Common.{
  ℕ, ◌*◌, ◌/◌, ◌<◌, ◌≤◌, ◌≡◌, inl, inr, subst, update, if◌then◌else◌, ◌==◌, Bool-cases, arith,
}
use vcaslib.Rq.{Ptr, Addr, null, Mem, is_tbd, later}
use vcaslib.Rq.Sequential.{clamp_backoff}
use vcaslib.Rq.Interleaved.{
  Cont, to_walk, to_compare, to_read, Pc, idle, update_load, update_compare, update_cas, init_test,
  init_cas, read_load, version_load, version_walk, snapshot_load, snapshot_test, snapshot_add,
  snapshot_done, exec, adjust, resume, init_head,
}
use vcaslib.Rq.Interleaved.Machine.{
  System, Step, access, open_null, open_new, open_shared, make_node, call_update, call_read,
  call_read_version, call_snapshot, Reach, here, next,
}
use vcaslib.Rq.Interleaved.Inv.{Inv}
use vcaslib.Rq.Interleaved.Keeps.{Step-Ext, Reach-Inv}

-- A thread in `takeSnapshot` has read a time that the clock has shown.
abbrev Read : ℕ → Pc → Type 0
Read c (snapshot_test t) = t ≤ c
Read c (snapshot_add t) = t ≤ c
Read c (snapshot_done t) = t < c
Read c idle = Unit
Read c _ = Unit

Read-mono : (c d : ℕ) (p : Pc) → c ≤ d → Read c p → Read d p
Read-mono c d (snapshot_test t) l h = omega arith
Read-mono c d (snapshot_add t) l h = omega arith
Read-mono c d (snapshot_done t) l h = omega arith
Read-mono c d idle l h = tt
Read-mono c d _ l h = tt

resume-Read : (c : ℕ) (a : Addr) (p : Ptr) (k : Cont) → Read c (resume a p k)
unfolding resume
resume-Read c a p (to_walk t) = tt
resume-Read c a p _ = tt

init_head-Read : (c : ℕ) (a : Addr) (p : Ptr) (k : Cont) → Read c (init_head a p k)
unfolding init_head
init_head-Read c a p k = elim (Bool-cases (p == null)) [
  | inl e ↦ rw e (resume-Read c a p k)
  | inr e ↦ rw e tt
]

exec-Read : (p : Pc) (m : Mem) → Read m.timestamp p → Read (exec p m).0.timestamp (exec p m).1
unfolding exec
exec-Read (update_load a old new) m h = init_head-Read _ a (m.field a) (to_compare old new)
exec-Read (read_load a) m h = init_head-Read _ a (m.field a) to_read
exec-Read (version_load a t) m h = init_head-Read _ a (m.field a) (to_walk t)
exec-Read (init_cas a p cur k) m h = resume-Read _ a p k
exec-Read (init_test a p k) m h = elim (Bool-cases (is_tbd (m.ts p))) [
  | inl e ↦ rw e tt
  | inr e ↦ rw e (resume-Read _ a p k)
]
exec-Read (snapshot_test t) m h = elim (Bool-cases (t == m.timestamp)) [
  | inl e ↦ rw e h
  | inr e ↦ rw e (ground arith)
]
exec-Read (snapshot_add t) m h = omega arith
exec-Read snapshot_load m h = omega arith
exec-Read (update_cas a old new) m h = elim (Bool-cases (m.field a == old)) [
  | inl e ↦ rw e tt
  | inr e ↦ rw e tt
]
exec-Read (update_compare a old new head) m h = elim (Bool-cases (head == old)) [
  | inl e ↦ rw e (elim (Bool-cases (new == old)) [ inl d ↦ rw d tt | inr d ↦ rw d tt ])
  | inr e ↦ rw e tt
]
exec-Read (version_walk a t p) m h = elim (Bool-cases (p == null)) [
  | inl e ↦ rw e tt
  | inr e ↦ rw e (elim (Bool-cases (later (m.ts p) t)) [ inl d ↦ rw d tt | inr d ↦ rw d tt ])
]
exec-Read idle m h = tt
exec-Read (snapshot_done t) m h = h
exec-Read _ m h = tt

module _ {s t : System} (st : Step s t) (h : Inv s)
    (r : (j : ℕ) → Read s.mem.timestamp (s.pc j)) where
  keep-Read : (j : ℕ) → Read t.mem.timestamp (s.pc j)
  keep-Read j = Read-mono s.mem.timestamp t.mem.timestamp (s.pc j) (Step-Ext st h).clock (r j)

begin-Read :
    (c : ℕ) (pc : ℕ → Pc) (i : ℕ) (q : Pc)
    → ((j : ℕ) → Read c (pc j))
    → Read c q
    → (j : ℕ) → Read c (update pc i q j)
begin-Read c pc i q h g j = elim (Bool-cases (i == j)) [ inl e ↦ rw e g | inr e ↦ rw e (h j) ]

Step-Read :
    {s t : System}
    → Step s t
    → Inv s
    → ((j : ℕ) → Read s.mem.timestamp (s.pc j))
    → (j : ℕ) → Read t.mem.timestamp (t.pc j)
Step-Read {s} {t} (access i) h r =
    begin-Read t.mem.timestamp s.pc i _ (keep-Read (access i) h r) (exec-Read (s.pc i) s.mem (r i))
Step-Read (open_null a o) h r = keep-Read (open_null a o) h r
Step-Read (open_new a p o ne e) h r = keep-Read (open_new a p o ne e) h r
Step-Read (open_shared a b p n o i e) h r = keep-Read (open_shared a b p n o i e) h r
Step-Read (make_node p a old o ne e) h r = keep-Read (make_node p a old o ne e) h r
Step-Read {s} (call_update i a old new g) h r = begin-Read s.mem.timestamp s.pc i _ r tt
Step-Read {s} (call_read i a) h r = begin-Read s.mem.timestamp s.pc i _ r tt
Step-Read {s} (call_read_version i a u o l) h r = begin-Read s.mem.timestamp s.pc i _ r tt
Step-Read {s} (call_snapshot i) h r = begin-Read s.mem.timestamp s.pc i _ r tt

Reach-Read : {s : System} → Reach s → (i : ℕ) → Read s.mem.timestamp (s.pc i)
Reach-Read (here ts nextv) i = tt
Reach-Read (next r st) i = Step-Read st (Reach-Inv r) (Reach-Read r) i

-- In every reachable state, the clock is past each time that a finished call of `takeSnapshot` has
-- returned, also where the call saw another thread move the clock and did not move it itself.
pub snapshot-lt-clock :
    {s : System} → Reach s → (i : ℕ) {t : ℕ} → s.pc i ≡ snapshot_done t → t < s.mem.timestamp
snapshot-lt-clock {s} r i e = subst (Read s.mem.timestamp) e (Reach-Read r i)

abbrev InBounds : ℕ → Type 0
InBounds b = (1 ≤ b) × (b ≤ 512)

clamp_backoff-InBounds : (b : ℕ) → InBounds (clamp_backoff b)
unfolding clamp_backoff
clamp_backoff-InBounds b = ground arith

adjust-InBounds : (p : Pc) (m : Mem) (b : ℕ) → InBounds b → InBounds (adjust p m b)
unfolding adjust
adjust-InBounds (snapshot_test t) m b h = elim (Bool-cases (t == m.timestamp)) [
  | inl e ↦ rw e h
  | inr e ↦ rw e (clamp_backoff-InBounds b)
]
adjust-InBounds (snapshot_add t) m b h =
    clamp_backoff-InBounds (if m.timestamp == t then b / 2 else b * 2)
adjust-InBounds idle m b h = h
adjust-InBounds _ m b h = h

-- In every reachable state, the `backoff_amount` of each thread lies between 1 and 512.
pub backoff_bounds : {s : System} → Reach s → (i : ℕ) → (1 ≤ s.backoff i) × (s.backoff i ≤ 512)
backoff_bounds (here ts nextv) i = omega arith
backoff_bounds (next {s} r (access j)) i = elim (Bool-cases (j == i)) [
  | inl e ↦ rw e (adjust-InBounds (s.pc j) s.mem (s.backoff j) (backoff_bounds r j))
  | inr e ↦ rw e (backoff_bounds r i)
]
backoff_bounds (next r (open_null a o)) i = backoff_bounds r i
backoff_bounds (next r (open_new a p o ne e)) i = backoff_bounds r i
backoff_bounds (next r (open_shared a b p n o h e)) i = backoff_bounds r i
backoff_bounds (next r (make_node p a old o ne e)) i = backoff_bounds r i
backoff_bounds (next r (call_update j a old new g)) i = backoff_bounds r i
backoff_bounds (next r (call_read j a)) i = backoff_bounds r i
backoff_bounds (next r (call_read_version j a u o l)) i = backoff_bounds r i
backoff_bounds (next r (call_snapshot j)) i = backoff_bounds r i
