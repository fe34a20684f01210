-- ===== src/Rq/Interleaved/Snapshots.antt =====
-- What the operations of the interleaved provider promise to their callers.
mod Walk
mod Readers
use vcaslib.Common.{
  ℕ, ◌+◌, ◌<◌, ◌≤◌, ◌≡◌, ◌≢◌, ◌⊎◌, refl, sym, ◌∙◌, Bool, true, false, List, [], ◌∷◌, inl, inr,
  subst, has, tail, update, if◌then◌else◌, ◌==◌, ltb, Bool-cases, ==→≡, arith,
}
use vcaslib.Rq.{Ptr, Addr, null, Stamp, tbd, at, is_tbd}
use vcaslib.Rq.Interleaved.{
  Cont, to_walk, to_win, to_compare, to_lose, to_read, Pc, idle, update_cas, init_test, init_clock,
  init_cas, version_load, version_walk, version_done, exec,
}
use vcaslib.Rq.Interleaved.Machine.{
  World, System, after, start, run, Step, access, open_null, open_new, open_shared, make_node,
  call_update, call_read, call_read_version, call_snapshot, Reach, here, next,
}
use vcaslib.Rq.Interleaved.History.{Linked, Stamps, Top}
use vcaslib.Rq.Interleaved.Inv.{Good, Inv}
use vcaslib.Rq.Interleaved.Keeps.{Step-Inv, Reach-Inv, cas-Loaded}
use vcaslib.Rq.Interleaved.Frozen.{version, version_at, Frozen, Step-Frozen, Step-version}
use Readers.{Reads, Reads-keep, exec-Reads, Stamped}

update-Reads :
    (t : System) (pc : ℕ → Pc) (i : ℕ) (p : Pc)
    → ((j : ℕ) → Reads t (pc j))
    → Reads t p
    → (j : ℕ) → Reads t (update pc i p j)
update-Reads t pc i p h g j = elim (Bool-cases (i == j)) [ inl e ↦ rw e g | inr e ↦ rw e (h j) ]

cas-Stamped : (s : System) (p : Pc) (i : ℕ) → s.pc i ≡ p → Good s.world p → Stamped (run s i) p
cas-Stamped s (init_cas a p cur k) i e g =
    subst (λ q. (after q s.world).mem.ts p ≢ tbd) (sym e) (cas-Loaded a p cur k s.world g.0).1
cas-Stamped s idle i e g = tt
cas-Stamped s _ i e g = tt

Step-Reads :
    {s t : System} → Step s t → Inv s → ((i : ℕ) → Reads s (s.pc i)) → (i : ℕ) → Reads t (t.pc i)
Step-Reads {s} (access i) h r =
    update-Reads (run s i) s.pc i _ (λ j. Reads-keep (access i) h (s.pc j) (h.threads j) (r j))
      (exec-Reads (access i) h (s.pc i) (h.threads i) (r i)
        (cas-Stamped s (s.pc i) i refl (h.threads i)))
Step-Reads {s} (open_null a o) h r = λ j. Reads-keep (open_null a o) h (s.pc j) (h.threads j) (r j)
Step-Reads {s} (open_new a p o ne e) h r =
    λ j. Reads-keep (open_new a p o ne e) h (s.pc j) (h.threads j) (r j)
Step-Reads {s} (open_shared a b p n o i e) h r =
    λ j. Reads-keep (open_shared a b p n o i e) h (s.pc j) (h.threads j) (r j)
Step-Reads {s} (make_node p a old o ne e) h r =
    λ j. Reads-keep (make_node p a old o ne e) h (s.pc j) (h.threads j) (r j)
Step-Reads {s} {t} (call_update i a old new g) h r =
    update-Reads t s.pc i _
      (λ j. Reads-keep (call_update i a old new g) h (s.pc j) (h.threads j) (r j)) tt
Step-Reads {s} {t} (call_read i a) h r =
    update-Reads t s.pc i _ (λ j. Reads-keep (call_read i a) h (s.pc j) (h.threads j) (r j)) tt
Step-Reads {s} {t} (call_read_version i a u o l) h r =
    update-Reads t s.pc i _
      (λ j. Reads-keep (call_read_version i a u o l) h (s.pc j) (h.threads j) (r j)) tt
Step-Reads {s} {t} (call_snapshot i) h r =
    update-Reads t s.pc i _ (λ j. Reads-keep (call_snapshot i) h (s.pc j) (h.threads j) (r j)) tt

Reach-Reads : {s : System} → Reach s → (i : ℕ) → Reads s (s.pc i)
Reach-Reads (here ts nextv) i = tt
Reach-Reads (next r st) i = Step-Reads st (Reach-Inv r) (Reach-Reads r) i

-- Later states of the same run.
pub data Later (s : System) : System → Type 0 where
  now : Later s s
  after_step : {t u : System} → Later s t → Step t u → Later s u

pub Reach-Later : {s t : System} → Reach s → Later s t → Reach t
Reach-Later r now = r
Reach-Later r (after_step l st) = next (Reach-Later r l) st

pub Later-Frozen :
    {s t : System} (a : Addr) (u : ℕ) → Reach s → Frozen s a u → Later s t → Frozen t a u
Later-Frozen a u r f now = f
Later-Frozen a u r f (after_step l st) =
    Step-Frozen a u (Reach-Inv (Reach-Later r l)) (Later-Frozen a u r f l) st

pub Later-version :
    {s t : System} (a : Addr) (u : ℕ)
    → Reach s
    → Frozen s a u
    → Later s t
    → version_at t.world a u ≡ version_at s.world a u
Later-version a u r f now = refl
Later-version a u r f (after_step l st) =
    Step-version a u (Reach-Inv (Reach-Later r l)) (Later-Frozen a u r f l) st
    ∙ Later-version a u r f l

newest_stamp :
    (ts : Ptr → Stamp) (c u : ℕ) (p : Ptr) (ps : List Ptr)
    → c ≤ u
    → ts p ≢ tbd
    → Stamps ts c (p ∷ ps)
    → version ts u (p ∷ ps) ≡ p
unfolding version
newest_stamp ts c u p ps l g h = go (ts p) refl h
  where
    go : (k : Stamp) → ts p ≡ k → Top ts c k ps → version ts u (p ∷ ps) ≡ p
    go tbd e i = absurd (g e)
    go (at n) e i = let f : ltb u n ≡ false = ground (arith, i.0) in rw (e, f)

-- In every reachable state, a call `read_addr(tid, addr, ts)` that has returned has returned the
-- newest node in the history of the address whose stamp is at most `ts`, NULL if there is none; and
-- in every later state that node is still the newest such node, whatever the threads have done.
pub read_version-newest :
    {s t : System}
    → Reach s
    → (i : ℕ) {a : Addr} {u : ℕ} {p : Ptr} → s.pc i ≡ version_done a u p
    → Later s t
    → (version_at s.world a u ≡ p) × (version_at t.world a u ≡ p)
read_version-newest {s} r i {a} {u} {p} e l =
    let (f, v) = subst (Reads s) e (Reach-Reads r i) in (v, Later-version a u r f l ∙ v)

-- A read sees the last update that finished before its snapshot: while the newest node of an address
-- has a stamp, it is the version of the address at every time that the clock has not passed.
pub version-newest :
    {s : System}
    → Reach s
    → (a : Addr) {p : Ptr} {ps : List Ptr} (u : ℕ) → s.hist a ≡ p ∷ ps
    → s.mem.ts p ≢ tbd
    → s.mem.timestamp ≤ u
    → (s.mem.field a ≡ p) × (version_at s.world a u ≡ p)
version-newest {s} r a {p} {ps} u e g l = (
  (subst (Linked s.mem.nextv (s.mem.field a)) e ((Reach-Inv r).base.linked a)).0,
  rw e (
      newest_stamp s.mem.ts s.mem.timestamp u p ps l g
        (subst (Stamps s.mem.ts s.mem.timestamp) e ((Reach-Inv r).base.stamps a))),
)

-- Snapshots are repeatable: two calls `read_addr(tid, addr, ts)` for one address and one time, by
-- any two threads and however far apart in a run, return the same node.
pub read_version-repeatable :
    {s t : System}
    → Reach s
    → Later s t
    → (i j : ℕ) {a : Addr} {u : ℕ} {p q : Ptr} → s.pc i ≡ version_done a u p
    → t.pc j ≡ version_done a u q
    → p ≡ q
read_version-repeatable {s} r l i j e d =
    sym (read_version-newest r i e l).1 ∙ (read_version-newest (Reach-Later r l) j d now).0
