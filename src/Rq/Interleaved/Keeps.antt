-- ===== src/Rq/Interleaved/Keeps.antt =====
-- Every step keeps the invariant.
mod Others
mod Stores
mod Opens
mod Threads
pub use Threads.{field-has, Good-exec, exec-Ext, exec-Base, is_tbd-true, is_tbd-false, cas-Loaded}
pub use Stores.{unstamped, Ext-refl}
pub use Opens.*
pub use Others.{Good-keep, Stamp-cases}
use vcaslib.Common.{
  ℕ, ◌≡◌, refl, Bool, true, false, inl, inr, subst, update, ◌==◌, Bool-cases, ==→≡, arith,
}
use vcaslib.Rq.{Ptr, Stamp}
use vcaslib.Rq.Interleaved.{Pc}
use vcaslib.Rq.Interleaved.Machine.{
  World, System, after, Step, access, open_null, open_new, open_shared, make_node, call_update,
  call_read, call_read_version, call_snapshot, Reach, here, next,
}
use vcaslib.Rq.Interleaved.Inv.{Good, Base, Inv, Inv-start, Ext}

-- A thread moves to a point where its variables are right, and the others rely on less.
Good-update :
    (v w : World) (pc : ℕ → Pc) (i : ℕ) (p : Pc)
    → Ext v w
    → ((j : ℕ) → Good v (pc j))
    → Good w p
    → (j : ℕ) → Good w (update pc i p j)
Good-update v w pc i p e h g j = elim (Bool-cases (i == j)) [
  | inl t ↦ rw t g
  | inr t ↦ rw t (Good-keep e (pc j) (h j))
]

pub Step-Ext : {s t : System} → Step s t → Inv s → Ext s.world t.world
Step-Ext {s} (access i) h = exec-Ext (s.pc i) s.world h.base (h.threads i)
Step-Ext {s} (open_null a o) h = open_null-Ext s.world h.base a o
Step-Ext {s} (open_new a p o ne e) h = open_new-Ext s.world h.base a o p ne e
Step-Ext {s} (open_shared a b p n o i e) h = open_shared-Ext s.world h.base a o b p n i e
Step-Ext {s} (make_node p a old o ne e) h = make-Ext s.world h.base p a old o ne e
Step-Ext {s} (call_update i a old new g) h = Ext-refl s.world
Step-Ext {s} (call_read i a) h = Ext-refl s.world
Step-Ext {s} (call_read_version i a t o l) h = Ext-refl s.world
Step-Ext {s} (call_snapshot i) h = Ext-refl s.world

-- Every step of the system keeps the invariant.
pub Step-Inv : {s t : System} → Step s t → Inv s → Inv t
Step-Inv {s} (access i) h = record {
  base = exec-Base (s.pc i) s.world h.base (h.threads i);
  threads =
      Good-update s.world (after (s.pc i) s.world) s.pc i _
        (exec-Ext (s.pc i) s.world h.base (h.threads i)) h.threads
        (Good-exec (s.pc i) s.world h.base (h.threads i));
}
Step-Inv {s} (open_null a o) h = record {
  base = open_null-Base s.world h.base a o;
  threads = λ i. Good-keep (open_null-Ext s.world h.base a o) (s.pc i) (h.threads i);
}
Step-Inv {s} (open_new a p o ne e) h = record {
  base = open_new-Base s.world h.base a o p ne e;
  threads = λ i. Good-keep (open_new-Ext s.world h.base a o p ne e) (s.pc i) (h.threads i);
}
Step-Inv {s} (open_shared a b p n o i e) h = record {
  base = open_shared-Base s.world h.base a o b p n i e;
  threads = λ j. Good-keep (open_shared-Ext s.world h.base a o b p n i e) (s.pc j) (h.threads j);
}
Step-Inv {s} (make_node p a old o ne e) h = record {
  base = make-Base s.world h.base p a old o ne e;
  threads = λ i. Good-keep (make-Ext s.world h.base p a old o ne e) (s.pc i) (h.threads i);
}
Step-Inv {s} (call_update i a old new g) h = record {
  base = h.base;
  threads = Good-update s.world s.world s.pc i _ (Ext-refl s.world) h.threads g;
}
Step-Inv {s} (call_read i a) h = record {
  base = h.base;
  threads = Good-update s.world s.world s.pc i _ (Ext-refl s.world) h.threads tt;
}
Step-Inv {s} (call_read_version i a t o l) h = record {
  base = h.base;
  threads = Good-update s.world s.world s.pc i _ (Ext-refl s.world) h.threads (o, l);
}
Step-Inv {s} (call_snapshot i) h = record {
  base = h.base;
  threads = Good-update s.world s.world s.pc i _ (Ext-refl s.world) h.threads tt;
}

pub Reach-Inv : {s : System} → Reach s → Inv s
Reach-Inv (here ts nextv) = Inv-start ts nextv
Reach-Inv (next r st) = Step-Inv st (Reach-Inv r)
