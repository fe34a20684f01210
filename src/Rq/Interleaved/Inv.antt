-- ===== src/Rq/Interleaved/Inv.antt =====
-- The invariant of the interleaved provider: the histories are version lists, and what the local
-- variables of each thread say about them.
use vcaslib.Common.{ℕ, ◌≤◌, ◌<◌, ◌≡◌, ◌≢◌, refl, true, false, some, [], ◌⊎◌, has, tail}
use vcaslib.Rq.{Ptr, Addr, null, Stamp, tbd}
use vcaslib.Rq.Interleaved.{
  Cont, to_compare, to_walk, Pc, idle, update_load, update_compare, update_link, update_cas,
  update_reload, init_test, init_clock, init_cas, version_load,
}
use vcaslib.Rq.Interleaved.Machine.{World, System, start}
use vcaslib.Rq.Interleaved.History.{Linked, Goals, Below, Stamps, Keeps}

-- NULL, or a node that the address has held and that has a stamp.
abbrev pub Loaded : World → Addr → Ptr → Type 0
Loaded w a p = (p ≡ null) ⊎ ((has p (w.hist a) ≡ true) × (w.mem.ts p ≢ tbd))

abbrev pub GoodCont : World → Addr → Cont → Type 0
GoodCont w a (to_compare old new) = w.goal new ≡ some (a, old)
GoodCont w a (to_walk t) = (w.opened a ≡ true) × (t < w.mem.timestamp)
GoodCont w a _ = Unit

abbrev pub Good : World → Pc → Type 0
Good w (update_load a old new) = w.goal new ≡ some (a, old)
Good w (update_compare a old new head) = (w.goal new ≡ some (a, old)) × Loaded w a head
Good w (update_link a old new) = (w.goal new ≡ some (a, old)) × Loaded w a old
Good w (update_cas a old new) =
    (w.goal new ≡ some (a, old)) × Loaded w a old × (w.mem.nextv new ≡ old)
Good w (update_reload a) = (q : Ptr) × (has q (w.hist a) ≡ true)
Good w (init_test a p k) = (has p (w.hist a) ≡ true) × GoodCont w a k
Good w (init_clock a p k) = (has p (w.hist a) ≡ true) × GoodCont w a k
Good w (init_cas a p cur k) =
    (has p (w.hist a) ≡ true)
    × GoodCont w a k
    × (cur ≤ w.mem.timestamp)
    × (w.mem.ts p ≡ tbd → Below w.mem.ts cur (tail (w.hist a)))
Good w (version_load a t) = (w.opened a ≡ true) × (t < w.mem.timestamp)
Good w idle = Unit
Good w _ = Unit

pub record Base (w : World) : Type 0 where
  pub linked : (a : Addr) → Linked w.mem.nextv (w.mem.field a) (w.hist a)
  pub goals : (a : Addr) → Goals w.goal w.mem.nextv (w.hist a)
  pub stamps : (a : Addr) → Stamps w.mem.ts w.mem.timestamp (w.hist a)
  pub stamped :
      (p : Ptr) (a : Addr) (o : Ptr)
      → w.goal p ≡ some (a, o)
      → w.mem.ts p ≢ tbd
      → has p (w.hist a) ≡ true
  pub home :
      (p : Ptr) (b : Addr)
      → has p (w.hist b) ≡ true
      → w.mem.ts p ≡ tbd
      → (o : Ptr) × (w.goal p ≡ some (b, o))
  pub real :
      (p : Ptr) (a : Addr) (o : Ptr) → w.goal p ≡ some (a, o) → (p ≢ null) × (w.opened a ≡ true)
  pub shut : (a : Addr) → w.opened a ≡ false → w.hist a ≡ []

pub record Inv (s : System) : Type 0 where
  pub base : Base s.world
  pub threads : (i : ℕ) → Good s.world (s.pc i)

Base-start : (ts : Ptr → Stamp) (nextv : Ptr → Ptr) → Base (start ts nextv).world
Base-start ts nextv = record {
  linked = λ a. refl;
  goals = λ a. tt;
  stamps = λ a. tt;
  stamped = λ p a o e. cc;
  home = λ p b i. cc;
  real = λ p a o e. cc;
  shut = λ a e. refl;
}

pub Inv-start : (ts : Ptr → Stamp) (nextv : Ptr → Ptr) → Inv (start ts nextv)
Inv-start ts nextv = record { base = Base-start ts nextv; threads = λ i. tt }

-- What a step may do to the facts that threads rely on.
pub record Ext (w v : World) : Type 0 where
  pub clock : w.mem.timestamp ≤ v.mem.timestamp
  pub keeps : (a : Addr) → Keeps w.mem.ts v.mem.ts (w.hist a)
  pub stays : (a : Addr) (p : Ptr) → has p (w.hist a) ≡ true → has p (v.hist a) ≡ true
  pub aims : (p : Ptr) (x : Addr × Ptr) → w.goal p ≡ some x → v.goal p ≡ some x
  pub opens : (a : Addr) → w.opened a ≡ true → v.opened a ≡ true
  pub nexts :
      (p : Ptr) (a : Addr) (o : Ptr)
      → w.goal p ≡ some (a, o)
      → w.mem.nextv p ≡ o
      → v.mem.nextv p ≡ o
  pub waits :
      (a : Addr) (p : Ptr)
      → has p (w.hist a) ≡ true
      → v.mem.ts p ≡ tbd
      → (w.mem.ts p ≡ tbd) × (tail (v.hist a) ≡ tail (w.hist a))
