-- ===== src/Rq/Interleaved/Keeps/Others.antt =====
-- What a thread relies on is not disturbed by a step of another.
use vcaslib.Common.{ℕ, ◌≡◌, ◌≢◌, refl, true, List, [], ◌∷◌, ◌⊎◌, inl, inr, has, tail, arith}
use vcaslib.Rq.{Ptr, Addr, Stamp, tbd, at}
use vcaslib.Rq.Interleaved.{
  Cont, to_compare, to_walk, Pc, idle, update_load, update_compare, update_link, update_cas,
  update_reload, init_test, init_clock, init_cas, version_load,
}
use vcaslib.Rq.Interleaved.Machine.{World}
use vcaslib.Rq.Interleaved.History.{Below-keep, Keeps}
use vcaslib.Rq.Interleaved.Inv.{Loaded, GoodCont, Good, Ext}

pub Stamp-cases : (c : Stamp) → (c ≡ tbd) ⊎ ((n : ℕ) × (c ≡ at n))
Stamp-cases tbd = inl refl
Stamp-cases (at n) = inr (n, refl)

has-tail : (p : Ptr) (xs : List Ptr) → has p (tail xs) ≡ true → has p xs ≡ true
has-tail p [] i = i
has-tail p (x ∷ xs) i = ground arith

module _ {s t : World} (e : Ext s t) where
  given-keep : (a : Addr) (p : Ptr) → has p (s.hist a) ≡ true → s.mem.ts p ≢ tbd → t.mem.ts p ≢ tbd
  given-keep a p i h = elim (Stamp-cases (s.mem.ts p)) [
    | inl u ↦ absurd (h u)
    | inr (n, u) ↦ λ v. ground (arith, e.keeps a p n i u)
  ]

  pub Loaded-keep : (a : Addr) (p : Ptr) → Loaded s a p → Loaded t a p
  Loaded-keep a p (inl h) = inl h
  Loaded-keep a p (inr (i, h)) = inr (e.stays a p i, given-keep a p i h)

  pub GoodCont-keep : (a : Addr) (k : Cont) → GoodCont s a k → GoodCont t a k
  GoodCont-keep a (to_compare old new) h = e.aims new (a, old) h
  GoodCont-keep a (to_walk u) h = (e.opens a h.0, omega (arith, e.clock))
  GoodCont-keep a _ h = tt

  Keeps-tail : (a : Addr) → Keeps s.mem.ts t.mem.ts (tail (s.hist a))
  Keeps-tail a p n i = e.keeps a p n (has-tail p (s.hist a) i)

  pub Good-keep : (p : Pc) → Good s p → Good t p
  Good-keep (update_load a old new) h = e.aims new (a, old) h
  Good-keep (update_compare a old new head) h = (e.aims new (a, old) h.0, Loaded-keep a head h.1)
  Good-keep (update_link a old new) h = (e.aims new (a, old) h.0, Loaded-keep a old h.1)
  Good-keep (update_cas a old new) h =
      (e.aims new (a, old) h.0, Loaded-keep a old h.1, e.nexts new a old h.0 h.2)
  Good-keep (update_reload a) h = (h.0, e.stays a h.0 h.1)
  Good-keep (init_test a p k) h = (e.stays a p h.0, GoodCont-keep a k h.1)
  Good-keep (init_clock a p k) h = (e.stays a p h.0, GoodCont-keep a k h.1)
  Good-keep (init_cas a p cur k) h = (
    e.stays a p h.0,
    GoodCont-keep a k h.1,
    omega (arith, e.clock),
    λ u.
        let (v, w) = e.waits a p h.0 u in
        rw w (Below-keep s.mem.ts t.mem.ts cur (tail (s.hist a)) (Keeps-tail a) (h.3 v)),
  )
  Good-keep (version_load a u) h = (e.opens a h.0, omega (arith, e.clock))
  Good-keep idle h = tt
  Good-keep _ h = tt
