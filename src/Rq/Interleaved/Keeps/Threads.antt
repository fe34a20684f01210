-- ===== src/Rq/Interleaved/Keeps/Threads.antt =====
-- One access of one thread: what it does to the histories, and what it tells the thread.
use vcaslib.Common.{
  ℕ, ◌≡◌, ◌≢◌, refl, true, false, List, [], ◌∷◌, ◌⊎◌, inl, inr, subst, has, tail, ◌==◌, Bool-cases,
  ==→≡, ==-refl, arith,
}
use vcaslib.Rq.{Ptr, Addr, null, Stamp, tbd, at, is_tbd, set_ts, later}
use vcaslib.Rq.Interleaved.{
  Cont, to_compare, to_win, to_lose, to_read, to_walk, Pc, idle, update_load, update_compare,
  update_link, update_cas, update_reload, init_test, init_clock, init_cas, read_load, version_load,
  version_walk, snapshot_test, snapshot_add, resume, init_head, exec,
}
use vcaslib.Rq.Interleaved.Machine.{World, after}
use vcaslib.Rq.Interleaved.History.{Linked, Stamps, Stamps-Below, tbd-head, Below}
use vcaslib.Rq.Interleaved.Inv.{Loaded, GoodCont, Good, Base, Ext}
use vcaslib.Rq.Interleaved.Keeps.Stores.{
  Ext-refl, give-Base, give-Ext, tick-Base, tick-Ext, link-Base, link-Ext, push-Base, push-Ext,
}

==-false : (a b : ℕ) → (a == b) ≡ false → a ≢ b
==-false a b h = ground arith

module _ (w : World) (b : Base w) where
  -- What an address holds is NULL or the newest node of its history.
  field-cases : (a : Addr) → (w.mem.field a ≡ null) ⊎ (has (w.mem.field a) (w.hist a) ≡ true)
  field-cases a = go (w.hist a) (b.linked a)
    where
      go :
          (xs : List Ptr)
          → Linked w.mem.nextv (w.mem.field a) xs
          → (w.mem.field a ≡ null) ⊎ (has (w.mem.field a) xs ≡ true)
      go [] h = inl h
      go (x ∷ xs) h = inr (ground (arith, h.0))

  pub field-has :
      (a : Addr) (q : Ptr) → has q (w.hist a) ≡ true → has (w.mem.field a) (w.hist a) ≡ true
  field-has a q i = go (w.hist a) (b.linked a) i
    where
      go :
          (xs : List Ptr)
          → Linked w.mem.nextv (w.mem.field a) xs
          → has q xs ≡ true
          → has (w.mem.field a) xs ≡ true
      go [] h i = cc
      go (x ∷ xs) h i = ground (arith, h.0)

  pub below_clock :
      (a : Addr) (p : Ptr)
      → has p (w.hist a) ≡ true
      → w.mem.ts p ≡ tbd
      → Below w.mem.ts w.mem.timestamp (tail (w.hist a))
  below_clock a p i u =
      let e = tbd-head w.mem.ts w.mem.timestamp p (w.hist a) (b.stamps a) i u in
      Stamps-Below w.mem.ts w.mem.timestamp p (tail (w.hist a))
        (subst (λ xs. Stamps w.mem.ts w.mem.timestamp xs) e (b.stamps a))

  resume-Good :
      (a : Addr) (p : Ptr) (k : Cont) → Loaded w a p → GoodCont w a k → Good w (resume a p k)
  unfolding resume
  resume-Good a p (to_compare old new) l g = (g, l)
  resume-Good a p to_win l g = tt
  resume-Good a p to_lose l g = tt
  resume-Good a p to_read l g = tt
  resume-Good a p (to_walk t) l g = tt

  init_head-Good : (a : Addr) (k : Cont) → GoodCont w a k → Good w (init_head a (w.mem.field a) k)
  unfolding init_head
  init_head-Good a k g = elim (Bool-cases (w.mem.field a == null)) [
    | inl t ↦ rw t (resume-Good a (w.mem.field a) k (inl (==→≡ _ _ t)) g)
    | inr t ↦
        rw t
          (elim (field-cases a) [ inl e ↦ absurd (omega (arith, ==-false _ _ t)) | inr i ↦ (i, g) ])
  ]

pub is_tbd-true : (c : Stamp) → is_tbd c ≡ true → c ≡ tbd
is_tbd-true tbd h = refl
is_tbd-true (at n) h = cc

pub is_tbd-false : (c : Stamp) → is_tbd c ≡ false → c ≢ tbd
is_tbd-false tbd h = cc
is_tbd-false (at n) h = λ e. cc

pub exec-Ext : (p : Pc) (w : World) → Base w → Good w p → Ext w (after p w)
unfolding exec
exec-Ext (update_link a old new) w b g = link-Ext w b a old new g.0
exec-Ext (update_cas a old new) w b g = elim (Bool-cases (w.mem.field a == old)) [
  | inl t ↦ rw t (push-Ext w b a old new g.0 g.1 g.2 (==→≡ _ _ t))
  | inr t ↦ rw t (Ext-refl w)
]
exec-Ext (init_cas a p cur k) w b g = elim (Bool-cases (is_tbd (w.mem.ts p))) [
  | inl t ↦ let u = is_tbd-true _ t in rw t (give-Ext w b a p cur g.0 u g.2 (g.3 u))
  | inr t ↦ rw t (Ext-refl w)
]
exec-Ext (snapshot_add t) w b g = tick-Ext w b
exec-Ext idle w b g = Ext-refl w
exec-Ext _ w b g = Ext-refl w

pub exec-Base : (p : Pc) (w : World) → Base w → Good w p → Base (after p w)
unfolding exec
exec-Base (update_link a old new) w b g = link-Base w b a old new g.0
exec-Base (update_cas a old new) w b g = elim (Bool-cases (w.mem.field a == old)) [
  | inl t ↦ rw t (push-Base w b a old new g.0 g.1 g.2 (==→≡ _ _ t))
  | inr t ↦ rw t b
]
exec-Base (init_cas a p cur k) w b g = elim (Bool-cases (is_tbd (w.mem.ts p))) [
  | inl t ↦ let u = is_tbd-true _ t in rw t (give-Base w b a p cur g.0 u g.2 (g.3 u))
  | inr t ↦ rw t b
]
exec-Base (snapshot_add t) w b g = tick-Base w b
exec-Base idle w b g = b
exec-Base _ w b g = b

pub cas-Loaded :
    (a : Addr) (p : Ptr) (cur : ℕ) (k : Cont) (w : World)
    → has p (w.hist a) ≡ true
    → (has p (w.hist a) ≡ true) × ((after (init_cas a p cur k) w).mem.ts p ≢ tbd)
unfolding exec
cas-Loaded a p cur k w i = (
  i,
  elim (Bool-cases (is_tbd (w.mem.ts p))) [
    | inl t ↦ rw (t, ==-refl p) (λ e. cc)
    | inr t ↦ rw t (is_tbd-false _ t)
  ],
)

cas-GoodCont :
    (a : Addr) (p : Ptr) (cur : ℕ) (k : Cont) (w : World)
    → GoodCont w a k
    → GoodCont (after (init_cas a p cur k) w) a k
unfolding exec
cas-GoodCont a p cur k w g = elim (Bool-cases (is_tbd (w.mem.ts p))) [
  | inl t ↦ rw t (go k g)
  | inr t ↦ rw t g
]
  where
    go : (j : Cont) → GoodCont w a j → GoodCont (record w { mem = set_ts w.mem p (at cur) }) a j
    go (to_compare old new) h = h
    go (to_walk t) h = h
    go _ h = tt

pub Good-exec : (p : Pc) (w : World) → Base w → Good w p → Good (after p w) (exec p w.mem).1
unfolding exec
Good-exec (update_load a old new) w b g = init_head-Good w b a (to_compare old new) g
Good-exec (update_compare a old new head) w b g = elim (Bool-cases (head == old)) [
  | inl t ↦ rw t (elim (Bool-cases (new == old)) [
    | inl s ↦ rw s tt
    | inr s ↦ rw s (g.0, subst (Loaded w a) (==→≡ head old t) g.1)
  ])
  | inr t ↦ rw t tt
]
Good-exec (update_link a old new) w b g = (g.0, g.1, rw (==-refl new))
Good-exec (update_cas a old new) w b g = elim (Bool-cases (w.mem.field a == old)) [
  | inl t ↦ rw (t, ==-refl a) (rw (==-refl new), tt)
  | inr t ↦ rw t (elim (field-cases w b a) [
    | inr i ↦ (w.mem.field a, i)
    | inl e ↦ elim g.1 [ inl z ↦ absurd (omega (arith, ==-false _ _ t)) | inr h ↦ (old, h.0) ]
  ])
]
Good-exec (update_reload a) w b g = (field-has w b a g.0 g.1, tt)
Good-exec (init_test a p k) w b g = elim (Bool-cases (is_tbd (w.mem.ts p))) [
  | inl t ↦ rw t g
  | inr t ↦ rw t (resume-Good w b a p k (inr (g.0, is_tbd-false _ t)) g.1)
]
Good-exec (init_clock a p k) w b g = (g.0, g.1, omega arith, below_clock w b a p g.0)
Good-exec (init_cas a p cur k) w b g =
    resume-Good (after (init_cas a p cur k) w) (exec-Base (init_cas a p cur k) w b g) a p k
      (inr (cas-Loaded a p cur k w g.0)) (cas-GoodCont a p cur k w g.1)
Good-exec (read_load a) w b g = init_head-Good w b a to_read tt
Good-exec (version_load a t) w b g = init_head-Good w b a (to_walk t) g
Good-exec (version_walk a t p) w b g = elim (Bool-cases (p == null)) [
  | inl e ↦ rw e tt
  | inr e ↦ rw e (elim (Bool-cases (later (w.mem.ts p) t)) [ inl l ↦ rw l tt | inr l ↦ rw l tt ])
]
Good-exec (snapshot_test t) w b g = elim (Bool-cases (t == w.mem.timestamp)) [
  | inl e ↦ rw e tt
  | inr e ↦ rw e tt
]
Good-exec idle w b g = tt
Good-exec _ w b g = tt
