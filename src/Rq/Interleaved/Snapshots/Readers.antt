-- ===== src/Rq/Interleaved/Snapshots/Readers.antt =====
-- What a thread in `read_addr(tid, addr, ts)` knows about the version that it looks for.
use vcaslib.Common.{
  ℕ, ◌<◌, ◌≡◌, ◌≢◌, ◌⊎◌, refl, sym, ◌∙◌, true, false, List, [], ◌∷◌, inl, inr, subst, has, tail,
  ◌==◌, Bool-cases, ==→≡, arith,
}
use vcaslib.Rq.{Ptr, Addr, null, tbd, later, is_tbd}
use vcaslib.Rq.Interleaved.{
  Cont, to_walk, to_win, to_compare, to_read, Pc, idle, update_cas, init_test, init_clock, init_cas,
  version_load, version_walk, version_done, update_load, update_compare, read_load, snapshot_test,
  exec, resume, init_head,
}
use vcaslib.Rq.Interleaved.Machine.{
  World, System, after, Step, access, open_null, open_new, open_shared, make_node, call_update,
  call_read, call_read_version, call_snapshot,
}
use vcaslib.Rq.Interleaved.History.{Linked, tbd-head}
use vcaslib.Rq.Interleaved.Inv.{Good, Inv}
use vcaslib.Rq.Interleaved.Keeps.{Step-Ext, Step-Inv, Stamp-cases, is_tbd-false}
use vcaslib.Rq.Interleaved.Frozen.{version_at, Frozen, Step-Frozen, Step-version}
use vcaslib.Rq.Interleaved.Snapshots.Walk.{
  Walk, Walk-keep, Walk-null, Walk-found, Walk-next, freeze-Frozen, freeze-Walk,
}

abbrev Known : System → Addr → Ptr → Cont → Type 0
Known s a p (to_walk t) = s.mem.ts p ≢ tbd → Frozen s a t × Walk s.world a t p
Known s a p to_win = Unit
Known s a p _ = Unit

abbrev pub Reads : System → Pc → Type 0
Reads s (init_test a p k) = Known s a p k
Reads s (init_clock a p k) = Known s a p k
Reads s (init_cas a p cur k) = Known s a p k
Reads s (version_walk a t p) = Frozen s a t × Walk s.world a t p
Reads s (version_done a t p) = Frozen s a t × (version_at s.world a t ≡ p)
Reads s idle = Unit
Reads s _ = Unit

-- A step that stamps a node of a history leaves that history as it is.
exec-hist :
    (p : Pc) (w : World) (a : Addr) (q : Ptr)
    → w.mem.ts q ≡ tbd
    → (after p w).mem.ts q ≢ tbd
    → (after p w).hist a ≡ w.hist a
unfolding exec
exec-hist (update_cas b old new) w a q u g = elim (Bool-cases (w.mem.field b == old)) [
  | inl e ↦ absurd (rw e at g u)
  | inr e ↦ rw e refl
]
exec-hist idle w a q u g = refl
exec-hist _ w a q u g = refl

Step-hist :
    {s t : System}
    → Step s t
    → Inv s
    → (a : Addr) (q : Ptr) → s.opened a ≡ true
    → s.mem.ts q ≡ tbd
    → t.mem.ts q ≢ tbd
    → t.hist a ≡ s.hist a
Step-hist {s} (access i) h a q o u g = exec-hist (s.pc i) s.world a q u g
Step-hist (open_null c e) h a q o u g = refl
Step-hist (open_new c p e ne k) h a q o u g = ground arith
Step-hist (open_shared c b p n e i k) h a q o u g = ground arith
Step-hist (make_node p c old e ne k) h a q o u g = refl
Step-hist (call_update i c old new k) h a q o u g = refl
Step-hist (call_read i c) h a q o u g = refl
Step-hist (call_read_version i c t e l) h a q o u g = refl
Step-hist (call_snapshot i) h a q o u g = refl

field-top :
    {s : System}
    → Inv s
    → (a : Addr) (p : Ptr) (xs : List Ptr) → s.hist a ≡ p ∷ xs
    → s.mem.field a ≡ p
field-top {s} h a p xs e = (subst (Linked s.mem.nextv (s.mem.field a)) e (h.base.linked a)).0

-- With a stamp on its newest node, a read of a history is settled.
settle :
    {s : System}
    → Inv s
    → (a : Addr) (t : ℕ) (p : Ptr) (xs : List Ptr) → s.opened a ≡ true
    → t < s.mem.timestamp
    → s.hist a ≡ p ∷ xs
    → s.mem.ts p ≢ tbd
    → Frozen s a t × Walk s.world a t p
settle {s} h a t p xs o l e g =
    let top = λ (q : Ptr) (d : s.hist a ≡ q ∷ tail (s.hist a)).
      subst (λ c. s.mem.ts c ≢ tbd) (head_eq (sym e ∙ d)) g in
    (
      freeze-Frozen h a t o l top,
      subst (Walk s.world a t) (field-top h a p xs e) (freeze-Walk h a t o l top),
    )
  where
    head_eq : {x y : Ptr} {us vs : List Ptr} → x ∷ us ≡ y ∷ vs → x ≡ y
    head_eq d = cc

module _ {s t : System} (st : Step s t) (h : Inv s) where
  pub Frozen-Walk-keep :
      (a : Addr) (u : ℕ) (p : Ptr)
      → Frozen s a u × Walk s.world a u p
      → Frozen t a u × Walk t.world a u p
  Frozen-Walk-keep a u p (f, k) =
      (Step-Frozen a u h f st, Walk-keep (Step-Ext st h) a u p (Step-version a u h f st) k)

  Known-keep :
      (a : Addr) (p : Ptr) (u : ℕ)
      → has p (s.hist a) ≡ true
      → s.opened a ≡ true
      → u < s.mem.timestamp
      → Known s a p (to_walk u)
      → Known t a p (to_walk u)
  Known-keep a p u i o l k g = elim (Stamp-cases (s.mem.ts p)) [
    | inr (n, e) ↦ Frozen-Walk-keep a u p (k (λ z. ground arith))
    | inl e ↦
        settle (Step-Inv st h) a u p (tail (s.hist a)) ((Step-Ext st h).opens a o)
          (omega (arith, (Step-Ext st h).clock))
          (Step-hist st h a p o e g
            ∙ tbd-head s.mem.ts s.mem.timestamp p (s.hist a) (h.base.stamps a) i e)
          g
  ]

  given-keep : (a : Addr) (p : Ptr) → has p (s.hist a) ≡ true → s.mem.ts p ≢ tbd → t.mem.ts p ≢ tbd
  given-keep a p i g = elim (Stamp-cases (s.mem.ts p)) [
    | inl e ↦ absurd (g e)
    | inr (n, e) ↦ λ v. ground (arith, (Step-Ext st h).keeps a p n i e)
  ]

  Known-all :
      (a : Addr) (p : Ptr) (k : Cont)
      → Good s.world (init_test a p k)
      → Known s a p k
      → Known t a p k
  Known-all a p (to_walk u) g r = Known-keep a p u g.0 g.1.0 g.1.1 r
  Known-all a p to_win g r = tt
  Known-all a p _ g r = tt

  pub Reads-keep : (q : Pc) → Good s.world q → Reads s q → Reads t q
  Reads-keep (init_test a p k) g r = Known-all a p k g r
  Reads-keep (init_clock a p k) g r = Known-all a p k g r
  Reads-keep (init_cas a p cur k) g r = Known-all a p k (g.0, g.1) r
  Reads-keep (version_walk a u p) g r = Frozen-Walk-keep a u p r
  Reads-keep (version_done a u p) g r = (Step-Frozen a u h r.0 st, Step-version a u h r.0 st ∙ r.1)
  Reads-keep idle g r = tt
  Reads-keep _ g r = tt

-- A history without nodes is settled at once, and one whose newest node is stamped.
settle-empty :
    {s : System}
    → Inv s
    → (a : Addr) (u : ℕ) → s.opened a ≡ true
    → u < s.mem.timestamp
    → s.hist a ≡ []
    → Frozen s a u × Walk s.world a u (s.mem.field a)
settle-empty {s} h a u o l e =
    let top = λ (q : Ptr) (d : s.hist a ≡ q ∷ tail (s.hist a)). absurd (nil_ne (sym e ∙ d)) in
    (freeze-Frozen h a u o l top, freeze-Walk h a u o l top)
  where
    nil_ne : {x : Ptr} {us : List Ptr} → [] ≡ x ∷ us → ⊥
    nil_ne d = cc

-- What an address holds is NULL, with an empty history, or the newest node of its history.
field-cases :
    {s : System}
    → Inv s
    → (a : Addr)
    → (s.hist a ≡ []) ⊎ ((xs : List Ptr) × (s.hist a ≡ s.mem.field a ∷ xs) × (s.mem.field a ≢ null))
field-cases {s} h a = go (s.hist a) refl (h.base.linked a)
  where
    go :
        (xs : List Ptr)
        → s.hist a ≡ xs
        → Linked s.mem.nextv (s.mem.field a) xs
        → (s.hist a ≡ [])
          ⊎ ((xs : List Ptr) × (s.hist a ≡ s.mem.field a ∷ xs) × (s.mem.field a ≢ null))
    go [] e i = inl e
    go (x ∷ xs) e i =
        inr (xs, subst (λ y. s.hist a ≡ y ∷ xs) (sym i.0) e, subst (λ y. y ≢ null) (sym i.0) i.1)

abbrev pub Stamped : System → Pc → Type 0
Stamped t (init_cas a p cur k) = t.mem.ts p ≢ tbd
Stamped t idle = Unit
Stamped t _ = Unit

module _ {s t : System} (st : Step s t) (h : Inv s) where
  resume-Reads :
      (a : Addr) (p : Ptr) (k : Cont) → t.mem.ts p ≢ tbd → Known t a p k → Reads t (resume a p k)
  unfolding resume
  resume-Reads a p (to_walk u) g r = r g
  resume-Reads a p to_win g r = tt
  resume-Reads a p _ g r = tt

  head-Reads :
      (a : Addr) (p : Ptr) (k : Cont)
      → (p ≡ null → Reads t (resume a p k))
      → Known t a p k
      → Reads t (init_head a p k)
  unfolding init_head
  head-Reads a p k z r = elim (Bool-cases (p == null)) [
    | inl e ↦ rw e (z (==→≡ p null e))
    | inr e ↦ rw e r
  ]

  load-null :
      (a : Addr) (n : ℕ)
      → Good s.world (version_load a n)
      → s.mem.field a ≡ null
      → Frozen s a n × Walk s.world a n (s.mem.field a)
  load-null a n g e = elim (field-cases h a) [
    | inl d ↦ settle-empty h a n g.0 g.1 d
    | inr (xs, d, ne) ↦ absurd (ne e)
  ]

  load-later :
      (a : Addr) (n : ℕ) → Good s.world (version_load a n) → Known t a (s.mem.field a) (to_walk n)
  load-later a n g = elim (field-cases h a) [
    | inl d ↦ λ v. Frozen-Walk-keep st h a n (s.mem.field a) (settle-empty h a n g.0 g.1 d)
    | inr (xs, d, ne) ↦
        Known-keep st h a (s.mem.field a) n (ground arith) g.0 g.1
          (settle h a n (s.mem.field a) xs g.0 g.1 d)
  ]

  -- One access keeps what the thread that makes it knows.
  pub exec-Reads : (q : Pc) → Good s.world q → Reads s q → Stamped t q → Reads t (exec q s.mem).1
  unfolding exec resume
  exec-Reads (update_load a old new) g r u =
      head-Reads a (s.mem.field a) (to_compare old new) (λ e. tt) tt
  exec-Reads (read_load a) g r u = head-Reads a (s.mem.field a) to_read (λ e. tt) tt
  exec-Reads (version_load a n) g r u =
      head-Reads a (s.mem.field a) (to_walk n)
        (λ e. Frozen-Walk-keep st h a n (s.mem.field a) (load-null a n g e)) (load-later a n g)
  exec-Reads (init_test a p k) g r u = elim (Bool-cases (is_tbd (s.mem.ts p))) [
    | inl e ↦ rw e (Known-all st h a p k g r)
    | inr e ↦
        rw e (
          resume-Reads a p k (given-keep st h a p g.0 (is_tbd-false _ e))
            (Known-all st h a p k g r))
  ]
  exec-Reads (init_clock a p k) g r u = Known-all st h a p k g r
  exec-Reads (init_cas a p cur k) g r u = resume-Reads a p k u (Known-all st h a p k (g.0, g.1) r)
  exec-Reads (version_walk a n p) g r u = elim (Bool-cases (p == null)) [
    | inl e ↦
        rw e (Reads-keep st h (version_done a n p) tt (r.0, null_version a n p (==→≡ p null e) r.1))
    | inr e ↦ rw e (elim (Bool-cases (later (s.mem.ts p) n)) [
      | inl l ↦ rw l (
          Frozen-Walk-keep st h a n (s.mem.nextv p)
            (r.0, Walk-next s.world a n p (==-false p e) l r.1))
      | inr l ↦ rw l (
          Reads-keep st h (version_done a n p) tt
            (r.0, Walk-found s.world a n p (==-false p e) l r.1))
    ])
  ]
    where
      ==-false : (p : Ptr) → (p == null) ≡ false → p ≢ null
      ==-false p e = ground arith

      null_version :
          (a : Addr) (n : ℕ) (p : Ptr) → p ≡ null → Walk s.world a n p → version_at s.world a n ≡ p
      null_version a n p e k = Walk-null s.world a n (subst (Walk s.world a n) e k) ∙ sym e
  exec-Reads (version_done a n p) g r u = Reads-keep st h (version_done a n p) g r
  exec-Reads (update_cas a old new) g r u = elim (Bool-cases (s.mem.field a == old)) [
    | inl e ↦ rw e tt
    | inr e ↦ rw e tt
  ]
  exec-Reads (update_compare a old new head) g r u = elim (Bool-cases (head == old)) [
    | inl e ↦ rw e (elim (Bool-cases (new == old)) [ inl d ↦ rw d tt | inr d ↦ rw d tt ])
    | inr e ↦ rw e tt
  ]
  exec-Reads (snapshot_test n) g r u = elim (Bool-cases (n == s.mem.timestamp)) [
    | inl e ↦ rw e tt
    | inr e ↦ rw e tt
  ]
  exec-Reads idle g r u = tt
  exec-Reads _ g r u = tt
