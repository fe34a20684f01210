-- ===== src/Rq/Interleaved/Frozen.antt =====
-- When the version of an address at a time can no longer change: the clock is past the time, and
-- no thread is about to give a node of the address a stamp that is not above the time.
use vcaslib.Common.{
  ℕ, ◌<◌, ◌≡◌, ◌≢◌, ◌⊎◌, refl, sym, ap, true, false, List, [], ◌∷◌, inl, inr, subst, has, update,
  if◌then◌else◌, ◌==◌, ltb, Bool-cases, ==→≡, arith,
}
use vcaslib.Rq.{Ptr, Addr, null, Stamp, tbd, at, Mem, is_tbd, later, init_node}
use vcaslib.Rq.Sequential.{write_addr}
use vcaslib.Rq.Interleaved.{
  Cont, Pc, idle, init_cas, update_cas, update_link, update_load, init_test, read_load,
  version_load, snapshot_add, exec, resume, init_head, to_compare, to_read, to_walk,
}
use vcaslib.Rq.Interleaved.Machine.{
  World, System, after, Step, access, open_null, open_new, open_shared, make_node, call_update,
  call_read, call_read_version, call_snapshot, open_null_at, open_new_at, open_shared_at,
  make_node_for,
}
use vcaslib.Rq.Interleaved.Inv.{Good, Base, Inv, Ext}
use vcaslib.Rq.Interleaved.Keeps.{
  unstamped, absent, exec-Ext, is_tbd-true, Ext-refl, open_null-Ext, open_new-Ext, open_shared-Ext,
  make-Ext,
}

-- The newest node of a list that has a stamp up to `t`; NULL if there is none.
unfoldable pub version : (Ptr → Stamp) → ℕ → List Ptr → Ptr
version ts t [] = null
version ts t (p ∷ ps) =
    let rest = version ts t ps in if is_tbd (ts p) then rest else if later (ts p) t then rest else p

abbrev pub version_at : World → Addr → ℕ → Ptr
version_at w a t = version w.mem.ts t (w.hist a)

pub record Frozen (s : System) (a : Addr) (t : ℕ) : Type 0 where
  pub passed : t < s.mem.timestamp
  pub open_here : s.opened a ≡ true
  pub pending :
      (i : ℕ) (p : Ptr) (cur : ℕ) (k : Cont)
      → s.pc i ≡ init_cas a p cur k
      → s.mem.ts p ≡ tbd
      → t < cur

pub version-same :
    (ts ts' : Ptr → Stamp) (t : ℕ) (xs : List Ptr)
    → ((p : Ptr) → has p xs ≡ true → ts' p ≡ ts p)
    → version ts' t xs ≡ version ts t xs
unfolding version
version-same ts ts' t [] same = refl
version-same ts ts' t (x ∷ xs) same =
    rw (same x (ground arith), version-same ts ts' t xs (λ p i. same p (ground arith)))

version-give :
    (ts : Ptr → Stamp) (t cur : ℕ) (p : Ptr) (xs : List Ptr)
    → ts p ≡ tbd
    → (has p xs ≡ true → t < cur)
    → version (update ts p (at cur)) t xs ≡ version ts t xs
unfolding version
version-give ts t cur p [] u late = refl
version-give ts t cur p (x ∷ xs) u late = elim (Bool-cases (p == x)) [
  | inl e ↦
      let l : ltb t cur ≡ true = ground (arith, late (rw e)) in
      let v : ts x ≡ tbd = subst (λ y. ts y ≡ tbd) (==→≡ p x e) u in
      rw (e, l, v) (version-give ts t cur p xs u (λ i. late (ground arith)))
  | inr e ↦ rw (e, version-give ts t cur p xs u (λ i. late (rw (e, i)))) refl
]

resume-not_cas :
    (b a : Addr) (p q : Ptr) (k l : Cont) (cur : ℕ) → resume b p k ≡ init_cas a q cur l → ⊥
unfolding resume
resume-not_cas b a p q (to_compare old new) l cur h = cc
resume-not_cas b a p q _ l cur h = cc

init_head-not_cas :
    (b a : Addr) (p q : Ptr) (k l : Cont) (cur : ℕ) → init_head b p k ≡ init_cas a q cur l → ⊥
unfolding init_head
init_head-not_cas b a p q k l cur h = elim (Bool-cases (p == null)) [
  | inl t ↦ resume-not_cas b a p q k l cur (rw t at h)
  | inr t ↦ ground arith
]

-- Only a thread that has just read the clock stands before the compare-and-swap of `initTS`.
exec-clock :
    (p : Pc) (m : Mem) (a : Addr) (q : Ptr) (cur : ℕ) (k : Cont)
    → (exec p m).1 ≡ init_cas a q cur k
    → cur ≡ m.timestamp
unfolding exec
exec-clock (update_load b old new) m a q cur k h =
    absurd (init_head-not_cas b a (m.field b) q (to_compare old new) k cur h)
exec-clock (read_load b) m a q cur k h =
    absurd (init_head-not_cas b a (m.field b) q to_read k cur h)
exec-clock (version_load b t) m a q cur k h =
    absurd (init_head-not_cas b a (m.field b) q (to_walk t) k cur h)
exec-clock (init_cas b p c l) m a q cur k h = absurd (resume-not_cas b a p q l k cur h)
exec-clock (init_test b p l) m a q cur k h = elim (Bool-cases (is_tbd (m.ts p))) [
  | inl t ↦ ground arith
  | inr t ↦ absurd (resume-not_cas b a p q l k cur (rw t at h))
]
exec-clock idle m a q cur k h = cc
exec-clock _ m a q cur k h = ground arith

-- The pending stamps of `Frozen`, for one thread.
abbrev Late : World → Addr → ℕ → Pc → Type 0
Late w a t (init_cas b p cur k) = has p (w.hist a) ≡ true → w.mem.ts p ≡ tbd → t < cur
Late w a t idle = Unit
Late w a t _ = Unit

exec-version :
    (p : Pc) (w : World) (a : Addr) (t : ℕ)
    → Base w
    → Good w p
    → Late w a t p
    → version_at (after p w) a t ≡ version_at w a t
unfolding exec version
exec-version (update_cas b old new) w a t h g l = elim (Bool-cases (w.mem.field b == old)) [
  | inl e ↦ rw e (elim (Bool-cases (b == a)) [
    | inl s ↦
        let u : w.mem.ts new ≡ tbd = unstamped w h b old new g.0 g.1 g.2 (==→≡ _ _ e) in
        rw (s, u) (ap (λ c. version_at w c t) (==→≡ b a s))
    | inr s ↦ rw s refl
  ])
  | inr e ↦ rw e refl
]
exec-version (init_cas b p cur k) w a t h g l = elim (Bool-cases (is_tbd (w.mem.ts p))) [
  | inl e ↦
      let u : w.mem.ts p ≡ tbd = is_tbd-true _ e in
      rw e (version-give w.mem.ts t cur p (w.hist a) u (λ i. l i u))
  | inr e ↦ rw e refl
]
exec-version (update_link b old new) w a t h g l = refl
exec-version (snapshot_add u) w a t h g l = refl
exec-version idle w a t h g l = refl
exec-version _ w a t h g l = refl

-- A node of two histories that has no stamp belongs to one address.
home-eq :
    (w : World) (h : Base w) (a b : Addr) (p : Ptr)
    → has p (w.hist a) ≡ true
    → has p (w.hist b) ≡ true
    → w.mem.ts p ≡ tbd
    → a ≡ b
home-eq w h a b p i j u =
    let (o, e) = h.home p a i u in let (o', e') = h.home p b j u in ground arith

-- The first writes of other addresses and the making of nodes leave the versions alone.
open-version :
    (s t : World) (a : Addr) (u : ℕ)
    → t.hist a ≡ s.hist a
    → ((p : Ptr) → has p (s.hist a) ≡ true → t.mem.ts p ≡ s.mem.ts p)
    → version_at t a u ≡ version_at s a u
open-version s t a u e same = rw e (version-same s.mem.ts t.mem.ts u (s.hist a) same)

new-ts :
    (m : Mem) (c : Addr) (p q : Ptr)
    → p ≢ null
    → (p == q) ≡ false
    → (write_addr (init_node m p) c p).ts q ≡ m.ts q
unfolding write_addr init_node
new-ts m c p q ne e = ground arith

shared-ts :
    (m : Mem) (c : Addr) (p q : Ptr) (n : ℕ) → m.ts p ≡ at n → (write_addr m c p).ts q ≡ m.ts q
unfolding write_addr
shared-ts m c p q n e = ground arith

-- A call of an operation does not begin inside `initTS`.
begin-not_cas :
    (pc : ℕ → Pc) (i j : ℕ) (q : Pc) (a : Addr) (p : Ptr) (cur : ℕ) (k : Cont)
    → q ≢ init_cas a p cur k
    → update pc i q j ≡ init_cas a p cur k
    → pc j ≡ init_cas a p cur k
begin-not_cas pc i j q a p cur k ne e = elim (Bool-cases (i == j)) [
  | inl t ↦ absurd (ne (rw t at e))
  | inr t ↦ rw t at e
]

module _ {s : System} (a : Addr) (t : ℕ) (h : Inv s) (f : Frozen s a t) where
  late : (i : ℕ) → Late s.world a t (s.pc i)
  late i = go (s.pc i) refl (h.threads i)
    where
      go : (p : Pc) → s.pc i ≡ p → Good s.world p → Late s.world a t p
      go (init_cas b p cur k) e g = λ j u.
          f.pending i p cur k
            (subst (λ c. s.pc i ≡ init_cas c p cur k) (sym (home-eq s.world h.base a b p j g.0 u))
              e)
            u
      go idle e g = tt
      go _ e g = tt

  -- A change that threads allow keeps `Frozen`, if it leaves no thread with an early stamp.
  Frozen-Ext :
      (v : World) (pc : ℕ → Pc) (backoff : ℕ → ℕ)
      → Ext s.world v
      → ((i : ℕ) (p : Ptr) (cur : ℕ) (k : Cont)
          → pc i ≡ init_cas a p cur k
          → (t < cur) ⊎ (s.pc i ≡ init_cas a p cur k))
      → Frozen (record { world = v; pc = pc; backoff = backoff }) a t
  Frozen-Ext v pc backoff e old = record {
    passed = omega (arith, f.passed, e.clock);
    open_here = e.opens a f.open_here;
    pending = λ i p cur k q u. elim (old i p cur k q) [
      | inl l ↦ l
      | inr r ↦ f.pending i p cur k r (e.waits a p (subst (Good s.world) r (h.threads i)).0 u).0
    ];
  }

  opened-other : (c : Addr) → s.opened c ≡ false → (c == a) ≡ false
  opened-other c e = ground (arith, f.open_here)

  pub Step-Frozen : {s' : System} → Step s s' → Frozen s' a t
  Step-Frozen (access i) =
      Frozen-Ext (after (s.pc i) s.world) _ _ (exec-Ext (s.pc i) s.world h.base (h.threads i))
        λ j p cur k e. elim (Bool-cases (i == j)) [
          | inl q ↦ inl (omega (arith, exec-clock (s.pc i) s.mem a p cur k (rw q at e), f.passed))
          | inr q ↦ inr (rw q at e)
        ]
  Step-Frozen (open_null c o) =
      Frozen-Ext _ s.pc s.backoff (open_null-Ext s.world h.base c o) (λ j p cur k e. inr e)
  Step-Frozen (open_new c p o ne g) =
      Frozen-Ext _ s.pc s.backoff (open_new-Ext s.world h.base c o p ne g) (λ j q cur k e. inr e)
  Step-Frozen (open_shared c b p n o i g) =
      Frozen-Ext _ s.pc s.backoff (open_shared-Ext s.world h.base c o b p n i g)
        (λ j q cur k e. inr e)
  Step-Frozen (make_node p c old o ne g) =
      Frozen-Ext _ s.pc s.backoff (make-Ext s.world h.base p c old o ne g) (λ j q cur k e. inr e)
  Step-Frozen (call_update i c old new g) =
      Frozen-Ext _ _ _ (Ext-refl s.world)
        λ j p cur k e. inr (begin-not_cas s.pc i j _ a p cur k (λ z. cc) e)
  Step-Frozen (call_read i c) =
      Frozen-Ext _ _ _ (Ext-refl s.world)
        λ j p cur k e. inr (begin-not_cas s.pc i j _ a p cur k (λ z. cc) e)
  Step-Frozen (call_read_version i c u o l) =
      Frozen-Ext _ _ _ (Ext-refl s.world)
        λ j p cur k e. inr (begin-not_cas s.pc i j _ a p cur k (λ z. cc) e)
  Step-Frozen (call_snapshot i) =
      Frozen-Ext _ _ _ (Ext-refl s.world)
        λ j p cur k e. inr (begin-not_cas s.pc i j _ a p cur k (λ z. cc) e)

  pub Step-version : {s' : System} → Step s s' → version_at s'.world a t ≡ version_at s.world a t
  Step-version (access i) = exec-version (s.pc i) s.world a t h.base (h.threads i) (late i)
  Step-version (open_null c o) =
      open-version s.world (open_null_at s.world c) a t refl (λ q i. unfold write_addr in refl)
  Step-version (open_new c p o ne g) =
      open-version s.world (open_new_at s.world c p) a t (rw (opened-other c o))
        λ q i. new-ts s.mem c p q ne (absent s.world h.base p g a q i)
  Step-version (open_shared c b p n o i g) =
      open-version s.world (open_shared_at s.world c b p) a t (rw (opened-other c o))
        λ q j. shared-ts s.mem c p q n g
  Step-version (make_node p c old o ne g) =
      open-version s.world (make_node_for s.world p c old) a t refl
        λ q i. unfold init_node in rw (absent s.world h.base p g a q i)
  Step-version (call_update i c old new g) = refl
  Step-version (call_read i c) = refl
  Step-version (call_read_version i c u o l) = refl
  Step-version (call_snapshot i) = refl
