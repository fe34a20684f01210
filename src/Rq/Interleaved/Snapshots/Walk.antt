-- ===== src/Rq/Interleaved/Snapshots/Walk.antt =====
-- What a thread in the `while` of `read_addr(tid, addr, ts)` knows: the version that it looks for
-- is the version of the rest of the list.
use vcaslib.Common.{
  ℕ, ◌<◌, ◌≡◌, ◌≢◌, refl, sym, ◌∙◌, true, false, List, [], ◌∷◌, inl, inr, subst, has, tail, ltb,
  arith,
}
use vcaslib.Rq.{Ptr, Addr, null, tbd, later}
use vcaslib.Rq.Interleaved.Machine.{World, System}
use vcaslib.Rq.Interleaved.History.{
  Linked, Goals, Below, Stamps-given, Below-all, Below-keep, Below-weaken, tbd-head, Goals-goal,
  Linked-keep, Goals-keep,
}
use vcaslib.Rq.Interleaved.Inv.{Good, Inv, Ext}
use vcaslib.Rq.Interleaved.Keeps.{Stamp-cases}
use vcaslib.Rq.Interleaved.Frozen.{version, version_at, version-same, Frozen}

pub record Walk (w : World) (a : Addr) (t : ℕ) (p : Ptr) : Type 0 where
  pub rest : List Ptr
  pub linked : Linked w.mem.nextv p rest
  pub goals : Goals w.goal w.mem.nextv rest
  pub inside : (q : Ptr) → has q rest ≡ true → has q (w.hist a) ≡ true
  pub given : Below w.mem.ts w.mem.timestamp rest
  pub same : version w.mem.ts t rest ≡ version_at w a t

module _ {w v : World} (e : Ext w v) (a : Addr) (t : ℕ) (p : Ptr)
    (eq : version_at v a t ≡ version_at w a t) (k : Walk w a t p) where
  next_same : (q : Ptr) → has q k.rest ≡ true → v.mem.nextv q ≡ w.mem.nextv q
  next_same q i =
      let (b, g) = Goals-goal w.goal w.mem.nextv q k.rest k.goals i in
      e.nexts q b (w.mem.nextv q) g refl

  stamp_same : (q : Ptr) → has q k.rest ≡ true → v.mem.ts q ≡ w.mem.ts q
  stamp_same q i = elim (Stamp-cases (w.mem.ts q)) [
    | inl u ↦ absurd (Below-all w.mem.ts w.mem.timestamp q k.rest k.given i u)
    | inr (n, u) ↦ e.keeps a q n (k.inside q i) u ∙ sym u
  ]

  pub Walk-keep : Walk v a t p
  Walk-keep = record {
    rest = k.rest;
    linked = Linked-keep w.mem.nextv v.mem.nextv p k.rest next_same k.linked;
    goals = Goals-keep w.mem.nextv v.mem.nextv w.goal v.goal k.rest next_same e.aims k.goals;
    inside = λ q i. e.stays a q (k.inside q i);
    given = Below-weaken v.mem.ts w.mem.timestamp v.mem.timestamp k.rest e.clock (
        Below-keep w.mem.ts v.mem.ts w.mem.timestamp k.rest
          (λ q n i u. e.keeps a q n (k.inside q i) u) k.given);
    same = version-same w.mem.ts v.mem.ts t k.rest stamp_same ∙ (k.same ∙ sym eq);
  }

-- A read that finds a stamp on what the address holds, or finds NULL, freezes the version.
module _ {s : System} (h : Inv s) (a : Addr) (t : ℕ) (o : s.opened a ≡ true)
    (l : t < s.mem.timestamp)
    (top : (p : Ptr) → s.hist a ≡ p ∷ tail (s.hist a) → s.mem.ts p ≢ tbd) where
  pub freeze-Frozen : Frozen s a t
  freeze-Frozen = record {
    passed = l;
    open_here = o;
    pending = λ i p cur k q u.
        let g = subst (Good s.world) q (h.threads i) in
        absurd (top p (tbd-head s.mem.ts s.mem.timestamp p (s.hist a) (h.base.stamps a) g.0 u) u);
  }

  pub freeze-Walk : Walk s.world a t (s.mem.field a)
  freeze-Walk = record {
    rest = s.hist a;
    linked = h.base.linked a;
    goals = h.base.goals a;
    inside = λ q i. i;
    given = Stamps-given s.mem.ts s.mem.timestamp (s.hist a) top (h.base.stamps a);
    same = refl;
  }

-- The three ways out of the test of the loop.
module _ (w : World) (a : Addr) (t : ℕ) where
  pub Walk-null : Walk w a t null → version_at w a t ≡ null
  unfolding version
  Walk-null k = go k.rest k.linked k.same
    where
      go :
          (xs : List Ptr)
          → Linked w.mem.nextv null xs
          → version w.mem.ts t xs ≡ version_at w a t
          → version_at w a t ≡ null
      go [] i e = sym e
      go (x ∷ xs) i e = absurd (i.1 (sym i.0))

  version_head :
      (p : Ptr) (xs : List Ptr)
      → p ≢ null
      → later (w.mem.ts p) t ≡ false
      → Linked w.mem.nextv p xs
      → Below w.mem.ts w.mem.timestamp xs
      → version w.mem.ts t xs ≡ p
  unfolding version
  version_head p [] ne e i b = absurd (ne i)
  version_head p (x ∷ xs) ne e i (n, u, l, b) =
      let f : ltb t n ≡ false =
        subst (λ c. later c t ≡ false) u (subst (λ q. later (w.mem.ts q) t ≡ false) i.0 e) in
      rw (u, f) (sym i.0)

  pub Walk-found :
      (p : Ptr) → p ≢ null → later (w.mem.ts p) t ≡ false → Walk w a t p → version_at w a t ≡ p
  Walk-found p ne e k = sym k.same ∙ version_head p k.rest ne e k.linked k.given

  pub Walk-next :
      (p : Ptr) → p ≢ null → later (w.mem.ts p) t ≡ true → Walk w a t p → Walk w a t (w.mem.nextv p)
  unfolding version
  Walk-next p ne e k = go k.rest k.linked k.goals k.inside k.given k.same
    where
      go :
          (xs : List Ptr)
          → Linked w.mem.nextv p xs
          → Goals w.goal w.mem.nextv xs
          → ((q : Ptr) → has q xs ≡ true → has q (w.hist a) ≡ true)
          → Below w.mem.ts w.mem.timestamp xs
          → version w.mem.ts t xs ≡ version_at w a t
          → Walk w a t (w.mem.nextv p)
      go [] i g s b v = absurd (ne i)
      go (x ∷ xs) i g s (n, u, l, b) v =
          let f : later (w.mem.ts x) t ≡ true = subst (λ q. later (w.mem.ts q) t ≡ true) i.0 e in
          let f' : ltb t n ≡ true = subst (λ c. later c t ≡ true) u f in
          record {
            rest = xs;
            linked = subst (λ q. Linked w.mem.nextv (w.mem.nextv q) xs) (sym i.0) i.2;
            goals = g.1;
            inside = λ q j. s q (ground arith);
            given = Below-weaken w.mem.ts n w.mem.timestamp xs l b;
            same = rw (u, f') at v;
          }
