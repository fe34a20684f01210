-- ===== src/Rq/Interleaved/Keeps/Stores.antt =====
-- The stores that a thread makes: a stamp, a `nextv` pointer, a compare-and-swap, a tick.
use vcaslib.Common.{
  ℕ, ◌+◌, ◌≤◌, ◌≡◌, ◌≢◌, refl, true, some, ◌∷◌, ◌⊎◌, inl, inr, subst, has, tail, update, ◌==◌,
  Bool-cases, ==→≡, arith,
}
use vcaslib.Rq.{Ptr, Addr, Stamp, tbd, at, set_ts, set_nextv, set_field}
use vcaslib.Rq.Interleaved.Machine.{World}
use vcaslib.Rq.Interleaved.History.{
  Linked, Below, not-has-head, Stamps-keep, Stamps-give, Stamps-given, Below-all, Goals-goal,
  Linked-keep, Goals-keep,
}
use vcaslib.Rq.Interleaved.Inv.{Loaded, Base, Ext}

abbrev pub pushed_at : World → Addr → Ptr → World
pushed_at w a new = record w {
  mem = set_field w.mem a new;
  hist = update w.hist a (new ∷ w.hist a);
}

-- Nothing changes.
pub Ext-refl : (w : World) → Ext w w
Ext-refl w = record {
  clock = omega arith;
  keeps = λ a p n i e. e;
  stays = λ a p i. i;
  aims = λ p x e. e;
  opens = λ a e. e;
  nexts = λ p a o e k. k;
  waits = λ a p i u. (u, refl);
}

module _ (w : World) (b : Base w) where
  -- The compare-and-swap of `initTS`.
  module _ (a : Addr) (p : Ptr) (cur : ℕ) (i : has p (w.hist a) ≡ true) (u : w.mem.ts p ≡ tbd)
      (le : cur ≤ w.mem.timestamp) (below : Below w.mem.ts cur (tail (w.hist a))) where
    below_at : (c : Addr) → has p (w.hist c) ≡ true → Below w.mem.ts cur (tail (w.hist c))
    below_at c j =
        let (o, e) = b.home p c j u in
        let (o', e') = b.home p a i u in
        subst (λ x. Below w.mem.ts cur (tail (w.hist x))) (ground arith) below

    pub give-Base : Base (record w { mem = set_ts w.mem p (at cur) })
    give-Base = record {
      linked = b.linked;
      goals = b.goals;
      stamps =
          λ c. Stamps-give w.mem.ts w.mem.timestamp cur p (w.hist c) le u (below_at c) (b.stamps c);
      stamped = λ q c o e k. elim (Bool-cases (p == q)) [
        | inl t ↦
            let (o', e') = b.home p a i u in
            subst (λ x. has x (w.hist c) ≡ true) (==→≡ p q t)
              (subst (λ x. has p (w.hist x) ≡ true) (ground arith) i)
        | inr t ↦ b.stamped q c o e (rw t at k)
      ];
      home = λ q c j k. b.home q c j (ground arith);
      real = b.real;
      shut = b.shut;
    }

    pub give-Ext : Ext w (record w { mem = set_ts w.mem p (at cur) })
    give-Ext = record {
      clock = omega arith;
      keeps = λ c q n j e. ground arith;
      stays = λ c q j. j;
      aims = λ q x e. e;
      opens = λ c e. e;
      nexts = λ q c o e k. k;
      waits = λ c q j k. (ground arith, refl);
    }

  -- The tick of `takeSnapshot`.
  pub tick-Base : Base (record w { mem = record w.mem { timestamp = w.mem.timestamp + 1 } })
  tick-Base = record {
    linked = b.linked;
    goals = b.goals;
    stamps = λ c.
        Stamps-keep w.mem.ts w.mem.ts w.mem.timestamp (w.mem.timestamp + 1) (omega arith) (w.hist c)
          (λ p n i e. e) (λ p i e. e) (b.stamps c);
    stamped = b.stamped;
    home = b.home;
    real = b.real;
    shut = b.shut;
  }

  pub tick-Ext : Ext w (record w { mem = record w.mem { timestamp = w.mem.timestamp + 1 } })
  tick-Ext = record {
    clock = omega arith;
    keeps = λ a p n i e. e;
    stays = λ a p i. i;
    aims = λ p x e. e;
    opens = λ a e. e;
    nexts = λ p a o e k. k;
    waits = λ a p i u. (u, refl);
  }

  module _ (a : Addr) (old new : Ptr) (g : w.goal new ≡ some (a, old)) where
    -- `lin_newval->nextv = lin_oldval`, which spares every node of a history.
    spares :
        (c : Addr) (p : Ptr)
        → has p (w.hist c) ≡ true
        → update w.mem.nextv new old p ≡ w.mem.nextv p
    spares c p i = elim (Bool-cases (new == p)) [
      | inl t ↦
          let (d, e) = Goals-goal w.goal w.mem.nextv p (w.hist c) (b.goals c) i in ground arith
      | inr t ↦ rw t
    ]

    pub link-Base : Base (record w { mem = set_nextv w.mem new old })
    link-Base = record {
      linked = λ c.
          Linked-keep w.mem.nextv (update w.mem.nextv new old) (w.mem.field c) (w.hist c) (spares c)
            (b.linked c);
      goals = λ c.
          Goals-keep w.mem.nextv (update w.mem.nextv new old) w.goal w.goal (w.hist c) (spares c)
            (λ p x e. e) (b.goals c);
      stamps = b.stamps;
      stamped = b.stamped;
      home = b.home;
      real = b.real;
      shut = b.shut;
    }

    pub link-Ext : Ext w (record w { mem = set_nextv w.mem new old })
    link-Ext = record {
      clock = omega arith;
      keeps = λ c p n i e. e;
      stays = λ c p i. i;
      aims = λ p x e. e;
      opens = λ c e. e;
      nexts = λ p c o e k. ground arith;
      waits = λ c p i u. (u, refl);
    }

    -- The compare-and-swap of `linearize_update_at_cas`, when it succeeds.
    module _ (l : Loaded w a old) (n : w.mem.nextv new ≡ old) (f : w.mem.field a ≡ old) where
      fresh : has new (w.hist a) ≡ true → ⊥
      fresh =
          not-has-head w.mem.nextv old new (w.hist a)
            (subst (λ q. Linked w.mem.nextv q (w.hist a)) f (b.linked a)) n

      pub unstamped : w.mem.ts new ≡ tbd
      unstamped = elim (Stamp-tbd (w.mem.ts new)) [
        | inl e ↦ e
        | inr e ↦ absurd (fresh (b.stamped new a old g e))
      ]
        where
          Stamp-tbd : (c : Stamp) → (c ≡ tbd) ⊎ (c ≢ tbd)
          Stamp-tbd tbd = inl refl
          Stamp-tbd (at k) = inr (λ e. cc)

      given : (p : Ptr) → w.hist a ≡ p ∷ tail (w.hist a) → w.mem.ts p ≢ tbd
      given p e =
          let k : Linked w.mem.nextv old (p ∷ tail (w.hist a)) =
            subst (λ q. Linked w.mem.nextv q (p ∷ tail (w.hist a))) f
              (subst (λ xs. Linked w.mem.nextv (w.mem.field a) xs) e (b.linked a)) in
          elim l [
            | inl z ↦ absurd (k.1 (omega (arith, k.0)))
            | inr h ↦ subst (λ q. w.mem.ts q ≢ tbd) k.0 h.1
          ]

      all_given : Below w.mem.ts w.mem.timestamp (w.hist a)
      all_given = Stamps-given w.mem.ts w.mem.timestamp (w.hist a) given (b.stamps a)

      pub push-Base : Base (pushed_at w a new)
      push-Base = record {
        linked = λ c. elim (Bool-cases (a == c)) [
          | inl t ↦ rw t (
            refl,
            (b.real new a old g).0,
            rw n (subst (λ q. Linked w.mem.nextv q (w.hist a)) f (b.linked a)),
          )
          | inr t ↦ rw t (b.linked c)
        ];
        goals = λ c. elim (Bool-cases (a == c)) [
          | inl t ↦ rw t ((a, rw n g), b.goals a)
          | inr t ↦ rw t (b.goals c)
        ];
        stamps = λ c. elim (Bool-cases (a == c)) [
          | inl t ↦ rw (t, unstamped) all_given
          | inr t ↦ rw t (b.stamps c)
        ];
        stamped = λ q c o e k. ground (arith, b.stamped q c o e k);
        home = λ q c i k. elim (Bool-cases (a == c)) [
          | inl t ↦ elim (Bool-cases (q == new)) [
            | inl s ↦ (old, ground arith)
            | inr s ↦ b.home q c (ground arith) k
          ]
          | inr t ↦ b.home q c (rw t at i) k
        ];
        real = b.real;
        shut = λ c e. elim (Bool-cases (a == c)) [
          | inl t ↦ ground (arith, (b.real new a old g).1)
          | inr t ↦ rw t (b.shut c e)
        ];
      }

      pub push-Ext : Ext w (pushed_at w a new)
      push-Ext = record {
        clock = omega arith;
        keeps = λ c p k i e. e;
        stays = λ c p i. ground arith;
        aims = λ p x e. e;
        opens = λ c e. e;
        nexts = λ p c o e k. k;
        waits = λ c p i u. elim (Bool-cases (a == c)) [
          | inl t ↦ absurd (
              Below-all w.mem.ts w.mem.timestamp p (w.hist a) all_given
                (subst (λ x. has p (w.hist x) ≡ true) (ground arith) i) u)
          | inr t ↦ rw t (u, refl)
        ];
      }
