-- ===== src/Rq/Interleaved/Keeps/Opens.antt =====
-- What happens outside the update: the first write of an address, and the making of a node.
use vcaslib.Common.{
  ℕ, ◌≡◌, ◌≢◌, refl, true, false, none, some, inl, inr, subst, has, update, ◌==◌, Bool-cases, ==→≡,
  ==-refl, arith,
}
use vcaslib.Rq.{Ptr, Addr, null, tbd, at, Mem, set_field, init_node}
use vcaslib.Rq.Sequential.{write_addr}
use vcaslib.Rq.Interleaved.Machine.{World, open_null_at, open_new_at, open_shared_at, make_node_for}
use vcaslib.Rq.Interleaved.History.{
  Stamps-keep, Goals-goal, Linked-keep, Goals-keep, Linked-from, Goals-from, Stamps-from,
  has-ne-null, from-given,
}
use vcaslib.Rq.Interleaved.Inv.{Base, Ext}

-- What `write_addr` does, for the values that it is given.
write_null : (m : Mem) (a : Addr) → write_addr m a null ≡ set_field m a null
unfolding write_addr
write_null m a = refl

write_stamped :
    (m : Mem) (a : Addr) (p : Ptr) (n : ℕ)
    → p ≢ null
    → m.ts p ≡ at n
    → write_addr m a p ≡ set_field m a p
unfolding write_addr
write_stamped m a p n ne e = ground arith

abbrev new_mem : Mem → Addr → Ptr → Mem
new_mem m a p = record m {
  field = update m.field a p;
  ts = update (update m.ts p tbd) p (at 0);
  nextv = update m.nextv p null;
}

write_new :
    (m : Mem) (a : Addr) (p : Ptr) → p ≢ null → write_addr (init_node m p) a p ≡ new_mem m a p
unfolding write_addr init_node
write_new m a p ne = ground arith

module _ (w : World) (b : Base w) where
  -- A node that was made for nothing stands in no history.
  pub absent :
      (p : Ptr)
      → w.goal p ≡ none
      → (c : Addr) (q : Ptr) → has q (w.hist c) ≡ true
      → (p == q) ≡ false
  absent p e c q i =
      let (d, k) = Goals-goal w.goal w.mem.nextv q (w.hist c) (b.goals c) i in ground arith

  module _ (p : Ptr) (a : Addr) (old : Ptr) (o : w.opened a ≡ true) (ne : p ≢ null)
      (e : w.goal p ≡ none) where
    pub make-Base : Base (make_node_for w p a old)
    unfolding init_node
    make-Base = record {
      linked = λ c.
          Linked-keep w.mem.nextv (update w.mem.nextv p null) (w.mem.field c) (w.hist c)
            (λ q i. rw (absent p e c q i)) (b.linked c);
      goals = λ c.
          Goals-keep w.mem.nextv (update w.mem.nextv p null) w.goal
            (update w.goal p (some (a, old))) (w.hist c) (λ q i. rw (absent p e c q i))
            (λ q x k. ground arith) (b.goals c);
      stamps = λ c.
          Stamps-keep w.mem.ts (update w.mem.ts p tbd) w.mem.timestamp w.mem.timestamp (omega arith)
            (w.hist c) (λ q n i k. rw (absent p e c q i) k) (λ q i k. rw (absent p e c q i) k)
            (b.stamps c);
      stamped = λ q c r k u. ground (arith, b.stamped q c r);
      home = λ q c i k. let (r, g) = b.home q c i (rw (absent p e c q i) at k) in (r, ground arith);
      real = λ q c r k. ground (arith, b.real q c r);
      shut = b.shut;
    }

    pub make-Ext : Ext w (make_node_for w p a old)
    unfolding init_node
    make-Ext = record {
      clock = omega arith;
      keeps = λ c q n i k. rw (absent p e c q i) k;
      stays = λ c q i. i;
      aims = λ q x k. ground arith;
      opens = λ c k. k;
      nexts = λ q c r k n. ground arith;
      waits = λ c q i u. (rw (absent p e c q i) at u, refl);
    }

  module _ (a : Addr) (o : w.opened a ≡ false) where
    not_goal : (q : Ptr) (r : Ptr) → w.goal q ≡ some (a, r) → ⊥
    not_goal q r k = ground (arith, b.real q a r)

    empty : (c : Addr) (q : Ptr) → (a == c) ≡ true → has q (w.hist c) ≡ true → ⊥
    empty c q t i = ground (arith, b.shut c, ==→≡ a c)

    pub open_null-Base : Base (open_null_at w a)
    open_null-Base = rw (write_null w.mem a) (record {
      linked = λ c. elim (Bool-cases (a == c)) [
        | inl t ↦ rw (t, b.shut c (subst (λ x. w.opened x ≡ false) (==→≡ a c t) o)) refl
        | inr t ↦ rw t (b.linked c)
      ];
      goals = b.goals;
      stamps = b.stamps;
      stamped = b.stamped;
      home = b.home;
      real = λ q c r k. ground (arith, b.real q c r);
      shut = λ c k. b.shut c (ground arith);
    })

    pub open_null-Ext : Ext w (open_null_at w a)
    open_null-Ext = rw (write_null w.mem a) (record {
      clock = omega arith;
      keeps = λ c q n i k. k;
      stays = λ c q i. i;
      aims = λ q x k. k;
      opens = λ c k. ground arith;
      nexts = λ q c r k n. n;
      waits = λ c q i u. (u, refl);
    })

    module _ (d : Addr) (p : Ptr) (n : ℕ) (i : has p (w.hist d) ≡ true)
        (e : w.mem.ts p ≡ at n) where
      written : write_addr w.mem a p ≡ set_field w.mem a p
      written =
          write_stamped w.mem a p n
            (has-ne-null w.mem.nextv (w.mem.field d) p (w.hist d) (b.linked d) i) e

      pub open_shared-Base : Base (open_shared_at w a d p)
      open_shared-Base = rw written (record {
        linked = λ c. elim (Bool-cases (a == c)) [
          | inl t ↦ rw t (Linked-from w.mem.nextv (w.mem.field d) p (w.hist d) (b.linked d) i)
          | inr t ↦ rw t (b.linked c)
        ];
        goals = λ c. elim (Bool-cases (a == c)) [
          | inl t ↦ rw t (Goals-from w.goal w.mem.nextv p (w.hist d) (b.goals d))
          | inr t ↦ rw t (b.goals c)
        ];
        stamps = λ c. elim (Bool-cases (a == c)) [
          | inl t ↦ rw t (Stamps-from w.mem.ts w.mem.timestamp p n (w.hist d) (b.stamps d) i e)
          | inr t ↦ rw t (b.stamps c)
        ];
        stamped = λ q c r k u. elim (Bool-cases (a == c)) [
          | inl t ↦ absurd (not_goal q r (subst (λ x. w.goal q ≡ some (x, r)) (ground arith) k))
          | inr t ↦ rw t (b.stamped q c r k u)
        ];
        home = λ q c j u. elim (Bool-cases (a == c)) [
          | inl t ↦
              absurd
                (from-given w.mem.ts w.mem.timestamp n p q (w.hist d) (b.stamps d) e (rw t at j) u)
          | inr t ↦ b.home q c (rw t at j) u
        ];
        real = λ q c r k. ground (arith, b.real q c r);
        shut = λ c k. elim (Bool-cases (a == c)) [
          | inl t ↦ absurd (ground arith)
          | inr t ↦ rw t (b.shut c (rw t at k))
        ];
      })

      pub open_shared-Ext : Ext w (open_shared_at w a d p)
      open_shared-Ext = rw written (record {
        clock = omega arith;
        keeps = λ c q m j k. k;
        stays =
            λ c q j. elim (Bool-cases (a == c)) [ inl t ↦ absurd (empty c q t j) | inr t ↦ rw t j ];
        aims = λ q x k. k;
        opens = λ c k. ground arith;
        nexts = λ q c r k m. m;
        waits = λ c q j u. elim (Bool-cases (a == c)) [
          | inl t ↦ absurd (empty c q t j)
          | inr t ↦ rw t (u, refl)
        ];
      })

    module _ (p : Ptr) (ne : p ≢ null) (e : w.goal p ≡ none) where
      spared :
          (c : Addr) (q : Ptr)
          → has q (w.hist c) ≡ true
          → update w.mem.nextv p null q ≡ w.mem.nextv q
      spared c q i = rw (absent p e c q i)

      pub open_new-Base : Base (open_new_at w a p)
      open_new-Base = rw (write_new w.mem a p ne) (record {
        linked = λ c. elim (Bool-cases (a == c)) [
          | inl t ↦ rw (t, ==-refl p) (refl, ne, refl)
          | inr t ↦ rw t (
              Linked-keep w.mem.nextv (update w.mem.nextv p null) (w.mem.field c) (w.hist c)
                (spared c) (b.linked c))
        ];
        goals = λ c. elim (Bool-cases (a == c)) [
          | inl t ↦ rw (t, ==-refl p) ((a, refl), tt)
          | inr t ↦ rw t (
              Goals-keep w.mem.nextv (update w.mem.nextv p null) w.goal
                (update w.goal p (some (a, null))) (w.hist c) (spared c) (λ q x k. ground arith)
                (b.goals c))
        ];
        stamps = λ c. elim (Bool-cases (a == c)) [
          | inl t ↦ rw (t, ==-refl p) (omega arith, tt)
          | inr t ↦ rw t (
              Stamps-keep w.mem.ts (update (update w.mem.ts p tbd) p (at 0)) w.mem.timestamp
                w.mem.timestamp (omega arith) (w.hist c) (λ q n i k. rw (absent p e c q i) k)
                (λ q i k. rw (absent p e c q i) k) (b.stamps c))
        ];
        stamped = λ q c r k u. elim (Bool-cases (p == q)) [
          | inl t ↦ ground arith
          | inr t ↦ elim (Bool-cases (a == c)) [
            | inl s ↦ absurd (not_goal q r (ground arith))
            | inr s ↦ rw s (b.stamped q c r (rw t at k) (rw t at u))
          ]
        ];
        home = λ q c j u. elim (Bool-cases (p == q)) [
          | inl t ↦ ground arith
          | inr t ↦ elim (Bool-cases (a == c)) [
            | inl s ↦ ground arith
            | inr s ↦ let (r, g) = b.home q c (rw s at j) (rw t at u) in (r, rw t g)
          ]
        ];
        real = λ q c r k. ground (arith, b.real q c r);
        shut = λ c k. elim (Bool-cases (a == c)) [
          | inl t ↦ absurd (ground arith)
          | inr t ↦ rw t (b.shut c (rw t at k))
        ];
      })

      pub open_new-Ext : Ext w (open_new_at w a p)
      open_new-Ext = rw (write_new w.mem a p ne) (record {
        clock = omega arith;
        keeps = λ c q n i k. rw (absent p e c q i) k;
        stays =
            λ c q j. elim (Bool-cases (a == c)) [ inl t ↦ absurd (empty c q t j) | inr t ↦ rw t j ];
        aims = λ q x k. ground arith;
        opens = λ c k. ground arith;
        nexts = λ q c r k n. ground arith;
        waits = λ c q j u. elim (Bool-cases (a == c)) [
          | inl t ↦ absurd (empty c q t j)
          | inr t ↦ rw t (rw (absent p e c q j) at u, refl)
        ];
      })
