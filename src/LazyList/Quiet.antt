-- ===== src/LazyList/Quiet.antt =====
-- One access of a thread of artifact/cpp/lazylist, and what the thread knows after it.
use vcaslib.Common.{
  ℕ, suc, ◌≤◌, ◌<◌, ◌≡◌, refl, inl, inr, ap, sym, ◌∙◌, Bool, true, false, List, [], ◌∷◌, ltb, leb,
  ◌==◌, ==→≡, ==-refl, Bool-cases, arith,
}
use vcaslib.Rq.{Ptr}
use vcaslib.LazyList.{
  Nodes, put, del, Pc, idle, done, answered, queried, start, walk, lock_pred, lock_curr, test_pred,
  test_curr, test_link, retry_curr, retry_pred, recheck, peek, grab, fetch, store, link, take,
  after, mark, unlink, free_curr, free_pred, seek, check, look, enter, skip, scan, advance, exec,
}
use vcaslib.LazyList.Chain.{put_after, drop_after}
use vcaslib.LazyList.Known.{Tidy, head-known, next-known, known-below_max}
use vcaslib.LazyList.Good.{Good, Falling, Held}

abbrev pub chain_after : (head : Ptr) → Pc → (n : Ptr) → List Ptr → List Ptr
chain_after head (link v o x p c) n chain = put_after head chain p n
chain_after head (unlink p c r next) n chain = drop_after head chain p
chain_after head _ n chain = chain

pub Falling-mono :
    (lo hi k k' : ℕ) (out : List (ℕ × ℕ)) → k ≤ k' → Falling lo hi k out → Falling lo hi k' out
Falling-mono lo hi k k' [] l f = tt
Falling-mono lo hi k k' ((a, b) ∷ rest) l f = (omega (arith, l, f.0), f.1, f.2, f.3)

module _ (max no_value : ℕ) (head : Ptr) (h : Nodes) (used : Ptr → Bool) (chain : List Ptr)
    (tidy : Tidy max head h used chain) where
  abbrev pub After : Pc → Ptr → Type 0
  After q n = let e = exec no_value head q n h in Good max head e.0 (chain_after head q n chain) e.1

  unequal : (p c : Ptr) → h.key p < h.key c → (c == p) ≡ false
  unequal p c l = elim (Bool-cases (c == p)) [
    | inl e ↦ absurd (omega (arith, l, ap h.key (==→≡ c p e)))
    | inr e ↦ e
  ]

  pub Good-exec : (q : Pc) (n : Ptr) → Good max head h chain q → After q n
  unfolding exec
  Good-exec idle n g = tt
  Good-exec (done r) n g = tt
  Good-exec (answered b) n g = tt
  Good-exec (queried lo hi out) n g = g
  Good-exec (start op x) n g =
      let l : h.key head < max = omega (arith, g) in
      let k = head-known max head h used chain tidy in
      (g.0, g.1, k, (next-known max head h used chain tidy head k l).0, g.0)
  Good-exec (walk (put v o) x p c) n g = elim (Bool-cases (ltb (h.key c) x)) [
    | inl e ↦
        let l : h.key c < x = ground (arith, e) in
        rw e (
          g.0,
          g.1,
          g.3,
          (next-known max head h used chain tidy c g.3 (omega (arith, l, g.1))).0,
          l,
        )
    | inr e ↦ rw e (g.0, g.1, g.2, g.3, g.4, ground (arith, e))
  ]
  Good-exec (walk del x p c) n g = elim (Bool-cases (ltb (h.key c) x)) [
    | inl e ↦
        let l : h.key c < x = ground (arith, e) in
        rw e (
          g.0,
          g.1,
          g.3,
          (next-known max head h used chain tidy c g.3 (omega (arith, l, g.1))).0,
          l,
        )
    | inr e ↦ rw e (elim (Bool-cases (h.key c == x)) [
      | inl d ↦ rw d (g.0, g.1, g.2, g.3, g.4, ==→≡ (h.key c) x d)
      | inr d ↦ rw d tt
    ])
  ]
  Good-exec (lock_pred (put v o) x p c) n g = elim (Bool-cases (h.lock p)) [
    | inl e ↦ rw e g
    | inr e ↦ rw e g
  ]
  Good-exec (lock_pred del x p c) n g = elim (Bool-cases (h.lock p)) [
    | inl e ↦ rw e g
    | inr e ↦ rw e g
  ]
  Good-exec (lock_curr x p c) n g = elim (Bool-cases (h.lock c)) [ inl e ↦ rw e g | inr e ↦ rw e g ]
  Good-exec (test_pred (put v o) x p c) n g = elim (Bool-cases (h.marked p)) [
    | inl e ↦ rw e (g.0, g.1)
    | inr e ↦ rw e (g, e)
  ]
  Good-exec (test_pred del x p c) n g = elim (Bool-cases (h.marked p)) [
    | inl e ↦ rw e (g.0, g.1, unequal p c (omega (arith, g.4, g.5)))
    | inr e ↦ rw e (g, e)
  ]
  Good-exec (test_curr (put v o) x p c) n g = elim (Bool-cases (h.marked c)) [
    | inl e ↦ rw e ((g.0).0, (g.0).1)
    | inr e ↦ rw e (g.0, g.1, tt)
  ]
  Good-exec (test_curr del x p c) n g = elim (Bool-cases (h.marked c)) [
    | inl e ↦ rw e ((g.0).0, (g.0).1, unequal p c (omega (arith, (g.0).4, (g.0).5)))
    | inr e ↦ rw e (g.0, g.1, e)
  ]
  Good-exec (test_link (put v o) x p c) n g = elim (Bool-cases (h.next p == c)) [
    | inl e ↦
        let (a0, a1, a2, a3, a4, a5) = g.0 in
        let held : Held max head h chain x p c = (a2, a3, g.1, ==→≡ (h.next p) c e, a4, a1, a0) in
        rw e (elim (Bool-cases (h.key c == x)) [
          | inl d ↦ rw d (held, ==→≡ (h.key c) x d)
          | inr d ↦ rw d (held, ground (arith, a5, d))
        ])
    | inr e ↦ rw e ((g.0).0, (g.0).1)
  ]
  Good-exec (test_link del x p c) n g = elim (Bool-cases (h.next p == c)) [
    | inl e ↦
        let (a0, a1, a2, a3, a4, a5) = g.0 in
        rw e ((a2, a3, g.1, ==→≡ (h.next p) c e, a4, a1, a0), a5, g.2)
    | inr e ↦ rw e ((g.0).0, (g.0).1, unequal p c (omega (arith, (g.0).4, (g.0).5)))
  ]
  Good-exec (retry_curr x p c) n g = (g.0, g.1)
  Good-exec (retry_pred op x p) n g = g
  Good-exec (recheck v o x p c) n g = elim (Bool-cases (h.marked c)) [
    | inl e ↦ rw e ((g.0).6, (g.0).5)
    | inr e ↦ rw e (elim (Bool-cases o) [ inl d ↦ rw d (g.0, g.1, e) | inr d ↦ rw d (g.0, g.1, e) ])
  ]
  Good-exec (peek x p c) n g = tt
  Good-exec (grab v x p c) n g = elim (Bool-cases (h.lock c)) [ inl e ↦ rw e g | inr e ↦ rw e g ]
  Good-exec (fetch v x p c) n g = (g, refl)
  Good-exec (store v x p c r) n g =
      let (((a0, a1, a2, a3, a4, a5, a6), b, d), e) = g in unequal p c (omega (arith, a4, b))
  Good-exec (link v o x p c) n g = tt
  Good-exec (take x p c) n g = (g, refl)
  Good-exec (after x p c r) n g = (g.0, g.1, refl)
  Good-exec (mark x p c r next) n g =
      let ((a0, a1, a2, a3, a4, a5, a6), b, d) = g.0 in
      let ne : (c == p) ≡ false = unequal p c (omega (arith, a4, b)) in
      (
        ground (arith, a0),
        rw ne a2,
        a3,
        rw (==-refl c) refl,
        g.2,
        omega (arith, b, a5),
        omega (arith, a4, a5),
      )
  Good-exec (unlink p c r next) n g = elim (Bool-cases (c == p)) [
    | inl e ↦ let z = ap h.marked (==→≡ c p e) in absurd (ground (arith, sym (g.3) ∙ z ∙ g.1))
    | inr e ↦ e
  ]
  Good-exec (free_curr p c r) n g = tt
  Good-exec (free_pred p r) n g = tt
  Good-exec (seek x c) n g = elim (Bool-cases (ltb (h.key c) x)) [
    | inl e ↦
        let l : h.key c < max = ground (arith, e, g.1) in
        rw e (g.0, g.1, (next-known max head h used chain tidy c g.2 l).0)
    | inr e ↦ rw e (elim (Bool-cases (h.key c == x)) [
      | inl d ↦ rw d (g.0, g.1, g.2, ==→≡ (h.key c) x d)
      | inr d ↦ rw d tt
    ])
  ]
  Good-exec (check x c) n g = elim (Bool-cases (h.marked c)) [ inl e ↦ rw e tt | inr e ↦ rw e tt ]
  Good-exec (look x c) n g = tt
  Good-exec (enter lo hi) n g =
      let k = head-known max head h used chain tidy in
      (g.0, g.1, (next-known max head h used chain tidy head k tidy.low).0)
  Good-exec (skip lo hi c) n g = elim (Bool-cases (ltb (h.key c) lo)) [
    | inl e ↦
        let l : h.key c < max = ground (arith, e, g.0) in
        rw e (g.0, g.1, (next-known max head h used chain tidy c g.2 l).0)
    | inr e ↦ rw e (g.1, g.2, ground (arith, e), tt)
  ]
  Good-exec (scan lo hi c out) n g = elim (Bool-cases (leb (h.key c) hi)) [
    | inl e ↦
        let l : leb lo (h.key c) ≡ true = ground (arith, g.2) in
        rw (e, l) (g.0, g.1, g.2, ground (arith, e), (omega arith, g.2, ground (arith, e), g.3))
    | inr e ↦ rw e (
        Falling-mono lo hi (h.key c) max out (known-below_max max head h used chain tidy c g.1) g.3)
  ]
  Good-exec (advance lo hi c out) n g =
      let (k, l) = next-known max head h used chain tidy c g.1 (omega (arith, g.3, g.0)) in
      (
        g.0,
        k,
        omega (arith, g.2, l),
        Falling-mono lo hi (suc (h.key c)) (h.key (h.next c)) out (omega (arith, l)) g.4,
      )
