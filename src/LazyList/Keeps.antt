-- ===== src/LazyList/Keeps.antt =====
-- What a step of one thread of artifact/cpp/lazylist leaves to the others: keys stay, a node that a
-- thread came by stays to be come by, a node whose lock it holds does not change, and neither is the
-- node behind that one marked.
use vcaslib.Common.{ℕ, suc, ◌<◌, ◌≡◌, ap, sym, ◌∙◌, Bool, true, false, List, ==-refl, arith}
use vcaslib.Rq.{Ptr}
use vcaslib.LazyList.{
  Nodes, Op, put, del, Pc, idle, done, answered, queried, start, walk, lock_pred, lock_curr,
  test_pred, test_curr, test_link, retry_curr, retry_pred, recheck, peek, grab, fetch, store, link,
  take, after, mark, unlink, free_curr, free_pred, seek, check, look, enter, skip, scan, advance,
}
use vcaslib.LazyList.Known.{known}
use vcaslib.LazyList.Good.{Good, Falling, Between, Held, Found, holds}

pub record Keeps (max : ℕ) (head : Ptr) (h h' : Nodes) (chain chain' : List Ptr) (mine : Ptr → Bool)
    : Type 0 where
  pub keys : (n : Ptr) → known head h chain n ≡ true → h'.key n ≡ h.key n
  pub stays : (n : Ptr) → known head h chain n ≡ true → known head h' chain' n ≡ true
  pub own :
      (n : Ptr)
      → mine n ≡ true
      → known head h chain n ≡ true
      → (h'.marked n ≡ h.marked n) × (h'.next n ≡ h.next n) × (h'.val n ≡ h.val n)
  pub behind :
      (n : Ptr)
      → mine n ≡ true
      → known head h chain n ≡ true
      → h.marked n ≡ false
      → h.key n < max
      → h'.marked (h.next n) ≡ h.marked (h.next n)

module _ (max : ℕ) (head : Ptr) (h h' : Nodes) (chain chain' : List Ptr) where
  Between-Keeps :
      (mine : Ptr → Bool)
      → Keeps max head h h' chain chain' mine
      → (op : Op) (x : ℕ) (p c : Ptr) → known head h chain head ≡ true
      → Between max head h chain op x p c
      → Between max head h' chain' op x p c
  Between-Keeps mine k (put v o) x p c z (a0, a1, a2, a3, a4, a5) =
      let kp = k.keys p a2 in
      let kc = k.keys c a3 in
      (
        omega (arith, k.keys head z, a0),
        a1,
        k.stays p a2,
        k.stays c a3,
        omega (arith, kp, a4),
        omega (arith, kc, a5),
      )
  Between-Keeps mine k del x p c z (a0, a1, a2, a3, a4, a5) =
      let kp = k.keys p a2 in
      (
        omega (arith, k.keys head z, a0),
        a1,
        k.stays p a2,
        k.stays c a3,
        omega (arith, kp, a4),
        k.keys c a3 ∙ a5,
      )

  Held-Keeps :
      (mine : Ptr → Bool)
      → Keeps max head h h' chain chain' mine
      → (x : ℕ) (p c : Ptr) → known head h chain head ≡ true
      → mine p ≡ true
      → Held max head h chain x p c
      → Held max head h' chain' x p c
  Held-Keeps mine k x p c z m (a0, a1, a2, a3, a4, a5, a6) =
      let (om, on, ov) = k.own p m a0 in
      let kp = k.keys p a0 in
      (
        k.stays p a0,
        k.stays c a1,
        om ∙ a2,
        on ∙ a3,
        omega (arith, kp, a4),
        a5,
        omega (arith, k.keys head z, a6),
      )

  Found-Keeps :
      (mine : Ptr → Bool)
      → Keeps max head h h' chain chain' mine
      → (x : ℕ) (p c : Ptr) → known head h chain head ≡ true
      → mine p ≡ true
      → Found max head h chain x p c
      → Found max head h' chain' x p c
  Found-Keeps mine k x p c z m (held, b, d) =
      let (a0, a1, a2, a3, a4, a5, a6) = held in
      let e : h'.marked c ≡ h.marked c =
        ap h'.marked (sym a3) ∙ k.behind p m a0 a2 (omega (arith, a4, a5)) ∙ ap h.marked a3 in
      (Held-Keeps mine k x p c z m held, k.keys c a1 ∙ b, e ∙ d)

  Falling-Keeps :
      (lo hi k k' : ℕ) (out : List (ℕ × ℕ)) → k' ≡ k → Falling lo hi k out → Falling lo hi k' out
  Falling-Keeps lo hi k k' out e f = rw e f

  module _ (low : known head h chain head ≡ true) where
    pub Good-Keeps :
        (q : Pc)
        → Keeps max head h h' chain chain' (holds q)
        → Good max head h chain q
        → Good max head h' chain' q
    Good-Keeps idle k g = tt
    Good-Keeps (done r) k g = tt
    Good-Keeps (answered b) k g = tt
    Good-Keeps (queried lo hi out) k g = g
    Good-Keeps (start op x) k g = (omega (arith, k.keys head low, g.0), g.1)
    Good-Keeps (walk op x p c) k g =
        let kp = k.keys p g.2 in
        (
          omega (arith, k.keys head low, g.0),
          g.1,
          k.stays p g.2,
          k.stays c g.3,
          omega (arith, kp, g.4),
        )
    Good-Keeps (lock_pred op x p c) k g =
        Between-Keeps (holds (lock_pred op x p c)) k op x p c low g
    Good-Keeps (lock_curr x p c) k g = Between-Keeps (holds (lock_curr x p c)) k del x p c low g
    Good-Keeps (test_pred op x p c) k g =
        Between-Keeps (holds (test_pred op x p c)) k op x p c low g
    Good-Keeps (test_curr (put v o) x p c) k g = (
      Between-Keeps (holds (test_curr (put v o) x p c)) k (put v o) x p c low g.0,
      (k.own p (==-refl p) (g.0).2).0 ∙ g.1,
    )
    Good-Keeps (test_curr del x p c) k g = (
      Between-Keeps (holds (test_curr del x p c)) k del x p c low g.0,
      (k.own p (ground (arith, ==-refl p)) (g.0).2).0 ∙ g.1,
    )
    Good-Keeps (test_link (put v o) x p c) k g = (
      Between-Keeps (holds (test_link (put v o) x p c)) k (put v o) x p c low g.0,
      (k.own p (==-refl p) (g.0).2).0 ∙ g.1,
      tt,
    )
    Good-Keeps (test_link del x p c) k g = (
      Between-Keeps (holds (test_link del x p c)) k del x p c low g.0,
      (k.own p (ground (arith, ==-refl p)) (g.0).2).0 ∙ g.1,
      (k.own c (ground (arith, ==-refl c)) (g.0).3).0 ∙ g.2,
    )
    Good-Keeps (retry_curr x p c) k g = (omega (arith, k.keys head low, g.0), g.1, g.2)
    Good-Keeps (retry_pred op x p) k g = (omega (arith, k.keys head low, g.0), g.1)
    Good-Keeps (recheck v o x p c) k g =
        (Held-Keeps (holds (recheck v o x p c)) k x p c low (==-refl p) g.0, k.keys c (g.0).1 ∙ g.1)
    Good-Keeps (peek x p c) k g = Found-Keeps (holds (peek x p c)) k x p c low (==-refl p) g
    Good-Keeps (grab v x p c) k g = Found-Keeps (holds (grab v x p c)) k x p c low (==-refl p) g
    Good-Keeps (fetch v x p c) k g =
        Found-Keeps (holds (fetch v x p c)) k x p c low (ground (arith, ==-refl p)) g
    Good-Keeps (store v x p c r) k g = (
      Found-Keeps (holds (store v x p c r)) k x p c low (ground (arith, ==-refl p)) g.0,
      (k.own c (ground (arith, ==-refl c)) ((g.0).0).1).2 ∙ g.1,
    )
    Good-Keeps (link v o x p c) k g =
        let kc = k.keys c (g.0).1 in
        (Held-Keeps (holds (link v o x p c)) k x p c low (==-refl p) g.0, omega (arith, kc, g.1))
    Good-Keeps (take x p c) k g =
        Found-Keeps (holds (take x p c)) k x p c low (ground (arith, ==-refl p)) g
    Good-Keeps (after x p c r) k g = (
      Found-Keeps (holds (after x p c r)) k x p c low (ground (arith, ==-refl p)) g.0,
      (k.own c (ground (arith, ==-refl c)) ((g.0).0).1).2 ∙ g.1,
    )
    Good-Keeps (mark x p c r next) k g =
        let (_, on, ov) = k.own c (ground (arith, ==-refl c)) ((g.0).0).1 in
        (
          Found-Keeps (holds (mark x p c r next)) k x p c low (ground (arith, ==-refl p)) g.0,
          ov ∙ g.1,
          on ∙ g.2,
        )
    Good-Keeps (unlink p c r next) k (a0, a1, a2, a3, a4, a5, a6) =
        let (pm, pn, _) = k.own p (ground (arith, ==-refl p)) a0 in
        let known_c : known head h chain c ≡ true = ground (arith, a3) in
        let (cm, cn, _) = k.own c (ground (arith, ==-refl c)) known_c in
        let kp = k.keys p a0 in
        let kc = k.keys c known_c in
        (
          k.stays p a0,
          pm ∙ a1,
          pn ∙ a2,
          cm ∙ a3,
          cn ∙ a4,
          omega (arith, kc, a5),
          omega (arith, kp, a6),
        )
    Good-Keeps (free_curr p c r) k g = g
    Good-Keeps (free_pred p r) k g = tt
    Good-Keeps (seek x c) k g = (omega (arith, k.keys head low, g.0), g.1, k.stays c g.2)
    Good-Keeps (check x c) k g =
        (omega (arith, k.keys head low, g.0), g.1, k.stays c g.2, k.keys c g.2 ∙ g.3)
    Good-Keeps (look x c) k g = tt
    Good-Keeps (enter lo hi) k g = g
    Good-Keeps (skip lo hi c) k g = (g.0, g.1, k.stays c g.2)
    Good-Keeps (scan lo hi c out) k g =
        let e = k.keys c g.1 in
        (
          g.0,
          k.stays c g.1,
          omega (arith, e, g.2),
          Falling-Keeps lo hi (h.key c) (h'.key c) out e g.3,
        )
    Good-Keeps (advance lo hi c out) k g =
        let e = k.keys c g.1 in
        (
          g.0,
          k.stays c g.1,
          omega (arith, e, g.2),
          omega (arith, e, g.3),
          Falling-Keeps lo hi (suc (h.key c)) (suc (h'.key c)) out (ap (λ z. suc z) e) g.4,
        )
