-- ===== src/LazyList/Laws.antt =====
-- artifact/cpp/lazylist with any number of threads: the map it stands for, its order, its locks, its
-- range queries and the progress of its searches.
use vcaslib.Common.{
  ℕ, ◌≤◌, ◌<◌, ◌≡◌, ◌≢◌, ◌⊎◌, refl, inl, inr, ap, sym, subst, ◌∙◌, true, false, List, [], ◌∷◌,
  Option, ltb, ◌==◌, ==-refl, Bool-cases, arith,
}
use vcaslib.Rq.{Ptr}
use vcaslib.LazyList.{Nodes, Op, walk, queried, arrive, exec}
use vcaslib.LazyList.Machine.{System, run, Reach}
use vcaslib.LazyList.Chain.{Links, Links-max}
use vcaslib.LazyList.Known.{known, next-known, known-below_max}
use vcaslib.LazyList.Good.{Good, Falling, holds}
use vcaslib.LazyList.Invariant.{Reach-Inv}
use vcaslib.LazyList.Effects.{contents}

-- The nodes behind `head` stand for the map `f`.
abbrev pub Shows : (max : ℕ) (head : Ptr) → Nodes → (ℕ → Option ℕ) → Type 0
Shows max head h f =
    (chain : List Ptr) × (Links max h.next h.key head chain) × ((x : ℕ) → contents h chain x ≡ f x)

pub Links-once :
    (max : ℕ) (next : Ptr → Ptr) (key : Ptr → ℕ) (q : Ptr) (xs ys : List Ptr)
    → Links max next key q xs
    → Links max next key q ys
    → xs ≡ ys
Links-once max next key q [] [] l m = refl
Links-once max next key q [] (y ∷ ys) l m =
    absurd (omega (arith, l, m.1, Links-max max next key y ys m.2))
Links-once max next key q (x ∷ xs) [] l m =
    absurd (omega (arith, m, l.1, Links-max max next key x xs l.2))
Links-once max next key q (x ∷ xs) (y ∷ ys) l m =
    let e : y ≡ x = sym (m.0) ∙ l.0 in
    let m' : Links max next key x ys = subst (λ z. Links max next key z ys) e m.2 in
    ap (λ z. z ∷ xs) (sym e) ∙ ap (λ z. y ∷ z) (Links-once max next key x xs ys l.2 m')

module _ (min max no_value : ℕ) (head last : Ptr) (ordered : min < max)
    (two : (head == last) ≡ false) (s : System) (r : Reach min max no_value head last s) where
  -- Whatever the threads have done, the links lead from `head` over rising keys to a node with
  -- KEY_MAX, and the link of a node that has been marked, also when it is unlinked, leads to a
  -- node with a greater key that is marked or linked from `head`.
  pub list_ordered :
      (chain : List Ptr) × (Links max s.heap.next s.heap.key head chain)
      × ((n : Ptr)
          → s.heap.marked n ≡ true
          → (known head s.heap chain (s.heap.next n) ≡ true)
            × (s.heap.key n < s.heap.key (s.heap.next n)))
  list_ordered =
      let (chain, inv) = Reach-Inv min max no_value head last ordered two r in
      (chain, inv.tidy.links, λ n m. let (a, b, _) = inv.tidy.tails n m in (a, b))

  -- The lock of a node that a thread holds is set, and no other thread holds it.
  pub list_exclusive :
      (t u : ℕ) (a : Ptr)
      → holds (s.pc t) a ≡ true
      → t ≢ u
      → (s.heap.lock a ≡ true) × (holds (s.pc u) a ≡ false)
  list_exclusive t u a m w =
      let (chain, inv) = Reach-Inv min max no_value head last ordered two r in
      (
        (inv.locked t a m).0,
        elim (Bool-cases (holds (s.pc u) a)) [
          | inl e ↦ absurd (w (inv.exclusive t u a m e))
          | inr e ↦ e
        ],
      )

  -- The keys that a range query has found lie in its range and are in order, without repetition.
  pub queries_ordered :
      (t lo hi : ℕ) (out : List (ℕ × ℕ)) → s.pc t ≡ queried lo hi out → Falling lo hi max out
  queries_ordered t lo hi out e =
      let (chain, inv) = Reach-Inv min max no_value head last ordered two r in
      subst (λ q. Good max head s.heap chain q) e (inv.good t)

  -- While the key of its node is smaller than the one it looks for, a search goes on to a node with a
  -- greater key, none of which is above KEY_MAX, so that it ends; else it stops at that node.
  pub search_advances :
      (t : ℕ) (op : Op) (x : ℕ) (p c : Ptr) (n : Ptr)
      → s.pc t ≡ walk op x p c
      → ((s.heap.key c < x)
          × ((run no_value head s t n).pc t ≡ walk op x c (s.heap.next c))
          × (s.heap.key c < s.heap.key (s.heap.next c))
          × (s.heap.key (s.heap.next c) ≤ max))
        ⊎ ((x ≤ s.heap.key c)
            × ((run no_value head s t n).pc t ≡ arrive no_value op x p c (s.heap.key c)))
  unfolding exec
  search_advances t op x p c n e =
      let (chain, inv) = Reach-Inv min max no_value head last ordered two r in
      let g : Good max head s.heap chain (walk op x p c) =
        subst (λ q. Good max head s.heap chain q) e (inv.good t) in
      let to : (run no_value head s t n).pc t ≡ (exec no_value head (walk op x p c) n s.heap).1 =
        rw (==-refl t) (ap (λ q. (exec no_value head q n s.heap).1) e) in
      elim (Bool-cases (ltb (s.heap.key c) x)) [
        | inl d ↦
            let l : s.heap.key c < x = ground (arith, d) in
            let (k, up) =
              next-known max head s.heap s.used chain inv.tidy c g.3 (omega (arith, l, g.1)) in
            inl (
              l,
              to ∙ rw d refl,
              up,
              known-below_max max head s.heap s.used chain inv.tidy (s.heap.next c) k,
            )
        | inr d ↦ inr (ground (arith, d), to ∙ rw d refl)
      ]
