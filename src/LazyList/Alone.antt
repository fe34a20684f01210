-- ===== src/LazyList/Alone.antt =====
-- Operations of artifact/cpp/lazylist that run while no other thread does: the accesses of one thread
-- in a row, and the search with which `doInsert` and `erase` begin.
pub mod Ends
pub mod Laws
pub mod Queries
use vcaslib.Common.{
  ℕ, zero, suc, ◌+◌, ◌≤◌, ◌<◌, ◌≡◌, ◌≢◌, ◌⊎◌, refl, inl, inr, ap, sym, subst, ◌∙◌, Bool, true,
  false, ◌||◌, ◌&&◌, not, List, [], ◌∷◌, has, update, Option, none, some, if◌then◌else◌, ltb, leb,
  ◌==◌, ==→≡, ==-refl, Bool-cases, arith,
}
use vcaslib.Rq.{Ptr}
use vcaslib.LazyList.{
  Nodes, Op, put, del, Pc, idle, done, answered, queried, start, walk, lock_pred, lock_curr,
  test_pred, test_curr, test_link, retry_curr, retry_pred, recheck, peek, grab, fetch, store, link,
  take, after, mark, unlink, free_curr, free_pred, seek, check, look, enter, skip, scan, advance,
  exec, arrive, valid, locked, set_lock, link_new,
}
use vcaslib.LazyList.Chain.{Links, put_after, drop_after}
use vcaslib.LazyList.Known.{known, Tidy}

-- The accesses of one thread, and no others; `n` is the node that the allocator hands out.
module _ (no_value : ℕ) (head : Ptr) (n : Ptr) where
  unfoldable pub alone : ℕ → Nodes × Pc → Nodes × Pc
  alone zero (h, q) = (h, q)
  alone (suc k) (h, q) = alone k (exec no_value head q n h)

  -- It gets from one point to another.
  abbrev pub Goes : Pc → Nodes → Nodes × Pc → Type 0
  Goes q h e = (k : ℕ) × alone k (h, q) ≡ e

  arrived : (q : Pc) (h : Nodes) → Goes q h (h, q)
  unfolding alone
  arrived q h = (0, refl)

  then_on :
      (q : Pc) (h : Nodes) (q' : Pc) (h' : Nodes) (e : Nodes × Pc)
      → exec no_value head q n h ≡ (h', q')
      → Goes q' h' e
      → Goes q h e
  unfolding alone
  then_on q h q' h' e step (k, run) = (suc k, ap (λ z. alone k z) step ∙ run)

  module _ (max : ℕ) (h : Nodes) (x : ℕ) (op : Op) where
    -- The search ends at the two nodes around `x`.
    pub search-alone :
        (q : Ptr) (qs : List Ptr)
        → Links max h.next h.key q qs
        → h.key q < x
        → x < max
        → (p : Ptr) × (has p (q ∷ qs) ≡ true)
          × (h.key p < x)
          × (x ≤ h.key (h.next p))
          × ((e : Nodes × Pc)
              → Goes (arrive no_value op x p (h.next p) (h.key (h.next p))) h e
              → Goes (walk op x q (h.next q)) h e)
    unfolding exec
    search-alone q [] l below above = absurd (omega (arith, l, below, above))
    search-alone q (r ∷ rs) l below above = elim (Bool-cases (ltb (h.key (h.next q)) x)) [
      | inl d ↦
          let low : h.key r < x = ground (arith, d, ap h.key l.0) in
          let (p, i, b, a, go) = search-alone r rs l.2 low above in
          (
            p,
            ground (arith, i),
            b,
            a,
            λ e g.
                then_on (walk op x q (h.next q)) h (walk op x (h.next q) (h.next (h.next q))) h e
                  (rw d refl) (subst (λ y. Goes (walk op x y (h.next y)) h e) (sym l.0) (go e g)),
          )
      | inr d ↦ (
        q,
        ground (arith, ==-refl q),
        below,
        ground (arith, d),
        λ e g.
            then_on (walk op x q (h.next q)) h
              (arrive no_value op x q (h.next q) (h.key (h.next q))) h e (rw d refl) g,
      )
    ]
