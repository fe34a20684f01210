-- ===== src/LazyList/Known.antt =====
-- The nodes that a thread can come by, which are those linked from `head` on and those marked: where
-- their links lead.
use vcaslib.Common.{
  ℕ, ◌≤◌, ◌<◌, ◌≡◌, inl, inr, ap, ==→≡, [], Bool, true, false, ◌||◌, List, ◌∷◌, has, Bool-cases,
  arith, ◌==◌, ==-refl,
}
use vcaslib.Rq.{Ptr}
use vcaslib.LazyList.{Nodes}
use vcaslib.LazyList.Chain.{Links, successor, Links-max}

abbrev pub known : (head : Ptr) → Nodes → List Ptr → Ptr → Bool
known head h chain n = has n (head ∷ chain) || h.marked n

-- What holds of the store whatever the threads do.
pub record Tidy (max : ℕ) (head : Ptr) (h : Nodes) (used : Ptr → Bool) (chain : List Ptr)
    : Type 0 where
  pub links : Links max h.next h.key head chain
  pub low : h.key head < max
  pub tails :
      (n : Ptr)
      → h.marked n ≡ true
      → (known head h chain (h.next n) ≡ true) × (h.key n < h.key (h.next n)) × (h.key n < max)
  pub taken : (n : Ptr) → known head h chain n ≡ true → used n ≡ true

module _ (max : ℕ) (head : Ptr) (h : Nodes) (used : Ptr → Bool) (chain : List Ptr)
    (tidy : Tidy max head h used chain) where
  pub head-known : known head h chain head ≡ true
  head-known = ground (arith, ==-refl head)

  pub in_chain :
      (n : Ptr) → known head h chain n ≡ true → h.marked n ≡ false → has n (head ∷ chain) ≡ true
  in_chain n k m = ground (arith, k, m)

  pub next-known :
      (n : Ptr)
      → known head h chain n ≡ true
      → h.key n < max
      → (known head h chain (h.next n) ≡ true) × (h.key n < h.key (h.next n))
  next-known n k l = elim (Bool-cases (h.marked n)) [
    | inl e ↦ let (a, b, c) = tidy.tails n e in (a, b)
    | inr e ↦
        let (a, b) = successor max h.next h.key head chain n tidy.links (in_chain n k e) l in
        (ground (arith, a), b)
  ]

  pub linked :
      (n : Ptr)
      → known head h chain n ≡ true
      → h.marked n ≡ false
      → h.key n < max
      → (has (h.next n) chain ≡ true) × (h.key n < h.key (h.next n))
  linked n k m l = successor max h.next h.key head chain n tidy.links (in_chain n k m) l

  -- Keys of linked nodes are at most KEY_MAX.
  pub chain-below_max : (n : Ptr) → has n (head ∷ chain) ≡ true → h.key n ≤ max
  chain-below_max n i = go head chain tidy.links n i
    where
      go :
          (q : Ptr) (qs : List Ptr)
          → Links max h.next h.key q qs
          → (n : Ptr) → has n (q ∷ qs) ≡ true
          → h.key n ≤ max
      go q [] l n i = omega (arith, l, ap h.key (==→≡ n q (ground (arith, i))))
      go q (r ∷ rs) l n i = elim (Bool-cases (n == q)) [
        | inl e ↦ omega (arith, Links-max max h.next h.key q (r ∷ rs) l, ap h.key (==→≡ n q e))
        | inr e ↦ let j : has n (r ∷ rs) ≡ true = rw e at i in go r rs l.2 n j
      ]

  pub known-below_max : (n : Ptr) → known head h chain n ≡ true → h.key n ≤ max
  known-below_max n k = elim (Bool-cases (h.marked n)) [
    | inl e ↦ omega (arith, (tidy.tails n e).2)
    | inr e ↦ chain-below_max n (in_chain n k e)
  ]
