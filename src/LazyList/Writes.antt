-- ===== src/LazyList/Writes.antt =====
-- The four writes of artifact/cpp/lazylist to a node: a new value, the link to a new node, the mark of
-- `erase` and its unlinking.
use vcaslib.Common.{
  ℕ, ◌<◌, ◌≡◌, ◌≢◌, refl, inl, inr, subst, ◌∙◌, Bool, true, false, List, update, ◌==◌, ==→≡,
  Bool-cases, arith,
}
use vcaslib.Rq.{Ptr}
use vcaslib.LazyList.{Nodes}
use vcaslib.LazyList.Chain.{one_before}
use vcaslib.LazyList.Known.{known, Tidy, next-known, in_chain}
use vcaslib.LazyList.Keeps.{Keeps}

-- The locks of two threads.
abbrev pub Apart : (mine others : Ptr → Bool) → Type 0
Apart mine others = (a : Ptr) → others a ≡ true → mine a ≡ false

module _ (max : ℕ) (head : Ptr) (h : Nodes) (used : Ptr → Bool) (chain : List Ptr)
    (tidy : Tidy max head h used chain) where
  pub Keeps-refl : (others : Ptr → Bool) → Keeps max head h h chain chain others
  Keeps-refl others = record {
    keys = λ n k. refl;
    stays = λ n k. k;
    own = λ n m k. (refl, refl, refl);
    behind = λ n m k u l. refl;
  }

  -- `store`
  pub Tidy-store :
      (c : Ptr) (v : ℕ) → Tidy max head (record h { val = update h.val c v }) used chain
  Tidy-store c v = record {
    links = tidy.links;
    low = tidy.low;
    tails = tidy.tails;
    taken = tidy.taken;
  }

  pub Keeps-store :
      (c : Ptr) (v : ℕ) (others : Ptr → Bool)
      → ((a : Ptr) → others a ≡ true → (c == a) ≡ false)
      → Keeps max head h (record h { val = update h.val c v }) chain chain others
  Keeps-store c v others apart = record {
    keys = λ n k. refl;
    stays = λ n k. k;
    own = λ n m k. (refl, refl, rw (apart n m) refl);
    behind = λ n m k u l. refl;
  }

  -- `mark`
  marked_before : (c n : Ptr) → h.marked n ≡ true → update h.marked c true n ≡ true
  marked_before c n e = elim (Bool-cases (c == n)) [ inl d ↦ rw d refl | inr d ↦ rw d e ]

  mark-known :
      (c n : Ptr)
      → known head h chain n ≡ true
      → known head (record h { marked = update h.marked c true }) chain n ≡ true
  mark-known c n k = elim (Bool-cases (c == n)) [ inl d ↦ rw d (ground arith) | inr d ↦ rw d k ]

  pub Tidy-mark :
      (c : Ptr)
      → known head h chain c ≡ true
      → h.marked c ≡ false
      → h.key c < max
      → Tidy max head (record h { marked = update h.marked c true }) used chain
  Tidy-mark c k u l = record {
    links = tidy.links;
    low = tidy.low;
    tails = λ n m. elim (Bool-cases (c == n)) [
      | inl d ↦
          let z : c ≡ n = ==→≡ c n d in
          let (a, b) = next-known max head h used chain tidy c k l in
          (
            mark-known c (h.next n) (subst (λ y. known head h chain (h.next y) ≡ true) z a),
            subst (λ y. h.key y < h.key (h.next y)) z b,
            subst (λ y. h.key y < max) z l,
          )
      | inr d ↦
          let m' : h.marked n ≡ true = rw d at m in
          let (a, b, e) = tidy.tails n m' in (mark-known c (h.next n) a, b, e)
    ];
    taken = λ n m. elim (Bool-cases (c == n)) [
      | inl d ↦ subst (λ y. used y ≡ true) (==→≡ c n d) (tidy.taken c k)
      | inr d ↦ let m' : known head h chain n ≡ true = rw d at m in tidy.taken n m'
    ];
  }

  pub Keeps-mark :
      (p c : Ptr) (others : Ptr → Bool)
      → known head h chain p ≡ true
      → h.marked p ≡ false
      → h.key p < max
      → h.next p ≡ c
      → ((a : Ptr) → others a ≡ true → ((c == a) ≡ false) × (p ≢ a))
      → Keeps max head h (record h { marked = update h.marked c true }) chain chain others
  Keeps-mark p c others kp up lp e apart = record {
    keys = λ n k. refl;
    stays = mark-known c;
    own = λ n m k. (rw (apart n m).0 refl, refl, refl);
    behind = λ n m k u l. elim (Bool-cases (c == h.next n)) [
      | inl d ↦ absurd (
          (apart n m).1 (
            one_before max h.next h.key head chain p n tidy.links
              (in_chain max head h used chain tidy p kp up)
              (in_chain max head h used chain tidy n k u) lp l (e ∙ ==→≡ c (h.next n) d)))
      | inr d ↦ rw d refl
    ];
  }
