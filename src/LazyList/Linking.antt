-- ===== src/LazyList/Linking.antt =====
-- The two writes of artifact/cpp/lazylist that change what is linked: the link to a new node, and the
-- unlinking of a marked one.
use vcaslib.Common.{
  ℕ, ◌<◌, ◌≡◌, ◌≢◌, refl, inl, inr, ap, sym, subst, ◌∙◌, Bool, true, false, ◌||◌, List, ◌∷◌, has,
  update, ◌==◌, ==→≡, ==-refl, Bool-cases, arith,
}
use vcaslib.Rq.{Ptr}
use vcaslib.LazyList.{Nodes, link_new}
use vcaslib.LazyList.Chain.{put_after, drop_after}
use vcaslib.LazyList.Chain.Changes.{
  in_put, in_put_from, in_drop, in_drop_from, Links-put, Links-drop,
}
use vcaslib.LazyList.Known.{known, Tidy, head-known, next-known, in_chain}
use vcaslib.LazyList.Keeps.{Keeps}

module _ (max : ℕ) (head : Ptr) (h : Nodes) (used : Ptr → Bool) (chain : List Ptr)
    (tidy : Tidy max head h used chain) (p c : Ptr) (kp : known head h chain p ≡ true)
    (up : h.marked p ≡ false) (lp : h.key p < max) (to_c : h.next p ≡ c) where
  -- `link`, of a node `n` that the allocator has not handed out.
  module _ (n : Ptr) (x v : ℕ) (new : used n ≡ false) where
    abbrev pub h1 : Nodes
    h1 = link_new h n x v p c

    fresh : (m : Ptr) → known head h chain m ≡ true → (n == m) ≡ false
    fresh m k = elim (Bool-cases (n == m)) [
      | inl e ↦ absurd (ground (arith, sym (tidy.taken m k) ∙ ap used (sym (==→≡ n m e)) ∙ new))
      | inr e ↦ e
    ]

    link-keys : (m : Ptr) → known head h chain m ≡ true → h1.key m ≡ h.key m
    link-keys m k = rw (fresh m k) refl

    link-marked : (m : Ptr) → known head h chain m ≡ true → h1.marked m ≡ h.marked m
    link-marked m k = rw (fresh m k) refl

    link-next : (m : Ptr) → known head h chain m ≡ true → (p == m) ≡ false → h1.next m ≡ h.next m
    link-next m k d = rw (d, fresh m k) refl

    link-known :
        (m : Ptr) → known head h chain m ≡ true → known head h1 (put_after head chain p n) m ≡ true
    link-known m k = elim (Bool-cases (h.marked m)) [
      | inl e ↦ ground (arith, link-marked m k, e)
      | inr e ↦
          let i = in_put head chain p n m (in_chain max head h used chain tidy m k e) in
          ground (arith, i)
    ]

    pub Keeps-link :
        (others : Ptr → Bool)
        → ((a : Ptr) → others a ≡ true → (p == a) ≡ false)
        → Keeps max head h h1 chain (put_after head chain p n) others
    Keeps-link others apart = record {
      keys = link-keys;
      stays = link-known;
      own = λ m i k. (link-marked m k, link-next m k (apart m i), rw (fresh m k) refl);
      behind = λ m i k u l. link-marked (h.next m) (next-known max head h used chain tidy m k l).0;
    }

    in-known : (m : Ptr) → has m (head ∷ chain) ≡ true → known head h chain m ≡ true
    in-known m i = ground (arith, i)

    pub Tidy-link :
        h.key p < x → x < h.key c → Tidy max head h1 (update used n true) (put_after head chain p n)
    Tidy-link below above = record {
      links =
          Links-put max h.next h1.next h.key h1.key p head chain n tidy.links
            (in_chain max head h used chain tidy p kp up) lp
            (λ m i w. link-next m (in-known m i) (unequal m w)) (λ m i. link-keys m (in-known m i))
            (rw (==-refl p) refl) (rw (not_p, ==-refl n) (sym to_c)) (rw (==-refl n) below)
            (rw (==-refl n) (omega (arith, above, ap h.key to_c)));
      low = omega (arith, link-keys head (head-known max head h used chain tidy), tidy.low);
      tails = tails;
      taken = λ m k. elim (Bool-cases (n == m)) [
        | inl e ↦ rw e refl
        | inr e ↦ rw e (
            tidy.taken m (elim (Bool-cases (h.marked m)) [
              | inl d ↦ ground (arith, d)
              | inr d ↦
                  let k' : has m (head ∷ put_after head chain p n) || h.marked m ≡ true =
                    rw e at k in
                  elim (in_put_from head chain p n m (ground (arith, k', d))) [
                    | inl i ↦ in-known m i
                    | inr z ↦ absurd (ground (arith, e, z, ==-refl m))
                  ]
            ]))
      ];
    }
      where
        unequal : (m : Ptr) → m ≢ p → (p == m) ≡ false
        unequal m w = elim (Bool-cases (p == m)) [
          | inl e ↦ absurd (w (sym (==→≡ p m e)))
          | inr e ↦ e
        ]

        not_p : (p == n) ≡ false
        not_p =
            let f = fresh p kp in
            elim (Bool-cases (p == n)) [
              | inl e ↦ absurd (ground (arith, f, ==→≡ p n e))
              | inr e ↦ e
            ]

        tails :
            (m : Ptr)
            → h1.marked m ≡ true
            → (known head h1 (put_after head chain p n) (h1.next m) ≡ true)
              × (h1.key m < h1.key (h1.next m))
              × (h1.key m < max)
        tails m i = elim (Bool-cases (n == m)) [
          | inl e ↦ let z : false ≡ true = rw e at i in absurd (ground (arith, z))
          | inr e ↦
              let j : h.marked m ≡ true = rw e at i in
              let (a, b, l) = tidy.tails m j in
              let km : known head h chain m ≡ true = ground (arith, j) in
              let d : (p == m) ≡ false = elim (Bool-cases (p == m)) [
                | inl w ↦ absurd (ground (arith, sym up ∙ ap h.marked (==→≡ p m w) ∙ j))
                | inr w ↦ w
              ] in
              let f = link-keys (h.next m) a in
              let g = link-keys m km in
              subst
                (λ y.
                  (known head h1 (put_after head chain p n) y ≡ true)
                  × (h1.key m < h1.key y)
                  × (h1.key m < max))
                (sym (link-next m km d))
                (link-known (h.next m) a, omega (arith, b, f, g), omega (arith, l, g))
        ]

  -- `unlink`
  module _ (next : Ptr) (to_next : h.next c ≡ next) (gone : h.marked c ≡ true)
      (lc : h.key c < max) where
    abbrev pub h2 : Nodes
    h2 = record h { next = update h.next p next }

    unlink-known :
        (m : Ptr) → known head h chain m ≡ true → known head h2 (drop_after head chain p) m ≡ true
    unlink-known m k = elim (Bool-cases (h.marked m)) [
      | inl e ↦ ground (arith, e)
      | inr e ↦
          elim (in_drop max h.next h.key head chain p m tidy.links
            (in_chain max head h used chain tidy p kp up)
            (in_chain max head h used chain tidy m k e)) [
              | inl z ↦ absurd (ground (arith, sym e ∙ ap h.marked (z ∙ to_c) ∙ gone))
              | inr i ↦ ground (arith, i)
            ]
    ]

    pub Keeps-unlink :
        (others : Ptr → Bool)
        → ((a : Ptr) → others a ≡ true → (p == a) ≡ false)
        → Keeps max head h h2 chain (drop_after head chain p) others
    Keeps-unlink others apart = record {
      keys = λ m k. refl;
      stays = unlink-known;
      own = λ m i k. (refl, rw (apart m i) refl, refl);
      behind = λ m i k u l. refl;
    }

    pub Tidy-unlink : Tidy max head h2 used (drop_after head chain p)
    Tidy-unlink = record {
      links =
          Links-drop max h.next h2.next h.key h2.key p head chain tidy.links
            (in_chain max head h used chain tidy p kp up) (omega (arith, lc, ap h.key to_c))
            (λ m i w. rw (unequal m w) refl) (λ m i. refl)
            (rw (==-refl p) (sym (ap h.next to_c ∙ to_next)));
      low = tidy.low;
      tails = λ m i.
          let (a, b, l) = tidy.tails m i in
          let d : (p == m) ≡ false = elim (Bool-cases (p == m)) [
            | inl w ↦ absurd (ground (arith, sym up ∙ ap h.marked (==→≡ p m w) ∙ i))
            | inr w ↦ w
          ] in
          let e : h2.next m ≡ h.next m = rw d refl in
          subst
            (λ y.
              (known head h2 (drop_after head chain p) y ≡ true)
              × (h.key m < h.key y)
              × (h.key m < max))
            (sym e) (unlink-known (h.next m) a, b, l);
      taken = λ m k. tidy.taken m (elim (Bool-cases (h.marked m)) [
        | inl e ↦ ground (arith, e)
        | inr e ↦ let i = in_drop_from head chain p m (ground (arith, k, e)) in ground (arith, i)
      ]);
    }
      where
        unequal : (m : Ptr) → m ≢ p → (p == m) ≡ false
        unequal m w = elim (Bool-cases (p == m)) [
          | inl e ↦ absurd (w (sym (==→≡ p m e)))
          | inr e ↦ e
        ]
