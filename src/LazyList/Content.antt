-- ===== src/LazyList/Content.antt =====
-- The map that the nodes of artifact/cpp/lazylist stand for, behind `head`: what a change of one node
-- makes of it.
use vcaslib.Common.{
  ℕ, ◌≤◌, ◌≡◌, ◌≢◌, ◌⊎◌, refl, inl, inr, ap, sym, ◌∙◌, Bool, true, false, ◌&&◌, not, List, [], ◌∷◌,
  has, Option, none, some, if◌then◌else◌, ◌==◌, ==→≡, ==-refl, Bool-cases, arith,
}
use vcaslib.Rq.{Ptr}
use vcaslib.LazyList.Chain.{Links, content, put_after, drop_after, keys_rise}

unequal : (a b : ℕ) → a ≢ b → (a == b) ≡ false
unequal a b w = elim (Bool-cases (a == b)) [ inl e ↦ absurd (w (==→≡ a b e)) | inr e ↦ e ]

module _ (max : ℕ) (next : Ptr → Ptr) (key : Ptr → ℕ) where
  -- The keys tell the nodes apart, and none lies between those of two neighbours.
  pub key-once :
      (q : Ptr) (qs : List Ptr) (m c : Ptr)
      → Links max next key q qs
      → has m qs ≡ true
      → has c qs ≡ true
      → key m ≡ key c
      → m ≡ c
  key-once q [] m c l i j e = absurd (ground (arith, i))
  key-once q (r ∷ rs) m c l i j e = elim (Bool-cases (m == r)) [
    | inl d ↦ elim (Bool-cases (c == r)) [
      | inl w ↦ ==→≡ m r d ∙ sym (==→≡ c r w)
      | inr w ↦
          let j' : has c rs ≡ true = rw w at j in
          absurd (omega (arith, keys_rise max next key r rs c l.2 j', e, ap key (==→≡ m r d)))
    ]
    | inr d ↦
        let i' : has m rs ≡ true = rw d at i in
        elim (Bool-cases (c == r)) [
          | inl w ↦
              absurd (omega (arith, keys_rise max next key r rs m l.2 i', e, ap key (==→≡ c r w)))
          | inr w ↦ let j' : has c rs ≡ true = rw w at j in key-once r rs m c l.2 i' j' e
        ]
  ]

  pub gap :
      (q : Ptr) (qs : List Ptr) (p m : Ptr)
      → Links max next key q qs
      → has p (q ∷ qs) ≡ true
      → has m qs ≡ true
      → (key m ≤ key p) ⊎ (key (next p) ≤ key m)
  gap q [] p m l i j = absurd (ground (arith, j))
  gap q (r ∷ rs) p m l i j = elim (Bool-cases (p == q)) [
    | inl e ↦
        let z : next p ≡ r = ap next (==→≡ p q e) ∙ l.0 in
        inr (elim (Bool-cases (m == r)) [
          | inl d ↦ omega (arith, ap key z, ap key (==→≡ m r d))
          | inr d ↦
              let j' : has m rs ≡ true = rw d at j in
              omega (arith, ap key z, keys_rise max next key r rs m l.2 j')
        ])
    | inr e ↦
        let i' : has p (r ∷ rs) ≡ true = rw e at i in
        elim (Bool-cases (m == r)) [
          | inl d ↦ inl (elim (Bool-cases (p == r)) [
            | inl w ↦ omega (arith, ap key (==→≡ m r d), ap key (==→≡ p r w))
            | inr w ↦
                let k : has p rs ≡ true = rw w at i' in
                omega (arith, keys_rise max next key r rs p l.2 k, ap key (==→≡ m r d))
          ])
          | inr d ↦ let j' : has m rs ≡ true = rw d at j in gap r rs p m l.2 i' j'
        ]
  ]

  module _ (val : Ptr → ℕ) (marked : Ptr → Bool) where
    pub content-found :
        (q : Ptr) (qs : List Ptr) (c : Ptr)
        → Links max next key q qs
        → has c qs ≡ true
        → marked c ≡ false
        → content key val marked qs (key c) ≡ some (val c)
    content-found q [] c l i u = absurd (ground (arith, i))
    content-found q (r ∷ rs) c l i u = elim (Bool-cases (c == r)) [
      | inl e ↦ let z : r ≡ c = sym (==→≡ c r e) in rw (z, ==-refl (key c), u) refl
      | inr e ↦
          let i' : has c rs ≡ true = rw e at i in
          let d =
            unequal (key r) (key c) (λ w. omega (arith, w, keys_rise max next key r rs c l.2 i')) in
          rw d (content-found r rs c l.2 i' u)
    ]

    -- A marked node taken out.
    pub content-drop :
        (q : Ptr) (qs : List Ptr) (p : Ptr) (x : ℕ)
        → Links max next key q qs
        → marked (next p) ≡ true
        → content key val marked (drop_after q qs p) x ≡ content key val marked qs x
    content-drop q [] p x l u = refl
    content-drop q (r ∷ rs) p x l u = elim (Bool-cases (p == q)) [
      | inl e ↦
          let z : marked r ≡ true =
            ap marked (sym l.0) ∙ ap (λ b. marked (next b)) (sym (==→≡ p q e)) ∙ u in
          elim (Bool-cases (key r == x)) [ inl d ↦ rw (e, z, d) refl | inr d ↦ rw (e, z, d) refl ]
      | inr e ↦ rw e (
          ap (λ b. if (key r == x) && not (marked r) then some (val r) else b)
            (content-drop r rs p x l.2 u))
    ]

pub content-missed :
    (key val : Ptr → ℕ) (marked : Ptr → Bool) (qs : List Ptr) (x : ℕ)
    → ((m : Ptr) → has m qs ≡ true → key m ≡ x → marked m ≡ true)
    → content key val marked qs x ≡ none
content-missed key val marked [] x all = refl
content-missed key val marked (r ∷ rs) x all =
    let rest = content-missed key val marked rs x (λ m i. all m (ground (arith, i))) in
    elim (Bool-cases (key r == x)) [
      | inl e ↦ rw (e, all r (ground (arith, ==-refl r)) (==→≡ (key r) x e)) rest
      | inr e ↦ rw e rest
    ]

-- Nodes that differ at other keys alone.
module _ (key key' val val' : Ptr → ℕ) (marked marked' : Ptr → Bool) (x : ℕ) where
  abbrev pub Alike : Ptr → Type 0
  Alike m = (key' m ≡ key m) × (key m ≡ x → (val' m ≡ val m) × (marked' m ≡ marked m))

  step :
      (r : Ptr) (a b : Option ℕ)
      → Alike r
      → a ≡ b
      → (if (key' r == x) && not (marked' r) then some (val' r) else a)
        ≡ (if (key r == x) && not (marked r) then some (val r) else b)
  step r a b (k, same) e = elim (Bool-cases (key r == x)) [
    | inl d ↦ let (v, m) = same (==→≡ (key r) x d) in rw (k, d, v, m, e) refl
    | inr d ↦ rw (k, d, e) refl
  ]

  pub content-Alike :
      (qs : List Ptr)
      → ((m : Ptr) → has m qs ≡ true → Alike m)
      → content key' val' marked' qs x ≡ content key val marked qs x
  content-Alike [] same = refl
  content-Alike (r ∷ rs) same =
      step r (content key' val' marked' rs x) (content key val marked rs x)
        (same r (ground (arith, ==-refl r))) (content-Alike rs (λ m i. same m (ground (arith, i))))

  pub content-put :
      (q : Ptr) (qs : List Ptr) (p n : Ptr)
      → ((m : Ptr) → has m qs ≡ true → Alike m)
      → (key' n == x) ≡ false
      → content key' val' marked' (put_after q qs p n) x ≡ content key val marked qs x
  content-put q [] p n same w = elim (Bool-cases (p == q)) [
    | inl e ↦ rw (e, w) refl
    | inr e ↦ rw e refl
  ]
  content-put q (r ∷ rs) p n same w = elim (Bool-cases (p == q)) [
    | inl e ↦ rw (e, w) (content-Alike (r ∷ rs) same)
    | inr e ↦ rw e (
        step r (content key' val' marked' (put_after r rs p n) x) (content key val marked rs x)
          (same r (ground (arith, ==-refl r)))
          (content-put r rs p n (λ m i. same m (ground (arith, i))) w))
  ]
