-- ===== src/LazyList/Chain/Changes.antt =====
-- The nodes linked from a node on, after a node is put in or taken out: which they are, and their
-- links.
use vcaslib.Common.{
  ℕ, ◌<◌, ◌≡◌, ◌≢◌, ◌⊎◌, inl, inr, refl, ap, sym, ◌∙◌, true, List, [], ◌∷◌, has, ◌==◌, ==-refl,
  ==→≡, Bool-cases, arith,
}
use vcaslib.Rq.{Ptr}
use vcaslib.LazyList.Chain.{Links, put_after, drop_after, keys_rise}

-- Membership after a change.
pub in_put :
    (q : Ptr) (qs : List Ptr) (p n m : Ptr)
    → has m (q ∷ qs) ≡ true
    → has m (q ∷ put_after q qs p n) ≡ true
in_put q [] p n m h = elim (Bool-cases (p == q)) [
  | inl e ↦ rw e (ground (arith, h))
  | inr e ↦ rw e h
]
in_put q (r ∷ rs) p n m h = elim (Bool-cases (p == q)) [
  | inl e ↦ rw e (ground (arith, h))
  | inr e ↦ rw e (elim (Bool-cases (m == q)) [
    | inl d ↦ rw d refl
    | inr d ↦ let j : has m (r ∷ rs) ≡ true = rw d at h in rw d (in_put r rs p n m j)
  ])
]

pub new_in :
    (q : Ptr) (qs : List Ptr) (p n : Ptr)
    → has p (q ∷ qs) ≡ true
    → has n (put_after q qs p n) ≡ true
new_in q [] p n h = elim (Bool-cases (p == q)) [
  | inl e ↦ rw (e, ==-refl n) refl
  | inr e ↦ absurd (ground (arith, h, e))
]
new_in q (r ∷ rs) p n h = elim (Bool-cases (p == q)) [
  | inl e ↦ rw (e, ==-refl n) refl
  | inr e ↦ let j : has p (r ∷ rs) ≡ true = rw e at h in rw e (ground (arith, new_in r rs p n j))
]

pub in_put_from :
    (q : Ptr) (qs : List Ptr) (p n m : Ptr)
    → has m (q ∷ put_after q qs p n) ≡ true
    → (has m (q ∷ qs) ≡ true) ⊎ (m ≡ n)
in_put_from q [] p n m h = elim (Bool-cases (p == q)) [
  | inl e ↦ let j : has m (q ∷ n ∷ []) ≡ true = rw e at h in ground (arith, j)
  | inr e ↦ inl (rw e at h)
]
in_put_from q (r ∷ rs) p n m h = elim (Bool-cases (p == q)) [
  | inl e ↦ let j : has m (q ∷ n ∷ r ∷ rs) ≡ true = rw e at h in ground (arith, j)
  | inr e ↦
      let j : has m (q ∷ r ∷ put_after r rs p n) ≡ true = rw e at h in
      elim (Bool-cases (m == q)) [
        | inl d ↦ inl (rw d refl)
        | inr d ↦
            let k : has m (r ∷ put_after r rs p n) ≡ true = rw d at j in
            elim (in_put_from r rs p n m k) [ inl z ↦ inl (rw d z) | inr z ↦ inr z ]
      ]
]

pub in_drop_from :
    (q : Ptr) (qs : List Ptr) (p m : Ptr)
    → has m (q ∷ drop_after q qs p) ≡ true
    → has m (q ∷ qs) ≡ true
in_drop_from q [] p m h = h
in_drop_from q (r ∷ rs) p m h = elim (Bool-cases (p == q)) [
  | inl e ↦ let j : has m (q ∷ rs) ≡ true = rw e at h in ground (arith, j)
  | inr e ↦
      let j : has m (q ∷ r ∷ drop_after r rs p) ≡ true = rw e at h in
      elim (Bool-cases (m == q)) [
        | inl d ↦ rw d refl
        | inr d ↦
            let k : has m (r ∷ drop_after r rs p) ≡ true = rw d at j in
            rw d (in_drop_from r rs p m k)
      ]
]

module _ (max : ℕ) where
  -- All nodes stay but the one behind `p`.
  pub in_drop :
      (next : Ptr → Ptr) (key : Ptr → ℕ) (q : Ptr) (qs : List Ptr) (p m : Ptr)
      → Links max next key q qs
      → has p (q ∷ qs) ≡ true
      → has m (q ∷ qs) ≡ true
      → (m ≡ next p) ⊎ (has m (q ∷ drop_after q qs p) ≡ true)
  in_drop next key q [] p m l hp h = inr h
  in_drop next key q (r ∷ rs) p m l hp h = elim (Bool-cases (p == q)) [
    | inl e ↦
        let z : next p ≡ r = ap next (==→≡ p q e) ∙ l.0 in
        elim (Bool-cases (m == r)) [
          | inl d ↦ inl (==→≡ m r d ∙ sym z)
          | inr d ↦ inr (rw e (ground (arith, h, d)))
        ]
    | inr e ↦
        let hp' : has p (r ∷ rs) ≡ true = rw e at hp in
        elim (Bool-cases (m == q)) [
          | inl d ↦ inr (rw (e, d) refl)
          | inr d ↦
              let h' : has m (r ∷ rs) ≡ true = rw d at h in
              elim (in_drop next key r rs p m l.2 hp' h') [
                | inl z ↦ inl z
                | inr z ↦ inr (rw (e, d) z)
              ]
        ]
  ]

  pub Links-frame :
      (next next' : Ptr → Ptr) (key key' : Ptr → ℕ) (q : Ptr) (qs : List Ptr)
      → ((m : Ptr) → has m (q ∷ qs) ≡ true → (next' m ≡ next m) × (key' m ≡ key m))
      → Links max next key q qs
      → Links max next' key' q qs
  Links-frame next next' key key' q [] same h = (same q (rw (==-refl q) refl)).1 ∙ h
  Links-frame next next' key key' q (r ∷ rs) same h =
      let (a, b) = same q (rw (==-refl q) refl) in
      let (_, c) = same r (ground (arith, ==-refl r)) in
      (
        a ∙ h.0,
        rw (b, c) h.1,
        Links-frame next next' key key' r rs (λ m i. same m (ground (arith, i))) h.2,
      )

  module _ (next next' : Ptr → Ptr) (key key' : Ptr → ℕ) (p : Ptr) where
    -- A new node behind `p`.
    pub Links-put :
        (q : Ptr) (qs : List Ptr) (n : Ptr)
        → Links max next key q qs
        → has p (q ∷ qs) ≡ true
        → key p < max
        → ((m : Ptr) → has m (q ∷ qs) ≡ true → m ≢ p → next' m ≡ next m)
        → ((m : Ptr) → has m (q ∷ qs) ≡ true → key' m ≡ key m)
        → next' p ≡ n
        → next' n ≡ next p
        → key p < key' n
        → key' n < key (next p)
        → Links max next' key' q (put_after q qs p n)
    Links-put q [] n h i l same keys a b c d = absurd (ground (arith, ap key, i, h, l))
    Links-put q (r ∷ rs) n h i l same keys a b c d = elim (Bool-cases (p == q)) [
      | inl e ↦
          let z : p ≡ q = ==→≡ p q e in
          let zr : next p ≡ r = ap next z ∙ h.0 in
          let kq : key' q ≡ key q = keys q (rw (==-refl q) refl) in
          let kr : key' r ≡ key r = keys r (ground (arith, ==-refl r)) in
          rw e (
            ap next' (sym z) ∙ a,
            omega (arith, c, kq, ap key z),
            (
              b ∙ zr,
              omega (arith, d, kr, ap key zr),
              Links-frame next next' key key' r rs
                  (λ m j. (
                    same m (ground (arith, j)) (λ w. omega (arith, behind m j, ap key (w ∙ z))),
                    keys m (ground (arith, j)),
                  ))
                  h.2,
            ),
          )
      | inr e ↦
          let i' : has p (r ∷ rs) ≡ true = rw e at i in
          let kq : key' q ≡ key q = keys q (rw (==-refl q) refl) in
          let kr : key' r ≡ key r = keys r (ground (arith, ==-refl r)) in
          rw e (
            same q (rw (==-refl q) refl) (ground (arith, e)) ∙ h.0,
            omega (arith, h.1, kq, kr),
            Links-put r rs n h.2 i' l (λ m j w. same m (ground (arith, j)) w)
                (λ m j. keys m (ground (arith, j))) a b c d,
          )
    ]
      where
        behind : (m : Ptr) → has m (r ∷ rs) ≡ true → key q < key m
        behind m j = keys_rise max next key q (r ∷ rs) m h j

    -- The node behind `p` taken out.
    pub Links-drop :
        (q : Ptr) (qs : List Ptr)
        → Links max next key q qs
        → has p (q ∷ qs) ≡ true
        → key (next p) < max
        → ((m : Ptr) → has m (q ∷ qs) ≡ true → m ≢ p → next' m ≡ next m)
        → ((m : Ptr) → has m (q ∷ qs) ≡ true → key' m ≡ key m)
        → next' p ≡ next (next p)
        → Links max next' key' q (drop_after q qs p)
    Links-drop q [] h i l same keys a = keys q (rw (==-refl q) refl) ∙ h
    Links-drop q (r ∷ []) h i l same keys a = elim (Bool-cases (p == q)) [
      | inl e ↦ absurd (omega (arith, l, h.2, ap key (ap next (==→≡ p q e) ∙ h.0)))
      | inr e ↦
          let i' : has p (r ∷ []) ≡ true = rw e at i in
          let kq : key' q ≡ key q = keys q (rw (==-refl q) refl) in
          let kr : key' r ≡ key r = keys r (ground (arith, ==-refl r)) in
          rw e (
            same q (rw (==-refl q) refl) (ground (arith, e)) ∙ h.0,
            omega (arith, h.1, kq, kr),
            Links-drop r [] h.2 i' l (λ m j w. same m (ground (arith, j)) w)
                (λ m j. keys m (ground (arith, j))) a,
          )
    ]
    Links-drop q (r ∷ s ∷ ss) h i l same keys a = elim (Bool-cases (p == q)) [
      | inl e ↦
          let z : p ≡ q = ==→≡ p q e in
          let (fr, lr, hs) = h.2 in
          let zr : next p ≡ r = ap next z ∙ h.0 in
          let kq : key' q ≡ key q = keys q (rw (==-refl q) refl) in
          let ks : key' s ≡ key s = keys s (ground (arith, ==-refl s)) in
          rw e (
            ap next' (sym z) ∙ a ∙ ap next zr ∙ fr,
            omega (arith, h.1, lr, kq, ks),
            Links-frame next next' key key' s ss
                (λ m j. (
                  same m (ground (arith, j)) (λ w. omega (arith, behind m j, ap key (w ∙ z))),
                  keys m (ground (arith, j)),
                ))
                hs,
          )
      | inr e ↦
          let i' : has p (r ∷ s ∷ ss) ≡ true = rw e at i in
          let kq : key' q ≡ key q = keys q (rw (==-refl q) refl) in
          let kr : key' r ≡ key r = keys r (ground (arith, ==-refl r)) in
          rw e (
            same q (rw (==-refl q) refl) (ground (arith, e)) ∙ h.0,
            omega (arith, h.1, kq, kr),
            Links-drop r (s ∷ ss) h.2 i' l (λ m j w. same m (ground (arith, j)) w)
                (λ m j. keys m (ground (arith, j))) a,
          )
    ]
      where
        behind : (m : Ptr) → has m (s ∷ ss) ≡ true → key q < key m
        behind m j = keys_rise max next key q (r ∷ s ∷ ss) m h (ground (arith, j))
