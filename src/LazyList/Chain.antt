-- ===== src/LazyList/Chain.antt =====
-- The nodes that are linked from a node on: their keys rise up to KEY_MAX. What a change of one link
-- makes of them.
pub mod Changes
use vcaslib.Common.{
  ℕ, ◌≤◌, ◌<◌, ◌≡◌, ◌≢◌, ◌⊎◌, inl, inr, refl, ap, sym, ◌∙◌, Bool, true, not, ◌&&◌, Option, none,
  some, List, [], ◌∷◌, has, if◌then◌else◌, ◌==◌, ==-refl, ==→≡, Bool-cases, arith,
}
use vcaslib.Rq.{Ptr}

module _ (max : ℕ) where
  abbrev pub Links : (next : Ptr → Ptr) → (key : Ptr → ℕ) → Ptr → List Ptr → Type 0
  Links next key q [] = key q ≡ max
  Links next key q (r ∷ rs) = (next q ≡ r) × (key q < key r) × Links next key r rs

-- The value of the first unmarked node with a key.
abbrev pub content : (key val : Ptr → ℕ) → (marked : Ptr → Bool) → List Ptr → ℕ → Option ℕ
content key val marked [] x = none
content key val marked (r ∷ rs) x =
    if (key r == x) && not (marked r) then some (val r) else content key val marked rs x

-- The nodes behind `q` with `n` put behind `p`, and without the one behind `p`.
abbrev pub put_after : Ptr → List Ptr → (p n : Ptr) → List Ptr
put_after q [] p n = if p == q then n ∷ [] else []
put_after q (r ∷ rs) p n = if p == q then n ∷ r ∷ rs else r ∷ put_after r rs p n

abbrev pub drop_after : Ptr → List Ptr → (p : Ptr) → List Ptr
drop_after q [] p = []
drop_after q (r ∷ rs) p = if p == q then rs else r ∷ drop_after r rs p

module _ (max : ℕ) (next : Ptr → Ptr) (key : Ptr → ℕ) where
  pub keys_rise :
      (q : Ptr) (qs : List Ptr) (r : Ptr)
      → Links max next key q qs
      → has r qs ≡ true
      → key q < key r
  keys_rise q [] r h i = absurd (ground arith)
  keys_rise q (s ∷ ss) r h i = elim (Bool-cases (r == s)) [
    | inl e ↦ omega (arith, h.1, ap key (==→≡ r s e))
    | inr e ↦ omega (arith, h.1, keys_rise s ss r h.2 (ground (arith, i, e)))
  ]

  pub Links-max : (q : Ptr) (qs : List Ptr) → Links max next key q qs → key q ≤ max
  Links-max q [] h = omega (arith, h)
  Links-max q (s ∷ ss) h = omega (arith, h.1, Links-max s ss h.2)

  pub successor :
      (q : Ptr) (qs : List Ptr) (p : Ptr)
      → Links max next key q qs
      → has p (q ∷ qs) ≡ true
      → key p < max
      → (has (next p) qs ≡ true) × (key p < key (next p))
  successor q [] p h i l = absurd (ground (arith, ap key, i, h, l))
  successor q (s ∷ ss) p h i l = elim (Bool-cases (p == q)) [
    | inl e ↦
        let e' : next p ≡ s = ap next (==→≡ p q e) ∙ h.0 in
        (rw (e', ==-refl s) refl, rw e' (rw (==→≡ p q e) h.1))
    | inr e ↦
        let j : has p (s ∷ ss) ≡ true = rw e at i in
        let (a, b) = successor s ss p h.2 j l in (ground (arith, a), b)
  ]

  -- No two nodes have the same successor.
  pub one_before :
      (q : Ptr) (qs : List Ptr) (p p' : Ptr)
      → Links max next key q qs
      → has p (q ∷ qs) ≡ true
      → has p' (q ∷ qs) ≡ true
      → key p < max
      → key p' < max
      → next p ≡ next p'
      → p ≡ p'
  one_before q [] p p' h i i' l l' e =
      let a : p ≡ q = ground (arith, i) in let b : p' ≡ q = ground (arith, i') in a ∙ sym b
  one_before q (s ∷ ss) p p' h i i' l l' e = elim (Bool-cases (p == q)) [
    | inl d ↦ elim (Bool-cases (p' == q)) [
      | inl d' ↦ ==→≡ p q d ∙ sym (==→≡ p' q d')
      | inr d' ↦
          let j : has p' (s ∷ ss) ≡ true = rw d' at i' in absurd (first p p' (==→≡ p q d) j l' e)
    ]
    | inr d ↦
        let k : has p (s ∷ ss) ≡ true = rw d at i in
        elim (Bool-cases (p' == q)) [
          | inl d' ↦ absurd (first p' p (==→≡ p' q d') k l (sym e))
          | inr d' ↦
              let j : has p' (s ∷ ss) ≡ true = rw d' at i' in one_before s ss p p' h.2 k j l l' e
        ]
  ]
    where
      first : (a b : Ptr) → a ≡ q → has b (s ∷ ss) ≡ true → key b < max → next a ≡ next b → ⊥
      first a b z j m w =
          let to_s : next b ≡ s = sym w ∙ ap next z ∙ h.0 in
          let up = (successor s ss b h.2 j m).1 in
          elim (Bool-cases (b == s)) [
            | inl c ↦ omega (arith, up, ap key to_s, ap key (==→≡ b s c))
            | inr c ↦
                let j' : has b ss ≡ true = rw c at j in
                omega (arith, up, ap key to_s, keys_rise s ss b h.2 j')
          ]
