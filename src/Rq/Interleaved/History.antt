-- ===== src/Rq/Interleaved/History.antt =====
-- Facts about one history: how its nodes are linked by `nextv`, what they were made for, and how
-- their stamps fall from the newest to the oldest; and that the stores of the operations keep them.
use vcaslib.Common.{
  ℕ, ◌≤◌, ◌<◌, ◌≡◌, ◌≢◌, refl, true, Option, some, List, [], ◌∷◌, ◌==◌, update, has, length, tail,
  arith, inl, inr, Bool-cases, subst, ==→≡,
}
use vcaslib.Rq.{Ptr, Addr, null, Stamp, tbd, at}
use vcaslib.Rq.Interleaved.Machine.{from}

-- From the pointer `q` the `nextv` fields lead through the list to NULL.
abbrev pub Linked : (Ptr → Ptr) → Ptr → List Ptr → Type 0
Linked n q [] = q ≡ null
Linked n q (p ∷ ps) = (q ≡ p) × (p ≢ null) × Linked n (n p) ps

-- Each node was made for the value that its `nextv` field holds.
abbrev pub Goals : (Ptr → Option (Addr × Ptr)) → (Ptr → Ptr) → List Ptr → Type 0
Goals g n [] = Unit
Goals g n (p ∷ ps) = ((b : Addr) × (g p ≡ some (b, n p))) × Goals g n ps

-- All nodes are stamped, with stamps that do not rise and stay up to `b`.
abbrev pub Below : (Ptr → Stamp) → ℕ → List Ptr → Type 0
Below ts b [] = Unit
Below ts b (p ∷ ps) = (n : ℕ) × (ts p ≡ at n) × (n ≤ b) × Below ts n ps

-- The newest node alone may be without a stamp.
abbrev pub Top : (Ptr → Stamp) → ℕ → Stamp → List Ptr → Type 0
Top ts c tbd ps = Below ts c ps
Top ts c (at n) ps = (n ≤ c) × Below ts n ps

abbrev pub Stamps : (Ptr → Stamp) → ℕ → List Ptr → Type 0
Stamps ts c [] = Unit
Stamps ts c (p ∷ ps) = Top ts c (ts p) ps

pub Linked-length :
    (n : Ptr → Ptr) (q : Ptr) (xs ys : List Ptr)
    → Linked n q xs
    → Linked n q ys
    → length xs ≡ length ys
Linked-length n q [] [] h k = refl
Linked-length n q [] (y ∷ ys) h k = absurd (k.1 (omega arith))
Linked-length n q (x ∷ xs) [] h k = absurd (h.1 (omega arith))
Linked-length n q (x ∷ xs) (y ∷ ys) h k = ground (arith, Linked-length n (n x) xs ys h.2, k.2)

pub Linked-older :
    (n : Ptr → Ptr) (q p : Ptr) (xs : List Ptr)
    → Linked n q xs
    → has p xs ≡ true
    → (ys : List Ptr) × Linked n (n p) ys × (length ys < length xs)
Linked-older n q p [] h i = cc
Linked-older n q p (x ∷ xs) h i = elim (Bool-cases (p == x)) [
  | inl e ↦ (xs, subst (λ y. Linked n (n y) xs) (ground arith) h.2, omega arith)
  | inr e ↦ let (ys, l, s) = Linked-older n (n x) p xs h.2 (rw e at i) in (ys, l, omega arith)
]

-- No node stands on top of a history that holds it already.
pub not-has-head :
    (n : Ptr → Ptr) (q p : Ptr) (xs : List Ptr) → Linked n q xs → n p ≡ q → has p xs ≡ true → ⊥
not-has-head n q p xs h e i =
    let (ys, l, s) = Linked-older n q p xs h i in
    let k : length ys ≡ length xs = Linked-length n q ys xs (subst (λ y. Linked n y ys) e l) h in
    absurd (omega arith)

pub Linked-from :
    (n : Ptr → Ptr) (q p : Ptr) (xs : List Ptr)
    → Linked n q xs
    → has p xs ≡ true
    → Linked n p (from p xs)
unfolding from
Linked-from n q p [] h i = cc
Linked-from n q p (x ∷ xs) h i = elim (Bool-cases (p == x)) [
  | inl e ↦ rw e (ground arith, h.1, h.2)
  | inr e ↦ rw e (Linked-from n (n x) p xs h.2 (rw e at i))
]

pub Goals-from :
    (g : Ptr → Option (Addr × Ptr)) (n : Ptr → Ptr) (p : Ptr) (xs : List Ptr)
    → Goals g n xs
    → Goals g n (from p xs)
unfolding from
Goals-from g n p [] h = tt
Goals-from g n p (x ∷ xs) h = elim (Bool-cases (p == x)) [
  | inl e ↦ rw e h
  | inr e ↦ rw e (Goals-from g n p xs h.1)
]

pub Below-from :
    (ts : Ptr → Stamp) (b m : ℕ) (p : Ptr) (xs : List Ptr)
    → b ≤ m
    → Below ts b xs
    → Below ts m (from p xs)
unfolding from
Below-from ts b m p [] le h = tt
Below-from ts b m p (x ∷ xs) le (k, e, l, h) = elim (Bool-cases (p == x)) [
  | inl t ↦ rw t (k, e, omega arith, h)
  | inr t ↦ rw t (Below-from ts k m p xs (omega arith) h)
]

pub Below-weaken :
    (ts : Ptr → Stamp) (b m : ℕ) (xs : List Ptr) → b ≤ m → Below ts b xs → Below ts m xs
Below-weaken ts b m [] le h = tt
Below-weaken ts b m (x ∷ xs) le (k, e, l, h) = (k, e, omega arith, h)

-- A change of stamps that keeps the stamps given to the nodes of a history.
abbrev pub Keeps : (ts ts' : Ptr → Stamp) → List Ptr → Type 0
Keeps ts ts' xs = (p : Ptr) (n : ℕ) → has p xs ≡ true → ts p ≡ at n → ts' p ≡ at n

pub Keeps-tail :
    (ts ts' : Ptr → Stamp) (x : Ptr) (xs : List Ptr) → Keeps ts ts' (x ∷ xs) → Keeps ts ts' xs
Keeps-tail ts ts' x xs keep p n i = keep p n (ground arith)

pub Below-keep :
    (ts ts' : Ptr → Stamp) (b : ℕ) (xs : List Ptr)
    → Keeps ts ts' xs
    → Below ts b xs
    → Below ts' b xs
Below-keep ts ts' b [] keep h = tt
Below-keep ts ts' b (x ∷ xs) keep (k, e, l, h) =
    (k, keep x k (ground arith) e, l, Below-keep ts ts' k xs (Keeps-tail ts ts' x xs keep) h)

pub Below-all :
    (ts : Ptr → Stamp) (b : ℕ) (p : Ptr) (xs : List Ptr)
    → Below ts b xs
    → has p xs ≡ true
    → ts p ≢ tbd
Below-all ts b p [] h i = cc
Below-all ts b p (x ∷ xs) (k, e, l, h) i = elim (Bool-cases (p == x)) [
  | inl t ↦ λ u. ground (arith, ==→≡ p x)
  | inr t ↦ Below-all ts k p xs h (rw t at i)
]

module _ (ts : Ptr → Stamp) (c : ℕ) where
  pub Stamps-Below : (x : Ptr) (xs : List Ptr) → Stamps ts c (x ∷ xs) → Below ts c xs
  Stamps-Below x xs h = go (ts x) h
    where
      go : (k : Stamp) → Top ts c k xs → Below ts c xs
      go tbd u = u
      go (at n) u = Below-weaken ts n c xs u.0 u.1

  -- A node without a stamp can only be the newest.
  pub tbd-head :
      (p : Ptr) (xs : List Ptr) → Stamps ts c xs → has p xs ≡ true → ts p ≡ tbd → xs ≡ p ∷ tail xs
  tbd-head p [] h i e = cc
  tbd-head p (x ∷ xs) h i e = elim (Bool-cases (p == x)) [
    | inl t ↦ ground arith
    | inr t ↦ absurd (Below-all ts c p xs (Stamps-Below x xs h) (rw t at i) e)
  ]

  pub Stamps-from :
      (p : Ptr) (n : ℕ) (xs : List Ptr)
      → Stamps ts c xs
      → has p xs ≡ true
      → ts p ≡ at n
      → Stamps ts c (from p xs)
  unfolding from
  Stamps-from p n [] h i e = cc
  Stamps-from p n (x ∷ xs) h i e = elim (Bool-cases (p == x)) [
    | inl t ↦ rw t h
    | inr t ↦
        rw t (Below-Stamps (from p xs) (Below-from ts c c p xs (omega arith) (Stamps-Below x xs h)))
  ]
    where
      Below-Stamps : (ys : List Ptr) → Below ts c ys → Stamps ts c ys
      Below-Stamps [] u = tt
      Below-Stamps (y ∷ ys) (k, e, l, u) = rw e (l, u)

-- Two changes of the stamps of a history: all given stamps are kept and no new one is given, or the
-- newest node gets one.
pub Stamps-keep :
    (ts ts' : Ptr → Stamp) (c c' : ℕ)
    → c ≤ c'
    → (xs : List Ptr) → Keeps ts ts' xs
    → ((p : Ptr) → has p xs ≡ true → ts p ≡ tbd → ts' p ≡ tbd)
    → Stamps ts c xs
    → Stamps ts' c' xs
Stamps-keep ts ts' c c' le [] keep none_new h = tt
Stamps-keep ts ts' c c' le (x ∷ xs) keep none_new h = go (ts x) refl h
  where
    go : (k : Stamp) → ts x ≡ k → Top ts c k xs → Stamps ts' c' (x ∷ xs)
    go tbd e u =
        rw (none_new x (ground arith) e)
          (Below-weaken ts' c c' xs le (Below-keep ts ts' c xs (Keeps-tail ts ts' x xs keep) u))
    go (at n) e u =
        rw (keep x n (ground arith) e)
          (omega arith, Below-keep ts ts' n xs (Keeps-tail ts ts' x xs keep) u.1)

pub Stamps-give :
    (ts : Ptr → Stamp) (c cur : ℕ) (p : Ptr) (xs : List Ptr)
    → cur ≤ c
    → ts p ≡ tbd
    → (has p xs ≡ true → Below ts cur (tail xs))
    → Stamps ts c xs
    → Stamps (update ts p (at cur)) c xs
Stamps-give ts c cur p [] le e b h = tt
Stamps-give ts c cur p (x ∷ xs) le e b h = elim (Bool-cases (p == x)) [
  | inl t ↦ rw t (le, Below-keep ts (update ts p (at cur)) cur xs keep (b (rw t)))
  | inr t ↦ rw t (go (ts x) h)
]
  where
    keep : Keeps ts (update ts p (at cur)) xs
    keep q n i k = ground arith

    go : (k : Stamp) → Top ts c k xs → Top (update ts p (at cur)) c k xs
    go tbd u = Below-keep ts (update ts p (at cur)) c xs keep u
    go (at n) u = (u.0, Below-keep ts (update ts p (at cur)) n xs keep u.1)

-- With a stamp on the newest node, every node has one.
pub Stamps-given :
    (ts : Ptr → Stamp) (c : ℕ) (xs : List Ptr)
    → ((p : Ptr) → xs ≡ p ∷ tail xs → ts p ≢ tbd)
    → Stamps ts c xs
    → Below ts c xs
Stamps-given ts c [] given h = tt
Stamps-given ts c (x ∷ xs) given h = go (ts x) refl h
  where
    go : (k : Stamp) → ts x ≡ k → Top ts c k xs → Below ts c (x ∷ xs)
    go tbd e u = absurd (given x refl e)
    go (at n) e u = (n, e, u.0, u.1)

pub Goals-goal :
    (g : Ptr → Option (Addr × Ptr)) (n : Ptr → Ptr) (p : Ptr) (xs : List Ptr)
    → Goals g n xs
    → has p xs ≡ true
    → (b : Addr) × (g p ≡ some (b, n p))
Goals-goal g n p [] h i = cc
Goals-goal g n p (x ∷ xs) h i = elim (Bool-cases (p == x)) [
  | inl t ↦ subst (λ y. (b : Addr) × (g y ≡ some (b, n y))) (ground arith) h.0
  | inr t ↦ Goals-goal g n p xs h.1 (rw t at i)
]

-- Changes of `nextv` that spare the nodes of a history.
module _ (n n' : Ptr → Ptr) where
  pub Linked-keep :
      (q : Ptr) (xs : List Ptr)
      → ((p : Ptr) → has p xs ≡ true → n' p ≡ n p)
      → Linked n q xs
      → Linked n' q xs
  Linked-keep q [] same h = h
  Linked-keep q (x ∷ xs) same h = (
    h.0,
    h.1,
    rw (same x (ground arith)) (Linked-keep (n x) xs (λ p i. same p (ground arith)) h.2),
  )

  pub Goals-keep :
      (g g' : Ptr → Option (Addr × Ptr)) (xs : List Ptr)
      → ((p : Ptr) → has p xs ≡ true → n' p ≡ n p)
      → ((p : Ptr) (x : Addr × Ptr) → g p ≡ some x → g' p ≡ some x)
      → Goals g n xs
      → Goals g' n' xs
  Goals-keep g g' [] same keep h = tt
  Goals-keep g g' (x ∷ xs) same keep h = (
    (h.0.0, rw (same x (ground arith)) (keep x (h.0.0, n x) h.0.1)),
    Goals-keep g g' xs (λ p i. same p (ground arith)) keep h.1,
  )

pub has-ne-null :
    (n : Ptr → Ptr) (q p : Ptr) (xs : List Ptr) → Linked n q xs → has p xs ≡ true → p ≢ null
has-ne-null n q p [] h i = cc
has-ne-null n q p (x ∷ xs) h i = elim (Bool-cases (p == x)) [
  | inl t ↦ subst (λ y. y ≢ null) (ground arith) h.1
  | inr t ↦ has-ne-null n (n x) p xs h.2 (rw t at i)
]

pub has-from : (p q : Ptr) (xs : List Ptr) → has q (from p xs) ≡ true → has q xs ≡ true
unfolding from
has-from p q [] i = i
has-from p q (x ∷ xs) i = ground (arith, has-from p q xs)

-- Beside the newest node, the part of a history from a stamped node on has stamped nodes only.
pub from-given :
    (ts : Ptr → Stamp) (c n : ℕ) (p q : Ptr) (xs : List Ptr)
    → Stamps ts c xs
    → ts p ≡ at n
    → has q (from p xs) ≡ true
    → ts q ≢ tbd
unfolding from
from-given ts c n p q [] h e i = cc
from-given ts c n p q (x ∷ xs) h e i = elim (Bool-cases (p == x)) [
  | inl t ↦ elim (Bool-cases (q == x)) [
    | inl s ↦ ground (arith, ==→≡ p x, ==→≡ q x)
    | inr s ↦ Below-all ts c q xs (Stamps-Below ts c x xs h) (rw (t, s) at i)
  ]
  | inr t ↦
      Below-all ts c q (from p xs) (Below-from ts c c p xs (omega arith) (Stamps-Below ts c x xs h))
        (rw t at i)
]
