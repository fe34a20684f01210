-- ===== src/LazyList/Effects.antt =====
-- What one access of a thread of artifact/cpp/lazylist does to the map, and what its result says of the
-- map.
use vcaslib.Common.{
  ℕ, ◌<◌, ◌≡◌, ◌⊎◌, not, ltb, if◌then◌else◌, refl, inl, inr, ap, sym, subst, ◌∙◌, Bool, true, false,
  List, ◌∷◌, has, update, Option, none, some, ◌==◌, ==→≡, ==-refl, Bool-cases, arith,
}
use vcaslib.Rq.{Ptr}
use vcaslib.LazyList.{
  Nodes, put, del, Pc, idle, done, answered, queried, start, walk, lock_pred, lock_curr, test_pred,
  test_curr, test_link, retry_curr, retry_pred, recheck, peek, grab, fetch, store, link, take,
  after, mark, unlink, free_curr, free_pred, seek, check, look, enter, skip, scan, advance, exec,
  link_new,
}
use vcaslib.LazyList.Chain.{Links, content, put_after}
use vcaslib.LazyList.Chain.Changes.{new_in}
use vcaslib.LazyList.Known.{known, Tidy, in_chain}
use vcaslib.LazyList.Good.{Good}
use vcaslib.LazyList.Quiet.{chain_after}
use vcaslib.LazyList.Linking.{Tidy-link}
use vcaslib.LazyList.Content.{
  key-once, gap, content-found, content-drop, content-missed, content-Alike, content-put,
}

-- The map after an access.
abbrev pub effect : Pc → (ℕ → Option ℕ) → ℕ → Option ℕ
effect (store v x p c r) f = update f x (some v)
effect (link v o x p c) f = update f x (some v)
effect (mark x p c r next) f = update f x none
effect _ f = f

-- What the thread makes of the access: `q` is where it then stands, `f` the map at that moment, and
-- the answer of a call is carried on until the call is done.
abbrev pub Correct : (no_value : ℕ) → Nodes → Pc → (q : Pc) → (f : ℕ → Option ℕ) → Type 0
Correct no_value h (peek x p c) q f = (r : ℕ) × (f x ≡ some r) × (q ≡ free_pred p r)
Correct no_value h (store v x p c r) q f = (f x ≡ some r) × (q ≡ free_curr p c r)
Correct no_value h (link v o x p c) q f = (f x ≡ none) × (q ≡ free_pred p no_value)
Correct no_value h (mark x p c r next) q f = (f x ≡ some r) × (q ≡ unlink p c r next)
Correct no_value h (unlink p c r next) q f = q ≡ free_curr p c r
Correct no_value h (free_curr p c r) q f = q ≡ free_pred p r
Correct no_value h (free_pred p r) q f = q ≡ done r
Correct no_value h (recheck v o x p c) q f =
    ((h.marked c ≡ true) × (q ≡ retry_pred (put v o) x p))
    ⊎ ((f x ≡ some (h.val c)) × (q ≡ (if o then peek x p c else grab v x p c)))
Correct no_value h (walk del x p c) q f =
    (h.key c < x)
    ⊎ (((h.key c ≡ x) × (q ≡ lock_pred del x p c)) ⊎ ((x < h.key c) × (q ≡ done no_value)))
Correct no_value h (seek x c) q f =
    ((h.key c < x) × (q ≡ seek x (h.next c)))
    ⊎ (((h.key c ≡ x) × (q ≡ check x c)) ⊎ ((x < h.key c) × (q ≡ answered false)))
Correct no_value h (check x c) q f =
    ((h.marked c ≡ true) × (q ≡ answered false)) ⊎ ((f x ≡ some (h.val c)) × (q ≡ look x c))
Correct no_value h (look x c) q f = q ≡ answered (not (h.val c == no_value))
Correct no_value h _ q f = Unit

abbrev pub contents : Nodes → List Ptr → ℕ → Option ℕ
contents h chain = content h.key h.val h.marked chain

module _ (max : ℕ) (head : Ptr) (h : Nodes) (used : Ptr → Bool) (chain : List Ptr)
    (tidy : Tidy max head h used chain) where
  -- An unmarked node that is known is found.
  pub found :
      (c : Ptr) (x : ℕ)
      → known head h chain c ≡ true
      → h.marked c ≡ false
      → h.key head < x
      → h.key c ≡ x
      → (has c chain ≡ true) × (contents h chain x ≡ some (h.val c))
  found c x k u l e =
      let i = in_chain max head h used chain tidy c k u in
      let j : has c chain ≡ true = elim (Bool-cases (c == head)) [
        | inl d ↦ absurd (omega (arith, l, e, ap h.key (==→≡ c head d)))
        | inr d ↦ rw d at i
      ] in
      (
        j,
        subst (λ y. contents h chain y ≡ some (h.val c)) e
            (content-found max h.next h.key h.val h.marked head chain c tidy.links j u),
      )

  store-content :
      (c : Ptr) (x v y : ℕ)
      → has c chain ≡ true
      → h.marked c ≡ false
      → h.key c ≡ x
      → content h.key (update h.val c v) h.marked chain y ≡ update (contents h chain) x (some v) y
  store-content c x v y i u k = elim (Bool-cases (x == y)) [
    | inl e ↦
        let found_c =
          content-found max h.next h.key (update h.val c v) h.marked head chain c tidy.links i u in
        let at_y =
          subst (λ z. content h.key (update h.val c v) h.marked chain z ≡ some (update h.val c v c))
            (k ∙ ==→≡ x y e) found_c in
        rw e (at_y ∙ rw (==-refl c) refl)
    | inr e ↦ rw e (
        content-Alike h.key h.key h.val (update h.val c v) h.marked h.marked y chain
          (λ m j. (refl, λ w. (rw (other m w e) refl, refl))))
  ]
    where
      other : (m : Ptr) → h.key m ≡ y → (x == y) ≡ false → (c == m) ≡ false
      other m w e = elim (Bool-cases (c == m)) [
        | inl d ↦ absurd (ground (arith, e, sym k ∙ ap h.key (==→≡ c m d) ∙ w))
        | inr d ↦ d
      ]

  mark-content :
      (c : Ptr) (x y : ℕ)
      → has c chain ≡ true
      → h.key c ≡ x
      → content h.key h.val (update h.marked c true) chain y ≡ update (contents h chain) x none y
  mark-content c x y i k = elim (Bool-cases (x == y)) [
    | inl e ↦ rw e (
        content-missed h.key h.val (update h.marked c true) chain y (λ m j w.
          let z : m ≡ c =
            key-once max h.next h.key head chain m c tidy.links j i (w ∙ sym (k ∙ ==→≡ x y e)) in
          rw (z, ==-refl c) refl))
    | inr e ↦ rw e (
        content-Alike h.key h.key h.val h.val h.marked (update h.marked c true) y chain
          (λ m j. (refl, λ w. (refl, rw (other m w e) refl))))
  ]
    where
      other : (m : Ptr) → h.key m ≡ y → (x == y) ≡ false → (c == m) ≡ false
      other m w e = elim (Bool-cases (c == m)) [
        | inl d ↦ absurd (ground (arith, e, sym k ∙ ap h.key (==→≡ c m d) ∙ w))
        | inr d ↦ d
      ]

  link-content :
      (n : Ptr) (x v : ℕ) (p c : Ptr) (y : ℕ)
      → Links max
          (link_new h n x v p c).next
          (link_new h n x v p c).key
          head
          (put_after head chain p n)
      → has p (head ∷ chain) ≡ true
      → ((m : Ptr) → has m chain ≡ true → (n == m) ≡ false)
      → contents (link_new h n x v p c) (put_after head chain p n) y
        ≡ update (contents h chain) x (some v) y
  link-content n x v p c y links i fresh = elim (Bool-cases (x == y)) [
    | inl e ↦
        let h' = link_new h n x v p c in
        let found_n =
          content-found max h'.next h'.key h'.val h'.marked head (put_after head chain p n) n links
            (new_in head chain p n i) (rw (==-refl n) refl) in
        let kn : h'.key n ≡ y = rw (==-refl n) (==→≡ x y e) in
        let at_y =
          subst (λ z. contents h' (put_after head chain p n) z ≡ some (h'.val n)) kn found_n in
        rw e (at_y ∙ rw (==-refl n) refl)
    | inr e ↦
        let h' = link_new h n x v p c in
        rw e (
          content-put h.key h'.key h.val h'.val h.marked h'.marked y head chain p n
            (λ m j. (rw (fresh m j) refl, λ w. (rw (fresh m j) refl, rw (fresh m j) refl)))
            (rw (==-refl n) e))
  ]

  -- The key of a new node is not there yet.
  pub not_there :
      (v : ℕ) (o : Bool) (x : ℕ) (p c : Ptr)
      → Good max head h chain (link v o x p c)
      → contents h chain x ≡ none
  not_there v o x p c ((a0, a1, a2, a3, a4, a5, a6), above) =
      content-missed h.key h.val h.marked chain x (λ m i e.
        elim (gap max h.next h.key head chain p m tidy.links
          (in_chain max head h used chain tidy p a0 a2) i) [
            | inl l ↦ absurd (omega (arith, l, e, a4))
            | inr l ↦ absurd (omega (arith, l, e, above, ap h.key a3))
          ])

  pub Correct-exec :
      (no_value : ℕ) (q : Pc) (n : Ptr)
      → Good max head h chain q
      → Correct no_value h q (exec no_value head q n h).1 (contents h chain)
  unfolding exec
  Correct-exec no_value idle n g = tt
  Correct-exec no_value (done r) n g = tt
  Correct-exec no_value (answered b) n g = tt
  Correct-exec no_value (queried lo hi out) n g = tt
  Correct-exec no_value (start op x) n g = tt
  Correct-exec no_value (walk (put v o) x p c) n g = tt
  Correct-exec no_value (lock_pred op x p c) n g = tt
  Correct-exec no_value (lock_curr x p c) n g = tt
  Correct-exec no_value (test_pred op x p c) n g = tt
  Correct-exec no_value (test_curr op x p c) n g = tt
  Correct-exec no_value (test_link op x p c) n g = tt
  Correct-exec no_value (retry_curr x p c) n g = tt
  Correct-exec no_value (retry_pred op x p) n g = tt
  Correct-exec no_value (grab v x p c) n g = tt
  Correct-exec no_value (fetch v x p c) n g = tt
  Correct-exec no_value (take x p c) n g = tt
  Correct-exec no_value (after x p c r) n g = tt
  Correct-exec no_value (enter lo hi) n g = tt
  Correct-exec no_value (skip lo hi c) n g = tt
  Correct-exec no_value (scan lo hi c out) n g = tt
  Correct-exec no_value (advance lo hi c out) n g = tt
  Correct-exec no_value (peek x p c) n (held, b, d) =
      (h.val c, (found c x held.1 d held.6 b).1, refl)
  Correct-exec no_value (store v x p c r) n ((held, b, d), e) =
      ((found c x held.1 d held.6 b).1 ∙ ap (λ y. some y) e, refl)
  Correct-exec no_value (mark x p c r next) n ((held, b, d), e, _) =
      ((found c x held.1 d held.6 b).1 ∙ ap (λ y. some y) e, refl)
  Correct-exec no_value (recheck v o x p c) n (held, b) = elim (Bool-cases (h.marked c)) [
    | inl e ↦ inl (e, rw e refl)
    | inr e ↦ inr ((found c x held.1 e held.6 b).1, rw e refl)
  ]
  Correct-exec no_value (link v o x p c) n g = (not_there v o x p c g, refl)
  Correct-exec no_value (unlink p c r next) n g = refl
  Correct-exec no_value (free_curr p c r) n g = refl
  Correct-exec no_value (free_pred p r) n g = refl
  Correct-exec no_value (look x c) n g = refl
  Correct-exec no_value (walk del x p c) n g = elim (Bool-cases (ltb (h.key c) x)) [
    | inl e ↦ inl (ground (arith, e))
    | inr e ↦ elim (Bool-cases (h.key c == x)) [
      | inl d ↦ inr (inl (==→≡ (h.key c) x d, rw (e, d) refl))
      | inr d ↦ inr (inr (ground (arith, e, d), rw (e, d) refl))
    ]
  ]
  Correct-exec no_value (seek x c) n g = elim (Bool-cases (ltb (h.key c) x)) [
    | inl e ↦ inl (ground (arith, e), rw e refl)
    | inr e ↦ elim (Bool-cases (h.key c == x)) [
      | inl d ↦ inr (inl (==→≡ (h.key c) x d, rw (e, d) refl))
      | inr d ↦ inr (inr (ground (arith, e, d), rw (e, d) refl))
    ]
  ]
  Correct-exec no_value (check x c) n (a0, a1, a2, a3) = elim (Bool-cases (h.marked c)) [
    | inl e ↦ inl (e, rw e refl)
    | inr e ↦ inr ((found c x a2 e a0 a3).1, rw e refl)
  ]

  module _ (no_value : ℕ) (n : Ptr) (new : used n ≡ false) where
    pub effect-exec :
        (q : Pc) (y : ℕ)
        → Good max head h chain q
        → contents (exec no_value head q n h).0 (chain_after head q n chain) y
          ≡ effect q (contents h chain) y
    unfolding exec
    effect-exec idle y g = refl
    effect-exec (done r) y g = refl
    effect-exec (answered b) y g = refl
    effect-exec (queried lo hi out) y g = refl
    effect-exec (start op x) y g = refl
    effect-exec (walk op x p c) y g = refl
    effect-exec (test_pred op x p c) y g = refl
    effect-exec (test_curr op x p c) y g = refl
    effect-exec (test_link op x p c) y g = refl
    effect-exec (retry_curr x p c) y g = refl
    effect-exec (retry_pred op x p) y g = refl
    effect-exec (recheck v o x p c) y g = refl
    effect-exec (fetch v x p c) y g = refl
    effect-exec (take x p c) y g = refl
    effect-exec (after x p c r) y g = refl
    effect-exec (free_curr p c r) y g = refl
    effect-exec (free_pred p r) y g = refl
    effect-exec (seek x c) y g = refl
    effect-exec (look x c) y g = refl
    effect-exec (enter lo hi) y g = refl
    effect-exec (skip lo hi c) y g = refl
    effect-exec (scan lo hi c out) y g = refl
    effect-exec (advance lo hi c out) y g = refl
    effect-exec (lock_pred op x p c) y g = elim (Bool-cases (h.lock p)) [
      | inl e ↦ rw e refl
      | inr e ↦ rw e refl
    ]
    effect-exec (lock_curr x p c) y g = elim (Bool-cases (h.lock c)) [
      | inl e ↦ rw e refl
      | inr e ↦ rw e refl
    ]
    effect-exec (grab v x p c) y g = elim (Bool-cases (h.lock c)) [
      | inl e ↦ rw e refl
      | inr e ↦ rw e refl
    ]
    effect-exec (peek x p c) y g = refl
    effect-exec (check x c) y g = refl
    effect-exec (unlink p c r next) y (a0, a1, a2, a3, a4, a5, a6) =
        content-drop max h.next h.key h.val h.marked head chain p y tidy.links (ap h.marked a2 ∙ a3)
    effect-exec (store v x p c r) y ((held, b, d), e) =
        store-content c x v y (found c x held.1 d held.6 b).0 d b
    effect-exec (mark x p c r next) y ((held, b, d), e, _) =
        mark-content c x y (found c x held.1 d held.6 b).0 b
    effect-exec (link v o x p c) y ((a0, a1, a2, a3, a4, a5, a6), above) =
        let lp : h.key p < max = omega (arith, a4, a5) in
        let after_link = Tidy-link max head h used chain tidy p c a0 a2 lp a3 n x v new a4 above in
        link-content n x v p c y after_link.links (in_chain max head h used chain tidy p a0 a2)
          (λ m i. elim (Bool-cases (n == m)) [
            | inl e ↦
                let k : known head h chain m ≡ true = ground (arith, i) in
                absurd (ground (arith, sym (tidy.taken m k) ∙ ap used (sym (==→≡ n m e)) ∙ new))
            | inr e ↦ e
          ])
