-- ===== src/Bst/Tree/Frame.antt =====
-- Which changes of a memory keep the tree at a pointer, and what a change at the end of a search path
-- makes of it.
use vcaslib.Common.{
  ℕ, ◌+◌, ◌*◌, ◌/◌, ◌≤◌, ◌<◌, ◌≡◌, ◌≢◌, ◌⊎◌, inl, inr, refl, sym, ◌∙◌, false, Option, none, some,
  [], ◌∷◌, if◌then◌else◌, ◌==◌, ==-refl, Bool-cases, arith,
}
use vcaslib.Common.Arrays.{count, one_if, count-append}
use vcaslib.Rq.{Ptr, Addr, null}
use vcaslib.Bst.{left_of, right_of}
use vcaslib.Bst.Tree.{
  Tree, leaf, node, ptrs, top, At, goes_left, get, Way, stop, turn_left, turn_right, plug,
}

pub At-top :
    (f : Addr → Ptr) (key value : Ptr → ℕ) (q : Ptr) (t : Tree) → At f key value q t → q ≡ top t
At-top f key value q (leaf p k v) h = h.0
At-top f key value q (node p k l r) h = h.0

pub At-null :
    (f : Addr → Ptr) (key value : Ptr → ℕ) (q : Ptr) (t : Tree) → At f key value q t → q ≢ null
At-null f key value q (leaf p k v) h = λ e. h.1 (sym h.0 ∙ e)
At-null f key value q (node p k l r) h = λ e. h.1 (sym h.0 ∙ e)

-- The child pointers, key and value of a node are the same in two memories.
abbrev pub Alike : (f f' : Addr → Ptr) → (key key' value value' : Ptr → ℕ) → Ptr → Type 0
Alike f f' key key' value value' p =
    (f' (left_of p) ≡ f (left_of p))
    × (f' (right_of p) ≡ f (right_of p))
    × (key' p ≡ key p)
    × (value' p ≡ value p)

module _ (f f' : Addr → Ptr) (key key' value value' : Ptr → ℕ) where
  pub At-frame :
      (q : Ptr) (t : Tree)
      → ((p : Ptr) → 0 < count p (ptrs t) → Alike f f' key key' value value' p)
      → At f key value q t
      → At f' key' value' q t
  At-frame q (leaf p k v) same h =
      let (a, b, c, d) = same p (rw (==-refl p) (omega arith)) in
      (h.0, h.1, c ∙ h.2, d ∙ h.3, a ∙ h.4)
  At-frame q (node p k l r) same h =
      let (a, b, c, d) = same p (rw (==-refl p) (omega arith)) in
      (
        h.0,
        h.1,
        c ∙ h.2,
        rw a (
            At-frame (f (left_of p)) l
              (λ y i. same y (omega (arith, i, count-append y (ptrs l) (ptrs r)))) h.3),
        rw b (
            At-frame (f (right_of p)) r
              (λ y i. same y (omega (arith, i, count-append y (ptrs l) (ptrs r)))) h.4),
      )

-- The node that an address belongs to.
abbrev pub owner : Addr → Ptr
owner a = a / 2

module _ {no_key x : ℕ} where
  -- The address at the end of a path belongs to a node of the tree, if the path has a step.
  pub Way-owner :
      {a b : Addr} {gp p gp' p' : Ptr} {t e : Tree}
      → Way no_key x a gp p t b gp' p' e
      → (b ≡ a) ⊎ (0 < count (owner b) (ptrs t))
  Way-owner stop = inl refl
  Way-owner (turn_left {b = b} {q = q} {l = l} {r = r} g w) = elim (Way-owner w) [
    | inl e ↦ inr (let o : owner (2 * q) ≡ q = omega arith in rw (e, o, ==-refl q) (omega arith))
    | inr i ↦ inr (omega (arith, i, count-append (owner b) (ptrs l) (ptrs r)))
  ]
  Way-owner (turn_right {b = b} {q = q} {l = l} {r = r} g w) = elim (Way-owner w) [
    | inl e ↦
        inr (let o : owner (2 * q + 1) ≡ q = omega arith in rw (e, o, ==-refl q) (omega arith))
    | inr i ↦ inr (omega (arith, i, count-append (owner b) (ptrs l) (ptrs r)))
  ]

  -- The subtree at the end of a path, at the address that holds it.
  pub Way-end :
      {a b : Addr} {gp p gp' p' : Ptr} {t e : Tree} (f : Addr → Ptr) (key value : Ptr → ℕ)
      → Way no_key x a gp p t b gp' p' e
      → At f key value (f a) t
      → At f key value (f b) e
  Way-end f key value stop h = h
  Way-end f key value (turn_left g w) h = Way-end f key value w h.3
  Way-end f key value (turn_right g w) h = Way-end f key value w h.4

  pub count-end :
      {a b : Addr} {gp p gp' p' : Ptr} {t e : Tree} (y : Ptr)
      → Way no_key x a gp p t b gp' p' e
      → count y (ptrs e) ≤ count y (ptrs t)
  count-end y stop = omega arith
  count-end y (turn_left {l = l} {r = r} g w) =
      omega (arith, count-end y w, count-append y (ptrs l) (ptrs r))
  count-end y (turn_right {l = l} {r = r} g w) =
      omega (arith, count-end y w, count-append y (ptrs l) (ptrs r))

  -- The node in front of the path's end is not below it.
  pub Way-apart :
      {a b : Addr} {gp p gp' p' : Ptr} {t e : Tree}
      → Way no_key x a gp p t b gp' p' e
      → ((y : Ptr) → count y (owner a ∷ ptrs t) ≤ 1)
      → count (owner b) (ptrs e) ≡ 0
  Way-apart {a = a} {t = t} stop once =
      let h : one_if (owner a == owner a) + count (owner a) (ptrs t) ≤ 1 = once (owner a) in
      let h' : 1 + count (owner a) (ptrs t) ≤ 1 = rw (==-refl (owner a)) at h in omega (arith, h')
  Way-apart {a = a} (turn_left {q = q} {l = l} {r = r} g w) once =
      let o : owner (2 * q) ≡ q = omega arith in
      Way-apart w (λ y. rw o (omega (arith, once y, count-append y (ptrs l) (ptrs r))))
  Way-apart {a = a} (turn_right {q = q} {l = l} {r = r} g w) once =
      let o : owner (2 * q + 1) ≡ q = omega arith in
      Way-apart w (λ y. rw o (omega (arith, once y, count-append y (ptrs l) (ptrs r))))

  -- The leaf at the end of a path.
  pub Way-leaf :
      {a b : Addr} {gp p gp' p' m : Ptr} {c v : ℕ} {t : Tree} (f : Addr → Ptr) (key value : Ptr → ℕ)
      → Way no_key x a gp p t b gp' p' (leaf m c v)
      → At f key value (f a) t
      → (f b ≡ m) × At f key value m (leaf m c v) × (0 < count m (ptrs t))
  Way-leaf {m = m} f key value w h =
      let (i, nz, k, v, n) = Way-end f key value w h in
      (
        i,
        (refl, nz, k, v, n),
        omega (arith, count-end m w, let one : count m (m ∷ []) ≡ 1 = rw (==-refl m) refl in one),
      )

  -- A search for the path's key comes to the path's end.
  pub get-end :
      {a b : Addr} {gp p gp' p' : Ptr} {t e : Tree}
      → Way no_key x a gp p t b gp' p' e
      → get no_key t x ≡ get no_key e x
  unfolding get
  get-end stop = refl
  get-end (turn_left g w) = rw g (get-end w)
  get-end (turn_right g w) = rw g (get-end w)

  pub Way-get :
      {a b : Addr} {gp p gp' p' m : Ptr} {c v : ℕ} {t : Tree}
      → Way no_key x a gp p t b gp' p' (leaf m c v)
      → get no_key t x ≡ (if x == c then some v else none)
  unfolding get
  Way-get w = get-end w

  pub count-plug :
      {a b : Addr} {gp p gp' p' : Ptr} {t e : Tree} (t' : Tree) (y : ℕ)
      → (w : Way no_key x a gp p t b gp' p' e)
      → count y (ptrs (plug w t')) + count y (ptrs e) ≡ count y (ptrs t) + count y (ptrs t')
  unfolding plug
  count-plug t' y stop = omega arith
  count-plug t' y (turn_left {l = l} {r = r} g w) = omega (
    arith,
    count-plug t' y w,
    count-append y (ptrs l) (ptrs r),
    count-append y (ptrs (plug w t')) (ptrs r),
  )
  count-plug t' y (turn_right {l = l} {r = r} g w) = omega (
    arith,
    count-plug t' y w,
    count-append y (ptrs l) (ptrs r),
    count-append y (ptrs l) (ptrs (plug w t')),
  )

  -- A key is found in the new tree as in the old one, if so in what has come to the path's end.
  pub get-plug :
      {a b : Addr} {gp p gp' p' : Ptr} {t e : Tree} (t' : Tree) (new : Option ℕ) (y : ℕ)
      → (w : Way no_key x a gp p t b gp' p' e)
      → get no_key t' y ≡ (if y == x then new else get no_key e y)
      → get no_key (plug w t') y ≡ (if y == x then new else get no_key t y)
  unfolding get plug
  get-plug t' new y stop h = h
  get-plug t' new y (turn_left {k = k} g u) h = elim (Bool-cases (goes_left no_key y k)) [
    | inl e ↦ rw e (get-plug t' new y u h)
    | inr e ↦ let d : (y == x) ≡ false = ground (arith, e, g) in rw (e, d) refl
  ]
  get-plug t' new y (turn_right {k = k} g u) h = elim (Bool-cases (goes_left no_key y k)) [
    | inr e ↦ rw e (get-plug t' new y u h)
    | inl e ↦ let d : (y == x) ≡ false = ground (arith, e, g) in rw (e, d) refl
  ]
