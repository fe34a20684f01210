-- ===== src/Bst/Tree/Order.antt =====
-- The keys and the order of a tree with another subtree at the end of a search path, and on which
-- side of its node the path ends.
use vcaslib.Common.{
  ℕ, ◌≤◌, ◌≡◌, ◌≢◌, ◌⊎◌, inl, inr, refl, ap, sym, ◌∙◌, true, ◌||◌, List, [], ◌∷◌, ◌++◌, has, arith,
}
use vcaslib.Common.Arrays.{count, count-append}
use vcaslib.Rq.{Ptr, Addr}
use vcaslib.Bst.{left_of, right_of}
use vcaslib.Bst.Tree.{Tree, ptrs, top, At, keys, Ordered, Way, stop, turn_left, turn_right, plug}
use vcaslib.Bst.Tree.Frame.{At-top}
use vcaslib.Bst.Tree.Plug.{top-in}

pub has-append : (y : ℕ) (xs ys : List ℕ) → has y (xs ++ ys) ≡ (has y xs || has y ys)
has-append y [] ys = refl
has-append y (x ∷ xs) ys = ground (arith, has-append y xs ys)

pub in_append :
    (y : ℕ) (xs ys : List ℕ) → has y (xs ++ ys) ≡ true → (has y xs ≡ true) ⊎ (has y ys ≡ true)
in_append y xs ys h = ground (arith, has-append y xs ys)

pub in_left : (y : ℕ) (xs ys : List ℕ) → has y xs ≡ true → has y (xs ++ ys) ≡ true
in_left y xs ys h = ground (arith, has-append y xs ys)

pub in_right : (y : ℕ) (xs ys : List ℕ) → has y ys ≡ true → has y (xs ++ ys) ≡ true
in_right y xs ys h = ground (arith, has-append y xs ys)

-- The address `c` is a child slot of `y`, and if the right one, the left one holds another node.
abbrev pub Side : (Addr → Ptr) → Addr → Ptr → Type 0
Side f c y = (c ≡ left_of y) ⊎ ((c ≡ right_of y) × (f (left_of y) ≢ f c))

-- Two subtrees of a node whose pointers are distinct have different tops.
pub tops_differ :
    (q : Ptr) (l r : Tree) → ((y : Ptr) → count y (q ∷ ptrs l ++ ptrs r) ≤ 1) → top l ≢ top r
tops_differ q l r once e = omega (
  arith,
  once (top r),
  count-append (top r) (ptrs l) (ptrs r),
  top-in r,
  ap (λ z. count z (ptrs l)) e,
  top-in l,
)

module _ {no_key x : ℕ} where
  pub Way-Side :
      {a b : Addr} {gp p gp' p' : Ptr} {t e : Tree} (f : Addr → Ptr) (key value : Ptr → ℕ)
      → Way no_key x a gp p t b gp' p' e
      → At f key value (f a) t
      → ((y : Ptr) → count y (ptrs t) ≤ 1)
      → Side f a p
      → Side f b p'
  Way-Side f key value stop h once s = s
  Way-Side f key value (turn_left {q = q} {l = l} {r = r} g w) h once s =
      Way-Side f key value w h.3 (λ y. omega (arith, once y, count-append y (ptrs l) (ptrs r)))
        (inl refl)
  Way-Side f key value (turn_right {q = q} {l = l} {r = r} g w) h once s =
      Way-Side f key value w h.4 (λ y. omega (arith, once y, count-append y (ptrs l) (ptrs r)))
        (inr (
          refl,
          λ z.
              tops_differ q l r once
                (sym (At-top f key value _ l h.3) ∙ z ∙ At-top f key value _ r h.4),
        ))

  pub keys-plug :
      {a b : Addr} {gp p gp' p' : Ptr} {t e : Tree} (t' : Tree)
      → (w : Way no_key x a gp p t b gp' p' e)
      → ((y : ℕ) → has y (keys no_key t') ≡ true → (y ≡ x) ⊎ (has y (keys no_key e) ≡ true))
      → (y : ℕ) → has y (keys no_key (plug w t')) ≡ true
      → (y ≡ x) ⊎ (has y (keys no_key t) ≡ true)
  unfolding plug
  keys-plug t' stop h y i = h y i
  keys-plug t' (turn_left {l = l} {r = r} g w) h y i =
      elim (in_append y (keys no_key (plug w t')) (keys no_key r) i) [
        | inl j ↦ elim (keys-plug t' w h y j) [
          | inl e ↦ inl e
          | inr e ↦ inr (in_left y (keys no_key l) (keys no_key r) e)
        ]
        | inr j ↦ inr (in_right y (keys no_key l) (keys no_key r) j)
      ]
  keys-plug t' (turn_right {l = l} {r = r} g w) h y i =
      elim (in_append y (keys no_key l) (keys no_key (plug w t')) i) [
        | inl j ↦ inr (in_left y (keys no_key l) (keys no_key r) j)
        | inr j ↦ elim (keys-plug t' w h y j) [
          | inl e ↦ inl e
          | inr e ↦ inr (in_right y (keys no_key l) (keys no_key r) e)
        ]
      ]

  pub plug-Ordered :
      {a b : Addr} {gp p gp' p' : Ptr} {t e : Tree} (t' : Tree)
      → (w : Way no_key x a gp p t b gp' p' e)
      → ((y : ℕ) → has y (keys no_key t') ≡ true → (y ≡ x) ⊎ (has y (keys no_key e) ≡ true))
      → Ordered no_key t
      → Ordered no_key t'
      → Ordered no_key (plug w t')
  unfolding plug
  plug-Ordered t' stop h o o' = o'
  plug-Ordered t' (turn_left {k = k} g w) h (ol, or, l, r) o' = (
    λ y i. elim (keys-plug t' w h y i) [ inl e ↦ rw e g | inr e ↦ ol y e ],
    or,
    plug-Ordered t' w h l o',
    r,
  )
  plug-Ordered t' (turn_right {k = k} g w) h (ol, or, l, r) o' = (
    ol,
    λ y i. elim (keys-plug t' w h y i) [ inl e ↦ rw e g | inr e ↦ or y e ],
    l,
    plug-Ordered t' w h r o',
  )

  pub Ordered-end :
      {a b : Addr} {gp p gp' p' : Ptr} {t e : Tree}
      → Way no_key x a gp p t b gp' p' e
      → Ordered no_key t
      → Ordered no_key e
  Ordered-end stop o = o
  Ordered-end (turn_left g w) o = Ordered-end w o.2
  Ordered-end (turn_right g w) o = Ordered-end w o.3
