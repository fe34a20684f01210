-- ===== src/Bst/Tree.antt =====
-- The tree that a memory holds, as a value: which pointers lead where, what is in it, and what the
-- operations do to it.
pub mod Frame
pub mod Plug
pub mod Order
use vcaslib.Common.{
  ℕ, zero, suc, ◌+◌, ◌≤◌, ◌<◌, ◌≡◌, ◌≢◌, Bool, true, false, ◌||◌, Option, none, some, List, [], ◌∷◌,
  ◌++◌, if◌then◌else◌, ◌==◌, ltb, has,
}
use vcaslib.Rq.{Ptr, Addr, null}
use vcaslib.Bst.{left_of, right_of}

pub data Tree : Type 0 where
  leaf : (p : Ptr) → (key value : ℕ) → Tree
  node : (p : Ptr) → (key : ℕ) → (left right : Tree) → Tree

abbrev pub ptrs : Tree → List Ptr
ptrs (leaf p k v) = p ∷ []
ptrs (node p k l r) = p ∷ ptrs l ++ ptrs r

abbrev pub top : Tree → Ptr
top (leaf p k v) = p
top (node p k l r) = p

abbrev pub height : Tree → ℕ
height (leaf p k v) = 0
height (node p k l r) = suc (if ltb (height l) (height r) then height r else height l)

-- The tree at a pointer of a memory that is given by the child pointers, the keys and the values.
abbrev pub At : (Addr → Ptr) → (Ptr → ℕ) → (Ptr → ℕ) → Ptr → Tree → Type 0
At field key value q (leaf p k v) =
    (q ≡ p) × (p ≢ null) × (key p ≡ k) × (value p ≡ v) × (field (left_of p) ≡ null)
At field key value q (node p k l r) =
    (q ≡ p)
    × (p ≢ null)
    × (key p ≡ k)
    × At field key value (field (left_of p)) l
    × At field key value (field (right_of p)) r

-- The keys that go left at a node; NO_KEY stands above all keys.
abbrev pub goes_left : (no_key key at_node : ℕ) → Bool
goes_left no_key key at_node = (at_node == no_key) || ltb key at_node

module _ (no_key : ℕ) where
  -- What a search for a key finds.
  unfoldable pub get : Tree → ℕ → Option ℕ
  get (leaf p k v) key = if key == k then some v else none
  get (node p k l r) key =
      let left = get l key in
      let right = get r key in if goes_left no_key key k then left else right

  -- The keys and the values in the tree, in the order of the leaves.
  abbrev pub contents : Tree → List (ℕ × ℕ)
  contents (leaf p k v) = if k == no_key then [] else (k, v) ∷ []
  contents (node p k l r) = contents l ++ contents r

  abbrev pub keys : Tree → List ℕ
  keys (leaf p k v) = if k == no_key then [] else k ∷ []
  keys (node p k l r) = keys l ++ keys r

  -- The order of a search tree.
  abbrev pub Ordered : Tree → Type 0
  Ordered (leaf p k v) = Unit
  Ordered (node p k l r) =
      ((x : ℕ) → has x (keys l) ≡ true → goes_left no_key x k ≡ true)
      × ((x : ℕ) → has x (keys r) ≡ true → goes_left no_key x k ≡ false)
      × Ordered l
      × Ordered r

  -- The search path of a key from the address that holds a tree to the address that holds one of
  -- its subtrees, with the last two nodes in front of either.
  pub data Way (x : ℕ)
      : (a : Addr) → (gp p : Ptr) → Tree → Addr → (gp' p' : Ptr) → Tree → Type 0 where
    stop : {a : Addr} {gp p : Ptr} {t : Tree} → Way x a gp p t a gp p t
    turn_left :
        {a b : Addr} {gp p q gp' p' : Ptr} {k : ℕ} {l r e : Tree}
        → goes_left no_key x k ≡ true
        → Way x (left_of q) p q l b gp' p' e
        → Way x a gp p (node q k l r) b gp' p' e
    turn_right :
        {a b : Addr} {gp p q gp' p' : Ptr} {k : ℕ} {l r e : Tree}
        → goes_left no_key x k ≡ false
        → Way x (right_of q) p q r b gp' p' e
        → Way x a gp p (node q k l r) b gp' p' e

module _ {no_key x : ℕ} where
  -- A tree with another subtree at the end of a search path.
  unfoldable pub plug :
      {a b : Addr} {gp p gp' p' : Ptr} {t e : Tree} → Way no_key x a gp p t b gp' p' e → Tree → Tree
  plug stop t' = t'
  plug (turn_left {q = q} {k = k} {l = l} {r = r} g w) t' = node q k (plug w t') r
  plug (turn_right {q = q} {k = k} {l = l} {r = r} g w) t' = node q k l (plug w t')

-- The copy of a tree's top at another pointer.
abbrev pub copied : Ptr → Tree → Tree
copied n (leaf p k v) = leaf n k v
copied n (node p k l r) = node n k l r
